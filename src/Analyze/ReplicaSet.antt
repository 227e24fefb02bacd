-- ===== src/Analyze/ReplicaSet.antt =====
-- pkg/analyze/replicaset_status.go
pub mod Selected
use Prim.Native.String.{◌++◌ as ◌⧺◌}
use troubleshoot.Prelude.{
  String, Bool, true, false, not, Option, none, some, List, [], ◌∷◌, ◌==◌, if◌then◌else◌, ℤ, pos,
  eqb_ℤ, first, is_nil, to_int32,
}
use troubleshoot.Go.Result.{Result, ok, err, message, wrap, collect, map_result, ◌>>=◌}
use troubleshoot.Go.Text.{split, trim_space, quoted}
use troubleshoot.Go.Strconv.{atoi}
use troubleshoot.Go.Filepath.{join_with}
use troubleshoot.Analyze.Types.{Outcome, AnalyzeResult, blank}
use troubleshoot.Analyze.Outcomes.{outcome_loop}
use troubleshoot.Analyze.Compare.{compare_by}
use troubleshoot.Analyze.Status.{range_error}
use troubleshoot.Analyze.Workload.{
  StatusSpec, status_title, resource_file, files_or_all, with_strict, as_list, last_of_files,
  when_branch,
}

-- What is read of an `appsv1.ReplicaSet`. `labels` stands for its map of labels.
pub record ReplicaSet (Labels : Type 0) : Type 0 where
  pub namespace : String
  pub name : String
  pub labels : Labels
  pub spec_replicas : Option ℤ
  pub ready_replicas : ℤ
  pub available_replicas : ℤ

abbrev pub replicaset_icon : String
replicaset_icon = "https://troubleshoot.sh/images/analyzer-icons/deployment-status.svg?w=17&h=17"

unfoldable pub replicaset_title : StatusSpec → String
unfolding status_title
replicaset_title a = status_title "ReplicaSet" a

abbrev pub wanted : Option ℤ → ℤ
wanted none = pos 1
wanted (some n) = n

replicaset_not_found : String → AnalyzeResult
replicaset_not_found name =
    record (blank (name ⧺ " ReplicaSet Status") "kubernetes_deployment_status" replicaset_icon) {
      is_fail = true;
      message = "The replicaset " ⧺ quoted name ⧺ " was not found";
    }

module _ {Labels : Type 0} where
  unfoldable pub get_default_replica_set_result : ReplicaSet Labels → Option AnalyzeResult
  get_default_replica_set_result r =
      let full_name = r.namespace ⧺ "/" ⧺ r.name in
      let title = full_name ⧺ " ReplicaSet Status" in
      if eqb_ℤ (wanted r.spec_replicas) r.available_replicas
      then none
      else some (record (blank title "kubernetes_deployment_status" replicaset_icon) {
        is_fail = true;
        message = "The replicaset " ⧺ full_name ⧺ " is not ready";
      })

  by_counter : ReplicaSet Labels → String → String → ℤ → Result Bool
  by_counter r counter op value =
      if counter == "ready"
      then compare_by op r.ready_replicas (to_int32 value)
      else if counter == "available"
      then compare_by op r.available_replicas (to_int32 value)
      else err (message ("unknown when value: " ⧺ counter))

  three_parts : String → ReplicaSet Labels → List String → Result Bool
  unfolding by_counter
  three_parts when r (counter ∷ op ∷ number ∷ []) = do
    value ← wrap ("failed to parse when value: " ⧺ number) (atoi number)
    by_counter r counter op value
  three_parts when r _ = err (message ("unable to parse when range: " ⧺ when))

  unfoldable pub compare_replica_set_status_to_when : String → ReplicaSet Labels → Result Bool
  unfolding three_parts
  compare_replica_set_status_to_when when r = three_parts when r (split b' ' (trim_space when))

  unfoldable pub replicaset_status : List Outcome → ReplicaSet Labels → Result AnalyzeResult
  replicaset_status outcomes r =
      let result = blank (r.name ⧺ " Status") "kubernetes_deployment_status" replicaset_icon in
      outcome_loop (when_branch range_error (λ w. compare_replica_set_status_to_when w r) result)
        result outcomes

  -- the result for a replica set that is there
  unfoldable pub result_of : StatusSpec → ReplicaSet Labels → Result (Option AnalyzeResult)
  result_of a r =
      if is_nil a.outcomes
      then ok (get_default_replica_set_result r)
      else map_result some (wrap "failed to process status" (replicaset_status a.outcomes r))

  one_replicaset : StatusSpec → Option (ReplicaSet Labels) → Result (Option AnalyzeResult)
  unfolding replicaset_not_found result_of
  one_replicaset a none = ok (some (replicaset_not_found a.name))
  one_replicaset a (some r) = result_of a r

-- `parse_selector` is labels.Parse, with the selector that it gives as a test of labels.
module _ {Data Labels : Type 0} (get_file_contents : String → List String → Result (List Data))
    (unmarshal : Data → Result (List (ReplicaSet Labels)))
    (parse_selector : String → Result (Labels → Bool)) where
  one_file : StatusSpec → Data → Result (Option AnalyzeResult)
  one_file a d = do
    replicasets ← wrap "failed to unmarshal deployment list" (unmarshal d)
    one_replicaset a (first (λ r. r.name == a.name) replicasets)

  unfoldable pub analyze_one_replica_set_status : StatusSpec → Result (List AnalyzeResult)
  unfolding one_file one_replicaset
  analyze_one_replica_set_status a = do
    files ←
        wrap "failed to read collected replicasets from namespace"
          (get_file_contents (resource_file "replicasets" a.namespace) [])
    result ← last_of_files (one_file a) none files
    ok (as_list result)

  selected : StatusSpec → (Labels → Bool) → ReplicaSet Labels → Result (List AnalyzeResult)
  selected a matches r = if matches r.labels then map_result as_list (result_of a r) else ok []

  selected_in : StatusSpec → (Labels → Bool) → Data → Result (List AnalyzeResult)
  selected_in a matches d = do
    replicasets ← wrap "failed to unmarshal replicaset list" (unmarshal d)
    collect (selected a matches) replicasets

  selected_in_file : StatusSpec → String → Result (List AnalyzeResult)
  selected_in_file a file = do
    files ← wrap "failed to read collected replicaset from file" (get_file_contents file [])
    matches ← wrap "failed to parse selector" (parse_selector (join_with "," a.selector))
    collect (selected_in a matches) files

  unfoldable pub analyze_all_replica_set_statuses : StatusSpec → Result (List AnalyzeResult)
  unfolding selected selected_in selected_in_file result_of
  analyze_all_replica_set_statuses a = collect (selected_in_file a) (files_or_all "replicasets" a)

  unfoldable pub analyze_replica_set_status : StatusSpec → Result (List AnalyzeResult)
  analyze_replica_set_status a =
      if a.name == "" then analyze_all_replica_set_statuses a else analyze_one_replica_set_status a

  -- the method `Analyze`
  unfoldable pub analyze_replica_set : StatusSpec → Result (List AnalyzeResult)
  unfolding analyze_replica_set_status
  analyze_replica_set a = map_result (with_strict a) (analyze_replica_set_status a)
