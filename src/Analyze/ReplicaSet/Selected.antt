-- ===== src/Analyze/ReplicaSet/Selected.antt =====
-- The selector of `analyzeAllReplicaSetStatuses`.
use mathlib.Core.Path.{fun_ext}
use troubleshoot.Prelude.{
  String, ◌≡◌, refl, Bool, List, [], ◌∷◌, ◌++◌, select, Bool-cases, inl, inr, if◌then◌else◌, ap,
  ◌∙◌,
}
use troubleshoot.Go.Result.{Result, ok, wrap, collect, map_result, ◌>>=◌}
use troubleshoot.Go.Filepath.{join_with}
use troubleshoot.Analyze.Types.{AnalyzeResult}
use troubleshoot.Analyze.Workload.{StatusSpec, files_or_all, as_list}
use troubleshoot.Analyze.Workload.Scan.{gather, items_in, scan-gather}
use troubleshoot.Analyze.ReplicaSet.{
  ReplicaSet, get_default_replica_set_result, result_of, selected, selected_in, selected_in_file,
  analyze_all_replica_set_statuses,
}

module _ {Labels : Type 0} where
  abbrev pub replicaset_reports : ReplicaSet Labels → List AnalyzeResult
  replicaset_reports r = as_list (get_default_replica_set_result r)

  reports_if : (Labels → Bool) → ReplicaSet Labels → List AnalyzeResult
  reports_if matches r = if matches r.labels then replicaset_reports r else []

  -- the reports of the replica sets that the selector takes
  abbrev pub selected_reports : (Labels → Bool) → List (ReplicaSet Labels) → List AnalyzeResult
  selected_reports matches rs = gather replicaset_reports (select (λ r. matches r.labels) rs)

  gather-reports_if :
      (matches : Labels → Bool) (rs : List (ReplicaSet Labels))
      → gather (reports_if matches) rs ≡ selected_reports matches rs
  unfolding gather reports_if
  gather-reports_if matches [] = refl
  gather-reports_if matches (r ∷ rs) = elim (Bool-cases (matches r.labels)) [
    | inl e ↦ rw e (ap (λ l. replicaset_reports r ++ l) (gather-reports_if matches rs))
    | inr e ↦ rw e (gather-reports_if matches rs)
  ]

  map_result-reports_if :
      (matches : Labels → Bool) (r : Result (List (ReplicaSet Labels)))
      → map_result (gather (reports_if matches)) r ≡ map_result (selected_reports matches) r
  map_result-reports_if matches (ok rs) = ap ok (gather-reports_if matches rs)
  map_result-reports_if matches _ = refl

module _ {Data Labels : Type 0} (get_file_contents : String → List String → Result (List Data))
    (unmarshal : Data → Result (List (ReplicaSet Labels)))
    (parse_selector : String → Result (Labels → Bool)) where
  abbrev pub read_replicasets : String → Result (List Data)
  read_replicasets file =
      wrap "failed to read collected replicaset from file" (get_file_contents file [])

  abbrev pub decode_replicasets : Data → Result (List (ReplicaSet Labels))
  decode_replicasets d = wrap "failed to unmarshal replicaset list" (unmarshal d)

  selected-reports_if :
      (a : StatusSpec) (matches : Labels → Bool)
      → a.outcomes ≡ []
      → (r : ReplicaSet Labels)
      → selected get_file_contents unmarshal parse_selector a matches r ≡ ok (reports_if matches r)
  unfolding selected result_of reports_if
  selected-reports_if a matches h r = elim (Bool-cases (matches r.labels)) [
    | inl e ↦ rw (e, h)
    | inr e ↦ rw e
  ]

  selected_in_file-scan :
      (a : StatusSpec) (matches : Labels → Bool)
      → a.outcomes ≡ []
      → parse_selector (join_with "," a.selector) ≡ ok matches
      → (file : String)
      → selected_in_file get_file_contents unmarshal parse_selector a file ≡ (
          read_replicasets file
          >>= collect (λ d. decode_replicasets d >>= collect (λ r. ok (reports_if matches r))))
  unfolding selected_in_file selected_in
  selected_in_file-scan a matches h p file = rw p (
      ap (λ g. read_replicasets file >>= collect (λ d. decode_replicasets d >>= collect g))
        (fun_ext (selected-reports_if a matches h)))

  -- If the spec has no outcomes and its selector parses, the analyzer gives the default report of
  -- each replica set that is read and that the selector takes, in order, and nothing else.
  analyze_all_replica_set_statuses-selected :
      (a : StatusSpec) (matches : Labels → Bool)
      → a.outcomes ≡ []
      → parse_selector (join_with "," a.selector) ≡ ok matches
      → analyze_all_replica_set_statuses get_file_contents unmarshal parse_selector a
        ≡ map_result
            (selected_reports matches)
            (collect (items_in read_replicasets decode_replicasets) (files_or_all "replicasets" a))
  unfolding analyze_all_replica_set_statuses
  analyze_all_replica_set_statuses-selected a matches h p =
      rw (fun_ext (selected_in_file-scan a matches h p)) (
        scan-gather (reports_if matches) read_replicasets decode_replicasets
          (files_or_all "replicasets" a)
        ∙ map_result-reports_if matches _)
