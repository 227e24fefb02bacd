-- ===== src/Analyze/StatefulSet.antt =====
-- pkg/analyze/statefulset_status.go
pub mod All
use Prim.Native.String.{◌++◌ as ◌⧺◌}
use troubleshoot.Prelude.{
  String, Bool, true, false, Option, none, some, List, [], ◌∷◌, ◌==◌, if◌then◌else◌, ℤ, pos, eqb_ℤ,
  first, is_nil,
}
use troubleshoot.Go.Result.{Result, ok, panic, wrap, collect, map_result, ◌>>=◌}
use troubleshoot.Go.Strconv.{itoa}
use troubleshoot.Analyze.Types.{AnalyzeResult, blank}
use troubleshoot.Analyze.Status.{common_status}
use troubleshoot.Analyze.Workload.{
  StatusSpec, status_title, resource_file, files_or_all, with_strict, as_list, last_of_files,
}

-- what is read of an `appsv1.StatefulSet`
pub record StatefulSet : Type 0 where
  pub namespace : String
  pub name : String
  pub replicas : ℤ
  pub ready_replicas : ℤ

abbrev pub statefulset_icon : String
statefulset_icon = "https://troubleshoot.sh/images/analyzer-icons/statefulset-status.svg?w=23&h=14"

unfoldable pub statefulset_title : StatusSpec → String
unfolding status_title
statefulset_title a = status_title "Statefulset" a

unfoldable pub get_default_stateful_set_result : StatefulSet → Option AnalyzeResult
get_default_stateful_set_result s =
    let full_name = s.namespace ⧺ "/" ⧺ s.name in
    let title = full_name ⧺ " Statefulset Status" in
    if eqb_ℤ s.replicas s.ready_replicas
    then none
    else some (record (blank title "kubernetes_statefulset_status" statefulset_icon) {
      is_fail = true;
      message =
          "The statefulset "
          ⧺ full_name
          ⧺ " has "
          ⧺ itoa s.ready_replicas
          ⧺ "/"
          ⧺ itoa s.replicas
          ⧺ " replicas";
    })

abbrev found : Option StatefulSet → Bool
found none = false
found (some s) = true

ready_of : Option StatefulSet → ℤ
ready_of none = pos 0
ready_of (some s) = s.ready_replicas

-- the method call reads the fields of a nil pointer where no stateful set was found
default_of : Option StatefulSet → Result (Option AnalyzeResult)
default_of none = panic "invalid memory address or nil pointer dereference"
default_of (some s) = ok (get_default_stateful_set_result s)

module _ {Data : Type 0} (get_file_contents : String → List String → Result (List Data))
    (unmarshal : Data → Result (List StatefulSet)) where
  decoded : Data → Result (List StatefulSet)
  decoded d = wrap "failed to unmarshal statefulset list" (unmarshal d)

  by_outcomes : StatusSpec → Option StatefulSet → Result (Option AnalyzeResult)
  by_outcomes a statefulset = do
    r ← wrap "failed to process status" (
        common_status a.outcomes (record {
          name = a.name;
          icon_key = "kubernetes_statefulset_status";
          icon_uri = statefulset_icon;
          ready_replicas = ready_of statefulset;
          exists = found statefulset;
          resource_type = "statefulset";
        }))
    ok (some r)

  one_file : StatusSpec → Data → Result (Option AnalyzeResult)
  one_file a d = do
    statefulsets ← decoded d
    let statefulset = first (λ s. s.name == a.name) statefulsets
    if is_nil a.outcomes then default_of statefulset else by_outcomes a statefulset

  unfoldable pub analyze_one_statefulset_status : StatusSpec → Result (List AnalyzeResult)
  unfolding decoded by_outcomes one_file default_of ready_of get_default_stateful_set_result
  analyze_one_statefulset_status a = do
    files ←
        wrap "failed to read collected statefulsets from namespace"
          (get_file_contents (resource_file "statefulsets" a.namespace) [])
    result ← last_of_files (one_file a) none files
    ok (as_list result)

  default_in : Data → Result (List AnalyzeResult)
  default_in d = do
    statefulsets ← decoded d
    collect (λ s. ok (as_list (get_default_stateful_set_result s))) statefulsets

  default_in_file : String → Result (List AnalyzeResult)
  default_in_file file = do
    files ← wrap "failed to read collected statefulsets from namespace" (get_file_contents file [])
    collect default_in files

  unfoldable pub analyze_all_statefulset_statuses : StatusSpec → Result (List AnalyzeResult)
  unfolding decoded default_in default_in_file get_default_stateful_set_result
  analyze_all_statefulset_statuses a = collect default_in_file (files_or_all "statefulsets" a)

  unfoldable pub analyze_statefulset_status : StatusSpec → Result (List AnalyzeResult)
  analyze_statefulset_status a =
      if a.name == "" then analyze_all_statefulset_statuses a else analyze_one_statefulset_status a

  -- the method `Analyze`
  unfoldable pub analyze_statefulset : StatusSpec → Result (List AnalyzeResult)
  unfolding analyze_statefulset_status
  analyze_statefulset a = map_result (with_strict a) (analyze_statefulset_status a)
