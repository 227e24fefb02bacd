-- ===== src/Analyze/Status.antt =====
-- pkg/analyze/common_status.go: the outcomes of a workload that has a number of ready replicas.
pub mod Missing
pub mod Present
use Prim.Native.String.{◌++◌ as ◌⧺◌}
use troubleshoot.Prelude.{
  String, Bool, true, false, not, ◌&&◌, Option, none, some, List, ◌==◌, if◌then◌else◌, ℤ,
}
use troubleshoot.Go.Result.{Result, ok, wrap, ◌>>=◌}
use troubleshoot.Go.Text.{quoted}
use troubleshoot.Analyze.Types.{
  SingleOutcome, Outcome, AnalyzeResult, Severity, failing, warning, passing, blank, report,
}
use troubleshoot.Analyze.Outcomes.{Branch, outcome_loop}
use troubleshoot.Analyze.Compare.{compare_actual_to_when}

unfoldable pub range_error : Severity → String
range_error failing = "failed to parse fail range"
range_error warning = "failed to parse warn range"
range_error passing = "failed to parse pass range"

-- The resource that is analyzed, as the parameters of `commonStatus` describe it.
pub record Subject : Type 0 where
  pub name : String
  pub icon_key : String
  pub icon_uri : String
  pub ready_replicas : ℤ
  pub exists : Bool
  pub resource_type : String

abbrev pub untouched : Subject → AnalyzeResult
untouched u = blank (u.name ⧺ " Status") u.icon_key u.icon_uri

abbrev pub was_not_found : Subject → String
was_not_found u = "The " ⧺ u.resource_type ⧺ " " ⧺ quoted u.name ⧺ " was not found"

unfoldable pub status_branch : Subject → Branch AnalyzeResult
status_branch u severity s =
    let reported = report severity s.message s.uri (untouched u) in
    if not u.exists && not (s.when == "absent")
    then ok (some (report failing (was_not_found u) s.uri (untouched u)))
    else if s.when == ""
    then ok (some reported)
    else if s.when == "absent"
    then (if u.exists then ok none else ok (some reported))
    else do
      match ← wrap (range_error severity) (compare_actual_to_when s.when u.ready_replicas)
      ok (if match then some reported else none)

unfoldable pub common_status : List Outcome → Subject → Result AnalyzeResult
common_status outcomes u = outcome_loop (status_branch u) (untouched u) outcomes
