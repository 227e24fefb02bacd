-- ===== src/Host/Evaluate.antt =====
-- `evaluateOutcomes` and `analyzeHostCollectorResults` of pkg/analyze/host_analyzer.go.
pub mod PerNode
use mathlib.Core.Path.{subst}
use Prim.Native.String.{◌++◌ as ◌⧺◌}
use troubleshoot.Prelude.{
  ℕ, ◌+◌, ◌≤◌, String, ◌≡◌, refl, sym, ap, ◌∙◌, Bool, true, false, not, Option, none, some, List,
  [], ◌∷◌, ◌++◌, ◌==◌, if◌then◌else◌, arith, length, length-append, Any, All, ◌≢◌, eq_iff,
  Option-cases, inl, inr, Bool-cases,
}
use troubleshoot.Go.Result.{Result, ok, err, panic, wrap, ◌>>=◌, collect, bind-inv, wrap-ok}
use troubleshoot.Analyze.Types.{
  SingleOutcome, Outcome, AnalyzeResult, Severity, chosen, report, blank, flags,
}
use troubleshoot.Analyze.Outcomes.{
  Branch, outcome_loop, outcome_loop_inv, outcome_loop_iff, verdict,
}
use troubleshoot.Host.Contents.{CollectedContent}

unfoldable pub host_branch : (String → Result Bool) → String → Branch (List AnalyzeResult)
host_branch check title severity s =
    let reported = report severity s.message s.uri (blank title "" "") ∷ [] in
    if s.when == "" then ok (some reported) else do
      match ← wrap ("failed to compare " ⧺ s.when) (check s.when)
      ok (if match then some reported else none)

unfoldable pub evaluate_outcomes :
    (String → Result Bool) → String → List Outcome → Result (List AnalyzeResult)
evaluate_outcomes check title outcomes = outcome_loop (host_branch check title) [] outcomes

abbrev pub title_of : {Data : Type 0} → String → CollectedContent Data → String
title_of title content =
    if content.node_name == "" then title else title ⧺ " - Node " ⧺ content.node_name

-- `check` is the condition, with the data of the node.
module _ {Data : Type 0} (check : Data → String → Result Bool) (outcomes : List Outcome)
    (title : String) where
  unfoldable pub analyze_host_collector_results :
      List (CollectedContent Data) → Result (List AnalyzeResult)
  unfolding evaluate_outcomes
  analyze_host_collector_results contents =
      collect
        (λ content.
          wrap "failed to evaluate outcomes"
            (evaluate_outcomes (check content.data_of) (title_of title content) outcomes))
        contents

-- `hostAnalyzerTitleOrDefault`
unfoldable pub host_analyzer_title_or_default : String → String → String
host_analyzer_title_or_default check_name default_title =
    if check_name == "" then default_title else check_name
