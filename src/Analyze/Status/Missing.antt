-- ===== src/Analyze/Status/Missing.antt =====
-- The status of a workload that was not collected.
use troubleshoot.Prelude.{
  ◌≡◌, true, false, none, some, List, [], ◌∷◌, ◌==◌, if◌then◌else◌, arith, eq_iff, Any, inl, inr,
  ◌++◌, All, Option-cases, ap, ◌∙◌,
}
use troubleshoot.Go.Result.{ok}
use troubleshoot.Analyze.Types.{
  SingleOutcome, Outcome, AnalyzeResult, Severity, failing, passing, chosen, report,
}
use troubleshoot.Analyze.Outcomes.{outcome_loop}
use troubleshoot.Analyze.Status.{Subject, untouched, was_not_found, status_branch, common_status}

-- what an outcome says of a workload that does not exist
abbrev pub absent_report : Subject → Severity → SingleOutcome → AnalyzeResult
absent_report u severity s =
    if s.when == "absent"
    then report severity s.message s.uri (untouched u)
    else report failing (was_not_found u) s.uri (untouched u)

status_branch_missing :
    (u : Subject) (severity : Severity) (s : SingleOutcome)
    → u.exists ≡ false
    → status_branch u severity s ≡ ok (some (absent_report u severity s))
unfolding status_branch
status_branch_missing u severity s h = ground (arith, eq_iff s.when "", eq_iff s.when "absent")

-- If the workload does not exist, the first outcome with a branch decides, whatever its condition
-- and whatever follows: its own report if the condition is "absent", else a failure that names
-- the workload.
pub common_status_missing :
    (u : Subject) (before : List Outcome) (o : Outcome) (after : List Outcome) (severity : Severity)
    (s : SingleOutcome)
    → u.exists ≡ false
    → All (λ b. chosen b ≡ none) before
    → chosen o ≡ some (severity, s)
    → common_status (before ++ o ∷ after) u ≡ ok (absent_report u severity s)
unfolding common_status outcome_loop
common_status_missing u [] o after severity s h all c =
    rw c (rw (status_branch_missing u severity s h))
common_status_missing u (b ∷ before) o after severity s h all c =
    rw all.0 (common_status_missing u before o after severity s h all.1 c)

-- A pass outcome that asks for absence.
abbrev pub PassesAbsent : Outcome → Type 0
PassesAbsent o = (s : SingleOutcome) × (chosen o ≡ some (passing, s)) × (s.when ≡ "absent")

absent_report_passing :
    (u : Subject) (severity : Severity) (s : SingleOutcome)
    → (absent_report u severity s).is_pass ≡ true
    → (severity ≡ passing) × (s.when ≡ "absent")
unfolding report
absent_report_passing u severity s h = ground (arith, eq_iff s.when "absent")

-- A workload that does not exist passes only by a pass outcome whose condition is "absent".
common_status_missing_passes :
    (outcomes : List Outcome) (u : Subject) (r : AnalyzeResult)
    → u.exists ≡ false
    → common_status outcomes u ≡ ok r
    → r.is_pass ≡ true
    → Any PassesAbsent outcomes
unfolding common_status outcome_loop
common_status_missing_passes [] u r h e p = cc (e, p)
common_status_missing_passes (o ∷ rest) u r h e p = elim (Option-cases (chosen o)) [
  | inl n ↦ inr (common_status_missing_passes rest u r h (rw n at e) p)
  | inr ((severity, s), c) ↦
      let decided = common_status_missing u [] o rest severity s h tt c in
      let same : absent_report u severity s ≡ r = cc (decided, e) in
      let passes = absent_report_passing u severity s (rw same p) in
      inl (s, c ∙ ap (λ v. some (v, s)) passes.0, passes.1)
]
