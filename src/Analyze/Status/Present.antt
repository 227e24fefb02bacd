-- ===== src/Analyze/Status/Present.antt =====
-- The status of a workload that was collected.
use troubleshoot.Prelude.{
  String, ◌≡◌, refl, Bool, true, false, not, Option, none, some, List, [], ◌∷◌, ◌==◌, arith, eq_iff,
  ◌≤◌, select, Bool-cases, inl, inr, ◌⊎◌, Option-cases,
}
use troubleshoot.Go.Result.{ok}
use troubleshoot.Analyze.Types.{
  SingleOutcome, Outcome, AnalyzeResult, Severity, failing, chosen, report, flags,
}
use troubleshoot.Analyze.Outcomes.{outcome_loop, outcome_loop_inv}
use troubleshoot.Analyze.Status.{Subject, untouched, was_not_found, status_branch, common_status}

flags-report :
    (severity : Severity) (m uri : String) (u : Subject)
    → flags (report severity m uri (untouched u)) ≡ 1
unfolding report
flags-report severity m uri u = ground arith

status_branch_shape :
    (u : Subject) (severity : Severity) (s : SingleOutcome) (x : AnalyzeResult)
    → status_branch u severity s ≡ ok (some x)
    → (x ≡ report severity s.message s.uri (untouched u))
      ⊎ (x ≡ report failing (was_not_found u) s.uri (untouched u))
unfolding status_branch
status_branch_shape u severity s x h = ground arith

-- A result of `commonStatus` carries at most one of the three flags.
common_status_one_flag :
    (outcomes : List Outcome) (u : Subject) (r : AnalyzeResult)
    → common_status outcomes u ≡ ok r
    → flags r ≤ 1
unfolding common_status
common_status_one_flag outcomes u r e =
    outcome_loop_inv (λ x. flags x ≤ 1) (status_branch u) (untouched u) outcomes (omega arith)
      (λ severity s x h. elim (status_branch_shape u severity s x h) [
        | inl e ↦ rw (e, flags-report) (omega arith)
        | inr e ↦ rw (e, flags-report) (omega arith)
      ])
      r e

status_branch_absent :
    (u : Subject) (severity : Severity) (s : SingleOutcome)
    → u.exists ≡ true
    → (s.when == "absent") ≡ true
    → status_branch u severity s ≡ ok none
unfolding status_branch
status_branch_absent u severity s h a = rw (h, (eq_iff s.when "absent").0 a)

pub asks_absence : Option (Severity × SingleOutcome) → Bool
asks_absence none = false
asks_absence (some (severity, s)) = s.when == "absent"

-- Of a workload that exists the outcomes with the condition "absent" say nothing: taking them all
-- out of the list changes neither the result nor the error.
common_status_ignores_absent :
    (outcomes : List Outcome) (u : Subject)
    → u.exists ≡ true
    → common_status outcomes u
      ≡ common_status (select (λ o. not (asks_absence (chosen o))) outcomes) u
unfolding common_status outcome_loop asks_absence
common_status_ignores_absent [] u h = refl
common_status_ignores_absent (o ∷ rest) u h = elim (Option-cases (chosen o)) [
  | inl n ↦ rw n (rw n (common_status_ignores_absent rest u h))
  | inr ((severity, s), c) ↦ elim (Bool-cases (s.when == "absent")) [
    | inl a ↦
        rw (c, a, status_branch_absent u severity s h a) (common_status_ignores_absent rest u h)
    | inr b ↦ rw (c, b) (rw (common_status_ignores_absent rest u h) (rw c))
  ]
]
