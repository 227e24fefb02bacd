-- ===== src/Host/KernelModules/Defaults.antt =====
-- The results that the loops of the analyzer of kernel modules give.
use mathlib.Core.Path.{subst}
use mathlib.Core.List.{append-nil, append_assoc}
use troubleshoot.Prelude.{
  String, ◌≡◌, refl, ap, sym, ◌∙◌, Bool, ◌||◌, Option, none, some, List, [], ◌∷◌, ◌++◌, arith, ◌==◌,
  Option-cases, Bool-cases, inl, inr,
}
use troubleshoot.Go.Result.{Result, ok, wrap, wrap-ok, bind-inv}
use troubleshoot.Go.Maps.{Map}
use troubleshoot.Analyze.Types.{
  SingleOutcome, Outcome, AnalyzeResult, Severity, failing, warning, passing, report,
}
use troubleshoot.Host.KernelModules.{
  KernelModuleInfo, or_next, when_allowed, conditional_of, default_of, Collected, is_pass_branch,
  is_fail_branch, reported, push, conditions_loop, defaults_loop, get_results, nothing_yet,
  analyze_modules, compare_kernel_module_conditional_to_actual,
}
use troubleshoot.Host.KernelModules.Expected.{
  Branch, branches, all_branches, first_branch, has_condition, fired, some_pass, some_fail,
  may_default, is_default, shown, all_shown, or_no_results, expected, answers, branch_of, is_pass,
  is_fail,
}

abbrev list_of : Option Branch → List Branch
list_of none = []
list_of (some branch) = branch ∷ []

module _ (test : Branch → Bool) where
  first_branch_skips :
      (xs ys : List Branch)
      → first_branch test xs ≡ []
      → first_branch test (xs ++ ys) ≡ first_branch test ys
  first_branch_skips [] ys h = refl
  first_branch_skips (x ∷ xs) ys h = elim (Bool-cases (test x)) [
    | inl e ↦ cc (rw e at h)
    | inr e ↦ rw e (first_branch_skips xs ys (rw e at h))
  ]

  first_branch_takes :
      (b : Branch) (xs ys : List Branch)
      → first_branch test xs ≡ b ∷ []
      → first_branch test (xs ++ ys) ≡ b ∷ []
  first_branch_takes b [] ys h = cc h
  first_branch_takes b (x ∷ xs) ys h = elim (Bool-cases (test x)) [
    | inl e ↦ rw e (rw e at h)
    | inr e ↦ rw e (first_branch_takes b xs ys (rw e at h))
  ]

reported-shown :
    (title : String) (severity : Severity) (s : SingleOutcome)
    → reported title severity s ≡ shown title (severity, s)
unfolding report
reported-shown title failing s = refl
reported-shown title warning s = refl
reported-shown title passing s = refl

-- The branch of the first loop is the first with a condition.
conditional_of-first :
    (o : Outcome) → list_of (conditional_of o) ≡ first_branch has_condition (branches o)
unfolding conditional_of
conditional_of-first o = ground (arith, Option-cases o.fail)

or_next-first :
    (passed failed : Bool) (severity : Severity) (x : Option SingleOutcome) (next : Option Branch)
    (rest : List Branch)
    → list_of next ≡ first_branch (is_default passed failed) rest
    → list_of (or_next severity (when_allowed (may_default passed failed severity) x) next)
      ≡ first_branch (is_default passed failed) (branch_of severity x ++ rest)
or_next-first passed failed severity none next rest h =
    elim (Bool-cases (may_default passed failed severity)) [ inl a ↦ rw a h | inr a ↦ rw a h ]
or_next-first passed failed severity (some s) next rest h =
    elim (Bool-cases (may_default passed failed severity)) [
      | inl a ↦ elim (Bool-cases (s.when == "")) [ inl e ↦ rw (a, e) refl | inr e ↦ rw (a, e) h ]
      | inr a ↦ rw a h
    ]

default_of-first :
    (passed failed : Bool) (o : Outcome)
    → list_of (default_of passed failed o) ≡ first_branch (is_default passed failed) (branches o)
unfolding default_of
default_of-first passed failed o = or_next-first passed failed failing o.fail _ _ (
    or_next-first passed failed warning o.warn _ _ (
      or_next-first passed failed passing o.pass none [] refl
      ∙ ap (λ bs. first_branch (is_default passed failed) bs)
          (append-nil (branch_of passing o.pass))))

-- The loop over the defaults adds the first branch that may be one.
defaults_loop-first :
    (title : String) (os : List Outcome) (c : Collected)
    → (defaults_loop title os c).results
      ≡ c.results ++ all_shown title (first_branch (is_default c.passed c.failed) (all_branches os))
unfolding defaults_loop all_branches
defaults_loop-first title [] c = sym (append-nil c.results)
defaults_loop-first title (o ∷ os) c =
    let test = is_default c.passed c.failed in
    let first = default_of-first c.passed c.failed o in
    elim (Option-cases (default_of c.passed c.failed o)) [
      | inl e ↦
          rw (defaults_loop, e)
            (defaults_loop-first title os c
              ∙ ap (λ bs. c.results ++ all_shown title bs)
                  (sym (
                    first_branch_skips test (branches o) (all_branches os)
                      (sym first ∙ ap list_of e))))
      | inr ((severity, s), e) ↦
          rw (defaults_loop, e)
            (ap (λ r. c.results ++ r ∷ []) (reported-shown title severity s)
              ∙ ap (λ bs. c.results ++ all_shown title bs)
                  (sym (
                    first_branch_takes test (severity, s) (branches o) (all_branches os)
                      (sym first ∙ ap list_of e))))
    ]

pass_branch : (severity : Severity) → is_pass_branch severity ≡ is_pass severity
pass_branch failing = refl
pass_branch warning = refl
pass_branch passing = refl

fail_branch : (severity : Severity) → is_fail_branch severity ≡ is_fail severity
fail_branch failing = refl
fail_branch warning = refl
fail_branch passing = refl

-- What the loop over the conditions has added.
record Added (title : String) (bs : List Branch) (before after : Collected) : Type 0 where
  results : after.results ≡ before.results ++ all_shown title bs
  passed : after.passed ≡ (before.passed || some_pass bs)
  failed : after.failed ≡ (before.failed || some_fail bs)

Added-none : (title : String) (c : Collected) → Added title [] c c
Added-none title c = record {
  results = sym (append-nil c.results);
  passed = ground arith;
  failed = ground arith;
}

Added-push :
    (title : String) (severity : Severity) (s : SingleOutcome) (bs : List Branch)
    (before after : Collected)
    → Added title bs (push title severity s before) after
    → Added title ((severity, s) ∷ bs) before after
Added-push title severity s bs before after a = record {
  results =
      a.results
      ∙ append_assoc before.results (reported title severity s ∷ []) (all_shown title bs)
      ∙ ap (λ r. before.results ++ (r ∷ all_shown title bs)) (reported-shown title severity s);
  passed = ground (arith, a.passed, pass_branch severity);
  failed = ground (arith, a.failed, fail_branch severity);
}

abbrev value_or : Collected → Result Collected → Collected
value_or c (ok d) = d
value_or c _ = c

conditions_loop-Added :
    (compare : String → Result Bool) (title : String) (os : List Outcome) (c after : Collected)
    → conditions_loop compare title os c ≡ ok after
    → Added title (fired compare os) c after
unfolding conditions_loop fired
conditions_loop-Added compare title [] c after h =
    subst (λ a. Added title [] c a) (ap (value_or c) h) (Added-none title c)
conditions_loop-Added compare title (o ∷ os) c after h =
    rw (sym (conditional_of-first o)) (elim (Option-cases (conditional_of o)) [
      | inl e ↦ rw e (conditions_loop-Added compare title os c after (rw (conditions_loop, e) at h))
      | inr ((severity, s), e) ↦
          let (b, h', q) =
            bind-inv (wrap _ (compare s.when)) _ after (rw (conditions_loop, e) at h) in
          let answer = ap answers (wrap-ok _ (compare s.when) b q) in
          rw e (elim (Bool-cases b) [
            | inl y ↦ rw (answer ∙ y) (
                Added-push title severity s (fired compare os) c after (
                  conditions_loop-Added compare title os (push title severity s c) after
                    (rw y at h')))
            | inr n ↦ rw (answer ∙ n) (conditions_loop-Added compare title os c after (rw n at h'))
          ])
    ])

abbrev values_of : List AnalyzeResult → Result (List AnalyzeResult) → List AnalyzeResult
values_of rs (ok xs) = xs
values_of rs _ = rs

get_results-or_no_results :
    (title : String) (rs : List AnalyzeResult) → get_results title rs ≡ or_no_results title rs
get_results-or_no_results title [] = refl
get_results-or_no_results title (r ∷ rs) = refl

all_shown-append :
    (title : String) (xs ys : List Branch)
    → all_shown title (xs ++ ys) ≡ all_shown title xs ++ all_shown title ys
all_shown-append title [] ys = refl
all_shown-append title (x ∷ xs) ys = ap (λ rs. shown title x ∷ rs) (all_shown-append title xs ys)

-- If the analyzer of kernel modules gives results, they are those of the branches whose condition holds, in the order of
-- the outcomes, where of each outcome the first branch with a condition counts; then one for the first branch of all
-- with no condition that may be the default: a failure if no pass fired, a pass if no failure did, and a warning if neither
-- did; and if there are none of either, one warning that says so.
pub analyze_modules-expected :
    (title : String) (outcomes : List Outcome) (modules : Map KernelModuleInfo)
    (results : List AnalyzeResult)
    → analyze_modules title outcomes modules ≡ ok results
    → results
      ≡ expected (λ when. compare_kernel_module_conditional_to_actual when modules) title outcomes
unfolding analyze_modules expected
analyze_modules-expected title outcomes modules results h =
    let compare : String → Result Bool =
      λ when. compare_kernel_module_conditional_to_actual when modules in
    let (c, h', e) = bind-inv (conditions_loop compare title outcomes nothing_yet) _ results h in
    let a = conditions_loop-Added compare title outcomes nothing_yet c e in
    let fires = fired compare outcomes in
    let picked : Bool → Bool → List Branch =
      λ p f. first_branch (is_default p f) (all_branches outcomes) in
    ap (values_of results) (sym h')
    ∙ get_results-or_no_results title (defaults_loop title outcomes c).results
    ∙ ap (or_no_results title) (
        defaults_loop-first title outcomes c
        ∙ ap (λ rs. rs ++ all_shown title (picked c.passed c.failed)) a.results
        ∙ ap (λ p. all_shown title fires ++ all_shown title (picked p c.failed)) a.passed
        ∙ ap (λ f. all_shown title fires ++ all_shown title (picked (some_pass fires) f)) a.failed
        ∙ sym (all_shown-append title fires (picked (some_pass fires) (some_fail fires))))
