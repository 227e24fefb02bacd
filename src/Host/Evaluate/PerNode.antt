-- ===== src/Host/Evaluate/PerNode.antt =====
-- How many results a host analyzer gives, and under which titles.
use mathlib.Core.Path.{subst}
use Prim.Native.String.{◌++◌ as ◌⧺◌}
use troubleshoot.Prelude.{
  String, ◌≡◌, refl, sym, ap, ◌∙◌, Bool, true, false, none, some, List, [], ◌∷◌, ◌++◌, ◌==◌,
  if◌then◌else◌, arith, length, length-append, Any, All, ◌≢◌, eq_iff, Option-cases, inl, inr,
  Bool-cases,
}
use troubleshoot.Go.Result.{Result, ok, wrap, collect, bind-inv, wrap-ok}
use troubleshoot.Analyze.Types.{
  SingleOutcome, Outcome, AnalyzeResult, Severity, chosen, report, blank, flags,
}
use troubleshoot.Analyze.Outcomes.{outcome_loop_inv, outcome_loop_iff, verdict}
use troubleshoot.Host.Contents.{CollectedContent}
use troubleshoot.Host.Evaluate.{
  host_branch, evaluate_outcomes, title_of, analyze_host_collector_results,
}

-- One result with the title and one flag.
abbrev pub IsOneOf : String → List AnalyzeResult → Type 0
IsOneOf title [] = Unit
IsOneOf title (r ∷ []) = (r.title ≡ title) × (flags r ≡ 1)
IsOneOf title (r ∷ s ∷ rest) = ⊥

reported-IsOneOf :
    (severity : Severity) (message uri title : String)
    → IsOneOf title (report severity message uri (blank title "" "") ∷ [])
unfolding report
reported-IsOneOf Severity.failing message uri title = (refl, refl)
reported-IsOneOf Severity.warning message uri title = (refl, refl)
reported-IsOneOf Severity.passing message uri title = (refl, refl)

host_branch-IsOneOf :
    (check : String → Result Bool) (title : String) (severity : Severity) (s : SingleOutcome)
    (rs : List AnalyzeResult)
    → host_branch check title severity s ≡ ok (some rs)
    → IsOneOf title rs × (length rs ≡ 1)
unfolding host_branch
host_branch-IsOneOf check title severity s rs h = elim (Bool-cases (s.when == "")) [
  | inl e ↦
      let k : ok (some (reported ∷ [])) ≡ ok (some rs) = rw e at h in
      let same : reported ∷ [] ≡ rs = cc k in subst One same (one, refl)
  | inr e ↦
      let (match, h', q) =
        bind-inv (wrap ("failed to compare " ⧺ s.when) (check s.when)) _ _ (rw e at h) in
      matched match h'
]
  where
    reported : AnalyzeResult
    reported = report severity s.message s.uri (blank title "" "")

    One : List AnalyzeResult → Type 0
    One rs = IsOneOf title rs × (length rs ≡ 1)

    one : IsOneOf title (reported ∷ [])
    one = reported-IsOneOf severity s.message s.uri title

    matched : (b : Bool) → ok (if b then some (reported ∷ []) else none) ≡ ok (some rs) → One rs
    matched true k = let same : reported ∷ [] ≡ rs = cc k in subst One same (one, refl)
    matched false k = cc k

evaluate_outcomes-IsOneOf :
    (check : String → Result Bool) (title : String) (outcomes : List Outcome)
    (rs : List AnalyzeResult)
    → evaluate_outcomes check title outcomes ≡ ok rs
    → IsOneOf title rs
unfolding evaluate_outcomes
evaluate_outcomes-IsOneOf check title outcomes rs h =
    outcome_loop_inv (IsOneOf title) (host_branch check title) [] outcomes tt
      (λ severity s r q. (host_branch-IsOneOf check title severity s r q).0) rs h

-- The branch that the outcome takes has no condition.
abbrev pub Unconditional : Outcome → Type 0
Unconditional o =
    (severity : Severity) × (s : SingleOutcome) × (chosen o ≡ some (severity, s)) × (s.when ≡ "")

verdict-Unconditional :
    (check : String → Result Bool) (title : String) (o : Outcome)
    → Unconditional o
    → verdict (host_branch check title) o ≢ ok none
unfolding host_branch
verdict-Unconditional check title o (severity, s, c, w) h =
    let k : host_branch check title severity s ≡ ok none = rw c at h in
    cc (rw ((eq_iff s.when "").1 w) at k)

decided_one :
    (check : String → Result Bool) (title : String) (o : Outcome) (rs : List AnalyzeResult)
    → verdict (host_branch check title) o ≡ ok (some rs)
    → length rs ≡ 1
decided_one check title o rs h = elim (Option-cases (chosen o)) [
  | inl e ↦ cc (rw e at h)
  | inr ((severity, s), e) ↦ (host_branch-IsOneOf check title severity s rs (rw e at h)).1
]

-- some result, if an outcome is unconditional
evaluate_outcomes_one :
    (check : String → Result Bool) (title : String) (outcomes : List Outcome)
    (rs : List AnalyzeResult)
    → Any Unconditional outcomes
    → evaluate_outcomes check title outcomes ≡ ok rs
    → length rs ≡ 1
unfolding evaluate_outcomes
evaluate_outcomes_one check title outcomes rs any h =
    elim ((outcome_loop_iff (host_branch check title) [] outcomes rs).0 h) [
      | inl (all, e) ↦ absurd (none_passes outcomes any all)
      | inr d ↦ decided_one check title d.decisive rs d.decided
    ]
  where
    none_passes :
        (os : List Outcome)
        → Any Unconditional os
        → All (λ o. verdict (host_branch check title) o ≡ ok none) os
        → ⊥
    none_passes [] a p = absurd a
    none_passes (o ∷ os) (inl u) (p, ps) = verdict-Unconditional check title o u p
    none_passes (o ∷ os) (inr a) (p, ps) = none_passes os a ps

-- For each content one result with its title and one flag, or none, in the order of the contents.
pub data PerContent {Data : Type 0} (title : String)
    : List (CollectedContent Data) → List AnalyzeResult → Type 0 where
  no_contents : PerContent title [] []
  undecided :
      {c : CollectedContent Data} {cs : List (CollectedContent Data)} {rs : List AnalyzeResult}
      → PerContent title cs rs
      → PerContent title (c ∷ cs) rs
  decided :
      {c : CollectedContent Data} {cs : List (CollectedContent Data)} {r : AnalyzeResult}
      {rs : List AnalyzeResult}
      → r.title ≡ title_of title c
      → flags r ≡ 1
      → PerContent title cs rs
      → PerContent title (c ∷ cs) (r ∷ rs)

module _ {Data : Type 0} (check : Data → String → Result Bool) (outcomes : List Outcome)
    (title : String) where
  abbrev one_content : CollectedContent Data → Result (List AnalyzeResult)
  one_content content =
      wrap "failed to evaluate outcomes"
        (evaluate_outcomes (check content.data_of) (title_of title content) outcomes)

  added :
      (c : CollectedContent Data) (cs : List (CollectedContent Data)) (xs ys : List AnalyzeResult)
      → IsOneOf (title_of title c) xs
      → PerContent title cs ys
      → PerContent title (c ∷ cs) (xs ++ ys)
  added c cs [] ys one p = undecided p
  added c cs (r ∷ []) ys (t, f) p = decided t f p
  added c cs (r ∷ s ∷ rest) ys one p = absurd one

  collect-PerContent :
      (cs : List (CollectedContent Data)) (rs : List AnalyzeResult)
      → collect one_content cs ≡ ok rs
      → PerContent title cs rs
  unfolding collect
  collect-PerContent [] rs h =
      let k : ok [] ≡ ok rs = h in
      let same : [] ≡ rs = cc k in subst (PerContent title []) same no_contents
  collect-PerContent (c ∷ cs) rs h =
      let (xs, h', q) = bind-inv (one_content c) _ _ h in
      let (ys, e, q') = bind-inv (collect one_content cs) _ _ h' in
      let same : xs ++ ys ≡ rs = cc e in
      let one =
        evaluate_outcomes-IsOneOf (check c.data_of) (title_of title c) outcomes xs
          (wrap-ok _ _ xs q) in
      subst (PerContent title (c ∷ cs)) same (added c cs xs ys one (collect-PerContent cs ys q'))

  collect_one_each :
      Any Unconditional outcomes
      → (cs : List (CollectedContent Data)) (rs : List AnalyzeResult)
      → collect one_content cs ≡ ok rs
      → length rs ≡ length cs
  unfolding collect
  collect_one_each any [] rs h =
      let k : ok [] ≡ ok rs = h in let same : [] ≡ rs = cc k in ap length (sym same)
  collect_one_each any (c ∷ cs) rs h =
      let (xs, h', q) = bind-inv (one_content c) _ _ h in
      let (ys, e, q') = bind-inv (collect one_content cs) _ _ h' in
      let same : xs ++ ys ≡ rs = cc e in
      let one =
        evaluate_outcomes_one (check c.data_of) (title_of title c) outcomes xs any
          (wrap-ok _ _ xs q) in
      let go = collect_one_each any cs ys q' in
      ap length (sym same) ∙ omega (arith, length-append xs ys, one, go)

  -- A host analyzer gives, in the order of the nodes, at most one result for each node, under the
  -- node's title and with exactly one flag. If an outcome has no condition, it gives exactly one
  -- for each node.
  pub analyze_host_collector_results-PerContent :
      (contents : List (CollectedContent Data)) (rs : List AnalyzeResult)
      → analyze_host_collector_results check outcomes title contents ≡ ok rs
      → PerContent title contents rs × (Any Unconditional outcomes → length rs ≡ length contents)
  unfolding analyze_host_collector_results
  analyze_host_collector_results-PerContent contents rs h =
      (collect-PerContent contents rs h, λ any. collect_one_each any contents rs h)
