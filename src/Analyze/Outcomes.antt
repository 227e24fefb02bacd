-- ===== src/Analyze/Outcomes.antt =====
-- The loop that the analyzers of pkg/analyze run over their outcomes: "ordering from the spec is
-- important, the first one that matches returns".
use troubleshoot.Prelude.{
  ◌≡◌, refl, ◌⊎◌, inl, inr, ◌↔◌, Option, none, some, List, [], ◌∷◌, ◌++◌, All, ap, sym, ◌∙◌,
}
use mathlib.Core.Path.{subst}
use troubleshoot.Go.Result.{Result, ok, err, panic}
use troubleshoot.Analyze.Types.{SingleOutcome, Outcome, Severity, chosen}

-- What a branch does with its outcome: `none` goes on with the loop.
abbrev pub Branch : Type 0 → Type 0
Branch R = Severity → SingleOutcome → Result (Option R)

module _ {R : Type 0} where
  abbrev take_branch : Branch R → Option (Severity × SingleOutcome) → Result (Option R)
  take_branch branch none = ok none
  take_branch branch (some (severity, s)) = branch severity s

  -- one round of the loop
  abbrev pub verdict : Branch R → Outcome → Result (Option R)
  verdict branch o = take_branch branch (chosen o)

  abbrev or_else : Result (Option R) → Result R → Result R
  or_else (ok (some r)) rest = ok r
  or_else (ok none) rest = rest
  or_else (err e) rest = err e
  or_else (panic s) rest = panic s

  -- `last` is what stands when no outcome returns.
  unfoldable pub outcome_loop : Branch R → R → List Outcome → Result R
  outcome_loop branch last [] = ok last
  outcome_loop branch last (o ∷ rest) = or_else (verdict branch o) (outcome_loop branch last rest)

  abbrev pub Passed : Branch R → Outcome → Type 0
  Passed branch o = verdict branch o ≡ ok none

  -- `r` comes from one outcome, and those before it let the loop go on.
  pub record FirstDecisive (branch : Branch R) (outcomes : List Outcome) (r : R) : Type 0 where
    pub before : List Outcome
    pub decisive : Outcome
    pub after : List Outcome
    pub place : outcomes ≡ before ++ decisive ∷ after
    pub passed : All (Passed branch) before
    pub decided : verdict branch decisive ≡ ok (some r)

  -- what the loop returns without an error
  abbrev pub Explained : Branch R → R → List Outcome → R → Type 0
  Explained branch last outcomes r =
      (All (Passed branch) outcomes × (r ≡ last)) ⊎ FirstDecisive branch outcomes r

  explain_later :
      {branch : Branch R} {last : R} {outcomes : List Outcome} {r : R} (o : Outcome)
      → Passed branch o
      → Explained branch last outcomes r
      → Explained branch last (o ∷ outcomes) r
  explain_later o p (inl (all, e)) = inl ((p, all), e)
  explain_later o p (inr d) = inr (record {
    before = o ∷ d.before;
    decisive = d.decisive;
    after = d.after;
    place = ap (λ (l : List Outcome). o ∷ l) d.place;
    passed = (p, d.passed);
    decided = d.decided;
  })

  explained :
      (branch : Branch R) (last : R) (outcomes : List Outcome) (r : R)
      → outcome_loop branch last outcomes ≡ ok r
      → Explained branch last outcomes r
  unfolding outcome_loop
  explained branch last [] r h = inl (tt, cc)
  explained branch last (o ∷ rest) r h = go (verdict branch o) refl h (explained branch last rest r)
    where
      go :
          (v : Result (Option R))
          → verdict branch o ≡ v
          → or_else v (outcome_loop branch last rest) ≡ ok r
          → (outcome_loop branch last rest ≡ ok r → Explained branch last rest r)
          → Explained branch last (o ∷ rest) r
      go (ok none) e h ih = explain_later o e (ih h)
      go (ok (some x)) e h ih = inr (record {
        before = [];
        decisive = o;
        after = rest;
        place = refl;
        passed = tt;
        decided = cc (e, h);
      })
      go (err x) e h ih = cc
      go (panic x) e h ih = cc

  -- Outcomes that the loop passes over can be left out.
  pub outcome_loop-append :
      (branch : Branch R) (last : R) (before : List Outcome) (o : Outcome) (after : List Outcome)
      → All (Passed branch) before
      → outcome_loop branch last (before ++ o ∷ after)
        ≡ or_else (verdict branch o) (outcome_loop branch last after)
  unfolding outcome_loop
  outcome_loop-append branch last [] o after h = refl
  outcome_loop-append branch last (b ∷ before) o after h =
      rw h.0 (outcome_loop-append branch last before o after h.1)

  decisive_returned :
      (branch : Branch R) (last : R) (outcomes : List Outcome) (r : R)
      → FirstDecisive branch outcomes r
      → outcome_loop branch last outcomes ≡ ok r
  decisive_returned branch last outcomes r d =
      rw d.place
        (outcome_loop-append branch last d.before d.decisive d.after d.passed ∙ rw d.decided)

  loop_falls_through :
      (branch : Branch R) (last : R) (outcomes : List Outcome)
      → All (Passed branch) outcomes
      → outcome_loop branch last outcomes ≡ ok last
  unfolding outcome_loop
  loop_falls_through branch last [] h = refl
  loop_falls_through branch last (o ∷ rest) h = rw h.0 (loop_falls_through branch last rest h.1)

  -- The loop returns a result exactly if the first outcome that decides gives it, or if none does.
  pub outcome_loop_iff :
      (branch : Branch R) (last : R) (outcomes : List Outcome) (r : R)
      → (outcome_loop branch last outcomes ≡ ok r) ↔ Explained branch last outcomes r
  outcome_loop_iff branch last outcomes r = (
    explained branch last outcomes r,
    elim [
      | inl (all, e) ↦ loop_falls_through branch last outcomes all ∙ ap ok (sym e)
      | inr d ↦ decisive_returned branch last outcomes r d
    ],
  )

  -- What holds of the last value and of every decision holds of every result of the loop.
  pub outcome_loop_inv :
      (P : R → Type 0) (branch : Branch R) (last : R) (outcomes : List Outcome)
      → P last
      → ((severity : Severity) (s : SingleOutcome) (r : R) → branch severity s ≡ ok (some r) → P r)
      → (r : R) → outcome_loop branch last outcomes ≡ ok r
      → P r
  unfolding outcome_loop
  outcome_loop_inv P branch last [] hl hb r e = subst P (cc) hl
  outcome_loop_inv P branch last (o ∷ rest) hl hb r e =
      go (chosen o) (outcome_loop branch last rest) (outcome_loop_inv P branch last rest hl hb r) e
    where
      go :
          (c : Option (Severity × SingleOutcome)) (later : Result R)
          → (later ≡ ok r → P r)
          → or_else (take_branch branch c) later ≡ ok r
          → P r
      go none later ih h = ih h
      go (some (severity, s)) later ih h = step (branch severity s) refl later ih h
        where
          step :
              (v : Result (Option R))
              → branch severity s ≡ v
              → (later : Result R) → (later ≡ ok r → P r)
              → or_else v later ≡ ok r
              → P r
          step (ok none) e later ih h = ih h
          step (ok (some x)) e later ih h = hb severity s r (cc (e, h))
          step (err x) e later ih h = cc
          step (panic x) e later ih h = cc
