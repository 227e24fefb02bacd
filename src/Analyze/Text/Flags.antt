-- ===== src/Analyze/Text/Flags.antt =====
-- What the loop over the outcomes leaves in the result of `analyzeRegexPattern`.
use troubleshoot.Prelude.{
  String, ◌≡◌, refl, Bool, true, false, not, ◌&&◌, ◌||◌, Option, none, some, List, [], ◌∷◌,
  if◌then◌else◌, Option-cases, Bool-cases, inl, inr, ◌∙◌, arith,
}
use mathlib.Core.Path.{subst}
use troubleshoot.Go.Result.{Result, ok, err, panic, wrap, wrap-ok, bind-inv}
use troubleshoot.Go.Strconv.{parse_bool}
use troubleshoot.Analyze.Types.{
  SingleOutcome, Outcome, AnalyzeResult, Severity, failing, warning, passing, chosen,
}
use troubleshoot.Redact.{Regex}
use troubleshoot.Analyze.Text.{
  when_of, marked, agree, pattern_branch, pattern_loop, analyze_regex_pattern, text_result,
}

-- the condition reads as the answer of the expression
abbrev pub agrees : Bool → Severity → SingleOutcome → Bool
agrees is_match severity s = elim (parse_bool (when_of severity s)) [
  | ok b ↦ agree is_match b
  | err e ↦ false
  | panic t ↦ false
]

-- the branch that an outcome fires, if it does
unfoldable pub fired : Bool → Outcome → Option (Severity × SingleOutcome)
fired is_match o = elim (chosen o) [
  | none ↦ none
  | some (severity, s) ↦ if agrees is_match severity s then some (severity, s) else none
]

abbrev pub is_kind : Severity → Option (Severity × SingleOutcome) → Bool
is_kind failing (some (failing, s)) = true
is_kind warning (some (warning, s)) = true
is_kind passing (some (passing, s)) = true
is_kind _ _ = false

-- some outcome fires a branch of the kind
unfoldable pub fires : Severity → Bool → List Outcome → Bool
unfolding fired
fires kind is_match [] = false
fires kind is_match (o ∷ os) = is_kind kind (fired is_match o) || fires kind is_match os

-- some outcome warns, and none after it fails
unfoldable pub warns_last : Bool → List Outcome → Bool
unfolding fires
warns_last is_match [] = false
warns_last is_match (o ∷ os) =
    is_kind warning (fired is_match o) && not (fires failing is_match os) || warns_last is_match os

abbrev pub message_of : Option (Severity × SingleOutcome) → String → String
message_of none text = text
message_of (some (severity, s)) text = s.message

-- the message of the last outcome that fires, or the text that was there
unfoldable pub last_message : Bool → List Outcome → String → String
unfolding fired
last_message is_match [] text = text
last_message is_match (o ∷ os) text = last_message is_match os (message_of (fired is_match o) text)

-- What a result has become.
pub record Became (is_match : Bool) (os : List Outcome) (before after : AnalyzeResult)
    : Type 0 where
  pub fails : after.is_fail ≡ (before.is_fail || fires failing is_match os)
  pub passes : after.is_pass ≡ (before.is_pass || fires passing is_match os)
  pub warns :
      after.is_warn ≡ (before.is_warn && not (fires failing is_match os) || warns_last is_match os)
  pub says : after.message ≡ last_message is_match os before.message

branch-agrees :
    (is_match : Bool) (severity : Severity) (s : SingleOutcome) (r r' : AnalyzeResult)
    → pattern_branch is_match severity s r ≡ ok r'
    → r' ≡ (if agrees is_match severity s then marked severity s r else r)
unfolding pattern_branch
branch-agrees is_match severity s r r' h =
    let (b, h', e) = bind-inv (wrap _ (parse_bool (when_of severity s))) _ r' h in
    let says : agrees is_match severity s ≡ agree is_match b = rw (agrees, wrap-ok _ _ b e) refl in
    rw says (cc h')

abbrev applied : Option (Severity × SingleOutcome) → AnalyzeResult → AnalyzeResult
applied none r = r
applied (some (severity, s)) r = marked severity s r

Became-cons :
    (is_match : Bool) (o : Outcome) (os : List Outcome) (r after : AnalyzeResult)
    (f : Option (Severity × SingleOutcome))
    → fired is_match o ≡ f
    → Became is_match os (applied f r) after
    → Became is_match (o ∷ os) r after
unfolding fires warns_last last_message
Became-cons is_match o os r after none e h = record {
  fails = rw e h.fails;
  passes = rw e h.passes;
  warns = rw e h.warns;
  says = rw e h.says;
}
Became-cons is_match o os r after (some (failing, s)) e h = record {
  fails = rw e (ground (arith, h.fails));
  passes = rw e h.passes;
  warns = rw e (ground (arith, h.warns));
  says = rw e h.says;
}
Became-cons is_match o os r after (some (warning, s)) e h = record {
  fails = rw e h.fails;
  passes = rw e h.passes;
  warns = rw e (ground (arith, h.warns));
  says = rw e h.says;
}
Became-cons is_match o os r after (some (passing, s)) e h = record {
  fails = rw e h.fails;
  passes = rw e (ground (arith, h.passes));
  warns = rw e h.warns;
  says = rw e h.says;
}

fired-none : (is_match : Bool) (o : Outcome) → chosen o ≡ none → fired is_match o ≡ none
unfolding fired
fired-none is_match o e = rw (fired, e) refl

fired-some :
    (is_match : Bool) (o : Outcome) (severity : Severity) (s : SingleOutcome)
    → chosen o ≡ some (severity, s)
    → fired is_match o ≡ (if agrees is_match severity s then some (severity, s) else none)
unfolding fired
fired-some is_match o severity s e = rw (fired, e) refl

Became-nil : (is_match : Bool) (r : AnalyzeResult) → Became is_match [] r r
unfolding fires warns_last last_message
Became-nil is_match r = record {
  fails = ground arith;
  passes = ground arith;
  warns = ground arith;
  says = refl;
}

pattern_loop-Became :
    (is_match : Bool) (os : List Outcome) (r after : AnalyzeResult)
    → pattern_loop is_match os r ≡ ok after
    → Became is_match os r after
unfolding pattern_loop
pattern_loop-Became is_match [] r after h =
    let same : r ≡ after = cc h in rw (← same) (Became-nil is_match r)
pattern_loop-Became is_match (o ∷ os) r after h = elim (Option-cases (chosen o)) [
  | inl e ↦
      Became-cons is_match o os r after none (fired-none is_match o e)
        (pattern_loop-Became is_match os r after (rw (pattern_loop, e) at h))
  | inr ((severity, s), e) ↦
      let (r', h', q) =
        bind-inv (pattern_branch is_match severity s r) (pattern_loop is_match os) after
          (rw (pattern_loop, e) at h) in
      let step = branch-agrees is_match severity s r r' q in
      let rest = pattern_loop-Became is_match os r' after h' in
      elim (Bool-cases (agrees is_match severity s)) [
        | inl yes_it ↦
            Became-cons is_match o os r after (some (severity, s))
              (rw (fired-some is_match o severity s e, yes_it) refl)
              (subst (λ x. Became is_match os x after) (step ∙ rw yes_it refl) rest)
        | inr no_it ↦
            Became-cons is_match o os r after none
              (rw (fired-some is_match o severity s e, no_it) refl)
              (subst (λ x. Became is_match os x after) (step ∙ rw no_it refl) rest)
      ]
]

-- A result of `analyzeRegexPattern` fails if some outcome that fires is a failure, passes if some is a pass, and so can do
-- both; it warns if some warning fires that no firing failure follows; and it has the message of
-- the last outcome that fires.
pub analyze_regex_pattern_flags :
    (compile : String → Result Regex) (pattern text title : String) (outcomes : List Outcome)
    (re : Regex) (r : AnalyzeResult)
    → compile pattern ≡ ok re
    → analyze_regex_pattern compile pattern text outcomes title ≡ ok r
    → (r.is_fail ≡ fires failing (re.matches text) outcomes)
      × (r.is_pass ≡ fires passing (re.matches text) outcomes)
      × (r.is_warn ≡ warns_last (re.matches text) outcomes)
      × (r.message ≡ last_message (re.matches text) outcomes "")
unfolding analyze_regex_pattern
analyze_regex_pattern_flags compile pattern text title outcomes re r c h =
    let b = pattern_loop-Became (re.matches text) outcomes (text_result title) r (rw c at h) in
    (b.fails, b.passes, b.warns, b.says)
