-- ===== src/Analyze/Text/Twice.antt =====
-- A spec with both kinds of expressions.
use troubleshoot.Prelude.{
  String, ◌≡◌, ◌≢◌, refl, false, Option, none, some, List, ◌∷◌, ◌==◌, ap, map,
}
use troubleshoot.Go.Result.{Result, ok, err, wrap, message, bind-inv}
use troubleshoot.Go.Text.{split, trim_space}
use troubleshoot.Go.Maps.{Map}
use troubleshoot.Redact.{Regex}
use troubleshoot.Analyze.Types.{
  SingleOutcome, Outcome, AnalyzeResult, Severity, failing, warning, passing, chosen,
}
use troubleshoot.Analyze.Outcomes.{outcome_loop}
use troubleshoot.Analyze.Text.{
  TextAnalyze, when_of, with_when, defaulted, compare_regex, groups_branch, found_matches,
  analyze_regex_groups, analyze_regex_pattern, each_file, if_set, outcomes_after, analyze_texts,
}

chosen-defaulted :
    (o : Outcome) (severity : Severity) (s : SingleOutcome)
    → chosen o ≡ some (severity, s)
    → chosen (defaulted o) ≡ some (severity, with_when severity s)
unfolding chosen defaulted
chosen-defaulted o severity s h = go o.fail o.warn o.pass h
  where
    filled : Option (Severity × SingleOutcome) → Option (Severity × SingleOutcome)
    filled none = none
    filled (some (severity, s)) = some (severity, with_when severity s)

    go :
        (f w p : Option SingleOutcome)
        → chosen (record { fail = f; warn = w; pass = p }) ≡ some (severity, s)
        → chosen (defaulted (record { fail = f; warn = w; pass = p }))
          ≡ some (severity, with_when severity s)
    go (some x) w p e = ap filled e
    go none (some x) p e = ap filled e
    go none none (some x) e = ap filled e
    go none none none e = ap filled e

default_unparsed :
    (severity : Severity) (s : SingleOutcome) (found : Map String)
    → s.when ≡ ""
    → compare_regex (when_of severity s) found ≡ err (message "unable to parse regex conditional")
unfolding compare_regex split trim_space
default_unparsed failing s found h = rw h refl
default_unparsed warning s found h = rw h refl
default_unparsed passing s found h = rw h refl

module _ (compile : String → Result Regex) (render : String → Map String → Result String) where
  groups_fail :
      (pattern text title : String) (o : Outcome) (os : List Outcome) (severity : Severity)
      (s : SingleOutcome) (r : AnalyzeResult)
      → chosen o ≡ some (severity, s)
      → s.when ≡ ""
      → analyze_regex_groups compile render pattern text (defaulted o ∷ os) title ≢ ok r
  unfolding analyze_regex_groups outcome_loop groups_branch
  groups_fail pattern text title o os severity s r c e = λ h.
      let (re, h', _) = bind-inv (wrap _ (compile pattern)) _ r h in
      cc (
        rw (chosen-defaulted o severity s c, default_unparsed severity s (found_matches re text) e)
          at h')

  -- With both kinds of expressions, an outcome with no condition that comes first makes the analyzer fail: the loop for
  -- the one expression fills the condition in, and the loop for the groups cannot parse what it wrote.
  pub analyze_texts_fails :
      (a : TextAnalyze) (title name text : String) (files : Map String) (o : Outcome)
      (os : List Outcome) (severity : Severity) (s : SingleOutcome) (results : List AnalyzeResult)
      → (a.regex_pattern == "") ≡ false
      → (a.regex_groups == "") ≡ false
      → a.outcomes ≡ o ∷ os
      → chosen o ≡ some (severity, s)
      → s.when ≡ ""
      → analyze_texts compile render a title ((name, text) ∷ files) ≢ ok results
  unfolding analyze_texts each_file
  analyze_texts_fails a title name text files o os severity s results p g outs c e = λ h.
      let all = (name, text) ∷ files in
      let second : String → Result AnalyzeResult =
        λ t. analyze_regex_groups compile render a.regex_groups t (outcomes_after a) title in
      let (one, h', _) =
        bind-inv
          (if_set a.regex_pattern
            (λ t. analyze_regex_pattern compile a.regex_pattern t a.outcomes title) all)
          _ results h in
      let (two, _, q) = bind-inv (if_set a.regex_groups second all) _ results h' in
      let run : each_file second all ≡ ok two = rw g at q in
      let (r, _, first) = bind-inv (second text) _ two run in
      let after : outcomes_after a ≡ defaulted o ∷ map defaulted os = rw (p, outs) refl in
      groups_fail a.regex_groups text title o (map defaulted os) severity s r c e
        (rw after at first)
