-- ===== src/Analyze/Text.antt =====
-- The analyzer of texts: pkg/analyze/text_analyze.go.
pub mod Flags
pub mod Twice
mod Tests
use Prim.Native.String.{◌++◌ as ◌⧺◌}
use troubleshoot.Prelude.{
  ℕ, ◌+◌, String, ◌≡◌, refl, Bool, true, false, not, ◌&&◌, ◌||◌, Option, none, some, List, [], ◌∷◌,
  ◌++◌, ◌==◌, if◌then◌else◌, map, is_nil, ltb_ℤ, leb_ℤ, eqb_ℤ, ℤ,
}
use troubleshoot.Go.Result.{Result, ok, err, panic, ◌>>=◌, wrap, message, Error}
use troubleshoot.Go.Text.{split, trim_space, contains, is_some, quoted}
use troubleshoot.Go.Ascii.{before_suffix}
use troubleshoot.Go.Strconv.{atoi, parse_bool}
use troubleshoot.Go.Filepath.{join}
use troubleshoot.Go.Maps.{Map, lookup, store}
use troubleshoot.Multitype.{BoolOrString, bool_or_default_false}
use troubleshoot.Redact.{Regex}
use troubleshoot.Analyze.Types.{
  SingleOutcome, Outcome, AnalyzeResult, Severity, failing, warning, passing, chosen, report, blank,
}
use troubleshoot.Analyze.Outcomes.{Branch, outcome_loop}

-- `TextAnalyze`
pub record TextAnalyze : Type 0 where
  pub check_name : String
  pub collector_name : String
  pub file_name : String
  pub regex_pattern : String
  pub regex_groups : String
  pub ignore_if_no_files : Bool
  pub exclude_files : List String
  pub outcomes : List Outcome
  pub strict : Option BoolOrString

unfoldable pub is_likely_exec_output : String → Bool
is_likely_exec_output file =
    is_some (before_suffix "-stdout.txt" file)
    || is_some (before_suffix "-stderr.txt" file)
    || is_some (before_suffix "-errors.json" file)

unfoldable pub contains_wildcards : String → Bool
contains_wildcards path = contains path "*" || contains path "?" || contains path "["

-- The pattern for a file of the collector: the output of an exec collector lies two folders deeper.
unfoldable pub collected_path : String → String → String
unfolding is_likely_exec_output contains_wildcards
collected_path collector file =
    let path = join (collector ∷ file ∷ []) in
    if is_likely_exec_output file && not (contains_wildcards file) && not (contains_wildcards path)
    then join (collector ∷ "*" ∷ "*" ∷ file ∷ [])
    else path

abbrev text_icon : String
text_icon = "https://troubleshoot.sh/images/analyzer-icons/text-analyze.svg"

abbrev pub text_result : String → AnalyzeResult
text_result title = blank title "kubernetes_text_analyze" text_icon

-- the condition of an outcome, with its default
abbrev pub when_of : Severity → SingleOutcome → String
when_of passing s = if s.when == "" then "true" else s.when
when_of _ s = if s.when == "" then "false" else s.when

-- What a branch that fires sets. Only a failure takes a flag back.
abbrev pub marked : Severity → SingleOutcome → AnalyzeResult → AnalyzeResult
marked failing s r = record r { is_fail = true; is_warn = false; message = s.message; uri = s.uri }
marked warning s r = record r { is_warn = true; message = s.message; uri = s.uri }
marked passing s r = record r { is_pass = true; message = s.message; uri = s.uri }

abbrev pub agree : Bool → Bool → Bool
agree true b = b
agree false b = not b

-- one branch of the loop
unfoldable pub pattern_branch :
    Bool → Severity → SingleOutcome → AnalyzeResult → Result AnalyzeResult
pattern_branch is_match severity s r = do
  b ←
      wrap ("failed to process when statement: " ⧺ when_of severity s)
        (parse_bool (when_of severity s))
  ok (if agree is_match b then marked severity s r else r)

-- The loop over the outcomes, which goes through all of them.
unfoldable pub pattern_loop : Bool → List Outcome → AnalyzeResult → Result AnalyzeResult
unfolding pattern_branch
pattern_loop is_match [] r = ok r
pattern_loop is_match (o ∷ rest) r = elim (chosen o) [
  | none ↦ pattern_loop is_match rest r
  | some (severity, s) ↦
      pattern_branch is_match severity s r >>= λ r'. pattern_loop is_match rest r'
]

abbrev with_when : Severity → SingleOutcome → SingleOutcome
with_when severity s = record s { when = when_of severity s }

-- The loop writes the defaults into the outcomes of the spec.
unfoldable pub defaulted : Outcome → Outcome
defaulted o = elim o.fail [
  | some s ↦ record o { fail = some (with_when failing s) }
  | none ↦ elim o.warn [
    | some s ↦ record o { warn = some (with_when warning s) }
    | none ↦ elim o.pass [ some s ↦ record o { pass = some (with_when passing s) } | none ↦ o ]
  ]
]

-- an entry for each group with a name; `match` is empty where nothing matches
unfoldable pub found_from : List String → List String → Map String → Map String
unfolding store
found_from (name ∷ names) (value ∷ values) found =
    found_from names values (if name == "" then found else store name value found)
found_from _ _ found = found

abbrev tail_of : List String → List String
tail_of [] = []
tail_of (x ∷ xs) = xs

abbrev or_nothing : Option (List String) → List String
or_nothing none = []
or_nothing (some match) = match

unfoldable pub found_matches : Regex → String → Map String
unfolding found_from
found_matches re text =
    found_from (tail_of re.subexp_names) (tail_of (or_nothing (re.find_submatch text))) []

-- the comparison of two numbers; an operator that is not known gives no
abbrev pub compare_ints : String → ℤ → ℤ → Bool
compare_ints operator found wanted =
    if operator == "=" || operator == "==" || operator == "==="
    then eqb_ℤ found wanted
    else if operator == "<"
    then ltb_ℤ found wanted
    else if operator == ">"
    then ltb_ℤ wanted found
    else if operator == "<="
    then leb_ℤ found wanted
    else if operator == ">="
    then leb_ℤ wanted found
    else false

-- a value that is no number
abbrev pub compare_texts : String → String → String → Result Bool
compare_texts operator found wanted =
    if not (operator == "=" || operator == "==" || operator == "===")
    then err (
        message (
          "unexpected operator "
          ⧺ quoted operator
          ⧺ " in regex comparator, cannot compare "
          ⧺ quoted found
          ⧺ " and "
          ⧺ quoted wanted))
    else ok (found == wanted)

-- two values of a condition
unfoldable pub compare_values : String → String → String → Result Bool
compare_values operator found wanted = elim (atoi wanted) [
  | ok n ↦ elim (atoi found) [
    | ok m ↦ ok (compare_ints operator m n)
    | err e ↦ ok false
    | panic s ↦ panic s
  ]
  | err e ↦ compare_texts operator found wanted
  | panic s ↦ panic s
]

abbrev unquoted : String → String
unquoted value = if value == "''" || value == "\"\"" then "" else value

abbrev regex_condition : Map String → List String → Result Bool
regex_condition found (name ∷ operator ∷ value ∷ []) = elim (lookup name found) [
  | none ↦ ok false
  | some v ↦ compare_values operator v (unquoted value)
]
regex_condition found _ = err (message "unable to parse regex conditional")

unfoldable pub compare_regex : String → Map String → Result Bool
unfolding compare_values
compare_regex condition found =
    if condition == "" then ok true else regex_condition found (split b' ' (trim_space condition))

abbrev severity_word : Severity → String
severity_word failing = "fail"
severity_word warning = "warn"
severity_word passing = "pass"

abbrev severity_block : Severity → String
severity_block failing = "Fail"
severity_block warning = "Warn"
severity_block passing = "Pass"

-- the loop over the files with one of the two, if it is set
unfoldable pub each_file :
    (String → Result AnalyzeResult) → Map String → Result (List AnalyzeResult)
each_file analyze [] = ok []
each_file analyze ((_, text) ∷ files) = do
  r ← analyze text
  rs ← each_file analyze files
  ok (r ∷ rs)

abbrev pub if_set :
    String → (String → Result AnalyzeResult) → Map String → Result (List AnalyzeResult)
if_set pattern analyze files = if pattern == "" then ok [] else each_file analyze files

abbrev pub no_files : TextAnalyze → String → List AnalyzeResult
no_files a title =
    if a.ignore_if_no_files
    then []
    else record (text_result title) { is_warn = true; message = "No matching files" } ∷ []

abbrev pub or_invalid : TextAnalyze → String → List AnalyzeResult → List AnalyzeResult
or_invalid a title [] =
    record (text_result title) { is_fail = true; message = "Invalid analyzer" } ∷ []
or_invalid a title results =
    map {A = AnalyzeResult} (λ r. record r { strict = bool_or_default_false a.strict }) results

-- the outcomes as the loops over the second expression find them
abbrev pub outcomes_after : TextAnalyze → List Outcome
outcomes_after a = if a.regex_pattern == "" then a.outcomes else map defaulted a.outcomes

-- `compile` is regexp.Compile, and `render` util.RenderTemplate.
unfoldable pub analyze_regex_pattern :
    (String → Result Regex) → String → String → List Outcome → String → Result AnalyzeResult
unfolding pattern_loop
analyze_regex_pattern compile pattern text outcomes title = do
  re ← wrap ("failed to compile regex: " ⧺ pattern) (compile pattern)
  pattern_loop (re.matches text) outcomes (text_result title)

unfoldable pub groups_branch :
    (String → Map String → Result String) → Map String → AnalyzeResult → Branch AnalyzeResult
unfolding compare_regex
groups_branch render found blank_result severity s = do
  is_match ←
      wrap ("failed to compare regex " ⧺ severity_word severity ⧺ " conditional")
        (compare_regex s.when found)
  if is_match
      then (do
        text ←
            wrap ("failed to template message in outcome." ⧺ severity_block severity ⧺ " block")
              (render s.message found)
        ok (some (report severity text s.uri blank_result)))
      else ok none

module _ (compile : String → Result Regex) (render : String → Map String → Result String) where
  unfoldable pub analyze_regex_groups :
      String → String → List Outcome → String → Result AnalyzeResult
  unfolding groups_branch found_matches
  analyze_regex_groups pattern text outcomes title = do
    re ← wrap ("failed to compile regex: " ⧺ pattern) (compile pattern)
    let start = blank title "kubernetes_text_analyze" (text_icon ⧺ "?w=13&h=16")
    outcome_loop (groups_branch render (found_matches re text) start) start outcomes

  -- the part after the files are read
  unfoldable pub analyze_texts : TextAnalyze → String → Map String → Result (List AnalyzeResult)
  unfolding each_file defaulted analyze_regex_pattern analyze_regex_groups
  analyze_texts a title files = if is_nil files then ok (no_files a title) else do
    one ←
        if_set a.regex_pattern
          (λ text. analyze_regex_pattern compile a.regex_pattern text a.outcomes title) files
    two ←
        if_set a.regex_groups
          (λ text. analyze_regex_groups a.regex_groups text (outcomes_after a) title) files
    ok (or_invalid a title (one ++ two))

  -- `find_files` takes a pattern and the patterns to leave out.
  unfoldable pub analyze_text_analyze :
      (String → List String → Result (Map String))
      → TextAnalyze
      → String
      → Result (List AnalyzeResult)
  unfolding collected_path analyze_texts
  analyze_text_analyze find_files a title =
      let path = collected_path a.collector_name a.file_name in
      wrap ("failed to read collected file name: " ⧺ path)
        (find_files path (map (collected_path a.collector_name) a.exclude_files))
      >>= analyze_texts a title

-- `Title`
abbrev pub text_title : TextAnalyze → String
text_title a = if a.check_name == "" then a.collector_name else a.check_name
