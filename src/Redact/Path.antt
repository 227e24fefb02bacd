-- ===== src/Redact/Path.antt =====
-- Which redactors of a specification a file gets: `redactMatchesPath`, `redactorName` and
-- `buildAdditionalRedactors` of pkg/redact/redact.go.
pub mod Selected
pub mod Counted
use Prim.Native.String.{◌++◌ as ◌⧺◌}
use troubleshoot.Prelude.{
  ℕ, ◌+◌, String, ◌≡◌, refl, Bool, true, false, not, ◌&&◌, ◌||◌, Option, none, some, List, [], ◌∷◌,
  ◌++◌, ◌==◌, if◌then◌else◌, ℤ, pos, is_nil,
}
use troubleshoot.Go.Result.{Result, ok, err, panic, wrap, ◌>>=◌}
use troubleshoot.Go.Text.{quoted}
use troubleshoot.Go.Strconv.{itoa}
use troubleshoot.Redact.{Regex, Label}
use troubleshoot.Redact.LineByLine.{LiteralRedactor, SingleLineRedactor}
use troubleshoot.Redact.MultiLine.{MultiLineRedactor}
use troubleshoot.Redact.Yaml.{YamlRedactor, new_yaml_redactor}

pub record RegexSpec : Type 0 where
  pub selector : String
  pub redactor : String

-- troubleshootv1beta2.Redact, with its file selector and its removals
pub record RedactSpec : Type 0 where
  pub name : String
  pub file : String
  pub files : List String
  pub values : List String
  pub regex : List RegexSpec
  pub yaml_path : List String

-- gobwas/glob's Compile, with the slash as separator
abbrev pub Globs : Type 0
Globs = String → Result (String → Bool)

compile_all : Globs → ℕ → List String → Result (List (String → Bool))
compile_all globs i [] = ok []
compile_all globs i (pattern ∷ rest) = do
  g ← wrap ("invalid file glob string " ⧺ itoa (pos i) ⧺ " " ⧺ quoted pattern) (globs pattern)
  gs ← compile_all globs (i + 1) rest
  ok (g ∷ gs)

compile_one : Globs → String → Result (List (String → Bool))
compile_one globs pattern =
    if pattern == ""
    then ok []
    else do g ← wrap ("invalid file glob string " ⧺ quoted pattern) (globs pattern); ok (g ∷ [])

abbrev pub some_matches : String → List (String → Bool) → Bool
some_matches path [] = false
some_matches path (g ∷ gs) = g path || some_matches path gs

unfoldable pub redact_matches_path : Globs → String → RedactSpec → Result Bool
unfolding compile_one compile_all
redact_matches_path globs path spec = if spec.file == "" && is_nil spec.files then ok true else do
  one ← compile_one globs spec.file
  more ← compile_all globs 0 spec.files
  ok (some_matches path (one ++ more))

unfoldable pub redactor_name : ℕ → ℕ → String → String → String
redactor_name i j name kind =
    if name == ""
    then "unnamed-" ⧺ itoa (pos i) ⧺ "." ⧺ kind ⧺ "." ⧺ itoa (pos j)
    else name ⧺ "." ⧺ kind ⧺ "." ⧺ itoa (pos j)

pub data Redactor : Type 0 where
  literal : LiteralRedactor → Redactor
  single_line : SingleLineRedactor → Redactor
  multi_line : MultiLineRedactor → Redactor
  yaml : YamlRedactor → Redactor

abbrev label_of : String → String → Label
label_of path name = record { file_path = path; redact_name = name; is_default = false }

literals : String → ℕ → String → ℕ → List String → List Redactor
unfolding redactor_name
literals path i name j [] = []
literals path i name j (value ∷ rest) =
    literal (record { match = value; label = label_of path (redactor_name i j name "literal") })
    ∷ literals path i name (j + 1) rest

-- An expression of the specification. The text that the messages give of it is left out.
one_regex : (String → Result Regex) → String → ℕ → String → ℕ → RegexSpec → Result Redactor
unfolding redactor_name
one_regex compile path i name j re =
    if re.selector == ""
    then wrap "redactor" (do
      compiled ← compile re.redactor
      ok (
          single_line (record {
            scan = none;
            re = compiled;
            label = label_of path (redactor_name i j name "regex");
          })))
    else wrap "multiline redactor" (do
      re1 ← compile re.selector
      re2 ← compile re.redactor
      ok (
          multi_line (record {
            scan = none;
            re1 = re1;
            re2 = re2;
            label = label_of path (redactor_name i j name "multiLine");
          })))

regexes :
    (String → Result Regex) → String → ℕ → String → ℕ → List RegexSpec → Result (List Redactor)
unfolding one_regex
regexes compile path i name j [] = ok []
regexes compile path i name j (re ∷ rest) = do
  r ← one_regex compile path i name j re
  rs ← regexes compile path i name (j + 1) rest
  ok (r ∷ rs)

yamls : String → ℕ → String → ℕ → List String → List Redactor
unfolding redactor_name
yamls path i name j [] = []
yamls path i name j (y ∷ rest) =
    yaml (new_yaml_redactor y path (redactor_name i j name "yaml")) ∷ yamls path i name (j + 1) rest

-- the redactors of one specification that takes the path
redactors_of : (String → Result Regex) → String → ℕ → RedactSpec → Result (List Redactor)
unfolding literals regexes yamls
redactors_of compile path i spec = do
  rs ← regexes compile path i spec.name 0 spec.regex
  ok (literals path i spec.name 0 spec.values ++ rs ++ yamls path i spec.name 0 spec.yaml_path)

-- a nil specification is skipped
of_spec : Globs → (String → Result Regex) → String → ℕ → Option RedactSpec → Result (List Redactor)
unfolding redactors_of redact_matches_path
of_spec globs compile path i none = ok []
of_spec globs compile path i (some spec) = do
  matching ← redact_matches_path globs path spec
  if matching then redactors_of compile path i spec else ok []

from_spec :
    Globs → (String → Result Regex) → String → ℕ → List (Option RedactSpec) → Result (List Redactor)
unfolding of_spec
from_spec globs compile path i [] = ok []
from_spec globs compile path i (spec ∷ rest) = do
  rs ← of_spec globs compile path i spec
  more ← from_spec globs compile path (i + 1) rest
  ok (rs ++ more)

unfoldable pub build_additional_redactors :
    Globs → (String → Result Regex) → String → List (Option RedactSpec) → Result (List Redactor)
unfolding from_spec
build_additional_redactors globs compile path specs = from_spec globs compile path 0 specs
