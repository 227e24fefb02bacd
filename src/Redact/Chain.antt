-- ===== src/Redact/Chain.antt =====
-- `Redact` and `getRedactors` of pkg/redact/redact.go: a file through the built-in redactors and those
-- of the specifications, one after another. Every line of a stream ends with a newline.
pub mod Hides
pub mod Panics
pub mod Returned
mod Tests
use Prim.Native.String.{◌++◌ as ◌⧺◌}
use Prim.Native.String.append
use troubleshoot.Prelude.{
  String, ◌≡◌, refl, Bool, true, false, Option, none, some, List, [], ◌∷◌, ◌++◌, ◌==◌,
  if◌then◌else◌, map, member,
}
use troubleshoot.Go.Result.{Result, ok, err, panic, Error, ◌>>=◌, wrap}
use troubleshoot.Go.Text.{split}
use troubleshoot.Go.Ascii.{before_suffix}
use troubleshoot.Redact.{Regex, Tokenizer, Stream, Redaction, Redacted, Label, token_panic}
use troubleshoot.Redact.Builtin.{
  SingleLine, DoubleLine, single_lines, double_lines, custom_resources,
}
use troubleshoot.Redact.LineByLine.{
  literal_redact, literal_panics, SingleLineRedactor, single_line_redact, single_line_panics,
}
use troubleshoot.Redact.MultiLine.{MultiLineRedactor, multi_line_redact, multi_line_panics}
use troubleshoot.Redact.Yaml.{YamlRedactor, new_yaml_redactor, Libraries, Written, yaml_redact}
use troubleshoot.Redact.Path.{
  Globs, RedactSpec, Redactor, literal, single_line, multi_line, yaml, build_additional_redactors,
}

abbrev builtin_label : String → String → Label
builtin_label path name = record { file_path = path; redact_name = name; is_default = true }

module _ (compile : String → Result Regex) where
  -- `if re.scan != "" { ... }`
  unfoldable pub compile_scan : String → Result (Option Regex)
  compile_scan pattern =
      if pattern == "" then ok none else (do scan ← compile pattern; ok (some scan))

  unfoldable pub new_single_line_redactor : String → SingleLine → Result SingleLineRedactor
  unfolding compile_scan
  new_single_line_redactor path s = do
    re ← compile s.regex
    scan ← compile_scan s.scan
    ok (record { scan = scan; re = re; label = builtin_label path s.name })

  unfoldable pub new_multi_line_redactor : String → DoubleLine → Result MultiLineRedactor
  unfolding compile_scan
  new_multi_line_redactor path d = do
    re1 ← compile d.selector.regex
    scan ← compile_scan d.selector.scan
    re2 ← compile d.redactor
    ok (record { scan = scan; re1 = re1; re2 = re2; label = builtin_label path d.selector.name })

  unfoldable pub singles : String → List SingleLine → Result (List Redactor)
  unfolding new_single_line_redactor
  singles path [] = ok []
  singles path (s ∷ rest) = do
    r ← new_single_line_redactor path s
    rs ← singles path rest
    ok (single_line r ∷ rs)

  unfoldable pub doubles : String → List DoubleLine → Result (List Redactor)
  unfolding new_multi_line_redactor
  doubles path [] = ok []
  doubles path (d ∷ rest) = do
    r ← new_multi_line_redactor path d
    rs ← doubles path rest
    ok (multi_line r ∷ rs)

abbrev file_glob : String → String
file_glob resource = "cluster-resources/custom-resources/" ⧺ resource ⧺ "/*.yaml"

-- the annotation that holds a copy of the fields
abbrev annotation_redactor : String → YamlRedactor
annotation_redactor glob = record {
  mask_path =
      "*" ∷ "metadata" ∷ "annotations" ∷ "kubectl.kubernetes.io/last-applied-configuration" ∷ [];
  label = record { file_path = glob; redact_name = ""; is_default = false };
}

-- the loop over the resources, with those that it met before
unfoldable pub resource_redactors : List String → List (String × String) → List Redactor
resource_redactors seen [] = []
resource_redactors seen ((resource, yaml_path) ∷ rest) =
    let first_time =
      yaml (annotation_redactor (file_glob resource)) ∷ resource_redactors (resource ∷ seen) rest in
    let again = resource_redactors seen rest in
    yaml (new_yaml_redactor yaml_path (file_glob resource) "")
    ∷ (if member resource seen then again else first_time)

unfoldable pub get_redactors : (String → Result Regex) → String → Result (List Redactor)
unfolding singles doubles resource_redactors
get_redactors compile path = do
  one_line ← singles compile path single_lines
  two_lines ← doubles compile path double_lines
  ok (one_line ++ two_lines ++ resource_redactors [] custom_resources)

-- a file of the lines
unfoldable pub document : List String → String
document [] = ""
document (line ∷ lines) = line ⧺ "\n" ⧺ document lines

-- a carriage return before the newline is no part of the line
abbrev bare_line : String → String
bare_line line = elim (before_suffix "\r" line) [ none ↦ line | some s ↦ s ]

-- what follows the last newline is a line if it is not empty
pub complete : List String → List String
complete [] = []
complete (line ∷ []) = if line == "" then [] else line ∷ []
complete (line ∷ next ∷ lines) = line ∷ complete (next ∷ lines)

unfoldable pub lines_of : String → List String
unfolding complete
lines_of text = map bare_line (complete (split b'\n' text))

-- What the redactors take from elsewhere, and the global tokenizer.
pub record Surroundings : Type 0 where
  pub libraries : Libraries
  pub lower : String → String
  pub tokenizer : Tokenizer

abbrev from_document : Written → Redacted
from_document (doc, ending, found) = record {
  out = record { lines = lines_of doc; ending = ending };
  found = found;
}

unfoldable pub walk_document : Surroundings → String → YamlRedactor → Stream → Result Redacted
unfolding document lines_of yaml_redact
walk_document s path r input = do
  written ← yaml_redact s.libraries s.tokenizer r path (document input.lines)
  ok (from_document written)

-- A YAML redactor whose pattern does not match the path gives its input back.
unfoldable pub run_yaml : Surroundings → String → YamlRedactor → Stream → Result Redacted
unfolding walk_document
run_yaml s path r input =
    let walked = walk_document s path r input in
    if r.label.file_path == "" then walked else elim (s.libraries.glob r.label.file_path path) [
      | ok true ↦ walked
      | ok false ↦ ok (record { out = input; found = [] })
      | err e ↦ ok (record { out = input; found = [] })
      | panic text ↦ panic text
    ]

-- A panic of the tokenizer in the goroutine of a redactor is not recovered.
abbrev pub unless_panics : Bool → Redacted → Result Redacted
unless_panics panics r = if panics then panic token_panic else ok r

-- the method `Redact` of each kind of redactor
unfoldable pub run_redactor : Surroundings → String → Redactor → Stream → Result Redacted
unfolding literal_redact literal_panics single_line_redact single_line_panics multi_line_redact
    multi_line_panics run_yaml
run_redactor s path (literal r) input =
    unless_panics (literal_panics s.tokenizer r input) (literal_redact s.tokenizer r input)
run_redactor s path (single_line r) input =
    unless_panics (single_line_panics s.tokenizer s.lower r input)
      (single_line_redact s.tokenizer s.lower r input)
run_redactor s path (multi_line r) input =
    unless_panics (multi_line_panics s.tokenizer s.lower r input)
      (multi_line_redact s.tokenizer s.lower r input)
run_redactor s path (yaml r) input = run_yaml s path r input

-- each redactor reads what the one before it writes
unfoldable pub chain : Surroundings → String → List Redactor → Stream → Result Redacted
unfolding run_redactor
chain s path [] input = ok (record { out = input; found = [] })
chain s path (r ∷ rs) input = do
  first ← run_redactor s path r input
  rest ← chain s path rs first.out
  ok (record { out = rest.out; found = first.found ++ rest.found })

unfoldable pub redact :
    Surroundings
    → Globs
    → (String → Result Regex)
    → String
    → List (Option RedactSpec)
    → Stream
    → Result Redacted
unfolding get_redactors chain build_additional_redactors
redact s globs compile path specs input = do
  builtin ← get_redactors compile path
  built ← wrap "build custom redactors" (build_additional_redactors globs compile path specs)
  chain s path (builtin ++ built) input
