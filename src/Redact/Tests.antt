-- ===== src/Redact/Tests.antt =====
-- Runs of the redactors on small inputs, and their theorems at those inputs.
use troubleshoot.Prelude.{
  ℕ, String, ◌≡◌, ◌↔◌, refl, true, false, none, some, List, [], ◌∷◌, ◌++◌, ◌==◌, All, pos,
}
use troubleshoot.Go.Result.{ok, foreign, Result}
use troubleshoot.Go.Text.{byte_length, contains}
use troubleshoot.Go.Bytes.{replace_all}
use troubleshoot.Redact.{Regex, Stream, Redaction, Label, rewritten, get_replacement_pattern}
use troubleshoot.Redact.LineByLine.{
  LiteralRedactor, literal_redact, SingleLineRedactor, single_line_redact,
}
use troubleshoot.Redact.LineByLine.Recorded.{Accounts, single_line_redact-Accounts}
use troubleshoot.Redact.LineByLine.Hidden.{literal_redact_hides}
use troubleshoot.Redact.MultiLine.{MultiLineRedactor, multi_line_redact, selects}
use troubleshoot.Redact.MultiLine.Reference.{
  pairs_rewritten, alone_after_pair, multi_line_redact_lines, multi_line_redact_hides_error,
}
use troubleshoot.Redact.Yaml.{
  Yaml, text, sequence, mapping, item, no_items, entry, no_entries, redact_yaml,
}
use troubleshoot.Redact.Yaml.Found.{redact_yaml_unfound}
use troubleshoot.Redact.Path.{
  RedactSpec, Globs, redact_matches_path, build_additional_redactors, Redactor,
}
use troubleshoot.Redact.Path.Selected.{Selects, redact_matches_path_iff}

abbrev label : Label
label = record { file_path = "pod.log"; redact_name = "r"; is_default = false }

-- an expression that finds one text, and puts the mask in its place
abbrev finds : String → Regex
finds secret = record {
  matches = λ line. contains line secret;
  find_submatch = λ line. none;
  subexp_names = "" ∷ "mask" ∷ [];
  replace_all = λ line template. replace_all line secret template;
}

abbrev log : Stream
log = record { lines = "key" ∷ "abc" ∷ "c" ∷ []; ending = none }

abbrev literal_abc : LiteralRedactor
literal_abc = record { match = "abc"; label = label }

literal_redact_hides_example :
    All (λ line. contains line "abc" ≡ false) (literal_redact none literal_abc log).out.lines
literal_redact_hides_example =
    literal_redact_hides none literal_abc log refl refl (refl, (refl, (refl, tt)))

abbrev single : SingleLineRedactor
single = record { scan = none; re = finds "abc"; label = label }

single_line_redact-Accounts_example : Accounts log (single_line_redact none (λ s. s) single log)
unfolding byte_length
single_line_redact-Accounts_example =
    single_line_redact-Accounts none (λ s. s) single log (refl, (refl, (refl, tt)))

abbrev double : MultiLineRedactor
double = record { scan = none; re1 = finds "key"; re2 = finds "abc"; label = label }

multi_line_redact_lines_example :
    (multi_line_redact none
        (λ s. s)
        double
        (record { lines = "key" ∷ "abc" ∷ "c" ∷ []; ending = none })).out.lines
      ++ alone_after_pair (selects (λ s. s) double) ("key" ∷ "abc" ∷ "c" ∷ [])
    ≡ pairs_rewritten
        (selects (λ s. s) double)
        (rewritten none double.re2 double.label)
        ("key" ∷ "abc" ∷ "c" ∷ [])
multi_line_redact_lines_example =
    multi_line_redact_lines none (λ s. s) double "key" "abc" ("c" ∷ []) none

last_line_lost :
    (multi_line_redact none (λ s. s) double log).out.lines ≡ "key" ∷ "***HIDDEN***" ∷ []
unfolding multi_line_redact rewritten replace_all contains get_replacement_pattern
last_line_lost = refl

abbrev broken : Stream
broken = record { lines = "a" ∷ "b" ∷ []; ending = some (foreign "bufio.Scanner: token too long") }

multi_line_redact_hides_error_example :
    (multi_line_redact none (λ s. s) double broken).out.ending ≡ none
unfolding contains
multi_line_redact_hides_error_example =
    multi_line_redact_hides_error none (λ s. s) double broken (refl, (refl, tt))

abbrev document : Yaml
document = mapping (entry "a" (sequence (item (text "x") no_items)) no_entries)

redact_yaml_unfound_example : document ≡ document
unfolding redact_yaml
redact_yaml_unfound_example = redact_yaml_unfound none label ("b" ∷ []) document document refl

-- globs without special characters
abbrev globs : Globs
globs pattern = ok (λ path. path == pattern)

abbrev spec : RedactSpec
spec = record {
  name = "n";
  file = "";
  files = "a.log" ∷ "b.log" ∷ [];
  values = "abc" ∷ "def" ∷ [];
  regex = [];
  yaml_path = "x.y" ∷ [];
}

redact_matches_path_iff_example : (true ≡ true) ↔ Selects globs "b.log" spec
unfolding redact_matches_path
redact_matches_path_iff_example = redact_matches_path_iff globs "b.log" spec true refl

abbrev compile : String → Result Regex
compile pattern = ok (finds pattern)

abbrev built : List Redactor
unfolding build_additional_redactors
built = elim (build_additional_redactors globs compile "b.log" (none ∷ some spec ∷ [])) [
  | ok rs ↦ rs
  | _ ↦ []
]

abbrev hit : String → ℕ → Redaction
hit file n = record {
  redactor_name = "r";
  characters_removed = pos 1;
  line = n;
  file = file;
  is_default_redactor = false;
}
