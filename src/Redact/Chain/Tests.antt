-- ===== src/Redact/Chain/Tests.antt =====
-- A run of all the redactors on a small file, and the theorems at that input.
use troubleshoot.Prelude.{
  ◌==◌, String, ◌≡◌, refl, true, false, none, some, List, [], ◌∷◌, All, member,
}
use troubleshoot.Go.Result.{Result, ok, err, panic, foreign}
use troubleshoot.Go.Text.{byte_length, contains}
use troubleshoot.Go.Bytes.{replace_all}
use troubleshoot.Redact.{Regex, Stream, Redacted}
use troubleshoot.Go.Strconv.{itoa}
use troubleshoot.Redact.Builtin.{SingleLine, DoubleLine, single_lines, double_lines}
use troubleshoot.Redact.LineByLine.{LiteralRedactor}
use troubleshoot.Redact.Yaml.{Libraries, new_yaml_redactor}
use troubleshoot.Redact.Yaml.Returns.{Ends}
use troubleshoot.Redact.Path.{Globs, RedactSpec, build_additional_redactors}
use troubleshoot.Redact.Chain.{Surroundings, redact}
use troubleshoot.Redact.Chain.Hides.{redact_hides}
use troubleshoot.Redact.Chain.Returned.{Calm, Compiles, CompilesBoth, redact-Ends}

-- an expression that matches nothing
abbrev never : Regex
never = record {
  matches = λ line. false;
  find_submatch = λ line. none;
  subexp_names = [];
  replace_all = λ line template. line;
}

abbrev compile : String → Result Regex
compile pattern = ok never

abbrev globs : Globs
globs pattern = ok (λ path. true)

-- no file of a custom resource, and no YAML
abbrev libraries : Libraries
libraries = record {
  glob = λ pattern path. ok false;
  unmarshal = λ doc. err (foreign "yaml");
  marshal = λ v. ok "";
}

abbrev surroundings : Surroundings
surroundings = record { libraries = libraries; lower = λ s. s; tokenizer = none }

abbrev spec : RedactSpec
spec = record {
  name = "mine";
  file = "";
  files = [];
  values = "abc" ∷ [];
  regex = [];
  yaml_path = [];
}

abbrev input : Stream
input = record { lines = "x abc" ∷ "y" ∷ []; ending = none }

abbrev result : Result Redacted → Redacted
result (ok r) = r
result (err e) = record { out = input; found = [] }
result (panic s) = record { out = input; found = [] }

abbrev out : Redacted
out = result (redact surroundings globs compile "pod.log" (some spec ∷ []) input)

written : out.out.lines ≡ "x ***HIDDEN***" ∷ "y" ∷ []
unfolding redact build_additional_redactors replace_all new_yaml_redactor member byte_length
written = refl

calm : Calm libraries
calm = record {
  globs = λ pattern path s h. cc h;
  decodes = λ doc s h. cc h;
  encodes = λ v s h. cc h;
}

single_lines_compile : (l : List SingleLine) → All (Compiles compile) l
single_lines_compile [] = tt
single_lines_compile (x ∷ l) = (((never, refl), (never, refl)), single_lines_compile l)

double_lines_compile : (l : List DoubleLine) → All (CompilesBoth compile) l
double_lines_compile [] = tt
double_lines_compile (x ∷ l) =
    ((((never, refl), (never, refl)), (never, refl)), double_lines_compile l)

redact-Ends_example :
    Ends none
      (redact surroundings globs compile "pod.log" (some (record spec { values = [] }) ∷ []) input)
unfolding build_additional_redactors
redact-Ends_example =
    redact-Ends surroundings globs compile "pod.log" (some (record spec { values = [] }) ∷ []) input
      [] calm (single_lines_compile single_lines) (double_lines_compile double_lines) refl tt

-- The value is one quote, and a tokenizer that panics on it stops the redactors.
quote_panics :
    redact
      (record surroundings {
        tokenizer = some (record {
          panics = λ value context path. value == "'";
          token = λ value context path. "T";
        });
      })
      globs
      compile
      "pod.log"
      (some (record spec { values = "'" ∷ [] }) ∷ [])
      input
    ≡ panic "slice bounds out of range"
unfolding redact build_additional_redactors replace_all new_yaml_redactor member byte_length
quote_panics = refl

abbrev mine : LiteralRedactor
mine = record {
  match = "abc";
  label = record { file_path = "pod.log"; redact_name = "mine.literal.0"; is_default = false };
}

redact_hides_example : All (λ line. contains line "abc" ≡ false) out.out.lines
unfolding redact build_additional_redactors replace_all new_yaml_redactor member itoa byte_length
redact_hides_example =
    redact_hides surroundings globs compile "pod.log" (some spec ∷ []) input out [] mine refl refl
      refl (refl, (refl, (refl, tt))) refl
