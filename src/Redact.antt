-- ===== src/Redact.antt =====
-- pkg/redact: what its redactors share. `Redact` passes a file through one redactor after another.
pub mod LineByLine
pub mod MultiLine
pub mod Yaml
pub mod Path
pub mod Ledger
pub mod Tokens
pub mod Builtin
pub mod Chain
mod Tests
use Prim.Native.String.{◌++◌ as ◌⧺◌}
use troubleshoot.Prelude.{
  ℕ, ◌+◌, ◌-◌, String, ◌≡◌, refl, Bool, true, false, not, ◌&&◌, ◌||◌, Option, none, some, List, [],
  ◌∷◌, ◌==◌, if◌then◌else◌, ℤ, pos, negsuc, leb,
}
use troubleshoot.Go.Text.{byte_length}
use troubleshoot.Go.Result.{Error}
use troubleshoot.Go.Strconv.{itoa}

-- A compiled expression of package regexp. `replace_all` takes the line and the template;
-- `subexp_names` begins with the name of the whole match.
pub record Regex : Type 0 where
  pub matches : String → Bool
  pub find_submatch : String → Option (List String)
  pub subexp_names : List String
  pub replace_all : String → String → String

-- The global tokenizer, as the redactors call it with a value, a context and a path: whether the call
-- panics, and the token that it gives if it does not.
pub record TokenCalls : Type 0 where
  pub panics : String → String → String → Bool
  pub token : String → String → String → String

-- `none` where tokenization is off
abbrev pub Tokenizer : Type 0
Tokenizer = Option TokenCalls

-- what the panic of a call says
abbrev pub token_panic : String
token_panic = "slice bounds out of range"

-- A file as bufio gives it: the lines, and the error that ends it, if it is not the end of the file.
pub record Stream : Type 0 where
  pub lines : List String
  pub ending : Option Error

pub record Redaction : Type 0 where
  pub redactor_name : String
  pub characters_removed : ℤ
  pub line : ℕ
  pub file : String
  pub is_default_redactor : Bool

-- what a redactor writes, and what it gives to `addRedaction`
pub record Redacted : Type 0 where
  pub out : Stream
  pub found : List Redaction

-- the fields that every redactor has
pub record Label : Type 0 where
  pub file_path : String
  pub redact_name : String
  pub is_default : Bool

abbrev pub mask_text : String
mask_text = "***HIDDEN***"

abbrev pub difference : ℕ → ℕ → ℤ
difference m n = if leb n m then pos (m - n) else negsuc (n - m - 1)

-- `if !bytes.Equal(clean, line) { addRedaction(...) }`
abbrev pub report_change : Label → ℕ → String → String → List Redaction
report_change label n line clean =
    if clean == line
    then []
    else record {
      redactor_name = label.redact_name;
      characters_removed = difference (byte_length line) (byte_length clean);
      line = n;
      file = label.file_path;
      is_default_redactor = label.is_default;
    }
      ∷ []

-- the group `i` in the template, where the group called "mask" becomes `mask`
template_part : ℕ → String → String → String
template_part i name mask =
    if name == ""
    then "$" ⧺ itoa (pos i)
    else if name == "mask"
    then mask
    else if name == "drop"
    then ""
    else "${" ⧺ name ⧺ "}"

template : String → ℕ → List String → String
unfolding template_part
template mask i [] = ""
template mask i (name ∷ names) = template_part i name mask ⧺ template mask (i + 1) names

abbrev rest_of {ℓ} : {A : Type ℓ} → List A → List A
rest_of [] = []
rest_of (x ∷ xs) = xs

unfoldable pub get_replacement_pattern : List String → String → String
unfolding template
get_replacement_pattern names mask = template mask 1 (rest_of names)

-- a name that no submatch belongs to is left out
tokenized_template : (String → String) → ℕ → List String → List String → String
unfolding template_part
tokenized_template token i (name ∷ names) (value ∷ values) =
    template_part i name (if value == "" then mask_text else token value)
    ⧺ tokenized_template token (i + 1) names values
tokenized_template token i _ _ = ""

-- `getTokenizedReplacementPatternWithPath` with a tokenizer that is on
unfoldable pub get_tokenized_replacement_pattern :
    TokenCalls → Regex → String → String → String → String
unfolding tokenized_template
get_tokenized_replacement_pattern tokens re line context file_path = elim (re.find_submatch line) [
  | none ↦ line
  | some values ↦ re.replace_all line (
      tokenized_template (λ v. tokens.token v context file_path) 1 (rest_of re.subexp_names)
        (rest_of values))
]

-- some value of a group called "mask" makes the test true
unfoldable pub some_masked : (String → Bool) → List String → List String → Bool
some_masked test (name ∷ names) (value ∷ values) =
    name == "mask" && not (value == "") && test value || some_masked test names values
some_masked test _ _ = false

-- whether a call in `getTokenizedReplacementPatternWithPath` panics
unfoldable pub replacement_panics : TokenCalls → Regex → String → String → String → Bool
unfolding some_masked
replacement_panics tokens re line context file_path = elim (re.find_submatch line) [
  | none ↦ false
  | some values ↦
      some_masked (λ v. tokens.panics v context file_path) (rest_of re.subexp_names)
        (rest_of values)
]

-- the line as the two redactors with an expression rewrite it, where no call panics
unfoldable pub rewritten : Tokenizer → Regex → Label → String → String
unfolding get_replacement_pattern get_tokenized_replacement_pattern
rewritten none re label line =
    re.replace_all line (get_replacement_pattern re.subexp_names mask_text)
rewritten (some tokens) re label line =
    get_tokenized_replacement_pattern tokens re line label.redact_name label.file_path

-- whether the rewriting of the line panics
unfoldable pub rewriting_panics : Tokenizer → Regex → Label → String → Bool
unfolding replacement_panics
rewriting_panics none re label line = false
rewriting_panics (some tokens) re label line =
    replacement_panics tokens re line label.redact_name label.file_path

named_groups :
    get_replacement_pattern ("" ∷ "" ∷ "mask" ∷ "drop" ∷ "host" ∷ []) mask_text
    ≡ "$1***HIDDEN***${host}"
unfolding get_replacement_pattern itoa
named_groups = refl
