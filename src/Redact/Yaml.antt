-- ===== src/Redact/Yaml.antt =====
-- The redactor of YAML values, pkg/redact/yaml.go.
pub mod Found
pub mod Returns
use troubleshoot.Prelude.{
  ℕ, ◌+◌, String, ◌≡◌, refl, Bool, true, false, not, ◌||◌, Option, none, some, List, [], ◌∷◌, ◌==◌,
  if◌then◌else◌, ltb, ◌&&◌, zero, suc, ℤ, pos, negsuc, length,
}
use troubleshoot.Go.Result.{Result, ok, err, panic, Error, ◌>>=◌, map_result}
use troubleshoot.Go.Text.{byte_length, split}
use troubleshoot.Go.Strconv.{atoi}
use troubleshoot.Redact.{
  Tokenizer, Stream, Redaction, Redacted, Label, mask_text, token_panic, difference,
}

-- What yaml.v2 decodes. A scalar that is no string keeps its text in `other`. A mapping has its
-- keys, here strings, in the order of the file.
mutual
  pub data Yaml : Type 0 where
    text : String → Yaml
    other : String → Yaml
    sequence : Items → Yaml
    mapping : Entries → Yaml

  pub data Items : Type 0 where
    no_items : Items
    item : Yaml → Items → Items

  pub data Entries : Type 0 where
    no_entries : Entries
    entry : String → Yaml → Entries → Entries

pub record YamlRedactor : Type 0 where
  pub mask_path : List String
  pub label : Label

unfoldable pub new_yaml_redactor : String → String → String → YamlRedactor
new_yaml_redactor yaml_path file_path name = record {
  mask_path = split b'.' yaml_path;
  label = record { file_path = file_path; redact_name = name; is_default = false };
}

-- what takes the place of a value
unfoldable pub masked : Tokenizer → Label → Yaml → Result Yaml
masked (some tokens) label (text value) =
    if value == ""
    then ok (text mask_text)
    else if tokens.panics value label.redact_name label.file_path
    then panic token_panic
    else ok (text (tokens.token value label.redact_name label.file_path))
masked _ label value = ok (text mask_text)

-- A value after the call, and whether the call set `foundMatch`.
abbrev pub Walked : Type 0
Walked = Result (Yaml × Bool)

all_items : (Yaml → Walked) → Items → Result (Items × Bool)
all_items walk no_items = ok (no_items, false)
all_items walk (item v rest) = do
  (w, found) ← walk v
  (ws, found') ← all_items walk rest
  ok (item w ws, found || found')

-- an index at or past the end changes nothing
item_at : (Yaml → Walked) → ℕ → Items → Result (Items × Bool)
item_at walk n no_items = ok (no_items, false)
item_at walk zero (item v rest) = do (w, found) ← walk v; ok (item w rest, found)
item_at walk (suc n) (item v rest) = do (ws, found) ← item_at walk n rest; ok (item v ws, found)

all_entries : (Yaml → Walked) → Entries → Result (Entries × Bool)
all_entries walk no_entries = ok (no_entries, false)
all_entries walk (entry key v rest) = do
  (w, found) ← walk v
  (ws, found') ← all_entries walk rest
  ok (entry key w ws, found || found')

entry_at : (Yaml → Walked) → String → Entries → Result (Entries × Bool)
entry_at walk key no_entries = ok (no_entries, false)
entry_at walk key (entry k v rest) =
    let later = entry_at walk key rest in
    if k == key
    then (do (w, found) ← walk v; ok (entry k w rest, found))
    else (do (ws, found) ← later; ok (entry k v ws, found))

-- An index below 0 passes the test on the length, and the access panics.
walk_sequence : (Yaml → Walked) → Result ℤ → Items → Result (Items × Bool)
unfolding item_at
walk_sequence walk (ok (pos n)) items = item_at walk n items
walk_sequence walk (ok (negsuc n)) items = panic "index out of range"
walk_sequence walk (err e) items = ok (items, false)
walk_sequence walk (panic s) items = panic s

abbrev pub is_empty_mapping : Entries → Bool
is_empty_mapping no_entries = true
is_empty_mapping (entry k v rest) = false

unfoldable pub redact_yaml : Tokenizer → Label → List String → Yaml → Walked
unfolding masked all_items walk_sequence all_entries entry_at
redact_yaml tokenizer label [] v = map_result (λ w. (w, true)) (masked tokenizer label v)
redact_yaml tokenizer label (p ∷ path) (text s) = ok (text s, false)
redact_yaml tokenizer label (p ∷ path) (other s) = ok (other s, false)
redact_yaml tokenizer label (p ∷ path) (sequence items) =
    let walk = redact_yaml tokenizer label path in
    map_result (λ r. (sequence r.0, r.1))
      (if p == "*" then all_items walk items else walk_sequence walk (atoi p) items)
redact_yaml tokenizer label (p ∷ path) (mapping entries) =
    let walk = redact_yaml tokenizer label path in
    map_result (λ r. (mapping r.0, r.1))
      (if p == "*" && not (is_empty_mapping entries)
        then all_entries walk entries
        else entry_at walk p entries)

-- The code not under the repository that the redactor calls: filepath.Match, yaml.Unmarshal and
-- yaml.Marshal.
pub record Libraries : Type 0 where
  pub glob : String → String → Result Bool
  pub unmarshal : String → Result Yaml
  pub marshal : Yaml → Result String

-- what is written, the error that ends it, and what is recorded
abbrev pub Written : Type 0
Written = String × Option Error × List Redaction

abbrev pub marshalled : YamlRedactor → String → String → Result String → Result Written
marshalled r path doc (ok new) = ok (
  new,
  none,
  record {
    redactor_name = r.label.redact_name;
    characters_removed = difference (byte_length doc) (byte_length new);
    line = 0;
    file = path;
    is_default_redactor = r.label.is_default;
  }
      ∷ [],
)
marshalled r path doc (err e) = ok ("", some e, [])
marshalled r path doc (panic s) = panic s

abbrev pub walked : Libraries → YamlRedactor → String → String → Walked → Result Written
walked libraries r path doc (ok (new, true)) = marshalled r path doc (libraries.marshal new)
walked libraries r path doc (ok (new, false)) = ok (doc, none, [])
walked libraries r path doc (err e) = err e
walked libraries r path doc (panic s) = panic s

abbrev pub parsed :
    Libraries → Tokenizer → YamlRedactor → String → String → Result Yaml → Result Written
parsed libraries tokenizer r path doc (ok v) =
    walked libraries r path doc (redact_yaml tokenizer r.label r.mask_path v)
parsed libraries tokenizer r path doc (err e) = ok (doc, none, [])
parsed libraries tokenizer r path doc (panic s) = panic s

-- `doc` is the whole file; an error of its read is dropped by the code, as that of the decoding
-- takes its place.
unfoldable pub yaml_redact : Libraries → Tokenizer → YamlRedactor → String → String → Result Written
unfolding redact_yaml
yaml_redact libraries tokenizer r path doc =
    let here = parsed libraries tokenizer r path doc (libraries.unmarshal doc) in
    if r.label.file_path == "" then here else elim (libraries.glob r.label.file_path path) [
      | ok true ↦ here
      | ok false ↦ ok (doc, none, [])
      | err e ↦ ok (doc, none, [])
      | panic s ↦ panic s
    ]

second_item :
    redact_yaml none
      (record { file_path = ""; redact_name = ""; is_default = false })
      ("spec" ∷ "1" ∷ [])
      (mapping
        (entry "spec" (sequence (item (other "8") (item (text "secret") no_items))) no_entries))
    ≡ ok (
      mapping
          (entry "spec" (sequence (item (other "8") (item (text mask_text) no_items))) no_entries),
      true,
    )
unfolding redact_yaml atoi
second_item = refl
