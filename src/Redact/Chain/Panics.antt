-- ===== src/Redact/Chain/Panics.antt =====
-- A redactor that panics has made the tokenizer panic on some value.
use troubleshoot.Prelude.{
  String, ◌≡◌, refl, Bool, true, false, none, some, List, [], ◌∷◌, arith, Bool-cases, Option-cases,
  inl, inr,
}
use troubleshoot.Prelude.{leb}
use troubleshoot.Go.Text.{byte_length}
use troubleshoot.Redact.{
  Regex, Tokenizer, Stream, Redacted, Label, some_masked, replacement_panics, rewriting_panics,
  rest_of,
}
use troubleshoot.Redact.LineByLine.{
  LiteralRedactor, mask_panics, some_scanned, literal_panics, SingleLineRedactor,
  single_line_panics, scanner_max_size,
}
use troubleshoot.Redact.MultiLine.{MultiLineRedactor, selects, pairs_panic, multi_line_panics}
use troubleshoot.Redact.Yaml.Returns.{Panicky, Ends}
use troubleshoot.Redact.Chain.{unless_panics}

-- some text makes the test true
abbrev Found : (String → Bool) → Type 0
Found test = (line : String) × (test line ≡ true)

some_scanned-Found :
    (test : String → Bool) (lines : List String) → some_scanned test lines ≡ true → Found test
unfolding some_scanned
some_scanned-Found test [] h = cc h
some_scanned-Found test (line ∷ rest) h =
    elim (Bool-cases (leb scanner_max_size (byte_length line))) [
      | inl e ↦ cc (rw e at h)
      | inr e ↦ elim (Bool-cases (test line)) [
        | inl t ↦ (line, t)
        | inr f ↦ some_scanned-Found test rest (rw (e, f) at h)
      ]
    ]

some_masked-Found :
    (test : String → Bool) (names values : List String)
    → some_masked test names values ≡ true
    → Found test
unfolding some_masked
some_masked-Found test [] values h = cc h
some_masked-Found test (name ∷ names) [] h = cc h
some_masked-Found test (name ∷ names) (value ∷ values) h = elim (Bool-cases (test value)) [
  | inl t ↦ (value, t)
  | inr f ↦ some_masked-Found test names values (ground (arith, h, f))
]

pairs_panic-Found :
    (selecting test : String → Bool) (x y : String) (rest : List String)
    → pairs_panic selecting test x y rest ≡ true
    → Found test
unfolding pairs_panic
pairs_panic-Found selecting test x y [] h = (y, ground arith)
pairs_panic-Found selecting test x y (z ∷ []) h = elim (Bool-cases (selecting x)) [
  | inl e ↦ (y, rw e at h)
  | inr e ↦ pairs_panic-Found selecting test y z [] (rw e at h)
]
pairs_panic-Found selecting test x y (z ∷ w ∷ rest) h = elim (Bool-cases (selecting x)) [
  | inl e ↦ elim (Bool-cases (test y)) [
    | inl t ↦ (y, t)
    | inr f ↦ pairs_panic-Found selecting test z w rest (rw (e, f) at h)
  ]
  | inr e ↦ pairs_panic-Found selecting test y z (w ∷ rest) (rw e at h)
]

mask_panics-Panicky :
    (tokenizer : Tokenizer) (r : LiteralRedactor)
    → mask_panics tokenizer r ≡ true
    → Panicky tokenizer
mask_panics-Panicky none r h = cc h
mask_panics-Panicky (some tokens) r h = (r.match, r.label.redact_name, r.label.file_path, h)

rewriting_panics-Panicky :
    (tokenizer : Tokenizer) (re : Regex) (label : Label) (line : String)
    → rewriting_panics tokenizer re label line ≡ true
    → Panicky tokenizer
unfolding rewriting_panics replacement_panics
rewriting_panics-Panicky none re label line h = cc h
rewriting_panics-Panicky (some tokens) re label line h =
    elim (Option-cases (re.find_submatch line)) [
      | inl e ↦ cc (rw (replacement_panics, e) at h)
      | inr (values, e) ↦
          let (value, p) =
            some_masked-Found (λ v. tokens.panics v label.redact_name label.file_path)
              (rest_of re.subexp_names) (rest_of values) (rw (replacement_panics, e) at h) in
          (value, label.redact_name, label.file_path, p)
    ]

pub literal_panics-Panicky :
    (tokenizer : Tokenizer) (r : LiteralRedactor) (input : Stream)
    → literal_panics tokenizer r input ≡ true
    → Panicky tokenizer
unfolding literal_panics
literal_panics-Panicky tokenizer r input h =
    let (_, p) = some_scanned-Found (λ line. mask_panics tokenizer r) input.lines h in
    mask_panics-Panicky tokenizer r p

pub single_line_panics-Panicky :
    (tokenizer : Tokenizer) (lower : String → String) (r : SingleLineRedactor) (input : Stream)
    → single_line_panics tokenizer lower r input ≡ true
    → Panicky tokenizer
unfolding single_line_panics
single_line_panics-Panicky tokenizer lower r input h =
    let (line, p) = some_scanned-Found _ input.lines h in
    rewriting_panics-Panicky tokenizer r.re r.label line (ground (arith, p))

pub multi_line_panics-Panicky :
    (tokenizer : Tokenizer) (lower : String → String) (r : MultiLineRedactor) (input : Stream)
    → multi_line_panics tokenizer lower r input ≡ true
    → Panicky tokenizer
unfolding multi_line_panics
multi_line_panics-Panicky tokenizer lower r input h = go input.lines h
  where
    go :
        (lines : List String)
        → multi_line_panics tokenizer lower r (record input { lines = lines }) ≡ true
        → Panicky tokenizer
    go [] h = cc h
    go (x ∷ []) h = cc h
    go (x ∷ y ∷ rest) h =
        let (line, p) =
          pairs_panic-Found (λ l. selects lower r l)
            (λ l. rewriting_panics tokenizer r.re2 r.label l) x y rest h in
        rewriting_panics-Panicky tokenizer r.re2 r.label line p

pub unless_panics-Ends :
    (tokenizer : Tokenizer) (b : Bool) (r : Redacted)
    → (b ≡ true → Panicky tokenizer)
    → Ends tokenizer (unless_panics b r)
unless_panics-Ends tokenizer true r h = inr (refl, h refl)
unless_panics-Ends tokenizer false r h = inl (r, refl)
