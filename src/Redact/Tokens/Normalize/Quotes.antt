-- ===== src/Redact/Tokens/Normalize/Quotes.antt =====
-- Where `normalizeSecret` panics.
use troubleshoot.Prelude.{
  Char, String, ◌≡◌, refl, Bool, true, false, ◌||◌, arith, ◌==◌, eq_iff, Bool-cases, inl, inr,
  if◌then◌else◌,
}
use troubleshoot.Go.Result.{ok, panic}
use troubleshoot.Go.Text.{is_empty, after_prefix, trim_space}
use troubleshoot.Go.Ascii.{before_suffix}
use troubleshoot.Redact.Tokens.Normalize.{
  strip_quotes, enclosed, drop_prefix, known_prefixes, rest_of_some, lower_short, tighten,
  normal_form,
}

-- the value once blanks and a known prefix are taken away
abbrev pub bare : String → String
bare value = drop_prefix known_prefixes (lower_short (trim_space value))

abbrev pub is_quote : String → Bool
is_quote s = s == "\"" || s == "'"

-- what is one quote long begins and ends with the quote only if it is the quote
enclosed-one :
    (q : String) (c : Char)
    → (q == "") ≡ false
    → enclosed q (String.◌∷◌ c String.[]) ≡ true
    → (String.◌∷◌ c String.[] == q) ≡ true
unfolding enclosed before_suffix
enclosed-one q c full h = ground arith

strip_quotes-quote :
    (s : String) → is_quote s ≡ true → strip_quotes s ≡ panic "slice bounds out of range"
unfolding strip_quotes enclosed after_prefix before_suffix
strip_quotes-quote s h = elim (Bool-cases (s == "\"")) [
  | inl e ↦ rw ((eq_iff s "\"").0 e) refl
  | inr e ↦ rw ((eq_iff s "'").0 (rw e at h)) refl
]

-- nothing panics where no text that is enclosed is one character long
returned :
    (a b one : Bool) (text x y z : String)
    → (one ≡ true → (a ≡ false) × (b ≡ false))
    → (t : String) × ((if a
          then (if one then panic text else ok x)
          else (if b then (if one then panic text else ok y) else ok z))
        ≡ ok t)
returned true b true text x y z h = cc (h refl).0
returned true b false text x y z h = (x, refl)
returned false true true text x y z h = cc (h refl).1
returned false true false text x y z h = (y, refl)
returned false false one text x y z h = (z, refl)

not_enclosed :
    (q : String) (c : Char)
    → (q == "") ≡ false
    → (String.◌∷◌ c String.[] == q) ≡ false
    → enclosed q (String.◌∷◌ c String.[]) ≡ false
not_enclosed q c full h = elim (Bool-cases (enclosed q (String.◌∷◌ c String.[]))) [
  | inl e ↦ cc (enclosed-one q c full e, h)
  | inr e ↦ e
]

stripped :
    (c : Char) (s : String)
    → (is_empty s ≡ true
        → (enclosed "\"" (String.◌∷◌ c s) ≡ false) × (enclosed "'" (String.◌∷◌ c s) ≡ false))
    → (t : String) × (strip_quotes (String.◌∷◌ c s) ≡ ok t)
unfolding strip_quotes
stripped c s h =
    let w = String.◌∷◌ c s in
    returned (enclosed "\"" w) (enclosed "'" w) (is_empty s) "slice bounds out of range"
      (rest_of_some s (before_suffix "\"" s)) (rest_of_some s (before_suffix "'" s)) w h

strip_quotes-other : (s : String) → is_quote s ≡ false → (t : String) × (strip_quotes s ≡ ok t)
strip_quotes-other String.[] h = ("", unfold strip_quotes in refl)
strip_quotes-other (String.◌∷◌ c String.[]) h =
    stripped c ""
      (λ _. (not_enclosed "\"" c refl (ground arith), not_enclosed "'" c refl (ground arith)))
strip_quotes-other (String.◌∷◌ c (String.◌∷◌ d s)) h = stripped c (String.◌∷◌ d s) (λ e. cc e)

-- Normalization panics exactly if one quote character is left of the value once the blanks around it and a known
-- prefix are taken away; every other value has a normal form.
pub normal_form_panics :
    (value : String)
    → (is_quote (bare value) ≡ true → normal_form value ≡ panic "slice bounds out of range")
      × (is_quote (bare value) ≡ false → (n : String) × (normal_form value ≡ ok n))
unfolding normal_form
normal_form_panics value = (
  λ h. rw (strip_quotes-quote (bare value) h) refl,
  λ h. let (t, e) = strip_quotes-other (bare value) h in (tighten b'@' (tighten b':' t), rw e refl),
)
