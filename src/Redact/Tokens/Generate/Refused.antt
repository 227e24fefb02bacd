-- ===== src/Redact/Tokens/Generate/Refused.antt =====
-- The tokens with a counter, and `ValidateToken`.
use Prim.Native.String.{◌++◌ as ◌⧺◌}
use Prim.Native.String.append
use troubleshoot.Prelude.{
  ℕ, Char, code, String, eqb, ◌≡◌, refl, Bool, true, false, not, ◌&&◌, none, some, ◌==◌, eq_iff,
  if◌then◌else◌, Bool-cases, Option-cases, inl, inr, pos,
}
use troubleshoot.Go.Text.{is_empty, is_empty-append, after_prefix}
use troubleshoot.Go.Strconv.{is_digit, itoa, itoa_digits}
use troubleshoot.Go.Ascii.{every_char, span}
use troubleshoot.Redact.Tokens.Generate.{
  numbered, is_upper, is_hex, validate_token, valid_hash, valid_end,
}

ends_digit : String → Bool
ends_digit String.[] = false
ends_digit (String.◌∷◌ c s) = if is_empty s then is_digit (code c) else ends_digit s

-- a text that ends with something else than a digit
abbrev Undigited : String → Type 0
Undigited s = (is_empty s ≡ false) × (ends_digit s ≡ false)

Undigited-cons : (c : Char) (s : String) → Undigited s → Undigited (String.◌∷◌ c s)
unfolding ends_digit
Undigited-cons c s h = (refl, rw h.0 h.1)

after_prefix-Undigited : (p s t : String) → after_prefix p s ≡ some t → Undigited t → Undigited s
unfolding after_prefix
after_prefix-Undigited String.[] s t q h = let same : s ≡ t = cc q in rw same h
after_prefix-Undigited (String.◌∷◌ c p) String.[] t q h = cc q
after_prefix-Undigited (String.◌∷◌ c p) (String.◌∷◌ d s) t q h =
    elim (Bool-cases (eqb (code c) (code d))) [
      | inl e ↦ Undigited-cons d s (after_prefix-Undigited p s t (rw e at q) h)
      | inr e ↦ cc (rw e at q)
    ]

span-Undigited : (p : ℕ → Bool) (s : String) → Undigited (span p s).1 → Undigited s
unfolding span
span-Undigited p String.[] h = h
span-Undigited p (String.◌∷◌ c s) h = elim (Bool-cases (p (code c))) [
  | inl e ↦ Undigited-cons c s (span-Undigited p s (rw e at h))
  | inr e ↦ rw e at h
]

stars : Undigited "***"
unfolding ends_digit is_digit
stars = (refl, refl)

and-inv : (a b : Bool) → (a && b) ≡ true → (a ≡ true) × (b ≡ true)
and-inv true b h = (refl, h)
and-inv false b h = cc h

valid_end-Undigited : (s : String) → valid_end s ≡ true → Undigited s
unfolding valid_end
valid_end-Undigited s h = elim (Bool-cases (s == "***")) [
  | inl e ↦ rw ((eq_iff s "***").0 e) stars
  | inr e ↦ elim (Option-cases (after_prefix "_" s)) [
    | inl f ↦ cc (rw (valid_end, e, f) at h)
    | inr (t, f) ↦
        let ok = and-inv _ ((span is_digit t).1 == "***") (rw (valid_end, e, f) at h) in
        after_prefix-Undigited "_" s t f
          (span-Undigited is_digit t (rw ((eq_iff (span is_digit t).1 "***").0 ok.1) stars))
  ]
]

valid_hash-Undigited : (s : String) → valid_hash s ≡ true → Undigited s
unfolding valid_hash
valid_hash-Undigited s h =
    let ok = and-inv (not (is_empty (span is_hex s).0)) (valid_end (span is_hex s).1) h in
    span-Undigited is_hex s (valid_end-Undigited (span is_hex s).1 ok.1)

validate_token-Undigited : (s : String) → validate_token s ≡ true → Undigited s
unfolding validate_token
validate_token-Undigited s h = elim (Option-cases (after_prefix "***TOKEN_" s)) [
  | inl e ↦ cc (rw (validate_token, e) at h)
  | inr (t, e) ↦
      let ok = and-inv (not (is_empty (span is_upper t).0)) _ (rw (validate_token, e) at h) in
      after_prefix-Undigited "***TOKEN_" s t e
        (span-Undigited is_upper t (rest (span is_upper t).1 ok.1))
]
  where
    rest :
        (r : String)
        → elim (after_prefix "_" r) [ none ↦ false | some t ↦ valid_hash t ] ≡ true
        → Undigited r
    rest r q = elim (Option-cases (after_prefix "_" r)) [
      | inl f ↦ cc (rw f at q)
      | inr (t, f) ↦ after_prefix-Undigited "_" r t f (valid_hash-Undigited t (rw f at q))
    ]

ends_digit-append : (s t : String) → is_empty t ≡ false → ends_digit (s ⧺ t) ≡ ends_digit t
unfolding ends_digit
ends_digit-append String.[] t e = simp append.nil
ends_digit-append (String.◌∷◌ c s) t e =
    simp append.cons (rw (is_empty-append s t e) (ends_digit-append s t e))

ends_digit-digits :
    (s : String) → every_char is_digit s ≡ true → is_empty s ≡ false → ends_digit s ≡ true
unfolding ends_digit every_char
ends_digit-digits String.[] d e = cc e
ends_digit-digits (String.◌∷◌ c s) d e =
    let ok = and-inv (is_digit (code c)) (every_char is_digit s) d in
    elim (Bool-cases (is_empty s)) [ inl f ↦ rw f ok.0 | inr f ↦ rw f (ends_digit-digits s ok.1 f) ]

-- A token with a counter at its end, as a collision gives it, is not a valid token, whatever the token that it
-- is made from and the counter.
pub validate_token-numbered : (base : String) (n : ℕ) → validate_token (numbered base n) ≡ false
unfolding numbered
validate_token-numbered base n = elim (Bool-cases (validate_token (numbered base n))) [
  | inr e ↦ e
  | inl e ↦
      let (digits, full) = itoa_digits n in
      let tail = is_empty-append "_" (itoa (pos n)) full in
      absurd (
        cc (
          (validate_token-Undigited (numbered base n) e).1,
          ends_digit-append base ("_" ⧺ itoa (pos n)) tail,
          ends_digit-append "_" (itoa (pos n)) full,
          ends_digit-digits (itoa (pos n)) digits full,
        ))
]
