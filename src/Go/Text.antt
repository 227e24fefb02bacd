-- ===== src/Go/Text.antt =====
-- The functions of package strings that the source calls, over texts as lists of characters.
-- Every Go string of the model is valid UTF-8.
use Prim.Native.String.{◌++◌ as ◌⧺◌}
use Prim.Native.String.append
use troubleshoot.Prelude.{
  ℕ, ◌+◌, Char, code, String, ◌≡◌, refl, Bool, true, false, not, ◌&&◌, ◌||◌, Option, none, some,
  List, [], ◌∷◌, arith, leb, ltb, eqb, if◌then◌else◌, select, Bool-cases, inl, inr, ap,
}

-- unicode.IsSpace
unfoldable pub is_space : ℕ → Bool
is_space c =
    leb 9 c && leb c 13
    || eqb c 0x20
    || eqb c 0x85
    || eqb c 0xA0
    || eqb c 0x1680
    || leb 0x2000 c && leb c 0x200A
    || eqb c 0x2028
    || eqb c 0x2029
    || eqb c 0x202F
    || eqb c 0x205F
    || eqb c 0x3000

abbrev pub is_empty : String → Bool
is_empty String.[] = true
is_empty (String.◌∷◌ c s) = false

abbrev onto_head : Char → List String → List String
onto_head c [] = String.◌∷◌ c String.[] ∷ []
onto_head c (w ∷ ws) = String.◌∷◌ c w ∷ ws

-- how many bytes UTF-8 takes for a character
abbrev width : ℕ → ℕ
width c = if ltb c 0x80 then 1 else if ltb c 0x800 then 2 else if ltb c 0x10000 then 3 else 4

-- `len` of a text
unfoldable pub byte_length : String → ℕ
byte_length String.[] = 0
byte_length (String.◌∷◌ c s) = width (code c) + byte_length s

-- the parts between the characters that pass the test
pub split_by : (ℕ → Bool) → String → List String
split_by p String.[] = "" ∷ []
split_by p (String.◌∷◌ c s) =
    let rest = split_by p s in if p (code c) then "" ∷ rest else onto_head c rest

-- strings.Split with a separator of one character
unfoldable pub split : ℕ → String → List String
unfolding split_by
split sep s = split_by (eqb sep) s

-- strings.Fields
unfoldable pub fields : String → List String
unfolding split_by is_space
fields s = select (λ w. not (is_empty w)) (split_by is_space s)

trim_left : String → String
trim_left String.[] = ""
trim_left (String.◌∷◌ c s) = if is_space (code c) then trim_left s else String.◌∷◌ c s

pub trim_right : String → String
trim_right String.[] = ""
trim_right (String.◌∷◌ c s) =
    let rest = trim_right s in if is_space (code c) && is_empty rest then "" else String.◌∷◌ c rest

-- strings.TrimSpace
unfoldable pub trim_space : String → String
unfolding trim_left trim_right is_space
trim_space s = trim_right (trim_left s)

-- what follows a prefix
unfoldable pub after_prefix : String → String → Option String
after_prefix String.[] s = some s
after_prefix (String.◌∷◌ p ps) String.[] = none
after_prefix (String.◌∷◌ p ps) (String.◌∷◌ c s) =
    if eqb (code p) (code c) then after_prefix ps s else none

abbrev pub is_some {ℓ} : {A : Type ℓ} → Option A → Bool
is_some none = false
is_some (some a) = true

-- strings.Contains
unfoldable pub contains : String → String → Bool
unfolding after_prefix
contains String.[] sub = is_empty sub
contains (String.◌∷◌ c s) sub = is_some (after_prefix sub (String.◌∷◌ c s)) || contains s sub

-- fmt's %q for texts of printable characters: only the quote and the backslash are escaped
escape : String → String
escape String.[] = ""
escape (String.◌∷◌ c s) =
    (if eqb (code c) b'"' || eqb (code c) 92 then "\\" else "") ⧺ String.◌∷◌ c String.[] ⧺ escape s

unfoldable pub quoted : String → String
unfolding escape
quoted s = "\"" ⧺ escape s ⧺ "\""

-- No character of the text passes the test.
abbrev pub Free : (ℕ → Bool) → String → Type 0
Free p String.[] = Unit
Free p (String.◌∷◌ c s) = (p (code c) ≡ false) × Free p s

-- A text with no separator is one part.
pub split_by-Free : (p : ℕ → Bool) (s : String) → Free p s → split_by p s ≡ s ∷ []
unfolding split_by
split_by-Free p String.[] h = refl
split_by-Free p (String.◌∷◌ c s) h = simp (h.0, split_by-Free p s h.1)

-- The first part ends at the first separator.
pub split_by-append :
    (p : ℕ → Bool) (s : String) (c : Char) (t : String)
    → Free p s
    → p (code c) ≡ true
    → split_by p (s ⧺ String.◌∷◌ c t) ≡ s ∷ split_by p t
unfolding split_by
split_by-append p String.[] c t h q = simp (append.nil, q)
split_by-append p (String.◌∷◌ d s) c t h q = simp (append.cons, h.0, split_by-append p s c t h.1 q)

pub is_empty-append : (s t : String) → is_empty t ≡ false → is_empty (s ⧺ t) ≡ false
is_empty-append String.[] t h = simp append.nil h
is_empty-append (String.◌∷◌ c s) t h = simp append.cons

trim_left-Free : (s t : String) → is_empty s ≡ false → Free is_space s → trim_left (s ⧺ t) ≡ s ⧺ t
unfolding trim_left
trim_left-Free String.[] t e h = cc
trim_left-Free (String.◌∷◌ c s) t e h = simp append.cons (rw h.0)

trim_right-Free : (s : String) → Free is_space s → trim_right s ≡ s
unfolding trim_right
trim_right-Free String.[] h = refl
trim_right-Free (String.◌∷◌ c s) h = rw (h.0, trim_right-Free s h.1)

trim_right-append :
    (s t : String) → is_empty t ≡ false → trim_right t ≡ t → trim_right (s ⧺ t) ≡ s ⧺ t
unfolding trim_right
trim_right-append String.[] t e h = simp append.nil h
trim_right-append (String.◌∷◌ c s) t e h =
    simp append.cons (rw (trim_right-append s t e h) (rw (is_empty-append s t e) (ground arith)))

-- A text that ends with a word.
pub record EndsWell (t : String) : Type 0 where
  pub not_empty : is_empty t ≡ false
  pub untrimmed : trim_right t ≡ t

pub EndsWell-word : (t : String) → is_empty t ≡ false → Free is_space t → EndsWell t
EndsWell-word t e f = record { not_empty = e; untrimmed = trim_right-Free t f }

pub EndsWell-append : (s t : String) → EndsWell t → EndsWell (s ⧺ t)
EndsWell-append s t h = record {
  not_empty = is_empty-append s t h.not_empty;
  untrimmed = trim_right-append s t h.not_empty h.untrimmed;
}

-- Nothing is trimmed from a text that begins and ends with a word.
pub trim_space-word :
    (s t : String) → is_empty s ≡ false → Free is_space s → EndsWell t → trim_space (s ⧺ t) ≡ s ⧺ t
unfolding trim_space
trim_space-word s t e f h =
    rw (trim_left-Free s t e f) (trim_right-append s t h.not_empty h.untrimmed)

Free-blank : (s : String) → Free is_space s → Free (eqb b' ') s
unfolding is_space
Free-blank String.[] h = tt
Free-blank (String.◌∷◌ c s) h = (ground arith, Free-blank s h.1)

-- A word before the first blank is the first part.
pub split-word : (s t : String) → Free is_space s → split b' ' (s ⧺ " " ⧺ t) ≡ s ∷ split b' ' t
unfolding split
split-word s t f =
    rw (append.cons " " "" t, append.nil t)
      (split_by-append (eqb b' ') s " " t (Free-blank s f) refl)

-- A word is one part.
pub split-last : (t : String) → Free is_space t → split b' ' t ≡ t ∷ []
unfolding split
split-last t f = split_by-Free (eqb b' ') t (Free-blank t f)

-- There is always a part.
pub split_by_cons :
    (p : ℕ → Bool) (s : String) → (w : String) × (ws : List String) × (split_by p s ≡ w ∷ ws)
unfolding split_by
split_by_cons p String.[] = ("", [], refl)
split_by_cons p (String.◌∷◌ c s) = elim (Bool-cases (p (code c))) [
  | inl e ↦ ("", split_by p s, rw e)
  | inr e ↦ let (w, ws, q) = split_by_cons p s in (String.◌∷◌ c w, ws, rw e (ap (onto_head c) q))
]

pub after_prefix-append : (p s : String) → after_prefix p (p ⧺ s) ≡ some s
unfolding after_prefix
after_prefix-append String.[] s = simp append.nil
after_prefix-append (String.◌∷◌ c p) s = simp append.cons (ground (arith, after_prefix-append p s))

lower_code : ℕ → ℕ
lower_code c = if leb b'A' c && leb c b'Z' then c + 32 else c

-- `strings.ToLower(s) == word`, for an ASCII text
unfoldable pub lower_is : String → String → Bool
unfolding lower_code
lower_is String.[] word = is_empty word
lower_is (String.◌∷◌ c s) String.[] = false
lower_is (String.◌∷◌ c s) (String.◌∷◌ w word) =
    eqb (lower_code (code c)) (code w) && lower_is s word

-- `strings.EqualFold`, for ASCII texts
unfoldable pub equal_fold : String → String → Bool
unfolding lower_code
equal_fold String.[] t = is_empty t
equal_fold (String.◌∷◌ c s) String.[] = false
equal_fold (String.◌∷◌ c s) (String.◌∷◌ d t) =
    eqb (lower_code (code c)) (lower_code (code d)) && equal_fold s t

pub append_assoc : (a b c : String) → (a ⧺ b) ⧺ c ≡ a ⧺ b ⧺ c
append_assoc String.[] b c = simp append.nil
append_assoc (String.◌∷◌ d a) b c = simp append.cons (rw (append_assoc a b c) refl)

contains-after :
    (d : Char) (s sub : String) → contains s sub ≡ true → contains (String.◌∷◌ d s) sub ≡ true
unfolding contains
contains-after d s sub h = rw h (or-true (is_some (after_prefix sub (String.◌∷◌ d s))))
  where
    or-true : (b : Bool) → (b || true) ≡ true
    or-true true = refl
    or-true false = refl

contains-prefix : (w t : String) → contains (w ⧺ t) w ≡ true
unfolding contains
contains-prefix String.[] t = simp append.nil (contains-nil t)
  where
    contains-nil : (t : String) → contains t "" ≡ true
    contains-nil String.[] = refl
    contains-nil (String.◌∷◌ c t) = refl
contains-prefix (String.◌∷◌ c w) t =
    let found : after_prefix (String.◌∷◌ c w) (String.◌∷◌ c (w ⧺ t)) ≡ some t =
      ground (arith, after_prefix-append w t) in
    simp append.cons (rw found refl)

-- A text contains each part that it is put together from.
pub contains-part : (a w t : String) → contains (a ⧺ w ⧺ t) w ≡ true
contains-part String.[] w t = simp append.nil (contains-prefix w t)
contains-part (String.◌∷◌ c a) w t =
    simp append.cons (contains-after c (a ⧺ w ⧺ t) w (contains-part a w t))

-- The part before a separator.
pub split_by-part :
    (p : ℕ → Bool) (s : String) (c : Char) (t : String)
    → Free p s
    → p (code c) ≡ true
    → split_by p (s ⧺ String.◌∷◌ c String.[] ⧺ t) ≡ s ∷ split_by p t
split_by-part p s c t h q =
    rw (append.cons c String.[] t, append.nil t) (split_by-append p s c t h q)

-- A word is left as it is.
pub trim_space-Free : (s : String) → Free is_space s → trim_space s ≡ s
unfolding trim_space trim_left
trim_space-Free String.[] h = unfold trim_right in refl
trim_space-Free (String.◌∷◌ c s) h = rw h.0 (trim_right-Free (String.◌∷◌ c s) h)
