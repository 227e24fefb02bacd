-- ===== src/Go/Ascii.antt =====
-- strings.ToLower and ToUpper, for ASCII texts, and the functions of package strings on suffixes.
use troubleshoot.Prelude.{
  ℕ, zero, suc, ◌-◌, Char, code, String, ◌≡◌, refl, Bool, true, ◌&&◌, ◌||◌, Option, none, some, leb,
  if◌then◌else◌, ◌==◌,
}

-- the character at a place, or the last argument
unfoldable pub nth : ℕ → String → Char → Char
nth n String.[] c = c
nth zero (String.◌∷◌ d s) c = d
nth (suc n) (String.◌∷◌ d s) c = nth n s c

lower : Char → Char
unfolding nth
lower c =
    if leb b'A' (code c) && leb (code c) b'Z'
    then nth (code c - b'A') "abcdefghijklmnopqrstuvwxyz" c
    else c

upper : Char → Char
unfolding nth
upper c =
    if leb b'a' (code c) && leb (code c) b'z'
    then nth (code c - b'a') "ABCDEFGHIJKLMNOPQRSTUVWXYZ" c
    else c

unfoldable pub to_lower : String → String
unfolding lower
to_lower String.[] = ""
to_lower (String.◌∷◌ c s) = String.◌∷◌ (lower c) (to_lower s)

unfoldable pub to_upper : String → String
unfolding upper
to_upper String.[] = ""
to_upper (String.◌∷◌ c s) = String.◌∷◌ (upper c) (to_upper s)

-- what stands before a suffix
unfoldable pub before_suffix : String → String → Option String
before_suffix suffix String.[] = if suffix == "" then some "" else none
before_suffix suffix (String.◌∷◌ c s) =
    let rest = before_suffix suffix s in
    if String.◌∷◌ c s == suffix
    then some ""
    else elim rest [ none ↦ none | some t ↦ some (String.◌∷◌ c t) ]

-- the test of a letter of the ASCII alphabet
unfoldable pub is_letter : ℕ → Bool
is_letter c = leb b'A' c && leb c b'Z' || leb b'a' c && leb c b'z'

-- every character passes the test
unfoldable pub every_char : (ℕ → Bool) → String → Bool
every_char p String.[] = true
every_char p (String.◌∷◌ c s) = p (code c) && every_char p s

-- the longest beginning of which every character passes the test, and the rest
unfoldable pub span : (ℕ → Bool) → String → String × String
span p String.[] = ("", "")
span p (String.◌∷◌ c s) =
    let (t, rest) = span p s in if p (code c) then (String.◌∷◌ c t, rest) else ("", String.◌∷◌ c s)

-- the first characters of a text
unfoldable pub take_chars : ℕ → String → String
take_chars zero s = ""
take_chars (suc n) String.[] = ""
take_chars (suc n) (String.◌∷◌ c s) = String.◌∷◌ c (take_chars n s)

lowered : to_lower "Ab-Z9" ≡ "ab-z9"
unfolding to_lower
lowered = refl

raised : to_upper "Ab-z9" ≡ "AB-Z9"
unfolding to_upper
raised = refl

before_dots : before_suffix "..." "ab...." ≡ some "ab."
unfolding before_suffix
before_dots = refl
