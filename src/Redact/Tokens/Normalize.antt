-- ===== src/Redact/Tokens/Normalize.antt =====
-- `normalizeSecret`: the form of a secret under which its token is stored.
pub mod Quotes
use Prim.Native.String.{◌++◌ as ◌⧺◌, len}
use troubleshoot.Prelude.{
  ℕ, ◌+◌, code, String, ◌≡◌, refl, Bool, true, false, not, ◌&&◌, ◌||◌, Option, none, some, List, [],
  ◌∷◌, ltb, leb, eqb, if◌then◌else◌, ◌==◌,
}
use troubleshoot.Go.Result.{Result, ok, panic, ◌>>=◌}
use troubleshoot.Go.Text.{is_empty, is_some, trim_space, after_prefix}
use troubleshoot.Go.Ascii.{to_lower, before_suffix, is_letter, every_char}
use troubleshoot.Go.Maps.{store}
use troubleshoot.Redact.Tokens.{State, CacheStats}

-- steps 1 and 2
unfoldable pub lower_short : String → String
lower_short value =
    if ltb (len value) 8 && not (is_empty value) && every_char is_letter value
    then to_lower value
    else value

abbrev pub known_prefixes : List String
known_prefixes = "Bearer " ∷ "Basic " ∷ "Token " ∷ "API_KEY=" ∷ "PASSWORD=" ∷ "SECRET=" ∷ []

-- step 3: what follows the first prefix of the list that the value has
unfoldable pub drop_prefix : List String → String → String
drop_prefix [] value = value
drop_prefix (prefix ∷ prefixes) value =
    let rest = drop_prefix prefixes value in
    elim (after_prefix prefix value) [ some tail ↦ tail | none ↦ rest ]

-- the value begins and ends with the quote
unfoldable pub enclosed : String → String → Bool
enclosed quote value = is_some (after_prefix quote value) && is_some (before_suffix quote value)

abbrev pub rest_of_some : String → Option String → String
rest_of_some s none = s
rest_of_some s (some t) = t

-- step 4: `value[1 : len(value)-1]` for a value in quotes
unfoldable pub strip_quotes : String → Result String
unfolding enclosed
strip_quotes String.[] = ok ""
strip_quotes (String.◌∷◌ c s) =
    if enclosed "\"" (String.◌∷◌ c s)
    then if is_empty s
      then panic "slice bounds out of range"
      else ok (rest_of_some s (before_suffix "\"" s))
    else if enclosed "'" (String.◌∷◌ c s)
    then if is_empty s
      then panic "slice bounds out of range"
      else ok (rest_of_some s (before_suffix "'" s))
    else ok (String.◌∷◌ c s)

-- `\s` of package regexp
unfoldable pub is_blank : ℕ → Bool
is_blank c = leb 9 c && leb c 10 || leb 12 c && leb c 13 || eqb c 0x20

drop_blanks : String → String
unfolding is_blank
drop_blanks String.[] = ""
drop_blanks (String.◌∷◌ c s) = if is_blank (code c) then drop_blanks s else String.◌∷◌ c s

begins_with : ℕ → String → Bool
begins_with x String.[] = false
begins_with x (String.◌∷◌ c s) = eqb (code c) x

-- step 5: every `\s*x\s*` becomes the character x
unfoldable pub tighten : ℕ → String → String
unfolding drop_blanks begins_with is_blank
tighten x String.[] = ""
tighten x (String.◌∷◌ c s) =
    let rest = tighten x s in
    if is_blank (code c) && begins_with x rest
    then rest
    else if eqb (code c) x
    then String.◌∷◌ c (drop_blanks rest)
    else String.◌∷◌ c rest

-- the normal form of a value
unfoldable pub normal_form : String → Result String
unfolding lower_short drop_prefix strip_quotes tighten
normal_form value = do
  v ← strip_quotes (drop_prefix known_prefixes (lower_short (trim_space value)))
  ok (tighten b'@' (tighten b':' v))

-- the statistics of a value that is changed
unfoldable pub count_normalized : String → String → State → State
unfolding store
count_normalized value normalized t = if normalized == value then t else record t {
  cache_stats = record t.cache_stats { total = t.cache_stats.total + 1 };
  normalized_secrets = store normalized value t.normalized_secrets;
}

unfoldable pub normalize_secret : String → State → Result (String × State)
unfolding normal_form count_normalized
normalize_secret value t = do
  normalized ← normal_form value
  ok (normalized, count_normalized value normalized t)

bearer : normal_form " Bearer 'user : pw @ host' " ≡ ok "user:pw@host"
unfolding normal_form trim_space lower_short drop_prefix strip_quotes tighten after_prefix
    before_suffix every_char is_letter to_lower enclosed
bearer = refl

short_name : normal_form "Admin" ≡ ok "admin"
unfolding normal_form after_prefix trim_space every_char is_letter to_lower
short_name = refl
