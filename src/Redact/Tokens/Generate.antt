-- ===== src/Redact/Tokens/Generate.antt =====
-- `generateToken`, `resolveCollision`, `generateSecretHash` and `ValidateToken`.
pub mod Refused
use Prim.Native.String.{◌++◌ as ◌⧺◌, len}
use troubleshoot.Prelude.{
  ℕ, zero, suc, ◌+◌, ◌%◌, ◌-◌, String, ◌≡◌, refl, Bool, true, false, not, ◌&&◌, ◌||◌, Option, none,
  some, ltb, leb, if◌then◌else◌, ◌==◌, pos,
}
use troubleshoot.Go.Strconv.{itoa, is_digit}
use troubleshoot.Go.Text.{after_prefix, is_empty}
use troubleshoot.Go.Ascii.{to_upper, before_suffix, take_chars, span, every_char}
use troubleshoot.Go.Maps.{Map, lookup}
use troubleshoot.Redact.Tokens.{Library, State, TokenFormat, format_of}
use troubleshoot.Redact.Tokens.Classify.{classify_secret}

-- no other value has the token
unfoldable pub free_for : Map String → String → String → Bool
unfolding lookup
free_for taken value token = elim (lookup token taken) [
  | none ↦ true
  | some existing ↦ existing == value
]

-- the token with a counter at the end
unfoldable pub numbered : String → ℕ → String
numbered base n = base ⧺ "_" ⧺ itoa (pos n)

-- the loop over the counters: the number of rounds that are left, and the counter
unfoldable pub try_counters : Map String → String → String → ℕ → ℕ → Option String
unfolding free_for numbered
try_counters taken base value zero counter = none
try_counters taken base value (suc rounds) counter =
    let later = try_counters taken base value rounds (counter + 1) in
    if free_for taken value (numbered base counter) then some (numbered base counter) else later

-- the token with the end of the time in it
unfoldable pub stamped : String → ℕ → String
stamped token now = elim (before_suffix "***" token) [
  | some base ↦ base ⧺ "_" ⧺ itoa (pos (now % 10000)) ⧺ "***"
  | none ↦ token ⧺ "_" ⧺ itoa (pos (now % 10000))
]

unfoldable pub resolve_collision : Map String → ℕ → String → String → String
unfolding free_for try_counters stamped
resolve_collision taken now base value =
    if free_for taken value base
    then base
    else elim (try_counters taken base value 100 1) [ some token ↦ token | none ↦ stamped base now ]

-- fmt.Sprintf with a token format
abbrev pub written : TokenFormat → String → String → String
written f prefix hash = f.before ⧺ prefix ⧺ f.between ⧺ hash ⧺ f.after

-- `if len(hashStr) > t.config.HashLength { hashStr = hashStr[:t.config.HashLength] }`
abbrev pub cut : ℕ → String → String
cut n hash = if ltb n (len hash) then take_chars n hash else hash

module _ (lib : Library) where
  -- the token of a value and a context before collisions are looked at
  unfoldable pub base_token : State → String → String → String
  unfolding classify_secret
  base_token t value context =
      written (format_of t.config) (classify_secret lib t context value)
        (to_upper (cut t.config.hash_length (lib.hmac t.config.salt (value ⧺ context))))

  unfoldable pub generate_token : ℕ → State → String → String → String
  unfolding base_token resolve_collision
  generate_token now t value context =
      resolve_collision t.reverse_map now (base_token t value context) value

  -- the first 16 bytes of the hash
  unfoldable pub generate_secret_hash : String → String
  generate_secret_hash value = take_chars 32 (lib.hmac "secret-hash-salt" value)

abbrev pub is_upper : ℕ → Bool
is_upper c = leb b'A' c && leb c b'Z'

abbrev pub is_hex : ℕ → Bool
is_hex c = leb b'A' c && leb c b'F' || is_digit c

-- `(\*\*\*|_\d+\*\*\*)$`
unfoldable pub valid_end : String → Bool
unfolding span
valid_end s = s == "***" || elim (after_prefix "_" s) [
  | none ↦ false
  | some t ↦ let (digits, rest) = span is_digit t in not (is_empty digits) && rest == "***"
]

-- `[A-F0-9]+` and the end
unfoldable pub valid_hash : String → Bool
unfolding valid_end
valid_hash s = let (hash, rest) = span is_hex s in not (is_empty hash) && valid_end rest

-- `ValidateToken`: `^\*\*\*TOKEN_[A-Z]+_[A-F0-9]+(\*\*\*|_\d+\*\*\*)$`. Each class of characters leaves
-- out the one that follows it, so there is one way to match.
unfoldable pub validate_token : String → Bool
unfolding valid_hash
validate_token token = elim (after_prefix "***TOKEN_" token) [
  | none ↦ false
  | some s ↦
      let (prefix, rest) = span is_upper s in
      not (is_empty prefix) && elim (after_prefix "_" rest) [ none ↦ false | some t ↦ valid_hash t ]
]

valid_with_time : validate_token "***TOKEN_PASSWORD_A1B2C3_4711***" ≡ true
unfolding validate_token after_prefix span valid_hash is_digit valid_end
valid_with_time = refl
