-- ===== src/Redact/Tokens.antt =====
-- pkg/redact/tokenizer.go: the data of the tokenizer and its start. Each operation takes the state
-- and gives the new one.
pub mod Classify
pub mod Normalize
pub mod Generate
pub mod Track
pub mod Tokenize
pub mod Run
pub mod Correlate
pub mod Report
pub mod Files
mod Tests
use troubleshoot.Prelude.{
  ℕ, String, Bool, Option, none, some, List, [], ◌∷◌, ◌==◌, if◌then◌else◌, eqb, ltb, zero, suc,
  code, pos,
}
use Prim.Native.String.{◌++◌ as ◌⧺◌, len}
use troubleshoot.Go.Result.{Result, ok, panic}
use troubleshoot.Go.Strconv.{itoa}
use troubleshoot.Go.Hex.{hex_encode}
use troubleshoot.Go.Maps.{Map}

-- What the tokenizer takes from other packages: whether a pattern of package regexp matches a text,
-- and the hexadecimal digits of the HMAC-SHA256 of a message under a key.
pub record Library : Type 0 where
  pub match_string : String → String → Bool
  pub hmac : String → String → String

-- A `TokenFormat` with one %s for the prefix and one for the hash, as its comment asks: the text
-- before, between and after them.
pub record TokenFormat : Type 0 where
  pub before : String
  pub between : String
  pub after : String

-- `token_format` is `none` for the empty text. The hash length is not negative. The salt has a character
-- for each of its bytes.
pub record TokenizerConfig : Type 0 where
  pub enabled : Bool
  pub salt : String
  pub default_prefix : String
  pub token_format : Option TokenFormat
  pub hash_length : ℕ

pub record FileStats : Type 0 where
  pub file_path : String
  pub secrets_found : ℕ
  pub tokens_used : ℕ
  pub secret_types : Map ℕ
  pub processed_at : ℕ

pub record DuplicateGroup : Type 0 where
  pub secret_hash : String
  pub token : String
  pub secret_type : String
  pub locations : List String
  pub count : ℕ
  pub first_seen : ℕ
  pub last_seen : ℕ

-- `confidence` counts tenths.
pub record CorrelationGroup : Type 0 where
  pub pattern : String
  pub description : String
  pub tokens : List String
  pub files : List String
  pub confidence : ℕ
  pub detected_at : ℕ

pub record CacheStats : Type 0 where
  pub hits : ℕ
  pub misses : ℕ
  pub total : ℕ

-- the struct `Tokenizer`
pub record State : Type 0 where
  pub config : TokenizerConfig
  pub token_map : Map String
  pub reverse_map : Map String
  pub type_patterns : Map String
  pub bundle_id : String
  pub secret_refs : Map (List String)
  pub duplicate_groups : Map DuplicateGroup
  pub correlations : List CorrelationGroup
  pub file_stats : Map FileStats
  pub cache_stats : CacheStats
  pub normalized_secrets : Map String
  pub secret_hashes : Map String

abbrev pub default_format : TokenFormat
default_format = record { before = "***TOKEN_"; between = "_"; after = "***" }

abbrev pub no_lookups : CacheStats
no_lookups = record { hits = 0; misses = 0; total = 0 }

-- the patterns of `initTypePatterns`, all of which compile
abbrev pub init_type_patterns : Map String
init_type_patterns =
    ("PASSWORD", "(?i)password|passwd|pwd")
    ∷ ("APIKEY", "(?i)api.?key|apikey|access.?key")
    ∷ ("DATABASE", "(?i)database|db.?(url|uri|host|pass|connection)")
    ∷ ("EMAIL", "(?i)[a-zA-Z0-9._%+-]+@[a-zA-Z0-9.-]+\\.[a-zA-Z]{2,}")
    ∷ ("IP", "(?i)\\b\\d{1,3}\\.\\d{1,3}\\.\\d{1,3}\\.\\d{1,3}\\b")
    ∷ ("TOKEN", "(?i)token|bearer|jwt|oauth")
    ∷ ("SECRET", "(?i)secret|private.?key")
    ∷ ("CREDENTIAL", "(?i)credential|cred|auth")
    ∷ ("KEY", "(?i)key|cert|certificate")
    ∷ []

abbrev or_default : Option TokenFormat → TokenFormat
or_default none = default_format
or_default (some f) = f

-- The format of a config that `NewTokenizer` has completed.
abbrev pub format_of : TokenizerConfig → TokenFormat
format_of c = or_default c.token_format

-- the salt of the config, or the random one
abbrev salt_of : TokenizerConfig → String → String
salt_of config random_salt = if config.salt == "" then random_salt else config.salt

-- the tokenizer that `NewTokenizer` builds, with the random salt and the bundle identifier
unfoldable pub fresh_tokenizer : TokenizerConfig → String → String → State
fresh_tokenizer config random_salt bundle_id = record {
  config = record {
    enabled = config.enabled;
    token_format = some (format_of config);
    hash_length = if eqb config.hash_length 0 then 6 else config.hash_length;
    default_prefix = if config.default_prefix == "" then "GENERIC" else config.default_prefix;
    salt = salt_of config random_salt;
  };
  token_map = [];
  reverse_map = [];
  type_patterns = init_type_patterns;
  bundle_id = bundle_id;
  secret_refs = [];
  duplicate_groups = [];
  correlations = [];
  file_stats = [];
  cache_stats = no_lookups;
  normalized_secrets = [];
  secret_hashes = [];
}

-- `Reset`
unfoldable pub reset : State → State
reset t = record t {
  token_map = [];
  reverse_map = [];
  secret_refs = [];
  duplicate_groups = [];
  correlations = [];
  file_stats = [];
  cache_stats = no_lookups;
  normalized_secrets = [];
  secret_hashes = [];
}

-- `EnableTokenization` and `DisableTokenization`, on the global tokenizer
unfoldable pub set_enabled : Bool → State → State
set_enabled b t = record t { config = record t.config { enabled = b } }

-- the first bytes of the salt
prefix_codes : ℕ → String → List ℕ
prefix_codes zero salt = []
prefix_codes (suc n) String.[] = []
prefix_codes (suc n) (String.◌∷◌ c salt) = code c ∷ prefix_codes n salt

-- `NewTokenizer` at a time in nanoseconds. A salt of fewer than 8 bytes makes the slice `Salt[:8]` panic.
unfoldable pub new_tokenizer : TokenizerConfig → String → ℕ → Result State
unfolding fresh_tokenizer hex_encode prefix_codes
new_tokenizer config random_salt now =
    let salt = salt_of config random_salt in
    if ltb (len salt) 8
    then panic "slice bounds out of range"
    else ok (
        fresh_tokenizer config random_salt
          ("bundle_" ⧺ itoa (pos now) ⧺ "_" ⧺ hex_encode (prefix_codes 8 salt)))
