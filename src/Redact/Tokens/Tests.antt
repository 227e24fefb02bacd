-- ===== src/Redact/Tokens/Tests.antt =====
-- Runs of the tokenizer on small inputs, and its theorems at those inputs.
use troubleshoot.Prelude.{
  ℕ, zero, suc, ap, ◌+◌, ◌<◌, String, ◌≡◌, ◌≢◌, refl, true, false, ◌&&◌, none, some, List, [], ◌∷◌,
  map, ◌==◌, All, arith, length,
}
use troubleshoot.Go.Result.{Result, ok, err, panic, map_result}
use troubleshoot.Go.Text.{after_prefix, trim_space}
use troubleshoot.Go.Ascii.{to_lower, to_upper, take_chars, every_char, is_letter}
use troubleshoot.Go.Strconv.{itoa}
use troubleshoot.Go.Hex.{hex_encode}
use troubleshoot.Go.Maps.{Map, lookup, store, lookup-store_self}
use troubleshoot.Redact.Tokens.{Library, TokenizerConfig, State, fresh_tokenizer, new_tokenizer}
use troubleshoot.Redact.Tokens.Normalize.{normal_form, drop_prefix, lower_short}
use troubleshoot.Redact.Tokens.Normalize.Quotes.{normal_form_panics}
use troubleshoot.Redact.Tokens.Generate.{validate_token, numbered}
use troubleshoot.Redact.Tokens.Generate.Refused.{validate_token-numbered}
use troubleshoot.Redact.Tokens.Correlate.{correlated, api_authentication}
use troubleshoot.Redact.Tokens.Correlate.Always.{correlated_always}
use troubleshoot.Redact.Tokens.Report.{RedactionMap, token_type, get_redaction_map}
use troubleshoot.Redact.Tokens.Report.Types.{token_type-written}
use troubleshoot.Redact.Tokens.Tokenize.{tokenize_value_with_path}
use troubleshoot.Redact.Tokens.Correlate.{analyze_correlations}
use troubleshoot.Redact.Tokens.Files.{
  Platform, new_cipher, generate_redaction_map_file, load_redaction_map_file,
}
use troubleshoot.Redact.Tokens.Files.RoundTrip.{
  Laws, load_redaction_map_file-generate_redaction_map_file,
}
use troubleshoot.Redact.Tokens.Run.{Call, serve, here, next, served}
use troubleshoot.Redact.Tokens.Run.Stable.{serve_same_token}
use troubleshoot.Redact.Tokens.Run.Distinct.{candidate, serve_distinct_token}
use troubleshoot.Redact.Tokens.Run.Tracked.{Tracked, reached-Tracked}
use troubleshoot.Redact.Tokens.Run.Counts.{serve_all, rewritten, lookups, serve_all-counts}

-- a library with one hash for all messages, so that all tokens of a kind collide
abbrev library : Library
library = record {
  match_string = λ pattern text. pattern == "(?i)password|passwd|pwd" && text == "password";
  hmac = λ key message. "a1b2c3d4e5";
}

abbrev config : TokenizerConfig
config = record {
  enabled = true;
  salt = "";
  default_prefix = "";
  token_format = none;
  hash_length = 0;
}

abbrev start : State
start = fresh_tokenizer config "salt" "bundle_1"

abbrev outcome : Result (String × State) → String × State
outcome (ok r) = r
outcome (err e) = ("", start)
outcome (panic s) = ("", start)

abbrev first_call : Call
first_call = record { now = 1; value = "hunter-2"; context = "password"; path = "a.log" }

abbrev second_call : Call
second_call = record { now = 2; value = "Bearer swordfish"; context = "password"; path = "b.log" }

abbrev third_call : Call
third_call = record { now = 3; value = " hunter-2 "; context = "env"; path = "b.log" }

abbrev first_state : State
first_state = (outcome (serve library first_call start)).1

first_token :
    map_result {B = String} (λ r. r.0) (serve library first_call start)
    ≡ ok "***TOKEN_PASSWORD_A1B2C3***"
unfolding tokenize_value_with_path fresh_tokenizer after_prefix trim_space to_lower to_upper
    take_chars itoa
first_token = refl

second_token :
    map_result {B = String} (λ r. r.0) (serve library second_call first_state)
    ≡ ok "***TOKEN_PASSWORD_A1B2C3***_1"
unfolding tokenize_value_with_path fresh_tokenizer after_prefix trim_space to_lower to_upper
    take_chars itoa
second_token = refl

first_served : serve library first_call start ≡ ok ("***TOKEN_PASSWORD_A1B2C3***", first_state)
unfolding tokenize_value_with_path fresh_tokenizer after_prefix trim_space to_lower to_upper
    take_chars itoa
first_served = refl

abbrev second_state : State
second_state = (outcome (serve library second_call first_state)).1

second_served :
    serve library second_call first_state ≡ ok ("***TOKEN_PASSWORD_A1B2C3***_1", second_state)
unfolding tokenize_value_with_path fresh_tokenizer after_prefix trim_space to_lower to_upper
    take_chars itoa
second_served = refl

serve_same_token_example :
    map_result {B = String} (λ r. r.0) (serve library third_call second_state)
    ≡ ok "***TOKEN_PASSWORD_A1B2C3***"
unfolding tokenize_value_with_path fresh_tokenizer after_prefix trim_space to_lower to_upper
    take_chars itoa
serve_same_token_example =
    serve_same_token library first_call third_call start first_state second_state "hunter-2"
      "***TOKEN_PASSWORD_A1B2C3***" refl refl refl refl refl refl first_served
      (next here (served second_call "***TOKEN_PASSWORD_A1B2C3***_1" second_served))

serve_distinct_token_example :
    lookup "hunter-2" first_state.token_map ≢ some "***TOKEN_PASSWORD_A1B2C3***_1"
unfolding tokenize_value_with_path fresh_tokenizer after_prefix trim_space to_lower to_upper
    take_chars itoa candidate
serve_distinct_token_example =
    serve_distinct_token library config "salt" "bundle_1" second_call first_state second_state
      "swordfish" "***TOKEN_PASSWORD_A1B2C3***_1" 1
      (next here (served first_call "***TOKEN_PASSWORD_A1B2C3***" first_served)) refl refl refl refl
      refl (omega arith) refl second_served "hunter-2"

reached-Tracked_example : Tracked second_state
reached-Tracked_example = reached-Tracked library config "salt" "bundle_1" second_state (
    next (next here (served first_call "***TOKEN_PASSWORD_A1B2C3***" first_served))
      (served second_call "***TOKEN_PASSWORD_A1B2C3***_1" second_served))

serve_all-counts_example :
    (lookups second_state ≡ 0 + 2) × (second_state.cache_stats.total ≡ 0 + 2 + 1)
unfolding tokenize_value_with_path fresh_tokenizer after_prefix trim_space to_lower to_upper
    take_chars itoa serve_all rewritten
serve_all-counts_example =
    serve_all-counts library (first_call ∷ second_call ∷ []) start second_state refl refl

validate_token-numbered_example : validate_token (numbered "***TOKEN_PASSWORD_A1B2C3***" 1) ≡ false
validate_token-numbered_example = validate_token-numbered "***TOKEN_PASSWORD_A1B2C3***" 1

token_type-written_example : token_type "***TOKEN_PASSWORD_A1B2C3***" ≡ some "A1B2C3***"
token_type-written_example =
    token_type-written "PASSWORD" "A1B2C3"
      (refl, (refl, (refl, (refl, (refl, (refl, (refl, (refl, tt))))))))
      (refl, (refl, (refl, (refl, (refl, (refl, (refl, (refl, (refl, tt)))))))))

correlated_always_example :
    map {B = String × List String}
      (λ g. (g.pattern, g.tokens))
      (correlated 5 api_authentication
        (("***TOKEN_EMAIL_A1***", "a.log" ∷ []) ∷ ("***TOKEN_IP_B2***", []) ∷ []))
    ≡ ("api_authentication", "***TOKEN_EMAIL_A1***" ∷ "***TOKEN_IP_B2***" ∷ []) ∷ []
correlated_always_example =
    correlated_always 5 "***TOKEN_EMAIL_A1***" ("a.log" ∷ []) (("***TOKEN_IP_B2***", []) ∷ [])
      (("EMAIL_A1***", refl), (("IP_B2***", refl), tt)) (omega arith) (omega arith)

normal_form_panics_example :
    (true ≡ true → normal_form " Bearer ' " ≡ panic "slice bounds out of range")
    × (true ≡ false → (n : String) × (normal_form " Bearer ' " ≡ ok n))
unfolding after_prefix trim_space every_char is_letter to_lower drop_prefix lower_short
normal_form_panics_example = normal_form_panics " Bearer ' "

abbrev repeat : ℕ → List ℕ
repeat zero = []
repeat (suc n) = 7 ∷ repeat n

repeat-drawn : (n : ℕ) → (length (repeat n) ≡ n) × All (λ b. b < 256) (repeat n)
repeat-drawn zero = (refl, tt)
repeat-drawn (suc n) = (ap suc (repeat-drawn n).0, (omega arith, (repeat-drawn n).1))

-- a platform that can seal one value, and whose files hold redaction maps
abbrev platform : Platform
platform = record {
  Content = RedactionMap;
  random = λ i n. ok (repeat n);
  seal = λ key nonce s. 1 ∷ [];
  open_sealed = λ key nonce bytes. some "hunter-2";
  marshal = λ m. ok (record m { encryption_key = [] });
  unmarshal = λ m. ok m;
  write_file = λ path m files. ok (store path m files);
}

platform-Laws : Laws platform first_state.reverse_map
unfolding tokenize_value_with_path fresh_tokenizer after_prefix trim_space to_lower to_upper
    take_chars itoa
platform-Laws = record {
  drawn = λ i n bs h. let same : repeat n ≡ bs = cc h in rw (← same) (repeat-drawn n);
  sealed_bytes = λ key nonce s. (omega arith, tt);
  opens = (λ key nonce. refl, tt);
  reads_back = λ m json h. cc h;
  writes = λ path json files after h.
      let same : store path json files ≡ after = cc h in
      rw (← same) (lookup-store_self path json files);
}

abbrev files_of : Result (Map RedactionMap) → Map RedactionMap
files_of (ok files) = files
files_of (err e) = []
files_of (panic s) = []

abbrev generated : Result (Map RedactionMap)
generated = (generate_redaction_map_file platform 9 "default" "map.json" true first_state []).0

load_redaction_map_file-generate_redaction_map_file_example :
    load_redaction_map_file platform "map.json" (repeat 32) (files_of generated)
    ≡ ok (get_redaction_map 9 "default" (analyze_correlations 9 first_state)).0
unfolding generate_redaction_map_file tokenize_value_with_path fresh_tokenizer after_prefix
    trim_space to_lower to_upper take_chars itoa new_cipher get_redaction_map
load_redaction_map_file-generate_redaction_map_file_example =
    load_redaction_map_file-generate_redaction_map_file platform 9 "default" "map.json" true
      first_state [] (files_of generated) (repeat 32) platform-Laws refl refl

short_salt :
    new_tokenizer (record config { salt = "short" }) "" 7 ≡ panic "slice bounds out of range"
unfolding new_tokenizer
short_salt = refl

bundle_named :
    new_tokenizer (record config { salt = "saltsalt" }) "" 7
    ≡ ok (fresh_tokenizer (record config { salt = "saltsalt" }) "" "bundle_7_73616c7473616c74")
unfolding new_tokenizer hex_encode itoa
bundle_named = refl
