-- ===== src/Redact/Tokens/Tokenize.antt =====
-- `TokenizeValueWithPath`: the token of a secret, from the map or new, and the tracking of its file.
-- The readings of the clock in one call are one time.
use troubleshoot.Prelude.{ℕ, ◌+◌, String, not, ◌||◌, none, some, if◌then◌else◌, ◌==◌}
use troubleshoot.Go.Result.{Result, ok, ◌>>=◌}
use troubleshoot.Go.Maps.{lookup, store}
use troubleshoot.Redact.{mask_text}
use troubleshoot.Redact.Tokens.{Library, State}
use troubleshoot.Redact.Tokens.Classify.{classify_secret}
use troubleshoot.Redact.Tokens.Normalize.{normalize_secret}
use troubleshoot.Redact.Tokens.Generate.{generate_token, generate_secret_hash}
use troubleshoot.Redact.Tokens.Track.{
  add_secret_reference, track_duplicate_secret, update_file_stats,
}

abbrev pub count_total : State → State
count_total t = record t { cache_stats = record t.cache_stats { total = t.cache_stats.total + 1 } }

abbrev pub count_hit : State → State
count_hit t = record t { cache_stats = record t.cache_stats { hits = t.cache_stats.hits + 1 } }

abbrev pub count_miss : State → State
count_miss t = record t { cache_stats = record t.cache_stats { misses = t.cache_stats.misses + 1 } }

module _ (lib : Library) where
  -- `if filePath != "" { ... }`
  unfoldable pub track : ℕ → String → String → String → String → String → State → State
  unfolding classify_secret generate_secret_hash add_secret_reference update_file_stats
      track_duplicate_secret
  track now token normalized value context path t =
      if path == ""
      then t
      else (let secret_type = classify_secret lib t context value in
          track_duplicate_secret now (generate_secret_hash lib normalized) token secret_type path
            (update_file_stats now path secret_type (add_secret_reference token path t)))

  -- a new token, stored in both directions
  unfoldable pub store_token : String → String → String → State → State
  unfolding store generate_secret_hash
  store_token token normalized value t = record t {
    token_map = store normalized token t.token_map;
    reverse_map = store token value t.reverse_map;
    secret_hashes = store normalized (generate_secret_hash lib normalized) t.secret_hashes;
  }

  -- the token of a value whose normal form is known, under the lock
  unfoldable pub token_of : ℕ → String → String → String → String → State → String × State
  unfolding lookup track store_token generate_token
  token_of now normalized value context path t = elim (lookup normalized t.token_map) [
    | some existing ↦ (existing, track now existing normalized value context path (count_hit t))
    | none ↦
        let missed = count_miss t in
        let token = generate_token lib now missed normalized context in
        (
          token,
          track now token normalized value context path (store_token token normalized value missed),
        )
  ]

  unfoldable pub tokenize_value_with_path :
      ℕ → String → String → String → State → Result (String × State)
  unfolding normalize_secret token_of
  tokenize_value_with_path now value context path t =
      if not t.config.enabled || value == ""
      then ok (mask_text, t)
      else normalize_secret value t >>= λ (normalized, t').
          ok (token_of now normalized value context path (count_total t'))

  -- `TokenizeValue`
  abbrev pub tokenize_value : ℕ → String → String → State → Result (String × State)
  tokenize_value now value context t = tokenize_value_with_path now value context "" t
