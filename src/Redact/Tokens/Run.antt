-- ===== src/Redact/Tokens/Run.antt =====
-- The calls that a tokenizer serves one after another, and what each leaves as it is.
pub mod Stable
pub mod Distinct
pub mod Tracked
pub mod Counts
use troubleshoot.Prelude.{
  ℕ, ◌+◌, String, ◌≡◌, refl, Bool, true, false, not, ◌||◌, Option, none, some, List, [], ◌∷◌,
  if◌then◌else◌, ◌==◌, Bool-cases, Option-cases, inl, inr, ap, sym, ◌∙◌, ◌⊎◌,
}
use troubleshoot.Go.Result.{Result, ok, err, panic, ◌>>=◌, map_result}
use troubleshoot.Go.Maps.{Map, lookup, store}
use troubleshoot.Redact.{mask_text}
use troubleshoot.Redact.Tokens.{Library, State, set_enabled}
use troubleshoot.Redact.Tokens.Normalize.{normal_form, normalize_secret, count_normalized}
use troubleshoot.Redact.Tokens.Generate.{generate_token, base_token}
use troubleshoot.Redact.Tokens.Classify.{classify_secret, classify_value}
use troubleshoot.Redact.Tokens.Track.{
  add_secret_reference, track_duplicate_secret, update_file_stats,
}
use troubleshoot.Redact.Tokens.Tokenize.{
  tokenize_value_with_path, token_of, track, store_token, count_total, count_miss, count_hit,
}

-- the arguments of `TokenizeValueWithPath`, and the time of the call
pub record Call : Type 0 where
  pub now : ℕ
  pub value : String
  pub context : String
  pub path : String

module _ (lib : Library) where
  abbrev pub serve : Call → State → Result (String × State)
  serve c t = tokenize_value_with_path lib c.now c.value c.context c.path t

  -- one call that returns, or a switch of tokenization
  pub data Step : State → State → Type 0 where
    served : {t u : State} (c : Call) (token : String) → serve c t ≡ ok (token, u) → Step t u
    switched : (t : State) (b : Bool) → Step t (set_enabled b t)

  pub data Reaches (t : State) : State → Type 0 where
    here : Reaches t t
    next : {u v : State} → Reaches t u → Step u v → Reaches t v

  -- A call with tokenization off, or for the empty value, changes nothing; else it goes through the
  -- normal form.
  pub serve-on :
      (c : Call) (t : State) (normalized : String)
      → t.config.enabled ≡ true
      → (c.value == "") ≡ false
      → normal_form c.value ≡ ok normalized
      → serve c t
        ≡ ok (
            token_of lib c.now normalized c.value c.context c.path
              (count_total (count_normalized c.value normalized t)))
  unfolding tokenize_value_with_path normalize_secret
  serve-on c t normalized on full e = rw (on, full, e) refl

  abbrev idle : Call → State → Bool
  idle c t = not t.config.enabled || c.value == ""

  pub serve-idle : (c : Call) (t : State) → idle c t ≡ true → serve c t ≡ ok (mask_text, t)
  unfolding tokenize_value_with_path
  serve-idle c t e = rw e refl

  -- A call that is not idle and returns has a normal form.
  pub serve-busy :
      (c : Call) (t u : State) (token : String)
      → idle c t ≡ false
      → serve c t ≡ ok (token, u)
      → (normalized : String) × (normal_form c.value ≡ ok normalized)
        × (token_of lib c.now normalized c.value c.context c.path
              (count_total (count_normalized c.value normalized t))
            ≡ (token, u))
  unfolding tokenize_value_with_path normalize_secret
  serve-busy c t u token busy h = found (normal_form c.value) refl (rw busy at h)
    where
      found :
          (r : Result String)
          → normal_form c.value ≡ r
          → (r >>= (λ n. ok (n, count_normalized c.value n t)) >>= λ (n, t').
              ok (token_of lib c.now n c.value c.context c.path (count_total t')))
            ≡ ok (token, u)
          → (normalized : String) × (normal_form c.value ≡ ok normalized)
            × (token_of lib c.now normalized c.value c.context c.path
                  (count_total (count_normalized c.value normalized t))
                ≡ (token, u))
      found (ok n) e g = (n, e, cc g)
      found (err x) e g = cc g
      found (panic x) e g = cc g

  -- A call that returns was idle, or went through the normal form.
  pub serve-inv :
      (c : Call) (t u : State) (token : String)
      → serve c t ≡ ok (token, u)
      → (t ≡ u)
        ⊎ ((normalized : String) × (normal_form c.value ≡ ok normalized)
            × (token_of lib c.now normalized c.value c.context c.path
                  (count_total (count_normalized c.value normalized t))
                ≡ (token, u)))
  serve-inv c t u token h = elim (Bool-cases (idle c t)) [
    | inl e ↦ inl (cc (serve-idle c t e, h))
    | inr e ↦ inr (serve-busy c t u token e h)
  ]

  -- The tracking of a file changes neither of the maps of tokens, nor the configuration, nor the
  -- counters of the cache.
  pub track_keeps :
      (now : ℕ) (token normalized value context path : String) (t : State)
      → let u = track lib now token normalized value context path t in
        (u.token_map ≡ t.token_map)
        × (u.reverse_map ≡ t.reverse_map)
        × (u.config ≡ t.config)
        × (u.cache_stats ≡ t.cache_stats)
  unfolding track add_secret_reference update_file_stats track_duplicate_secret
  track_keeps now token normalized value context path t = elim (Bool-cases (path == "")) [
    | inl e ↦ rw e (refl, refl, refl, refl)
    | inr e ↦ rw e (refl, refl, refl, refl)
  ]

  -- What a call does to the two maps: nothing for a value that has a token, else it stores the new one
  -- in both.
  abbrev pub Known : State → String → String → State → Type 0
  Known t normalized token u =
      (lookup normalized t.token_map ≡ some token)
      × (u.token_map ≡ t.token_map)
      × (u.reverse_map ≡ t.reverse_map)

  abbrev pub New : Call → State → String → String → State → Type 0
  New c t normalized token u =
      (lookup normalized t.token_map ≡ none)
      × (token ≡ generate_token lib c.now t normalized c.context)
      × (u.token_map ≡ store normalized token t.token_map)
      × (u.reverse_map ≡ store token c.value t.reverse_map)

  token_of-effect :
      (c : Call) (t u : State) (normalized token : String)
      → token_of lib c.now normalized c.value c.context c.path t ≡ (token, u)
      → Known t normalized token u ⊎ New c t normalized token u
  unfolding token_of store_token generate_token base_token classify_secret classify_value
  token_of-effect c t u normalized token h = elim (Option-cases (lookup normalized t.token_map)) [
    | inl e ↦
        let fresh = generate_token lib c.now t normalized c.context in
        let kept =
          track_keeps c.now fresh normalized c.value c.context c.path
            (store_token lib fresh normalized c.value (count_miss t)) in
        let same = rw (e, token_of) at h in
        inr (
          e,
          sym (ap (λ r. r.0) same),
          rw (← ap (λ r. r.0) same) (sym (ap (λ r. r.1.token_map) same) ∙ kept.0),
          rw (← ap (λ r. r.0) same) (sym (ap (λ r. r.1.reverse_map) same) ∙ kept.1),
        )
    | inr (old, e) ↦
        let kept = track_keeps c.now old normalized c.value c.context c.path (count_hit t) in
        let same = rw (e, token_of) at h in
        inl (
          e ∙ ap (λ r. some r.0) same,
          sym (ap (λ r. r.1.token_map) same) ∙ kept.0,
          sym (ap (λ r. r.1.reverse_map) same) ∙ kept.1,
        )
  ]

  busy-effect :
      (c : Call) (t u : State) (n token : String)
      → token_of lib c.now n c.value c.context c.path (count_total (count_normalized c.value n t))
        ≡ (token, u)
      → Known t n token u ⊎ New c t n token u
  unfolding count_normalized generate_token base_token classify_secret classify_value
  busy-effect c t u n token k = elim (Bool-cases (n == c.value)) [
    | inl same ↦ token_of-effect c (count_total t) u n token (rw (count_normalized, same) at k)
    | inr changed ↦
        let noted = record t {
          cache_stats = record t.cache_stats { total = t.cache_stats.total + 1 };
          normalized_secrets = store n c.value t.normalized_secrets;
        } in
        token_of-effect c (count_total noted) u n token (rw (count_normalized, changed) at k)
  ]

  -- Every call that returns is idle, finds the value's token, or stores a new one.
  pub serve-effect :
      (c : Call) (t u : State) (token : String)
      → serve c t ≡ ok (token, u)
      → (t ≡ u)
        ⊎ ((normalized : String) × (normal_form c.value ≡ ok normalized)
            × (Known t normalized token u ⊎ New c t normalized token u))
  serve-effect c t u token h = elim (serve-inv c t u token h) [
    | inl idle ↦ inl idle
    | inr (n, e, k) ↦ inr (n, e, busy-effect c t u n token k)
  ]

  pub serve-effect_on :
      (c : Call) (t u : State) (normalized token : String)
      → t.config.enabled ≡ true
      → (c.value == "") ≡ false
      → normal_form c.value ≡ ok normalized
      → serve c t ≡ ok (token, u)
      → Known t normalized token u ⊎ New c t normalized token u
  serve-effect_on c t u normalized token on full e h =
      busy-effect c t u normalized token (cc (serve-on c t normalized on full e, h))
