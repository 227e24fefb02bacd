-- ===== src/Redact/Tokens/Run/Counts.antt =====
-- The counters of the cache after a list of calls.
use troubleshoot.Prelude.{
  ℕ, ◌+◌, String, ◌≡◌, refl, Bool, true, false, not, ◌&&◌, List, [], ◌∷◌, arith, ◌==◌, Bool-cases,
  Option-cases, inl, inr, ap, sym, ◌∙◌, if◌then◌else◌, length, select,
}
use troubleshoot.Go.Result.{Result, ok, ◌>>=◌, bind-inv}
use troubleshoot.Go.Maps.{lookup}
use troubleshoot.Redact.Tokens.{Library, State}
use troubleshoot.Redact.Tokens.Normalize.{normal_form, count_normalized}
use troubleshoot.Redact.Tokens.Generate.{generate_token}
use troubleshoot.Redact.Tokens.Tokenize.{store_token, token_of, count_total, count_hit, count_miss}
use troubleshoot.Redact.Tokens.Run.{Call, serve, serve-idle, serve-busy, track_keeps}

-- the calls one after another
unfoldable pub serve_all : Library → List Call → State → Result State
serve_all lib [] t = ok t
serve_all lib (c ∷ cs) t = serve lib c t >>= λ (_, u). serve_all lib cs u

-- the calls that are not for the empty value
abbrev pub asked : Call → Bool
asked c = not (c.value == "")

-- the calls whose value is not its own normal form
unfoldable pub rewritten : Call → Bool
rewritten c = asked c && elim (normal_form c.value) [ ok n ↦ not (n == c.value) | _ ↦ false ]

abbrev pub lookups : State → ℕ
lookups t = t.cache_stats.hits + t.cache_stats.misses

-- what a call adds to the counters
abbrev one : Bool → ℕ
one b = if b then 1 else 0

length-select :
    (p : Call → Bool) (c : Call) (cs : List Call)
    → length (select p (c ∷ cs)) ≡ one (p c) + length (select p cs)
length-select p c cs = elim (Bool-cases (p c)) [
  | inl e ↦ rw e (omega arith)
  | inr e ↦ rw e (omega arith)
]

module _ (lib : Library) where
  token_of-counts :
      (c : Call) (t u : State) (n token : String)
      → token_of lib c.now n c.value c.context c.path t ≡ (token, u)
      → (u.config ≡ t.config)
        × (lookups u ≡ lookups t + 1)
        × (u.cache_stats.total ≡ t.cache_stats.total)
  unfolding token_of store_token
  token_of-counts c t u n token q = elim (Option-cases (lookup n t.token_map)) [
    | inl e ↦
        let fresh = generate_token lib c.now (count_miss t) n c.context in
        let (_, _, config, stats) =
          track_keeps lib c.now fresh n c.value c.context c.path
            (store_token lib fresh n c.value (count_miss t)) in
        let same = sym (ap (λ r. r.1) (rw (e, token_of) at q)) in
        (
          ap (λ s. s.config) same ∙ config,
          ap lookups same ∙ ap (λ s. s.hits + s.misses) stats ∙ omega arith,
          ap (λ s. s.cache_stats.total) same ∙ ap (λ s. s.total) stats,
        )
    | inr (old, e) ↦
        let (_, _, config, stats) =
          track_keeps lib c.now old n c.value c.context c.path (count_hit t) in
        let same = sym (ap (λ r. r.1) (rw (e, token_of) at q)) in
        (
          ap (λ s. s.config) same ∙ config,
          ap lookups same ∙ ap (λ s. s.hits + s.misses) stats ∙ omega arith,
          ap (λ s. s.cache_stats.total) same ∙ ap (λ s. s.total) stats,
        )
  ]

  count_normalized-counts :
      (value n : String) (t : State)
      → ((count_normalized value n t).config ≡ t.config)
        × (lookups (count_normalized value n t) ≡ lookups t)
        × ((count_normalized value n t).cache_stats.total
            ≡ t.cache_stats.total + one (not (n == value)))
  unfolding count_normalized
  count_normalized-counts value n t = elim (Bool-cases (n == value)) [
    | inl e ↦ rw e (refl, refl, omega arith)
    | inr e ↦ rw e (refl, refl, refl)
  ]

  serve-counts :
      (c : Call) (t u : State) (token : String)
      → t.config.enabled ≡ true
      → serve lib c t ≡ ok (token, u)
      → (u.config ≡ t.config)
        × (lookups u ≡ lookups t + one (asked c))
        × (u.cache_stats.total ≡ t.cache_stats.total + one (asked c) + one (rewritten c))
  unfolding rewritten
  serve-counts c t u token on q = elim (Bool-cases (c.value == "")) [
    | inl empty ↦
        let same : t ≡ u = cc (serve-idle lib c t (rw (on, empty) refl), q) in
        rw (← same, empty) (refl, omega arith, omega arith)
    | inr full ↦
        let (n, e, k) = serve-busy lib c t u token (rw (on, full) refl) q in
        let noted = count_total (count_normalized c.value n t) in
        let (config, counts, total) = token_of-counts c noted u n token k in
        let (config', counts', total') = count_normalized-counts c.value n t in
        rw (rewritten, full, e)
          (config ∙ config', omega (arith, counts, counts'), omega (arith, total, total'))
  ]

  -- With tokenization on, after calls that all return, the hits and misses have grown together by the number of
  -- calls with a value that is not empty; the counter called "total lookups" has grown by the same number
  -- and once more for each value that is not its own normal form.
  pub serve_all-counts :
      (cs : List Call) (t u : State)
      → t.config.enabled ≡ true
      → serve_all lib cs t ≡ ok u
      → (lookups u ≡ lookups t + length (select asked cs))
        × (u.cache_stats.total
            ≡ t.cache_stats.total + length (select asked cs) + length (select rewritten cs))
  unfolding serve_all
  serve_all-counts [] t u on q = let same : t ≡ u = cc q in rw (← same) (omega arith, omega arith)
  serve_all-counts (c ∷ cs) t u on q =
      let ((token, v), rest, served) =
        bind-inv (serve lib c t) (λ (_, v). serve_all lib cs v) u q in
      let (config, counts, total) = serve-counts c t v token on served in
      let (counts', total') = serve_all-counts cs v u (ap (λ g. g.enabled) config ∙ on) rest in
      (
        omega (arith, length-select asked c cs, counts, counts'),
        omega (arith, length-select asked c cs, length-select rewritten c cs, total, total'),
      )
