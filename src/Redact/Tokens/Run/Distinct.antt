-- ===== src/Redact/Tokens/Run/Distinct.antt =====
-- Secrets have different tokens.
use troubleshoot.Prelude.{
  ℕ, zero, suc, ◌+◌, ◌≤◌, ◌<◌, String, ◌≡◌, ◌≢◌, refl, true, false, none, some, arith, ◌==◌,
  Bool-cases, Option-cases, inl, inr, ap, sym, ◌∙◌, eq_iff, ◌⊎◌,
}
use troubleshoot.Go.Result.{ok}
use troubleshoot.Go.Maps.{
  Map, lookup, lookup-store_self, lookup-store_other, store-inv, store_missing,
}
use troubleshoot.Redact.Tokens.{Library, TokenizerConfig, State, set_enabled, fresh_tokenizer}
use troubleshoot.Redact.Tokens.Normalize.{normal_form}
use troubleshoot.Redact.Tokens.Generate.{
  free_for, numbered, try_counters, stamped, resolve_collision, base_token, generate_token,
}
use troubleshoot.Redact.Tokens.Run.{
  Call, serve, Step, served, switched, Reaches, here, next, serve-effect, serve-effect_on, Known,
  New,
}

-- The two maps agree: a token that is given out is in the map of tokens, and each entry of that map
-- is of a value whose normal form has the token.
pub record Consistent (t : State) : Type 0 where
  pub recorded :
      (n token : String) → lookup n t.token_map ≡ some token → lookup token t.reverse_map ≢ none
  pub backed :
      (token v : String)
      → lookup token t.reverse_map ≡ some v
      → (n : String) × (normal_form v ≡ ok n) × (lookup n t.token_map ≡ some token)

-- what the tokens are tried in the order of: the token itself, and it with each counter
unfoldable pub candidate : String → ℕ → String
candidate base zero = base
candidate base (suc k) = numbered base (suc k)

try_counters-free :
    (taken : Map String) (base value : String) (rounds counter j : ℕ)
    → j < rounds
    → free_for taken value (numbered base (counter + j)) ≡ true
    → (token : String) × (try_counters taken base value rounds counter ≡ some token)
      × (free_for taken value token ≡ true)
unfolding try_counters
try_counters-free taken base value zero counter j h f = absurd (omega arith)
try_counters-free taken base value (suc rounds) counter zero h f =
    let at : counter + 0 ≡ counter = omega arith in
    let here = sym (ap (λ n. free_for taken value (numbered base n)) at) ∙ f in
    (numbered base counter, rw here refl, here)
try_counters-free taken base value (suc rounds) counter (suc j) h f =
    let at : counter + 1 + j ≡ counter + suc j = omega arith in
    let later =
      try_counters-free taken base value rounds (counter + 1) j (omega arith)
        (ap (λ n. free_for taken value (numbered base n)) at ∙ f) in
    elim (Bool-cases (free_for taken value (numbered base counter))) [
      | inl e ↦ (numbered base counter, rw e refl, e)
      | inr e ↦ rw e later
    ]

-- With a free candidate among the first 101 no time is put in.
resolve_collision-free :
    (taken : Map String) (now : ℕ) (base value : String) (k : ℕ)
    → k ≤ 100
    → free_for taken value (candidate base k) ≡ true
    → free_for taken value (resolve_collision taken now base value) ≡ true
unfolding resolve_collision candidate
resolve_collision-free taken now base value k h f = elim (Bool-cases (free_for taken value base)) [
  | inl e ↦ rw e e
  | inr e ↦ rw e (counted k h f e)
]
  where
    counted :
        (k : ℕ)
        → k ≤ 100
        → free_for taken value (candidate base k) ≡ true
        → free_for taken value base ≡ false
        → free_for taken value (elim (try_counters taken base value 100 1) [
          | some token ↦ token
          | none ↦ stamped base now
        ])
          ≡ true
    counted zero h f e = absurd (cc (f, e))
    counted (suc k) h f e =
        let at : 1 + k ≡ suc k = omega arith in
        let (token, found, free) =
          try_counters-free taken base value 100 1 k (omega arith)
            (ap (λ n. free_for taken value (numbered base n)) at ∙ f) in
        rw found free

free_for-none :
    (taken : Map String) (value token : String)
    → lookup token taken ≡ none
    → free_for taken value token ≡ true
unfolding free_for
free_for-none taken value token h = rw (free_for, h) refl

free_for-inv :
    (taken : Map String) (value token : String)
    → free_for taken value token ≡ true
    → (lookup token taken ≡ none) ⊎ (lookup token taken ≡ some value)
unfolding free_for
free_for-inv taken value token h = elim (Option-cases (lookup token taken)) [
  | inl e ↦ inl e
  | inr (v, e) ↦ inr (cc (e, ap some ((eq_iff v value).0 (rw (free_for, e) at h))))
]

module _ (lib : Library) where
  effect-Consistent :
      (c : Call) (t u : State) (n token : String)
      → normal_form c.value ≡ ok n
      → Known lib t n token u ⊎ New lib c t n token u
      → Consistent t
      → Consistent u
  effect-Consistent c t u n token e (inl (k, same, same')) h = record {
    recorded = λ m tok q. rw same' (h.recorded m tok (rw same at q));
    backed = λ tok v q. rw same (h.backed tok v (rw same' at q));
  }
  effect-Consistent c t u n token e (inr (new, g, stored, stored')) h = record {
    recorded = λ m tok q. λ missing.
        let (other, before) =
          store_missing token tok c.value t.reverse_map (rw stored' at missing) in
        elim (store-inv n m token tok t.token_map (rw stored at q)) [
          | inl (same, given) ↦ cc ((eq_iff token tok).1 given, other)
          | inr (differ, old) ↦ h.recorded m tok old before
        ];
    backed = λ tok v q. elim (store-inv token tok c.value v t.reverse_map (rw stored' at q)) [
      | inl (same, given) ↦
          (n, rw (← given) e, rw stored (lookup-store_self n token t.token_map) ∙ ap some same)
      | inr (differ, old) ↦
          let (m, f, k) = h.backed tok v old in
          (
            m,
            f,
            rw stored (elim (Bool-cases (n == m)) [
              | inl s ↦ absurd (cc ((eq_iff n m).0 s, new, k))
              | inr s ↦ lookup-store_other n m token t.token_map s ∙ k
            ]),
          )
    ];
  }

  Step-Consistent : {t u : State} → Step lib t u → Consistent t → Consistent u
  unfolding set_enabled
  Step-Consistent (served {t} {u} c token s) h = elim (serve-effect lib c t u token s) [
    | inl idle ↦ rw (← idle) h
    | inr (n, e, k) ↦ effect-Consistent c t u n token e k h
  ]
  Step-Consistent (switched t b) h = record { recorded = h.recorded; backed = h.backed }

  start-Consistent :
      (config : TokenizerConfig) (salt id : String) → Consistent (fresh_tokenizer config salt id)
  unfolding fresh_tokenizer lookup
  start-Consistent config salt id = record {
    recorded = λ n token q. cc q;
    backed = λ token v q. cc q;
  }

  pub Reaches-Consistent : {t u : State} → Reaches lib t u → Consistent t → Consistent u
  Reaches-Consistent here h = h
  Reaches-Consistent (next r s) h = Step-Consistent s (Reaches-Consistent r h)

  -- In every state that a new tokenizer reaches a new secret is given a token that no other has, if its normal form
  -- is its own normal form and one of the 101 tokens that are tried is not in use.
  pub serve_distinct_token :
      (config : TokenizerConfig) (salt id : String) (c : Call) (t u : State)
      (normalized token : String) (k : ℕ)
      → Reaches lib (fresh_tokenizer config salt id) t
      → t.config.enabled ≡ true
      → (c.value == "") ≡ false
      → normal_form c.value ≡ ok normalized
      → normal_form normalized ≡ ok normalized
      → lookup normalized t.token_map ≡ none
      → k ≤ 100
      → lookup (candidate (base_token lib t normalized c.context) k) t.reverse_map ≡ none
      → serve lib c t ≡ ok (token, u)
      → (other : String) → lookup other t.token_map ≢ some token
  unfolding generate_token
  serve_distinct_token config salt id c t u n token k r on full e f new small free s other given =
      elim (serve-effect_on lib c t u n token on full e s) [
        | inl (known, _, _) ↦ cc (known, new)
        | inr (_, g, _, _) ↦
            let h = Reaches-Consistent r (start-Consistent config salt id) in
            let tried =
              resolve_collision-free t.reverse_map c.now (base_token lib t n c.context) n k small
                (free_for-none t.reverse_map n _ free) in
            elim (free_for-inv t.reverse_map n token (rw g tried)) [
              | inl unused ↦ h.recorded other token given unused
              | inr original ↦
                  let (m, q, named) = h.backed token n original in cc (f, q, named, new)
            ]
      ]
