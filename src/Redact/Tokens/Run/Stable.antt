-- ===== src/Redact/Tokens/Run/Stable.antt =====
-- A secret keeps its token.
use troubleshoot.Prelude.{
  String, ◌≡◌, refl, true, false, some, ◌==◌, Bool-cases, inl, inr, ◌∙◌, eq_iff, ◌⊎◌,
}
use troubleshoot.Go.Result.{ok, map_result}
use troubleshoot.Go.Maps.{lookup, lookup-store_self, lookup-store_other}
use troubleshoot.Redact.Tokens.{Library, State, set_enabled}
use troubleshoot.Redact.Tokens.Normalize.{normal_form, count_normalized}
use troubleshoot.Redact.Tokens.Tokenize.{token_of}
use troubleshoot.Redact.Tokens.Run.{
  Call, serve, Step, served, switched, Reaches, here, next, serve-on, serve-effect, serve-effect_on,
  Known, New,
}

module _ (lib : Library) where
  effect-lookup :
      (c : Call) (t u : State) (n m token old : String)
      → Known lib t n token u ⊎ New lib c t n token u
      → lookup m t.token_map ≡ some old
      → lookup m u.token_map ≡ some old
  effect-lookup c t u n m token old (inl (e, same, r)) h = rw same h
  effect-lookup c t u n m token old (inr (e, g, stored, r)) h =
      rw stored (elim (Bool-cases (n == m)) [
        | inl q ↦ cc ((eq_iff n m).0 q, e, h)
        | inr q ↦ lookup-store_other n m token t.token_map q ∙ h
      ])

  Step-lookup :
      {t u : State} (m old : String)
      → Step lib t u
      → lookup m t.token_map ≡ some old
      → lookup m u.token_map ≡ some old
  unfolding set_enabled
  Step-lookup m old (served {t} {u} c token s) h = elim (serve-effect lib c t u token s) [
    | inl idle ↦ rw (← idle) h
    | inr (n, e, k) ↦ effect-lookup c t u n m token old k h
  ]
  Step-lookup m old (switched t b) h = h

  Reaches-lookup :
      {t u : State} (m old : String)
      → Reaches lib t u
      → lookup m t.token_map ≡ some old
      → lookup m u.token_map ≡ some old
  Reaches-lookup m old here h = h
  Reaches-lookup m old (next r s) h = Step-lookup m old s (Reaches-lookup m old r h)

  served-lookup :
      (c : Call) (t u : State) (n token : String)
      → normal_form c.value ≡ ok n
      → Known lib t n token u ⊎ New lib c t n token u
      → lookup n u.token_map ≡ some token
  served-lookup c t u n token e (inl (k, same, r)) = rw same k
  served-lookup c t u n token e (inr (k, g, stored, r)) =
      rw stored (lookup-store_self n token t.token_map)

  -- A value whose normal form has a token is given that token.
  pub serve-known :
      (c : Call) (t : State) (n token : String)
      → t.config.enabled ≡ true
      → (c.value == "") ≡ false
      → normal_form c.value ≡ ok n
      → lookup n t.token_map ≡ some token
      → map_result (λ r. r.0) (serve lib c t) ≡ ok token
  unfolding token_of count_normalized
  serve-known c t n token on full e k =
      rw (serve-on lib c t n on full e) (elim (Bool-cases (n == c.value)) [
        | inl q ↦ rw (count_normalized, q, token_of, k) refl
        | inr q ↦ rw (count_normalized, q, token_of, k) refl
      ])

  -- While a tokenizer is not reset, a secret has one token: if a call is served with tokenization on, and after
  -- any calls and switches a second one is served for a value with the same normal form,
  -- then the second gives the token of the first, whatever their contexts, their files and the times.
  pub serve_same_token :
      (c d : Call) (t u v : State) (normalized token : String)
      → t.config.enabled ≡ true
      → v.config.enabled ≡ true
      → (c.value == "") ≡ false
      → (d.value == "") ≡ false
      → normal_form c.value ≡ ok normalized
      → normal_form d.value ≡ ok normalized
      → serve lib c t ≡ ok (token, u)
      → Reaches lib u v
      → map_result (λ r. r.0) (serve lib d v) ≡ ok token
  serve_same_token c d t u v n token on on' full full' e e' s r =
      serve-known d v n token on' full' e' (
        Reaches-lookup n token r
          (served-lookup c t u n token e (serve-effect_on lib c t u n token on full e s)))
