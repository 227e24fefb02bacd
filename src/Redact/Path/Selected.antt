-- ===== src/Redact/Path/Selected.antt =====
-- Which files a specification takes, and how many redactors it gives.
use troubleshoot.Prelude.{
  ℕ, ◌+◌, String, ◌≡◌, ◌≢◌, sym, ap, ◌∙◌, ◌↔◌, ◌⊎◌, inl, inr, refl, Bool, true, ◌&&◌, ◌||◌, List,
  [], ◌∷◌, ◌++◌, ◌==◌, is_nil, Any, arith, eq_iff, Bool-cases,
}
use troubleshoot.Go.Result.{ok, wrap, bind-inv, wrap-ok}
use troubleshoot.Redact.Path.{
  RedactSpec, Globs, compile_all, compile_one, some_matches, redact_matches_path,
}

-- A pattern that compiles and matches the path.
abbrev pub Takes : Globs → String → String → Type 0
Takes globs path pattern = (g : String → Bool) × (globs pattern ≡ ok g) × (g path ≡ true)

compile_all-Takes :
    (globs : Globs) (path : String) (i : ℕ) (patterns : List String) (gs : List (String → Bool))
    → compile_all globs i patterns ≡ ok gs
    → (some_matches path gs ≡ true) ↔ Any (Takes globs path) patterns
unfolding compile_all
compile_all-Takes globs path i [] gs h =
    let none_compiled : ok [] ≡ ok gs = h in
    let e : [] ≡ gs = cc none_compiled in (λ q. cc (rw (sym e) at q), λ n. absurd n)
compile_all-Takes globs path i (pattern ∷ rest) gs h =
    let (g, h', q) = bind-inv (wrap _ (globs pattern)) _ _ h in
    let (gs', e, q') = bind-inv (compile_all globs (i + 1) rest) _ _ h' in
    let (there, back) = compile_all-Takes globs path (i + 1) rest gs' q' in
    let compiled = wrap-ok _ (globs pattern) g q in
    let same : g ∷ gs' ≡ gs = cc e in
    let test : some_matches path gs ≡ (g path || some_matches path gs') =
      ap (some_matches path) (sym same) in
    (
      λ m. elim (Bool-cases (g path)) [
        | inl t ↦ inl (g, compiled, t)
        | inr f ↦ inr (there (ground (arith, test, m, f)))
      ],
      λ a. test ∙ elim a [
        | inl (g', c, t) ↦
            let k : ok g ≡ ok g' = sym compiled ∙ c in
            let l : g' ≡ g = cc k in
            let t' : g path ≡ true = ap (λ (f : String → Bool). f path) (sym l) ∙ t in rw t' refl
        | inr later ↦ let b = back later in ground (arith, b)
      ],
    )

compile_one-Takes :
    (globs : Globs) (path pattern : String) (gs more : List (String → Bool))
    → compile_one globs pattern ≡ ok gs
    → (some_matches path (gs ++ more) ≡ true)
      ↔ (((pattern ≢ "") × Takes globs path pattern) ⊎ (some_matches path more ≡ true))
unfolding compile_one
compile_one-Takes globs path pattern gs more h = elim (Bool-cases (pattern == "")) [
  | inl e ↦
      let none_compiled : ok [] ≡ ok gs = rw e at h in
      let same : [] ≡ gs = cc none_compiled in
      let test : some_matches path (gs ++ more) ≡ some_matches path more =
        ap (λ l. some_matches path (l ++ more)) (sym same) in
      (
        λ m. inr (sym test ∙ m),
        λ s. elim s [ inl (n, t) ↦ absurd (n ((eq_iff pattern "").0 e)) | inr m ↦ test ∙ m ],
      )
  | inr e ↦
      let (g, h', q) = bind-inv (wrap _ (globs pattern)) _ _ (rw e at h) in
      let compiled = wrap-ok _ (globs pattern) g q in
      let same : g ∷ [] ≡ gs = cc h' in
      let test : some_matches path (gs ++ more) ≡ (g path || some_matches path more) =
        ap (λ l. some_matches path (l ++ more)) (sym same) in
      let named : pattern ≢ "" = λ n. cc ((eq_iff pattern "").1 n, e) in
      (
        λ m. elim (Bool-cases (g path)) [
          | inl t ↦ inl (named, (g, compiled, t))
          | inr f ↦ inr (ground (arith, test, m, f))
        ],
        λ s. test ∙ elim s [
          | inl (n, (g', c, t)) ↦
              let k : ok g ≡ ok g' = sym compiled ∙ c in
              let l : g' ≡ g = cc k in
              let t' : g path ≡ true = ap (λ (f : String → Bool). f path) (sym l) ∙ t in rw t' refl
          | inr later ↦ ground (arith, later)
        ],
      )
]

-- the specification takes the path
abbrev pub Selects : Globs → String → RedactSpec → Type 0
Selects globs path spec =
    ((spec.file ≡ "") × (is_nil spec.files ≡ true))
    ⊎ (((spec.file ≢ "") × Takes globs path spec.file) ⊎ Any (Takes globs path) spec.files)

-- Where every pattern of a specification compiles, the answer is yes exactly if the specification
-- has no file selector, or its one pattern or one of its list of patterns matches the path.
pub redact_matches_path_iff :
    (globs : Globs) (path : String) (spec : RedactSpec) (answer : Bool)
    → redact_matches_path globs path spec ≡ ok answer
    → (answer ≡ true) ↔ Selects globs path spec
unfolding redact_matches_path
redact_matches_path_iff globs path spec answer h =
    elim (Bool-cases (spec.file == "" && is_nil spec.files)) [
      | inl e ↦
          let answered : ok true ≡ ok answer = rw e at h in
          let file : spec.file ≡ "" = ground (arith, eq_iff spec.file "", e) in
          let nil : is_nil spec.files ≡ true = ground (arith, e) in
          (λ t. inl (file, nil), λ s. cc answered)
      | inr e ↦
          let (one, h', q) = bind-inv (compile_one globs spec.file) _ _ (rw e at h) in
          let (more, h'', q') = bind-inv (compile_all globs 0 spec.files) _ _ h' in
          let (there, back) = compile_one-Takes globs path spec.file one more q in
          let (there', back') = compile_all-Takes globs path 0 spec.files more q' in
          let same : some_matches path (one ++ more) ≡ answer = cc h'' in
          (
            λ t. inr (elim (there (same ∙ t)) [ inl taken ↦ inl taken | inr m ↦ inr (there' m) ]),
            λ s. sym same ∙ elim s [
              | inl (file, nil) ↦ absurd (cc ((eq_iff spec.file "").1 file, nil, e))
              | inr (inl taken) ↦ back (inl taken)
              | inr (inr a) ↦ back (inr (back' a))
            ],
          )
    ]
