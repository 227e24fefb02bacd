-- ===== src/Dedup/Unique.antt =====
-- What is left of a list of specs when the copies are taken out.
use troubleshoot.Prelude.{
  String, ◌≡◌, refl, ap, ◌∙◌, true, false, not, ◌&&◌, Option, none, some, List, [], ◌∷◌, ◌==◌,
  member, Distinct, arith, eq_iff, eq_refl, Option-cases, Bool-cases, inl, inr,
}
use troubleshoot.Dedup.{dedup_loop, dedup_analyzers}

module _ {A : Type 0} (marshal : A → Option String) where
  -- the texts of the specs that have one
  abbrev pub texts : List A → List String
  texts [] = []
  texts (x ∷ xs) = elim (marshal x) [ none ↦ texts xs | some text ↦ text ∷ texts xs ]

  -- The texts are those of the specs that were given, each once, and a second pass changes nothing.
  pub record Deduplicated (given kept : List A) : Type 0 where
    pub distinct : Distinct (texts kept)
    pub same_texts : (k : String) → member k (texts kept) ≡ member k (texts given)
    pub stable : dedup_analyzers marshal kept ≡ kept

  texts-none : (x : A) (xs : List A) → marshal x ≡ none → texts (x ∷ xs) ≡ texts xs
  texts-none x xs e = rw (texts, e) refl

  texts-some :
      (x : A) (xs : List A) (text : String)
      → marshal x ≡ some text
      → texts (x ∷ xs) ≡ text ∷ texts xs
  texts-some x xs text e = rw (texts, e) refl

  loop_unmarshalled :
      (unique : List String) (x : A) (xs : List A)
      → marshal x ≡ none
      → dedup_loop marshal unique (x ∷ xs) ≡ x ∷ dedup_loop marshal unique xs
  unfolding dedup_loop
  loop_unmarshalled unique x xs e = rw (dedup_loop, e) refl

  loop_copy :
      (unique : List String) (x : A) (xs : List A) (text : String)
      → marshal x ≡ some text
      → member text unique ≡ true
      → dedup_loop marshal unique (x ∷ xs) ≡ dedup_loop marshal unique xs
  unfolding dedup_loop
  loop_copy unique x xs text e m = rw (dedup_loop, e, m) refl

  loop_new :
      (unique : List String) (x : A) (xs : List A) (text : String)
      → marshal x ≡ some text
      → member text unique ≡ false
      → dedup_loop marshal unique (x ∷ xs) ≡ x ∷ dedup_loop marshal (text ∷ unique) xs
  unfolding dedup_loop
  loop_new unique x xs text e m = rw (dedup_loop, e, m) refl

  loop_texts :
      (unique : List String) (xs : List A) (k : String)
      → member k (texts (dedup_loop marshal unique xs))
        ≡ (not (member k unique) && member k (texts xs))
  unfolding member
  loop_texts unique [] k = unfold dedup_loop in ground arith
  loop_texts unique (x ∷ xs) k = elim (Option-cases (marshal x)) [
    | inl e ↦ rw (loop_unmarshalled unique x xs e) (
        rw (texts-none x (dedup_loop marshal unique xs) e, texts-none x xs e)
          (loop_texts unique xs k))
    | inr (text, e) ↦ elim (Bool-cases (member text unique)) [
      | inl m ↦
          let go = loop_texts unique xs k in
          rw (loop_copy unique x xs text e m) (
            rw (texts-some x xs text e) (elim (Bool-cases (k == text)) [
              | inl q ↦
                  let same : k ≡ text = (eq_iff k text).0 q in
                  let seen : member k unique ≡ true = ap (λ t. member t unique) same ∙ m in
                  ground (arith, go, seen)
              | inr q ↦ ground (arith, go, q)
            ]))
      | inr m ↦
          let go = loop_texts (text ∷ unique) xs k in
          rw (loop_new unique x xs text e m) (
            rw (texts-some x (dedup_loop marshal (text ∷ unique) xs) text e, texts-some x xs text e)
              (elim (Bool-cases (k == text)) [
                | inl q ↦
                    let same : k ≡ text = (eq_iff k text).0 q in
                    let fresh : member k unique ≡ false = ap (λ t. member t unique) same ∙ m in
                    ground (arith, fresh, q)
                | inr q ↦ ground (arith, go, q)
              ]))
    ]
  ]

  gone :
      (text : String) (unique : List String) (xs : List A)
      → member text (texts (dedup_loop marshal (text ∷ unique) xs)) ≡ false
  unfolding member
  gone text unique xs = ground (arith, loop_texts (text ∷ unique) xs text, eq_refl text)

  loop-Distinct :
      (unique : List String) (xs : List A) → Distinct (texts (dedup_loop marshal unique xs))
  loop-Distinct unique [] = unfold dedup_loop in tt
  loop-Distinct unique (x ∷ xs) = elim (Option-cases (marshal x)) [
    | inl e ↦
        rw (loop_unmarshalled unique x xs e)
          (rw (texts-none x (dedup_loop marshal unique xs) e) (loop-Distinct unique xs))
    | inr (text, e) ↦ elim (Bool-cases (member text unique)) [
      | inl m ↦ rw (loop_copy unique x xs text e m) (loop-Distinct unique xs)
      | inr m ↦ rw (loop_new unique x xs text e m) (
          rw (texts-some x (dedup_loop marshal (text ∷ unique) xs) text e)
            (gone text unique xs, loop-Distinct (text ∷ unique) xs))
    ]
  ]

  loop_stable :
      (unique : List String) (xs : List A)
      → dedup_loop marshal unique (dedup_loop marshal unique xs) ≡ dedup_loop marshal unique xs
  loop_stable unique [] = unfold dedup_loop in refl
  loop_stable unique (x ∷ xs) = elim (Option-cases (marshal x)) [
    | inl e ↦
        let kept = dedup_loop marshal unique xs in
        rw (loop_unmarshalled unique x xs e)
          (loop_unmarshalled unique x kept e ∙ ap (λ l. x ∷ l) (loop_stable unique xs))
    | inr (text, e) ↦ elim (Bool-cases (member text unique)) [
      | inl m ↦ rw (loop_copy unique x xs text e m) (loop_stable unique xs)
      | inr m ↦
          let kept = dedup_loop marshal (text ∷ unique) xs in
          rw (loop_new unique x xs text e m)
            (loop_new unique x kept text e m ∙ ap (λ l. x ∷ l) (loop_stable (text ∷ unique) xs))
    ]
  ]

  -- The specs that are kept have pairwise different texts, which are those of the specs that were
  -- given, and a second pass keeps them all.
  pub dedup_analyzers-Deduplicated :
      (specs : List A) → Deduplicated specs (dedup_analyzers marshal specs)
  unfolding dedup_analyzers member
  dedup_analyzers-Deduplicated specs = record {
    distinct = loop-Distinct [] specs;
    same_texts = λ k. loop_texts [] specs k;
    stable = loop_stable [] specs;
  }
