-- ===== src/Dedup/Ordered.antt =====
-- The order of the collectors.
use troubleshoot.Prelude.{
  ◌≡◌, refl, ap, Bool, not, List, [], ◌∷◌, ◌++◌, select, Bool-cases, inl, inr,
}
use troubleshoot.Dedup.{sorted_out, ensure_cluster_resources_first, ensure_copy_last}

module _ {A : Type 0} (p : A → Bool) where
  sorted_out_selects : (list : List A) → (sorted_out p list).0 ≡ select p list
  sorted_out_selects [] = refl
  sorted_out_selects (x ∷ xs) =
      let go = sorted_out_selects xs in
      elim (Bool-cases (p x)) [ inl e ↦ rw e (ap (λ l. x ∷ l) go) | inr e ↦ rw e go ]

  sorted_out_others : (list : List A) → (sorted_out p list).1 ≡ select (λ x. not (p x)) list
  sorted_out_others [] = refl
  sorted_out_others (x ∷ xs) =
      let go = sorted_out_others xs in
      elim (Bool-cases (p x)) [ inl e ↦ rw e go | inr e ↦ rw e (ap (λ l. x ∷ l) go) ]

  -- The collectors of cluster resources come first and those that copy last, and within the two
  -- groups the order is that of the list.
  ensure_order :
      (list : List A)
      → (ensure_cluster_resources_first p list ≡ select p list ++ select (λ x. not (p x)) list)
        × (ensure_copy_last p list ≡ select (λ x. not (p x)) list ++ select p list)
  unfolding ensure_cluster_resources_first ensure_copy_last
  ensure_order list = rw (sorted_out_selects list, sorted_out_others list) (refl, refl)
