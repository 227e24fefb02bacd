-- ===== src/Nodes/Aggregate/Extreme.antt =====
-- The least and the greatest quantity.
use mathlib.Core.Path.{subst}
use Prim.Native.Nat.{Ordering}
use troubleshoot.Prelude.{
  String, Bool, true, false, ◌≡◌, ◌≢◌, refl, sym, Option, none, some, List, [], ◌∷◌, All, Any, inl,
  inr, ◌⊎◌, Bool-cases,
}
use troubleshoot.Nodes.{Quantities, OrderLaws, Node}
use troubleshoot.Nodes.Filter.{is_lt}
use troubleshoot.Nodes.Aggregate.{is_gt, quantities_of, best_from, find_min, find_max}

-- `a` is not above `b`
abbrev pub NotAbove : {Q : Type 0} → Quantities Q → Q → Q → Type 0
NotAbove quantities a b = quantities.cmp b a ≢ Ordering.lt

-- `best` is one of the quantities and stands in the relation to each, or there is none
abbrev pub IsBest : {Q : Type 0} → (Q → Q → Type 0) → Option Q → List Q → Type 0
IsBest Below none qs = qs ≡ []
IsBest Below (some best) qs = Any (λ q. best ≡ q) qs × All (Below best) qs

module _ {Q : Type 0} (quantities : Quantities Q) (laws : OrderLaws quantities) where
  not_lt : (o : Ordering) → is_lt o ≡ false → o ≢ Ordering.lt
  not_lt Ordering.lt h e = cc h
  not_lt Ordering.eq h e = cc e
  not_lt Ordering.gt h e = cc e

  lt_of : (o : Ordering) → is_lt o ≡ true → o ≡ Ordering.lt
  lt_of Ordering.lt h = refl
  lt_of Ordering.eq h = cc h
  lt_of Ordering.gt h = cc h

  gt_of : (o : Ordering) → is_gt o ≡ true → o ≡ Ordering.gt
  gt_of Ordering.gt h = refl
  gt_of Ordering.eq h = cc h
  gt_of Ordering.lt h = cc h

  not_gt : (o : Ordering) → is_gt o ≡ false → o ≢ Ordering.gt
  not_gt Ordering.gt h e = cc h
  not_gt Ordering.eq h e = cc e
  not_gt Ordering.lt h e = cc e

  self : (a : Q) → NotAbove quantities a a
  self a e = laws.cmp_asym a a e e

  -- A relation that holds of the better one against the worse one.
  record IsDecided (better : Ordering → Bool) (Below : Q → Q → Type 0) : Type 0 where
    reflexive : (a : Q) → Below a a
    transitive : (a b c : Q) → Below a b → Below b c → Below a c
    taken : (q best : Q) → better (quantities.cmp q best) ≡ true → Below q best
    left : (q best : Q) → better (quantities.cmp q best) ≡ false → Below best q

  from_some :
      (better : Ordering → Bool) (Below : Q → Q → Type 0)
      → IsDecided better Below
      → (best : Q) (qs : List Q)
      → (m : Q) × (best_from quantities better (some best) qs ≡ some m)
        × ((m ≡ best) ⊎ Any (λ q. m ≡ q) qs)
        × Below m best
        × All (Below m) qs
  unfolding best_from
  from_some better Below d best [] = (best, refl, inl refl, d.reflexive best, tt)
  from_some better Below d best (q ∷ qs) =
      let (m, e, from, below, all) = from_some better Below d q qs in
      let (m', e', from', below', all') = from_some better Below d best qs in
      elim (Bool-cases (better (quantities.cmp q best))) [
        | inl b ↦
            rw b (m, e, inr from, d.transitive m q best below (d.taken q best b), (below, all))
        | inr b ↦ rw b (
          m',
          e',
          elim from' [ inl s ↦ inl s | inr s ↦ inr (inr s) ],
          below',
          (d.transitive m' best q below' (d.left q best b), all'),
        )
      ]

  best_from-IsBest :
      (better : Ordering → Bool) (Below : Q → Q → Type 0)
      → IsDecided better Below
      → (qs : List Q) → IsBest Below (best_from quantities better none qs) qs
  unfolding best_from
  best_from-IsBest better Below d [] = refl
  best_from-IsBest better Below d (q ∷ qs) =
      let (m, e, from, below, all) = from_some better Below d q qs in
      subst (λ o. IsBest Below o (q ∷ qs)) (sym e) (from, (below, all))

  is_lt-IsDecided : IsDecided is_lt (NotAbove quantities)
  is_lt-IsDecided = record {
    reflexive = self;
    transitive = λ a b c h k. laws.cmp_trans a b c h k;
    taken = λ q best b. laws.cmp_asym q best (lt_of (quantities.cmp q best) b);
    left = λ q best b. not_lt (quantities.cmp q best) b;
  }

  is_gt-IsDecided : IsDecided is_gt (λ a b. NotAbove quantities b a)
  is_gt-IsDecided = record {
    reflexive = self;
    transitive = λ a b c h k. laws.cmp_trans c b a k h;
    taken = λ q best b e.
        laws.cmp_asym q best e (laws.cmp_mirror q best (gt_of (quantities.cmp q best) b));
    left = λ q best b e. not_gt (quantities.cmp q best) b (laws.cmp_mirror_lt best q e);
  }

  module _ {Taint Labels : Type 0} where
    -- If Cmp is a total order, the least quantity is that of one of the nodes and not above that of
    -- any, and the greatest is that of one of the nodes and not below that of any. There is none
    -- exactly if no node has the quantity.
    pub find_min_max-IsBest :
        (nodes : List (Node Q Taint Labels)) (property name : String)
        → IsBest
            (NotAbove quantities)
            (find_min quantities nodes property name)
            (quantities_of quantities property name nodes)
          × IsBest
              (λ a b. NotAbove quantities b a)
              (find_max quantities nodes property name)
              (quantities_of quantities property name nodes)
    unfolding find_min find_max
    find_min_max-IsBest nodes property name = (
      best_from-IsBest is_lt (NotAbove quantities) is_lt-IsDecided
          (quantities_of quantities property name nodes),
      best_from-IsBest is_gt (λ a b. NotAbove quantities b a) is_gt-IsDecided
          (quantities_of quantities property name nodes),
    )
