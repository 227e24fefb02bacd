-- ===== src/Go/Maps.antt =====
-- Go's maps with text keys, as association lists in which the first entry of a key counts. The order
-- of the entries stands for the order in which a range loop takes them.
use troubleshoot.Prelude.{
  String, ◌≡◌, false, Option, none, some, List, [], ◌∷◌, arith, if◌then◌else◌, ◌==◌, eq_iff,
  Bool-cases, inl, inr, ap, ◌⊎◌,
}

abbrev pub Map {ℓ} : Type ℓ → Type ℓ
Map V = List (String × V)

module _ {ℓ} {V : Type ℓ} where
  -- `v, exists := m[key]`
  unfoldable pub lookup : String → Map V → Option V
  lookup key [] = none
  lookup key ((k, v) ∷ m) = if k == key then some v else lookup key m

  -- `m[key] = value`
  unfoldable pub store : String → V → Map V → Map V
  store key v [] = (key, v) ∷ []
  store key v ((k, w) ∷ m) =
      let rest = store key v m in if k == key then (k, v) ∷ m else (k, w) ∷ rest

  -- `m[key]`, with the zero value for a key that is missing
  unfoldable pub lookup_or : V → String → Map V → V
  unfolding lookup
  lookup_or zero_value key m = elim (lookup key m) [ none ↦ zero_value | some v ↦ v ]

  pub lookup-store_self : (key : String) (v : V) (m : Map V) → lookup key (store key v m) ≡ some v
  unfolding lookup store
  lookup-store_self key v [] = ground (arith, eq_iff key key)
  lookup-store_self key v ((k, w) ∷ m) = ground (arith, lookup-store_self key v m)

  pub lookup-store_other :
      (key k : String) (v : V) (m : Map V)
      → (key == k) ≡ false
      → lookup k (store key v m) ≡ lookup k m
  unfolding lookup store
  lookup-store_other key k v [] h = ground arith
  lookup-store_other key k v ((l, w) ∷ m) h =
      ground (arith, lookup-store_other key k v m h, eq_iff l key, eq_iff l k, eq_iff key k)

  -- What a key holds after a store is the new value, or what it held before.
  pub store-inv :
      (key k : String) (v w : V) (m : Map V)
      → lookup k (store key v m) ≡ some w
      → ((key ≡ k) × (v ≡ w)) ⊎ (((key == k) ≡ false) × (lookup k m ≡ some w))
  store-inv key k v w m h = elim (Bool-cases (key == k)) [
    | inl e ↦
        let same = (eq_iff key k).0 e in
        inl (same, cc (lookup-store_self key v m, ap (λ x. lookup x (store key v m)) same, h))
    | inr e ↦ inr (e, cc (lookup-store_other key k v m e, h))
  ]

  -- A store leaves no key without a value.
  pub store_missing :
      (key k : String) (v : V) (m : Map V)
      → lookup k (store key v m) ≡ none
      → ((key == k) ≡ false) × (lookup k m ≡ none)
  store_missing key k v m h = elim (Bool-cases (key == k)) [
    | inl e ↦
        let same = (eq_iff key k).0 e in
        absurd (cc (lookup-store_self key v m, ap (λ x. lookup x (store key v m)) same, h))
    | inr e ↦ (e, cc (lookup-store_other key k v m e, h))
  ]
