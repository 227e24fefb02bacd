-- ===== src/Schedule/Cron/Fires.antt =====
-- Which values a validated cron field matches.
use Prim.Native.String.{◌++◌ as ◌⧺◌}
use troubleshoot.Prelude.{
  ℕ, zero, suc, ◌≤◌, ◌<◌, ◌^◌, String, ◌≡◌, refl, ◌⊎◌, inl, inr, true, false, none, some, List, ◌∷◌,
  ◌==◌, arith, ℤ, pos, negsuc, Option-cases, Bool-cases, ne→eq_false, ap, eqb,
}
use native.Mathlib.Decide.{dec_le}
use native.Mathlib.Nat.{mod-eq_of_lt, mod_self}
use troubleshoot.Go.Result.{Result, ok, err, panic, ◌>>=◌}
use troubleshoot.Go.Text.{after_prefix, after_prefix-append, split, split_by_cons, trim_space}
use troubleshoot.Go.Strconv.{atoi, itoa, atoi-itoa}
use troubleshoot.Schedule.Cron.{
  in_range, all_in_range, positive, interval_field, divides, equals, some_equals,
  validate_cron_field, matches_cron_field,
}

-- a value of the range that the field matches
abbrev pub Fires : String → ℕ → ℕ → Type 0
Fires field min max = (v : ℕ) × (min ≤ v) × (v ≤ max) × (matches_cron_field field v ≡ true)

-- a field "*/N" that matches no value of the range
abbrev pub NeverFires : String → ℕ → ℕ → Type 0
NeverFires field min max =
    (interval : String) × (i : ℕ) × (after_prefix "*/" field ≡ some interval)
    × (atoi interval ≡ ok (pos i))
    × (max < i)
    × ((v : ℕ) → min ≤ v → v ≤ max → matches_cron_field field v ≡ false)

in_range_value :
    (min max : ℕ) (name val : String) (r : Result ℤ)
    → in_range min max name val r ≡ ok tt
    → (v : ℕ) × (r ≡ ok (pos v)) × (min ≤ v) × (v ≤ max)
unfolding in_range
in_range_value min max name val (ok (pos v)) h = (v, refl, ground arith, ground arith)
in_range_value min max name val (ok (negsuc v)) h = absurd (ground arith)
in_range_value min max name val (err e) h = cc
in_range_value min max name val (panic s) h = cc

first_ok : (m : Result (Unit {0})) (k : Result (Unit {0})) → (m >>= λ _. k) ≡ ok tt → m ≡ ok tt
first_ok (ok u) k h = refl
first_ok (err e) k h = cc
first_ok (panic s) k h = cc

all_in_range_value :
    (min max : ℕ) (name val : String) (rest : List String)
    → all_in_range min max name (val ∷ rest) ≡ ok tt
    → (v : ℕ) × (min ≤ v) × (v ≤ max) × (some_equals v (val ∷ rest) ≡ true)
unfolding all_in_range some_equals equals
all_in_range_value min max name val rest h =
    let (v, e, lo, hi) =
      in_range_value min max name (trim_space val) (atoi (trim_space val)) (first_ok _ _ h) in
    (v, lo, hi, rw e (ground arith))

list-Fires :
    (field name : String) (min max : ℕ)
    → (field == "*") ≡ false
    → after_prefix "*/" field ≡ none
    → validate_cron_field field min max name ≡ ok tt
    → Fires field min max
unfolding validate_cron_field matches_cron_field split
list-Fires field name min max e p h =
    let (w, ws, q) = split_by_cons (eqb b',') field in
    let parts : all_in_range min max name (split b',' field) ≡ ok tt = rw (e, p) at h in
    let (v, lo, hi, m) = all_in_range_value min max name w ws (rw q at parts) in
    (v, lo, hi, rw (e, p) (rw q m))

interval_value :
    (name interval : String) (r : Result ℤ)
    → positive r ≡ true
    → (i : ℕ) × (r ≡ ok (pos i)) × (0 < i)
unfolding positive
interval_value name interval (ok (pos i)) h = (i, refl, ground arith)
interval_value name interval (ok (negsuc i)) h = absurd (ground arith)
interval_value name interval (err e) h = cc
interval_value name interval (panic s) h = cc

divides_small : (v i : ℕ) → 1 ≤ v → v < i → divides v (ok (pos i)) ≡ false
unfolding divides
divides_small v i h k = ground (arith, mod-eq_of_lt k)

divides_zero : (i : ℕ) → 0 < i → divides 0 (ok (pos i)) ≡ true
unfolding divides
divides_zero i h = ground arith

divides_self : (i : ℕ) → 0 < i → divides i (ok (pos i)) ≡ true
unfolding divides
divides_self i h = ground (arith, mod_self i)

interval-Fires :
    (field interval : String) (min max i : ℕ)
    → min ≤ 1
    → min ≤ max
    → (field == "*") ≡ false
    → after_prefix "*/" field ≡ some interval
    → atoi interval ≡ ok (pos i)
    → 0 < i
    → Fires field min max ⊎ ((1 ≤ min) × NeverFires field min max)
unfolding matches_cron_field
interval-Fires field interval zero max i lo h e p a z =
    inl (0, omega arith, omega arith, rw (e, p) (rw a (divides_zero i z)))
interval-Fires field interval (suc m) max i lo h e p a z = elim (dec_le i max) [
  | yes small ↦ inl (i, omega arith, small, rw (e, p) (rw a (divides_self i z)))
  | no large ↦ inr (
    omega arith,
    (
      interval,
      i,
      p,
      a,
      omega arith,
      λ v vlo vhi. rw (e, p) (rw a (divides_small v i (omega arith) (omega arith))),
    ),
  )
]

-- A field that the validator accepts matches some value of its range, unless it is "*/N" with N
-- above a range that does not begin at 0; then it matches no value of the range. This is so for
-- every range that begins at 0 or 1, as those of the five fields do.
pub validate_cron_field-Fires :
    (field name : String) (min max : ℕ)
    → min ≤ 1
    → min ≤ max
    → validate_cron_field field min max name ≡ ok tt
    → Fires field min max ⊎ ((1 ≤ min) × NeverFires field min max)
unfolding validate_cron_field interval_field
validate_cron_field-Fires field name min max lo h valid = elim (Bool-cases (field == "*")) [
  | inl e ↦ inl (min, omega arith, h, unfold matches_cron_field in rw e)
  | inr e ↦ elim (Option-cases (after_prefix "*/" field)) [
    | inl p ↦ inl (list-Fires field name min max e p valid)
    | inr (interval, p) ↦
        let (i, a, z) = interval_value name interval (atoi interval) (ground arith) in
        interval-Fires field interval min max i lo h e p a z
  ]
]

interval_field_not_star : (s : String) → (("*/" ⧺ s) == "*") ≡ false
unfolding after_prefix
interval_field_not_star s =
    ne→eq_false ("*/" ⧺ s) "*" λ q. cc (after_prefix-append "*/" s, ap (after_prefix "*/") q)

-- An interval above a range that begins at 1 or later is accepted, and never fires: for every such
-- range and every number n above its end and below 2^63, the validator accepts the field "*/n" and
-- no value of the range matches it.
pub validate_cron_field_never :
    (name : String) (min max n : ℕ)
    → 1 ≤ min
    → max < n
    → n < 2 ^ 63
    → (validate_cron_field ("*/" ⧺ itoa (pos n)) min max name ≡ ok tt)
      × ((v : ℕ) → min ≤ v → v ≤ max → matches_cron_field ("*/" ⧺ itoa (pos n)) v ≡ false)
unfolding validate_cron_field interval_field positive matches_cron_field
validate_cron_field_never name min max n lo hi small =
    let e = interval_field_not_star (itoa (pos n)) in
    let p = after_prefix-append "*/" (itoa (pos n)) in
    (
      rw (e, p) (rw (atoi-itoa n small) (ground arith)),
      λ v vlo vhi.
          rw (e, p) (rw (atoi-itoa n small) (divides_small v n (omega arith) (omega arith))),
    )
