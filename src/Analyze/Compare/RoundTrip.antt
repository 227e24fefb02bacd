-- ===== src/Analyze/Compare/RoundTrip.antt =====
-- Conditions that are printed and read back.
use Prim.Native.String.{◌++◌ as ◌⧺◌}
use troubleshoot.Prelude.{
  ℕ, ◌^◌, ◌<◌, String, ◌≡◌, ◌↔◌, refl, true, false, arith, ℤ, pos, ◌<ℤ◌, ◌≤ℤ◌,
}
use troubleshoot.Go.Result.{ok}
use troubleshoot.Go.Text.{
  is_empty, is_space, Free, EndsWell-append, trim_space-word, split-word, split-last,
}
use troubleshoot.Go.Strconv.{itoa, atoi-itoa, Free-itoa, EndsWell-itoa}
use troubleshoot.Analyze.Compare.{compare_by, compare_actual_to_when}

abbrev pub condition : String → ℕ → String
condition op n = op ⧺ " " ⧺ itoa (pos n)

-- A condition written with one blank is read as the operator and the number that were written.
pub compare_actual_to_when-condition :
    (op : String) (n : ℕ) (actual : ℤ)
    → is_empty op ≡ false
    → Free is_space op
    → n < 2 ^ 63
    → compare_actual_to_when (condition op n) actual ≡ compare_by op actual (pos n)
unfolding compare_actual_to_when
compare_actual_to_when-condition op n actual e f h =
    rw (trim_space-word op (" " ⧺ itoa (pos n)) e f (EndsWell-append " " _ (EndsWell-itoa n))) (
      rw (split-word op (itoa (pos n)) f)
        (rw (split-last (itoa (pos n)) (Free-itoa n)) (rw (atoi-itoa n h))))

-- The operators of conditions mean what they say, for every int64 that is not negative.
abbrev pub OperatorsMean : ℕ → ℤ → Type 0
OperatorsMean n actual =
    ((compare_actual_to_when (condition "=" n) actual ≡ ok true) ↔ (actual ≡ pos n))
    × ((compare_actual_to_when (condition "==" n) actual ≡ ok true) ↔ (actual ≡ pos n))
    × ((compare_actual_to_when (condition "===" n) actual ≡ ok true) ↔ (actual ≡ pos n))
    × ((compare_actual_to_when (condition "<" n) actual ≡ ok true) ↔ (actual <ℤ pos n))
    × ((compare_actual_to_when (condition ">" n) actual ≡ ok true) ↔ (pos n <ℤ actual))
    × ((compare_actual_to_when (condition "<=" n) actual ≡ ok true) ↔ (actual ≤ℤ pos n))
    × ((compare_actual_to_when (condition ">=" n) actual ≡ ok true) ↔ (pos n ≤ℤ actual))

-- Of a printed condition "op n" with n below 2^63, the seven spellings of the five operators hold
-- exactly if the actual number stands in that relation to n.
pub compare_actual_to_when_operators : (n : ℕ) (actual : ℤ) → n < 2 ^ 63 → OperatorsMean n actual
unfolding compare_by is_space
compare_actual_to_when_operators n actual h = (
  rw (compare_actual_to_when-condition "=" n actual refl (refl, tt) h) (ground arith),
  rw (compare_actual_to_when-condition "==" n actual refl (refl, (refl, tt)) h) (ground arith),
  rw (compare_actual_to_when-condition "===" n actual refl (refl, (refl, (refl, tt))) h)
      (ground arith),
  rw (compare_actual_to_when-condition "<" n actual refl (refl, tt) h) (ground arith),
  rw (compare_actual_to_when-condition ">" n actual refl (refl, tt) h) (ground arith),
  rw (compare_actual_to_when-condition "<=" n actual refl (refl, (refl, tt)) h) (ground arith),
  rw (compare_actual_to_when-condition ">=" n actual refl (refl, (refl, tt)) h) (ground arith),
)
