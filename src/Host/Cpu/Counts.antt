-- ===== src/Host/Cpu/Counts.antt =====
-- What the conditions on the number of CPUs say.
use Prim.Native.String.{◌++◌ as ◌⧺◌}
use troubleshoot.Prelude.{
  ℕ, ◌^◌, ◌<◌, String, ◌≡◌, ◌↔◌, ◌⊎◌, refl, Bool, true, false, not, [], ◌∷◌, if◌then◌else◌, arith,
  ℤ, pos, ◌<ℤ◌, ltb_ℤ,
}
use troubleshoot.Go.Result.{Result, ok, err, panic, wrap, map_result, ◌>>=◌}
use troubleshoot.Go.Text.{is_space, Free, split, split-word, split-last, lower_is}
use troubleshoot.Go.Strconv.{atoi, itoa, atoi-itoa, Free-itoa}
use troubleshoot.Host.Cpu.{
  CpuInfo, cpu_operator, do_compare_host_cpu, compare_host_cpu_conditional_to_actual,
}

-- "count op n"
abbrev pub count_condition : String → ℕ → String
count_condition op n = "count" ⧺ " " ⧺ (op ⧺ " " ⧺ itoa (pos n))

split_count :
    (op : String) (n : ℕ)
    → Free is_space op
    → split b' ' (count_condition op n) ≡ "count" ∷ op ∷ itoa (pos n) ∷ []
unfolding is_space
split_count op n f =
    rw (split-word "count" (op ⧺ " " ⧺ itoa (pos n)) (refl, (refl, (refl, (refl, (refl, tt))))))
      (rw (split-word op (itoa (pos n)) f) (rw (split-last (itoa (pos n)) (Free-itoa n)) refl))

-- The condition asks of the larger of the two counts.
larger : CpuInfo → ℤ
larger cpu =
    if ltb_ℤ cpu.logical_count cpu.physical_count then cpu.physical_count else cpu.logical_count

compare_count :
    (op : String) (n : ℕ) (cpu : CpuInfo)
    → Free is_space op
    → n < 2 ^ 63
    → lower_is op "supports" ≡ false
    → lower_is op "hasflags" ≡ false
    → compare_host_cpu_conditional_to_actual (count_condition op n) cpu
      ≡ cpu_operator op (pos n) (larger cpu)
unfolding compare_host_cpu_conditional_to_actual lower_is do_compare_host_cpu larger
compare_count op n cpu f h s k = rw (split_count op n f) (rw (s, k) (rw (atoi-itoa n h) refl))

-- For a number n below 2^63, the condition "count > n" holds exactly if the number of logical or
-- that of physical CPUs is above n, and "count < n" exactly if both are below n.
compare_host_cpu_conditional_to_actual_count :
    (n : ℕ) (cpu : CpuInfo)
    → n < 2 ^ 63
    → ((compare_host_cpu_conditional_to_actual (count_condition ">" n) cpu ≡ ok true)
        ↔ ((pos n <ℤ cpu.logical_count) ⊎ (pos n <ℤ cpu.physical_count)))
      × ((compare_host_cpu_conditional_to_actual (count_condition "<" n) cpu ≡ ok true)
          ↔ ((cpu.logical_count <ℤ pos n) × (cpu.physical_count <ℤ pos n)))
unfolding cpu_operator lower_is is_space larger
compare_host_cpu_conditional_to_actual_count n cpu h = (
  rw (compare_count ">" n cpu (refl, tt) h refl refl) (ground arith),
  rw (compare_count "<" n cpu (refl, tt) h refl refl) (ground arith),
)

-- `f` and `g` give opposite answers, or the same error.
opposite :
    (r : Result ℤ) (f g : ℤ → Result Bool)
    → ((v : ℤ) → f v ≡ map_result not (g v))
    → (wrap "failed to parse" r >>= f) ≡ map_result not (wrap "failed to parse" r >>= g)
opposite (ok v) f g h = h v
opposite (err e) f g h = refl
opposite (panic s) f g h = refl

-- For every text and every number, "<" answers the opposite of ">=", ">" that of "<=", and "!="
-- that of "=", and where the text is no number the answers are the same error.
do_compare_host_cpu_opposite :
    (desired : String) (actual : ℤ)
    → (do_compare_host_cpu "<" desired actual
        ≡ map_result not (do_compare_host_cpu ">=" desired actual))
      × (do_compare_host_cpu ">" desired actual
          ≡ map_result not (do_compare_host_cpu "<=" desired actual))
      × (do_compare_host_cpu "!=" desired actual
          ≡ map_result not (do_compare_host_cpu "=" desired actual))
unfolding do_compare_host_cpu cpu_operator
do_compare_host_cpu_opposite desired actual = (
  opposite (atoi desired) (λ v. cpu_operator "<" v actual) (λ v. cpu_operator ">=" v actual)
      (λ v. ground arith),
  opposite (atoi desired) (λ v. cpu_operator ">" v actual) (λ v. cpu_operator "<=" v actual)
      (λ v. ground arith),
  opposite (atoi desired) (λ v. cpu_operator "!=" v actual) (λ v. cpu_operator "=" v actual)
      (λ v. ground arith),
)
