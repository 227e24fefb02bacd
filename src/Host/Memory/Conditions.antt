-- ===== src/Host/Memory/Conditions.antt =====
-- What the conditions on memory say.
use Prim.Native.String.{◌++◌ as ◌⧺◌}
use troubleshoot.Prelude.{
  ℕ, ◌^◌, ◌<◌, ◌≤◌, String, ◌≡◌, ◌↔◌, refl, ap, ◌∙◌, true, Option, some, ◌∷◌, arith, ℤ, pos,
}
use troubleshoot.Go.Result.{ok}
use troubleshoot.Go.Text.{is_space, Free, split-word, split-last}
use troubleshoot.Host.Bytes.{compare_uint64, uint64_pos}
use troubleshoot.Host.Memory.{compared, compare_desired, memory_parts, check_memory}

check_memory_reads :
    (quantity : String → Option ℤ) (total n : ℕ) (operator desired : String)
    → Free is_space operator
    → Free is_space desired
    → quantity desired ≡ some (pos n)
    → n < 2 ^ 63
    → check_memory quantity total (operator ⧺ " " ⧺ desired)
      ≡ compared operator (compare_uint64 operator total n)
unfolding check_memory
check_memory_reads quantity total n operator desired fo fd q h =
    ap (λ parts. memory_parts quantity parts total)
      (split-word operator desired fo ∙ ap (λ ws. operator ∷ ws) (split-last desired fd))
    ∙ ap (compare_desired total operator desired) q
    ∙ ap (λ m. compared operator (compare_uint64 operator total m)) (uint64_pos n h)

-- For a quantity of less than 2^63 bytes, written with no blank, each condition "<operator> <quantity>" holds of a total
-- exactly if the total stands so to that number of bytes.
pub check_memory_operators :
    (quantity : String → Option ℤ) (total n : ℕ) (desired : String)
    → Free is_space desired
    → quantity desired ≡ some (pos n)
    → n < 2 ^ 63
    → ((check_memory quantity total ("<" ⧺ " " ⧺ desired) ≡ ok true) ↔ (total < n))
      × ((check_memory quantity total ("<=" ⧺ " " ⧺ desired) ≡ ok true) ↔ (total ≤ n))
      × ((check_memory quantity total (">" ⧺ " " ⧺ desired) ≡ ok true) ↔ (n < total))
      × ((check_memory quantity total (">=" ⧺ " " ⧺ desired) ≡ ok true) ↔ (n ≤ total))
      × ((check_memory quantity total ("=" ⧺ " " ⧺ desired) ≡ ok true) ↔ (total ≡ n))
unfolding is_space
check_memory_operators quantity total n desired f q h = (
  rw (check_memory_reads quantity total n "<" desired (refl, tt) f q h) (ground arith),
  rw (check_memory_reads quantity total n "<=" desired (refl, (refl, tt)) f q h) (ground arith),
  rw (check_memory_reads quantity total n ">" desired (refl, tt) f q h) (ground arith),
  rw (check_memory_reads quantity total n ">=" desired (refl, (refl, tt)) f q h) (ground arith),
  rw (check_memory_reads quantity total n "=" desired (refl, tt) f q h) (ground arith),
)
