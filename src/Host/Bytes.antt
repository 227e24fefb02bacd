-- ===== src/Host/Bytes.antt =====
-- What the analyzers of memory and of disks share (pkg/analyze/host_memory.go and
-- host_disk_usage.go): the arithmetic of uint64 and the comparison with a quantity.
use troubleshoot.Prelude.{
  ℕ, ◌+◌, ◌-◌, ◌%◌, ◌^◌, ◌<◌, ◌≤◌, String, ◌≡◌, Bool, ◌||◌, Option, none, some, ◌==◌, if◌then◌else◌,
  ltb, leb, eqb, ℤ, pos, negsuc, suc, arith,
}

-- the conversion of an int64
unfoldable pub uint64 : ℤ → ℕ
uint64 (pos n) = n % 2 ^ 64
uint64 (negsuc n) = (2 ^ 64 - suc n % 2 ^ 64) % 2 ^ 64

-- the difference of two uint64, which wraps
unfoldable pub sub_uint64 : ℕ → ℕ → ℕ
sub_uint64 a b = (a + (2 ^ 64 - b % 2 ^ 64)) % 2 ^ 64

-- the switch on the operator, with no case for one that is not known
abbrev pub compare_uint64 : String → ℕ → ℕ → Option Bool
compare_uint64 operator actual desired =
    if operator == "<"
    then some (ltb actual desired)
    else if operator == "<="
    then some (leb actual desired)
    else if operator == ">"
    then some (ltb desired actual)
    else if operator == ">="
    then some (leb desired actual)
    else if operator == "=" || operator == "==" || operator == "==="
    then some (eqb actual desired)
    else none

pub uint64_pos : (n : ℕ) → n < 2 ^ 63 → uint64 (pos n) ≡ n
unfolding uint64
uint64_pos n h = omega arith

pub uint64_negsuc : (n : ℕ) → n < 2 ^ 63 → uint64 (negsuc n) ≡ 2 ^ 64 - suc n
unfolding uint64
uint64_negsuc n h = omega arith

pub sub_uint64_fits : (a b : ℕ) → a < 2 ^ 64 → b ≤ a → sub_uint64 a b ≡ a - b
unfolding sub_uint64
sub_uint64_fits a b h k = omega arith
