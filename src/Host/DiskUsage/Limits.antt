-- ===== src/Host/DiskUsage/Limits.antt =====
-- The numbers of bytes of the conditions on disks: what is available, and limits below 0.
use Prim.Native.String.{◌++◌ as ◌⧺◌}
use troubleshoot.Prelude.{
  ℕ, ◌+◌, ◌-◌, ◌^◌, ◌<◌, ◌≤◌, String, ◌≡◌, ◌↔◌, refl, ap, ◌∙◌, true, false, Option, some, [], ◌∷◌,
  arith, suc, ℤ, pos, negsuc,
}
use troubleshoot.Go.Result.{ok}
use troubleshoot.Go.Text.{is_space, Free, split, split-word, split-last, lower_is}
use troubleshoot.Host.Bytes.{
  uint64, sub_uint64, compare_uint64, uint64_pos, uint64_negsuc, sub_uint64_fits,
}
use troubleshoot.Host.DiskUsage.{
  Floats, DiskUsageInfo, known_operator, do_compare_host_disk_usage, disk_usage_parts,
  compare_host_disk_usage_conditional_to_actual,
}

-- "available <operator> <quantity>"
abbrev pub available_condition : String → String → String
available_condition operator desired = "available" ⧺ " " ⧺ (operator ⧺ " " ⧺ desired)

split_available :
    (operator desired : String)
    → Free is_space operator
    → Free is_space desired
    → split b' ' (available_condition operator desired) ≡ "available" ∷ operator ∷ desired ∷ []
unfolding is_space
split_available operator desired fo fd =
    split-word "available" (operator ⧺ " " ⧺ desired)
      (refl, (refl, (refl, (refl, (refl, (refl, (refl, (refl, (refl, tt)))))))))
    ∙ ap (λ ws. "available" ∷ ws) (split-word operator desired fo)
    ∙ ap (λ ws. "available" ∷ operator ∷ ws) (split-last desired fd)

usage_reads :
    (quantity : String → Option ℤ) (operator desired : String) (actual : ℕ) (n : ℤ)
    → quantity desired ≡ some n
    → do_compare_host_disk_usage quantity operator desired actual
      ≡ known_operator (compare_uint64 operator actual (uint64 n))
unfolding do_compare_host_disk_usage
usage_reads quantity operator desired actual n q = rw (do_compare_host_disk_usage, q) refl

available_reads :
    (quantity : String → Option ℤ) (floats : Floats) (d : DiskUsageInfo) (n : ℕ)
    (operator desired : String)
    → Free is_space operator
    → Free is_space desired
    → quantity desired ≡ some (pos n)
    → n < 2 ^ 63
    → d.total_bytes < 2 ^ 64
    → d.used_bytes ≤ d.total_bytes
    → compare_host_disk_usage_conditional_to_actual quantity floats
        (available_condition operator desired)
        d
      ≡ known_operator (compare_uint64 operator (d.total_bytes - d.used_bytes) n)
unfolding compare_host_disk_usage_conditional_to_actual lower_is
available_reads quantity floats d n operator desired fo fd q h t u =
    ap (λ parts. disk_usage_parts quantity floats parts d) (split_available operator desired fo fd)
    ∙ usage_reads quantity operator desired (sub_uint64 d.total_bytes d.used_bytes) (pos n) q
    ∙ ap (λ m. known_operator (compare_uint64 operator m (uint64 (pos n))))
        (sub_uint64_fits d.total_bytes d.used_bytes t u)
    ∙ ap (λ m. known_operator (compare_uint64 operator (d.total_bytes - d.used_bytes) m))
        (uint64_pos n h)

-- As long as no more is used than there is, the difference of the code does not wrap: for a quantity of less than 2^63
-- bytes, each condition "available <operator> <quantity>" holds exactly if the total stands so to the sum of what is used and
-- the quantity.
pub compare_host_disk_usage_conditional_to_actual_available :
    (quantity : String → Option ℤ) (floats : Floats) (d : DiskUsageInfo) (n : ℕ) (desired : String)
    → Free is_space desired
    → quantity desired ≡ some (pos n)
    → n < 2 ^ 63
    → d.total_bytes < 2 ^ 64
    → d.used_bytes ≤ d.total_bytes
    → ((compare_host_disk_usage_conditional_to_actual quantity floats
            (available_condition "<" desired)
            d
          ≡ ok true)
        ↔ (d.total_bytes < d.used_bytes + n))
      × ((compare_host_disk_usage_conditional_to_actual quantity floats
              (available_condition "<=" desired)
              d
            ≡ ok true)
          ↔ (d.total_bytes ≤ d.used_bytes + n))
      × ((compare_host_disk_usage_conditional_to_actual quantity floats
              (available_condition ">" desired)
              d
            ≡ ok true)
          ↔ (d.used_bytes + n < d.total_bytes))
      × ((compare_host_disk_usage_conditional_to_actual quantity floats
              (available_condition ">=" desired)
              d
            ≡ ok true)
          ↔ (d.used_bytes + n ≤ d.total_bytes))
      × ((compare_host_disk_usage_conditional_to_actual quantity floats
              (available_condition "=" desired)
              d
            ≡ ok true)
          ↔ (d.total_bytes ≡ d.used_bytes + n))
unfolding is_space
compare_host_disk_usage_conditional_to_actual_available quantity floats d n desired f q h t u = (
  rw (available_reads quantity floats d n "<" desired (refl, tt) f q h t u) (ground arith),
  rw (available_reads quantity floats d n "<=" desired (refl, (refl, tt)) f q h t u) (ground arith),
  rw (available_reads quantity floats d n ">" desired (refl, tt) f q h t u) (ground arith),
  rw (available_reads quantity floats d n ">=" desired (refl, (refl, tt)) f q h t u) (ground arith),
  rw (available_reads quantity floats d n "=" desired (refl, tt) f q h t u) (ground arith),
)

-- A limit below 0 wraps to a number above every size below 2^63: such a size is taken to be below the limit, and
-- not above it or equal to it.
pub do_compare_host_disk_usage_negative :
    (quantity : String → Option ℤ) (desired : String) (actual n : ℕ)
    → quantity desired ≡ some (negsuc n)
    → n < 2 ^ 63
    → actual < 2 ^ 63
    → (do_compare_host_disk_usage quantity "<" desired actual ≡ ok true)
      × (do_compare_host_disk_usage quantity "<=" desired actual ≡ ok true)
      × (do_compare_host_disk_usage quantity ">" desired actual ≡ ok false)
      × (do_compare_host_disk_usage quantity ">=" desired actual ≡ ok false)
      × (do_compare_host_disk_usage quantity "=" desired actual ≡ ok false)
do_compare_host_disk_usage_negative quantity desired actual n q h a = (
  wraps "<" ∙ ground arith,
  wraps "<=" ∙ ground arith,
  wraps ">" ∙ ground arith,
  wraps ">=" ∙ ground arith,
  wraps "=" ∙ ground arith,
)
  where
    wraps :
        (operator : String)
        → do_compare_host_disk_usage quantity operator desired actual
          ≡ known_operator (compare_uint64 operator actual (2 ^ 64 - suc n))
    wraps operator =
        usage_reads quantity operator desired actual (negsuc n) q
        ∙ ap (λ m. known_operator (compare_uint64 operator actual m)) (uint64_negsuc n h)
