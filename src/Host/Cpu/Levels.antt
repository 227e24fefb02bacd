-- ===== src/Host/Cpu/Levels.antt =====
-- The flags that a CPU is asked for.
use troubleshoot.Prelude.{
  String, ◌≡◌, ◌↔◌, refl, ap, Bool, true, ◌&&◌, List, [], ◌∷◌, ◌++◌, All, arith, Bool-cases, inl,
  inr, eqb,
}
use troubleshoot.Go.Result.{ok}
use troubleshoot.Go.Text.{split, split_by_cons}
use troubleshoot.Host.Cpu.{
  v1, v2, v3, v4, has_flag, has_all, do_compare_host_cpu_micro_architecture,
  do_compare_host_cpu_flags,
}

has_all-append :
    (flags xs ys : List String) → has_all flags (xs ++ ys) ≡ (has_all flags xs && has_all flags ys)
unfolding has_all
has_all-append flags [] ys = refl
has_all-append flags (x ∷ xs) ys =
    let go = has_all-append flags xs ys in
    elim (Bool-cases (has_flag flags x)) [ inl e ↦ rw e go | inr e ↦ rw e refl ]

has_all_rest :
    (flags xs ys : List String) → has_all flags (xs ++ ys) ≡ true → has_all flags ys ≡ true
has_all_rest flags xs ys h = ground (arith, has_all-append flags xs ys)

-- Of the four levels of the architecture, a CPU that supports one supports each below it.
do_compare_host_cpu_micro_architecture_cumulative :
    (flags : List String)
    → (do_compare_host_cpu_micro_architecture "x86-64-v4" flags ≡ ok true
        → do_compare_host_cpu_micro_architecture "x86-64-v3" flags ≡ ok true)
      × (do_compare_host_cpu_micro_architecture "x86-64-v3" flags ≡ ok true
          → do_compare_host_cpu_micro_architecture "x86-64-v2" flags ≡ ok true)
      × (do_compare_host_cpu_micro_architecture "x86-64-v2" flags ≡ ok true
          → do_compare_host_cpu_micro_architecture "x86-64" flags ≡ ok true)
unfolding do_compare_host_cpu_micro_architecture
do_compare_host_cpu_micro_architecture_cumulative flags =
    (below v4 (v3 ++ (v2 ++ v1)), below v3 (v2 ++ v1), below v2 v1)
  where
    below :
        (xs ys : List String)
        → ok (has_all flags (xs ++ ys)) ≡ ok true
        → ok (has_all flags ys) ≡ ok true
    below xs ys h = ap ok (has_all_rest flags xs ys (cc h))

has_all_iff :
    (flags wanted : List String)
    → (has_all flags wanted ≡ true) ↔ All (λ f. has_flag flags f ≡ true) wanted
unfolding has_all
has_all_iff flags [] = (λ h. tt, λ a. refl)
has_all_iff flags (w ∷ ws) =
    let (there, back) = has_all_iff flags ws in
    elim (Bool-cases (has_flag flags w)) [
      | inl e ↦ (λ h. (e, there (rw e at h)), λ (a, later). rw e (back later))
      | inr e ↦ (λ h. cc (rw e at h), λ (a, later). cc (a, e))
    ]

-- The test of flags gives an answer for every text, and it is yes exactly if the CPU has each of the
-- flags between the commas.
do_compare_host_cpu_flags_iff :
    (expected : String) (flags : List String)
    → (answer : Bool) × (do_compare_host_cpu_flags expected flags ≡ ok answer)
      × ((answer ≡ true) ↔ All (λ f. has_flag flags f ≡ true) (split b',' expected))
unfolding do_compare_host_cpu_flags split
do_compare_host_cpu_flags_iff expected flags =
    let (w, ws, q) = split_by_cons (eqb b',') expected in
    (
      has_all flags (split b',' expected),
      rw (do_compare_host_cpu_flags, q) refl,
      has_all_iff flags (split b',' expected),
    )
