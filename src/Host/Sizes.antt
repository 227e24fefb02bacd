-- ===== src/Host/Sizes.antt =====
-- Runs of the analyzers of memory, of disks and of services on small inputs, and their theorems at those inputs.
use troubleshoot.Prelude.{
  List, [], ◌∷◌, ℕ, ◌/◌, ◌<◌, ◌≤◌, String, ◌≡◌, ◌↔◌, refl, true, false, Option, none, some, ◌==◌,
  if◌then◌else◌, arith, ltb, leb, eqb, ℤ, pos, negsuc,
}
use troubleshoot.Go.Result.{ok, err, message}
use troubleshoot.Go.Text.{is_space}
use troubleshoot.Host.Memory.{check_memory}
use troubleshoot.Host.Memory.Conditions.{check_memory_operators}
use troubleshoot.Host.Services.{ServiceInfo, compare_host_services_conditional_to_actual}
use troubleshoot.Host.DiskUsage.{
  Floats, DiskUsageInfo, do_compare_host_disk_usage, do_compare_host_disk_usage_percent,
  compare_host_disk_usage_conditional_to_actual,
}
use troubleshoot.Host.DiskUsage.Limits.{
  compare_host_disk_usage_conditional_to_actual_available, do_compare_host_disk_usage_negative,
}

abbrev sizes : String → Option ℤ
sizes s = if s == "1Ki" then some (pos 1024) else if s == "-1" then some (negsuc 0) else none

-- whole numbers in place of floats
abbrev wholes : Floats
wholes = record {
  Float = ℕ;
  of_uint64 = λ n. n;
  divided = λ a b. a / b;
  below = λ a b. ltb a b;
  at_most = λ a b. leb a b;
  same_float = λ a b. eqb a b;
  parse_float = λ s. err (message s);
}

abbrev total : ℕ
total = 2000

abbrev disk : DiskUsageInfo
disk = record { total_bytes = 4000; used_bytes = 3000 }

compare_host_disk_usage_conditional_to_actual_available_example :
    ((compare_host_disk_usage_conditional_to_actual sizes wholes "available < 1Ki" disk ≡ ok true)
      ↔ (4000 < 4024))
    × ((compare_host_disk_usage_conditional_to_actual sizes wholes "available <= 1Ki" disk
          ≡ ok true)
        ↔ (4000 ≤ 4024))
    × ((compare_host_disk_usage_conditional_to_actual sizes wholes "available > 1Ki" disk ≡ ok true)
        ↔ (4024 < 4000))
    × ((compare_host_disk_usage_conditional_to_actual sizes wholes "available >= 1Ki" disk
          ≡ ok true)
        ↔ (4024 ≤ 4000))
    × ((compare_host_disk_usage_conditional_to_actual sizes wholes "available = 1Ki" disk ≡ ok true)
        ↔ (disk.total_bytes ≡ 4024))
unfolding is_space
compare_host_disk_usage_conditional_to_actual_available_example =
    compare_host_disk_usage_conditional_to_actual_available sizes wholes disk 1024 "1Ki"
      (refl, (refl, (refl, tt))) refl (ground arith) (ground arith) (ground arith)

do_compare_host_disk_usage_negative_example :
    (do_compare_host_disk_usage sizes "<" "-1" 4000 ≡ ok true)
    × (do_compare_host_disk_usage sizes "<=" "-1" 4000 ≡ ok true)
    × (do_compare_host_disk_usage sizes ">" "-1" 4000 ≡ ok false)
    × (do_compare_host_disk_usage sizes ">=" "-1" 4000 ≡ ok false)
    × (do_compare_host_disk_usage sizes "=" "-1" 4000 ≡ ok false)
do_compare_host_disk_usage_negative_example =
    do_compare_host_disk_usage_negative sizes "-1" 4000 0 refl (ground arith) (ground arith)

-- The share of the used bytes takes a percent sign off before it is parsed.
percent_parsed :
    do_compare_host_disk_usage_percent
      (record wholes { parse_float = λ s. if s == "80" then ok 8000 else err (message s) })
      ">"
      "80%"
      81
    ≡ ok true
unfolding do_compare_host_disk_usage_percent
percent_parsed = refl

check_memory_operators_example :
    ((check_memory sizes total "< 1Ki" ≡ ok true) ↔ (2000 < 1024))
    × ((check_memory sizes total "<= 1Ki" ≡ ok true) ↔ (2000 ≤ 1024))
    × ((check_memory sizes total "> 1Ki" ≡ ok true) ↔ (1024 < 2000))
    × ((check_memory sizes total ">= 1Ki" ≡ ok true) ↔ (1024 ≤ 2000))
    × ((check_memory sizes total "= 1Ki" ≡ ok true) ↔ (total ≡ 1024))
unfolding is_space
check_memory_operators_example =
    check_memory_operators sizes total 1024 "1Ki" (refl, (refl, (refl, tt))) refl (ground arith)

abbrev services : List ServiceInfo
services =
    record { unit_name = "sshd.service"; load = "loaded"; active = "active"; sub = "running" }
    ∷ record { unit_name = "cron.service"; load = "loaded"; active = "inactive"; sub = "dead" }
    ∷ []

cron_inactive : compare_host_services_conditional_to_actual "cron = inactive,*" services ≡ ok true
unfolding compare_host_services_conditional_to_actual
cron_inactive = refl
