-- ===== src/Analyze/Job/Condition.antt =====
-- The conditions of job outcomes, printed and read back.
use Prim.Native.String.{◌++◌ as ◌⧺◌}
use troubleshoot.Prelude.{
  ℕ, ◌+◌, ◌*◌, ◌^◌, ◌<◌, String, ◌≡◌, ◌↔◌, refl, sym, ◌∙◌, true, false, arith, pos, ◌<ℤ◌,
  to_int32_wraps, to_int32_fits,
}
use troubleshoot.Go.Result.{ok}
use troubleshoot.Go.Text.{
  is_empty, is_space, Free, EndsWell-append, trim_space-word, split-word, split-last,
}
use troubleshoot.Go.Strconv.{itoa, atoi-itoa, Free-itoa, EndsWell-itoa}
use troubleshoot.Analyze.Compare.{compare_by}
use troubleshoot.Analyze.Job.{Job, by_counter, three_parts, compare_job_status_to_when}

abbrev pub job_condition : String → String → ℕ → String
job_condition counter op n = counter ⧺ " " ⧺ op ⧺ " " ⧺ itoa (pos n)

compare_job-condition :
    (counter op : String) (n : ℕ) (job : Job)
    → is_empty counter ≡ false
    → Free is_space counter
    → Free is_space op
    → n < 2 ^ 63
    → compare_job_status_to_when (job_condition counter op n) job
      ≡ by_counter job counter op (pos n)
unfolding compare_job_status_to_when three_parts
compare_job-condition counter op n job e fc fo h =
    rw
      (trim_space-word counter (" " ⧺ op ⧺ " " ⧺ itoa (pos n)) e fc
        (EndsWell-append " " _ (EndsWell-append op _ (EndsWell-append " " _ (EndsWell-itoa n)))))
      (rw (split-word counter (op ⧺ " " ⧺ itoa (pos n)) fc) (
        rw (split-word op (itoa (pos n)) fo)
          (rw (split-last (itoa (pos n)) (Free-itoa n)) (rw (atoi-itoa n h)))))

by_counter_wraps :
    (counter op : String) (n k : ℕ) (job : Job)
    → by_counter job counter op (pos (n + k * 2 ^ 32)) ≡ by_counter job counter op (pos n)
unfolding by_counter
by_counter_wraps counter op n k job = rw (to_int32_wraps n k)

-- The number of a job condition is compared as an int32: adding a multiple of 2^32 to it changes
-- nothing, as long as it is an int64.
compare_job_status_to_when_wraps :
    (counter op : String) (n k : ℕ) (job : Job)
    → is_empty counter ≡ false
    → Free is_space counter
    → Free is_space op
    → n + k * 2 ^ 32 < 2 ^ 63
    → compare_job_status_to_when (job_condition counter op (n + k * 2 ^ 32)) job
      ≡ compare_job_status_to_when (job_condition counter op n) job
compare_job_status_to_when_wraps counter op n k job e fc fo h =
    compare_job-condition counter op (n + k * 2 ^ 32) job e fc fo h
    ∙ by_counter_wraps counter op n k job
    ∙ sym (compare_job-condition counter op n job e fc fo (omega arith))

-- Of a number below 2^31 the condition "succeeded > n" says that more than n pods succeeded, and
-- "failed > n" that more than n failed.
compare_job_status_to_when_above :
    (n : ℕ) (job : Job)
    → n < 2 ^ 31
    → ((compare_job_status_to_when (job_condition "succeeded" ">" n) job ≡ ok true)
        ↔ (pos n <ℤ job.succeeded))
      × ((compare_job_status_to_when (job_condition "failed" ">" n) job ≡ ok true)
          ↔ (pos n <ℤ job.failed))
unfolding by_counter compare_by is_space
compare_job_status_to_when_above n job h = (
  rw (compare_job-condition "succeeded" ">" n job refl (ground arith) (refl, tt) (omega arith))
      (rw (to_int32_fits (pos n) (omega arith)) (ground arith)),
  rw (compare_job-condition "failed" ">" n job refl (ground arith) (refl, tt) (omega arith))
      (rw (to_int32_fits (pos n) (omega arith)) (ground arith)),
)
