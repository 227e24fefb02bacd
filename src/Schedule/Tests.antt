-- ===== src/Schedule/Tests.antt =====
-- Runs of the scheduler on small inputs, and its theorems at those inputs.
use Prim.Native.String.{◌++◌ as ◌⧺◌}
use troubleshoot.Prelude.{
  member, ℕ, ◌≤◌, ◌≡◌, ◌⊎◌, inl, refl, true, false, none, some, [], ◌∷◌, arith, pos, length,
}
use troubleshoot.Go.Result.{ok}
use troubleshoot.Go.Strconv.{itoa, atoi}
use troubleshoot.Go.Text.{byte_length, fields, after_prefix, split, trim_space, contains}
use troubleshoot.Schedule.Cron.{validate_cron_field, validate_cron_schedule, matches_cron_field}
use troubleshoot.Schedule.Cron.Fires.{
  Fires, NeverFires, validate_cron_field-Fires, validate_cron_field_never,
}
use troubleshoot.Schedule.Jobs.{
  Job, Files, new_job, get_job, create_job, check_job, save_job, write_file, list_jobs, check_chars,
}
use troubleshoot.Schedule.Jobs.Found.{get_job-create_job}
use troubleshoot.Schedule.Daemon.{
  Time, should_job_run, Daemon, started, start, step, tick, check_and_execute_jobs,
}
use troubleshoot.Schedule.Daemon.Exclusive.{Agrees, started-Agrees}
use troubleshoot.Schedule.Daemon.Starts.{Executes, check_and_execute_jobs_starts}

validate_cron_field-Fires_example : Fires "*/5" 0 59 ⊎ ((1 ≤ 0) × NeverFires "*/5" 0 59)
unfolding validate_cron_field after_prefix atoi
validate_cron_field-Fires_example =
    validate_cron_field-Fires "*/5" "minute" 0 59 (ground arith) (ground arith) refl

-- the day of the month in the field "*/32"
validate_cron_field_never_example :
    (validate_cron_field ("*/" ⧺ itoa (pos 32)) 1 31 "day-of-month" ≡ ok tt)
    × ((v : ℕ) → 1 ≤ v → v ≤ 31 → matches_cron_field ("*/" ⧺ itoa (pos 32)) v ≡ false)
validate_cron_field_never_example =
    validate_cron_field_never "day-of-month" 1 31 32 (ground arith) (ground arith) (ground arith)

abbrev nightly : Job
nightly = new_job "1" 7 "nightly" "0 2 * * *" "" false ""

abbrev stored : Files
stored = ("1.json", some nightly) ∷ ("2.json", none) ∷ []

get_job-create_job_example :
    (get_job "nightly" (("1.json", some nightly) ∷ []) ≡ ok nightly)
    × (get_job "1" (("1.json", some nightly) ∷ []) ≡ ok nightly)
unfolding create_job check_job save_job write_file validate_cron_schedule validate_cron_field fields
    after_prefix split atoi trim_space contains check_chars list_jobs byte_length
get_job-create_job_example =
    get_job-create_job "1" 7 " nightly" "0 2 * * *" "" false "" [] (("1.json", some nightly) ∷ [])
      nightly refl tt tt

abbrev two_oclock : Time
two_oclock = record { instant = 1000; minute = 0; hour = 2; day = 3; month = 4; weekday = 5 }

runs_at_two : should_job_run nightly two_oclock ≡ true
unfolding should_job_run matches_cron_field fields after_prefix split atoi trim_space
runs_at_two = refl

-- one tick, which starts the job, and its end
abbrev after_tick : Daemon
after_tick = check_and_execute_jobs two_oclock (started stored)

started_one : length after_tick.executing ≡ 1
unfolding check_and_execute_jobs should_job_run matches_cron_field fields after_prefix split atoi
    trim_space list_jobs member
started_one = refl

started-Agrees_example : Agrees after_tick
started-Agrees_example =
    started-Agrees stored after_tick (step start (tick two_oclock (started stored) refl))

check_and_execute_jobs_starts_example : Executes "1" after_tick
unfolding list_jobs should_job_run matches_cron_field fields after_prefix split atoi trim_space
    member
check_and_execute_jobs_starts_example =
    check_and_execute_jobs_starts two_oclock nightly (started stored) (inl refl) refl refl refl
