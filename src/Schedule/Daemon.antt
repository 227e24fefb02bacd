-- ===== src/Schedule/Daemon.antt =====
-- pkg/schedule/daemon.go: which jobs run at a time, and the steps of the daemon and of the
-- goroutines that it starts.
pub mod Exclusive
pub mod Starts
use Prim.Native.String.{◌++◌ as ◌⧺◌}
use troubleshoot.Prelude.{
  ℕ, ◌+◌, ◌-◌, ◌*◌, ◌<◌, String, ◌≡◌, Bool, true, false, not, ◌&&◌, ◌||◌, Option, none, some, List,
  [], ◌∷◌, ◌++◌, ◌==◌, member, if◌then◌else◌, eqb, ltb,
}
use troubleshoot.Go.Text.{fields}
use troubleshoot.Schedule.Cron.{matches_cron_field}
use troubleshoot.Schedule.Jobs.{Job, Files, job_file, write_file, list_jobs}

-- what `time.Time` says of an instant, which is in nanoseconds
pub record Time : Type 0 where
  pub instant : ℕ
  pub minute : ℕ
  pub hour : ℕ
  pub day : ℕ
  pub month : ℕ
  pub weekday : ℕ

-- 90 * time.Second
abbrev pub cooldown : ℕ
cooldown = 90 * 1000000000

-- A last run after `now` gives a negative difference in Go, and 0 here: both are below the limit.
abbrev pub cools_down : Job → Time → Bool
cools_down job now = not (eqb job.last_run 0) && ltb (now.instant - job.last_run) cooldown

five_match : List String → Time → Bool
five_match (minute ∷ hour ∷ day ∷ month ∷ weekday ∷ []) now =
    matches_cron_field minute now.minute
    && matches_cron_field hour now.hour
    && matches_cron_field day now.day
    && matches_cron_field month now.month
    && matches_cron_field weekday now.weekday
five_match parts now = false

unfoldable pub should_job_run : Job → Time → Bool
unfolding five_match
should_job_run job now = if cools_down job now then false else five_match (fields job.schedule) now

unfoldable pub without : String → List String → List String
without id [] = []
without id (x ∷ xs) = let rest = without id xs in if x == id then rest else x ∷ rest

-- The daemon, the directory of its manager, and the goroutines that run `executeJob`, each with
-- the job that it was given.
pub record Daemon : Type 0 where
  pub running : Bool
  pub running_jobs : List String
  pub files : Files
  pub executing : List Job

-- one round of the loop over the jobs
unfoldable pub start_if_due : Time → Job → Daemon → Daemon
start_if_due now job d =
    if job.enabled && should_job_run job now && not (member job.id d.running_jobs)
    then record d { running_jobs = job.id ∷ d.running_jobs; executing = job ∷ d.executing }
    else d

pub start_due : Time → List Job → Daemon → Daemon
start_due now [] d = d
start_due now (job ∷ jobs) d = start_due now jobs (start_if_due now job d)

unfoldable pub check_and_execute_jobs : Time → Daemon → Daemon
unfolding start_due start_if_due
check_and_execute_jobs now d = start_due now (list_jobs d.files) d

-- the arguments of the support-bundle command
unfoldable pub command_args : Job → List String
command_args job =
    (if job.namespace == "" then [] else "--namespace" ∷ job.namespace ∷ [])
    ++ (if job.auto then "--auto" ∷ [] else [])
    ++ (if job.upload == "" then [] else "--auto-upload" ∷ [])
    ++ "--auto-update=false" ∷ []

-- `job.RunCount++`, `job.LastRun = time.Now()`
abbrev pub ran : Time → Job → Job
ran now job = record job { run_count = job.run_count + 1; last_run = now.instant }

-- The end of `executeJob`. `success` is the time at which the command succeeded, and then the
-- job's statistics are saved, if the write succeeds; last, the deferred call frees the ID. The
-- goroutine is the one between `before` and `after`.
unfoldable pub finish_job : Option Time → Job → List Job → Daemon → Daemon
finish_job success job others d = record d {
  running_jobs = without job.id d.running_jobs;
  executing = others;
  files = elim success [
    | none ↦ d.files
    | some now ↦ write_file (job_file job) (some (ran now job)) d.files
  ];
}

-- The steps, in any order: the ticker fires, a goroutine ends, another process (the command line of
-- the manager) writes the directory, a signal or `Stop` ends the loop.
pub data Step : Daemon → Daemon → Type 0 where
  tick : (now : Time) (d : Daemon) → d.running ≡ true → Step d (check_and_execute_jobs now d)
  finish :
      (success : Option Time) (before : List Job) (job : Job) (after : List Job) (d : Daemon)
      → d.executing ≡ before ++ job ∷ after
      → Step d (finish_job success job (before ++ after) d)
  edit : (files : Files) (d : Daemon) → Step d (record d { files = files })
  stop : (d : Daemon) → Step d (record d { running = false })

pub data Reachable (s : Daemon) : Daemon → Type 0 where
  start : Reachable s s
  step : {d e : Daemon} → Reachable s d → Step d e → Reachable s e

-- `Start` on what `NewDaemon` gives
abbrev pub started : Files → Daemon
started files = record { running = true; running_jobs = []; files = files; executing = [] }
