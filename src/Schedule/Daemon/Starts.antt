-- ===== src/Schedule/Daemon/Starts.antt =====
-- What a tick starts.
use mathlib.Core.Path.{subst}
use troubleshoot.Prelude.{
  Any, member, String, ◌≡◌, ◌⊎◌, refl, true, false, not, ◌&&◌, List, [], ◌∷◌, ◌==◌, arith, eq_iff,
  Bool-cases, inl, inr,
}
use troubleshoot.Schedule.Jobs.{Job, list_jobs}
use troubleshoot.Schedule.Daemon.{
  Time, should_job_run, Daemon, start_if_due, start_due, check_and_execute_jobs,
}

-- the job stands in the list
abbrev pub Among : Job → List Job → Type 0
Among job jobs = Any (λ other. job ≡ other) jobs

-- A goroutine runs a job with the ID.
abbrev pub Executes : String → Daemon → Type 0
Executes id d = (job : Job) × (job.id ≡ id) × Among job d.executing

start_if_due-keeps :
    (now : Time) (id : String) (job : Job) (d : Daemon)
    → Executes id d
    → Executes id (start_if_due now job d)
unfolding start_if_due
start_if_due-keeps now id job d (started, e, at) =
    elim (Bool-cases
      (job.enabled && should_job_run job now && not (member job.id d.running_jobs))) [
        | inl due ↦ rw due (started, e, inr at)
        | inr idle ↦ rw idle (started, e, at)
      ]

start_due-keeps :
    (now : Time) (id : String) (jobs : List Job) (d : Daemon)
    → Executes id d
    → Executes id (start_due now jobs d)
unfolding start_due
start_due-keeps now id [] d h = h
start_due-keeps now id (job ∷ jobs) d h =
    start_due-keeps now id jobs (start_if_due now job d) (start_if_due-keeps now id job d h)

-- A job that is due and has no entry in the table is started.
start_if_due-Executes :
    (now : Time) (job : Job) (d : Daemon)
    → job.enabled ≡ true
    → should_job_run job now ≡ true
    → member job.id d.running_jobs ≡ false
    → Executes job.id (start_if_due now job d)
unfolding start_if_due
start_if_due-Executes now job d e h idle =
    let due : (job.enabled && should_job_run job now && not (member job.id d.running_jobs)) ≡ true =
      ground (arith, e, h, idle) in
    rw due (job, refl, inl refl)

-- What does not start the ID leaves the table as it is for it.
start_if_due-leaves :
    (now : Time) (id : String) (job : Job) (d : Daemon)
    → member id d.running_jobs ≡ false
    → Executes id (start_if_due now job d)
      ⊎ (member id (start_if_due now job d).running_jobs ≡ false)
unfolding start_if_due member
start_if_due-leaves now id job d h =
    elim (Bool-cases
      (job.enabled && should_job_run job now && not (member job.id d.running_jobs))) [
        | inl due ↦ rw due (elim (Bool-cases (id == job.id)) [
          | inl same ↦ inl (job, ground (arith, eq_iff id job.id), inl refl)
          | inr other ↦ inr (ground arith)
        ])
        | inr idle ↦ rw idle (inr h)
      ]

start_due-Executes :
    (now : Time) (job : Job) (jobs : List Job) (d : Daemon)
    → Among job jobs
    → job.enabled ≡ true
    → should_job_run job now ≡ true
    → member job.id d.running_jobs ≡ false
    → Executes job.id (start_due now jobs d)
unfolding start_due
start_due-Executes now job [] d at e h idle = elim at [ ]
start_due-Executes now job (other ∷ jobs) d (inl same) e h idle =
    start_due-keeps now job.id jobs (start_if_due now other d) (
      subst (λ o. Executes job.id (start_if_due now o d)) same
        (start_if_due-Executes now job d e h idle))
start_due-Executes now job (other ∷ jobs) d (inr at) e h idle =
    elim (start_if_due-leaves now job.id other d idle) [
      | inl started ↦ start_due-keeps now job.id jobs (start_if_due now other d) started
      | inr still ↦ start_due-Executes now job jobs (start_if_due now other d) at e h still
    ]

-- A tick starts every job that it lists, is enabled and due, and has no entry in the table: after the tick a goroutine
-- runs a job with its ID, whatever else the tick starts.
pub check_and_execute_jobs_starts :
    (now : Time) (job : Job) (d : Daemon)
    → Among job (list_jobs d.files)
    → job.enabled ≡ true
    → should_job_run job now ≡ true
    → member job.id d.running_jobs ≡ false
    → Executes job.id (check_and_execute_jobs now d)
unfolding check_and_execute_jobs
check_and_execute_jobs_starts now job d = start_due-Executes now job (list_jobs d.files) d
