-- ===== src/Schedule/Daemon/Exclusive.antt =====
-- The daemon never runs a job beside itself.
use troubleshoot.Prelude.{
  member, Distinct, String, ◌≡◌, refl, sym, ◌∙◌, ap, Bool, false, not, ◌&&◌, ◌||◌, Option, List, [],
  ◌∷◌, ◌++◌, ◌==◌, arith, eq_iff, Bool-cases, inl, inr,
}
use troubleshoot.Schedule.Jobs.{Job, Files, list_jobs}
use troubleshoot.Schedule.Daemon.{
  Time, should_job_run, without, Daemon, start_if_due, start_due, check_and_execute_jobs,
  finish_job, Step, tick, finish, edit, stop, Reachable, start, step, started,
}

abbrev pub ids : List Job → List String
ids [] = []
ids (job ∷ jobs) = job.id ∷ ids jobs

-- The goroutines run jobs of different IDs, and the table holds the ID of each and no other.
pub record Agrees (d : Daemon) : Type 0 where
  pub distinct : Distinct (ids d.executing)
  pub table : (x : String) → member x d.running_jobs ≡ member x (ids d.executing)

start_if_due-Agrees :
    (now : Time) (job : Job) (d : Daemon) → Agrees d → Agrees (start_if_due now job d)
unfolding start_if_due
start_if_due-Agrees now job d a =
    elim (Bool-cases
      (job.enabled && should_job_run job now && not (member job.id d.running_jobs))) [
        | inl e ↦ rw e (record {
          distinct = (ground (arith, a.table job.id), a.distinct);
          table = λ x. unfold member in ap (λ b. x == job.id || b) (a.table x);
        })
        | inr e ↦ rw e a
      ]

start_due-Agrees :
    (now : Time) (jobs : List Job) (d : Daemon) → Agrees d → Agrees (start_due now jobs d)
unfolding start_due
start_due-Agrees now [] d a = a
start_due-Agrees now (job ∷ jobs) d a =
    start_due-Agrees now jobs (start_if_due now job d) (start_if_due-Agrees now job d a)

member-without :
    (x y : String) (xs : List String) → member x (without y xs) ≡ (not (x == y) && member x xs)
unfolding member without
member-without x y [] = ground arith
member-without x y (z ∷ zs) =
    ground (arith, eq_iff x y, eq_iff z y, eq_iff x z, member-without x y zs)

member-ids :
    (x : String) (before : List Job) (job : Job) (after : List Job)
    → member x (ids (before ++ job ∷ after)) ≡ (x == job.id || member x (ids (before ++ after)))
unfolding member
member-ids x [] job after = refl
member-ids x (b ∷ bs) job after = ground (arith, member-ids x bs job after)

dropped :
    (before : List Job) (job : Job) (after : List Job)
    → Distinct (ids (before ++ job ∷ after))
    → Distinct (ids (before ++ after)) × (member job.id (ids (before ++ after)) ≡ false)
unfolding member
dropped [] job after (h, d) = (d, h)
dropped (b ∷ bs) job after (h, d) =
    let (d', k) = dropped bs job after d in
    let q = member-ids b.id bs job after in
    ((ground arith, d'), ground (arith, eq_iff job.id b.id, eq_iff b.id job.id))

freed :
    (x id : String) (b : Bool) (rest : List String)
    → b ≡ (x == id || member x rest)
    → member id rest ≡ false
    → (not (x == id) && b) ≡ member x rest
freed x id b rest h k = elim (Bool-cases (x == id)) [
  | inl e ↦ let same : x ≡ id = ground (arith, eq_iff x id) in rw e (sym (rw same k))
  | inr e ↦ rw (h, e) refl
]

finish_job-Agrees :
    (success : Option Time) (before : List Job) (job : Job) (after : List Job) (d : Daemon)
    → d.executing ≡ before ++ job ∷ after
    → Agrees d
    → Agrees (finish_job success job (before ++ after) d)
unfolding finish_job
finish_job-Agrees success before job after d e a =
    let (d', k) = dropped before job after (rw e at a.distinct) in
    record {
      distinct = d';
      table = λ x.
          let kept : member x d.running_jobs ≡ (x == job.id || member x (ids (before ++ after))) =
            a.table x ∙ ap (λ jobs. member x (ids jobs)) e ∙ member-ids x before job after in
          member-without x job.id d.running_jobs
          ∙ freed x job.id (member x d.running_jobs) (ids (before ++ after)) kept k;
    }

Step-Agrees : {d e : Daemon} → Step d e → Agrees d → Agrees e
unfolding check_and_execute_jobs
Step-Agrees (tick now d r) a = start_due-Agrees now (list_jobs d.files) d a
Step-Agrees (finish success before job after d e) a =
    finish_job-Agrees success before job after d e a
Step-Agrees (edit files d) a = record { distinct = a.distinct; table = a.table }
Step-Agrees (stop d) a = record { distinct = a.distinct; table = a.table }

Reachable-Agrees : {s d : Daemon} → Agrees s → Reachable s d → Agrees d
Reachable-Agrees a start = a
Reachable-Agrees a (step r s) = Step-Agrees s (Reachable-Agrees a r)

-- In every state that a started daemon reaches, whatever the order of its ticks, of the ends of its
-- jobs and of the writes to the directory, the jobs that run have different IDs, and the table of
-- running jobs holds exactly these IDs.
pub started-Agrees : (files : Files) (d : Daemon) → Reachable (started files) d → Agrees d
unfolding member
started-Agrees files d r = Reachable-Agrees (record { distinct = tt; table = λ x. refl }) r
