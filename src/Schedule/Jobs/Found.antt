-- ===== src/Schedule/Jobs/Found.antt =====
-- A created job is found under its name and under its ID.
use Prim.Native.Nat.{Ordering}
use Prim.Native.String.{compare}
use troubleshoot.Prelude.{
  ℕ, String, ◌≡◌, refl, sym, ap, ◌∙◌, Bool, true, false, Option, none, some, [], ◌∷◌, first, All,
  arith, eq_refl,
}
use troubleshoot.Go.Result.{ok, bind-inv}
use troubleshoot.Schedule.Jobs.{
  Job, Files, job_file, write_file, list_jobs, is_called, get_job, create_job, check_job, save_job,
  new_job,
}

-- No stored job is called `x`.
abbrev pub Unused : String → Files → Type 0
Unused x files = All (λ job. is_called x job ≡ false) (list_jobs files)

-- wherever the job's file is put
placed :
    (x name : String) (job : Job) (n : String) (content : Option Job) (files later : Files)
    → is_called x job ≡ true
    → first (is_called x) (list_jobs ((n, content) ∷ later)) ≡ some job
    → (o : Ordering)
    → first (is_called x) (
        list_jobs (elim o [
          | Ordering.lt ↦ (name, some job) ∷ (n, content) ∷ files
          | Ordering.eq ↦ (name, some job) ∷ files
          | Ordering.gt ↦ (n, content) ∷ later
        ]))
      ≡ some job
unfolding list_jobs
placed x name job n content files later c h Ordering.lt = rw c refl
placed x name job n content files later c h Ordering.eq = rw c refl
placed x name job n content files later c h Ordering.gt = h

first-written :
    (x name : String) (job : Job) (files : Files)
    → is_called x job ≡ true
    → Unused x files
    → first (is_called x) (list_jobs (write_file name (some job) files)) ≡ some job
unfolding write_file list_jobs
first-written x name job [] c u = rw c refl
first-written x name job ((n, none) ∷ files) c u =
    let go = first-written x name job files c u in
    placed x name job n none files (write_file name (some job) files) c go (compare name n)
first-written x name job ((n, some old) ∷ files) c (u, us) =
    let go = first-written x name job files c us in
    placed x name job n (some old) files (write_file name (some job) files) c (rw u go)
      (compare name n)

get_job-written :
    (x : String) (job : Job) (files : Files)
    → is_called x job ≡ true
    → Unused x files
    → get_job x (write_file (job_file job) (some job) files) ≡ ok job
unfolding get_job
get_job-written x job files c u = rw (get_job, first-written x (job_file job) job files c u) refl

-- A job that is created under a name and an ID that no stored job is called by is found under both.
pub get_job-create_job :
    (id : String) (now : ℕ) (given schedule namespace : String) (auto : Bool) (upload : String)
    (files files' : Files) (job : Job)
    → create_job none id now given schedule namespace auto upload files ≡ ok (job, files')
    → Unused job.name files
    → Unused job.id files
    → (get_job job.name files' ≡ ok job) × (get_job job.id files' ≡ ok job)
unfolding create_job save_job
get_job-create_job id now given schedule namespace auto upload files files' job h un ui =
    let (name, k, q) = bind-inv (check_job given schedule) _ _ h in
    let created = new_job id now name schedule namespace auto upload in
    let same : created ≡ job = cc k in
    let stored : write_file (job_file created) (some created) files ≡ files' = cc k in
    let stored' : write_file (job_file job) (some job) files ≡ files' =
      ap (λ (j : Job). write_file (job_file j) (some j) files) (sym same) ∙ stored in
    let named : is_called job.name job ≡ true = ground (arith, eq_refl job.name) in
    let numbered : is_called job.id job ≡ true = ground (arith, eq_refl job.id) in
    (
      ap (get_job job.name) (sym stored') ∙ get_job-written job.name job files named un,
      ap (get_job job.id) (sym stored') ∙ get_job-written job.id job files numbered ui,
    )
