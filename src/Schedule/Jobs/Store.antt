-- ===== src/Schedule/Jobs/Store.antt =====
-- What the operations of the manager keep of the storage directory.
use troubleshoot.Prelude.{
  ℕ, ◌≤◌, ◌≡◌, ◌≢◌, refl, sym, ◌∙◌, ap, String, Bool, false, Option, none, some, List, [], ◌∷◌,
  ◌==◌, if◌then◌else◌, arith, eq_iff, All,
}
use mathlib.Core.Path.{subst, subst₂}
use troubleshoot.Go.Result.{bind-inv, ok}
use troubleshoot.Go.Text.{byte_length, contains, trim_space}
use troubleshoot.Schedule.Cron.{validate_cron_schedule}
use troubleshoot.Schedule.Jobs.{
  Job, Files, job_file, read_file, write_file, without_file, remove_file, save_job, get_job,
  delete_job, invalid_chars, check_chars, check_job, create_job, new_job,
}

-- A written file is read back, and the others are as before.
pub read_file-write_file :
    (m n : String) (content : Option Job) (files : Files)
    → read_file n (write_file m content files)
      ≡ (if m == n then some content else read_file n files)
unfolding read_file write_file
read_file-write_file m n content [] = refl
read_file-write_file m n content ((k, old) ∷ files) =
    ground (arith, eq_iff m n, eq_iff k n, eq_iff m k, read_file-write_file m n content files)

read_file-without_file :
    (m n : String) (files : Files)
    → read_file n (without_file m files) ≡ (if m == n then none else read_file n files)
unfolding read_file without_file
read_file-without_file m n [] = ground arith
read_file-without_file m n ((k, old) ∷ files) =
    ground (arith, eq_iff m n, eq_iff k n, eq_iff k m, read_file-without_file m n files)

remove_file_files :
    (n : String) (files files' : Files)
    → remove_file n files ≡ ok files'
    → files' ≡ without_file n files
unfolding remove_file
remove_file_files n files files' h = ground arith

-- `DeleteJob` removes the file of the job that `GetJob` finds, and leaves every other file.
delete_job_removes :
    (x : String) (files files' : Files)
    → delete_job x files ≡ ok files'
    → (job : Job) × (get_job x files ≡ ok job)
      × ((n : String)
          → read_file n files' ≡ (if job_file job == n then none else read_file n files))
unfolding delete_job remove_file
delete_job_removes x files files' h =
    let (job, k, q) = bind-inv (get_job x files) _ _ h in
    (
      job,
      q,
      λ n.
          rw (remove_file_files (job_file job) files files' k)
            (read_file-without_file (job_file job) n files),
    )

check_chars-All :
    (name : String) (chars : List String)
    → check_chars name chars ≡ ok tt
    → All (λ c. contains name c ≡ false) chars
unfolding check_chars
check_chars-All name [] h = tt
check_chars-All name (c ∷ rest) h = (ground arith, check_chars-All name rest (ground arith))

-- What the tests of `CreateJob` establish of the name and the schedule.
pub record IsAccepted (given schedule name : String) : Type 0 where
  pub trimmed : name ≡ trim_space given
  pub named : name ≢ ""
  pub short : byte_length name ≤ 100
  pub safe : All (λ c. contains name c ≡ false) invalid_chars
  pub scheduled : validate_cron_schedule schedule ≡ ok tt

check_job-IsAccepted :
    (given schedule name : String)
    → check_job given schedule ≡ ok name
    → IsAccepted given schedule name
unfolding check_job
check_job-IsAccepted given schedule name h = record {
  trimmed = ground arith;
  named = ground (arith, eq_iff (trim_space given) "");
  short = ground arith;
  safe = check_chars-All name invalid_chars (ground arith);
  scheduled = ground arith;
}

-- A job that `CreateJob` returns has an accepted name and schedule and is enabled, its file holds
-- it, and every other file is as before.
create_job_creates :
    (id : String) (now : ℕ) (given schedule namespace : String) (auto : Bool) (upload : String)
    (files files' : Files) (job : Job)
    → create_job none id now given schedule namespace auto upload files ≡ ok (job, files')
    → IsAccepted given schedule job.name
      × (job ≡ new_job id now job.name schedule namespace auto upload)
      × ((n : String)
          → read_file n files' ≡ (if job_file job == n then some (some job) else read_file n files))
unfolding create_job save_job
create_job_creates id now given schedule namespace auto upload files files' job h =
    let (name, k, q) = bind-inv (check_job given schedule) _ _ h in
    let created = new_job id now name schedule namespace auto upload in
    let same : created ≡ job = cc k in
    let stored : write_file (job_file created) (some created) files ≡ files' = cc k in
    let named : name ≡ job.name = ap (λ (j : Job). j.name) same in
    (
      subst (IsAccepted given schedule) named (check_job-IsAccepted given schedule name q),
      sym same ∙ ap (λ n. new_job id now n schedule namespace auto upload) named,
      λ n.
          subst₂
            (λ j fs.
              read_file n fs ≡ (if job_file j == n then some (some j) else read_file n files))
            same stored (read_file-write_file (job_file created) n (some created) files),
    )
