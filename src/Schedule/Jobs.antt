-- ===== src/Schedule/Jobs.antt =====
-- The manager of pkg/schedule/job.go: one JSON file for each job in the storage directory.
pub mod Store
pub mod Found
use Prim.Native.Nat.{Ordering}
use Prim.Native.String.{◌++◌ as ◌⧺◌, compare}
use Prim.Native.Char.{nul}
use troubleshoot.Prelude.{
  ℕ, String, Bool, true, false, ◌||◌, Option, none, some, List, [], ◌∷◌, ◌==◌, if◌then◌else◌, ltb,
  first,
}
use troubleshoot.Go.Result.{Result, ok, err, Error, message, foreign, wrap, ◌>>=◌}
use troubleshoot.Go.Text.{byte_length, contains, trim_space}
use troubleshoot.Schedule.Cron.{validate_cron_schedule}

-- Times are nanoseconds; 0 is the zero time.
pub record Job : Type 0 where
  pub id : String
  pub name : String
  pub schedule : String
  pub namespace : String
  pub auto : Bool
  pub upload : String
  pub enabled : Bool
  pub run_count : ℕ
  pub last_run : ℕ
  pub created : ℕ

-- The storage directory: the files by name, in the order in which filepath.Glob lists them. A file
-- holds a job, or `none` where it does not parse. Marshalling a job and parsing it again gives it
-- back.
abbrev pub Files : Type 0
Files = List (String × Option Job)

abbrev pub job_file : Job → String
job_file job = job.id ⧺ ".json"

unfoldable pub read_file : String → Files → Option (Option Job)
read_file name [] = none
read_file name ((n, content) ∷ files) = if n == name then some content else read_file name files

-- os.WriteFile
unfoldable pub write_file : String → Option Job → Files → Files
write_file name content [] = (name, content) ∷ []
write_file name content ((n, old) ∷ files) = elim (compare name n) [
  | Ordering.lt ↦ (name, content) ∷ (n, old) ∷ files
  | Ordering.eq ↦ (name, content) ∷ files
  | Ordering.gt ↦ (n, old) ∷ write_file name content files
]

unfoldable pub without_file : String → Files → Files
without_file name [] = []
without_file name ((n, content) ∷ files) =
    let rest = without_file name files in if n == name then rest else (n, content) ∷ rest

-- os.Remove
unfoldable pub remove_file : String → Files → Result Files
unfolding without_file read_file
remove_file name files = elim (read_file name files) [
  | none ↦ err (foreign ("remove " ⧺ name ⧺ ": no such file or directory"))
  | some content ↦ ok (without_file name files)
]

-- `failure` is what the file system answers to the write.
unfoldable pub save_job : Option Error → Job → Files → Result Files
save_job (some failure) job files = err failure
save_job none job files = ok (write_file (job_file job) (some job) files)

-- files that do not parse are skipped
unfoldable pub list_jobs : Files → List Job
list_jobs [] = []
list_jobs ((n, none) ∷ files) = list_jobs files
list_jobs ((n, some job) ∷ files) = job ∷ list_jobs files

abbrev pub is_called : String → Job → Bool
is_called name_or_id job = job.name == name_or_id || job.id == name_or_id

unfoldable pub get_job : String → Files → Result Job
unfolding list_jobs
get_job name_or_id files = elim (first (is_called name_or_id) (list_jobs files)) [
  | none ↦ err (message ("job not found: " ⧺ name_or_id))
  | some job ↦ ok job
]

unfoldable pub delete_job : String → Files → Result Files
delete_job name_or_id files = do job ← get_job name_or_id files; remove_file (job_file job) files

abbrev pub invalid_chars : List String
invalid_chars =
    "/" ∷ "\\" ∷ ":" ∷ "*" ∷ "?" ∷ "\"" ∷ "<" ∷ ">" ∷ "|" ∷ String.◌∷◌ nul String.[] ∷ []

unfoldable pub check_chars : String → List String → Result (Unit {0})
check_chars name [] = ok tt
check_chars name (char ∷ rest) =
    if contains name char
    then err (message ("job name contains invalid character: " ⧺ char))
    else check_chars name rest

-- the tests of `CreateJob`; the result is the name that is kept
unfoldable pub check_job : String → String → Result String
unfolding check_chars
check_job given schedule = do
  let name = trim_space given
  if name == ""
      then err (message "job name cannot be empty")
      else if ltb 100 (byte_length name)
      then err (message "job name too long, maximum 100 characters")
      else do
        _ ← check_chars name invalid_chars
        _ ← wrap "invalid cron schedule" (validate_cron_schedule schedule)
        ok name

abbrev pub new_job : String → ℕ → String → String → String → Bool → String → Job
new_job id now name schedule namespace auto upload = record {
  id = id;
  name = name;
  schedule = schedule;
  namespace = namespace;
  auto = auto;
  upload = upload;
  enabled = true;
  run_count = 0;
  last_run = 0;
  created = now;
}

-- `id` is the new job's ID and `now` the time; the result is the job and the files.
unfoldable pub create_job :
    Option Error
    → String
    → ℕ
    → String
    → String
    → String
    → Bool
    → String
    → Files
    → Result (Job × Files)
unfolding check_job
create_job failure id now given schedule namespace auto upload files = do
  name ← check_job given schedule
  let job = new_job id now name schedule namespace auto upload
  files' ← save_job failure job files
  ok (job, files')
