-- ===== src/Analyze/Job.antt =====
-- pkg/analyze/job_status.go
pub mod Condition
pub mod Files
use Prim.Native.String.{◌++◌ as ◌⧺◌}
use troubleshoot.Prelude.{
  String, Bool, true, false, Option, none, some, List, [], ◌∷◌, ◌++◌, ◌&&◌, ◌==◌, if◌then◌else◌, ℤ,
  pos, eqb_ℤ, ltb_ℤ, first, is_nil, to_int32,
}
use troubleshoot.Go.Result.{Result, ok, err, message, wrap, collect, map_result, ◌>>=◌}
use troubleshoot.Go.Text.{split, trim_space, quoted}
use troubleshoot.Go.Strconv.{atoi}
use troubleshoot.Analyze.Types.{Outcome, AnalyzeResult, blank}
use troubleshoot.Analyze.Outcomes.{outcome_loop}
use troubleshoot.Analyze.Compare.{compare_by}
use troubleshoot.Analyze.Status.{range_error}
use troubleshoot.Analyze.Workload.{
  StatusSpec, status_title, resource_file, named_files, with_strict, as_list, last_of_files,
  when_branch,
}

-- what is read of a `batchv1.Job`
pub record Job : Type 0 where
  pub namespace : String
  pub name : String
  pub completions : Option ℤ
  pub succeeded : ℤ
  pub failed : ℤ

abbrev pub job_icon : String
job_icon = "https://troubleshoot.sh/images/analyzer-icons/deployment-status.svg?w=17&h=17"

unfoldable pub job_title : StatusSpec → String
unfolding status_title
job_title a = status_title "Job" a

completed : Option ℤ → Job → Bool
completed none job = ltb_ℤ (pos 1) job.succeeded
completed (some n) job = eqb_ℤ n job.succeeded

unfoldable pub get_default_job_result : Job → Option AnalyzeResult
unfolding completed
get_default_job_result job =
    let full_name = job.namespace ⧺ "/" ⧺ job.name in
    if completed job.completions job
    then none
    else if eqb_ℤ job.failed (pos 0)
    then none
    else some (record (blank (full_name ⧺ " Job Status") "kubernetes_deployment_status" job_icon) {
      is_fail = true;
      message = "The job " ⧺ full_name ⧺ " is not complete";
    })

-- `value` is an int, and both sides are compared as int32
by_counter : Job → String → String → ℤ → Result Bool
by_counter job counter op value =
    if counter == "succeeded"
    then compare_by op job.succeeded (to_int32 value)
    else if counter == "failed"
    then compare_by op job.failed (to_int32 value)
    else err (message ("unknown when value: " ⧺ counter))

three_parts : String → Job → List String → Result Bool
unfolding by_counter
three_parts when job (counter ∷ op ∷ number ∷ []) = do
  value ← wrap ("failed to parse when value: " ⧺ number) (atoi number)
  by_counter job counter op value
three_parts when job _ = err (message ("unable to parse when range: " ⧺ when))

unfoldable pub compare_job_status_to_when : String → Job → Result Bool
unfolding three_parts
compare_job_status_to_when when job = three_parts when job (split b' ' (trim_space when))

unfoldable pub job_status : List Outcome → Job → Result AnalyzeResult
job_status outcomes job =
    let result = blank (job.name ⧺ " Status") "kubernetes_deployment_status" job_icon in
    outcome_loop (when_branch range_error (λ w. compare_job_status_to_when w job) result) result
      outcomes

job_not_found : String → AnalyzeResult
job_not_found name = record (blank (name ⧺ " Job Status") "kubernetes_deployment_status" job_icon) {
  is_fail = true;
  message = "The job " ⧺ quoted name ⧺ " was not found";
}

-- the result for the first job of the name
one_job : StatusSpec → Option Job → Result (Option AnalyzeResult)
unfolding job_not_found
one_job a none = ok (some (job_not_found a.name))
one_job a (some job) =
    if is_nil a.outcomes
    then ok (get_default_job_result job)
    else map_result some (wrap "failed to process status" (job_status a.outcomes job))

-- The test for "no namespace specified" looks at `Namespaces` only.
unfoldable pub job_files : StatusSpec → List String
job_files a =
    if is_nil a.namespaces
    then named_files "jobs" a ++ resource_file "jobs" "*" ∷ []
    else named_files "jobs" a

module _ {Data : Type 0} (get_file_contents : String → List String → Result (List Data))
    (unmarshal : Data → Result (List Job)) where
  decoded : Data → Result (List Job)
  decoded d = wrap "failed to unmarshal job list" (unmarshal d)

  one_file : StatusSpec → Data → Result (Option AnalyzeResult)
  one_file a d = do jobs ← decoded d; one_job a (first (λ j. j.name == a.name) jobs)

  unfoldable pub analyze_one_job_status : StatusSpec → Result (List AnalyzeResult)
  unfolding decoded one_file one_job
  analyze_one_job_status a = do
    files ←
        wrap "failed to read collected jobs from namespace"
          (get_file_contents (resource_file "jobs" a.namespace) [])
    result ← last_of_files (one_file a) none files
    ok (as_list result)

  default_in : Data → Result (List AnalyzeResult)
  default_in d = do jobs ← decoded d; collect (λ j. ok (as_list (get_default_job_result j))) jobs

  default_in_file : String → Result (List AnalyzeResult)
  default_in_file file = do
    files ← wrap "failed to read collected jobs from file" (get_file_contents file [])
    collect default_in files

  unfoldable pub analyze_all_job_statuses : StatusSpec → Result (List AnalyzeResult)
  unfolding decoded default_in default_in_file job_files get_default_job_result
  analyze_all_job_statuses a = collect default_in_file (job_files a)

  unfoldable pub analyze_job_status : StatusSpec → Result (List AnalyzeResult)
  analyze_job_status a =
      if a.name == "" then analyze_all_job_statuses a else analyze_one_job_status a

  -- the method `Analyze`
  unfoldable pub analyze_job : StatusSpec → Result (List AnalyzeResult)
  unfolding analyze_job_status
  analyze_job a = map_result (with_strict a) (analyze_job_status a)
