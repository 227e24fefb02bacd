-- ===== src/Analyze/Job/Files.antt =====
-- The files that `analyzeAllJobStatuses` reads.
use troubleshoot.Prelude.{String, ◌≡◌, ◌≢◌, List, [], ◌∷◌, ◌++◌, ne→eq_false, ◌∙◌, ap}
use mathlib.Core.List.{append-nil}
use troubleshoot.Go.Result.{Result, ok, wrap, collect, map_result}
use troubleshoot.Analyze.Types.{AnalyzeResult}
use troubleshoot.Analyze.Workload.{StatusSpec, as_list, files_or_all, resource_file}
use troubleshoot.Analyze.Workload.Scan.{gather, gather-append, items_in, scan-gather}
use troubleshoot.Analyze.Job.{Job, get_default_job_result, job_files, analyze_all_job_statuses}

abbrev pub job_reports : Job → List AnalyzeResult
job_reports j = as_list (get_default_job_result j)

-- Of a spec with one namespace and no list of namespaces the analyzer reads the files of all
-- namespaces after that of the one, where the other analyzers read only the one.
files_of_one_namespace :
    (a : StatusSpec)
    → a.namespace ≢ ""
    → a.namespaces ≡ []
    → (job_files a ≡ resource_file "jobs" a.namespace ∷ resource_file "jobs" "*" ∷ [])
      × (files_or_all "jobs" a ≡ resource_file "jobs" a.namespace ∷ [])
unfolding job_files
files_of_one_namespace a named none_listed =
    let e = ne→eq_false a.namespace "" named in (rw (none_listed, e), rw (none_listed, e))

module _ {Data : Type 0} (get_file_contents : String → List String → Result (List Data))
    (unmarshal : Data → Result (List Job)) where
  abbrev pub jobs_in : String → Result (List Job)
  jobs_in =
      items_in (λ file. wrap "failed to read collected jobs from file" (get_file_contents file []))
        (λ d. wrap "failed to unmarshal job list" (unmarshal d))

  analyze_all_job_statuses-reports :
      (a : StatusSpec)
      → analyze_all_job_statuses get_file_contents unmarshal a
        ≡ map_result (gather job_reports) (collect jobs_in (job_files a))
  unfolding analyze_all_job_statuses
  analyze_all_job_statuses-reports a = scan-gather job_reports _ _ (job_files a)

  -- If the spec names one namespace and no list of namespaces, the analyzer reports on the jobs of
  -- that namespace and then on the jobs of all namespaces, those of the one again.
  analyze_all_job_statuses_twice :
      (a : StatusSpec) (own all : List Job)
      → a.namespace ≢ ""
      → a.namespaces ≡ []
      → jobs_in (resource_file "jobs" a.namespace) ≡ ok own
      → jobs_in (resource_file "jobs" "*") ≡ ok all
      → analyze_all_job_statuses get_file_contents unmarshal a
        ≡ ok (gather job_reports own ++ gather job_reports all)
  unfolding collect
  analyze_all_job_statuses_twice a own all named none_listed p q =
      analyze_all_job_statuses-reports a
      ∙ rw ((files_of_one_namespace a named none_listed).0)
          (rw (p, q) (ap ok (rw append-nil (gather-append job_reports own all))))
