-- ===== src/Analyze/Deployment/All.antt =====
-- What `analyzeAllDeploymentStatuses` reports.
use troubleshoot.Prelude.{
  String, ◌≡◌, refl, ap, ◌∙◌, not, List, [], ◌∷◌, map, select, eqb_ℤ, Bool-cases, inl, inr,
}
use troubleshoot.Go.Result.{Result, ok, wrap, collect, map_result}
use troubleshoot.Analyze.Types.{AnalyzeResult}
use troubleshoot.Analyze.Workload.{StatusSpec, files_or_all}
use troubleshoot.Analyze.Workload.Scan.{gather, items_in, scan-gather}
use troubleshoot.Analyze.Deployment.{
  Deployment, unavailable_report, unavailable, analyze_all_deployment_statuses,
}

-- a report for each deployment that lacks available replicas, in the order of the list
abbrev pub unavailable_reports : List Deployment → List AnalyzeResult
unavailable_reports ds =
    map unavailable_report (select (λ d. not (eqb_ℤ d.replicas d.available_replicas)) ds)

gather-unavailable : (ds : List Deployment) → gather unavailable ds ≡ unavailable_reports ds
unfolding gather unavailable
gather-unavailable [] = refl
gather-unavailable (d ∷ ds) = elim (Bool-cases (eqb_ℤ d.replicas d.available_replicas)) [
  | inl e ↦ rw e (gather-unavailable ds)
  | inr e ↦ rw e (ap (λ rs. unavailable_report d ∷ rs) (gather-unavailable ds))
]

map_result-unavailable :
    (r : Result (List Deployment))
    → map_result (gather unavailable) r ≡ map_result unavailable_reports r
map_result-unavailable (ok ds) = ap ok (gather-unavailable ds)
map_result-unavailable _ = refl

module _ {Data : Type 0} (get_file_contents : String → List String → Result (List Data))
    (unmarshal : Data → Result (List Deployment)) where
  abbrev pub read_deployments : String → Result (List Data)
  read_deployments file =
      wrap "failed to read collected deployments from file" (get_file_contents file [])

  abbrev pub decode_deployments : Data → Result (List Deployment)
  decode_deployments d = wrap "failed to unmarshal deployment list" (unmarshal d)

  -- The analyzer reports each deployment that has not its replicas available, in the order in which
  -- they are read, and no other. An error of reading or decoding is the error of the analyzer.
  analyze_all_deployment_statuses-reports :
      (a : StatusSpec)
      → analyze_all_deployment_statuses get_file_contents unmarshal a
        ≡ map_result unavailable_reports
            (collect (items_in read_deployments decode_deployments) (files_or_all "deployments" a))
  unfolding analyze_all_deployment_statuses
  analyze_all_deployment_statuses-reports a =
      scan-gather unavailable read_deployments decode_deployments (files_or_all "deployments" a)
      ∙ map_result-unavailable _
