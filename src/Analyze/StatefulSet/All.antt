-- ===== src/Analyze/StatefulSet/All.antt =====
-- What `analyzeAllStatefulsetStatuses` reports.
use troubleshoot.Prelude.{String, ◌≡◌, List, []}
use troubleshoot.Go.Result.{Result, wrap, collect, map_result}
use troubleshoot.Analyze.Types.{AnalyzeResult}
use troubleshoot.Analyze.Workload.{StatusSpec, files_or_all, as_list}
use troubleshoot.Analyze.Workload.Scan.{gather, items_in, scan-gather}
use troubleshoot.Analyze.StatefulSet.{
  StatefulSet, get_default_stateful_set_result, analyze_all_statefulset_statuses,
}

abbrev pub statefulset_reports : StatefulSet → List AnalyzeResult
statefulset_reports s = as_list (get_default_stateful_set_result s)

module _ {Data : Type 0} (get_file_contents : String → List String → Result (List Data))
    (unmarshal : Data → Result (List StatefulSet)) where
  abbrev pub read_statefulsets : String → Result (List Data)
  read_statefulsets file =
      wrap "failed to read collected statefulsets from namespace" (get_file_contents file [])

  abbrev pub decode_statefulsets : Data → Result (List StatefulSet)
  decode_statefulsets d = wrap "failed to unmarshal statefulset list" (unmarshal d)

  -- The analyzer gives the default report of each stateful set that is read, in order, and nothing
  -- else, whatever the outcomes of the spec say.
  analyze_all_statefulset_statuses-reports :
      (a : StatusSpec)
      → analyze_all_statefulset_statuses get_file_contents unmarshal a
        ≡ map_result (gather statefulset_reports) (
            collect
              (items_in read_statefulsets decode_statefulsets)
              (files_or_all "statefulsets" a))
  unfolding analyze_all_statefulset_statuses
  analyze_all_statefulset_statuses-reports a =
      scan-gather statefulset_reports read_statefulsets decode_statefulsets
        (files_or_all "statefulsets" a)
