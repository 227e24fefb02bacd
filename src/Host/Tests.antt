-- ===== src/Host/Tests.antt =====
-- Runs of the host analyzers on small inputs, and their theorems at those inputs.
use troubleshoot.Prelude.{
  String, ◌≡◌, refl, Bool, none, some, List, [], ◌∷◌, Any, pos, length, ◌==◌, if◌then◌else◌,
}
use troubleshoot.Go.Result.{Result, ok, err, not_found, collect}
use troubleshoot.Analyze.Types.{Outcome, AnalyzeResult, blank, report, chosen, passing}
use troubleshoot.Analyze.Outcomes.{outcome_loop}
use troubleshoot.Host.Contents.{
  CollectedContent, retrieve_collected_contents, Origin, retrieve_collected_contents-Origin,
}
use troubleshoot.Host.Evaluate.{analyze_host_collector_results, evaluate_outcomes, host_branch}
use troubleshoot.Host.Evaluate.PerNode.{
  Unconditional, PerContent, analyze_host_collector_results-PerContent,
}
use troubleshoot.Host.Cpu.{CpuInfo}

-- two nodes, and no local file
abbrev read : String → Result String
read file =
    if file == "host-collectors/system/node_list.json"
    then ok "nodes"
    else if file == "host-collectors/system/a/cpu.json"
    then ok "4"
    else if file == "host-collectors/system/b/cpu.json"
    then ok "8"
    else err (not_found file)

abbrev decode_names : String → Result (List String)
decode_names d = ok ("a" ∷ "b" ∷ [])

abbrev of_nodes : List (CollectedContent String)
of_nodes =
    record { node_name = "a"; data_of = "4" } ∷ record { node_name = "b"; data_of = "8" } ∷ []

retrieve_collected_contents-Origin_example :
    Origin read decode_names "host-collectors/system/cpu.json" "host-collectors/system" "cpu.json"
      of_nodes
unfolding retrieve_collected_contents
retrieve_collected_contents-Origin_example =
    retrieve_collected_contents-Origin read decode_names "host-collectors/system/cpu.json"
      "host-collectors/system" "cpu.json" of_nodes refl

abbrev always : Outcome
always = record {
  fail = none;
  warn = none;
  pass = some (record { when = ""; message = "m"; uri = "" });
}

abbrev check : String → String → Result Bool
check d when = ok (d == when)

abbrev passed : String → AnalyzeResult
passed title = report passing "m" "" (blank title "" "")

analyze_host_collector_results-PerContent_example :
    PerContent "CPU" of_nodes (passed "CPU - Node a" ∷ passed "CPU - Node b" ∷ [])
    × (Any Unconditional (always ∷ []) → 2 ≡ length of_nodes)
unfolding analyze_host_collector_results collect evaluate_outcomes host_branch outcome_loop chosen
analyze_host_collector_results-PerContent_example =
    analyze_host_collector_results-PerContent check (always ∷ []) "CPU" of_nodes
      (passed "CPU - Node a" ∷ passed "CPU - Node b" ∷ []) refl

abbrev cpu : CpuInfo
cpu = record {
  logical_count = pos 8;
  physical_count = pos 4;
  flags = "cmov" ∷ "sse" ∷ [];
  machine_arch_name = "x86_64";
}
