-- ===== src/Host/Memory.antt =====
-- The analyzer of memory: pkg/analyze/host_memory.go.
pub mod Conditions
use Prim.Native.String.{◌++◌ as ◌⧺◌}
use troubleshoot.Prelude.{
  ℕ, String, ◌≡◌, refl, Bool, true, false, Option, none, some, List, [], ◌∷◌, ℤ, pos, negsuc,
  length,
}
use troubleshoot.Go.Result.{Result, ok, err, panic, message, wrap, ◌>>=◌}
use troubleshoot.Go.Text.{split, quoted}
use troubleshoot.Go.Strconv.{itoa}
use troubleshoot.Analyze.Types.{Outcome, AnalyzeResult}
use troubleshoot.Host.Bytes.{uint64, compare_uint64}
use troubleshoot.Host.Contents.{retrieve_collected_contents}
use troubleshoot.Host.Evaluate.{host_analyzer_title_or_default, analyze_host_collector_results}

abbrev pub compared : String → Option Bool → Result Bool
compared operator none = err (message ("unsupported operator: " ⧺ quoted operator))
compared operator (some b) = ok b

abbrev pub compare_desired : ℕ → String → String → Option ℤ → Result Bool
compare_desired total operator desired none =
    err (message ("could not parse quantity " ⧺ quoted desired))
compare_desired total operator desired (some (negsuc n)) =
    err (message ("desired value must be a positive integer, got " ⧺ itoa (negsuc n)))
compare_desired total operator desired (some (pos n)) =
    compared operator (compare_uint64 operator total (uint64 (pos n)))

abbrev pub memory_parts : (String → Option ℤ) → List String → ℕ → Result Bool
memory_parts quantity (operator ∷ desired ∷ []) total =
    compare_desired total operator desired (quantity desired)
memory_parts quantity parts total =
    err (message ("Expected 2 parts in conditional, got " ⧺ itoa (pos (length parts))))

-- `CheckCondition` for the total that is decoded
unfoldable pub check_memory : (String → Option ℤ) → ℕ → String → Result Bool
unfolding split uint64
check_memory quantity total when = memory_parts quantity (split b' ' when) total

-- `quantity` is ParseQuantity with AsInt64; `decode` is json.Unmarshal into the information on
-- memory, and `decode_names` that into the names of the nodes.
module _ {Data : Type 0} (quantity : String → Option ℤ) (read : String → Result Data)
    (decode : Data → Result ℕ) (decode_names : Data → Result (List String)) where
  unfoldable pub check_memory_condition : Data → String → Result Bool
  unfolding check_memory
  check_memory_condition d when = do
    total ← wrap "failed to unmarshal data into MemoryInfo" (decode d)
    check_memory quantity total when

  unfoldable pub analyze_host_memory : String → List Outcome → Result (List AnalyzeResult)
  unfolding check_memory_condition
  analyze_host_memory check_name outcomes = do
    let title = host_analyzer_title_or_default check_name "Amount of Memory"
    contents ←
        retrieve_collected_contents read decode_names "host-collectors/system/memory.json"
          "host-collectors/system" "memory.json"
    wrap "failed to analyze OS version"
        (analyze_host_collector_results check_memory_condition outcomes title contents)
