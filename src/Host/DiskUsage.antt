-- ===== src/Host/DiskUsage.antt =====
-- The analyzer of disk usage: pkg/analyze/host_disk_usage.go.
pub mod Limits
use Prim.Native.String.{◌++◌ as ◌⧺◌}
use troubleshoot.Prelude.{
  ℕ, String, ◌≡◌, refl, Bool, true, false, ◌||◌, Option, none, some, List, [], ◌∷◌, ◌==◌,
  if◌then◌else◌, ℤ, pos, length,
}
use troubleshoot.Go.Result.{Result, ok, err, panic, message, wrap, ◌>>=◌}
use troubleshoot.Go.Text.{split, quoted, lower_is}
use troubleshoot.Go.Ascii.{to_lower, before_suffix}
use troubleshoot.Go.Strconv.{itoa}
use troubleshoot.Analyze.Types.{Outcome, AnalyzeResult}
use troubleshoot.Host.Bytes.{uint64, sub_uint64, compare_uint64}
use troubleshoot.Host.Contents.{retrieve_collected_contents}
use troubleshoot.Host.Evaluate.{host_analyzer_title_or_default, analyze_host_collector_results}

-- float64 with strconv.ParseFloat, as far as the comparison of shares uses it
pub record Floats : Type 1 where
  pub Float : Type 0
  pub of_uint64 : ℕ → Float
  pub divided : Float → Float → Float
  pub below : Float → Float → Bool
  pub at_most : Float → Float → Bool
  pub same_float : Float → Float → Bool
  pub parse_float : String → Result Float

pub record DiskUsageInfo : Type 0 where
  pub total_bytes : ℕ
  pub used_bytes : ℕ

abbrev pub known_operator : Option Bool → Result Bool
known_operator none = err (message "unknown operator")
known_operator (some b) = ok b

-- `quantity` is ParseQuantity with AsInt64, which fail with the same error.
unfoldable pub do_compare_host_disk_usage : (String → Option ℤ) → String → String → ℕ → Result Bool
unfolding uint64
do_compare_host_disk_usage quantity operator desired actual = elim (quantity desired) [
  | none ↦ err (message ("could not parse quantity " ⧺ quoted desired))
  | some n ↦ known_operator (compare_uint64 operator actual (uint64 n))
]

abbrev compare_floats : (floats : Floats) → String → floats.Float → floats.Float → Option Bool
compare_floats floats operator actual desired =
    if operator == "<"
    then some (floats.below actual desired)
    else if operator == "<="
    then some (floats.at_most actual desired)
    else if operator == ">"
    then some (floats.below desired actual)
    else if operator == ">="
    then some (floats.at_most desired actual)
    else if operator == "=" || operator == "==" || operator == "==="
    then some (floats.same_float actual desired)
    else none

-- the number of a share, with or without a percent sign
abbrev desired_share : (floats : Floats) → String → Result floats.Float
desired_share floats desired = elim (before_suffix "%" desired) [
  | none ↦ wrap "parsed desired quantity" (floats.parse_float desired)
  | some percent ↦ wrap "parsed desired quantity" (floats.parse_float percent) >>= λ x.
      ok (floats.divided x (floats.of_uint64 100))
]

unfoldable pub do_compare_host_disk_usage_percent :
    (floats : Floats) → String → String → floats.Float → Result Bool
unfolding before_suffix
do_compare_host_disk_usage_percent floats operator desired actual =
    desired_share floats desired >>= λ share.
    known_operator (compare_floats floats operator actual share)

abbrev share_of : (floats : Floats) → ℕ → ℕ → floats.Float
share_of floats part total = floats.divided (floats.of_uint64 part) (floats.of_uint64 total)

module _ (quantity : String → Option ℤ) (floats : Floats) where
  abbrev pub disk_usage_parts : List String → DiskUsageInfo → Result Bool
  disk_usage_parts (stat ∷ comparator ∷ desired ∷ []) d =
      if lower_is stat "total"
      then do_compare_host_disk_usage quantity comparator desired d.total_bytes
      else if lower_is stat "used"
      then do_compare_host_disk_usage quantity comparator desired d.used_bytes
      else if lower_is stat "available"
      then do_compare_host_disk_usage quantity comparator desired
          (sub_uint64 d.total_bytes d.used_bytes)
      else if lower_is stat "used/total"
      then do_compare_host_disk_usage_percent floats comparator desired
          (share_of floats d.used_bytes d.total_bytes)
      else if lower_is stat "available/total"
      then do_compare_host_disk_usage_percent floats comparator desired
          (share_of floats (sub_uint64 d.total_bytes d.used_bytes) d.total_bytes)
      else err (message ("unknown disk usage statistic " ⧺ quoted (to_lower stat)))
  disk_usage_parts parts d =
      err (message ("conditional must have exactly 3 parts, got " ⧺ itoa (pos (length parts))))

  unfoldable pub compare_host_disk_usage_conditional_to_actual :
      String → DiskUsageInfo → Result Bool
  unfolding split lower_is do_compare_host_disk_usage do_compare_host_disk_usage_percent sub_uint64
  compare_host_disk_usage_conditional_to_actual conditional d =
      disk_usage_parts (split b' ' conditional) d

  -- `decode` is json.Unmarshal into the usage of the disk, and `decode_names` that into the names of
  -- the nodes.
  module _ {Data : Type 0} (read : String → Result Data) (decode : Data → Result DiskUsageInfo)
      (decode_names : Data → Result (List String)) where
    unfoldable pub check_disk_usage_condition : Data → String → Result Bool
    unfolding compare_host_disk_usage_conditional_to_actual
    check_disk_usage_condition data_of when = do
      d ← wrap "failed to unmarshal data into DiskUsageInfo" (decode data_of)
      compare_host_disk_usage_conditional_to_actual when d

    unfoldable pub analyze_host_disk_usage :
        String → String → List Outcome → Result (List AnalyzeResult)
    unfolding check_disk_usage_condition
    analyze_host_disk_usage check_name collector_name outcomes = do
      let title = host_analyzer_title_or_default check_name ("Disk Usage " ⧺ collector_name)
      let name = if collector_name == "" then "diskUsage" else collector_name
      contents ←
          retrieve_collected_contents read decode_names
            ("host-collectors/diskUsage/" ⧺ name ⧺ ".json") "host-collectors/diskUsage"
            (name ⧺ ".json")
      wrap "failed to analyze disk usage"
          (analyze_host_collector_results check_disk_usage_condition outcomes title contents)
