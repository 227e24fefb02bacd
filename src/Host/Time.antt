-- ===== src/Host/Time.antt =====
-- The analyzer of the time settings: pkg/analyze/host_time.go.
pub mod Ntp
use Prim.Native.String.{◌++◌ as ◌⧺◌}
use troubleshoot.Prelude.{
  String, ◌≡◌, refl, Bool, true, false, not, ◌&&◌, ◌||◌, List, [], ◌∷◌, ◌==◌, if◌then◌else◌, pos,
  length,
}
use troubleshoot.Go.Result.{Result, ok, err, panic, message, wrap, ◌>>=◌}
use troubleshoot.Go.Text.{split, quoted}
use troubleshoot.Go.Strconv.{itoa}
use troubleshoot.Analyze.Types.{Outcome, AnalyzeResult}
use troubleshoot.Host.Contents.{retrieve_collected_contents}
use troubleshoot.Host.Evaluate.{host_analyzer_title_or_default, analyze_host_collector_results}

pub record TimeInfo : Type 0 where
  pub timezone : String
  pub ntp_synchronized : Bool
  pub ntp_active : Bool

abbrev is_equals : String → Bool
is_equals operator = operator == "=" || operator == "==" || operator == "==="

abbrev compare_timezone : String → String → TimeInfo → Result Bool
compare_timezone operator zone info =
    if not (is_equals operator || operator == "!=")
    then err (message "Only supported operators are \"==\" and \"!=\"")
    else if operator == "!="
    then ok (not (zone == info.timezone))
    else ok (zone == info.timezone)

abbrev compare_ntp : String → String → TimeInfo → Result Bool
compare_ntp operator status info =
    if not (is_equals operator)
    then err (message "Only supported operator is \"==\"")
    else if status == "synchronized+active"
    then ok (info.ntp_synchronized && info.ntp_active)
    else if status == "synchronized+inactive"
    then ok (info.ntp_synchronized && not info.ntp_active)
    else if status == "unsynchronized+active"
    then ok (not info.ntp_synchronized && info.ntp_active)
    else if status == "unsynchronized+inactive"
    then ok (not info.ntp_synchronized && not info.ntp_active)
    else err (
        message (
          "Unknown status "
          ⧺ quoted status
          ⧺ ". Allowed values are \"synchronized+active\", \"synchronized+inactive\", "
          ⧺ "\"unsynchronized+active\", or \"unsynchronized+inactive\""))

abbrev time_parts : List String → TimeInfo → Result Bool
time_parts (keyword ∷ operator ∷ value ∷ []) info =
    if keyword == "timezone"
    then compare_timezone operator value info
    else if keyword == "ntp"
    then compare_ntp operator value info
    else err (message ("Unknown keyword: " ⧺ keyword))
time_parts parts info = err (message ("Expected exactly 3 parts, got " ⧺ itoa (pos (length parts))))

unfoldable pub compare_host_time_status_to_actual : String → TimeInfo → Result Bool
unfolding split
compare_host_time_status_to_actual status info = time_parts (split b' ' status) info

-- `decode` is json.Unmarshal into the settings, and `decode_names` that into the names of the nodes.
module _ {Data : Type 0} (read : String → Result Data) (decode : Data → Result TimeInfo)
    (decode_names : Data → Result (List String)) where
  unfoldable pub check_time_condition : Data → String → Result Bool
  unfolding compare_host_time_status_to_actual
  check_time_condition d when = do
    info ← wrap "failed to unmarshal data into TimeInfo" (decode d)
    compare_host_time_status_to_actual when info

  unfoldable pub analyze_host_time : String → List Outcome → Result (List AnalyzeResult)
  unfolding check_time_condition
  analyze_host_time check_name outcomes = do
    let title = host_analyzer_title_or_default check_name "Time"
    contents ←
        retrieve_collected_contents read decode_names "host-collectors/system/time.json"
          "host-collectors/system" "time.json"
    wrap "failed to analyze OS version"
        (analyze_host_collector_results check_time_condition outcomes title contents)
