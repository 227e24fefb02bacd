-- ===== src/Host/Services.antt =====
-- The analyzer of services: pkg/analyze/host_services.go.
pub mod Opposite
use Prim.Native.String.{◌++◌ as ◌⧺◌}
use troubleshoot.Prelude.{
  String, ◌≡◌, refl, Bool, true, false, not, ◌&&◌, ◌||◌, List, [], ◌∷◌, ◌==◌, if◌then◌else◌, pos,
  length,
}
use troubleshoot.Go.Result.{Result, ok, err, panic, message, wrap, ◌>>=◌}
use troubleshoot.Go.Text.{split, quoted, is_some, after_prefix}
use troubleshoot.Go.Strconv.{itoa}
use troubleshoot.Analyze.Types.{Outcome, AnalyzeResult}
use troubleshoot.Host.Contents.{retrieve_collected_contents}
use troubleshoot.Host.Evaluate.{host_analyzer_title_or_default, analyze_host_collector_results}

pub record ServiceInfo : Type 0 where
  pub unit_name : String
  pub load : String
  pub active : String
  pub sub : String

unfoldable pub is_service_match : String → String → Bool
unfolding after_prefix
is_service_match name wanted = name == wanted || is_some (after_prefix wanted name)

-- the values of a condition; one that is empty or a star asks for nothing
pub record Wanted : Type 0 where
  pub active_match : String
  pub sub_match : String
  pub load_match : String

abbrev pub wanted_of : List String → Wanted
wanted_of [] = record { active_match = ""; sub_match = ""; load_match = "" }
wanted_of (a ∷ []) = record { active_match = a; sub_match = ""; load_match = "" }
wanted_of (a ∷ s ∷ []) = record { active_match = a; sub_match = s; load_match = "" }
wanted_of (a ∷ s ∷ l ∷ _) = record { active_match = a; sub_match = s; load_match = l }

abbrev asks : String → Bool
asks wanted = not (wanted == "") && not (wanted == "*")

unfoldable pub all_equal : Wanted → ServiceInfo → Bool
all_equal w s =
    (if asks w.active_match then w.active_match == s.active else true)
    && (if asks w.sub_match then w.sub_match == s.sub else true)
    && (if asks w.load_match then w.load_match == s.load else true)

unfoldable pub some_differ : Wanted → ServiceInfo → Bool
some_differ w s =
    (if asks w.active_match then not (w.active_match == s.active) else false)
    || (if asks w.sub_match then not (w.sub_match == s.sub) else false)
    || (if asks w.load_match then not (w.load_match == s.load) else false)

-- The loop returns the answer for the first service that matches.
unfoldable pub first_service : (ServiceInfo → Bool) → String → List ServiceInfo → Bool
unfolding is_service_match
first_service answer name [] = false
first_service answer name (s ∷ services) =
    if is_service_match s.unit_name name then answer s else first_service answer name services

abbrev pub service_parts : List String → List ServiceInfo → Result Bool
service_parts (name ∷ operator ∷ values ∷ []) services =
    let w = wanted_of (split b',' values) in
    if operator == "=" || operator == "=="
    then ok (first_service (λ s. all_equal w s) name services)
    else if operator == "!=" || operator == "<>"
    then ok (first_service (λ s. some_differ w s) name services)
    else err (message ("unexpected operator " ⧺ quoted operator))
service_parts parts services =
    err (message ("expected exactly 3 parts, got " ⧺ itoa (pos (length parts))))

unfoldable pub compare_host_services_conditional_to_actual : String → List ServiceInfo → Result Bool
unfolding split first_service all_equal some_differ
compare_host_services_conditional_to_actual conditional services =
    service_parts (split b' ' conditional) services

-- `decode` is json.Unmarshal into the services, and `decode_names` that into the names of the nodes.
module _ {Data : Type 0} (read : String → Result Data) (decode : Data → Result (List ServiceInfo))
    (decode_names : Data → Result (List String)) where
  unfoldable pub check_services_condition : Data → String → Result Bool
  unfolding compare_host_services_conditional_to_actual
  check_services_condition d when = do
    services ← wrap "failed to unmarshal data into ServiceInfo" (decode d)
    compare_host_services_conditional_to_actual when services

  unfoldable pub analyze_host_services : String → List Outcome → Result (List AnalyzeResult)
  unfolding check_services_condition
  analyze_host_services check_name outcomes = do
    let title = host_analyzer_title_or_default check_name "Host Services"
    contents ←
        retrieve_collected_contents read decode_names
          "host-collectors/system/systemctl_services.json" "host-collectors/system"
          "systemctl_services.json"
    wrap "failed to analyze host services"
        (analyze_host_collector_results check_services_condition outcomes title contents)
