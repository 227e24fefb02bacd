-- ===== src/Analyze/Deployment.antt =====
-- pkg/analyze/deployment_status.go
pub mod All
use Prim.Native.String.{◌++◌ as ◌⧺◌}
use troubleshoot.Prelude.{
  String, Bool, true, false, Option, none, some, List, [], ◌∷◌, ◌==◌, if◌then◌else◌, ℤ, pos, eqb_ℤ,
}
use troubleshoot.Go.Result.{Result, ok, wrap, collect, map_result, ◌>>=◌}
use troubleshoot.Go.Strconv.{itoa}
use troubleshoot.Analyze.Types.{AnalyzeResult, blank}
use troubleshoot.Analyze.Status.{common_status}
use troubleshoot.Analyze.Workload.{
  StatusSpec, status_title, resource_file, files_or_all, with_strict, as_list, last_of_files,
}

-- what is read of an `appsv1.Deployment`
pub record Deployment : Type 0 where
  pub namespace : String
  pub name : String
  pub replicas : ℤ
  pub ready_replicas : ℤ
  pub available_replicas : ℤ

abbrev pub deployment_icon : String
deployment_icon = "https://troubleshoot.sh/images/analyzer-icons/deployment-status.svg?w=17&h=17"

unfoldable pub deployment_title : StatusSpec → String
unfolding status_title
deployment_title a = status_title "Deployment" a

-- the loop has no `break`: the last deployment of that name is kept
unfoldable pub find_deployment : String → Option Deployment → List Deployment → Option Deployment
find_deployment name status [] = status
find_deployment name status (d ∷ rest) =
    find_deployment name (if d.name == name then some d else status) rest

unfoldable pub ready_of : Option Deployment → ℤ
ready_of none = pos 0
ready_of (some d) = d.ready_replicas

abbrev found : Option Deployment → Bool
found none = false
found (some d) = true

unfoldable pub unavailable_report : Deployment → AnalyzeResult
unavailable_report d =
    let full_name = d.namespace ⧺ "/" ⧺ d.name in
    let title = full_name ⧺ " Deployment Status" in
    record (blank title "kubernetes_deployment_status" deployment_icon) {
      is_fail = true;
      message =
          "The deployment "
          ⧺ full_name
          ⧺ " has "
          ⧺ itoa d.ready_replicas
          ⧺ "/"
          ⧺ itoa d.replicas
          ⧺ " replicas";
    }

unavailable : Deployment → List AnalyzeResult
unavailable d = if eqb_ℤ d.replicas d.available_replicas then [] else unavailable_report d ∷ []

-- `get_file_contents` is the lookup in the bundle, whose map of files is read in some order;
-- `unmarshal` is json.Unmarshal into a `DeploymentList`.
module _ {Data : Type 0} (get_file_contents : String → List String → Result (List Data))
    (unmarshal : Data → Result (List Deployment)) where
  decoded : Data → Result (List Deployment)
  decoded d = wrap "failed to unmarshal deployment list" (unmarshal d)

  one_file : StatusSpec → Data → Result (Option AnalyzeResult)
  one_file a d = do
    deployments ← decoded d
    let status = find_deployment a.name none deployments
    r ← wrap "failed to process status" (
        common_status a.outcomes (record {
          name = a.name;
          icon_key = "kubernetes_deployment_status";
          icon_uri = deployment_icon;
          ready_replicas = ready_of status;
          exists = found status;
          resource_type = "deployment";
        }))
    ok (some r)

  unfoldable pub analyze_one_deployment_status : StatusSpec → Result (List AnalyzeResult)
  unfolding decoded one_file find_deployment ready_of
  analyze_one_deployment_status a = do
    files ←
        wrap "failed to read collected deployments from namespace"
          (get_file_contents (resource_file "deployments" a.namespace) [])
    result ← last_of_files (one_file a) none files
    ok (as_list result)

  unavailable_in : Data → Result (List AnalyzeResult)
  unavailable_in d = do deployments ← decoded d; collect (λ x. ok (unavailable x)) deployments

  unavailable_in_file : String → Result (List AnalyzeResult)
  unavailable_in_file file = do
    files ← wrap "failed to read collected deployments from file" (get_file_contents file [])
    collect unavailable_in files

  unfoldable pub analyze_all_deployment_statuses : StatusSpec → Result (List AnalyzeResult)
  unfolding decoded unavailable_in unavailable_in_file unavailable
  analyze_all_deployment_statuses a = collect unavailable_in_file (files_or_all "deployments" a)

  unfoldable pub analyze_deployment_status : StatusSpec → Result (List AnalyzeResult)
  analyze_deployment_status a =
      if a.name == "" then analyze_all_deployment_statuses a else analyze_one_deployment_status a

  -- the method `Analyze`
  unfoldable pub analyze_deployment : StatusSpec → Result (List AnalyzeResult)
  unfolding analyze_deployment_status
  analyze_deployment a = map_result (with_strict a) (analyze_deployment_status a)
