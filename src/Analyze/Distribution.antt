-- ===== src/Analyze/Distribution.antt =====
-- The analyzer of the distribution of a cluster: pkg/analyze/distribution.go.
pub mod Evidence
pub mod Seen
pub mod Tanzu
mod Tests
use Prim.Native.String.{◌++◌ as ◌⧺◌}
use troubleshoot.Prelude.{
  ℕ, String, ◌≡◌, refl, Bool, true, false, not, ◌&&◌, ◌||◌, Option, none, some, List, [], ◌∷◌, ◌++◌,
  ◌==◌, if◌then◌else◌, eqb,
}
use troubleshoot.Go.Result.{Result, ok, err, panic, ◌>>=◌, wrap, message}
use troubleshoot.Go.Text.{split, trim_space, is_some, after_prefix}
use troubleshoot.Go.Bytes.{replace_all}
use troubleshoot.Go.Ascii.{to_lower}
use troubleshoot.Multitype.{BoolOrString, bool_or_default_false}
use troubleshoot.Analyze.Types.{
  SingleOutcome, Outcome, AnalyzeResult, Severity, chosen, report, blank,
}

pub data Provider : Type 0 where
  unknown microk8s docker_desktop eks gke digital_ocean open_shift tanzu kurl aks ibm minikube rke2
        k3s oke kind k0s embedded_cluster :
      Provider

-- the number that iota gives
unfoldable pub ordinal : Provider → ℕ
ordinal unknown = 0
ordinal microk8s = 1
ordinal docker_desktop = 2
ordinal eks = 3
ordinal gke = 4
ordinal digital_ocean = 5
ordinal open_shift = 6
ordinal tanzu = 7
ordinal kurl = 8
ordinal aks = 9
ordinal ibm = 10
ordinal minikube = 11
ordinal rke2 = 12
ordinal k3s = 13
ordinal oke = 14
ordinal kind = 15
ordinal k0s = 16
ordinal embedded_cluster = 17

abbrev pub same : Provider → Provider → Bool
same p q = eqb (ordinal p) (ordinal q)

-- the struct `providers`, by its fields
abbrev pub Providers : Type 0
Providers = Provider → Bool

abbrev pub no_providers : Providers
no_providers p = false

-- `foundProviders.p = b`
abbrev pub set_provider : Provider → Bool → Providers → Providers
set_provider p b found q = if same p q then b else found q

-- what the analyzer reads of a node
pub record Node : Type 0 where
  pub labels : List (String × String)
  pub annotations : List (String × String)
  pub os_image : String
  pub provider_id : String

-- the variables of `ParseNodesForProviders`
pub record Scan : Type 0 where
  pub found : Providers
  pub found_master : Bool
  pub string_provider : String

-- one flag that is set, with the text
pub record Mark : Type 0 where
  pub provider : Provider
  pub text : String

abbrev pub mark : Provider → String → Mark
mark p text = record { provider = p; text = text }

abbrev pub if_mark : Bool → Provider → String → List Mark
if_mark b p text = if b then mark p text ∷ [] else []

-- what the tests of a label set, in their order
unfoldable pub label_marks : String × String → List Mark
label_marks (k, v) =
    (if k == "kurl.sh/cluster" && v == "true"
      then mark kurl "kurl" ∷ []
      else if_mark (k == "microk8s.io/cluster" && v == "true") microk8s "microk8s")
    ++ if_mark (k == "kubernetes.azure.com/role") aks "aks"
    ++ if_mark (k == "minikube.k8s.io/version") minikube "minikube"
    ++ if_mark (k == "node.kubernetes.io/instance-type" && v == "k3s") k3s "k3s"
    ++ if_mark (k == "beta.kubernetes.io/instance-type" && v == "k3s") k3s "k3s"
    ++ if_mark (k == "oci.oraclecloud.com/fault-domain") oke "oke"
    ++ if_mark (k == "node.k0sproject.io/role") k0s "k0s"
    ++ if_mark (k == "kots.io/embedded-cluster-role") embedded_cluster "embedded-cluster"
    ++ if_mark (k == "run.tanzu.vmware.com/kubernetesDistributionVersion") tanzu "tanzu"

unfoldable pub is_master_label : String × String → Bool
is_master_label (k, v) =
    k == "node-role.kubernetes.io/master" || k == "node-role.kubernetes.io/control-plane"

abbrev pub annotation_marks : String × String → List Mark
annotation_marks (k, v) = if_mark (k == "rke2.io/node-args") rke2 "rke2"

abbrev has_prefix : String → String → Bool
has_prefix s prefix = is_some (after_prefix prefix s)

-- the tests of a node after its labels and annotations
unfoldable pub node_marks : Node → List Mark
unfolding after_prefix
node_marks n =
    if_mark (n.os_image == "Docker Desktop") docker_desktop "dockerDesktop"
    ++ if_mark (has_prefix n.provider_id "digitalocean:") digital_ocean "digitalOcean"
    ++ if_mark (has_prefix n.provider_id "aws:") eks "eks"
    ++ if_mark (has_prefix n.provider_id "gce:") gke "gke"
    ++ if_mark (has_prefix n.provider_id "ibm:") ibm "ibm"
    ++ if_mark (has_prefix n.provider_id "kind:") kind "kind"

unfoldable pub set_marks : List Mark → Scan → Scan
set_marks [] s = s
set_marks (m ∷ ms) s =
    set_marks ms
      (record s { found = set_provider m.provider true s.found; string_provider = m.text })

unfoldable pub scan_labels : List (String × String) → Scan → Scan
unfolding label_marks is_master_label set_marks
scan_labels [] s = s
scan_labels (l ∷ ls) s =
    scan_labels ls
      (set_marks (label_marks l) (record s { found_master = s.found_master || is_master_label l }))

unfoldable pub scan_annotations : List (String × String) → Scan → Scan
unfolding set_marks
scan_annotations [] s = s
scan_annotations (a ∷ annotations) s =
    scan_annotations annotations (set_marks (annotation_marks a) s)

unfoldable pub scan_nodes : List Node → Scan → Scan
unfolding scan_labels scan_annotations node_marks set_marks
scan_nodes [] s = s
scan_nodes (n ∷ ns) s =
    scan_nodes ns
      (set_marks (node_marks n) (scan_annotations n.annotations (scan_labels n.labels s)))

abbrev pub start : Scan
start = record { found = no_providers; found_master = false; string_provider = "" }

-- "eks does not have masters within the node list"
abbrev pub drop_eks : Scan → Scan
drop_eks s =
    if s.found_master
    then record s {
      found = set_provider eks false s.found;
      string_provider = if s.string_provider == "eks" then "" else s.string_provider;
    }
    else s

abbrev prefer_embedded : Scan → Providers × String
prefer_embedded s = (
  s.found,
  if s.found k0s && s.found embedded_cluster then "embedded-cluster" else s.string_provider,
)

-- The order of the labels stands for the order in which the loop over the map takes them.
unfoldable pub parse_nodes_for_providers : List Node → Providers × String
unfolding scan_nodes ordinal
parse_nodes_for_providers nodes = prefer_embedded (drop_eks (scan_nodes nodes start))

-- the API resources by their group and version
unfoldable pub check_api_resources_for_providers :
    List String → Providers → String → Providers × String
unfolding after_prefix ordinal
check_api_resources_for_providers [] found provider = (found, provider)
check_api_resources_for_providers (group_version ∷ rest) found provider =
    let later = check_api_resources_for_providers rest found provider in
    if has_prefix group_version "apps.openshift.io/"
    then (set_provider open_shift true found, "openShift")
    else if has_prefix group_version "run.tanzu.vmware.com/"
    then (set_provider tanzu true found, "tanzu")
    else later

abbrev by_name : String → Provider
by_name s =
    if s == "microk8s"
    then microk8s
    else if s == "dockerdesktop" || s == "docker desktop" || s == "docker-desktop"
    then docker_desktop
    else if s == "eks"
    then eks
    else if s == "gke"
    then gke
    else if s == "digitalocean"
    then digital_ocean
    else if s == "openshift"
    then open_shift
    else if s == "tanzu"
    then tanzu
    else if s == "kurl"
    then kurl
    else if s == "aks"
    then aks
    else if s == "ibm" || s == "ibmcloud" || s == "ibm cloud"
    then ibm
    else if s == "minikube"
    then minikube
    else if s == "rke2"
    then rke2
    else if s == "k3s"
    then k3s
    else if s == "oke"
    then oke
    else if s == "kind"
    then kind
    else if s == "k0s"
    then k0s
    else if s == "embeddedcluster"
    then embedded_cluster
    else unknown

unfoldable pub must_normalize_distribution_name : String → Provider
unfolding trim_space to_lower replace_all
must_normalize_distribution_name raw = by_name (replace_all (trim_space (to_lower raw)) "-" "")

-- The switch on the name, which has no case for tanzu.
unfoldable pub is_distribution : Provider → Providers → Bool
is_distribution unknown actual = false
is_distribution tanzu actual = false
is_distribution p actual = actual p

abbrev pub by_operator : String → Bool → Bool
by_operator operator is_match =
    if operator == "=" || operator == "==" || operator == "==="
    then is_match
    else if operator == "!=" || operator == "!=="
    then not is_match
    else false

-- the answer, and the text of the unknown names
abbrev pub named : String → String → Providers → String → Bool × String
named operator name actual unknowns =
    let p = must_normalize_distribution_name name in
    if same p unknown
    then (false, unknowns ⧺ "- Unknown distribution: " ⧺ name ⧺ " ")
    else (by_operator operator (is_distribution p actual), unknowns)

abbrev pub distribution_parts : List String → Providers → String → Result (Bool × String)
distribution_parts (name ∷ []) actual unknowns = ok (named "=" name actual unknowns)
distribution_parts (operator ∷ name ∷ []) actual unknowns = ok (named operator name actual unknowns)
distribution_parts _ actual unknowns = err (message "unable to parse conditional")

unfoldable pub compare_distribution_conditional_to_actual :
    String → Providers → String → Result (Bool × String)
unfolding split trim_space ordinal must_normalize_distribution_name is_distribution
compare_distribution_conditional_to_actual condition actual unknowns =
    distribution_parts (split b' ' (trim_space condition)) actual unknowns

abbrev undecided : String → AnalyzeResult → AnalyzeResult
undecided unknowns r = record r {
  is_warn = true;
  message = if unknowns == "" then "None of the conditionals were met" else unknowns;
}

-- the loop over the outcomes, with the unknown names so far
unfoldable pub distribution_loop :
    Providers → AnalyzeResult → String → List Outcome → Result AnalyzeResult
unfolding compare_distribution_conditional_to_actual
distribution_loop actual r unknowns [] = ok (undecided unknowns r)
distribution_loop actual r unknowns (o ∷ rest) = elim (chosen o) [
  | none ↦ distribution_loop actual r unknowns rest
  | some (severity, s) ↦
      if s.when == ""
      then ok (report severity s.message s.uri r)
      else wrap "failed to compare distribution conditional"
          (compare_distribution_conditional_to_actual s.when actual unknowns)
        >>= λ (is_match, unknowns'). elim is_match [
          | true ↦ ok (report severity s.message s.uri r)
          | false ↦ distribution_loop actual r unknowns' rest
        ]
]

pub record Distribution : Type 0 where
  pub check_name : String
  pub outcomes : List Outcome
  pub strict : Option BoolOrString

-- the JSON codec
pub record Decoders : Type 0 where
  pub nodes : String → Result (List Node)
  pub resources : String → Result (List String)

abbrev with_resources : Decoders → Result String → Providers → Result Providers
with_resources decode (ok contents) found = do
  resources ← wrap "failed to unmarshal api resource list" (decode.resources contents)
  ok (check_api_resources_for_providers resources found "").0
with_resources decode (err e) found = ok found
with_resources decode (panic s) found = panic s

abbrev distribution_title : Distribution → String
distribution_title a = if a.check_name == "" then "Kubernetes Distribution" else a.check_name

-- `get_file` reads a collected file.
unfoldable pub analyze_distribution :
    (String → Result String) → Decoders → Distribution → Result (List AnalyzeResult)
unfolding distribution_loop parse_nodes_for_providers check_api_resources_for_providers
analyze_distribution get_file decode a = wrap "failed to analyze distribution" (do
  collected ← wrap "failed to get contents of nodes.json" (get_file "cluster-resources/nodes.json")
  nodes ← wrap "failed to unmarshal node list" (decode.nodes collected)
  found ←
      with_resources decode (get_file "cluster-resources/resources.json")
        (parse_nodes_for_providers nodes).0
  r ←
      distribution_loop found
        (blank (distribution_title a) "kubernetes_distribution"
          "https://troubleshoot.sh/images/analyzer-icons/distribution.svg?w=20&h=14")
        "" a.outcomes
  ok (record r { strict = bool_or_default_false a.strict } ∷ []))
