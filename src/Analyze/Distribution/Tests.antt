-- ===== src/Analyze/Distribution/Tests.antt =====
-- Runs of the analyzer of distributions on small inputs, and its theorems at those inputs.
use troubleshoot.Prelude.{String, ◌≡◌, refl, true, not, ◌&&◌, List, [], ◌∷◌}
use troubleshoot.Go.Result.{ok}
use troubleshoot.Go.Ascii.{to_lower}
use troubleshoot.Go.Bytes.{replace_all}
use troubleshoot.Go.Text.{trim_space, is_space, after_prefix}
use troubleshoot.Analyze.Distribution.{
  eks, tanzu, same, ordinal, Node, label_marks, node_marks, is_master_label, no_providers,
  set_provider, parse_nodes_for_providers, check_api_resources_for_providers,
  must_normalize_distribution_name, compare_distribution_conditional_to_actual,
}
use troubleshoot.Analyze.Distribution.Evidence.{some_element, shows, is_master}
use troubleshoot.Analyze.Distribution.Seen.{parse_nodes_for_providers_found}
use troubleshoot.Analyze.Distribution.Tanzu.{
  present, compare_distribution_conditional_to_actual_known,
}

-- a node of AWS with a label
abbrev node : String → Node
node label = record {
  labels = (label, "") ∷ [];
  annotations = [];
  os_image = "Linux";
  provider_id = "aws:///us-east-1";
}

abbrev nodes : List Node
nodes = node "node-role.kubernetes.io/master" ∷ node "kubernetes.azure.com/role" ∷ []

eks_kept : (parse_nodes_for_providers (node "kubernetes.azure.com/role" ∷ [])).0 eks ≡ true
unfolding parse_nodes_for_providers label_marks node_marks is_master_label after_prefix ordinal
eks_kept = refl

parse_nodes_for_providers_found_example :
    (parse_nodes_for_providers nodes).0 eks
    ≡ (some_element (shows eks) nodes && not (same eks eks && some_element is_master nodes))
parse_nodes_for_providers_found_example = parse_nodes_for_providers_found nodes eks

tanzu_resource :
    (check_api_resources_for_providers ("run.tanzu.vmware.com/v1" ∷ []) no_providers "").0 tanzu
    ≡ true
unfolding check_api_resources_for_providers after_prefix ordinal
tanzu_resource = refl

compare_distribution_conditional_to_actual_known_example :
    (compare_distribution_conditional_to_actual "tanzu" (set_provider tanzu true no_providers) ""
      ≡ ok (
        present (must_normalize_distribution_name "tanzu") (set_provider tanzu true no_providers),
        "",
      ))
    × (compare_distribution_conditional_to_actual "!= tanzu"
          (set_provider tanzu true no_providers)
          ""
        ≡ ok (
          not (
              present
                (must_normalize_distribution_name "tanzu")
                (set_provider tanzu true no_providers)),
          "",
        ))
unfolding is_space must_normalize_distribution_name to_lower replace_all trim_space ordinal
compare_distribution_conditional_to_actual_known_example =
    compare_distribution_conditional_to_actual_known "tanzu" ""
      (set_provider tanzu true no_providers) refl (refl, (refl, (refl, (refl, (refl, tt))))) refl
