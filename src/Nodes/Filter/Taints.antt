-- ===== src/Nodes/Filter/Taints.antt =====
-- What a filter on taints does to the filters after it.
use troubleshoot.Prelude.{String, ◌≡◌, refl, Bool, some, List}
use troubleshoot.Go.Result.{Result}
use troubleshoot.Nodes.{Quantities, Node}
use troubleshoot.Nodes.Filter.{
  NodeFilters, node_matches_filters, has_resource, has_labels, after_labels,
}

module _ {Q Taint Selector Labels : Type 0} (quantities : Quantities Q)
    (select_labels : Selector → Result (Labels → Bool))
    (taint_exists : List Taint → Taint → Bool) where
  -- With a filter on taints, those on the architecture, the CPUs, the memory, the pods and the
  -- storage have no effect: the answer is the same whatever they ask for, also where they cannot be
  -- parsed.
  pub node_matches_filters_taint :
      (filters : NodeFilters Taint Selector) (taint : Taint) (node : Node Q Taint Labels)
      (arch cpu cpu' memory memory' pods pods' storage storage' : String)
      → filters.taint ≡ some taint
      → node_matches_filters quantities select_labels taint_exists
          (some (record filters {
            cpu_architecture = arch;
            cpu_capacity = cpu;
            cpu_allocatable = cpu';
            memory_capacity = memory;
            memory_allocatable = memory';
            pod_capacity = pods;
            pod_allocatable = pods';
            ephemeral_storage_capacity = storage;
            ephemeral_storage_allocatable = storage';
          }))
          node
        ≡ node_matches_filters quantities select_labels taint_exists (some filters) node
  unfolding node_matches_filters has_resource has_labels after_labels
  node_matches_filters_taint filters taint node arch cpu cpu' memory memory' pods pods' storage
        storage' h =
      rw h refl
