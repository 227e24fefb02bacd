-- ===== src/Nodes/Filter.antt =====
-- `nodeMatchesFilters` of pkg/analyze/node_resources.go.
pub mod Taints
use Prim.Native.Nat.{Ordering}
use Prim.Native.String.{◌++◌ as ◌⧺◌}
use troubleshoot.Prelude.{
  String, Bool, true, false, not, ◌≡◌, refl, ◌&&◌, ◌||◌, Option, none, some, List, [], ◌∷◌, ◌==◌,
  if◌then◌else◌,
}
use troubleshoot.Go.Result.{Result, ok, err, wrap, ◌>>=◌}
use troubleshoot.Go.Text.{equal_fold, is_some}
use troubleshoot.Nodes.{Quantities, Node, resource_of, listed, or_nothing}

-- `NodeResourceFilters` of pkg/apis/troubleshoot/v1beta2/analyzer_shared.go
pub record NodeFilters (Taint Selector : Type 0) : Type 0 where
  pub cpu_architecture : String
  pub cpu_capacity : String
  pub cpu_allocatable : String
  pub memory_capacity : String
  pub memory_allocatable : String
  pub pod_capacity : String
  pub pod_allocatable : String
  pub ephemeral_storage_capacity : String
  pub ephemeral_storage_allocatable : String
  pub selector : Option Selector
  pub resource_name : String
  pub resource_allocatable : String
  pub resource_capacity : String
  pub taint : Option Taint

abbrev pub is_lt : Ordering → Bool
is_lt Ordering.lt = true
is_lt Ordering.eq = false
is_lt Ordering.gt = false

-- `select_labels` is LabelSelectorAsSelector with Matches, and `taint_exists` taints.TaintExists.
module _ {Q Taint Selector Labels : Type 0} (quantities : Quantities Q)
    (select_labels : Selector → Result (Labels → Bool))
    (taint_exists : List Taint → Taint → Bool) where
  -- filters on quantities: the text, what the error says is parsed, and the node's quantity
  unfoldable pub enough : List (String × String × Q) → Result Bool
  enough [] = ok true
  enough ((wanted, what, actual) ∷ rest) =
      let later = enough rest in
      if wanted == "" then later else do
        parsed ← wrap ("failed to parse " ⧺ what) (quantities.parse wanted)
        if is_lt (quantities.cmp actual parsed) then ok false else later

  abbrev quantity_filters :
      NodeFilters Taint Selector → Node Q Taint Labels → List (String × String × Q)
  quantity_filters filters node =
      (filters.cpu_capacity, "cpu capacity", listed quantities "cpu" node.capacity)
      ∷ (filters.cpu_allocatable, "cpu allocatable", listed quantities "cpu" node.allocatable)
      ∷ (filters.memory_capacity, "memory capacity", listed quantities "memory" node.capacity)
      ∷ (
        filters.memory_allocatable,
        "memory allocatable",
        listed quantities "memory" node.allocatable,
      )
      ∷ (filters.pod_capacity, "pod capacity", listed quantities "pods" node.capacity)
      ∷ (filters.pod_allocatable, "pod allocatable", listed quantities "pods" node.allocatable)
      ∷ (
        filters.ephemeral_storage_capacity,
        "ephemeralstorage capacity",
        listed quantities "ephemeral-storage" node.capacity,
      )
      ∷ (
        filters.ephemeral_storage_allocatable,
        "ephemeralstorage allocatable",
        listed quantities "ephemeral-storage" node.allocatable,
      )
      ∷ []

  -- the filter on one named resource
  has_resource : NodeFilters Taint Selector → Node Q Taint Labels → Result Bool
  unfolding enough
  has_resource filters node =
      if filters.resource_name == ""
      then ok true
      else if not (is_some (resource_of filters.resource_name node.capacity))
          && not (is_some (resource_of filters.resource_name node.allocatable))
      then ok false
      else enough (
          (
            filters.resource_capacity,
            "resource capacity",
            listed quantities filters.resource_name node.capacity,
          )
          ∷ (
            filters.resource_allocatable,
            "resource allocatable",
            listed quantities filters.resource_name node.allocatable,
          )
          ∷ [])

  has_labels : NodeFilters Taint Selector → Node Q Taint Labels → Result Bool
  has_labels filters node = elim filters.selector [
    | none ↦ ok true
    | some selector ↦ do
      matches ← wrap "failed to create label selector" (select_labels selector)
      ok (matches node.labels)
  ]

  -- A filter on taints returns at once; those on the architecture and the quantities are after it.
  after_labels : NodeFilters Taint Selector → Node Q Taint Labels → Result Bool
  unfolding enough
  after_labels filters node = elim filters.taint [
    | some taint ↦ ok (taint_exists node.taints taint)
    | none ↦
        if not (filters.cpu_architecture == "")
          && not (equal_fold node.architecture filters.cpu_architecture)
        then ok false
        else enough (quantity_filters filters node)
  ]

  abbrev and_then : Result Bool → Result Bool → Result Bool
  and_then r next = r >>= λ found. if found then next else ok false

  unfoldable pub node_matches_filters :
      Option (NodeFilters Taint Selector) → Node Q Taint Labels → Result Bool
  unfolding has_resource has_labels after_labels
  node_matches_filters none node = ok true
  node_matches_filters (some filters) node =
      and_then (has_resource filters node)
        (and_then (has_labels filters node) (after_labels filters node))
