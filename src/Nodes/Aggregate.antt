-- ===== src/Nodes/Aggregate.antt =====
-- `getQuantity`, `findSum`, `findMin` and `findMax` of pkg/analyze/node_resources.go.
pub mod Extreme
use Prim.Native.Nat.{Ordering}
use troubleshoot.Prelude.{
  String, Bool, true, false, ◌≡◌, ◌≢◌, refl, sym, ap, ◌∙◌, Option, none, some, List, [], ◌∷◌, ◌==◌,
  if◌then◌else◌, All, Any, inl, inr, ◌⊎◌,
}
use troubleshoot.Nodes.{Quantities, OrderLaws, Node, resource_of, listed}
use troubleshoot.Nodes.Filter.{is_lt}

abbrev pub is_gt : Ordering → Bool
is_gt Ordering.lt = false
is_gt Ordering.eq = false
is_gt Ordering.gt = true

module _ {Q Taint Labels : Type 0} (quantities : Quantities Q) where
  unfoldable pub get_quantity : Node Q Taint Labels → String → String → Option Q
  get_quantity node property resource_name =
      if property == "cpuCapacity"
      then some (listed quantities "cpu" node.capacity)
      else if property == "cpuAllocatable"
      then some (listed quantities "cpu" node.allocatable)
      else if property == "memoryCapacity"
      then some (listed quantities "memory" node.capacity)
      else if property == "memoryAllocatable"
      then some (listed quantities "memory" node.allocatable)
      else if property == "podCapacity"
      then some (listed quantities "pods" node.capacity)
      else if property == "podAllocatable"
      then some (listed quantities "pods" node.allocatable)
      else if property == "ephemeralStorageCapacity"
      then some (listed quantities "ephemeral-storage" node.capacity)
      else if property == "ephemeralStorageAllocatable"
      then some (listed quantities "ephemeral-storage" node.allocatable)
      else if property == "resourceCapacity"
      then resource_of resource_name node.capacity
      else if property == "resourceAllocatable"
      then resource_of resource_name node.allocatable
      else none

  -- the quantities of the nodes that have one
  abbrev pub quantities_of : String → String → List (Node Q Taint Labels) → List Q
  quantities_of property resource_name [] = []
  quantities_of property resource_name (node ∷ nodes) =
      elim (get_quantity node property resource_name) [
        | none ↦ quantities_of property resource_name nodes
        | some q ↦ q ∷ quantities_of property resource_name nodes
      ]

-- The loops of the three aggregates, which pass over the nodes without a quantity.
module _ {Q : Type 0} (quantities : Quantities Q) where
  sum_from : Q → List Q → Q
  sum_from sum [] = sum
  sum_from sum (q ∷ qs) = sum_from (quantities.add sum q) qs

  abbrev pub replaces : (Ordering → Bool) → Option Q → Q → Option Q
  replaces better none q = some q
  replaces better (some best) q = if better (quantities.cmp q best) then some q else some best

  best_from : (Ordering → Bool) → Option Q → List Q → Option Q
  best_from better best [] = best
  best_from better best (q ∷ qs) = best_from better (replaces better best q) qs

module _ {Q Taint Labels : Type 0} (quantities : Quantities Q) where
  unfoldable pub find_sum : List (Node Q Taint Labels) → String → String → Q
  unfolding sum_from get_quantity
  find_sum nodes property name =
      sum_from quantities quantities.nothing (quantities_of quantities property name nodes)

  unfoldable pub find_min : List (Node Q Taint Labels) → String → String → Option Q
  unfolding best_from get_quantity
  find_min nodes property name =
      best_from quantities is_lt none (quantities_of quantities property name nodes)

  unfoldable pub find_max : List (Node Q Taint Labels) → String → String → Option Q
  unfolding best_from get_quantity
  find_max nodes property name =
      best_from quantities is_gt none (quantities_of quantities property name nodes)
