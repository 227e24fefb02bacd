-- ===== src/Nodes.antt =====
-- The analyzer of node resources, pkg/analyze/node_resources.go: its nodes and quantities.
pub mod Filter
pub mod Aggregate
pub mod Condition
mod Tests
use Prim.Native.Nat.{Ordering}
use troubleshoot.Prelude.{
  String, Bool, true, false, ◌≡◌, ◌≢◌, Option, none, some, List, [], ◌∷◌, ◌==◌, if◌then◌else◌,
}
use troubleshoot.Go.Result.{Result, ok, err}

-- Package resource: `cmp` is Quantity.Cmp, `add` Quantity.Add, `nothing` the zero value, and
-- `parse` ParseQuantity.
pub record Quantities (Q : Type 0) : Type 0 where
  pub cmp : Q → Q → Ordering
  pub add : Q → Q → Q
  pub nothing : Q
  pub parse : String → Result Q

-- What Cmp is documented to be: a total order.
pub record OrderLaws {Q : Type 0} (quantities : Quantities Q) : Type 0 where
  pub cmp_asym : (a b : Q) → quantities.cmp a b ≡ Ordering.lt → quantities.cmp b a ≢ Ordering.lt
  pub cmp_trans :
      (a b c : Q)
      → quantities.cmp b a ≢ Ordering.lt
      → quantities.cmp c b ≢ Ordering.lt
      → quantities.cmp c a ≢ Ordering.lt
  pub cmp_mirror : (a b : Q) → quantities.cmp a b ≡ Ordering.gt → quantities.cmp b a ≡ Ordering.lt
  pub cmp_mirror_lt :
      (a b : Q) → quantities.cmp a b ≡ Ordering.lt → quantities.cmp b a ≡ Ordering.gt

-- the fields of corev1.Node that the analyzer reads
pub record Node (Q Taint Labels : Type 0) : Type 0 where
  pub capacity : List (String × Q)
  pub allocatable : List (String × Q)
  pub taints : List Taint
  pub labels : Labels
  pub architecture : String
  pub conditions : List (String × String)

unfoldable pub resource_of : {Q : Type 0} → String → List (String × Q) → Option Q
resource_of name [] = none
resource_of name ((n, q) ∷ rest) = if n == name then some q else resource_of name rest

-- `Cpu()`, `Memory()` and the like give the zero value for a resource that is not listed
abbrev pub or_nothing : {Q : Type 0} → Quantities Q → Option Q → Q
or_nothing quantities none = quantities.nothing
or_nothing quantities (some q) = q

unfoldable pub listed : {Q : Type 0} → Quantities Q → String → List (String × Q) → Q
unfolding resource_of
listed quantities name resources = or_nothing quantities (resource_of name resources)
