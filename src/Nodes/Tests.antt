-- ===== src/Nodes/Tests.antt =====
-- Runs of the analyzer of node resources with natural numbers as quantities, and its theorems there.
use Prim.Native.Nat.{compare}
use troubleshoot.Prelude.{
  ℕ, ◌+◌, String, ◌≡◌, refl, Bool, true, false, none, some, List, [], ◌∷◌, ◌==◌, ℤ, pos, arith,
  if◌then◌else◌,
}
use troubleshoot.Go.Result.{Result, ok, err, message}
use troubleshoot.Go.Strconv.{atoi, itoa}
use troubleshoot.Go.Text.{fields, trim_space, quoted}
use troubleshoot.Nodes.{Quantities, OrderLaws, Node, listed}
use troubleshoot.Nodes.Filter.{NodeFilters}
use troubleshoot.Nodes.Aggregate.{find_min, find_max, quantities_of}
use troubleshoot.Nodes.Aggregate.Extreme.{IsBest, NotAbove, find_min_max-IsBest}
use troubleshoot.Nodes.Condition.{
  function_of, operator_of, compare_node_resource_conditional_to_actual,
}

abbrev parsed : Result ℤ → Result ℕ
parsed (ok (pos n)) = ok n
parsed _ = err (message "quantities must match the regular expression")

abbrev numbers : Quantities ℕ
numbers = record { cmp = compare; add = λ a b. a + b; nothing = 0; parse = λ s. parsed (atoi s) }

numbers_laws : OrderLaws numbers
numbers_laws = record {
  cmp_asym = λ a b h. ground arith;
  cmp_trans = λ a b c h k. ground arith;
  cmp_mirror = λ a b h. ground arith;
  cmp_mirror_lt = λ a b h. ground arith;
}

abbrev node : ℕ → List String → Node ℕ String String
node memory taints = record {
  capacity = ("memory", memory) ∷ [];
  allocatable = [];
  taints = taints;
  labels = "";
  architecture = "amd64";
  conditions = ("Ready", "True") ∷ [];
}

abbrev two_nodes : List (Node ℕ String String)
two_nodes = node 8 [] ∷ node 4 [] ∷ []

least_memory : find_min numbers two_nodes "memoryCapacity" "" ≡ some 4
unfolding find_min listed
least_memory = refl

find_min_max-IsBest_example :
    IsBest
      (NotAbove numbers)
      (find_min numbers two_nodes "memoryCapacity" "")
      (quantities_of numbers "memoryCapacity" "" two_nodes)
    × IsBest
        (λ a b. NotAbove numbers b a)
        (find_max numbers two_nodes "memoryCapacity" "")
        (quantities_of numbers "memoryCapacity" "" two_nodes)
find_min_max-IsBest_example = find_min_max-IsBest numbers numbers_laws two_nodes "memoryCapacity" ""

memory_condition :
    compare_node_resource_conditional_to_actual numbers "min(memoryCapacity) >= 5" two_nodes ""
    ≡ ok false
unfolding compare_node_resource_conditional_to_actual fields trim_space atoi itoa function_of
    operator_of find_min listed
memory_condition = refl

unknown_function :
    compare_node_resource_conditional_to_actual numbers "avg(memoryCapacity) >= 5" two_nodes ""
    ≡ err (message "failed to evaluate \"avg(memoryCapacity) >= 5\"")
unfolding compare_node_resource_conditional_to_actual fields trim_space atoi function_of operator_of
    quoted
unknown_function = refl

-- a filter on taints and on the memory
abbrev filters : NodeFilters String String
filters = record {
  cpu_architecture = "";
  cpu_capacity = "";
  cpu_allocatable = "";
  memory_capacity = "6";
  memory_allocatable = "";
  pod_capacity = "";
  pod_allocatable = "";
  ephemeral_storage_capacity = "";
  ephemeral_storage_allocatable = "";
  selector = none;
  resource_name = "";
  resource_allocatable = "";
  resource_capacity = "";
  taint = some "t";
}

abbrev select_labels : String → Result (String → Bool)
select_labels s = ok (λ labels. labels == s)

abbrev taint_exists : List String → String → Bool
taint_exists [] t = false
taint_exists (u ∷ us) t = if u == t then true else taint_exists us t
