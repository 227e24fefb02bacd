-- ===== src/Nodes/Condition.antt =====
-- `compareNodeResourceConditionalToActual` and `analyzeNodeResources` of
-- pkg/analyze/node_resources.go.
pub mod Statuses
use Prim.Native.Nat.{Ordering}
use Prim.Native.String.{◌++◌ as ◌⧺◌}
use troubleshoot.Prelude.{
  ℕ, code, String, Bool, true, false, not, ◌&&◌, ◌||◌, ◌≡◌, refl, Option, none, some, List, [], ◌∷◌,
  ◌==◌, if◌then◌else◌, ℤ, pos, ltb_ℤ, eqb_ℤ, eqb, length,
}
use troubleshoot.Go.Result.{Result, ok, err, panic, Error, message, wrap, ◌>>=◌}
use troubleshoot.Go.Text.{fields, trim_space, quoted, contains}
use troubleshoot.Go.Strconv.{atoi, itoa}
use troubleshoot.Analyze.Types.{Severity, SingleOutcome, Outcome, AnalyzeResult, report, blank}
use troubleshoot.Analyze.Outcomes.{Branch, outcome_loop}
use troubleshoot.Nodes.{Quantities, Node}
use troubleshoot.Nodes.Filter.{NodeFilters, is_lt, node_matches_filters}
use troubleshoot.Nodes.Aggregate.{is_gt, find_sum, find_min, find_max}

-- the text before the last of one character
before_last : ℕ → String → Option String
before_last sep String.[] = none
before_last sep (String.◌∷◌ c s) = elim (before_last sep s) [
  | some t ↦ some (String.◌∷◌ c t)
  | none ↦ if eqb sep (code c) then some "" else none
]

-- The submatches of `(?P<function>.*)\((?P<property>.*)\)` in a text of one line: both groups take
-- as much as they can, the first one before the other.
unfoldable pub call_of : String → Option (String × String)
unfolding before_last
call_of String.[] = none
call_of (String.◌∷◌ c s) = elim (call_of s) [
  | some (function, property) ↦ some (String.◌∷◌ c function, property)
  | none ↦
      if eqb b'(' (code c)
      then (elim (before_last b')' s) [ some property ↦ some ("", property) | none ↦ none ])
      else none
]

-- A word that is no call is matched again behind "count() == ".
unfoldable pub function_of : String → Option (String × String)
unfolding call_of
function_of word = elim (call_of word) [ some f ↦ some f | none ↦ call_of ("count() == " ⧺ word) ]

-- the desired value: an int, or else the text
pub data Desired : Type 0 where
  number : ℤ → Desired
  quantity_text : String → Desired

abbrev desired_from : String → Result ℤ → Desired
desired_from text (ok v) = number v
desired_from text _ = quantity_text text

-- the actual value: an int, a pointer to a quantity, or nothing
pub data Actual (Q : Type 0) : Type 0 where
  counted : ℕ → Actual Q
  measured : Option Q → Actual Q
  unset : Actual Q

unfoldable pub operator_of : String → Option (Ordering → Bool)
operator_of operator =
    if operator == "=" || operator == "==" || operator == "==="
    then some (λ o. not (is_lt o) && not (is_gt o))
    else if operator == "<"
    then some is_lt
    else if operator == ">"
    then some is_gt
    else if operator == "<="
    then some (λ o. not (is_gt o))
    else if operator == ">="
    then some (λ o. not (is_lt o))
    else none

abbrev order_of : ℤ → ℤ → Ordering
order_of a b = if ltb_ℤ a b then Ordering.lt else if eqb_ℤ a b then Ordering.eq else Ordering.gt

module _ {Q : Type 0} (quantities : Quantities Q) where
  -- The comparison with a quantity. MustParse panics where the text does not parse, and so does
  -- Cmp of a nil pointer.
  with_quantity : (Ordering → Bool) → Option Q → String → Result Bool
  with_quantity test none text = panic "invalid memory address or nil pointer dereference"
  with_quantity test (some q) text = elim (quantities.parse text) [
    | ok wanted ↦ ok (test (quantities.cmp q wanted))
    | err e ↦ panic "cannot parse quantity"
    | panic s ↦ panic s
  ]

  -- An int that is not compared with an int is taken for a quantity, and the assertion panics.
  compared : (Ordering → Bool) → Actual Q → Desired → Result Bool
  unfolding with_quantity
  compared test (counted n) (number v) = ok (test (order_of (pos n) v))
  compared test (counted n) (quantity_text t) = panic "interface conversion"
  compared test (measured q) (number v) = with_quantity test q (itoa v)
  compared test (measured q) (quantity_text t) = with_quantity test q t
  compared test unset desired = panic "interface conversion"

has_condition : String → String → List (String × String) → Bool
has_condition type status [] = false
has_condition type status ((t, s) ∷ rest) =
    t == type && s == status || has_condition type status rest

abbrev with_count : List String → List String
with_count (operator ∷ desired ∷ []) = "count" ∷ operator ∷ desired ∷ []
with_count parts = parts

-- The deferred call makes an error of every panic; its text is left out.
abbrev pub recovered : String → Result Bool → Result Bool
recovered conditional (panic s) = err (message ("failed to evaluate " ⧺ quoted conditional))
recovered conditional r = r

module _ {Q Taint Labels : Type 0} (quantities : Quantities Q) where
  actual_of : String → String → String → List (Node Q Taint Labels) → Actual Q
  actual_of function property name nodes =
      if function == "count"
      then counted (length nodes)
      else if function == "min"
      then measured (find_min quantities nodes property name)
      else if function == "max"
      then measured (find_max quantities nodes property name)
      else if function == "sum"
      then measured (some (find_sum quantities nodes property name))
      else unset

  some_node : String → String → List (Node Q Taint Labels) → Bool
  unfolding has_condition
  some_node type status [] = false
  some_node type status (node ∷ nodes) =
      has_condition type status node.conditions || some_node type status nodes

  -- A status is never equal to an int. The operator has to contain one equals sign.
  node_condition : String → String → Desired → List (Node Q Taint Labels) → Result Bool
  unfolding some_node
  node_condition operator type desired nodes =
      if not (contains operator "=")
      then err (message "nodeCondition function can only be compared using equals expression.")
      else if type == ""
      then err (message "value function parameter missing.")
      else elim desired [
        | number v ↦ ok false
        | quantity_text status ↦ ok (some_node type status nodes)
      ]

  called :
      Option (String × String)
      → String
      → Desired
      → String
      → List (Node Q Taint Labels)
      → Result Bool
  unfolding compared actual_of node_condition
  called none operator desired name nodes =
      err (message "conditional does not match pattern of function(property?)")
  called (some (function, property)) operator desired name nodes =
      if function == "nodeCondition"
      then node_condition operator property desired nodes
      else elim (operator_of operator) [
        | none ↦ err (message "unexpected conditional in nodeResources")
        | some test ↦ compared quantities test (actual_of function property name nodes) desired
      ]

  -- the three words of a condition
  unfoldable pub compare_words : String → List String → List (Node Q Taint Labels) → Result Bool
  unfolding called function_of
  compare_words name (word ∷ operator ∷ desired ∷ []) nodes =
      called (function_of word) operator (desired_from desired (atoi desired)) name nodes
  compare_words name _ nodes = err (message "unable to parse nodeResources conditional")

  unfoldable pub compare_node_resource_conditional_to_actual :
      String → List (Node Q Taint Labels) → String → Result Bool
  unfolding compare_words
  compare_node_resource_conditional_to_actual conditional nodes name =
      if conditional == ""
      then ok true
      else recovered conditional
          (compare_words name (with_count (fields (trim_space conditional))) nodes)

-- `matches_filters` is `nodeMatchesFilters` with the filters of the spec, `render` RenderTemplate
-- with these filters and a number of nodes, `read` reads a collected file and `decode` decodes it.
module _ {Q Taint Labels Data : Type 0} (quantities : Quantities Q)
    (matches_filters : Node Q Taint Labels → Result Bool) (render : ℕ → String → Result String)
    (read : String → Result Data) (decode : Data → Result (List (Node Q Taint Labels))) where
  -- the loop over the nodes
  unfoldable pub matching_nodes : List (Node Q Taint Labels) → Result (List (Node Q Taint Labels))
  matching_nodes [] = ok []
  matching_nodes (node ∷ nodes) = do
    found ← wrap "failed to check if node matches filter" (matches_filters node)
    rest ← matching_nodes nodes
    ok (if found then node ∷ rest else rest)

  nodes_branch : AnalyzeResult → String → List (Node Q Taint Labels) → Branch AnalyzeResult
  unfolding compare_node_resource_conditional_to_actual
  nodes_branch result name nodes severity s = do
    found ←
        wrap "failed to parse when"
          (compare_node_resource_conditional_to_actual quantities s.when nodes name)
    if found
        then (do
          text ← wrap "failed to render message template" (render (length nodes) s.message)
          ok (some (report severity text s.uri result)))
        else ok none

  -- `name` is the resource name of the filters, or the empty text without filters.
  unfoldable pub analyze_node_resources : String → String → List Outcome → Result AnalyzeResult
  unfolding matching_nodes nodes_branch outcome_loop
  analyze_node_resources title name outcomes = do
    d ← wrap "failed to get contents of nodes.json" (read "cluster-resources/nodes.json")
    nodes ← wrap "failed to unmarshal node list" (decode d)
    found ← matching_nodes nodes
    let result =
        blank title "kubernetes_node_resources"
          "https://troubleshoot.sh/images/analyzer-icons/node-resources.svg?w=16&h=18"
    outcome_loop (nodes_branch result name found) result outcomes
