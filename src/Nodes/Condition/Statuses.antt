-- ===== src/Nodes/Condition/Statuses.antt =====
-- The conditions on the status of nodes.
use troubleshoot.Prelude.{String, ◌≡◌, refl, some, List, [], ◌∷◌}
use troubleshoot.Go.Text.{contains}
use troubleshoot.Nodes.{Quantities, Node}
use troubleshoot.Nodes.Condition.{function_of, called, node_condition, compare_words}

module _ {Q Taint Labels : Type 0} (quantities : Quantities Q) where
  -- For a word that calls nodeCondition, the operators "!=", ">=" and "<=" mean the same as "==".
  compare_words_equals :
      (name word type desired : String) (nodes : List (Node Q Taint Labels))
      → function_of word ≡ some ("nodeCondition", type)
      → (compare_words quantities name (word ∷ "!=" ∷ desired ∷ []) nodes
          ≡ compare_words quantities name (word ∷ "==" ∷ desired ∷ []) nodes)
        × (compare_words quantities name (word ∷ ">=" ∷ desired ∷ []) nodes
            ≡ compare_words quantities name (word ∷ "==" ∷ desired ∷ []) nodes)
        × (compare_words quantities name (word ∷ "<=" ∷ desired ∷ []) nodes
            ≡ compare_words quantities name (word ∷ "==" ∷ desired ∷ []) nodes)
  unfolding compare_words called node_condition contains
  compare_words_equals name word type desired nodes h = rw h (refl, refl, refl)
