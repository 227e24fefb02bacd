-- ===== src/Dedup.antt =====
-- The lists of specs before they are run: `DedupAnalyzers` of pkg/analyze/analyzer.go, and
-- `DedupCollectors`, `EnsureClusterResourcesFirst` and `EnsureCopyLast` of
-- pkg/collect/collector.go.
pub mod Unique
pub mod Ordered
mod Tests
use troubleshoot.Prelude.{
  String, Bool, true, false, not, Option, none, some, List, [], ◌∷◌, ◌++◌, if◌then◌else◌, member,
  select,
}

-- `marshal` is json.Marshal, `none` where it fails; then the spec is kept.
module _ {A : Type 0} (marshal : A → Option String) where
  -- `unique` holds the texts of the specs before.
  unfoldable pub dedup_loop : List String → List A → List A
  unfolding member
  dedup_loop unique [] = []
  dedup_loop unique (x ∷ xs) = elim (marshal x) [
    | none ↦ x ∷ dedup_loop unique xs
    | some text ↦ elim (member text unique) [
      | true ↦ dedup_loop unique xs
      | false ↦ x ∷ dedup_loop (text ∷ unique) xs
    ]
  ]

  unfoldable pub dedup_analyzers : List A → List A
  unfolding dedup_loop
  dedup_analyzers specs = dedup_loop [] specs

  -- the same code for collectors
  unfoldable pub dedup_collectors : List A → List A
  unfolding dedup_loop
  dedup_collectors specs = dedup_loop [] specs

-- A loop that fills two slices, and the slices one after the other.
module _ {A : Type 0} where
  abbrev pub sorted_out : (A → Bool) → List A → List A × List A
  sorted_out p [] = ([], [])
  sorted_out p (x ∷ xs) =
      let (taken, other) = sorted_out p xs in if p x then (x ∷ taken, other) else (taken, x ∷ other)

  -- `collects` tells the collectors of cluster resources.
  unfoldable pub ensure_cluster_resources_first : (A → Bool) → List A → List A
  ensure_cluster_resources_first collects list =
      let (first, other) = sorted_out collects list in first ++ other

  -- `copies` tells the collectors that copy.
  unfoldable pub ensure_copy_last : (A → Bool) → List A → List A
  ensure_copy_last copies list = let (last, other) = sorted_out copies list in other ++ last
