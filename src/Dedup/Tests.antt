-- ===== src/Dedup/Tests.antt =====
-- Runs on small lists, and the theorems at those lists.
use troubleshoot.Prelude.{
  String, ◌≡◌, refl, Option, none, some, List, [], ◌∷◌, ◌==◌, if◌then◌else◌, member,
}
use troubleshoot.Dedup.{dedup_analyzers}
use troubleshoot.Dedup.Unique.{Deduplicated, dedup_analyzers-Deduplicated}

-- a text that cannot be marshalled
abbrev marshal : String → Option String
marshal s = if s == "bad" then none else some s

abbrev specs : List String
specs = "a" ∷ "bad" ∷ "b" ∷ "a" ∷ "bad" ∷ []

first_copies_kept : dedup_analyzers marshal specs ≡ "a" ∷ "bad" ∷ "b" ∷ "bad" ∷ []
unfolding dedup_analyzers member
first_copies_kept = refl

dedup_analyzers-Deduplicated_example : Deduplicated marshal specs (dedup_analyzers marshal specs)
dedup_analyzers-Deduplicated_example = dedup_analyzers-Deduplicated marshal specs
