-- ===== src/Redact/Tokens/Report.antt =====
-- `GetRedactionMap` and the other operations that report on a tokenizer.
pub mod Types
use Prim.Native.String.{◌++◌ as ◌⧺◌}
use troubleshoot.Prelude.{
  ℕ, ◌+◌, String, ◌≡◌, refl, Bool, true, false, ◌&&◌, Option, none, some, List, [], ◌∷◌, map, leb,
  ltb, length, select, if◌then◌else◌,
}
use troubleshoot.Go.Text.{split, is_some, after_prefix}
use troubleshoot.Go.Maps.{Map, lookup, lookup_or, store}
use troubleshoot.Redact.Tokens.{State, DuplicateGroup, CorrelationGroup, FileStats, CacheStats}
use troubleshoot.Redact.Tokens.Correlate.{analyze_correlations}

-- The statistics without the processing time, which the caller fills in.
pub record RedactionStats : Type 0 where
  pub total_secrets : ℕ
  pub unique_secrets : ℕ
  pub tokens_generated : ℕ
  pub secrets_by_type : Map ℕ
  pub files_covered : ℕ
  pub duplicate_count : ℕ
  pub correlation_count : ℕ
  pub normalization_hits : ℕ
  pub cache_hits : ℕ
  pub cache_misses : ℕ
  pub file_coverage : Map FileStats

-- `encryption_key` is empty where there is none.
pub record RedactionMap : Type 0 where
  pub tokens : Map String
  pub stats : RedactionStats
  pub timestamp : ℕ
  pub profile : String
  pub bundle_id : String
  pub secret_refs : Map (List String)
  pub duplicates : List DuplicateGroup
  pub correlations : List CorrelationGroup
  pub encryption_key : List ℕ
  pub is_encrypted : Bool

-- the part that the loop over the tokens counts, if the token has one
abbrev pub third_part : String → List String → Option String
third_part token (_ ∷ _ ∷ part ∷ _) =
    if is_some (after_prefix "***TOKEN_" token) then some part else none
third_part token _ = none

unfoldable pub token_type : String → Option String
unfolding split after_prefix
token_type token = third_part token (split b'_' token)

unfoldable pub count_types : Map String → Map ℕ → Map ℕ
unfolding token_type store lookup_or
count_types [] counts = counts
count_types ((token, _) ∷ tokens) counts = elim (token_type token) [
  | none ↦ count_types tokens counts
  | some type ↦ count_types tokens (store type (lookup_or 0 type counts + 1) counts)
]

abbrev pub is_duplicate : DuplicateGroup → Bool
is_duplicate group = ltb 1 group.count

abbrev pub values {ℓ} : {V : Type ℓ} → Map V → List V
values = map (λ e. e.1)

unfoldable pub get_redaction_map : ℕ → String → State → RedactionMap × State
unfolding analyze_correlations count_types
get_redaction_map now profile t =
    let u = analyze_correlations now t in
    (
      record {
        tokens = u.reverse_map;
        stats = record {
          total_secrets = length u.token_map;
          unique_secrets = length u.token_map;
          tokens_generated = length u.reverse_map;
          secrets_by_type = count_types u.reverse_map [];
          files_covered = length u.file_stats;
          duplicate_count = length (select is_duplicate (values u.duplicate_groups));
          correlation_count = length u.correlations;
          normalization_hits = length u.normalized_secrets;
          cache_hits = u.cache_stats.hits;
          cache_misses = u.cache_stats.misses;
          file_coverage = u.file_stats;
        };
        timestamp = now;
        profile = profile;
        bundle_id = u.bundle_id;
        secret_refs = u.secret_refs;
        duplicates = values u.duplicate_groups;
        correlations = u.correlations;
        encryption_key = [];
        is_encrypted = false;
      },
      u,
    )

-- `GetDuplicateGroups`
abbrev pub get_duplicate_groups : State → List DuplicateGroup
get_duplicate_groups t = select is_duplicate (values t.duplicate_groups)

-- `GetFileStats`
abbrev pub get_file_stats : State → String → Option FileStats
get_file_stats t path = lookup path t.file_stats

-- `GetTokenCount`
abbrev pub get_token_count : State → ℕ
get_token_count t = length t.token_map
