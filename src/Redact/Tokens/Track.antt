-- ===== src/Redact/Tokens/Track.antt =====
-- `addSecretReference`, `trackDuplicateSecret` and `updateFileStats`.
use troubleshoot.Prelude.{
  ℕ, ◌+◌, String, Option, none, some, List, [], ◌∷◌, ◌++◌, if◌then◌else◌, member,
}
use troubleshoot.Go.Maps.{Map, lookup, lookup_or, store}
use troubleshoot.Redact.Tokens.{State, DuplicateGroup, FileStats}

-- the loop that looks for the path, and the append after it
abbrev pub with_path : String → List String → List String
with_path path paths = if member path paths then paths else paths ++ path ∷ []

-- A path that is there already leaves the map as it is.
unfoldable pub add_reference : String → String → Map (List String) → Map (List String)
unfolding lookup_or store
add_reference token path refs =
    let paths = lookup_or [] token refs in
    if member path paths then refs else store token (paths ++ path ∷ []) refs

unfoldable pub add_secret_reference : String → String → State → State
unfolding add_reference
add_secret_reference token path t = record t {
  secret_refs = add_reference token path t.secret_refs;
}

-- The entry of the group after one more occurrence.
unfoldable pub one_more :
    ℕ → String → String → String → String → Option DuplicateGroup → DuplicateGroup
one_more now secret_hash token secret_type path (some g) = record g {
  count = g.count + 1;
  last_seen = now;
  locations = with_path path g.locations;
}
one_more now secret_hash token secret_type path none = record {
  secret_hash = secret_hash;
  token = token;
  secret_type = secret_type;
  locations = path ∷ [];
  count = 1;
  first_seen = now;
  last_seen = now;
}

unfoldable pub track_duplicate_secret : ℕ → String → String → String → String → State → State
unfolding lookup store one_more
track_duplicate_secret now secret_hash token secret_type path t = record t {
  duplicate_groups =
      store secret_hash
        (one_more now secret_hash token secret_type path (lookup secret_hash t.duplicate_groups))
        t.duplicate_groups;
}

abbrev pub new_stats : ℕ → String → FileStats
new_stats now path = record {
  file_path = path;
  secrets_found = 0;
  tokens_used = 0;
  secret_types = [];
  processed_at = now;
}

-- The entry of the file after one more secret.
abbrev pub counted : ℕ → String → FileStats → FileStats
counted now secret_type s = record s {
  secrets_found = s.secrets_found + 1;
  tokens_used = s.tokens_used + 1;
  secret_types = store secret_type (lookup_or 0 secret_type s.secret_types + 1) s.secret_types;
  processed_at = now;
}

unfoldable pub update_file_stats : ℕ → String → String → State → State
unfolding lookup_or store
update_file_stats now path secret_type t = record t {
  file_stats =
      store path (counted now secret_type (lookup_or (new_stats now path) path t.file_stats))
        t.file_stats;
}
