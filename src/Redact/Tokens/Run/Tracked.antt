-- ===== src/Redact/Tokens/Run/Tracked.antt =====
-- What the tokenizer keeps of the files: the references of each token, the groups of duplicates and
-- the statistics.
use troubleshoot.Prelude.{
  ℕ, ◌+◌, ◌≤◌, String, ◌≡◌, refl, Option, none, some, List, [], ◌∷◌, arith, ◌==◌, Bool-cases,
  Option-cases, inl, inr, ap, length, length-append, member, Distinct, Distinct-snoc,
}
use troubleshoot.Go.Maps.{Map, lookup, lookup_or, store, store-inv}
use troubleshoot.Redact.Tokens.{
  Library, TokenizerConfig, State, set_enabled, fresh_tokenizer, DuplicateGroup, FileStats,
}
use troubleshoot.Redact.Tokens.Classify.{classify_secret}
use troubleshoot.Redact.Tokens.Normalize.{count_normalized}
use troubleshoot.Redact.Tokens.Generate.{generate_token, generate_secret_hash}
use troubleshoot.Redact.Tokens.Track.{
  with_path, add_reference, add_secret_reference, one_more, track_duplicate_secret, counted,
  new_stats, update_file_stats,
}
use troubleshoot.Redact.Tokens.Tokenize.{
  track, store_token, token_of, count_total, count_hit, count_miss,
}
use troubleshoot.Redact.Tokens.Run.{Call, Step, served, switched, Reaches, here, next, serve-inv}

-- A group lists each place once, and counts each place one time at least.
pub record IsGroup (g : DuplicateGroup) : Type 0 where
  pub distinct : Distinct g.locations
  pub counts : length g.locations ≤ g.count
  pub seen : 1 ≤ g.count

abbrev pub sum : Map ℕ → ℕ
sum [] = 0
sum ((k, n) ∷ m) = n + sum m

-- Statistics of the file whose types add up to the number of secrets found.
pub record IsStats (path : String) (s : FileStats) : Type 0 where
  pub same_path : s.file_path ≡ path
  pub same_number : s.tokens_used ≡ s.secrets_found
  pub adds_up : sum s.secret_types ≡ s.secrets_found

pub record Tracked (t : State) : Type 0 where
  pub refs :
      (token : String) (paths : List String)
      → lookup token t.secret_refs ≡ some paths
      → Distinct paths
  pub groups :
      (hash : String) (g : DuplicateGroup) → lookup hash t.duplicate_groups ≡ some g → IsGroup g
  pub files : (path : String) (s : FileStats) → lookup path t.file_stats ≡ some s → IsStats path s

Distinct-with_path :
    (path : String) (paths : List String) → Distinct paths → Distinct (with_path path paths)
Distinct-with_path path paths d = elim (Bool-cases (member path paths)) [
  | inl e ↦ rw e d
  | inr e ↦ rw e (Distinct-snoc path paths e d)
]

length-with_path :
    (path : String) (paths : List String) → length (with_path path paths) ≤ length paths + 1
length-with_path path paths = elim (Bool-cases (member path paths)) [
  | inl e ↦ rw e (omega arith)
  | inr e ↦ rw e (omega (arith, length-append paths (path ∷ [])))
]

refs-add_reference :
    (token path : String) (refs : Map (List String))
    → ((k : String) (paths : List String) → lookup k refs ≡ some paths → Distinct paths)
    → (k : String) (paths : List String) → lookup k (add_reference token path refs) ≡ some paths
    → Distinct paths
unfolding add_reference lookup_or
refs-add_reference token path refs h k paths q =
    elim (Bool-cases (member path (lookup_or [] token refs))) [
      | inl e ↦ h k paths (rw (add_reference, e) at q)
      | inr e ↦ elim (store-inv token k _ paths refs (rw (add_reference, e) at q)) [
        | inl (same, given) ↦
            rw (← given)
              (Distinct-snoc path (lookup_or [] token refs) e (before (lookup token refs) refl))
        | inr (differ, old) ↦ h k paths old
      ]
    ]
  where
    before : (o : Option (List String)) → lookup token refs ≡ o → Distinct (lookup_or [] token refs)
    before none e = rw (lookup_or, e) tt
    before (some paths) e = rw (lookup_or, e) (h token paths e)

one_more-IsGroup :
    (now : ℕ) (hash token type path : String) (o : Option DuplicateGroup)
    → ((g : DuplicateGroup) → o ≡ some g → IsGroup g)
    → IsGroup (one_more now hash token type path o)
unfolding one_more member
one_more-IsGroup now hash token type path none h = record {
  distinct = (refl, tt);
  counts = omega arith;
  seen = omega arith;
}
one_more-IsGroup now hash token type path (some g) h =
    let old = h g refl in
    record {
      distinct = Distinct-with_path path g.locations old.distinct;
      counts = omega (arith, length-with_path path g.locations, old.counts);
      seen = omega arith;
    }

sum-store : (key : String) (v : ℕ) (m : Map ℕ) → sum (store key v m) + lookup_or 0 key m ≡ sum m + v
unfolding store lookup_or lookup
sum-store key v [] = omega arith
sum-store key v ((k, n) ∷ m) = ground (arith, sum-store key v m)

counted-IsStats :
    (now : ℕ) (type path : String) (s : FileStats)
    → IsStats path s
    → IsStats path (counted now type s)
counted-IsStats now type path s h = record {
  same_path = h.same_path;
  same_number = ap (λ n. n + 1) h.same_number;
  adds_up =
      omega (arith, sum-store type (lookup_or 0 type s.secret_types + 1) s.secret_types, h.adds_up);
}

new_stats-IsStats : (now : ℕ) (path : String) → IsStats path (new_stats now path)
new_stats-IsStats now path = record { same_path = refl; same_number = refl; adds_up = refl }

or_new-IsStats :
    (now : ℕ) (path : String) (m : Map FileStats)
    → ((k : String) (s : FileStats) → lookup k m ≡ some s → IsStats k s)
    → (o : Option FileStats) → lookup path m ≡ o
    → IsStats path (lookup_or (new_stats now path) path m)
unfolding lookup_or
or_new-IsStats now path m h none e = rw (lookup_or, e) (new_stats-IsStats now path)
or_new-IsStats now path m h (some s) e = rw (lookup_or, e) (h path s e)

-- an entry that is stored passes the test of its key
stored {ℓ} :
    {V : Type ℓ} (P : String → V → Type 0) (key : String) (v : V) (m : Map V)
    → P key v
    → ((k : String) (w : V) → lookup k m ≡ some w → P k w)
    → (k : String) (w : V) → lookup k (store key v m) ≡ some w
    → P k w
stored P key v m p h k w q = elim (store-inv key k v w m q) [
  | inl (same, given) ↦ rw (← same, ← given) p
  | inr (differ, old) ↦ h k w old
]

track-Tracked :
    (lib : Library) (now : ℕ) (token normalized value context path : String) (t : State)
    → Tracked t
    → Tracked (track lib now token normalized value context path t)
unfolding track add_secret_reference update_file_stats track_duplicate_secret
track-Tracked lib now token normalized value context path t h = elim (Bool-cases (path == "")) [
  | inl e ↦ rw e h
  | inr e ↦
      let type = classify_secret lib t context value in
      let hash = generate_secret_hash lib normalized in
      rw e (record {
        refs = refs-add_reference token path t.secret_refs h.refs;
        groups =
            stored (λ _ g. IsGroup g) hash _ t.duplicate_groups
              (one_more-IsGroup now hash token type path (lookup hash t.duplicate_groups)
                (h.groups hash))
              h.groups;
        files =
            stored IsStats path _ t.file_stats
              (counted-IsStats now type path _
                (or_new-IsStats now path t.file_stats h.files (lookup path t.file_stats) refl))
              h.files;
      })
]

module _ (lib : Library) where
  token_of-Tracked :
      (c : Call) (t u : State) (n token : String)
      → token_of lib c.now n c.value c.context c.path t ≡ (token, u)
      → Tracked t
      → Tracked u
  unfolding token_of store_token
  token_of-Tracked c t u n token q h = elim (Option-cases (lookup n t.token_map)) [
    | inl e ↦
        let fresh = generate_token lib c.now (count_miss t) n c.context in
        rw (← ap (λ r. r.1) (rw (e, token_of) at q)) (
          track-Tracked lib c.now fresh n c.value c.context c.path
            (store_token lib fresh n c.value (count_miss t))
            (record { refs = h.refs; groups = h.groups; files = h.files }))
    | inr (old, e) ↦ rw (← ap (λ r. r.1) (rw (e, token_of) at q)) (
        track-Tracked lib c.now old n c.value c.context c.path (count_hit t)
          (record { refs = h.refs; groups = h.groups; files = h.files }))
  ]

  normalized-Tracked :
      (value n : String) (t : State)
      → Tracked t
      → Tracked (count_total (count_normalized value n t))
  unfolding count_normalized
  normalized-Tracked value n t h = elim (Bool-cases (n == value)) [
    | inl e ↦ rw e (record { refs = h.refs; groups = h.groups; files = h.files })
    | inr e ↦ rw e (record { refs = h.refs; groups = h.groups; files = h.files })
  ]

  Step-Tracked : {t u : State} → Step lib t u → Tracked t → Tracked u
  unfolding set_enabled
  Step-Tracked (served {t} {u} c token s) h = elim (serve-inv lib c t u token s) [
    | inl idle ↦ rw (← idle) h
    | inr (n, e, k) ↦
        token_of-Tracked c (count_total (count_normalized c.value n t)) u n token k
          (normalized-Tracked c.value n t h)
  ]
  Step-Tracked (switched t b) h = record { refs = h.refs; groups = h.groups; files = h.files }

  start-Tracked :
      (config : TokenizerConfig) (salt id : String) → Tracked (fresh_tokenizer config salt id)
  unfolding fresh_tokenizer lookup
  start-Tracked config salt id = record {
    refs = λ k v q. cc q;
    groups = λ k v q. cc q;
    files = λ k v q. cc q;
  }

  -- In every state that a new tokenizer reaches the files of a token are listed once each; a group of duplicates lists
  -- each place once and counts as many uses as places at least, and one at least; and the statistics of a file are
  -- filed under its path, count as many tokens as secrets, and the numbers of its types add up to
  -- that number.
  pub reached-Tracked :
      (config : TokenizerConfig) (salt id : String) (t : State)
      → Reaches lib (fresh_tokenizer config salt id) t
      → Tracked t
  reached-Tracked config salt id t here = start-Tracked config salt id
  reached-Tracked config salt id t (next {u} r s) =
      Step-Tracked s (reached-Tracked config salt id u r)
