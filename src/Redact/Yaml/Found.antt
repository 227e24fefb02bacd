-- ===== src/Redact/Yaml/Found.antt =====
-- What the redactor of YAML changes, and when it ends.
use troubleshoot.Prelude.{
  ℕ, zero, suc, String, ◌≡◌, refl, Bool, true, false, not, ◌||◌, ◌&&◌, List, [], ◌∷◌, ◌==◌,
  if◌then◌else◌, ℤ, pos, negsuc, Bool-cases, inl, inr,
}
use troubleshoot.Go.Result.{Result, ok, err, panic, ◌>>=◌, map_result}
use troubleshoot.Go.Strconv.{atoi}
use troubleshoot.Redact.{Tokenizer, Label}
use troubleshoot.Redact.Yaml.{
  Yaml, text, other, sequence, mapping, Items, no_items, item, Entries, no_entries, entry, Walked,
  all_items, item_at, all_entries, entry_at, walk_sequence, is_empty_mapping, masked, redact_yaml,
}

-- the walk changes nothing unless it finds a match
abbrev pub Keeps : (Yaml → Walked) → Type 0
Keeps walk = (v w : Yaml) → walk v ≡ ok (w, false) → w ≡ v

module _ {A B C : Type 0} where
  both_unfound :
      (m : Result (A × Bool)) (n : Result (B × Bool)) (f : A → B → C) (c : C)
      → ◌>>=◌ {B = C × Bool} m (λ a. ◌>>=◌ {B = C × Bool} n (λ b. ok (f a.0 b.0, a.1 || b.1)))
        ≡ ok (c, false)
      → (a : A) × (b : B) × (m ≡ ok (a, false)) × (n ≡ ok (b, false)) × (f a b ≡ c)
  both_unfound (ok (a, false)) (ok (b, false)) f c h = (a, b, refl, refl, cc)
  both_unfound (ok (a, false)) (ok (b, true)) f c h = cc
  both_unfound (ok (a, true)) (ok (b, y)) f c h = cc
  both_unfound (ok (a, x)) (err e) f c h = cc
  both_unfound (ok (a, x)) (panic s) f c h = cc
  both_unfound (err e) n f c h = cc
  both_unfound (panic s) n f c h = cc

module _ {A C : Type 0} where
  one_unfound :
      (m : Result (A × Bool)) (f : A → C) (c : C)
      → ◌>>=◌ {B = C × Bool} m (λ a. ok (f a.0, a.1)) ≡ ok (c, false)
      → (a : A) × (m ≡ ok (a, false)) × (f a ≡ c)
  one_unfound (ok (a, false)) f c h = (a, refl, cc)
  one_unfound (ok (a, true)) f c h = cc
  one_unfound (err e) f c h = cc
  one_unfound (panic s) f c h = cc

module _ (walk : Yaml → Walked) (k : Keeps walk) where
  all_items_keep : (vs ws : Items) → all_items walk vs ≡ ok (ws, false) → ws ≡ vs
  unfolding all_items
  all_items_keep no_items ws h = cc
  all_items_keep (item v vs) ws h =
      let (v', vs', p, q, e) = both_unfound (walk v) (all_items walk vs) item ws h in
      cc (k v v' p, all_items_keep vs vs' q, e)

  item_at_keeps : (n : ℕ) (vs ws : Items) → item_at walk n vs ≡ ok (ws, false) → ws ≡ vs
  unfolding item_at
  item_at_keeps n no_items ws h = cc
  item_at_keeps zero (item v vs) ws h =
      let (v', p, e) = one_unfound (walk v) (λ w. item w vs) ws h in cc (k v v' p, e)
  item_at_keeps (suc n) (item v vs) ws h =
      let (vs', p, e) = one_unfound (item_at walk n vs) (item v) ws h in
      cc (item_at_keeps n vs vs' p, e)

  all_entries_keep : (vs ws : Entries) → all_entries walk vs ≡ ok (ws, false) → ws ≡ vs
  unfolding all_entries
  all_entries_keep no_entries ws h = cc
  all_entries_keep (entry key v vs) ws h =
      let (v', vs', p, q, e) = both_unfound (walk v) (all_entries walk vs) (entry key) ws h in
      cc (k v v' p, all_entries_keep vs vs' q, e)

  entry_at_keeps :
      (key : String) (vs ws : Entries) → entry_at walk key vs ≡ ok (ws, false) → ws ≡ vs
  unfolding entry_at
  entry_at_keeps key no_entries ws h = cc
  entry_at_keeps key (entry l v vs) ws h =
      let go = entry_at_keeps key vs in
      elim (Bool-cases (l == key)) [
        | inl q ↦
            let (v', p, e) = one_unfound (walk v) (λ w. entry l w vs) ws (rw q at h) in
            cc (k v v' p, e)
        | inr q ↦
            let (vs', p, e) = one_unfound (entry_at walk key vs) (entry l v) ws (rw q at h) in
            cc (go vs' p, e)
      ]

  walk_sequence_keeps :
      (i : Result ℤ) (vs ws : Items) → walk_sequence walk i vs ≡ ok (ws, false) → ws ≡ vs
  unfolding walk_sequence
  walk_sequence_keeps (ok (pos n)) vs ws h = item_at_keeps n vs ws h
  walk_sequence_keeps (ok (negsuc n)) vs ws h = cc
  walk_sequence_keeps (err e) vs ws h = cc
  walk_sequence_keeps (panic s) vs ws h = cc

mapped_unfound :
    {A B : Type 0} (m : Result (A × Bool)) (f : A → B) (b : B)
    → map_result {B = B × Bool} (λ r. (f r.0, r.1)) m ≡ ok (b, false)
    → (a : A) × (m ≡ ok (a, false)) × (f a ≡ b)
mapped_unfound (ok (a, false)) f b h = (a, refl, cc)
mapped_unfound (ok (a, true)) f b h = cc
mapped_unfound (err e) f b h = cc
mapped_unfound (panic s) f b h = cc

never_unfound :
    {v w : Yaml} (m : Result Yaml)
    → map_result {B = Yaml × Bool} (λ u. (u, true)) m ≡ ok (w, false)
    → w ≡ v
never_unfound (ok u) h = cc
never_unfound (err e) h = cc
never_unfound (panic s) h = cc

redact_yaml-Keeps :
    (tokenizer : Tokenizer) (label : Label) (path : List String)
    → Keeps (redact_yaml tokenizer label path)
unfolding redact_yaml
redact_yaml-Keeps tokenizer label [] v w h = never_unfound (masked tokenizer label v) h
redact_yaml-Keeps tokenizer label (p ∷ path) (text s) w h = cc
redact_yaml-Keeps tokenizer label (p ∷ path) (other s) w h = cc
redact_yaml-Keeps tokenizer label (p ∷ path) (sequence items) w h =
    let walk = redact_yaml tokenizer label path in
    let k = redact_yaml-Keeps tokenizer label path in
    let (items', q, e) =
      mapped_unfound (if p == "*" then all_items walk items else walk_sequence walk (atoi p) items)
        sequence w h in
    elim (Bool-cases (p == "*")) [
      | inl star ↦ cc (all_items_keep walk k items items' (rw star at q), e)
      | inr named ↦ cc (walk_sequence_keeps walk k (atoi p) items items' (rw named at q), e)
    ]
redact_yaml-Keeps tokenizer label (p ∷ path) (mapping entries) w h =
    let walk = redact_yaml tokenizer label path in
    let k = redact_yaml-Keeps tokenizer label path in
    let (entries', q, e) =
      mapped_unfound
        (if p == "*" && not (is_empty_mapping entries)
          then all_entries walk entries
          else entry_at walk p entries)
        mapping w h in
    elim (Bool-cases (p == "*" && not (is_empty_mapping entries))) [
      | inl star ↦ cc (all_entries_keep walk k entries entries' (rw star at q), e)
      | inr named ↦ cc (entry_at_keeps walk k p entries entries' (rw named at q), e)
    ]

-- A walk that sets no match gives the value back as it was.
pub redact_yaml_unfound :
    (tokenizer : Tokenizer) (label : Label) (path : List String) (v w : Yaml)
    → redact_yaml tokenizer label path v ≡ ok (w, false)
    → w ≡ v
redact_yaml_unfound tokenizer label path v w h = redact_yaml-Keeps tokenizer label path v w h
