-- ===== src/Redact/Yaml/Returns.antt =====
-- How the walk of the redactor of YAML ends.
use troubleshoot.Prelude.{
  ℕ, zero, suc, String, ◌≡◌, ◌≢◌, refl, Bool, true, false, not, ◌&&◌, List, [], ◌∷◌, ◌==◌,
  if◌then◌else◌, ℤ, pos, negsuc, All, none, some, ◌⊎◌, inl, inr, Bool-cases,
}
use troubleshoot.Go.Result.{Result, ok, err, panic, ◌>>=◌, map_result}
use troubleshoot.Go.Strconv.{atoi, atoi_returns}
use troubleshoot.Redact.{Tokenizer, Label, token_panic}
use troubleshoot.Redact.Yaml.{
  Yaml, text, other, sequence, mapping, Items, no_items, item, Entries, no_entries, entry, Walked,
  all_items, item_at, all_entries, entry_at, walk_sequence, is_empty_mapping, masked, redact_yaml,
}

abbrev pub Returns {ℓ} : {A : Type ℓ} → Result A → Type ℓ
Returns {A = A} m = (a : A) × (m ≡ ok a)

-- The tokenizer panics on some value.
abbrev pub Panicky : Tokenizer → Type 0
Panicky none = ⊥
Panicky (some tokens) =
    (value : String) × (context : String) × (path : String) × (tokens.panics value context path
      ≡ true)

-- There is a result, or a call of the tokenizer panics, and it does panic on some value.
abbrev pub Ends {ℓ} : {A : Type ℓ} → Tokenizer → Result A → Type ℓ
Ends tokenizer m = Returns m ⊎ ((m ≡ panic token_panic) × Panicky tokenizer)

pub bind-Returns :
    {A B : Type 0} (m : Result A) (k : A → Result B)
    → Returns m
    → ((a : A) → Returns (k a))
    → Returns (m >>= k)
bind-Returns (ok a) k r h = h a
bind-Returns (err e) k (a, p) h = cc
bind-Returns (panic s) k (a, p) h = cc

pub if-Returns :
    {A : Type 0} (b : Bool) (x y : Result A) → Returns x → Returns y → Returns (if b then x else y)
if-Returns true x y p q = p
if-Returns false x y p q = q

pub bind-Ends :
    {A B : Type 0} (tokenizer : Tokenizer) (m : Result A) (k : A → Result B)
    → Ends tokenizer m
    → ((a : A) → Ends tokenizer (k a))
    → Ends tokenizer (m >>= k)
bind-Ends tokenizer (ok a) k r h = h a
bind-Ends tokenizer (err e) k (inl (a, p)) h = cc p
bind-Ends tokenizer (err e) k (inr (p, q)) h = cc p
bind-Ends tokenizer (panic s) k (inl (a, p)) h = cc p
bind-Ends tokenizer (panic s) k (inr (p, q)) h = inr (cc p, q)

pub if-Ends :
    {A : Type 0} (tokenizer : Tokenizer) (b : Bool) (x y : Result A)
    → Ends tokenizer x
    → Ends tokenizer y
    → Ends tokenizer (if b then x else y)
if-Ends tokenizer true x y p q = p
if-Ends tokenizer false x y p q = q

pub map_result-Ends :
    {A B : Type 0} (tokenizer : Tokenizer) (f : A → B) (m : Result A)
    → Ends tokenizer m
    → Ends tokenizer (map_result f m)
map_result-Ends tokenizer f (ok a) r = inl (f a, refl)
map_result-Ends tokenizer f (err e) (inl (a, p)) = cc p
map_result-Ends tokenizer f (err e) (inr (p, q)) = cc p
map_result-Ends tokenizer f (panic s) (inl (a, p)) = cc p
map_result-Ends tokenizer f (panic s) (inr (p, q)) = inr (cc p, q)

masked-Ends :
    (tokenizer : Tokenizer) (label : Label) (v : Yaml) → Ends tokenizer (masked tokenizer label v)
unfolding masked
masked-Ends none label v = inl (_, refl)
masked-Ends (some tokens) label (text value) = elim (Bool-cases (value == "")) [
  | inl e ↦ rw e (inl (_, refl))
  | inr e ↦ elim (Bool-cases (tokens.panics value label.redact_name label.file_path)) [
    | inl p ↦ rw (e, p) (inr (refl, (value, label.redact_name, label.file_path, p)))
    | inr p ↦ rw (e, p) (inl (_, refl))
  ]
]
masked-Ends (some tokens) label (other s) = inl (_, refl)
masked-Ends (some tokens) label (sequence _) = inl (_, refl)
masked-Ends (some tokens) label (mapping _) = inl (_, refl)

module _ (tokenizer : Tokenizer) (walk : Yaml → Walked)
    (r : (v : Yaml) → Ends tokenizer (walk v)) where
  all_items_end : (vs : Items) → Ends tokenizer (all_items walk vs)
  unfolding all_items
  all_items_end no_items = inl (_, refl)
  all_items_end (item v vs) =
      bind-Ends tokenizer (walk v) _ (r v)
        λ a. bind-Ends tokenizer (all_items walk vs) _ (all_items_end vs) (λ b. inl (_, refl))

  item_at-Ends : (n : ℕ) (vs : Items) → Ends tokenizer (item_at walk n vs)
  unfolding item_at
  item_at-Ends n no_items = inl (_, refl)
  item_at-Ends zero (item v vs) = bind-Ends tokenizer (walk v) _ (r v) (λ a. inl (_, refl))
  item_at-Ends (suc n) (item v vs) =
      bind-Ends tokenizer (item_at walk n vs) _ (item_at-Ends n vs) (λ a. inl (_, refl))

  all_entries_end : (vs : Entries) → Ends tokenizer (all_entries walk vs)
  unfolding all_entries
  all_entries_end no_entries = inl (_, refl)
  all_entries_end (entry key v vs) =
      bind-Ends tokenizer (walk v) _ (r v)
        λ a. bind-Ends tokenizer (all_entries walk vs) _ (all_entries_end vs) (λ b. inl (_, refl))

  entry_at-Ends : (key : String) (vs : Entries) → Ends tokenizer (entry_at walk key vs)
  unfolding entry_at
  entry_at-Ends key no_entries = inl (_, refl)
  entry_at-Ends key (entry l v vs) =
      if-Ends tokenizer (l == key) _ _ (bind-Ends tokenizer (walk v) _ (r v) (λ a. inl (_, refl)))
        (bind-Ends tokenizer (entry_at walk key vs) _ (entry_at-Ends key vs) (λ a. inl (_, refl)))

  walk_sequence-Ends :
      (i : Result ℤ) (vs : Items)
      → ((s : String) → i ≢ panic s)
      → ((n : ℕ) → i ≢ ok (negsuc n))
      → Ends tokenizer (walk_sequence walk i vs)
  unfolding walk_sequence
  walk_sequence-Ends (ok (pos n)) vs np h = item_at-Ends n vs
  walk_sequence-Ends (ok (negsuc n)) vs np h = absurd (h n refl)
  walk_sequence-Ends (err e) vs np h = inl (_, refl)
  walk_sequence-Ends (panic s) vs np h = absurd (np s refl)

-- If no component of the path reads as a negative number, the walk returns a value for every
-- document, or a call of the tokenizer panics: it panics at no index and fails nowhere.
pub redact_yaml-Ends :
    (tokenizer : Tokenizer) (label : Label) (path : List String)
    → All (λ p. (n : ℕ) → atoi p ≢ ok (negsuc n)) path
    → (v : Yaml) → Ends tokenizer (redact_yaml tokenizer label path v)
unfolding redact_yaml
redact_yaml-Ends tokenizer label [] h v =
    map_result-Ends tokenizer _ _ (masked-Ends tokenizer label v)
redact_yaml-Ends tokenizer label (p ∷ path) h (text s) = inl (_, refl)
redact_yaml-Ends tokenizer label (p ∷ path) h (other s) = inl (_, refl)
redact_yaml-Ends tokenizer label (p ∷ path) h (sequence items) =
    let walk = redact_yaml tokenizer label path in
    let r = redact_yaml-Ends tokenizer label path h.1 in
    map_result-Ends tokenizer _ _ (
      if-Ends tokenizer (p == "*") (all_items walk items) (walk_sequence walk (atoi p) items)
        (all_items_end tokenizer walk r items)
        (walk_sequence-Ends tokenizer walk r (atoi p) items (atoi_returns p) h.0))
redact_yaml-Ends tokenizer label (p ∷ path) h (mapping entries) =
    let walk = redact_yaml tokenizer label path in
    let r = redact_yaml-Ends tokenizer label path h.1 in
    map_result-Ends tokenizer _ _ (
      if-Ends tokenizer (p == "*" && not (is_empty_mapping entries)) (all_entries walk entries)
        (entry_at walk p entries) (all_entries_end tokenizer walk r entries)
        (entry_at-Ends tokenizer walk r p entries))
