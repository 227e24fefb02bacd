-- ===== src/Go/Result.antt =====
-- Go's `(value, error)` results. A panic is a third way for a call to end.
use troubleshoot.Prelude.{String, ap, sym, ◌≡◌, refl, List, [], ◌∷◌, ◌++◌}

-- `message` is errors.New or errors.Errorf, and `wrapped` is errors.Wrap, or an Errorf round another
-- error, with the new text first. The
-- two errors of strconv keep the text that was parsed. `not_found` is types.NotFoundError, and
-- `foreign` an error of a library that is not modelled.
pub data Error : Type 0 where
  message : String → Error
  wrapped : String → Error → Error
  invalid_syntax : String → Error
  out_of_range : String → Error
  not_found : String → Error
  foreign : String → Error

pub data Result {ℓ} (A : Type ℓ) : Type ℓ where
  ok : A → Result A
  err : Error → Result A
  panic : String → Result A

infixl 5 ◌>>=◌
abbrev pub ◌>>=◌ {ℓ κ} : {A : Type ℓ} {B : Type κ} → Result A → (A → Result B) → Result B
panic text >>= next = panic text
err problem >>= next = err problem
ok value >>= next = next value

-- `if err != nil { return nil, errors.Wrap(err, text) }`
abbrev pub wrap {ℓ} : {A : Type ℓ} → String → Result A → Result A
wrap text (ok a) = ok a
wrap text (err e) = err (wrapped text e)
wrap text (panic s) = panic s

abbrev pub map_result {ℓ κ} : {A : Type ℓ} {B : Type κ} → (A → B) → Result A → Result B
map_result f (ok a) = ok (f a)
map_result f (err e) = err e
map_result f (panic s) = panic s

-- A loop that appends what each element gives and leaves at the first error.
unfoldable pub collect {ℓ κ} :
    {A : Type ℓ} {B : Type κ} → (A → Result (List B)) → List A → Result (List B)
collect f [] = ok []
collect f (a ∷ rest) = do xs ← f a; ys ← collect f rest; ok (xs ++ ys)

-- Results that are computed from what each element gives can be computed at the end.
pub collect-map_result {ℓ κ} :
    {A : Type ℓ} {B C : Type κ} (h : List B → List C) (f : A → Result (List B)) (xs : List A)
    → h [] ≡ []
    → ((bs cs : List B) → h (bs ++ cs) ≡ h bs ++ h cs)
    → collect (λ a. map_result h (f a)) xs ≡ map_result h (collect f xs)
unfolding collect
collect-map_result h f [] hn ha = ap ok (sym hn)
collect-map_result {B} h f (a ∷ xs) hn ha =
    rw (collect-map_result h f xs hn ha) (go (f a) (collect f xs))
  where
    go :
        (r : Result (List B)) (s : Result (List B))
        → (do bs ← map_result h r; cs ← map_result h s; ok (bs ++ cs))
          ≡ map_result h (do bs ← r; cs ← s; ok (bs ++ cs))
    go (ok bs) (ok cs) = ap ok (sym (ha bs cs))
    go (ok bs) (err e) = refl
    go (ok bs) (panic s) = refl
    go (err e) s = refl
    go (panic p) s = refl

pub bind-ok {ℓ κ} :
    {A : Type ℓ} {B : Type κ} (m : Result A) (f : A → Result B) (h : A → B)
    → ((a : A) → f a ≡ ok (h a))
    → (m >>= f) ≡ map_result h m
bind-ok (ok a) f h e = e a
bind-ok (err x) f h e = refl
bind-ok (panic s) f h e = refl

pub bind-map_result {ℓ κ} :
    {A : Type ℓ} {B C : Type κ} (m : Result A) (f : A → Result C) (h : B → C) (g : A → Result B)
    → ((a : A) → f a ≡ map_result h (g a))
    → (m >>= f) ≡ map_result h (m >>= g)
bind-map_result (ok a) f h g e = e a
bind-map_result (err x) f h g e = refl
bind-map_result (panic s) f h g e = refl

pub bind-return {ℓ} : {A : Type ℓ} (m : Result A) → (m >>= λ a. ok a) ≡ m
bind-return (ok a) = refl
bind-return (err e) = refl
bind-return (panic s) = refl

-- A sequence that succeeds has a first step that succeeds.
pub bind-inv {ℓ κ} :
    {A : Type ℓ} {B : Type κ} (step : Result A) (next : A → Result B) (b : B)
    → (step >>= next) ≡ ok b
    → (value : A) × (next value ≡ ok b) × (step ≡ ok value)
bind-inv (panic text) next b e = cc
bind-inv (err problem) next b e = cc
bind-inv (ok value) next b e = (value, e, refl)

pub wrap-ok : {A : Type 0} (text : String) (m : Result A) (a : A) → wrap text m ≡ ok a → m ≡ ok a
wrap-ok text (ok b) a h = h
wrap-ok text (err e) a h = cc
wrap-ok text (panic s) a h = cc
