-- ===== src/Redact/Ledger.antt =====
-- The state of pkg/redact/redact.go: the list of redactions and the cache of expressions.
use troubleshoot.Prelude.{
  String, ◌≡◌, refl, sym, true, false, Option, none, some, List, [], ◌∷◌, ◌++◌, ◌==◌, if◌then◌else◌,
  select, arith, eq_iff, Bool-cases, Option-cases, inl, inr, ap, ◌∙◌,
}
use mathlib.Core.List.{append-nil, append_assoc}
use troubleshoot.Go.Result.{Result, ok, err, panic}
use troubleshoot.Redact.{Redaction, Regex}

-- a Go map from text to slices, with a missing key read as the empty slice
abbrev pub Index : Type 0
Index = List (String × List Redaction)

unfoldable pub at_key : String → Index → List Redaction
at_key key [] = []
at_key key ((k, rs) ∷ rest) = if k == key then rs else at_key key rest

-- `m[key] = append(m[key], redaction)`
unfoldable pub append_at : String → Redaction → Index → Index
append_at key r [] = (key, r ∷ []) ∷ []
append_at key r ((k, rs) ∷ rest) =
    let later = append_at key r rest in
    if k == key then (k, rs ++ r ∷ []) ∷ rest else (k, rs) ∷ later

pub record RedactionList : Type 0 where
  pub by_redactor : Index
  pub by_file : Index

-- `ResetRedactionList`
abbrev pub no_redactions : RedactionList
no_redactions = record { by_redactor = []; by_file = [] }

-- The goroutine of `addRedaction`, under the lock.
unfoldable pub add_redaction : Redaction → RedactionList → RedactionList
unfolding append_at
add_redaction r list = record {
  by_redactor = append_at r.redactor_name r list.by_redactor;
  by_file = append_at r.file r list.by_file;
}

-- the goroutines in the order in which they take the lock
unfoldable pub add_redactions : List Redaction → RedactionList → RedactionList
unfolding add_redaction
add_redactions [] list = list
add_redactions (r ∷ rs) list = add_redactions rs (add_redaction r list)

at_key-append_at :
    (key k : String) (r : Redaction) (m : Index)
    → at_key k (append_at key r m) ≡ at_key k m ++ (if key == k then r ∷ [] else [])
unfolding at_key append_at
at_key-append_at key k r [] = ground (arith, eq_iff key k)
at_key-append_at key k r ((l, rs) ∷ rest) =
    let go = at_key-append_at key k r rest in
    elim (Bool-cases (l == key)) [
      | inl e ↦ rw e (elim (Bool-cases (l == k)) [
        | inl f ↦
            let same : (key == k) ≡ true = ground (arith, eq_iff l key, eq_iff l k, eq_iff key k) in
            rw (f, same) refl
        | inr f ↦
            let other : (key == k) ≡ false =
              ground (arith, eq_iff l key, eq_iff l k, eq_iff key k) in
            rw (f, other) (sym (append-nil (at_key k rest)))
      ])
      | inr e ↦ rw e (elim (Bool-cases (l == k)) [
        | inl f ↦
            let other : (key == k) ≡ false =
              ground (arith, eq_iff l key, eq_iff l k, eq_iff key k) in
            rw (f, other) (sym (append-nil rs))
        | inr f ↦ rw f go
      ])
    ]

-- one more redaction at the end
grown :
    (key k : String) (r : Redaction) (m : Index) (rest : List Redaction)
    → at_key k (append_at key r m) ++ rest ≡ at_key k m ++ (if key == k then r ∷ rest else rest)
grown key k r m rest = elim (Bool-cases (key == k)) [
  | inl e ↦ rw (at_key-append_at key k r m) (rw e (append_assoc (at_key k m) (r ∷ []) rest))
  | inr e ↦ rw (at_key-append_at key k r m) (rw e (rw (append-nil (at_key k m)) refl))
]

-- Whatever the order in which the redactions are added, each of the two indexes of the list holds
-- at a key what it held before, and then the redactions of that file, or of that redactor, in the
-- order in which they came, and no other.
add_redactions-at_key :
    (k : String) (rs : List Redaction) (list : RedactionList)
    → (at_key k (add_redactions rs list).by_file
        ≡ at_key k list.by_file ++ select (λ r. r.file == k) rs)
      × (at_key k (add_redactions rs list).by_redactor
          ≡ at_key k list.by_redactor ++ select (λ r. r.redactor_name == k) rs)
unfolding add_redactions
add_redactions-at_key k [] list =
    (sym (append-nil (at_key k list.by_file)), sym (append-nil (at_key k list.by_redactor)))
add_redactions-at_key k (r ∷ rs) list =
    let (f, n) = add_redactions-at_key k rs (add_redaction r list) in
    (
      f ∙ grown r.file k r list.by_file (select (λ r. r.file == k) rs),
      n ∙ grown r.redactor_name k r list.by_redactor (select (λ r. r.redactor_name == k) rs),
    )

abbrev pub Cache : Type 0
Cache = List (String × Regex)

unfoldable pub cached : String → Cache → Option Regex
cached pattern [] = none
cached pattern ((p, re) ∷ rest) = if p == pattern then some re else cached pattern rest

abbrev remembered : String → Cache → Result Regex → Result Regex × Cache
remembered pattern cache (ok re) = (ok re, (pattern, re) ∷ cache)
remembered pattern cache failed = (failed, cache)

-- `compile` is regexp.Compile.
unfoldable pub compile_regex : (String → Result Regex) → String → Cache → Result Regex × Cache
compile_regex compile pattern cache = elim (cached pattern cache) [
  | some re ↦ (ok re, cache)
  | none ↦ remembered pattern cache (compile pattern)
]

-- every entry is what the library compiles
abbrev pub Faithful : (String → Result Regex) → Cache → Type 0
Faithful compile cache =
    (pattern : String) (re : Regex) → cached pattern cache ≡ some re → compile pattern ≡ ok re

-- The cache is not seen from outside: with a faithful cache the call gives what the library
-- compiles, and leaves a faithful cache, as the empty one is.
compile_regex-compile :
    (compile : String → Result Regex) (pattern : String) (cache : Cache)
    → Faithful compile cache
    → ((compile_regex compile pattern cache).0 ≡ compile pattern)
      × Faithful compile (compile_regex compile pattern cache).1
unfolding compile_regex cached
compile_regex-compile compile pattern cache f = elim (Option-cases (cached pattern cache)) [
  | inl e ↦ rw (compile_regex, e) (kept (compile pattern) refl)
  | inr (re, e) ↦ rw (compile_regex, e) (sym (f pattern re e), f)
]
  where
    kept :
        (result : Result Regex)
        → compile pattern ≡ result
        → ((remembered pattern cache result).0 ≡ result)
          × Faithful compile (remembered pattern cache result).1
    kept (ok re) h = (
      refl,
      λ p r q. elim (Bool-cases (pattern == p)) [
        | inl e ↦
            let same : pattern ≡ p = ground (arith, eq_iff pattern p) in
            let found : some re ≡ some r = rw e at q in cc (ap compile (sym same), h, found)
        | inr e ↦ f p r (rw e at q)
      ],
    )
    kept (err e) h = (refl, f)
    kept (panic s) h = (refl, f)
