-- ===== src/Go/Bytes.antt =====
-- bytes.ReplaceAll over texts as lists of characters.
use Prim.Native.String.{◌++◌ as ◌⧺◌, len}
use Prim.Native.String.append
use troubleshoot.Prelude.{
  ℕ, zero, suc, ◌-◌, Char, code, String, ◌≡◌, ◌∙◌, refl, Bool, true, false, ◌&&◌, ◌||◌, arith, eqb,
  if◌then◌else◌, Bool-cases, inl, inr,
}
use troubleshoot.Go.Text.{is_empty, is_some, after_prefix, contains, Free}

-- `skip` counts the characters of an occurrence that are still to be left out.
replace_from : String → String → ℕ → String → String
unfolding after_prefix
replace_from old new skip String.[] = ""
replace_from old new (suc skip) (String.◌∷◌ c s) = replace_from old new skip s
replace_from old new zero (String.◌∷◌ c s) = elim (is_some (after_prefix old (String.◌∷◌ c s))) [
  | true ↦ new ⧺ replace_from old new (len old - 1) s
  | false ↦ String.◌∷◌ c (replace_from old new 0 s)
]

-- the empty text occurs before each character and at the end
around_each : String → String → String
around_each new String.[] = new
around_each new (String.◌∷◌ c s) = new ⧺ String.◌∷◌ c (around_each new s)

unfoldable pub replace_all : String → String → String → String
unfolding replace_from around_each
replace_all s old new = if is_empty old then around_each new s else replace_from old new 0 s

replaced_twice : replace_all "aXXbXX" "XX" "-" ≡ "a-b-"
unfolding replace_all
replaced_twice = refl

starts : String → String → Bool
unfolding after_prefix
starts p s = is_some (after_prefix p s)

-- the test that a character occurs in a text
abbrev pub occurs_in : String → ℕ → Bool
occurs_in String.[] x = false
occurs_in (String.◌∷◌ c s) x = eqb (code c) x || occurs_in s x

starts-cons :
    (d c : Char) (p s : String)
    → starts (String.◌∷◌ d p) (String.◌∷◌ c s) ≡ (eqb (code d) (code c) && starts p s)
unfolding starts after_prefix
starts-cons d c p s = elim (Bool-cases (eqb (code d) (code c))) [
  | inl q ↦ rw q refl
  | inr q ↦ rw q refl
]

replace_from-starts :
    (old new : String) (c : Char) (s : String)
    → starts old (String.◌∷◌ c s) ≡ true
    → replace_from old new 0 (String.◌∷◌ c s) ≡ new ⧺ replace_from old new (len old - 1) s
unfolding replace_from starts
replace_from-starts old new c s h = rw (replace_from, h) refl

replace_from-skips :
    (old new : String) (c : Char) (s : String)
    → starts old (String.◌∷◌ c s) ≡ false
    → replace_from old new 0 (String.◌∷◌ c s) ≡ String.◌∷◌ c (replace_from old new 0 s)
unfolding replace_from starts
replace_from-skips old new c s h = rw (replace_from, h) refl

starts-Free :
    (d : Char) (p new t : String)
    → is_empty new ≡ false
    → Free (occurs_in new) (String.◌∷◌ d p)
    → starts (String.◌∷◌ d p) (new ⧺ t) ≡ false
starts-Free d p String.[] t e f = cc
starts-Free d p (String.◌∷◌ n ns) t e f =
    simp append.cons (rw (starts-cons d n p (ns ⧺ t)) (ground (arith, f.0)))

-- A text that shares no character with what is put in begins the result only where it began the text.
starts-replace_from :
    (p old new s : String)
    → is_empty new ≡ false
    → Free (occurs_in new) p
    → starts p (replace_from old new 0 s) ≡ true
    → starts p s ≡ true
starts-replace_from String.[] old new s e f h = unfold starts after_prefix in refl
starts-replace_from (String.◌∷◌ d p) old new String.[] e f h = unfold replace_from in h
starts-replace_from (String.◌∷◌ d p) old new (String.◌∷◌ c s) e f h =
    let go = starts-replace_from p old new s e f.1 in
    elim (Bool-cases (starts old (String.◌∷◌ c s))) [
      | inl q ↦ absurd (
          cc (
            starts-Free d p new (replace_from old new (len old - 1) s) e f,
            replace_from-starts old new c s q,
            h,
          ))
      | inr q ↦
          let k : (eqb (code d) (code c) && starts p (replace_from old new 0 s)) ≡ true =
            cc
              (starts-cons d c p (replace_from old new 0 s), replace_from-skips old new c s q, h) in
          rw (starts-cons d c p s) (ground (arith, go))
    ]

contains-cons :
    (c : Char) (s sub : String)
    → contains (String.◌∷◌ c s) sub ≡ (starts sub (String.◌∷◌ c s) || contains s sub)
unfolding contains starts
contains-cons c s sub = refl

contains-append :
    (d : Char) (p new t : String)
    → Free (occurs_in new) (String.◌∷◌ d p)
    → contains (new ⧺ t) (String.◌∷◌ d p) ≡ contains t (String.◌∷◌ d p)
contains-append d p new t f = go new (λ x h. h)
  where
    go :
        (m : String)
        → ((x : ℕ) → occurs_in new x ≡ false → occurs_in m x ≡ false)
        → contains (m ⧺ t) (String.◌∷◌ d p) ≡ contains t (String.◌∷◌ d p)
    go String.[] k = simp append.nil
    go (String.◌∷◌ n ns) k =
        let h = k (code d) f.0 in
        let rest = go ns (λ x q. ground (arith, k x q)) in
        simp append.cons (
          rw (contains-cons n (ns ⧺ t) (String.◌∷◌ d p))
            (rw (starts-cons d n p (ns ⧺ t)) (ground (arith, h, rest))))

replace_from-suc :
    (old new : String) (skip : ℕ) (c : Char) (s : String)
    → replace_from old new (suc skip) (String.◌∷◌ c s) ≡ replace_from old new skip s
unfolding replace_from
replace_from-suc old new skip c s = refl

not_spanning :
    (old new : String) (c : Char) (s : String)
    → is_empty new ≡ false
    → Free (occurs_in new) old
    → starts old (String.◌∷◌ c s) ≡ false
    → starts old (String.◌∷◌ c (replace_from old new 0 s)) ≡ false
not_spanning old new c s e f q =
    elim (Bool-cases (starts old (String.◌∷◌ c (replace_from old new 0 s)))) [
      | inl h ↦ absurd (
          cc (
            starts-replace_from old old new (String.◌∷◌ c s) e f
                (rw (replace_from-skips old new c s q) h),
            q,
          ))
      | inr h ↦ h
    ]

none_left :
    (d : Char) (p new : String)
    → is_empty new ≡ false
    → Free (occurs_in new) (String.◌∷◌ d p)
    → (skip : ℕ) (s : String)
    → contains (replace_from (String.◌∷◌ d p) new skip s) (String.◌∷◌ d p) ≡ false
none_left d p new e f skip String.[] = unfold replace_from contains in refl
none_left d p new e f (suc skip) (String.◌∷◌ c s) =
    let rest = none_left d p new e f skip s in
    rw (replace_from-suc (String.◌∷◌ d p) new skip c s) rest
none_left d p new e f zero (String.◌∷◌ c s) =
    let old = String.◌∷◌ d p in
    let rest = none_left d p new e f 0 s in
    let after = none_left d p new e f (len old - 1) s in
    elim (Bool-cases (starts old (String.◌∷◌ c s))) [
      | inl q ↦
          rw (replace_from-starts old new c s q)
            (contains-append d p new (replace_from old new (len old - 1) s) f ∙ after)
      | inr q ↦
          rw (replace_from-skips old new c s q) (
            rw (contains-cons c (replace_from old new 0 s) old, not_spanning old new c s e f q)
              rest)
    ]

-- No occurrence is left, also none that spans what was put in: the text that is replaced is not
-- empty and shares no character with the new one.
pub contains-replace_all :
    (s old new : String)
    → is_empty old ≡ false
    → is_empty new ≡ false
    → Free (occurs_in new) old
    → contains (replace_all s old new) old ≡ false
unfolding replace_all
contains-replace_all s String.[] new o e f = cc
contains-replace_all s (String.◌∷◌ d p) new o e f = none_left d p new e f 0 s
