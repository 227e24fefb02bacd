-- ===== src/Redact/Path/Counted.antt =====
-- How many redactors the specifications give.
use troubleshoot.Prelude.{
  ℕ, ◌+◌, String, ◌≡◌, sym, ap, ◌∙◌, inl, inr, refl, true, Option, none, some, List, [], ◌∷◌, ◌++◌,
  length, length-append, arith, Bool-cases,
}
use troubleshoot.Go.Result.{Result, ok, bind-inv}
use troubleshoot.Redact.{Regex}
use troubleshoot.Redact.Path.{
  RegexSpec, RedactSpec, Globs, redact_matches_path, Redactor, literals, one_regex, regexes, yamls,
  redactors_of, of_spec, from_spec, build_additional_redactors,
}

-- how many redactors the specifications owe
unfoldable pub owed : Globs → String → List (Option RedactSpec) → ℕ
owed globs path [] = 0
owed globs path (none ∷ rest) = owed globs path rest
owed globs path (some spec ∷ rest) =
    let later = owed globs path rest in
    elim (redact_matches_path globs path spec) [
      | ok true ↦ length spec.values + length spec.regex + length spec.yaml_path + later
      | _ ↦ later
    ]

length-literals :
    (path : String) (i : ℕ) (name : String) (j : ℕ) (values : List String)
    → length (literals path i name j values) ≡ length values
unfolding literals
length-literals path i name j [] = refl
length-literals path i name j (v ∷ rest) = omega (arith, length-literals path i name (j + 1) rest)

length-yamls :
    (path : String) (i : ℕ) (name : String) (j : ℕ) (paths : List String)
    → length (yamls path i name j paths) ≡ length paths
unfolding yamls
length-yamls path i name j [] = refl
length-yamls path i name j (v ∷ rest) = omega (arith, length-yamls path i name (j + 1) rest)

length-regexes :
    (compile : String → Result Regex) (path : String) (i : ℕ) (name : String) (j : ℕ)
    (res : List RegexSpec) (rs : List Redactor)
    → regexes compile path i name j res ≡ ok rs
    → length rs ≡ length res
unfolding regexes
length-regexes compile path i name j [] rs h =
    let e : ok [] ≡ ok rs = h in let same : [] ≡ rs = cc e in ap length (sym same)
length-regexes compile path i name j (re ∷ rest) rs h =
    let (r, h', q) = bind-inv (one_regex compile path i name j re) _ _ h in
    let (rs', e, q') = bind-inv (regexes compile path i name (j + 1) rest) _ _ h' in
    let same : r ∷ rs' ≡ rs = cc e in
    let go = length-regexes compile path i name (j + 1) rest rs' q' in
    ap length (sym same) ∙ omega (arith, go)

length-redactors_of :
    (compile : String → Result Regex) (path : String) (i : ℕ) (spec : RedactSpec)
    (rs : List Redactor)
    → redactors_of compile path i spec ≡ ok rs
    → length rs ≡ length spec.values + length spec.regex + length spec.yaml_path
unfolding redactors_of
length-redactors_of compile path i spec rs h =
    let (res, e, q) = bind-inv (regexes compile path i spec.name 0 spec.regex) _ _ h in
    let ls = literals path i spec.name 0 spec.values in
    let ys = yamls path i spec.name 0 spec.yaml_path in
    let same : ls ++ res ++ ys ≡ rs = cc e in
    ap length (sym same)
    ∙ omega (
      arith,
      length-append (ls ++ res) ys,
      length-append ls res,
      length-literals path i spec.name 0 spec.values,
      length-regexes compile path i spec.name 0 spec.regex res q,
      length-yamls path i spec.name 0 spec.yaml_path,
    )

length-of_spec :
    (globs : Globs) (compile : String → Result Regex) (path : String) (i : ℕ)
    (spec : Option RedactSpec) (rest : List (Option RedactSpec)) (rs : List Redactor)
    → of_spec globs compile path i spec ≡ ok rs
    → owed globs path (spec ∷ rest) ≡ length rs + owed globs path rest
unfolding of_spec owed
length-of_spec globs compile path i none rest rs h =
    let e : ok [] ≡ ok rs = h in
    let same : [] ≡ rs = cc e in unfold owed in rw (sym same) (omega arith)
length-of_spec globs compile path i (some spec) rest rs h =
    let (matching, h', q) = bind-inv (redact_matches_path globs path spec) _ _ h in
    elim (Bool-cases matching) [
      | inl b ↦
          let n = length-redactors_of compile path i spec rs (rw b at h') in
          rw (owed, q, b) (omega (arith, n))
      | inr b ↦
          let e : ok [] ≡ ok rs = rw b at h' in
          let same : [] ≡ rs = cc e in rw (owed, q, b) (rw (sym same) (omega arith))
    ]

length-from_spec :
    (globs : Globs) (compile : String → Result Regex) (path : String) (i : ℕ)
    (specs : List (Option RedactSpec)) (rs : List Redactor)
    → from_spec globs compile path i specs ≡ ok rs
    → length rs ≡ owed globs path specs
unfolding from_spec
length-from_spec globs compile path i [] rs h =
    let e : ok [] ≡ ok rs = h in let same : [] ≡ rs = cc e in unfold owed in ap length (sym same)
length-from_spec globs compile path i (spec ∷ rest) rs h =
    let (first, h', q) = bind-inv (of_spec globs compile path i spec) _ _ h in
    let (more, e, q') = bind-inv (from_spec globs compile path (i + 1) rest) _ _ h' in
    let same : first ++ more ≡ rs = cc e in
    let go = length-from_spec globs compile path (i + 1) rest more q' in
    ap length (sym same)
    ∙ omega
        (arith, length-append first more, go, length-of_spec globs compile path i spec rest first q)

-- Where the redactors are built, each specification that is not nil and takes the path gives one
-- redactor for each of its texts, expressions and paths, and no other specification gives any.
length-build_additional_redactors :
    (globs : Globs) (compile : String → Result Regex) (path : String)
    (specs : List (Option RedactSpec)) (rs : List Redactor)
    → build_additional_redactors globs compile path specs ≡ ok rs
    → length rs ≡ owed globs path specs
unfolding build_additional_redactors
length-build_additional_redactors globs compile path specs rs h =
    length-from_spec globs compile path 0 specs rs h
