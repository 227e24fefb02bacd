-- ===== src/Redact/Chain/Returned.antt =====
-- When `Redact` gives a result.
use troubleshoot.Prelude.{
  ℕ, String, ◌≡◌, ◌≢◌, refl, Bool, true, false, Option, List, [], ◌∷◌, ◌++◌, ◌==◌, All, negsuc,
  member, inl, inr,
}
use troubleshoot.Go.Result.{Result, Error, ok, err, panic}
use troubleshoot.Go.Strconv.{atoi}
use troubleshoot.Go.Text.{split}
use troubleshoot.Redact.{Regex, Stream}
use troubleshoot.Redact.Builtin.{
  SingleLine, DoubleLine, single_lines, double_lines, custom_resources,
}
use troubleshoot.Redact.Yaml.{
  Yaml, YamlRedactor, Libraries, Walked, walked, marshalled, parsed, yaml_redact, redact_yaml,
  new_yaml_redactor,
}
use troubleshoot.Redact.Yaml.Returns.{
  Returns, bind-Returns, if-Returns, Ends, bind-Ends, if-Ends, redact_yaml-Ends,
}
use troubleshoot.Redact.LineByLine.{literal_panics, single_line_panics}
use troubleshoot.Redact.MultiLine.{multi_line_panics}
use troubleshoot.Redact.Chain.Panics.{
  literal_panics-Panicky, single_line_panics-Panicky, multi_line_panics-Panicky, unless_panics-Ends,
}
use troubleshoot.Redact.Path.{
  Globs, RedactSpec, Redactor, literal, single_line, multi_line, yaml, build_additional_redactors,
}
use troubleshoot.Redact.Chain.{
  Surroundings, compile_scan, new_single_line_redactor, new_multi_line_redactor, singles, doubles,
  resource_redactors, get_redactors, document, walk_document, run_yaml, run_redactor, chain, redact,
}

-- the libraries do not panic
pub record Calm (libraries : Libraries) : Type 0 where
  pub globs : (pattern path s : String) → libraries.glob pattern path ≢ panic s
  pub decodes : (doc s : String) → libraries.unmarshal doc ≢ panic s
  pub encodes : (v : Yaml) (s : String) → libraries.marshal v ≢ panic s

-- no component of a YAML path reads as a negative number
abbrev pub IsSafe : Redactor → Type 0
IsSafe (yaml r) = All (λ p. (n : ℕ) → atoi p ≢ ok (negsuc n)) r.mask_path
IsSafe _ = Unit

module _ (s : Surroundings) (calm : Calm s.libraries) (path : String) where
  marshalled-Ends :
      (r : YamlRedactor) (doc : String) (m : Result String)
      → ((t : String) → m ≢ panic t)
      → Ends s.tokenizer (marshalled r path doc m)
  marshalled-Ends r doc (ok new) h = inl (_, refl)
  marshalled-Ends r doc (err e) h = inl (_, refl)
  marshalled-Ends r doc (panic t) h = absurd (h t refl)

  walked-Ends :
      (r : YamlRedactor) (doc : String) (w : Walked)
      → Ends s.tokenizer w
      → Ends s.tokenizer (walked s.libraries r path doc w)
  walked-Ends r doc (ok (new, true)) h =
      marshalled-Ends r doc (s.libraries.marshal new) (calm.encodes new)
  walked-Ends r doc (ok (new, false)) h = inl (_, refl)
  walked-Ends r doc (err e) (inl (a, p)) = cc p
  walked-Ends r doc (err e) (inr (p, q)) = cc p
  walked-Ends r doc (panic t) (inl (a, p)) = cc p
  walked-Ends r doc (panic t) (inr (p, q)) = inr (cc p, q)

  parsed-Ends :
      (r : YamlRedactor) (doc : String) (m : Result Yaml)
      → IsSafe (yaml r)
      → ((t : String) → m ≢ panic t)
      → Ends s.tokenizer (parsed s.libraries s.tokenizer r path doc m)
  parsed-Ends r doc (ok v) safe h =
      walked-Ends r doc (redact_yaml s.tokenizer r.label r.mask_path v)
        (redact_yaml-Ends s.tokenizer r.label r.mask_path safe v)
  parsed-Ends r doc (err e) safe h = inl (_, refl)
  parsed-Ends r doc (panic t) safe h = absurd (h t refl)

  globbed {ℓ} :
      {A : Type ℓ} (m : Result Bool) (x y z : Result A)
      → ((t : String) → m ≢ panic t)
      → Ends s.tokenizer x
      → Ends s.tokenizer y
      → Ends s.tokenizer z
      → Ends s.tokenizer (elim m [ ok true ↦ x | ok false ↦ y | err e ↦ z | panic t ↦ panic t ])
  globbed (ok true) x y z h p q r = p
  globbed (ok false) x y z h p q r = q
  globbed (err e) x y z h p q r = r
  globbed (panic t) x y z h p q r = absurd (h t refl)

  yaml_redact-Ends :
      (r : YamlRedactor) (doc : String)
      → IsSafe (yaml r)
      → Ends s.tokenizer (yaml_redact s.libraries s.tokenizer r path doc)
  unfolding yaml_redact
  yaml_redact-Ends r doc safe =
      let here = parsed-Ends r doc (s.libraries.unmarshal doc) safe (calm.decodes doc) in
      if-Ends s.tokenizer (r.label.file_path == "") _ _ here (
        globbed (s.libraries.glob r.label.file_path path) _ _ _ (calm.globs r.label.file_path path)
          here (inl (_, refl)) (inl (_, refl)))

  run_redactor-Ends :
      (r : Redactor) → IsSafe r → (input : Stream) → Ends s.tokenizer (run_redactor s path r input)
  unfolding run_redactor run_yaml walk_document
  run_redactor-Ends (literal r) safe input =
      unless_panics-Ends s.tokenizer (literal_panics s.tokenizer r input) _
        (literal_panics-Panicky s.tokenizer r input)
  run_redactor-Ends (single_line r) safe input =
      unless_panics-Ends s.tokenizer (single_line_panics s.tokenizer s.lower r input) _
        (single_line_panics-Panicky s.tokenizer s.lower r input)
  run_redactor-Ends (multi_line r) safe input =
      unless_panics-Ends s.tokenizer (multi_line_panics s.tokenizer s.lower r input) _
        (multi_line_panics-Panicky s.tokenizer s.lower r input)
  run_redactor-Ends (yaml r) safe input =
      let here =
        bind-Ends s.tokenizer (yaml_redact s.libraries s.tokenizer r path (document input.lines)) _
          (yaml_redact-Ends r (document input.lines) safe) (λ w. inl (_, refl)) in
      if-Ends s.tokenizer (r.label.file_path == "") _ _ here (
        globbed (s.libraries.glob r.label.file_path path) _ _ _ (calm.globs r.label.file_path path)
          here (inl (_, refl)) (inl (_, refl)))

  chain-Ends :
      (rs : List Redactor)
      → All IsSafe rs
      → (input : Stream) → Ends s.tokenizer (chain s path rs input)
  unfolding chain
  chain-Ends [] safe input = inl (_, refl)
  chain-Ends (r ∷ rs) safe input =
      bind-Ends s.tokenizer (run_redactor s path r input) _ (run_redactor-Ends r safe.0 input)
        λ first.
          bind-Ends s.tokenizer (chain s path rs first.out) _ (chain-Ends rs safe.1 first.out)
            (λ rest. inl (_, refl))

All-append : (xs ys : List Redactor) → All IsSafe xs → All IsSafe ys → All IsSafe (xs ++ ys)
All-append [] ys hx hy = hy
All-append (x ∷ xs) ys hx hy = (hx.0, All-append xs ys hx.1 hy)

-- the patterns of an entry of the tables compile
abbrev pub Compiles : (String → Result Regex) → SingleLine → Type 0
Compiles compile s = Returns (compile s.regex) × Returns (compile s.scan)

abbrev pub CompilesBoth : (String → Result Regex) → DoubleLine → Type 0
CompilesBoth compile d = Compiles compile d.selector × Returns (compile d.redactor)

-- redactors that are built and safe
abbrev Builds : Result (List Redactor) → Type 0
Builds m = (rs : List Redactor) × (m ≡ ok rs) × All IsSafe rs

module _ (compile : String → Result Regex) (path : String) where
  compile_scan-Returns : (p : String) → Returns (compile p) → Returns (compile_scan compile p)
  unfolding compile_scan
  compile_scan-Returns p r =
      if-Returns (p == "") _ _ (_, refl) (bind-Returns (compile p) _ r (λ re. (_, refl)))

  new_single_line_redactor-Returns :
      (x : SingleLine) → Compiles compile x → Returns (new_single_line_redactor compile path x)
  unfolding new_single_line_redactor
  new_single_line_redactor-Returns x h = bind-Returns (compile x.regex) _ h.0 λ re.
      bind-Returns (compile_scan compile x.scan) _ (compile_scan-Returns x.scan h.1)
        (λ scan. (_, refl))

  new_multi_line_redactor-Returns :
      (x : DoubleLine) → CompilesBoth compile x → Returns (new_multi_line_redactor compile path x)
  unfolding new_multi_line_redactor
  new_multi_line_redactor-Returns x ((first, scanned), second) =
      bind-Returns (compile x.selector.regex) _ first λ re.
        bind-Returns (compile_scan compile x.selector.scan) _
          (compile_scan-Returns x.selector.scan scanned)
          (λ scan. bind-Returns (compile x.redactor) _ second (λ re2. (_, refl)))

  singles-Builds :
      (l : List SingleLine) → All (Compiles compile) l → Builds (singles compile path l)
  unfolding singles
  singles-Builds [] h = ([], refl, tt)
  singles-Builds (x ∷ l) h =
      let (r, e) = new_single_line_redactor-Returns x h.0 in
      let (rs, e', safe) = singles-Builds l h.1 in (single_line r ∷ rs, rw (e, e') refl, (tt, safe))

  doubles-Builds :
      (l : List DoubleLine) → All (CompilesBoth compile) l → Builds (doubles compile path l)
  unfolding doubles
  doubles-Builds [] h = ([], refl, tt)
  doubles-Builds (x ∷ l) h =
      let (r, e) = new_multi_line_redactor-Returns x h.0 in
      let (rs, e', safe) = doubles-Builds l h.1 in (multi_line r ∷ rs, rw (e, e') refl, (tt, safe))

err-ne-ok : (e : Error) (n : ℕ) → err e ≢ ok (negsuc n)
err-ne-ok e n = λ h. cc h

resources-IsSafe : All IsSafe (resource_redactors [] custom_resources)
unfolding resource_redactors new_yaml_redactor member atoi split
resources-IsSafe = (
  (err-ne-ok _, (err-ne-ok _, (err-ne-ok _, (err-ne-ok _, tt)))),
  (
    (err-ne-ok _, (err-ne-ok _, (err-ne-ok _, (err-ne-ok _, tt)))),
    (
      (err-ne-ok _, (err-ne-ok _, (err-ne-ok _, (err-ne-ok _, tt)))),
      ((err-ne-ok _, (err-ne-ok _, (err-ne-ok _, (err-ne-ok _, tt)))), tt),
    ),
  ),
)

-- `Redact` gives a result for every input, or panics because a call of the tokenizer does, which then is on and panics
-- on some value; with tokenization off it always gives a result. This holds if the patterns of the tables compile, the redactors of the
-- specifications can be built and none of their YAML paths has a component that reads as a
-- negative number, and the libraries for globs and YAML do not panic.
pub redact-Ends :
    (s : Surroundings) (globs : Globs) (compile : String → Result Regex) (path : String)
    (specs : List (Option RedactSpec)) (input : Stream) (built : List Redactor)
    → Calm s.libraries
    → All (Compiles compile) single_lines
    → All (CompilesBoth compile) double_lines
    → build_additional_redactors globs compile path specs ≡ ok built
    → All IsSafe built
    → Ends s.tokenizer (redact s globs compile path specs input)
unfolding redact get_redactors
redact-Ends s globs compile path specs input built calm one two b safe =
    let (xs, e, safe_xs) = singles-Builds compile path single_lines one in
    let (ys, e', safe_ys) = doubles-Builds compile path double_lines two in
    let zs = resource_redactors [] custom_resources in
    let all_safe =
      All-append (xs ++ ys ++ zs) built
        (All-append (xs ++ ys) zs (All-append xs ys safe_xs safe_ys) resources-IsSafe) safe in
    rw (e, e', b) (chain-Ends s calm path ((xs ++ ys ++ zs) ++ built) all_safe input)
