-- ===== src/Redact/Chain/Hides.antt =====
-- A value that is to be redacted literally, at the end of the chain.
use troubleshoot.Prelude.{
  String, ◌≡◌, Bool, true, false, Option, List, [], ◌∷◌, ◌++◌, All, ap, sym, ◌∙◌,
}
use mathlib.Core.List.{append_assoc}
use troubleshoot.Go.Result.{Result, ok, bind-inv, wrap, wrap-ok}
use troubleshoot.Go.Text.{is_empty, contains, Free}
use troubleshoot.Go.Bytes.{occurs_in}
use troubleshoot.Redact.{Regex, Stream, Redacted}
use troubleshoot.Redact.LineByLine.{LiteralRedactor, literal_mask, literal_redact, literal_panics}
use troubleshoot.Redact.LineByLine.Hidden.{literal_redact_hides}
use troubleshoot.Redact.Path.{Globs, RedactSpec, Redactor, literal, build_additional_redactors}
use troubleshoot.Redact.Chain.{
  Surroundings, unless_panics, run_redactor, chain, redact, get_redactors,
}

module _ (s : Surroundings) (path : String) where
  -- what is written is written by the last redactor
  chain-last :
      (rs : List Redactor) (last : Redactor) (input : Stream) (out : Redacted)
      → chain s path (rs ++ last ∷ []) input ≡ ok out
      → (before : Stream) × (r : Redacted) × (run_redactor s path last before ≡ ok r)
        × (out.out ≡ r.out)
  unfolding chain
  chain-last [] last input out h =
      let (first, h', e) = bind-inv (run_redactor s path last input) _ out h in
      let same : record { out = first.out; found = first.found ++ [] } ≡ out = cc h' in
      (input, first, e, sym (ap (λ r. r.out) same))
  chain-last (r ∷ rs) last input out h =
      let (first, h', e) = bind-inv (run_redactor s path r input) _ out h in
      let (rest, h'', e') = bind-inv (chain s path (rs ++ last ∷ []) first.out) _ out h' in
      let (before, last_out, f, g) = chain-last rs last first.out rest e' in
      let same : record { out = rest.out; found = first.found ++ rest.found } ≡ out = cc h'' in
      (before, last_out, f, sym (ap (λ r. r.out) same) ∙ g)

unless_panics-ok : (b : Bool) (r out : Redacted) → unless_panics b r ≡ ok out → r ≡ out
unless_panics-ok true r out h = cc h
unless_panics-ok false r out h = cc h

-- If the redactors that are built for the path end with that of a value, then no line of what `Redact` writes contains
-- the value, whatever the built-in redactors and the others make of the input: the value is not
-- empty and shares no character with the mask or token in its place.
pub redact_hides :
    (s : Surroundings) (globs : Globs) (compile : String → Result Regex) (path : String)
    (specs : List (Option RedactSpec)) (input : Stream) (out : Redacted) (built : List Redactor)
    (r : LiteralRedactor)
    → build_additional_redactors globs compile path specs ≡ ok (built ++ literal r ∷ [])
    → is_empty r.match ≡ false
    → is_empty (literal_mask s.tokenizer r) ≡ false
    → Free (occurs_in (literal_mask s.tokenizer r)) r.match
    → redact s globs compile path specs input ≡ ok out
    → All (λ line. contains line r.match ≡ false) out.out.lines
unfolding redact run_redactor
redact_hides s globs compile path specs input out built r b e m f h =
    let (builtin, h', _) = bind-inv (get_redactors compile path) _ out h in
    let (rs, h'', q) =
      bind-inv (wrap "build custom redactors" (build_additional_redactors globs compile path specs))
        _ out h' in
    let same : rs ≡ built ++ literal r ∷ [] = cc (wrap-ok _ _ rs q, b) in
    let joined : chain s path ((builtin ++ built) ++ literal r ∷ []) input ≡ ok out =
      rw (append_assoc builtin built (literal r ∷ []), ← same) h'' in
    let (before, last, k, g) = chain-last s path (builtin ++ built) (literal r) input out joined in
    let ran : literal_redact s.tokenizer r before ≡ last =
      unless_panics-ok (literal_panics s.tokenizer r before) _ last k in
    rw (g, ← ran) (literal_redact_hides s.tokenizer r before e m f)
