-- ===== src/Redact/MultiLine/Reference.antt =====
-- What the redactor of pairs writes, against the lines that it should write.
use troubleshoot.Prelude.{
  ℕ, ◌+◌, String, ◌≡◌, refl, ap, Bool, true, false, Option, none, List, [], ◌∷◌, ◌++◌,
  if◌then◌else◌, All, Bool-cases, inl, inr,
}
use troubleshoot.Go.Result.{Error}
use troubleshoot.Redact.{Tokenizer, Stream, rewritten}
use troubleshoot.Redact.MultiLine.{MultiLineRedactor, selects, pair_loop, multi_line_redact}

-- Every line is kept, and the one after a selecting line is rewritten. The rewritten line selects
-- nothing itself.
unfoldable pub pairs_rewritten : (String → Bool) → (String → String) → List String → List String
pairs_rewritten selecting clean [] = []
pairs_rewritten selecting clean (x ∷ []) = x ∷ []
pairs_rewritten selecting clean (x ∷ y ∷ rest) = elim (selecting x) [
  | true ↦ x ∷ clean y ∷ pairs_rewritten selecting clean rest
  | false ↦ x ∷ pairs_rewritten selecting clean (y ∷ rest)
]

-- The last line, where it is alone after a pair.
unfoldable pub alone_after_pair : (String → Bool) → List String → List String
alone_after_pair selecting [] = []
alone_after_pair selecting (x ∷ []) = []
alone_after_pair selecting (x ∷ y ∷ []) = []
alone_after_pair selecting (x ∷ y ∷ z ∷ []) = if selecting x then z ∷ [] else []
alone_after_pair selecting (x ∷ y ∷ z ∷ w ∷ rest) = elim (selecting x) [
  | true ↦ alone_after_pair selecting (z ∷ w ∷ rest)
  | false ↦ alone_after_pair selecting (y ∷ z ∷ w ∷ rest)
]

module _ (tokenizer : Tokenizer) (lower : String → String) (r : MultiLineRedactor) where
  abbrev clean : String → String
  clean = rewritten tokenizer r.re2 r.label

  pair_loop_lines :
      (ending : Option Error) (n : ℕ) (x y : String) (rest : List String)
      → (pair_loop tokenizer lower r ending n x y rest).out.lines
          ++ alone_after_pair (selects lower r) (x ∷ y ∷ rest)
        ≡ pairs_rewritten (selects lower r) clean (x ∷ y ∷ rest)
  unfolding pair_loop alone_after_pair pairs_rewritten
  pair_loop_lines ending n x y [] = elim (Bool-cases (selects lower r x)) [
    | inl e ↦ rw (pair_loop, pairs_rewritten, e) refl
    | inr e ↦ rw (pair_loop, pairs_rewritten, e) refl
  ]
  pair_loop_lines ending n x y (z ∷ []) =
      let go = pair_loop_lines ending (n + 1) y z [] in
      elim (Bool-cases (selects lower r x)) [
        | inl e ↦ rw (pair_loop, alone_after_pair, pairs_rewritten, e) refl
        | inr e ↦ rw (pair_loop, alone_after_pair, pairs_rewritten, e) (ap (λ ls. x ∷ ls) go)
      ]
  pair_loop_lines ending n x y (z ∷ w ∷ rest) =
      let go = pair_loop_lines ending (n + 1) y z (w ∷ rest) in
      let go' = pair_loop_lines ending (n + 1) z w rest in
      elim (Bool-cases (selects lower r x)) [
        | inl e ↦
            rw (pair_loop, alone_after_pair, pairs_rewritten, e) (ap (λ ls. x ∷ clean y ∷ ls) go')
        | inr e ↦ rw (pair_loop, alone_after_pair, pairs_rewritten, e) (ap (λ ls. x ∷ ls) go)
      ]

  pair_loop_ending :
      (ending : Option Error) (n : ℕ) (x y : String) (rest : List String)
      → All (λ line. selects lower r line ≡ false) (x ∷ y ∷ rest)
      → (pair_loop tokenizer lower r ending n x y rest).out.ending ≡ none
  unfolding pair_loop
  pair_loop_ending ending n x y [] (e, _) = rw (pair_loop, e) refl
  pair_loop_ending ending n x y (z ∷ []) (e, h) =
      let go = pair_loop_ending ending (n + 1) y z [] h in rw (pair_loop, e) go
  pair_loop_ending ending n x y (z ∷ w ∷ rest) (e, h) =
      let go = pair_loop_ending ending (n + 1) y z (w ∷ rest) h in rw (pair_loop, e) go

  -- What the redactor of pairs writes for two lines or more, followed by the last line if that is
  -- alone after a pair, is the input with the line after each selecting line rewritten. So a line
  -- alone after a pair is lost, and no other.
  pub multi_line_redact_lines :
      (x y : String) (rest : List String) (ending : Option Error)
      → (multi_line_redact tokenizer lower r
            (record { lines = x ∷ y ∷ rest; ending = ending })).out.lines
          ++ alone_after_pair (selects lower r) (x ∷ y ∷ rest)
        ≡ pairs_rewritten (selects lower r) (rewritten tokenizer r.re2 r.label) (x ∷ y ∷ rest)
  unfolding multi_line_redact
  multi_line_redact_lines x y rest ending = pair_loop_lines ending 1 x y rest

  -- If no line selects, the result ends as if the whole input had been read, also where an error
  -- ended the input.
  pub multi_line_redact_hides_error :
      (input : Stream)
      → All (λ line. selects lower r line ≡ false) input.lines
      → (multi_line_redact tokenizer lower r input).out.ending ≡ none
  unfolding multi_line_redact
  multi_line_redact_hides_error input h = go input.lines input.ending h
    where
      go :
          (lines : List String) (ending : Option Error)
          → All (λ line. selects lower r line ≡ false) lines
          → (multi_line_redact tokenizer lower r
              (record { lines = lines; ending = ending })).out.ending
            ≡ none
      go [] ending h = refl
      go (x ∷ []) ending h = refl
      go (x ∷ y ∷ rest) ending h = pair_loop_ending ending 1 x y rest h
