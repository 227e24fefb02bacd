-- ===== src/Redact/MultiLine/Numbers.antt =====
-- The line numbers that the redactor of pairs records.
use troubleshoot.Prelude.{
  ℕ, ◌+◌, String, ◌≡◌, refl, ap, true, false, Option, List, [], ◌∷◌, ◌==◌, All,
}
use troubleshoot.Go.Result.{Error}
use troubleshoot.Redact.{Tokenizer, Redaction, rewritten}
use troubleshoot.Redact.MultiLine.{MultiLineRedactor, selects, pair_loop, multi_line_redact}

abbrev pub line_numbers : List Redaction → List ℕ
line_numbers [] = []
line_numbers (r ∷ rest) = r.line ∷ line_numbers rest

-- pairs of lines, one after the other
abbrev pub laid_out : List (String × String) → List String
laid_out [] = []
laid_out ((x, y) ∷ rest) = x ∷ y ∷ laid_out rest

-- as many numbers as there are pairs, one apart
abbrev pub one_apart : {A : Type 0} → ℕ → List A → List ℕ
one_apart n [] = []
one_apart n (p ∷ rest) = n ∷ one_apart (n + 1) rest

module _ (tokenizer : Tokenizer) (lower : String → String) (r : MultiLineRedactor) where
  -- The first line of the pair selects, and the second is changed.
  abbrev pub Redacts : String × String → Type 0
  Redacts (x, y) = (selects lower r x ≡ true) × ((rewritten tokenizer r.re2 r.label y == y) ≡ false)

  pair_loop_numbers :
      (ending : Option Error) (n : ℕ) (x y : String) (rest : List (String × String))
      → All Redacts ((x, y) ∷ rest)
      → line_numbers (pair_loop tokenizer lower r ending n x y (laid_out rest)).found
        ≡ one_apart (n + 1) ((x, y) ∷ rest)
  unfolding pair_loop
  pair_loop_numbers ending n x y [] ((s, c), _) = rw (pair_loop, s) (rw c refl)
  pair_loop_numbers ending n x y ((z, w) ∷ rest) ((s, c), h) =
      let go = pair_loop_numbers ending (n + 1) z w rest h in
      rw (pair_loop, s) (rw c (ap (λ ks. (n + 1) ∷ ks) go))

  -- In a file of pairs that are all redacted, the recorded line numbers are 2, 3, 4 and so on,
  -- one apart, where the changed lines are the second of each pair, two apart.
  multi_line_redact_numbers :
      (p : String × String) (rest : List (String × String)) (ending : Option Error)
      → All Redacts (p ∷ rest)
      → line_numbers
          (multi_line_redact tokenizer lower r
            (record { lines = laid_out (p ∷ rest); ending = ending })).found
        ≡ one_apart 2 (p ∷ rest)
  unfolding multi_line_redact
  multi_line_redact_numbers (x, y) rest ending h = pair_loop_numbers ending 1 x y rest h
