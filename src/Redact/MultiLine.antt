-- ===== src/Redact/MultiLine.antt =====
-- The redactor of pairs of lines, pkg/redact/multi_line.go: a line that matches selects the next one.
pub mod Reference
pub mod Numbers
use troubleshoot.Prelude.{
  ℕ, ◌+◌, String, ◌≡◌, refl, Bool, true, false, not, ◌&&◌, ◌||◌, Option, none, some, List, [], ◌∷◌,
  ◌++◌, if◌then◌else◌,
}
use troubleshoot.Go.Result.{Error}
use troubleshoot.Redact.{
  Regex, Tokenizer, Stream, Redaction, Redacted, Label, report_change, rewritten, rewriting_panics,
}
use troubleshoot.Redact.LineByLine.{passes_scan, written_first}

pub record MultiLineRedactor : Type 0 where
  pub scan : Option Regex
  pub re1 : Regex
  pub re2 : Regex
  pub label : Label

-- `line1` passes the scan and matches the first expression
abbrev pub selects : (String → String) → MultiLineRedactor → String → Bool
selects lower r line1 = passes_scan lower r.scan line1 && r.re1.matches line1

-- A pair of lines: what is written for the second, and what is recorded.
abbrev pub pair_step : Tokenizer → MultiLineRedactor → ℕ → String → String × List Redaction
pair_step tokenizer r n line2 =
    let clean = rewritten tokenizer r.re2 r.label line2 in
    (clean, report_change r.label n line2 clean)

-- The end of the loop, on the error of the read. `line1` is written if `flushLastLine` is set, and
-- then the error of the write, which is none, takes the place of the error of the read.
abbrev pub flushed : String → Redacted
flushed line1 = record { out = record { lines = line1 ∷ []; ending = none }; found = [] }

abbrev pub not_flushed : Option Error → Redacted
not_flushed ending = record { out = record { lines = []; ending = ending }; found = [] }

-- The loop with the two lines and the unread rest. `n` is `lineNum` at the end of the round before.
-- After a pair two lines are read, and with one left the read fails and the line is lost.
unfoldable pub pair_loop :
    Tokenizer
    → (String → String)
    → MultiLineRedactor
    → Option Error
    → ℕ
    → String
    → String
    → List String
    → Redacted
pair_loop tokenizer lower r ending n line1 line2 [] = elim (selects lower r line1) [
  | false ↦ written_first (line1, []) (flushed line2)
  | true ↦
      written_first (line1, [])
        (written_first (pair_step tokenizer r (n + 1) line2) (not_flushed ending))
]
pair_loop tokenizer lower r ending n line1 line2 (x ∷ []) = elim (selects lower r line1) [
  | false ↦ written_first (line1, []) (pair_loop tokenizer lower r ending (n + 1) line2 x [])
  | true ↦
      written_first (line1, [])
        (written_first (pair_step tokenizer r (n + 1) line2) (not_flushed ending))
]
pair_loop tokenizer lower r ending n line1 line2 (x ∷ y ∷ rest) = elim (selects lower r line1) [
  | false ↦
      written_first (line1, []) (pair_loop tokenizer lower r ending (n + 1) line2 x (y ∷ rest))
  | true ↦
      written_first (line1, [])
        (written_first (pair_step tokenizer r (n + 1) line2)
          (pair_loop tokenizer lower r ending (n + 1) x y rest))
]

-- What is written and recorded, where no call of the tokenizer panics.
-- With fewer than two lines the code writes the line that it has, or an empty one, and an empty line.
unfoldable pub multi_line_redact :
    Tokenizer → (String → String) → MultiLineRedactor → Stream → Redacted
unfolding pair_loop
multi_line_redact tokenizer lower r input = elim input.lines [
  | [] ↦ record { out = record { lines = "" ∷ "" ∷ []; ending = none }; found = [] }
  | x ∷ [] ↦ record { out = record { lines = x ∷ "" ∷ []; ending = none }; found = [] }
  | x ∷ y ∷ rest ↦ pair_loop tokenizer lower r input.ending 1 x y rest
]

-- whether the rewriting of a second line panics, over the same pairs
unfoldable pub pairs_panic :
    (String → Bool) → (String → Bool) → String → String → List String → Bool
pairs_panic selecting test line1 line2 [] = selecting line1 && test line2
pairs_panic selecting test line1 line2 (x ∷ []) =
    let next = pairs_panic selecting test line2 x [] in if selecting line1 then test line2 else next
pairs_panic selecting test line1 line2 (x ∷ y ∷ rest) =
    let next = pairs_panic selecting test line2 x (y ∷ rest) in
    let after = pairs_panic selecting test x y rest in
    if selecting line1 then test line2 || after else next

unfoldable pub multi_line_panics : Tokenizer → (String → String) → MultiLineRedactor → Stream → Bool
unfolding pairs_panic rewriting_panics
multi_line_panics tokenizer lower r input = elim input.lines [
  | [] ↦ false
  | x ∷ [] ↦ false
  | x ∷ y ∷ rest ↦
      pairs_panic (λ l. selects lower r l) (λ l. rewriting_panics tokenizer r.re2 r.label l) x y
        rest
]
