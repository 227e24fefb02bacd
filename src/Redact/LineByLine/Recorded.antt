-- ===== src/Redact/LineByLine/Recorded.antt =====
-- What is recorded of the lines.
use troubleshoot.Prelude.{
  ℕ, ◌+◌, String, ◌≡◌, refl, Bool, false, not, ◌&&◌, ◌||◌, Option, List, [], ◌∷◌, ◌++◌, ◌==◌, eqb,
  leb, All, arith, eq_refl, length,
}
use troubleshoot.Go.Result.{Error}
use troubleshoot.Go.Text.{byte_length}
use troubleshoot.Redact.{Tokenizer, Stream, Redaction, Redacted, Label, report_change}
use troubleshoot.Redact.LineByLine.{
  scanner_max_size, written_first, scan_lines, LiteralRedactor, literal_step, literal_redact,
  SingleLineRedactor, single_line_step, single_line_redact,
}

-- Every line fits into the scanner's buffer.
abbrev pub Fit : List String → Type 0
Fit lines = All (λ line. leb scanner_max_size (byte_length line) ≡ false) lines

-- the number of a line among the recorded ones
abbrev pub recorded : ℕ → List Redaction → Bool
recorded k [] = false
recorded k (r ∷ rest) = eqb r.line k || recorded k rest

-- The line of number `k` differs, where the first number is that after `n`.
abbrev pub differs_at : ℕ → ℕ → List String → List String → Bool
differs_at k n (x ∷ xs) (y ∷ ys) = eqb (n + 1) k && not (y == x) || differs_at k (n + 1) xs ys
differs_at k n _ _ = false

-- What a redactor of lines owes: as many lines as it reads and the same end, and a record of
-- exactly the lines that it changes.
pub record Accounts (input : Stream) (result : Redacted) : Type 0 where
  pub all_lines : length result.out.lines ≡ length input.lines
  pub same_end : result.out.ending ≡ input.ending
  pub changes : (k : ℕ) → recorded k result.found ≡ differs_at k 0 input.lines result.out.lines

-- a step that records its line if it changes it
abbrev Honest : (ℕ → String → String × List Redaction) → Type 0
Honest step =
    (label : Label) × ((n : ℕ) (line : String)
      → (step n line).1 ≡ report_change label n line (step n line).0)

recorded-append :
    (k : ℕ) (xs ys : List Redaction) → recorded k (xs ++ ys) ≡ (recorded k xs || recorded k ys)
recorded-append k [] ys = refl
recorded-append k (x ∷ xs) ys = ground (arith, recorded-append k xs ys)

recorded-report_change :
    (label : Label) (n k : ℕ) (line clean : String)
    → recorded k (report_change label n line clean) ≡ (eqb n k && not (clean == line))
recorded-report_change label n k line clean = ground arith

scan_lines_step :
    (step : ℕ → String → String × List Redaction) (n : ℕ) (line : String) (rest : List String)
    (ending : Option Error)
    → leb scanner_max_size (byte_length line) ≡ false
    → scan_lines step n (line ∷ rest) ending
      ≡ written_first (step (n + 1) line) (scan_lines step (n + 1) rest ending)
unfolding scan_lines
scan_lines_step step n line rest ending h = rw (scan_lines, h) refl

scan_lines_lines :
    (step : ℕ → String → String × List Redaction) (n : ℕ) (lines : List String)
    (ending : Option Error)
    → Fit lines
    → (length (scan_lines step n lines ending).out.lines ≡ length lines)
      × ((scan_lines step n lines ending).out.ending ≡ ending)
scan_lines_lines step n [] ending f = unfold scan_lines in (refl, refl)
scan_lines_lines step n (line ∷ rest) ending f =
    let (l, e) = scan_lines_lines step (n + 1) rest ending f.1 in
    rw (scan_lines_step step n line rest ending f.0) (omega (arith, l), e)

scan_lines_changes :
    (step : ℕ → String → String × List Redaction)
    → Honest step
    → (n : ℕ) (lines : List String) (ending : Option Error) → Fit lines
    → (k : ℕ)
    → recorded k (scan_lines step n lines ending).found
      ≡ differs_at k n lines (scan_lines step n lines ending).out.lines
scan_lines_changes step (label, h) n [] ending f k = unfold scan_lines in refl
scan_lines_changes step (label, h) n (line ∷ rest) ending f k =
    let go = scan_lines_changes step (label, h) (n + 1) rest ending f.1 k in
    rw (scan_lines_step step n line rest ending f.0) (
      rw (recorded-append k (step (n + 1) line).1 (scan_lines step (n + 1) rest ending).found) (
        rw (h (n + 1) line)
          (rw (recorded-report_change label (n + 1) k line (step (n + 1) line).0) (rw go refl))))

Accounts-scan_lines :
    (step : ℕ → String → String × List Redaction) (input : Stream)
    → Honest step
    → Fit input.lines
    → Accounts input (scan_lines step 0 input.lines input.ending)
Accounts-scan_lines step input h f =
    let (l, e) = scan_lines_lines step 0 input.lines input.ending f in
    record {
      all_lines = l;
      same_end = e;
      changes = scan_lines_changes step h 0 input.lines input.ending f;
    }

-- If every line fits, the literal redactor writes as many lines as it reads and passes the end of
-- its input on, and it records exactly the numbers of the lines that it changes.
literal_redact-Accounts :
    (tokenizer : Tokenizer) (r : LiteralRedactor) (input : Stream)
    → Fit input.lines
    → Accounts input (literal_redact tokenizer r input)
unfolding literal_redact
literal_redact-Accounts tokenizer r input f =
    Accounts-scan_lines (literal_step tokenizer r) input
      (r.label, λ n line. unfold literal_step in refl) f

single_line_step-Honest :
    (tokenizer : Tokenizer) (lower : String → String) (r : SingleLineRedactor)
    → Honest (single_line_step tokenizer lower r)
unfolding single_line_step
single_line_step-Honest tokenizer lower r = (r.label, λ n line. ground (arith, eq_refl line))

-- If every line fits, the redactor with one expression writes as many lines as it reads and passes
-- the end of its input on, and it records exactly the numbers of the lines that it changes, whatever
-- the expressions match.
pub single_line_redact-Accounts :
    (tokenizer : Tokenizer) (lower : String → String) (r : SingleLineRedactor) (input : Stream)
    → Fit input.lines
    → Accounts input (single_line_redact tokenizer lower r input)
unfolding single_line_redact
single_line_redact-Accounts tokenizer lower r input f =
    Accounts-scan_lines (single_line_step tokenizer lower r) input
      (single_line_step-Honest tokenizer lower r) f
