-- ===== src/Redact/LineByLine/Hidden.antt =====
-- What the literal redactor hides.
use troubleshoot.Prelude.{
  ℕ, ◌+◌, String, ◌≡◌, false, Option, List, [], ◌∷◌, leb, All, Bool-cases, inl, inr,
}
use troubleshoot.Go.Result.{Error}
use troubleshoot.Go.Text.{byte_length, contains, is_empty, Free}
use troubleshoot.Go.Bytes.{occurs_in, contains-replace_all}
use troubleshoot.Redact.{Tokenizer, Stream}
use troubleshoot.Redact.LineByLine.{
  scanner_max_size, scan_lines, LiteralRedactor, literal_mask, literal_step, literal_redact,
}

hides :
    (tokenizer : Tokenizer) (r : LiteralRedactor)
    → is_empty r.match ≡ false
    → is_empty (literal_mask tokenizer r) ≡ false
    → Free (occurs_in (literal_mask tokenizer r)) r.match
    → (n : ℕ) (lines : List String) (ending : Option Error)
    → All
        (λ line. contains line r.match ≡ false)
        (scan_lines (literal_step tokenizer r) n lines ending).out.lines
unfolding scan_lines literal_step
hides tokenizer r e m f n [] ending = tt
hides tokenizer r e m f n (line ∷ rest) ending =
    let go = hides tokenizer r e m f (n + 1) rest ending in
    elim (Bool-cases (leb scanner_max_size (byte_length line))) [
      | inl q ↦ rw (scan_lines, q) tt
      | inr q ↦
          rw (scan_lines, q)
            (contains-replace_all line r.match (literal_mask tokenizer r) e m f, go)
    ]

-- No line that the literal redactor writes contains the text that it redacts, for every input and
-- also where a line does not fit, if the text is not empty and shares no character with the mask or
-- the token in its place.
pub literal_redact_hides :
    (tokenizer : Tokenizer) (r : LiteralRedactor) (input : Stream)
    → is_empty r.match ≡ false
    → is_empty (literal_mask tokenizer r) ≡ false
    → Free (occurs_in (literal_mask tokenizer r)) r.match
    → All (λ line. contains line r.match ≡ false) (literal_redact tokenizer r input).out.lines
unfolding literal_redact
literal_redact_hides tokenizer r input e m f = hides tokenizer r e m f 0 input.lines input.ending
