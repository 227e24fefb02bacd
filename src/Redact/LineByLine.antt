-- ===== src/Redact/LineByLine.antt =====
-- The redactors that look at one line at a time: pkg/redact/literal.go and single_line.go.
pub mod Recorded
pub mod Hidden
use troubleshoot.Prelude.{
  ℕ, ◌+◌, ◌*◌, String, ◌≡◌, refl, Bool, true, false, not, ◌&&◌, ◌||◌, Option, none, some, List, [],
  ◌∷◌, ◌++◌, if◌then◌else◌, leb,
}
use troubleshoot.Go.Result.{Error, foreign}
use troubleshoot.Go.Bytes.{replace_all}
use troubleshoot.Go.Text.{byte_length}
use troubleshoot.Redact.{
  Regex, Tokenizer, Stream, Redaction, Redacted, Label, mask_text, report_change, rewritten,
  rewriting_panics,
}

abbrev pub scanner_max_size : ℕ
scanner_max_size = 10 * 1024 * 1024

-- bufio.ErrTooLong
abbrev pub err_too_long : Error
err_too_long = foreign "bufio.Scanner: token too long"

abbrev pub written_first : String × List Redaction → Redacted → Redacted
written_first (line, found) rest = record {
  out = record { lines = line ∷ rest.out.lines; ending = rest.out.ending };
  found = found ++ rest.found;
}

-- The loop over the lines. A line that does not fit into the scanner's buffer ends it.
unfoldable pub scan_lines :
    (ℕ → String → String × List Redaction) → ℕ → List String → Option Error → Redacted
scan_lines step n [] ending = record { out = record { lines = []; ending = ending }; found = [] }
scan_lines step n (line ∷ rest) ending = elim (leb scanner_max_size (byte_length line)) [
  | true ↦ record { out = record { lines = []; ending = some err_too_long }; found = [] }
  | false ↦ written_first (step (n + 1) line) (scan_lines step (n + 1) rest ending)
]

pub record LiteralRedactor : Type 0 where
  pub match : String
  pub label : Label

-- what takes the place of the text
abbrev pub literal_mask : Tokenizer → LiteralRedactor → String
literal_mask none r = mask_text
literal_mask (some tokens) r = tokens.token r.match r.label.redact_name r.label.file_path

abbrev pub mask_panics : Tokenizer → LiteralRedactor → Bool
mask_panics none r = false
mask_panics (some tokens) r = tokens.panics r.match r.label.redact_name r.label.file_path

-- some line that the loop comes to makes the test true
unfoldable pub some_scanned : (String → Bool) → List String → Bool
some_scanned test [] = false
some_scanned test (line ∷ rest) =
    if leb scanner_max_size (byte_length line) then false else test line || some_scanned test rest

unfoldable pub literal_step : Tokenizer → LiteralRedactor → ℕ → String → String × List Redaction
literal_step tokenizer r n line =
    let clean = replace_all line r.match (literal_mask tokenizer r) in
    (clean, report_change r.label n line clean)

-- what is written and recorded, where no call of the tokenizer panics
unfoldable pub literal_redact : Tokenizer → LiteralRedactor → Stream → Redacted
unfolding scan_lines literal_step
literal_redact tokenizer r input = scan_lines (literal_step tokenizer r) 0 input.lines input.ending

-- The token is made anew for every line.
unfoldable pub literal_panics : Tokenizer → LiteralRedactor → Stream → Bool
unfolding some_scanned
literal_panics tokenizer r input = some_scanned (λ line. mask_panics tokenizer r) input.lines

-- `scan` is matched against the line in lower case; `lower` is bytes.ToLower.
pub record SingleLineRedactor : Type 0 where
  pub scan : Option Regex
  pub re : Regex
  pub label : Label

abbrev pub passes_scan : (String → String) → Option Regex → String → Bool
passes_scan lower none line = true
passes_scan lower (some scan) line = scan.matches (lower line)

unfoldable pub single_line_step :
    Tokenizer → (String → String) → SingleLineRedactor → ℕ → String → String × List Redaction
single_line_step tokenizer lower r n line =
    if not (passes_scan lower r.scan line)
    then (line, [])
    else if not (r.re.matches line)
    then (line, [])
    else let clean = rewritten tokenizer r.re r.label line in
      (clean, report_change r.label n line clean)

-- what is written and recorded, where no call of the tokenizer panics
unfoldable pub single_line_redact :
    Tokenizer → (String → String) → SingleLineRedactor → Stream → Redacted
unfolding scan_lines single_line_step
single_line_redact tokenizer lower r input =
    scan_lines (single_line_step tokenizer lower r) 0 input.lines input.ending

-- A line that the scan or the expression leaves alone makes no token.
unfoldable pub single_line_panics :
    Tokenizer → (String → String) → SingleLineRedactor → Stream → Bool
unfolding some_scanned rewriting_panics
single_line_panics tokenizer lower r input =
    some_scanned
      (λ line.
        passes_scan lower r.scan line
        && r.re.matches line
        && rewriting_panics tokenizer r.re r.label line)
      input.lines
