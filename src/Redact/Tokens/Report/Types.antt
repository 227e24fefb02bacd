-- ===== src/Redact/Tokens/Report/Types.antt =====
-- What the loop over the tokens counts as their types.
use Prim.Native.String.{◌++◌ as ◌⧺◌}
use troubleshoot.Prelude.{ℕ, String, ◌≡◌, refl, Bool, some, ◌∷◌, eqb, ap, ◌∙◌}
use troubleshoot.Go.Text.{
  Free, split, split_by, split_by-part, split_by-Free, append_assoc, after_prefix,
  after_prefix-append,
}
use troubleshoot.Redact.Tokens.{default_format}
use troubleshoot.Redact.Tokens.Generate.{written}
use troubleshoot.Redact.Tokens.Report.{token_type, third_part}

abbrev is_bar : ℕ → Bool
is_bar = eqb b'_'

-- Of a token in the default format the loop counts the hash and the stars for its type, and not the prefix, which
-- it means to: the prefix and the hash have no underscore, and neither has what ends the token.
pub token_type-written :
    (prefix hash : String)
    → Free is_bar prefix
    → Free is_bar (hash ⧺ "***")
    → token_type (written default_format prefix hash) ≡ some (hash ⧺ "***")
unfolding token_type split
token_type-written prefix hash p h =
    let parts : "***TOKEN_" ⧺ prefix ⧺ "_" ⧺ hash ⧺ "***"
        ≡ "***TOKEN" ⧺ "_" ⧺ prefix ⧺ "_" ⧺ hash ⧺ "***" =
      append_assoc "***TOKEN" "_" (prefix ⧺ "_" ⧺ hash ⧺ "***") in
    let split3 =
      ap (split_by is_bar) parts
      ∙ split_by-part is_bar "***TOKEN" "_" (prefix ⧺ "_" ⧺ hash ⧺ "***")
          (refl, (refl, (refl, (refl, (refl, (refl, (refl, (refl, tt)))))))) refl
      ∙ ap (λ r. "***TOKEN" ∷ r)
          (split_by-part is_bar prefix "_" (hash ⧺ "***") p refl
            ∙ ap (λ r. prefix ∷ r) (split_by-Free is_bar (hash ⧺ "***") h)) in
    let begins : after_prefix "***TOKEN_" (written default_format prefix hash)
        ≡ some (prefix ⧺ "_" ⧺ hash ⧺ "***") =
      after_prefix-append "***TOKEN_" (prefix ⧺ "_" ⧺ hash ⧺ "***") in
    ap (third_part (written default_format prefix hash)) split3 ∙ rw begins refl
