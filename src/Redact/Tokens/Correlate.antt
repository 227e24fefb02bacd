-- ===== src/Redact/Tokens/Correlate.antt =====
-- `analyzeCorrelations`: the tokens that are found together. The order of the references stands for
-- the order in which the loops over the map take them.
pub mod Always
use troubleshoot.Prelude.{
  ℕ, String, ◌≡◌, refl, Bool, true, false, ◌&&◌, ◌||◌, List, [], ◌∷◌, ◌++◌, map, arith, leb, length,
  if◌then◌else◌, select, inl, inr, Bool-cases,
}
use troubleshoot.Go.Text.{contains}
use troubleshoot.Go.Maps.{Map}
use troubleshoot.Redact.Tokens.{State, CorrelationGroup}
use troubleshoot.Redact.Tokens.Track.{with_path}

-- the inner loop: files that are there already are left out
unfoldable pub add_files : List String → List String → List String
add_files found [] = found
add_files found (file ∷ files) = add_files (with_path file found) files

-- the token contains one of the two words
abbrev pub has_either : String → String → String → Bool
has_either first second token = contains token first || contains token second

-- the loop over the references, with the tokens and files found so far
unfoldable pub gather :
    String → String → List String → List String → Map (List String) → List String × List String
unfolding add_files
gather first second tokens files [] = (tokens, files)
gather first second tokens files ((token, paths) ∷ refs) =
    let taken = gather first second (tokens ++ token ∷ []) (add_files files paths) refs in
    let passed = gather first second tokens files refs in
    if has_either first second token then taken else passed

-- what one pattern is reported with
pub record Pattern : Type 0 where
  pub first_word : String
  pub second_word : String
  pub pattern : String
  pub description : String
  pub confidence : ℕ

-- two tokens and one file at least
unfoldable pub correlated : ℕ → Pattern → Map (List String) → List CorrelationGroup
unfolding gather
correlated now p refs =
    let (tokens, files) = gather p.first_word p.second_word [] [] refs in
    if leb 2 (length tokens) && leb 1 (length files)
    then record {
      pattern = p.pattern;
      description = p.description;
      tokens = tokens;
      files = files;
      confidence = p.confidence;
      detected_at = now;
    }
      ∷ []
    else []

abbrev pub database_credentials : Pattern
database_credentials = record {
  first_word = "DATABASE";
  second_word = "PASSWORD";
  pattern = "database_credentials";
  description = "Database connection credentials found together";
  confidence = 8;
}

abbrev pub aws_credentials : Pattern
aws_credentials = record {
  first_word = "APIKEY";
  second_word = "SECRET";
  pattern = "aws_credentials";
  description = "AWS credential pair (access key + secret) found together";
  confidence = 9;
}

abbrev pub api_authentication : Pattern
api_authentication = record {
  first_word = "APIKEY";
  second_word = "TOKEN";
  pattern = "api_authentication";
  description = "API authentication tokens found together";
  confidence = 7;
}

unfoldable pub analyze_correlations : ℕ → State → State
unfolding correlated
analyze_correlations now t = record t {
  correlations =
      correlated now database_credentials t.secret_refs
      ++ correlated now aws_credentials t.secret_refs
      ++ correlated now api_authentication t.secret_refs;
}
