-- ===== src/Redact/Tokens/Correlate/Always.antt =====
-- The third pattern of `analyzeCorrelations`.
use Prim.Native.String.{◌++◌ as ◌⧺◌}
use mathlib.Core.List.{append-nil, append_assoc}
use troubleshoot.Prelude.{
  ℕ, suc, ◌≤◌, String, ◌≡◌, refl, true, List, [], ◌∷◌, ◌++◌, map, arith, leb, length, length-append,
  All, member, Bool-cases, inl, inr, ap, sym, ◌∙◌,
}
use troubleshoot.Go.Text.{contains, contains-part, append_assoc as assoc}
use troubleshoot.Go.Maps.{Map}
use troubleshoot.Redact.Tokens.Track.{with_path}
use troubleshoot.Redact.Tokens.Correlate.{
  add_files, has_either, gather, correlated, Pattern, api_authentication,
}

length-with_path :
    (path : String) (paths : List String) → length paths ≤ length (with_path path paths)
length-with_path path paths = elim (Bool-cases (member path paths)) [
  | inl e ↦ rw e (omega arith)
  | inr e ↦ rw e (omega (arith, length-append paths (path ∷ [])))
]

with_path_some : (path : String) (paths : List String) → 1 ≤ length (with_path path paths)
unfolding member
with_path_some path [] = omega arith
with_path_some path (x ∷ xs) = omega (arith, length-with_path path (x ∷ xs))

length-add_files : (found files : List String) → length found ≤ length (add_files found files)
unfolding add_files
length-add_files found [] = omega arith
length-add_files found (file ∷ files) =
    omega (arith, length-with_path file found, length-add_files (with_path file found) files)

add_files_some : (found files : List String) → 1 ≤ length files → 1 ≤ length (add_files found files)
unfolding add_files
add_files_some found [] h = absurd (omega arith)
add_files_some found (file ∷ files) h =
    omega (arith, with_path_some file found, length-add_files (with_path file found) files)

length-map : (refs : Map (List String)) → length (map (λ e. e.0) refs) ≡ length refs
length-map [] = refl
length-map (e ∷ refs) = ap suc (length-map refs)

abbrev Refs : Type 0
Refs = Map (List String)

-- where every token has one of the words, all are gathered
gather-all :
    (p : Pattern) (tokens files : List String) (refs : Refs)
    → All (λ e. has_either p.first_word p.second_word e.0 ≡ true) refs
    → ((gather p.first_word p.second_word tokens files refs).0 ≡ tokens ++ map (λ e. e.0) refs)
      × (length files ≤ length (gather p.first_word p.second_word tokens files refs).1)
unfolding gather
gather-all p tokens files [] h = (sym (append-nil tokens), omega arith)
gather-all p tokens files ((token, paths) ∷ refs) h =
    let (all, more) = gather-all p (tokens ++ token ∷ []) (add_files files paths) refs h.1 in
    rw (h.0)
      (all ∙ append_assoc tokens (token ∷ []) _, omega (arith, more, length-add_files files paths))

gather_files :
    (p : Pattern) (token : String) (paths : List String) (refs : Refs)
    → All (λ e. has_either p.first_word p.second_word e.0 ≡ true) ((token, paths) ∷ refs)
    → 1 ≤ length paths
    → 1 ≤ length (gather p.first_word p.second_word [] [] ((token, paths) ∷ refs)).1
unfolding gather
gather_files p token paths refs h s =
    let (_, more) = gather-all p (token ∷ []) (add_files [] paths) refs h.1 in
    rw (h.0) (omega (arith, more, add_files_some [] paths s))

prefixed : (s : String) → contains ("***TOKEN_" ⧺ s) "TOKEN" ≡ true
prefixed s =
    let parts : "***TOKEN_" ⧺ s ≡ "***" ⧺ "TOKEN" ⧺ "_" ⧺ s =
      assoc "***" "TOKEN_" s ∙ ap (λ r. "***" ⧺ r) (assoc "TOKEN" "_" s) in
    rw parts (contains-part "***" "TOKEN" ("_" ⧺ s))

has_second :
    (token first second : String)
    → contains token second ≡ true
    → has_either first second token ≡ true
has_second token first second h = ground arith

tokens-prefixed :
    (refs : Refs)
    → All (λ e. (s : String) × (e.0 ≡ "***TOKEN_" ⧺ s)) refs
    → All (λ e. has_either "APIKEY" "TOKEN" e.0 ≡ true) refs
tokens-prefixed [] h = tt
tokens-prefixed ((token, paths) ∷ refs) ((s, e), h) =
    (has_second token "APIKEY" "TOKEN" (rw e (prefixed s)), tokens-prefixed refs h)

correlated_enough :
    (now : ℕ) (p : Pattern) (refs : Refs)
    → 2 ≤ length (gather p.first_word p.second_word [] [] refs).0
    → 1 ≤ length (gather p.first_word p.second_word [] [] refs).1
    → map {B = String × List String} (λ g. (g.pattern, g.tokens)) (correlated now p refs)
      ≡ (p.pattern, (gather p.first_word p.second_word [] [] refs).0) ∷ []
unfolding correlated
correlated_enough now p refs two one =
    let tokens : leb 2 (length (gather p.first_word p.second_word [] [] refs).0) ≡ true =
      ground arith in
    let files : leb 1 (length (gather p.first_word p.second_word [] [] refs).1) ≡ true =
      ground arith in
    rw (tokens, files) refl

-- If every token begins as the default format makes it, then any two tokens or more are reported as an API key
-- that is found with a token, all of them together and of whatever kinds they are, once a
-- file is recorded for the first.
pub correlated_always :
    (now : ℕ) (token : String) (paths : List String) (refs : Map (List String))
    → All (λ e. (s : String) × (e.0 ≡ "***TOKEN_" ⧺ s)) ((token, paths) ∷ refs)
    → 1 ≤ length refs
    → 1 ≤ length paths
    → map {B = String × List String}
        (λ g. (g.pattern, g.tokens))
        (correlated now api_authentication ((token, paths) ∷ refs))
      ≡ ("api_authentication", token ∷ map (λ e. e.0) refs) ∷ []
correlated_always now token paths refs h two one =
    let all = tokens-prefixed ((token, paths) ∷ refs) h in
    let (tokens, _) = gather-all api_authentication [] [] ((token, paths) ∷ refs) all in
    let files = gather_files api_authentication token paths refs all one in
    correlated_enough now api_authentication ((token, paths) ∷ refs)
      (rw tokens (omega (arith, length-map refs, two))) files
    ∙ ap (λ ts. ("api_authentication", ts) ∷ []) tokens
