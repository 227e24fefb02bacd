-- ===== src/Redact/Tokens/Files.antt =====
-- The files of redaction maps: `GenerateRedactionMapFile`, `encryptRedactionMap`,
-- `decryptRedactionMap`, `LoadRedactionMapFile` and `ValidateRedactionMapFile`.
pub mod RoundTrip
use Prim.Native.String.{◌++◌ as ◌⧺◌}
use troubleshoot.Prelude.{
  ℕ, ◌+◌, ◌-◌, ◌<◌, String, ◌≡◌, refl, Bool, true, false, not, ◌&&◌, ◌||◌, Option, none, some, List,
  [], ◌∷◌, ◌++◌, ltb, eqb, length, if◌then◌else◌, ◌==◌, All, pos,
}
use troubleshoot.Go.Result.{Result, ok, err, panic, ◌>>=◌, wrap, Error, message, foreign}
use troubleshoot.Go.Strconv.{itoa}
use troubleshoot.Go.Hex.{hex_encode, hex_decode}
use troubleshoot.Go.Maps.{Map, lookup}
use troubleshoot.Redact.Tokens.{State}
use troubleshoot.Redact.Tokens.Generate.{validate_token}
use troubleshoot.Redact.Tokens.Correlate.{analyze_correlations}
use troubleshoot.Redact.Tokens.Report.{RedactionMap, RedactionStats, get_redaction_map}

-- What the operations take from other packages: the draw with a number of that many random bytes,
-- AES-GCM under a key and a nonce, the JSON form, and the writing of a file. `Content` is the type of
-- what a file holds.
pub record Platform : Type 1 where
  pub Content : Type 0
  pub random : ℕ → ℕ → Result (List ℕ)
  pub seal : List ℕ → List ℕ → String → List ℕ
  pub open_sealed : List ℕ → List ℕ → List ℕ → Option String
  pub marshal : RedactionMap → Result Content
  pub unmarshal : Content → Result RedactionMap
  pub write_file : String → Content → Map Content → Result (Map Content)

abbrev pub nonce_size : ℕ
nonce_size = 12

-- aes.NewCipher looks at the length of the key alone, and cipher.NewGCM takes every AES cipher.
unfoldable pub new_cipher : List ℕ → Result (Unit {0})
new_cipher key =
    if eqb (length key) 16 || eqb (length key) 24 || eqb (length key) 32
    then ok tt
    else err (foreign "crypto/aes: invalid key size")

-- the first elements of a list, and the others
unfoldable pub split_at : ℕ → List ℕ → List ℕ × List ℕ
split_at n [] = ([], [])
split_at n (b ∷ bs) =
    let (front, back) = split_at (n - 1) bs in if eqb n 0 then ([], b ∷ bs) else (b ∷ front, back)

-- os.ReadFile
abbrev pub read_file : {C : Type 0} → String → Map C → Result C
read_file path files = elim (lookup path files) [
  | none ↦ err (foreign "no such file or directory")
  | some json ↦ ok json
]

module _ (platform : Platform) where
  open platform use {Content, random, seal, open_sealed, marshal, unmarshal, write_file}

  -- the loop over the tokens, where `i` is the number of the next draw
  unfoldable pub encrypt_tokens : List ℕ → ℕ → Map String → Result (Map String)
  encrypt_tokens key i [] = ok []
  encrypt_tokens key i ((token, value) ∷ tokens) = do
    nonce ← wrap "failed to generate nonce" (random i nonce_size)
    later ← encrypt_tokens key (i + 1) tokens
    ok ((token, hex_encode (nonce ++ seal key nonce value)) ∷ later)

  unfoldable pub encrypt_redaction_map : RedactionMap → List ℕ → ℕ → Result RedactionMap
  unfolding encrypt_tokens
  encrypt_redaction_map m key i = do
    cipher ← wrap "failed to create cipher" (new_cipher key)
    tokens ← encrypt_tokens key i m.tokens
    ok (record m { tokens = tokens; encryption_key = key; is_encrypted = true })

  -- `none` for an entry that is skipped
  unfoldable pub decrypt_bytes : List ℕ → List ℕ → Option String
  unfolding split_at
  decrypt_bytes key bytes =
      if ltb (length bytes) nonce_size
      then none
      else (let (nonce, sealed) = split_at nonce_size bytes in open_sealed key nonce sealed)

  unfoldable pub decrypt_value : List ℕ → String → Option String
  unfolding decrypt_bytes
  decrypt_value key value = elim (hex_decode value) [
    | none ↦ none
    | some bytes ↦ decrypt_bytes key bytes
  ]

  unfoldable pub decrypt_tokens : List ℕ → Map String → Map String
  unfolding decrypt_value
  decrypt_tokens key [] = []
  decrypt_tokens key ((token, value) ∷ tokens) =
      let later = decrypt_tokens key tokens in
      elim (decrypt_value key value) [ none ↦ later | some plain ↦ (token, plain) ∷ later ]

  unfoldable pub decrypt_redaction_map : RedactionMap → List ℕ → Result RedactionMap
  unfolding decrypt_tokens
  decrypt_redaction_map m key = if not m.is_encrypted then ok m else (do
    cipher ← wrap "failed to create cipher" (new_cipher key)
    ok (record m { tokens = decrypt_tokens key m.tokens; is_encrypted = false }))

  -- `if encrypt { ... }`
  unfoldable pub sealed_map : Bool → RedactionMap → Result RedactionMap
  unfolding encrypt_redaction_map
  sealed_map false m = ok m
  sealed_map true m = do
    key ← wrap "failed to generate encryption key" (random 0 32)
    wrap "failed to encrypt redaction map" (encrypt_redaction_map m key 1)

  -- The files after the call, and the tokenizer.
  unfoldable pub generate_redaction_map_file :
      ℕ → String → String → Bool → State → Map Content → Result (Map Content) × State
  unfolding sealed_map
  generate_redaction_map_file now profile path encrypt t files =
      let (m, u) = get_redaction_map now profile (analyze_correlations now t) in
      (
        do
          sealed ← sealed_map encrypt m
          json ← wrap "failed to marshal redaction map" (marshal sealed)
          wrap "failed to write redaction map file" (write_file path json files),
        u,
      )

  -- `if redactionMap.IsEncrypted && len(encryptionKey) > 0`
  unfoldable pub opened : RedactionMap → List ℕ → Result RedactionMap
  unfolding decrypt_redaction_map
  opened m key =
      if m.is_encrypted && ltb 0 (length key)
      then wrap "failed to decrypt redaction map" (decrypt_redaction_map m key)
      else ok m

  unfoldable pub load_redaction_map_file : String → List ℕ → Map Content → Result RedactionMap
  unfolding opened
  load_redaction_map_file path key files = do
    json ← wrap "failed to read redaction map file" (read_file path files)
    m ← wrap "failed to parse redaction map" (unmarshal json)
    opened m key

-- the loop of `ValidateRedactionMapFile`
unfoldable pub check_tokens : Map String → Result (Unit {0})
unfolding validate_token
check_tokens [] = ok tt
check_tokens ((token, _) ∷ tokens) =
    let later = check_tokens tokens in
    if validate_token token then later else err (message ("invalid token format: " ⧺ token))

unfoldable pub check_map : RedactionMap → Result (Unit {0})
unfolding check_tokens
check_map m =
    if m.bundle_id == ""
    then err (message "invalid redaction map: missing bundle ID")
    else if not (eqb m.stats.total_secrets (length m.tokens))
    then err (
        message (
          "invalid redaction map: stats mismatch (expected "
          ⧺ itoa (pos m.stats.total_secrets)
          ⧺ " secrets, found "
          ⧺ itoa (pos (length m.tokens))
          ⧺ ")"))
    else check_tokens m.tokens

abbrev pub validate_redaction_map_file :
    (platform : Platform) → String → Map platform.Content → Result (Unit {0})
validate_redaction_map_file platform path files =
    load_redaction_map_file platform path [] files >>= check_map
