-- ===== src/Redact/Tokens/Files/RoundTrip.antt =====
-- A redaction map that is written, with its tokens encrypted or not, and read again.
use troubleshoot.Prelude.{
  ℕ, ◌+◌, ◌-◌, ◌<◌, String, ◌≡◌, refl, Bool, true, false, some, List, [], ◌∷◌, ◌++◌, arith, ltb,
  eqb, length, length-append, All, ap, sym, ◌∙◌,
}
use troubleshoot.Go.Result.{Result, ok, ◌>>=◌, wrap, bind-inv, wrap-ok}
use troubleshoot.Go.Hex.{hex_encode, hex_decode-hex_encode}
use troubleshoot.Go.Maps.{Map, lookup}
use troubleshoot.Redact.Tokens.{State}
use troubleshoot.Redact.Tokens.Correlate.{analyze_correlations}
use troubleshoot.Redact.Tokens.Report.{RedactionMap, get_redaction_map}
use troubleshoot.Redact.Tokens.Files.{
  Platform, nonce_size, new_cipher, split_at, encrypt_tokens, encrypt_redaction_map, decrypt_bytes,
  decrypt_value, decrypt_tokens, decrypt_redaction_map, sealed_map, generate_redaction_map_file,
  opened, read_file, load_redaction_map_file,
}

abbrev pub Opens : Platform → String → Type 0
Opens platform s =
    (key nonce : List ℕ) → platform.open_sealed key nonce (platform.seal key nonce s) ≡ some s

-- What the operations rely on. What was sealed is opened, for each value of the map; and the key is left
-- out of the JSON form.
pub record Laws (platform : Platform) (tokens : Map String) : Type 0 where
  pub drawn :
      (i n : ℕ) (bs : List ℕ)
      → platform.random i n ≡ ok bs
      → (length bs ≡ n) × All (λ b. b < 256) bs
  pub sealed_bytes :
      (key nonce : List ℕ) (s : String) → All (λ b. b < 256) (platform.seal key nonce s)
  pub opens : All (λ e. Opens platform e.1) tokens
  pub reads_back :
      (m : RedactionMap) (json : platform.Content)
      → platform.marshal m ≡ ok json
      → platform.unmarshal json ≡ ok (record m { encryption_key = [] })
  pub writes :
      (path : String) (json : platform.Content) (files after : Map platform.Content)
      → platform.write_file path json files ≡ ok after
      → lookup path after ≡ some json

All-append :
    (xs ys : List ℕ) → All (λ b. b < 256) xs → All (λ b. b < 256) ys → All (λ b. b < 256) (xs ++ ys)
All-append [] ys hx hy = hy
All-append (x ∷ xs) ys hx hy = (hx.0, All-append xs ys hx.1 hy)

split_at-append : (n : ℕ) (xs ys : List ℕ) → length xs ≡ n → split_at n (xs ++ ys) ≡ (xs, ys)
unfolding split_at
split_at-append n [] [] h = refl
split_at-append n [] (y ∷ ys) h = let zero_n : eqb n 0 ≡ true = ground arith in rw zero_n refl
split_at-append n (x ∷ xs) ys h =
    let go = split_at-append (n - 1) xs ys (omega arith) in
    let more : eqb n 0 ≡ false = ground arith in rw (go, more) refl

module _ (platform : Platform) (all : Map String) (laws : Laws platform all) where
  open platform use {random, seal}

  decrypt_value-sealed :
      (key nonce : List ℕ) (s : String)
      → length nonce ≡ nonce_size
      → All (λ b. b < 256) nonce
      → Opens platform s
      → decrypt_value platform key (hex_encode (nonce ++ seal key nonce s)) ≡ some s
  unfolding decrypt_value decrypt_bytes
  decrypt_value-sealed key nonce s size bytes opens =
      let sealed = seal key nonce s in
      let long : ltb (length (nonce ++ sealed)) nonce_size ≡ false =
        ground (arith, length-append nonce sealed, size) in
      rw
        (
          decrypt_value,
          decrypt_bytes,
          hex_decode-hex_encode (nonce ++ sealed)
              (All-append nonce sealed bytes (laws.sealed_bytes key nonce s)),
          long,
          split_at-append nonce_size nonce sealed size,
        )
        (opens key nonce)

  decrypt_tokens-cons :
      (key : List ℕ) (token value plain : String) (sealed tokens : Map String)
      → decrypt_value platform key value ≡ some plain
      → decrypt_tokens platform key sealed ≡ tokens
      → decrypt_tokens platform key ((token, value) ∷ sealed) ≡ (token, plain) ∷ tokens
  unfolding decrypt_tokens
  decrypt_tokens-cons key token value plain sealed tokens h k = rw (decrypt_tokens, h, k) refl

  decrypt_tokens-encrypt_tokens :
      (key : List ℕ) (i : ℕ) (tokens sealed : Map String)
      → All (λ e. Opens platform e.1) tokens
      → encrypt_tokens platform key i tokens ≡ ok sealed
      → decrypt_tokens platform key sealed ≡ tokens
  unfolding encrypt_tokens
  decrypt_tokens-encrypt_tokens key i [] sealed opens h =
      let same : [] ≡ sealed = cc h in rw (← same) (unfold decrypt_tokens in refl)
  decrypt_tokens-encrypt_tokens key i ((token, value) ∷ tokens) sealed opens h =
      let (nonce, h', drawn) =
        bind-inv (wrap "failed to generate nonce" (random i nonce_size)) _ sealed h in
      let (later, h'', e) = bind-inv (encrypt_tokens platform key (i + 1) tokens) _ sealed h' in
      let same : (token, hex_encode (nonce ++ seal key nonce value)) ∷ later ≡ sealed = cc h'' in
      let (size, bytes) = laws.drawn i nonce_size nonce (wrap-ok _ _ nonce drawn) in
      rw (← same) (
        decrypt_tokens-cons key token (hex_encode (nonce ++ seal key nonce value)) value later
          tokens (decrypt_value-sealed key nonce value size bytes opens.0)
          (decrypt_tokens-encrypt_tokens key (i + 1) tokens later opens.1 e))

  same_map : (m : RedactionMap) → m.encryption_key ≡ [] → record m { encryption_key = [] } ≡ m
  same_map m h = ap (λ k. record m { encryption_key = k }) (sym h)

  opened-plain :
      (m : RedactionMap) (key : List ℕ)
      → m.is_encrypted ≡ false
      → m.encryption_key ≡ []
      → opened platform (record m { encryption_key = [] }) key ≡ ok m
  unfolding opened
  opened-plain m key plain no_key = simp plain (
      ap ok (
        ap (λ b. record m { encryption_key = []; is_encrypted = b }) (sym plain)
        ∙ same_map m no_key))

  opened-encrypted :
      (m : RedactionMap) (key : List ℕ) (tokens : Map String)
      → length key ≡ 32
      → m.is_encrypted ≡ false
      → m.encryption_key ≡ []
      → decrypt_tokens platform key tokens ≡ m.tokens
      → opened platform (record m { tokens = tokens; encryption_key = []; is_encrypted = true }) key
        ≡ ok m
  unfolding opened decrypt_redaction_map new_cipher
  opened-encrypted m key tokens size plain no_key h =
      let given : ltb 0 (length key) ≡ true = rw size refl in
      let accepted : new_cipher key ≡ ok tt = rw (new_cipher, size) refl in
      rw (given, accepted, h)
        (ap ok (
          ap (λ b. record m { encryption_key = []; is_encrypted = b }) (sym plain)
          ∙ same_map m no_key))

  -- what is sealed is opened with the key that was drawn
  opened-sealed_map :
      (encrypt : Bool) (m sealed : RedactionMap) (key : List ℕ)
      → random 0 32 ≡ ok key
      → m.is_encrypted ≡ false
      → m.encryption_key ≡ []
      → m.tokens ≡ all
      → sealed_map platform encrypt m ≡ ok sealed
      → opened platform (record sealed { encryption_key = [] }) key ≡ ok m
  unfolding sealed_map encrypt_redaction_map
  opened-sealed_map false m sealed key r plain no_key same_tokens h =
      let same : m ≡ sealed = cc h in rw (← same) (opened-plain m key plain no_key)
  opened-sealed_map true m sealed key r plain no_key same_tokens h =
      let (size, _) = laws.drawn 0 32 key r in
      let (key', h1, drawn) =
        bind-inv (wrap "failed to generate encryption key" (random 0 32)) _ sealed h in
      let (_, h2, _) =
        bind-inv (wrap "failed to create cipher" (new_cipher key')) _ sealed
          (wrap-ok _ _ sealed h1) in
      let (tokens, h3, e) = bind-inv (encrypt_tokens platform key' 1 m.tokens) _ sealed h2 in
      let one_key : key ≡ key' = cc (r, wrap-ok _ _ key' drawn) in
      let same : record m { tokens = tokens; encryption_key = key'; is_encrypted = true } ≡ sealed =
        cc h3 in
      rw (← same) (
        opened-encrypted m key tokens size plain no_key (
          decrypt_tokens-encrypt_tokens key 1 m.tokens tokens (rw same_tokens laws.opens)
            (rw one_key e)))

  load-opened :
      (path : String) (key : List ℕ) (files : Map platform.Content) (json : platform.Content)
      (m : RedactionMap)
      → lookup path files ≡ some json
      → platform.unmarshal json ≡ ok m
      → load_redaction_map_file platform path key files ≡ opened platform m key
  unfolding load_redaction_map_file
  load-opened path key files json m found read =
      go (read_file path files) (rw (read_file, found) refl)
    where
      go :
          (r : Result platform.Content)
          → r ≡ ok json
          → (do
            j ← wrap "failed to read redaction map file" r
            m ← wrap "failed to parse redaction map" (platform.unmarshal j)
            opened platform m key)
            ≡ opened platform m key
      go r e = rw (e, read) refl

-- A map that is generated and written, with encryption or without, is read back as it was reported; the
-- key is the one that was drawn for the tokens, and is not looked at where they are not encrypted.
pub load_redaction_map_file-generate_redaction_map_file :
    (platform : Platform) (now : ℕ) (profile path : String) (encrypt : Bool) (t : State)
    (files after : Map platform.Content) (key : List ℕ)
    → Laws platform t.reverse_map
    → platform.random 0 32 ≡ ok key
    → (generate_redaction_map_file platform now profile path encrypt t files).0 ≡ ok after
    → load_redaction_map_file platform path key after
      ≡ ok (get_redaction_map now profile (analyze_correlations now t)).0
unfolding generate_redaction_map_file get_redaction_map analyze_correlations
load_redaction_map_file-generate_redaction_map_file platform now profile path encrypt t files after
      key laws r h =
    let m = (get_redaction_map now profile (analyze_correlations now t)).0 in
    let (sealed, h', e) = bind-inv (sealed_map platform encrypt m) _ after h in
    let (json, h'', e') =
      bind-inv (wrap "failed to marshal redaction map" (platform.marshal sealed)) _ after h' in
    let found = laws.writes path json files after (wrap-ok _ _ after h'') in
    let read = laws.reads_back sealed json (wrap-ok _ _ json e') in
    load-opened platform t.reverse_map laws path key after json
      (record sealed { encryption_key = [] }) found read
    ∙ opened-sealed_map platform t.reverse_map laws encrypt m sealed key r refl refl refl e
