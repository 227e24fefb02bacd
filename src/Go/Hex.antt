-- ===== src/Go/Hex.antt =====
-- encoding/hex over lists of bytes.
use troubleshoot.Prelude.{
  ℕ, zero, suc, ◌+◌, ◌-◌, ◌*◌, ◌/◌, ◌%◌, ◌<◌, Char, code, String, ◌≡◌, refl, ◌&&◌, Option, none,
  some, List, [], ◌∷◌, arith, leb, if◌then◌else◌, All, ap,
}
use troubleshoot.Go.Ascii.{nth}

hex_char : ℕ → Char
unfolding nth
hex_char n = nth n "0123456789abcdef" "0"

-- hex.EncodeToString
unfoldable pub hex_encode : List ℕ → String
unfolding hex_char
hex_encode [] = ""
hex_encode (b ∷ bs) =
    String.◌∷◌ (hex_char (b / 16)) (String.◌∷◌ (hex_char (b % 16)) (hex_encode bs))

hex_value : ℕ → Option ℕ
hex_value c =
    if leb b'0' c && leb c b'9'
    then some (c - b'0')
    else if leb b'a' c && leb c b'f'
    then some (c - 87)
    else if leb b'A' c && leb c b'F'
    then some (c - 55)
    else none

abbrev byte : Option ℕ → Option ℕ → Option (List ℕ) → Option (List ℕ)
byte (some h) (some l) (some bs) = some ((h * 16 + l) ∷ bs)
byte _ _ _ = none

-- hex.DecodeString, `none` for an error
unfoldable pub hex_decode : String → Option (List ℕ)
unfolding hex_value
hex_decode String.[] = some []
hex_decode (String.◌∷◌ c String.[]) = none
hex_decode (String.◌∷◌ c (String.◌∷◌ d s)) =
    byte (hex_value (code c)) (hex_value (code d)) (hex_decode s)

hex_value-hex_char : (n : ℕ) → n < 16 → hex_value (code (hex_char n)) ≡ some n
unfolding hex_value hex_char nth
hex_value-hex_char zero h = refl
hex_value-hex_char (suc zero) h = refl
hex_value-hex_char (suc (suc zero)) h = refl
hex_value-hex_char (suc (suc (suc zero))) h = refl
hex_value-hex_char (suc (suc (suc (suc zero)))) h = refl
hex_value-hex_char (suc (suc (suc (suc (suc zero))))) h = refl
hex_value-hex_char (suc (suc (suc (suc (suc (suc zero)))))) h = refl
hex_value-hex_char (suc (suc (suc (suc (suc (suc (suc zero))))))) h = refl
hex_value-hex_char (suc (suc (suc (suc (suc (suc (suc (suc zero)))))))) h = refl
hex_value-hex_char (suc (suc (suc (suc (suc (suc (suc (suc (suc zero))))))))) h = refl
hex_value-hex_char (suc (suc (suc (suc (suc (suc (suc (suc (suc (suc zero)))))))))) h = refl
hex_value-hex_char (suc (suc (suc (suc (suc (suc (suc (suc (suc (suc (suc zero))))))))))) h = refl
hex_value-hex_char (suc (suc (suc (suc (suc (suc (suc (suc (suc (suc (suc (suc zero)))))))))))) h =
    refl
hex_value-hex_char
      (suc (suc (suc (suc (suc (suc (suc (suc (suc (suc (suc (suc (suc zero))))))))))))) h =
    refl
hex_value-hex_char
      (suc (suc (suc (suc (suc (suc (suc (suc (suc (suc (suc (suc (suc (suc zero)))))))))))))) h =
    refl
hex_value-hex_char
      (suc (suc (suc (suc (suc (suc (suc (suc (suc (suc (suc (suc (suc (suc (suc zero)))))))))))))))
      h =
    refl
hex_value-hex_char _ h = absurd (omega arith)

-- Bytes that are written are read back.
pub hex_decode-hex_encode :
    (bs : List ℕ) → All (λ b. b < 256) bs → hex_decode (hex_encode bs) ≡ some bs
unfolding hex_encode hex_decode
hex_decode-hex_encode [] h = refl
hex_decode-hex_encode (b ∷ bs) h =
    let high = hex_value-hex_char (b / 16) (omega (arith, h.0)) in
    let low = hex_value-hex_char (b % 16) (omega arith) in
    rw (high, low, hex_decode-hex_encode bs h.1)
      (ap {B = Option (List ℕ)} (λ n. some (n ∷ bs)) (omega arith))
