-- ===== src/Go/Strconv.antt =====
-- strconv.Atoi, strconv.ParseBool and the decimal form that fmt's %d prints.
use Prim.Native.String.{◌++◌ as ◌⧺◌}
use Prim.Native.String.append
use troubleshoot.Prelude.{
  ℕ, zero, suc, ◌+◌, ◌-◌, ◌*◌, ◌/◌, ◌%◌, ◌^◌, ◌<◌, code, String, ◌≡◌, refl, Bool, true, false, ◌&&◌,
  ◌||◌, Option, none, some, arith, leb, ltb, eqb, if◌then◌else◌, ℤ, pos, negsuc, neg_ℕ, ◌==◌,
  Bool-cases, inl, inr, ltb→lt, ◌∙◌, ap, ◌≢◌,
}
use troubleshoot.Go.Ascii.{every_char}
use troubleshoot.Go.Result.{Result, ok, err, panic, invalid_syntax, out_of_range}
use troubleshoot.Go.Text.{is_empty, is_empty-append, Free, is_space, EndsWell, EndsWell-word}

unfoldable pub is_digit : ℕ → Bool
is_digit c = leb b'0' c && leb c b'9'

-- the number that the digits write after `n`; `none` at a character that is no digit
pub digits_from : ℕ → String → Option ℕ
digits_from n String.[] = some n
digits_from n (String.◌∷◌ c s) =
    if is_digit (code c) then digits_from (n * 10 + (code c - b'0')) s else none

-- a sign is followed by one digit at least
unsigned : String → Option ℕ
unfolding digits_from
unsigned s = if is_empty s then none else digits_from 0 s

abbrev positive : String → Option ℕ → Result ℤ
positive s none = err (invalid_syntax s)
positive s (some n) = if ltb n (2 ^ 63) then ok (pos n) else err (out_of_range s)

abbrev negative : String → Option ℕ → Result ℤ
negative s none = err (invalid_syntax s)
negative s (some n) = if leb n (2 ^ 63) then ok (neg_ℕ n) else err (out_of_range s)

-- strconv.Atoi on a 64-bit machine
unfoldable pub atoi : String → Result ℤ
unfolding unsigned is_digit
atoi String.[] = err (invalid_syntax "")
atoi (String.◌∷◌ c s) =
    if eqb (code c) b'-'
    then negative (String.◌∷◌ c s) (unsigned s)
    else if eqb (code c) b'+'
    then positive (String.◌∷◌ c s) (unsigned s)
    else positive (String.◌∷◌ c s) (unsigned (String.◌∷◌ c s))

-- strconv.ParseBool
unfoldable pub parse_bool : String → Result Bool
parse_bool s =
    if s == "1" || s == "t" || s == "T" || s == "TRUE" || s == "true" || s == "True"
    then ok true
    else if s == "0" || s == "f" || s == "F" || s == "FALSE" || s == "false" || s == "False"
    then ok false
    else err (invalid_syntax s)

digit : ℕ → String
digit zero = "0"
digit (suc zero) = "1"
digit (suc (suc zero)) = "2"
digit (suc (suc (suc zero))) = "3"
digit (suc (suc (suc (suc zero)))) = "4"
digit (suc (suc (suc (suc (suc zero))))) = "5"
digit (suc (suc (suc (suc (suc (suc zero)))))) = "6"
digit (suc (suc (suc (suc (suc (suc (suc zero))))))) = "7"
digit (suc (suc (suc (suc (suc (suc (suc (suc zero)))))))) = "8"
digit _ = "9"

decimal_fuel : ℕ → ℕ → String
decimal_fuel zero n = ""
decimal_fuel (suc f) n = elim (ltb n 10) [
  | true ↦ digit n
  | false ↦ decimal_fuel f (n / 10) ⧺ digit (n % 10)
]

-- a number has fewer digits than its successor has units
unfoldable pub decimal : ℕ → String
unfolding decimal_fuel digit
decimal n = decimal_fuel (suc n) n

-- fmt's %d
unfoldable pub itoa : ℤ → String
unfolding decimal
itoa (pos n) = decimal n
itoa (negsuc n) = "-" ⧺ decimal (suc n)

itoa_test : itoa (negsuc 122) ≡ "-123"
unfolding itoa
itoa_test = refl

atoi_test : atoi "+0450" ≡ ok (pos 450)
unfolding atoi
atoi_test = refl

atoi_limit : atoi "9223372036854775808" ≡ err (out_of_range "9223372036854775808")
unfolding atoi
atoi_limit = refl

none-some {ℓ} : {A : Type ℓ} {a : A} → none ≡ some a → ⊥
none-some h = cc

digits_from-append :
    (n : ℕ) (s t : String) (m : ℕ)
    → digits_from n s ≡ some m
    → digits_from n (s ⧺ t) ≡ digits_from m t
unfolding digits_from
digits_from-append n String.[] t m h = simp append.nil (ground arith)
digits_from-append n (String.◌∷◌ c s) t m h =
    simp append.cons (elim (Bool-cases (is_digit (code c))) [
      | inl e ↦ rw e (digits_from-append (n * 10 + (code c - b'0')) s t m (rw e at h))
      | inr e ↦ absurd (none-some (rw e at h))
    ])

digits_from-digit : (n d : ℕ) → d < 10 → digits_from n (digit d) ≡ some (n * 10 + d)
unfolding digits_from digit is_digit
digits_from-digit n zero h = refl
digits_from-digit n (suc zero) h = refl
digits_from-digit n (suc (suc zero)) h = refl
digits_from-digit n (suc (suc (suc zero))) h = refl
digits_from-digit n (suc (suc (suc (suc zero)))) h = refl
digits_from-digit n (suc (suc (suc (suc (suc zero))))) h = refl
digits_from-digit n (suc (suc (suc (suc (suc (suc zero)))))) h = refl
digits_from-digit n (suc (suc (suc (suc (suc (suc (suc zero))))))) h = refl
digits_from-digit n (suc (suc (suc (suc (suc (suc (suc (suc zero)))))))) h = refl
digits_from-digit n (suc (suc (suc (suc (suc (suc (suc (suc (suc zero))))))))) h = refl
digits_from-digit n _ h = absurd (omega arith)

-- Printing and reading back, with no digit lost.
digits_from-decimal_fuel : (f n : ℕ) → n < f → digits_from 0 (decimal_fuel f n) ≡ some n
unfolding decimal_fuel
digits_from-decimal_fuel zero n h = elim h [ ]
digits_from-decimal_fuel (suc f) n h = elim (Bool-cases (ltb n 10)) [
  | inl small ↦
      rw (small, decimal_fuel) (digits_from-digit 0 n (ltb→lt n 10 small) ∙ ap some (omega arith))
  | inr large ↦
      rw (large, decimal_fuel)
        (digits_from-append 0 (decimal_fuel f (n / 10)) (digit (n % 10)) (n / 10)
            (digits_from-decimal_fuel f (n / 10) (ground arith))
          ∙ digits_from-digit (n / 10) (n % 10) (omega arith)
          ∙ ap some (omega arith))
]

is_empty-digit : (d : ℕ) → is_empty (digit d) ≡ false
unfolding digit
is_empty-digit zero = refl
is_empty-digit (suc zero) = refl
is_empty-digit (suc (suc zero)) = refl
is_empty-digit (suc (suc (suc zero))) = refl
is_empty-digit (suc (suc (suc (suc zero)))) = refl
is_empty-digit (suc (suc (suc (suc (suc zero))))) = refl
is_empty-digit (suc (suc (suc (suc (suc (suc zero)))))) = refl
is_empty-digit (suc (suc (suc (suc (suc (suc (suc zero))))))) = refl
is_empty-digit (suc (suc (suc (suc (suc (suc (suc (suc zero)))))))) = refl
is_empty-digit _ = refl

is_empty-decimal : (n : ℕ) → is_empty (decimal n) ≡ false
unfolding decimal_fuel decimal
is_empty-decimal n = elim (Bool-cases (ltb n 10)) [
  | inl small ↦ rw (small, decimal_fuel) (is_empty-digit n)
  | inr large ↦
      rw (large, decimal_fuel)
        (is_empty-append (decimal_fuel n (n / 10)) (digit (n % 10)) (is_empty-digit (n % 10)))
]

atoi_digits :
    (s : String) (n : ℕ)
    → is_empty s ≡ false
    → digits_from 0 s ≡ some n
    → n < 2 ^ 63
    → atoi s ≡ ok (pos n)
unfolding atoi unsigned digits_from is_digit
atoi_digits String.[] n e d h = cc
atoi_digits (String.◌∷◌ c s) n e d h = ground arith

-- A printed int is read back.
pub atoi-itoa : (n : ℕ) → n < 2 ^ 63 → atoi (itoa (pos n)) ≡ ok (pos n)
unfolding itoa
atoi-itoa n h =
    atoi_digits (decimal n) n (is_empty-decimal n)
      (unfold decimal in digits_from-decimal_fuel (suc n) n (omega arith)) h

Free-digits : (n : ℕ) (s : String) (m : ℕ) → digits_from n s ≡ some m → Free is_space s
unfolding digits_from is_digit is_space
Free-digits n String.[] m h = tt
Free-digits n (String.◌∷◌ c s) m h =
    (ground arith, Free-digits (n * 10 + (code c - b'0')) s m (ground arith))

-- A printed number is one word.
pub Free-itoa : (n : ℕ) → Free is_space (itoa (pos n))
unfolding itoa decimal
Free-itoa n =
    Free-digits 0 (decimal_fuel (suc n) n) n (digits_from-decimal_fuel (suc n) n (omega arith))

pub EndsWell-itoa : (n : ℕ) → EndsWell (itoa (pos n))
EndsWell-itoa n = EndsWell-word (itoa (pos n)) (unfold itoa in is_empty-decimal n) (Free-itoa n)

every_char-digits :
    (n : ℕ) (s : String) (m : ℕ) → digits_from n s ≡ some m → every_char is_digit s ≡ true
unfolding digits_from every_char
every_char-digits n String.[] m h = refl
every_char-digits n (String.◌∷◌ c s) m h = elim (Bool-cases (is_digit (code c))) [
  | inl e ↦ rw e (every_char-digits (n * 10 + (code c - b'0')) s m (rw e at h))
  | inr e ↦ absurd (none-some (rw e at h))
]

-- A printed number is made of digits, of one at least.
pub itoa_digits :
    (n : ℕ) → (every_char is_digit (itoa (pos n)) ≡ true) × (is_empty (itoa (pos n)) ≡ false)
unfolding itoa decimal
itoa_digits n = (
  every_char-digits 0 (decimal_fuel (suc n) n) n (digits_from-decimal_fuel (suc n) n (omega arith)),
  is_empty-decimal n,
)

positive_returns : (s : String) (o : Option ℕ) (t : String) → positive s o ≢ panic t
positive_returns s none t = λ h. cc h
positive_returns s (some n) t = λ h. ground arith

negative_returns : (s : String) (o : Option ℕ) (t : String) → negative s o ≢ panic t
negative_returns s none t = λ h. cc h
negative_returns s (some n) t = λ h. ground arith

-- The call never panics.
pub atoi_returns : (s t : String) → atoi s ≢ panic t
unfolding atoi
atoi_returns String.[] t = λ h. cc h
atoi_returns (String.◌∷◌ c s) t = ground (
  arith,
  negative_returns (String.◌∷◌ c s) (unsigned s) t,
  positive_returns (String.◌∷◌ c s) (unsigned s) t,
  positive_returns (String.◌∷◌ c s) (unsigned (String.◌∷◌ c s)) t,
)
