-- ===== src/Worker/Chain/Reads.antt =====
-- read_u64 of chain.rs against the words that a contract returns.
use rootmode.Prelude.{
  ℕ, zero, suc, ◌+◌, ◌*◌, ◌/◌, ◌%◌, ◌^◌, ◌<◌, ◌≡◌, refl, arith, true, false, Bool-cases, inl, inr,
  Option, none, some, [], ◌∷◌, ◌++◌, ◌≢◌, ◌∙◌, ap, All, ltb, ◌==◌, if◌then◌else◌,
}
use native.Mathlib.Nat.{pow-suc}
use rootmode.Prelude.Text.{Text}
use rootmode.Prelude.Strings.{trim_start_by, hex_digit, hex_digits, from_hex}
use rootmode.Worker.Chain.Words.{read_u64}

-- A number as so many digits in base 16, the first the highest.
abbrev hex_char : ℕ → ℕ
hex_char d = if ltb d 10 then 48 + d else 87 + d

unfoldable pub hex_text : ℕ → ℕ → Text
hex_text zero n = []
hex_text (suc k) n = hex_text k (n / 16) ++ hex_char (n % 16) ∷ []

hex_digit-hex_char : (d : ℕ) → d < 16 → hex_digit (hex_char d) ≡ some d
unfolding hex_digit
hex_digit-hex_char d h = ground arith

-- The value of a parse, 0 where it failed.
abbrev value_or_zero : Option ℕ → ℕ
value_or_zero none = 0
value_or_zero (some n) = n

-- The step of one digit behind a parse, and the parse of a text behind one digit.
abbrev last_step : ℕ → ℕ → Option ℕ → Option ℕ
last_step bound d none = none
last_step bound d (some m) = if ltb (m * 16 + d) bound then some (m * 16 + d) else none

abbrev first_step : ℕ → ℕ → Text → Option ℕ → Option ℕ
first_step bound acc t none = none
first_step bound acc t (some d) =
    if ltb (acc * 16 + d) bound then hex_digits bound (acc * 16 + d) t else none

-- A last digit is read after the others.
hex_digits_last :
    (bound acc : ℕ) (t : Text) (d : ℕ)
    → d < 16
    → hex_digits bound acc (t ++ hex_char d ∷ []) ≡ last_step bound d (hex_digits bound acc t)
unfolding hex_digits
hex_digits_last bound acc [] d h = rw (hex_digit-hex_char d h, hex_digits) refl
hex_digits_last bound acc (c ∷ t) d h = go (λ m. hex_digits_last bound m t d h) (hex_digit c)
  where
    go :
        ((m : ℕ)
          → hex_digits bound m (t ++ hex_char d ∷ []) ≡ last_step bound d (hex_digits bound m t))
        → (o : Option ℕ)
        → first_step bound acc (t ++ hex_char d ∷ []) o
          ≡ last_step bound d (first_step bound acc t o)
    go next none = refl
    go next (some e) = elim (Bool-cases (ltb (acc * 16 + e) bound)) [
      | inl fits ↦ rw fits (next (acc * 16 + e))
      | inr over ↦ rw over refl
    ]

-- Digits are read as their number if that is below the bound, and refused otherwise.
hex_digits-hex_text :
    (k n bound : ℕ)
    → n < 16 ^ k
    → 0 < bound
    → hex_digits bound 0 (hex_text k n) ≡ (if ltb n bound then some n else none)
unfolding hex_digits hex_text
hex_digits-hex_text zero n bound h low = ground arith
hex_digits-hex_text (suc k) n bound h low =
    let rest = hex_digits-hex_text k (n / 16) bound (omega (arith, pow-suc 16 k)) low in
    hex_digits_last bound 0 (hex_text k (n / 16)) (n % 16) (omega arith) ∙ rw rest (ground arith)

-- Zeros in front can go.
hex_digits-trim :
    (bound : ℕ) (t : Text)
    → 0 < bound
    → hex_digits bound 0 (trim_start_by (λ c. c == 48) t) ≡ hex_digits bound 0 t
unfolding hex_digits hex_digit
hex_digits-trim bound [] low = refl
hex_digits-trim bound (c ∷ t) low = elim (Bool-cases (c == 48)) [
  | inl is_zero ↦
      let zero_char : c ≡ 48 = ground arith in
      let fits : ltb 0 bound ≡ true = ground arith in
      rw (is_zero, hex_digits-trim bound t low, zero_char, fits) refl
  | inr other ↦ rw other refl
]

no_plus-trim : (t : Text) → All (λ c. c ≢ 43) t → All (λ c. c ≢ 43) (trim_start_by (λ c. c == 48) t)
no_plus-trim [] h = tt
no_plus-trim (c ∷ t) h = elim (Bool-cases (c == 48)) [
  | inl is_zero ↦ rw is_zero (no_plus-trim t h.1)
  | inr other ↦ rw other h
]

no_plus-hex_text : (k n : ℕ) → All (λ c. c ≢ 43) (hex_text k n)
unfolding hex_text
no_plus-hex_text zero n = tt
no_plus-hex_text (suc k) n = go (hex_text k (n / 16)) (no_plus-hex_text k (n / 16))
  where
    go : (t : Text) → All (λ c. c ≢ 43) t → All (λ c. c ≢ 43) (t ++ hex_char (n % 16) ∷ [])
    go [] h = (ground arith, tt)
    go (c ∷ t) h = (h.0, go t h.1)

from_hex-hex_digits :
    (bound : ℕ) (t : Text)
    → All (λ c. c ≢ 43) t
    → value_or_zero (from_hex bound t) ≡ value_or_zero (hex_digits bound 0 t)
unfolding from_hex hex_digits
from_hex-hex_digits bound [] h = refl
from_hex-hex_digits bound (c ∷ []) h = refl
from_hex-hex_digits bound (c ∷ d ∷ t) h =
    let plain : (c == 43) ≡ false = ground (arith, h.0) in rw plain refl

-- On the 64 digits of a 256-bit word, read_u64 returns the word's number when it is a u64, and
-- 0 when it is larger.
pub read_u64-hex_text :
    (n : ℕ) → n < 2 ^ 256 → read_u64 (hex_text 64 n) ≡ (if ltb n (2 ^ 64) then n else 0)
unfolding read_u64
read_u64-hex_text n h =
    let t = hex_text 64 n in
    let trimmed = trim_start_by (λ c. c == 48) t in
    from_hex-hex_digits (2 ^ 64) trimmed (no_plus-trim t (no_plus-hex_text 64 n))
    ∙ ap value_or_zero (
        hex_digits-trim (2 ^ 64) t (omega arith)
        ∙ hex_digits-hex_text 64 n (2 ^ 64) (omega arith) (omega arith))
    ∙ ground arith
