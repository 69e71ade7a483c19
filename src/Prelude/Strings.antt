-- ===== src/Prelude/Strings.antt =====
-- More of Rust's `str`: trimming, searching, slicing by bytes, and numbers in base 16.
use Prim.Native.Nat.{ℕ, ◌+◌, ◌-◌, ◌*◌}
use mathlib.Core.Bool.{Bool, true, false, ◌&&◌, ◌||◌}
use mathlib.Core.Option
use mathlib.Core.Option.{Option, none, some}
use mathlib.Core.List.{[], ◌∷◌}
use rootmode.Prelude.Tests.{ltb, leb, ◌==◌, if◌then◌else◌}
use rootmode.Prelude.Lists.{length}
use rootmode.Prelude.Text.{Text, text_eq, utf8_char}

-- `char::is_whitespace`: the code points with the property White_Space.
unfoldable pub is_whitespace : ℕ → Bool
is_whitespace c =
    (leb 9 c && leb c 13)
    || c == 0x20
    || c == 0x85
    || c == 0xa0
    || c == 0x1680
    || (leb 0x2000 c && leb c 0x200a)
    || c == 0x2028
    || c == 0x2029
    || c == 0x202f
    || c == 0x205f
    || c == 0x3000

-- `trim_start_matches` and `trim_end_matches` by a test on the characters.
abbrev pub trim_start_by : (ℕ → Bool) → Text → Text
trim_start_by p [] = []
trim_start_by p (c ∷ t) = let rest = trim_start_by p t in if p c then rest else c ∷ t

abbrev pub trim_end_by : (ℕ → Bool) → Text → Text
trim_end_by p [] = []
trim_end_by p (c ∷ t) = elim (trim_end_by p t) [
  | [] ↦ (if p c then [] else c ∷ [])
  | d ∷ u ↦ c ∷ d ∷ u
]

unfoldable pub trim : Text → Text
unfolding is_whitespace
trim t = trim_end_by is_whitespace (trim_start_by is_whitespace t)

unfoldable pub starts_with : Text → Text → Bool
starts_with t [] = true
starts_with [] (c ∷ p) = false
starts_with (d ∷ t) (c ∷ p) = d == c && starts_with t p

unfoldable pub contains : Text → Text → Bool
unfolding starts_with
contains [] p = starts_with [] p
contains (c ∷ t) p = starts_with (c ∷ t) p || contains t p

-- `&s[n..]` and `&s[..n]`, which panic inside a character and behind the end.
unfoldable pub slice_from : ℕ → Text → Option Text
unfolding utf8_char
slice_from n [] = if n == 0 then some [] else none
slice_from n (c ∷ t) =
    let w = length (utf8_char c) in
    let rest = slice_from (n - w) t in
    if n == 0 then some (c ∷ t) else if leb w n then rest else none

unfoldable pub slice_to : ℕ → Text → Option Text
unfolding utf8_char
slice_to n [] = if n == 0 then some [] else none
slice_to n (c ∷ t) =
    let w = length (utf8_char c) in
    let rest = slice_to (n - w) t in
    if n == 0 then some [] else if leb w n then Option.map (λ u. c ∷ u) rest else none

-- `char::to_digit(16)`
unfoldable pub hex_digit : ℕ → Option ℕ
hex_digit c =
    if leb 48 c && leb c 57
    then some (c - 48)
    else if leb 97 c && leb c 102
    then some (c - 87)
    else if leb 65 c && leb c 70
    then some (c - 55)
    else none

-- The digits of a number below the bound, after those that made `acc`.
unfoldable pub hex_digits : ℕ → ℕ → Text → Option ℕ
unfolding hex_digit
hex_digits bound acc [] = some acc
hex_digits bound acc (c ∷ t) = elim (hex_digit c) [
  | none ↦ none
  | some d ↦
      let next = acc * 16 + d in
      let rest = hex_digits bound next t in if ltb next bound then rest else none
]

-- `from_str_radix(s, 16)` of an unsigned integer with values below the bound: one `+` may stand in
-- front, and there is at least one digit.
unfoldable pub from_hex : ℕ → Text → Option ℕ
unfolding hex_digits
from_hex bound [] = none
from_hex bound (c ∷ []) = hex_digits bound 0 (c ∷ [])
from_hex bound (c ∷ d ∷ t) =
    if c == 43 then hex_digits bound 0 (d ∷ t) else hex_digits bound 0 (c ∷ d ∷ t)

unfoldable pub ends_with : Text → Text → Bool
unfolding text_eq
ends_with [] p = text_eq [] p
ends_with (c ∷ t) p = text_eq (c ∷ t) p || ends_with t p

-- `parse::<u8>()`: one `+` may stand in front, and there is at least one digit.
unfoldable pub dec_digits : ℕ → ℕ → Text → Option ℕ
dec_digits bound acc [] = some acc
dec_digits bound acc (c ∷ t) =
    let next = acc * 10 + (c - 48) in
    let rest = dec_digits bound next t in
    if leb 48 c && leb c 57 then (if ltb next bound then rest else none) else none

unfoldable pub from_dec : ℕ → Text → Option ℕ
unfolding dec_digits
from_dec bound [] = none
from_dec bound (c ∷ []) = dec_digits bound 0 (c ∷ [])
from_dec bound (c ∷ d ∷ t) =
    if c == 43 then dec_digits bound 0 (d ∷ t) else dec_digits bound 0 (c ∷ d ∷ t)

-- `split_once(c)`
unfoldable pub split_once : ℕ → Text → Option (Text × Text)
split_once c [] = none
split_once c (d ∷ t) =
    if d == c then some ([], t) else Option.map (λ p. (d ∷ p.0, p.1)) (split_once c t)
