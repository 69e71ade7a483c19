-- ===== src/Prelude/Utf8.antt =====
-- `String::from_utf8`: the decoder, against `str::as_bytes`.
use Prim.Native.Nat.{ℕ, zero, suc, ◌+◌, ◌-◌, ◌*◌, ◌<◌, ◌≤◌}
use mathlib.Core.Path.{◌≡◌, refl, ap, ◌∙◌}
use mathlib.Core.Logic.{inl, inr}
use mathlib.Core.Bool.{Bool, true, ◌&&◌, ◌||◌}
use mathlib.Core.Option
use mathlib.Core.Option.{Option, none, some}
use mathlib.Core.List.{[], ◌∷◌, ◌++◌}
use native.Mathlib.Omega.{arith}
use rootmode.Prelude.Tests.{ltb, leb, Bool-cases, if◌then◌else◌}
use rootmode.Prelude.Lists.{length, length-append, All}
use rootmode.Prelude.Bytes.{Bytes}
use rootmode.Prelude.Text.{Text, utf8, utf8_char}

-- A Unicode scalar value, which is what a `char` holds.
abbrev pub is_scalar : ℕ → Bool
is_scalar c = ltb c 0xd800 || (leb 0xe000 c && ltb c 0x110000)

abbrev pub IsText : Text → Type 0
IsText = All (λ c. is_scalar c ≡ true)

abbrev is_tail : ℕ → Bool
is_tail b = leb 0x80 b && ltb b 0xc0

-- Sequences of two, three and four bytes, each the shortest for a scalar value.
abbrev two : ℕ → Bytes → Option (ℕ × Bytes)
two a [] = none
two a (b ∷ t) =
    let c = (a - 0xc0) * 64 + (b - 0x80) in
    if leb 0xc0 a && is_tail b && leb 0x80 c then some (c, t) else none

abbrev three : ℕ → Bytes → Option (ℕ × Bytes)
three a [] = none
three a (b ∷ []) = none
three a (b ∷ b' ∷ t) =
    let c = (a - 0xe0) * 4096 + (b - 0x80) * 64 + (b' - 0x80) in
    if is_tail b && is_tail b' && leb 0x800 c && is_scalar c then some (c, t) else none

abbrev four : ℕ → Bytes → Option (ℕ × Bytes)
four a [] = none
four a (b ∷ []) = none
four a (b ∷ b' ∷ []) = none
four a (b ∷ b' ∷ b'' ∷ t) =
    let c = (a - 0xf0) * 262144 + (b - 0x80) * 4096 + (b' - 0x80) * 64 + (b'' - 0x80) in
    if is_tail b && is_tail b' && is_tail b'' && leb 0x10000 c && is_scalar c
    then some (c, t)
    else none

unfoldable pub first_char : Bytes → Option (ℕ × Bytes)
first_char [] = none
first_char (a ∷ t) =
    if ltb a 0x80
    then some (a, t)
    else if ltb a 0xe0
    then two a t
    else if ltb a 0xf0
    then three a t
    else four a t

-- A sequence has at least one byte, so as much fuel as there are bytes is enough.
abbrev pub decode : ℕ → Bytes → Option Text
decode fuel [] = some []
decode zero (b ∷ bs) = none
decode (suc fuel) (b ∷ bs) = elim (first_char (b ∷ bs)) [
  | none ↦ none
  | some p ↦ Option.map (λ t. p.0 ∷ t) (decode fuel p.1)
]

abbrev decode_rest : ℕ → Option (ℕ × Bytes) → Option Text
decode_rest fuel none = none
decode_rest fuel (some p) = Option.map (λ t. p.0 ∷ t) (decode fuel p.1)

unfoldable pub from_utf8 : Bytes → Option Text
unfolding first_char
from_utf8 b = decode (length b) b

first_char-utf8_char :
    (c : ℕ) (rest : Bytes) → is_scalar c ≡ true → first_char (utf8_char c ++ rest) ≡ some (c, rest)
unfolding first_char utf8_char
first_char-utf8_char c rest h = elim (Bool-cases (ltb c 0x80)) [
  | inl one ↦ rw one (ground arith)
  | inr more ↦ elim (Bool-cases (ltb c 0x800)) [
    | inl double ↦ rw (more, double) (ground arith)
    | inr longer ↦ elim (Bool-cases (ltb c 0x10000)) [
      | inl triple ↦ rw (more, longer, triple) (ground arith)
      | inr longest ↦ rw (more, longer, longest) (ground arith)
    ]
  ]
]

length-utf8_char : (c : ℕ) → 0 < length (utf8_char c)
unfolding utf8_char
length-utf8_char c = ground arith

-- The bytes of a character in front are read, then the rest.
decode_first :
    (bytes rest : Bytes) (c : ℕ) (u : Text) (fuel : ℕ)
    → first_char (bytes ++ rest) ≡ some (c, rest)
    → 0 < length bytes
    → length (bytes ++ rest) ≤ fuel
    → ((n : ℕ) → length rest ≤ n → decode n rest ≡ some u)
    → decode fuel (bytes ++ rest) ≡ some (c ∷ u)
decode_first [] rest c u fuel reads some_byte fits next = absurd (omega arith)
decode_first (b ∷ bs) rest c u zero reads some_byte fits next = absurd (omega arith)
decode_first (b ∷ bs) rest c u (suc n) reads some_byte fits next =
    let more = next n (omega (arith, fits, length-append bs rest)) in
    ap (decode_rest n) reads ∙ ap (Option.map (λ t. c ∷ t)) more

decode-utf8 :
    (u : Text) (fuel : ℕ) → IsText u → length (utf8 u) ≤ fuel → decode fuel (utf8 u) ≡ some u
unfolding utf8
decode-utf8 [] fuel h fits = refl
decode-utf8 (c ∷ u) fuel h fits =
    decode_first (utf8_char c) (utf8 u) c u fuel (first_char-utf8_char c (utf8 u) h.0)
      (length-utf8_char c) fits (λ n enough. decode-utf8 u n h.1 enough)

-- Every text is read back from its bytes.
pub from_utf8-utf8 : (t : Text) → IsText t → from_utf8 (utf8 t) ≡ some t
unfolding from_utf8
from_utf8-utf8 t h = decode-utf8 t (length (utf8 t)) h (omega arith)
