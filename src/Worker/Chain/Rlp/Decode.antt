-- ===== src/Worker/Chain/Rlp/Decode.antt =====
-- RLP as its specification reads it: a decoder of strings, independent of the encoder of chain.rs.
use mathlib.Core.Option
use rootmode.Prelude.{
  ℕ, zero, suc, ◌+◌, ◌-◌, Option, none, some, List, [], ◌∷◌, length, take, drop, leb, ltb, is_empty,
  if◌then◌else◌,
}
use rootmode.Prelude.Bytes.{Bytes, be_value}

-- The first `n` bytes and the rest.
abbrev pub split : ℕ → Bytes → Option (Bytes × Bytes)
split n b = if leb n (length b) then some (take n b, drop n b) else none

-- A payload behind its header: short ones up to 55 bytes, long ones with the length in front.
unfoldable pub payload : ℕ → ℕ → ℕ → Bytes → Option (Bytes × Bytes)
payload short long head rest =
    if leb head (short + 55)
    then split (head - short) rest
    else Option.bind (split (head - long) rest) (λ p. split (be_value 0 p.0) p.1)

-- One string, and the bytes behind it.
unfoldable pub string : Bytes → Option (Bytes × Bytes)
unfolding payload
string [] = none
string (h ∷ t) =
    if ltb h 0x80 then some (h ∷ [], t) else if ltb h 0xc0 then payload 0x80 0xb7 h t else none

-- At most as many strings as the fuel, until the bytes are used up.
unfoldable pub strings : ℕ → Bytes → Option (List Bytes)
unfolding string
strings fuel [] = some []
strings zero (b ∷ bs) = none
strings (suc fuel) (b ∷ bs) =
    Option.bind (string (b ∷ bs)) (λ p. Option.map (λ l. p.0 ∷ l) (strings fuel p.1))

-- A list of strings that takes up all of the bytes. Each string has at least one byte, so as much
-- fuel as there are bytes is enough.
unfoldable pub list_of_strings : Bytes → Option (List Bytes)
unfolding payload strings
list_of_strings [] = none
list_of_strings (h ∷ t) =
    if ltb h 0xc0
    then none
    else Option.bind (payload 0xc0 0xf7 h t)
        (λ p. if is_empty p.1 then strings (length p.0) p.0 else none)
