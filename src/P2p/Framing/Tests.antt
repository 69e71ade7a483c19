-- ===== src/P2p/Framing/Tests.antt =====
-- Runs and examples of framing.rs.
use rootmode.Prelude.{
  ℕ, zero, suc, replicate, length, length-replicate, ◌<◌, is_empty, ◌==◌, false, ◌≡◌, refl, none,
  some, List, [], ◌∷◌, arith,
}
use rootmode.Prelude.Bytes.{Bytes}
use rootmode.Prelude.Text.{Text, text, utf8, utf8_char}
use rootmode.Prelude.Result.{ok, err}
use rootmode.P2p.Framing.{P2pError, recv, send, newline_at}
use rootmode.P2p.Framing.Bound.{recv-too_long}
use rootmode.P2p.Framing.Exact.{IsMessage, sent_all, received, received-sent_all}

abbrev messages : List Text
messages = text "ab" ∷ text "c" ∷ []

-- The stream cuts the first line in two, and shows its end with the second.
abbrev parts : List Bytes
parts = (97 ∷ []) ∷ (98 ∷ 10 ∷ 99 ∷ []) ∷ (10 ∷ []) ∷ []

sent : sent_all [] messages ≡ ok (97 ∷ 98 ∷ 10 ∷ 99 ∷ 10 ∷ [])
unfolding sent_all send utf8 utf8_char
sent = refl

first-IsMessage : IsMessage (text "ab")
unfolding utf8 utf8_char
first-IsMessage = record {
  scalars = (refl, (refl, tt));
  line = (omega arith, (omega arith, tt));
  fits = omega arith;
}

second-IsMessage : IsMessage (text "c")
unfolding utf8 utf8_char
second-IsMessage = record { scalars = (refl, tt); line = (omega arith, tt); fits = omega arith }

received-sent_all_example :
    received 3 parts ≡ ok (some (text "ab")) ∷ ok (some (text "c")) ∷ ok none ∷ []
received-sent_all_example =
    received-sent_all messages parts (97 ∷ 98 ∷ 10 ∷ 99 ∷ 10 ∷ [])
      (first-IsMessage, (second-IsMessage, tt)) sent (refl, (refl, (refl, tt))) refl

-- A part of so many equal bytes.
part : ℕ → ℕ → Bytes
part n b = replicate n b

part_end : (n b : ℕ) → (b == 10) ≡ false → newline_at (part n b) ≡ none
unfolding part
part_end zero b h = refl
part_end (suc n) b h = rw (h, part_end n b h) refl

part_full : (n b : ℕ) → 0 < n → is_empty (part n b) ≡ false
unfolding part
part_full zero b h = absurd (omega arith)
part_full (suc n) b h = refl

length-part : (n b : ℕ) → length (part n b) ≡ n
unfolding part
length-part n b = length-replicate n b

-- Two parts of 33 MB each.
abbrev flood : List Bytes
flood = part 34603008 97 ∷ part 34603008 98 ∷ []

recv-too_long_example : (recv flood).0 ≡ err P2pError.too_long
recv-too_long_example =
    recv-too_long flood (part_end 34603008 97 refl, (part_end 34603008 98 refl, tt))
      (part_full 34603008 97 (omega arith), (part_full 34603008 98 (omega arith), tt))
      (omega (arith, length-part 34603008 97, length-part 34603008 98))
