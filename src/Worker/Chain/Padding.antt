-- ===== src/Worker/Chain/Padding.antt =====
-- The padding of call data in chain.rs.
use rootmode.Prelude.{
  ℕ, zero, suc, ◌-◌, ◌%◌, ◌≤◌, ◌<◌, ◌≡◌, ◌≢◌, sym, ◌∙◌, arith, Bool-cases, inl, inr, [], ◌∷◌, ◌++◌,
  length, length-append, append_assoc, append_nil, replicate, ◌==◌,
}
use rootmode.Prelude.Bytes.{Bytes}
use rootmode.Worker.Chain.Words.{pad}

-- The bytes, then fewer than 32 zeros, up to a whole number of words.
pub record IsPadded (b out : Bytes) : Type 0 where
  pub zeros : ℕ
  pub few : zeros < 32
  pub shape : out ≡ b ++ replicate zeros 0
  pub whole : length out % 32 ≡ 0

-- With as much fuel as bytes are missing, the loop ends at the first whole word.
pad_fill :
    (fuel : ℕ) (b : Bytes)
    → (32 - length b % 32) % 32 ≤ fuel
    → (n : ℕ) × (n ≡ (32 - length b % 32) % 32)
      × (pad fuel b ≡ b ++ replicate n 0)
      × (length (pad fuel b) % 32 ≡ 0)
unfolding pad
pad_fill zero b h = (0, omega arith, sym (append_nil b), omega arith)
pad_fill (suc fuel) b h = elim (Bool-cases (length b % 32 == 0)) [
  | inl whole ↦ rw whole (0, ground arith, sym (append_nil b), ground arith)
  | inr open_word ↦
      let l = length-append b (0 ∷ []) in
      let more : length b % 32 ≢ 0 = ground arith in
      let (n, count, shape, done) = pad_fill fuel (b ++ 0 ∷ []) (omega (arith, l, more)) in
      rw open_word (
        suc n,
        omega (arith, l, more, count),
        shape ∙ append_assoc b (0 ∷ []) (replicate n 0),
        done,
      )
]

-- The padding loop, with the 31 rounds that the model gives it, turns any bytes into the same
-- bytes with fewer than 32 zeros behind them, a whole number of 32-byte words.
pub pad-IsPadded : (b : Bytes) → IsPadded b (pad 31 b)
pad-IsPadded b =
    let (n, count, shape, whole) = pad_fill 31 b (omega arith) in
    record { zeros = n; few = omega (arith, count); shape = shape; whole = whole }
