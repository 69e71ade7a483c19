-- ===== src/P2p/Framing/Bound.antt =====
-- recv of framing.rs against a peer that sends no line end.
use rootmode.Prelude.{
  ◌+◌, ◌≤◌, ◌<◌, ◌≡◌, refl, arith, Bool-cases, inl, inr, none, List, [], ◌∷◌, ◌++◌, length,
  length-append, total_length, All, ltb,
}
use rootmode.Prelude.Bytes.{Bytes}
use rootmode.Prelude.Result.{err}
use rootmode.P2p.Framing.{P2pError, max_line_bytes, newline_at, recv_loop, recv}
use rootmode.P2p.Framing.Exact.{IsOpen}

abbrev pub HasNoEnd : List Bytes → Type 0
HasNoEnd = All (λ c. newline_at c ≡ none)

recv_loop-too_long :
    (buf : Bytes) (parts : List Bytes)
    → HasNoEnd parts
    → IsOpen parts
    → length buf ≤ max_line_bytes
    → max_line_bytes < length buf + total_length parts
    → (recv_loop buf parts).0 ≡ err P2pError.too_long
unfolding recv_loop
recv_loop-too_long buf [] h apart fits over = absurd (omega arith)
recv_loop-too_long buf (c ∷ cs) h apart fits over =
    elim (Bool-cases (ltb max_line_bytes (length (buf ++ c)))) [
      | inl long ↦ rw (apart.0, h.0, long) refl
      | inr short ↦
          rw (apart.0, h.0, short)
            (recv_loop-too_long (buf ++ c) cs h.1 apart.1 (ground arith)
              (omega (arith, over, length-append buf c)))
    ]

-- When a peer sends parts without a line end whose bytes together are more than a line may
-- have, recv ends with the error that the line is too long.
pub recv-too_long :
    (parts : List Bytes)
    → HasNoEnd parts
    → IsOpen parts
    → max_line_bytes < total_length parts
    → (recv parts).0 ≡ err P2pError.too_long
unfolding recv
recv-too_long parts h apart over = recv_loop-too_long [] parts h apart (omega arith) (omega arith)
