-- ===== src/P2p/Framing.antt =====
-- crates/rootmode-p2p/src/framing.rs: lines of JSON over a stream.
-- The reader is the list of what `fill_buf` will still show, each part as one read delivered it. An
-- empty part, or no part, is the end of the stream.
pub mod Lines
pub mod Exact
pub mod Bound
mod Tests
use mathlib.Core.Option
use rootmode.Prelude.{
  ℕ, suc, Bool, ◌*◌, Option, none, some, List, [], ◌∷◌, ◌++◌, length, take, drop, is_empty, ltb,
  ◌==◌, if◌then◌else◌,
}
use rootmode.Prelude.Bytes.{Bytes}
use rootmode.Prelude.Text.{Text, utf8}
use rootmode.Prelude.Utf8.{from_utf8}
use rootmode.Prelude.Result.{Result, ok, err, ok_or}

pub data P2pError : Type 0 where
  not_utf8 too_long serialise write_failed : P2pError

-- MAX_MESSAGE_BYTES of crates/rootmode-core/src/protocol.rs.
abbrev pub max_line_bytes : ℕ
max_line_bytes = 64 * 1024 * 1024

-- `position(|b| *b == b'\n')`
abbrev pub newline_at : Bytes → Option ℕ
newline_at [] = none
newline_at (b ∷ bs) = if b == 10 then some 0 else Option.map suc (newline_at bs)

-- `consume(n)` of the part that `fill_buf` shows.
unfoldable pub consume : ℕ → List Bytes → List Bytes
consume n [] = []
consume n (c ∷ cs) = let left = drop n c in if is_empty left then cs else left ∷ cs

unfoldable pub finish : Bytes → Result P2pError Text
unfolding from_utf8
finish buf = ok_or (from_utf8 buf) P2pError.not_utf8

abbrev pub map_some : Result P2pError Text → Result P2pError (Option Text)
map_some (ok t) = ok (some t)
map_some (err e) = err e

-- The end of the stream, with what was read since the last line.
unfoldable pub at_end : Bytes → Result P2pError (Option Text)
unfolding finish
at_end buf = if is_empty buf then ok none else map_some (finish buf)

-- The loop of `recv`: a round takes one part.
unfoldable pub recv_loop : Bytes → List Bytes → Result P2pError (Option Text) × List Bytes
unfolding at_end finish consume
recv_loop buf [] = (at_end buf, [])
recv_loop buf (c ∷ cs) =
    let next = recv_loop (buf ++ c) cs in
    if is_empty c then (at_end buf, c ∷ cs) else elim (newline_at c) [
      | some i ↦ (map_some (finish (buf ++ take i c)), consume (suc i) (c ∷ cs))
      | none ↦ if ltb max_line_bytes (length (buf ++ c)) then (err P2pError.too_long, cs) else next
    ]

unfoldable pub recv : List Bytes → Result P2pError (Option Text) × List Bytes
unfolding recv_loop
recv parts = recv_loop [] parts

-- What the other side has been sent after `send` of a message, whose `wire_json` is given where that
-- succeeds; `sent` is whether the stream took the bytes.
unfoldable pub send : Bytes → Option Text → Bool → Result P2pError Bytes
send before none sent = err P2pError.serialise
send before (some json) sent =
    if sent then ok (before ++ utf8 json ++ 10 ∷ []) else err P2pError.write_failed
