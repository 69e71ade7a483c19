-- ===== src/Worker/Chain/Rlp.antt =====
-- crates/rootmode-worker/src/chain.rs and apps/desktop/src-tauri/src/eth_tx.rs: legacy transactions
-- in RLP.
pub mod Decode
pub mod Exact
pub mod Lists
pub mod Transactions
mod Tests
use mathlib.Core.Option
use rootmode.Prelude.{
  ℕ, suc, false, ◌+◌, ◌*◌, Bool, ◌&&◌, Option, none, some, List, [], ◌∷◌, ◌++◌, length, drop,
  concat, leb, ltb, ◌==◌, if◌then◌else◌,
}
use rootmode.Prelude.Bytes.{Bytes, be_bytes}

pub record LegacyTx : Type 0 where
  pub nonce : ℕ
  pub gas_price : ℕ
  pub gas : ℕ
  pub to : Bytes
  pub value : ℕ
  pub data_bytes : Bytes
  pub chain_id : ℕ

-- `b.iter().position(|&b| b != 0)`
unfoldable pub position_nonzero : Bytes → Option ℕ
position_nonzero [] = none
position_nonzero (b ∷ bs) = if b == 0 then Option.map suc (position_nonzero bs) else some 0

abbrev pub or_else : ℕ → Option ℕ → ℕ
or_else d none = d
or_else d (some i) = i

unfoldable pub u64_be : ℕ → Bytes
unfolding position_nonzero
u64_be n = let be = be_bytes 8 n in drop (or_else 7 (position_nonzero be)) be

unfoldable pub strip_zeros : Bytes → Bytes
unfolding position_nonzero
strip_zeros b =
    let i = or_else (length b) (position_nonzero b) in if i == length b then [] else drop i b

unfoldable pub rlp_wrap : ℕ → ℕ → Bytes → Bytes
unfolding u64_be
rlp_wrap short long b =
    let n = length b in
    if leb n 55 then (short + n) ∷ b else let lb = u64_be n in (long + length lb) ∷ lb ++ b

-- `b.len() == 1 && b[0] < 0x80`
unfoldable pub is_own_code : Bytes → Bool
is_own_code [] = false
is_own_code (b ∷ []) = ltb b 0x80
is_own_code (b ∷ c ∷ bs) = false

unfoldable pub rlp_bytes : Bytes → Bytes
unfolding is_own_code rlp_wrap
rlp_bytes b = if is_own_code b then b else rlp_wrap 0x80 0xb7 b

unfoldable pub rlp_u64 : ℕ → Bytes
unfolding u64_be rlp_bytes
rlp_u64 n = if n == 0 then 0x80 ∷ [] else rlp_bytes (u64_be n)

unfoldable pub rlp_list : List Bytes → Bytes
unfolding rlp_wrap
rlp_list items = rlp_wrap 0xc0 0xf7 (concat items)

-- What stands last in a transaction: the chain before it is signed, the signature after.
abbrev pub last_items : LegacyTx → Option (ℕ × Bytes × Bytes) → List Bytes
last_items tx none = rlp_u64 tx.chain_id ∷ rlp_u64 0 ∷ rlp_u64 0 ∷ []
last_items tx (some (v, r, s)) =
    rlp_u64 v ∷ rlp_bytes (strip_zeros r) ∷ rlp_bytes (strip_zeros s) ∷ []

unfoldable pub legacy_rlp : LegacyTx → Option (ℕ × Bytes × Bytes) → Bytes
unfolding rlp_list
legacy_rlp tx sig = rlp_list (
    rlp_u64 tx.nonce
    ∷ rlp_u64 tx.gas_price
    ∷ rlp_u64 tx.gas
    ∷ rlp_bytes tx.to
    ∷ rlp_u64 tx.value
    ∷ rlp_bytes tx.data_bytes
    ∷ last_items tx sig)
