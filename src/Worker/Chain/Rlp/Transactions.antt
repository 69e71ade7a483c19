-- ===== src/Worker/Chain/Rlp/Transactions.antt =====
-- Whole transactions of chain.rs against the decoder.
use rootmode.Prelude.{
  ℕ, ◌^◌, ◌≤◌, ◌<◌, ◌≡◌, sym, ap, ◌∙◌, arith, Option, none, some, List, [], ◌∷◌, length, map,
  length-drop, length-concat,
}
use rootmode.Prelude.Bytes.{Bytes, be_value}
use rootmode.Worker.Chain.Rlp.{
  LegacyTx, or_else, position_nonzero, strip_zeros, rlp_bytes, rlp_u64, legacy_rlp,
}
use rootmode.Worker.Chain.Rlp.Decode.{list_of_strings}
use rootmode.Worker.Chain.Rlp.Exact.{
  number_code, be_value-number_code, string-rlp_u64, string-rlp_bytes,
}
use rootmode.Worker.Chain.Rlp.Lists.{
  IsCode, length-rlp_bytes, length-rlp_u64, list_of_strings-rlp_list,
}

-- A string below 2^64 bytes with its code, and a number with its code.
abbrev of_bytes : Bytes → Bytes × Bytes
of_bytes b = (rlp_bytes b, b)

abbrev of_u64 : ℕ → Bytes × Bytes
of_u64 n = (rlp_u64 n, number_code n)

abbrev last_codes : LegacyTx → Option (ℕ × Bytes × Bytes) → List (Bytes × Bytes)
last_codes tx none = of_u64 tx.chain_id ∷ of_u64 0 ∷ of_u64 0 ∷ []
last_codes tx (some (v, r, s)) = of_u64 v ∷ of_bytes (strip_zeros r) ∷ of_bytes (strip_zeros s) ∷ []

abbrev codes : LegacyTx → Option (ℕ × Bytes × Bytes) → List (Bytes × Bytes)
codes tx sig =
    of_u64 tx.nonce
    ∷ of_u64 tx.gas_price
    ∷ of_u64 tx.gas
    ∷ of_bytes tx.to
    ∷ of_u64 tx.value
    ∷ of_bytes tx.data_bytes
    ∷ last_codes tx sig

-- The strings that a reader should find in a transaction.
abbrev pub fields : LegacyTx → Option (ℕ × Bytes × Bytes) → List Bytes
fields tx none =
    number_code tx.nonce
    ∷ number_code tx.gas_price
    ∷ number_code tx.gas
    ∷ tx.to
    ∷ number_code tx.value
    ∷ tx.data_bytes
    ∷ number_code tx.chain_id
    ∷ []
    ∷ []
    ∷ []
fields tx (some (v, r, s)) =
    number_code tx.nonce
    ∷ number_code tx.gas_price
    ∷ number_code tx.gas
    ∷ tx.to
    ∷ number_code tx.value
    ∷ tx.data_bytes
    ∷ number_code v
    ∷ strip_zeros r
    ∷ strip_zeros s
    ∷ []

-- The numbers are `u64` values, the address has 20 bytes, and the call data leaves room.
pub record IsTx (tx : LegacyTx) : Type 0 where
  pub nonce : tx.nonce < 2 ^ 64
  pub gas_price : tx.gas_price < 2 ^ 64
  pub gas : tx.gas < 2 ^ 64
  pub to : length tx.to ≡ 20
  pub value : tx.value < 2 ^ 64
  pub data_bytes : length tx.data_bytes < 2 ^ 63
  pub chain_id : tx.chain_id < 2 ^ 64

-- A signature's numbers, where there are any, have 32 bytes.
abbrev pub IsSig : Option (ℕ × Bytes × Bytes) → Type 0
IsSig none = Unit
IsSig (some (v, r, s)) = (length r ≡ 32) × (length s ≡ 32)

is_bytes : (b : Bytes) → length b < 2 ^ 64 → IsCode (of_bytes b)
is_bytes b h rest = string-rlp_bytes b rest h

is_u64 : (n : ℕ) → IsCode (of_u64 n)
is_u64 n rest = string-rlp_u64 n rest

length-strip_zeros : (b : Bytes) → length (strip_zeros b) ≤ length b
unfolding strip_zeros
length-strip_zeros b = ground (arith, length-drop (or_else (length b) (position_nonzero b)) b)

-- A decoder of RLP written apart from the encoder reads back, from an encoded transaction, the
-- minimal big-endian forms of its numbers, its address and its call data, and behind them the
-- chain id and two empty strings where it is unsigned, or v, r and s without leading zeros
-- where it is signed. The numbers of the transaction are u64 values, its address has 20 bytes,
-- its call data fewer than 2^63, and r and s have 32.
pub legacy_rlp-decodes :
    (tx : LegacyTx) (sig : Option (ℕ × Bytes × Bytes))
    → IsTx tx
    → IsSig sig
    → list_of_strings (legacy_rlp tx sig) ≡ some (fields tx sig)
unfolding legacy_rlp
legacy_rlp-decodes tx none h g =
    list_of_strings-rlp_list (codes tx none)
      (
        is_u64 tx.nonce,
        (
          is_u64 tx.gas_price,
          (
            is_u64 tx.gas,
            (
              is_bytes tx.to (omega (arith, h.to)),
              (
                is_u64 tx.value,
                (
                  is_bytes tx.data_bytes (omega (arith, h.data_bytes)),
                  (is_u64 tx.chain_id, (is_u64 0, (is_u64 0, tt))),
                ),
              ),
            ),
          ),
        ),
      )
      (omega (
        arith,
        length-concat (map (λ e. e.0) (codes tx none)),
        length-rlp_u64 tx.nonce,
        length-rlp_u64 tx.gas_price,
        length-rlp_u64 tx.gas,
        length-rlp_bytes tx.to,
        length-rlp_u64 tx.value,
        length-rlp_bytes tx.data_bytes,
        length-rlp_u64 tx.chain_id,
        length-rlp_u64 0,
        h.to,
        h.data_bytes,
      ))
legacy_rlp-decodes tx (some (v, r, s)) h g =
    list_of_strings-rlp_list (codes tx (some (v, r, s)))
      (
        is_u64 tx.nonce,
        (
          is_u64 tx.gas_price,
          (
            is_u64 tx.gas,
            (
              is_bytes tx.to (omega (arith, h.to)),
              (
                is_u64 tx.value,
                (
                  is_bytes tx.data_bytes (omega (arith, h.data_bytes)),
                  (
                    is_u64 v,
                    (
                      is_bytes (strip_zeros r) (omega (arith, g.0, length-strip_zeros r)),
                      (is_bytes (strip_zeros s) (omega (arith, g.1, length-strip_zeros s)), tt),
                    ),
                  ),
                ),
              ),
            ),
          ),
        ),
      )
      (omega (
        arith,
        length-concat (map (λ e. e.0) (codes tx (some (v, r, s)))),
        length-rlp_u64 tx.nonce,
        length-rlp_u64 tx.gas_price,
        length-rlp_u64 tx.gas,
        length-rlp_bytes tx.to,
        length-rlp_u64 tx.value,
        length-rlp_bytes tx.data_bytes,
        length-rlp_u64 v,
        length-rlp_bytes (strip_zeros r),
        length-rlp_bytes (strip_zeros s),
        length-strip_zeros r,
        length-strip_zeros s,
        h.to,
        h.data_bytes,
        g.0,
        g.1,
      ))

number_code-injective : (m n : ℕ) → m < 2 ^ 64 → n < 2 ^ 64 → number_code m ≡ number_code n → m ≡ n
number_code-injective m n hm hn e =
    sym (be_value-number_code m hm) ∙ ap (be_value 0) e ∙ be_value-number_code n hn

-- Two unsigned transactions with one encoding are the same transaction, so what is hashed to be
-- signed fixes every field. The numbers are u64 values, the addresses have 20 bytes and the
-- call data fewer than 2^63.
pub legacy_rlp-injective :
    (t u : LegacyTx) → IsTx t → IsTx u → legacy_rlp t none ≡ legacy_rlp u none → t ≡ u
legacy_rlp-injective t u ht hu e =
    let same : fields t none ≡ fields u none =
      cc (legacy_rlp-decodes t none ht tt, legacy_rlp-decodes u none hu tt, ap list_of_strings e) in
    let n = number_code-injective t.nonce u.nonce ht.nonce hu.nonce cc in
    let p = number_code-injective t.gas_price u.gas_price ht.gas_price hu.gas_price cc in
    let g = number_code-injective t.gas u.gas ht.gas hu.gas cc in
    let v = number_code-injective t.value u.value ht.value hu.value cc in
    let c = number_code-injective t.chain_id u.chain_id ht.chain_id hu.chain_id cc in
    let a : t.to ≡ u.to = cc in
    let d : t.data_bytes ≡ u.data_bytes = cc in
    λ i. record {
      nonce = n i;
      gas_price = p i;
      gas = g i;
      to = a i;
      value = v i;
      data_bytes = d i;
      chain_id = c i;
    }
