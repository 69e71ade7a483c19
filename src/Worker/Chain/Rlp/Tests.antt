-- ===== src/Worker/Chain/Rlp/Tests.antt =====
-- Runs and examples of RLP.
use rootmode.Prelude.{ℕ, ◌≡◌, refl, Option, some, [], ◌∷◌, replicate, arith}
use rootmode.Prelude.Bytes.{Bytes, be_bytes}
use rootmode.Worker.Chain.Rlp.{
  LegacyTx, rlp_u64, rlp_wrap, rlp_bytes, is_own_code, u64_be, legacy_rlp, position_nonzero,
}
use rootmode.Worker.Chain.Rlp.Decode.{list_of_strings}
use rootmode.Worker.Chain.Rlp.Transactions.{IsTx, fields, legacy_rlp-decodes}

rlp_zero : rlp_u64 0 ≡ 0x80 ∷ []
unfolding rlp_u64
rlp_zero = refl

rlp_above : rlp_u64 0x80 ≡ 0x81 ∷ 0x80 ∷ []
unfolding rlp_u64 rlp_bytes rlp_wrap is_own_code u64_be be_bytes position_nonzero
rlp_above = refl

abbrev transfer : LegacyTx
transfer = record {
  nonce = 0;
  gas_price = 1000000000;
  gas = 21000;
  to = replicate 20 7;
  value = 0;
  data_bytes = replicate 60 9;
  chain_id = 8453;
}

transfer-IsTx : IsTx transfer
transfer-IsTx = record {
  nonce = omega arith;
  gas_price = omega arith;
  gas = omega arith;
  to = refl;
  value = omega arith;
  data_bytes = omega arith;
  chain_id = omega arith;
}

abbrev signature : Option (ℕ × Bytes × Bytes)
signature = some (16942, 0 ∷ replicate 31 5, replicate 32 6)

legacy_rlp-decodes_example :
    list_of_strings (legacy_rlp transfer signature) ≡ some (fields transfer signature)
legacy_rlp-decodes_example = legacy_rlp-decodes transfer signature transfer-IsTx (refl, refl)
