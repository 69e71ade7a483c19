-- ===== src/Core/Payments/ReserveTicket.antt =====
-- crates/rootmode-core/src/payments.rs: ReserveTicket.
use rootmode.Prelude.{ℕ, [], ◌∷◌, concat}
use rootmode.Prelude.Bytes.{Bytes}
use rootmode.Prelude.Text.{Text, text, utf8}
use rootmode.Prelude.Result.{ok, ◌>>=◌}
use rootmode.Core.Errors.{CoreResult}
use rootmode.Core.Externals.{Externals}
use rootmode.Core.Payments.{
  Micros, Domain, word_u64, word_address, keccak, digest_of_named, pot_domain_name,
}

pub record ReserveTicket : Type 0 where
  pub client : Text
  pub worker_payout : Text
  pub max_amount : Micros
  pub deadline : ℕ

module _ (X : Externals) where
  -- The bytes whose hash is signed.
  unfoldable pub encode : ReserveTicket → CoreResult Bytes
  encode t = do
    client ← word_address X t.client
    worker ← word_address X t.worker_payout
    ok (
        concat (
          keccak X (
            utf8 (
              text
                "ReserveTicket(address client,address workerPayout,uint256 maxAmount,uint64 deadline)"))
          ∷ client
          ∷ worker
          ∷ word_u64 t.max_amount
          ∷ word_u64 t.deadline
          ∷ []))

  unfoldable pub digest : ReserveTicket → Domain → CoreResult Bytes
  unfolding encode
  digest t d = do buf ← encode t; digest_of_named X d pot_domain_name (keccak X buf)
