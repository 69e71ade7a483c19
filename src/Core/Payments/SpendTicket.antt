-- ===== src/Core/Payments/SpendTicket.antt =====
-- crates/rootmode-core/src/payments.rs: SpendTicket.
use rootmode.Prelude.{ℕ, not, [], ◌∷◌, concat, leb}
use rootmode.Prelude.Bytes.{Bytes}
use rootmode.Prelude.Text.{Text, text, utf8, eq_ignore_ascii_case}
use rootmode.Prelude.Result.{ok, ◌>>=◌, ◌>>◌, fail_if}
use rootmode.Core.Errors.{Message, CoreError, CoreResult}
use rootmode.Core.Externals.{Externals}
use rootmode.Core.Payments.{
  Micros, Domain, word_u64, word_address, keccak, digest_of_named, pot_domain_name,
  recover as recover_signer,
}

pub record SpendTicket : Type 0 where
  pub client : Text
  pub worker_payout : Text
  pub cumulative : Micros
  pub deadline : ℕ

module _ (X : Externals) where
  -- The bytes whose hash is signed.
  unfoldable pub encode : SpendTicket → CoreResult Bytes
  encode t = do
    client ← word_address X t.client
    worker ← word_address X t.worker_payout
    ok (
        concat (
          keccak X (
            utf8 (
              text
                "SpendTicket(address client,address workerPayout,uint256 cumulative,uint64 deadline)"))
          ∷ client
          ∷ worker
          ∷ word_u64 t.cumulative
          ∷ word_u64 t.deadline
          ∷ []))

  unfoldable pub digest : SpendTicket → Domain → CoreResult Bytes
  unfolding encode
  digest t d = do buf ← encode t; digest_of_named X d pot_domain_name (keccak X buf)

  unfoldable pub recover : SpendTicket → Domain → Text → CoreResult Text
  unfolding digest
  recover t d sig = do hash ← digest t d; recover_signer X hash sig

  unfoldable pub check : SpendTicket → Domain → Text → Text → ℕ → CoreResult (Unit {0})
  unfolding recover
  check t d sig app_key now = do
    fail_if (leb t.deadline now) (CoreError.invalid (Message.ticket_expired t.deadline now))
    signer ← recover t d sig
    fail_if (not (eq_ignore_ascii_case signer app_key))
        (CoreError.signature (Message.signed_by signer app_key))
    ok tt
