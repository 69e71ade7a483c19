-- ===== src/Core/Payments/ReserveAuth.antt =====
-- crates/rootmode-core/src/payments.rs: ReserveAuth.
use rootmode.Prelude.{Option, ℕ, not, [], ◌∷◌, concat, leb}
use rootmode.Prelude.Bytes.{Bytes}
use rootmode.Prelude.Text.{Text, text, utf8, eq_ignore_ascii_case}
use rootmode.Prelude.Result.{ok, ◌>>=◌, ◌>>◌, fail_if, ok_or}
use rootmode.Core.Errors.{Message, CoreError, CoreResult}
use rootmode.Core.Externals.{Externals}
use rootmode.Core.Payments.{
  Micros, Domain, word_u64, word_address, word_bytes32, keccak, digest_of,
  recover as recover_signer,
}

pub record ReserveAuth : Type 0 where
  pub channel_id : Text
  pub client : Text
  pub worker_payout : Text
  pub max_amount : Micros
  pub deadline : ℕ
  pub sig : Option Text

module _ (X : Externals) where
  unfoldable pub digest : ReserveAuth → Domain → CoreResult Bytes
  digest a d = do
    channel ← word_bytes32 X a.channel_id
    client ← word_address X a.client
    worker ← word_address X a.worker_payout
    digest_of X d (
        keccak X (
          concat (
            keccak X (
              utf8 (
                text
                  "ReserveAuth(bytes32 channelId,address client,address workerPayout,uint256 maxAmount,uint256 deadline)"))
            ∷ channel
            ∷ client
            ∷ worker
            ∷ word_u64 a.max_amount
            ∷ word_u64 a.deadline
            ∷ [])))

  unfoldable pub recover : ReserveAuth → Domain → CoreResult Text
  unfolding digest
  recover a d = do
    sig ← ok_or a.sig (CoreError.signature Message.unsigned)
    hash ← digest a d
    recover_signer X hash sig

  unfoldable pub verify : ReserveAuth → Domain → ℕ → CoreResult (Unit {0})
  unfolding recover
  verify a d now = do
    fail_if (leb a.deadline now) (CoreError.invalid Message.reservation_expired)
    signer ← recover a d
    fail_if (not (eq_ignore_ascii_case signer a.client))
        (CoreError.signature (Message.signed_by signer a.client))
    ok tt
