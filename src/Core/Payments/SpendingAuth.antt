-- ===== src/Core/Payments/SpendingAuth.antt =====
-- crates/rootmode-core/src/payments.rs: SpendingAuth.
use rootmode.Prelude.{Option, ◌-◌, not, [], ◌∷◌, concat, leb, ltb}
use rootmode.Prelude.Bytes.{Bytes}
use rootmode.Prelude.Text.{Text, text, utf8, eq_ignore_ascii_case}
use rootmode.Prelude.Result.{ok, ◌>>=◌, ◌>>◌, fail_if, ok_or}
use rootmode.Core.Errors.{Message, CoreError, CoreResult}
use rootmode.Core.Externals.{Externals}
use rootmode.Core.Payments.{
  Micros, Domain, word_u64, word_address, word_bytes32, keccak, digest_of,
  recover as recover_signer,
}

pub record SpendingAuth : Type 0 where
  pub channel_id : Text
  pub client : Text
  pub cumulative : Micros
  pub metadata_hash : Text
  pub sig : Option Text

module _ (X : Externals) where
  unfoldable pub digest : SpendingAuth → Domain → CoreResult Bytes
  digest a d = do
    channel ← word_bytes32 X a.channel_id
    client ← word_address X a.client
    meta ← word_bytes32 X a.metadata_hash
    digest_of X d (
        keccak X (
          concat (
            keccak X (
              utf8 (
                text
                  "SpendingAuth(bytes32 channelId,address client,uint256 cumulative,bytes32 metadataHash)"))
            ∷ channel
            ∷ client
            ∷ word_u64 a.cumulative
            ∷ meta
            ∷ [])))

  unfoldable pub recover : SpendingAuth → Domain → CoreResult Text
  unfolding digest
  recover a d = do
    sig ← ok_or a.sig (CoreError.signature Message.unsigned)
    hash ← digest a d
    recover_signer X hash sig

  -- `already` is what the worker has seen on the channel, `reserved` what the session authorised.
  unfoldable pub check : SpendingAuth → Domain → Micros → Micros → CoreResult Micros
  unfolding recover
  check a d already reserved = do
    signer ← recover a d
    fail_if (not (eq_ignore_ascii_case signer a.client))
        (CoreError.signature (Message.signed_by signer a.client))
    fail_if (leb a.cumulative already) (CoreError.invalid (Message.must_rise a.cumulative already))
    fail_if (ltb reserved a.cumulative)
        (CoreError.invalid (Message.beyond_reserved a.cumulative reserved))
    ok (a.cumulative - already)
