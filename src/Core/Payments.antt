-- ===== src/Core/Payments.antt =====
-- crates/rootmode-core/src/payments.rs: signed spending tickets and their EIP-712 digests.
pub mod ReserveAuth
pub mod SpendingAuth
pub mod ReserveTicket
pub mod SpendTicket
pub mod Injective
mod Tests
use rootmode.Prelude.{
  ℕ, [], ◌∷◌, ◌++◌, not, take, drop, concat, replicate, length, ◌==◌, is_some, if◌then◌else◌,
}
use rootmode.Prelude.Bytes.{Bytes, be_bytes}
use rootmode.Prelude.Text.{Text, text, utf8, strip_0x, to_lowercase}
use rootmode.Prelude.Result.{ok, err, ◌>>=◌, ◌>>◌, fail_if, ok_or}
use rootmode.Core.Errors.{Message, CoreError, CoreResult}
use rootmode.Core.Externals.{Externals}

abbrev pub Micros : Type 0
Micros = ℕ

abbrev pub domain_name : Text
domain_name = text "RootmodeChannels"

abbrev pub domain_version : Text
domain_version = text "1"

abbrev pub pot_domain_name : Text
pot_domain_name = text "RootmodePot"

pub record Domain : Type 0 where
  pub chain_id : ℕ
  pub verifying_contract : Text

unfoldable pub word_u64 : ℕ → Bytes
word_u64 value = replicate 24 0 ++ be_bytes 8 value

module _ (X : Externals) where
  open X use {
    keccak256, hex_encode, hex_decode, unicode_lowercase, VerifyingKey, from_slice, normalize_s,
    from_byte, recover_from_prehash, encoded_point,
  }

  unfoldable pub word_address : Text → CoreResult Bytes
  word_address address = do
    bytes ←
        ok_or (hex_decode (strip_0x address)) (CoreError.invalid (Message.not_an_address address))
    fail_if (not (length bytes == 20)) (CoreError.invalid (Message.not_an_address address))
    ok (replicate 12 0 ++ bytes)

  unfoldable pub word_bytes32 : Text → CoreResult Bytes
  word_bytes32 value = do
    bytes ← ok_or (hex_decode (strip_0x value)) (CoreError.invalid (Message.not_32_bytes value))
    fail_if (not (length bytes == 32)) (CoreError.invalid (Message.not_32_bytes value))
    ok bytes

  -- `keccak` of payments.rs is a call of the `sha3` crate.
  abbrev pub keccak : Bytes → Bytes
  keccak = keccak256

  unfoldable pub separator_named : Domain → Text → CoreResult Bytes
  separator_named d name = do
    contract ← word_address d.verifying_contract
    ok (
        keccak (
          concat (
            keccak (
              utf8 (
                text
                  "EIP712Domain(string name,string version,uint256 chainId,address verifyingContract)"))
            ∷ keccak (utf8 name)
            ∷ keccak (utf8 domain_version)
            ∷ word_u64 d.chain_id
            ∷ contract
            ∷ [])))

  unfoldable pub digest_of_named : Domain → Text → Bytes → CoreResult Bytes
  digest_of_named d name struct_hash = do
    separator ← separator_named d name
    ok (keccak (concat ((0x19 ∷ 0x01 ∷ []) ∷ separator ∷ struct_hash ∷ [])))

  unfoldable pub digest_of : Domain → Bytes → CoreResult Bytes
  digest_of d struct_hash = digest_of_named d domain_name struct_hash

  unfoldable pub channel_id : Text → Text → Text → Text
  channel_id client worker salt =
      text "0x"
      ++ hex_encode (
          keccak (
            concat (
              utf8 (to_lowercase unicode_lowercase client)
              ∷ utf8 (to_lowercase unicode_lowercase worker)
              ∷ utf8 salt
              ∷ [])))

  unfoldable pub metadata_hash : Text → ℕ → ℕ → ℕ → Text → Text
  metadata_hash model tokens_in tokens_out images sha256 =
      text "0x"
      ++ hex_encode (
          keccak (
            concat (
              utf8 model
              ∷ (0 ∷ [])
              ∷ be_bytes 8 tokens_in
              ∷ be_bytes 8 tokens_out
              ∷ be_bytes 8 images
              ∷ utf8 sha256
              ∷ [])))

  unfoldable pub address_of : VerifyingKey → Text
  address_of key = text "0x" ++ hex_encode (drop 12 (keccak (drop 1 (encoded_point key))))

  -- The recovery id that a wallet's `v` byte stands for.
  recovery_of : ℕ → CoreResult ℕ
  recovery_of v =
      if v == 0
      then ok 0
      else if v == 27
      then ok 0
      else if v == 1
      then ok 1
      else if v == 28
      then ok 1
      else err (CoreError.signature (Message.recovery_byte v))

  -- The byte at index 64 of a list of 65.
  last_byte : Bytes → ℕ
  last_byte bytes = elim (drop 64 bytes) [ [] ↦ 0 | b ∷ bs ↦ b ]

  unfoldable pub recover : Bytes → Text → CoreResult Text
  unfolding recovery_of last_byte
  recover digest sig_hex = do
    bytes ← ok_or (hex_decode (strip_0x sig_hex)) (CoreError.signature Message.bad_signature)
    fail_if (not (length bytes == 65))
        (CoreError.signature (Message.signature_length (length bytes)))
    v ← recovery_of (last_byte bytes)
    signature ← ok_or (from_slice (take 64 bytes)) (CoreError.signature Message.bad_signature)
    fail_if (is_some (normalize_s signature)) (CoreError.signature Message.high_s)
    recovery ← ok_or (from_byte v) (CoreError.signature Message.bad_recovery_id)
    key ←
        ok_or (recover_from_prehash digest signature recovery)
          (CoreError.signature Message.cannot_recover)
    ok (address_of key)
