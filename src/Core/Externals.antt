-- ===== src/Core/Externals.antt =====
-- Code that the program calls and that is not part of the repository: the crates `sha3`, `hex` and
-- `k256`, and the Unicode tables of `str::to_lowercase`.
use rootmode.Prelude.{ℕ, ◌≡◌, Option, length}
use rootmode.Prelude.Bytes.{Bytes}
use rootmode.Prelude.Text.{Text}

pub record Externals : Type 1 where
  pub keccak256 : Bytes → Bytes
  -- A Keccak-256 hash has 32 bytes.
  pub length-keccak256 : (b : Bytes) → length (keccak256 b) ≡ 32
  pub hex_encode : Bytes → Text
  pub hex_decode : Text → Option Bytes
  pub unicode_lowercase : Text → Text
  -- k256::ecdsa: `Signature::from_slice`, `normalize_s`, `RecoveryId::from_byte`,
  -- `VerifyingKey::recover_from_prehash` and `to_encoded_point(false)`.
  pub Signature : Type 0
  pub RecoveryId : Type 0
  pub VerifyingKey : Type 0
  pub from_slice : Bytes → Option Signature
  pub normalize_s : Signature → Option Signature
  pub from_byte : ℕ → Option RecoveryId
  pub recover_from_prehash : Bytes → Signature → RecoveryId → Option VerifyingKey
  pub encoded_point : VerifyingKey → Bytes
