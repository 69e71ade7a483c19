-- ===== src/Core/Fixtures.antt =====
-- Concrete stand-ins for the code outside the repository, for the tests.
use rootmode.Prelude.{ℕ, ◌≡◌, none, some, [], ◌∷◌, length}
use rootmode.Prelude.Bytes.{Bytes, be_bytes, be_value, length-be_bytes}
use rootmode.Core.Externals.{Externals}
use rootmode.Core.Tokens.Measure.{Tokenizer}

-- The last 32 bytes stand for a hash, texts are their own hexadecimal form, and a signature names
-- its signer.
abbrev pub toy_hash : Bytes → Bytes
unfolding be_bytes be_value
toy_hash b = be_bytes 32 (be_value 1 b)

pub length-toy_hash : (b : Bytes) → length (toy_hash b) ≡ 32
unfolding toy_hash
length-toy_hash b = length-be_bytes 32 (be_value 1 b)

abbrev pub toy : Externals
toy = record {
  keccak256 = toy_hash;
  length-keccak256 = length-toy_hash;
  hex_encode = λ b. b;
  hex_decode = λ t. some t;
  unicode_lowercase = λ t. t;
  Signature = Bytes;
  RecoveryId = ℕ;
  VerifyingKey = Bytes;
  from_slice = λ b. some b;
  normalize_s = λ s. none;
  from_byte = λ v. some v;
  recover_from_prehash = λ h s v. some s;
  encoded_point = λ k. k;
}

-- A token for each code point.
abbrev pub toy_tokenizer : Tokenizer ℕ
toy_tokenizer = record {
  Bpe = Unit {0};
  encoding_for = λ m. tt;
  count_ordinary = λ b t. length t;
  to_string = λ v. v ∷ [];
}
