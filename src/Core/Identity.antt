-- ===== src/Core/Identity.antt =====
-- crates/rootmode-core/src/identity.rs and canonical.rs: the ed25519 key of a peer, and the bytes
-- that it signs. The crate `ed25519_dalek` and the writer of `serde_json` are parameters.
use rootmode.Prelude.{◌≡◌, Option, some, Bool, true, not, length, ◌==◌, if◌then◌else◌}
use rootmode.Prelude.Bytes.{Bytes}
use rootmode.Prelude.Text.{Text, text, utf8}
use rootmode.Prelude.Strings.{trim}
use rootmode.Prelude.Result.{ok, ◌>>=◌, ◌>>◌, fail_if, ok_or}
use rootmode.Core.Json.{JsonApi}
use rootmode.Core.Errors.{Message, CoreError, CoreResult}
use rootmode.Core.Externals.{Externals}

-- `ed25519_dalek`, with the laws of a signature scheme.
pub record Ed25519 : Type 1 where
  pub SigningKey : Type 0
  pub VerifyingKey : Type 0
  pub Signature : Type 0
  pub secret_of : Bytes → SigningKey
  pub to_bytes : SigningKey → Bytes
  pub verifying_key : SigningKey → VerifyingKey
  pub key_bytes : VerifyingKey → Bytes
  pub key_of : Bytes → Option VerifyingKey
  pub sign : SigningKey → Bytes → Signature
  pub signature_bytes : Signature → Bytes
  pub signature_of : Bytes → Signature
  pub verify : VerifyingKey → Bytes → Signature → Bool
  -- A secret has 32 bytes, a public key 32 and a signature 64, and each is read back from them.
  pub length-to_bytes : (k : SigningKey) → length (to_bytes k) ≡ 32
  pub length-key_bytes : (k : VerifyingKey) → length (key_bytes k) ≡ 32
  pub length-signature_bytes : (s : Signature) → length (signature_bytes s) ≡ 64
  pub secret_of-to_bytes : (k : SigningKey) → secret_of (to_bytes k) ≡ k
  pub key_of-key_bytes : (k : VerifyingKey) → key_of (key_bytes k) ≡ some k
  pub signature_of-signature_bytes : (s : Signature) → signature_of (signature_bytes s) ≡ s
  pub verify-sign : (k : SigningKey) (m : Bytes) → verify (verifying_key k) m (sign k m) ≡ true

-- `Map::remove` on an object, and `to_string`.
pub record JsonText (J : JsonApi) : Type 0 where
  pub remove : J.Value → Text → J.Value
  pub to_string : J.Value → Text
  pub from_str : Text → Option J.Value

module _ (X : Externals) (E : Ed25519) where
  pub record Identity : Type 0 where
    pub signing : E.SigningKey

  unfoldable pub from_secret_hex : Text → CoreResult Identity
  unfolding trim
  from_secret_hex t = do
    raw ← ok_or (X.hex_decode (trim t)) (CoreError.key Message.secret_not_hex)
    fail_if (not (length raw == 32)) (CoreError.key Message.secret_length)
    ok (record { signing = E.secret_of raw })

  unfoldable pub export_secret_hex : Identity → Text
  export_secret_hex i = X.hex_encode (E.to_bytes i.signing)

  unfoldable pub public_key_hex : Identity → Text
  public_key_hex i = X.hex_encode (E.key_bytes (E.verifying_key i.signing))

  unfoldable pub peer_id : Identity → Text
  unfolding public_key_hex
  peer_id i = public_key_hex i

  unfoldable pub sign_hex : Identity → Bytes → Text
  sign_hex i msg = X.hex_encode (E.signature_bytes (E.sign i.signing msg))

  unfoldable pub verify_hex : Text → Bytes → Text → CoreResult (Unit {0})
  unfolding trim
  verify_hex public_key msg sig = do
    pk_raw ← ok_or (X.hex_decode (trim public_key)) (CoreError.key Message.key_not_hex)
    fail_if (not (length pk_raw == 32)) (CoreError.key Message.key_length)
    vk ← ok_or (E.key_of pk_raw) (CoreError.key Message.bad_key)
    sig_raw ← ok_or (X.hex_decode (trim sig)) (CoreError.signature Message.signature_not_hex)
    fail_if (not (length sig_raw == 64)) (CoreError.signature Message.signature_size)
    fail_if (not (E.verify vk msg (E.signature_of sig_raw)))
        (CoreError.signature Message.signature_rejected)

-- `to_value` of the type that is signed is derived by serde, so its result is an argument.
module _ (J : JsonApi) (S : JsonText J) where
  unfoldable pub canonical_bytes : Option J.Value → CoreResult Bytes
  unfolding utf8
  canonical_bytes value = do
    v ← ok_or value CoreError.json
    ok (utf8 (S.to_string (if J.is_object v then S.remove v (text "sig") else v)))

  unfoldable pub wire_json : Option J.Value → CoreResult Text
  wire_json value = do v ← ok_or value CoreError.json; ok (S.to_string v)

  unfoldable pub canonical_bytes_of : J.Value → CoreResult Bytes
  unfolding utf8
  canonical_bytes_of v = do
    fail_if (not (J.is_object v)) (CoreError.invalid Message.not_an_object)
    ok (utf8 (S.to_string (S.remove v (text "sig"))))
