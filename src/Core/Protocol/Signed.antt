-- ===== src/Core/Protocol/Signed.antt =====
-- crates/rootmode-core/src/protocol.rs: the signature on a submitted job.
use rootmode.Prelude.{◌≡◌, refl, subst, Option, none, some, not}
use rootmode.Prelude.Bytes.{Bytes}
use rootmode.Prelude.Text.{Text, text, utf8}
use rootmode.Prelude.Strings.{trim}
use rootmode.Prelude.Result.{ok, ◌>>=◌, ◌>>◌, fail_if, ok_or, >>=-ok, ok_inj}
use rootmode.Core.Json.{JsonApi}
use rootmode.Core.Errors.{Message, CoreError, CoreResult}
use rootmode.Core.Externals.{Externals}
use rootmode.Core.Identity.{
  Ed25519, JsonText, Identity, peer_id, public_key_hex, sign_hex, verify_hex, canonical_bytes,
}
use rootmode.Core.Protocol.{JobSubmit}

-- `to_value` is the form of a job that serde derives.
module _ (X : Externals) (E : Ed25519) (J : JsonApi) (S : JsonText J) {F V : Type 0}
    (to_value : JobSubmit F V → Option J.Value) where
  unfoldable pub signed_by : JobSubmit F V → Identity X E → CoreResult (JobSubmit F V)
  unfolding peer_id sign_hex canonical_bytes
  signed_by m identity =
      let unsigned = record m { from = peer_id X E identity; sig = none } in
      canonical_bytes J S (to_value unsigned) >>= λ bytes.
      ok (record unsigned { sig = some (sign_hex X E identity bytes) })

  unfoldable pub verify : JobSubmit F V → CoreResult (Unit {0})
  unfolding verify_hex canonical_bytes
  verify m = ok_or m.sig (CoreError.signature Message.unsigned) >>= λ sig.
      canonical_bytes J S (to_value (record m { sig = none })) >>= λ body.
      verify_hex X E m.from body sig

  text_at : J.Value → Text → Option Text
  text_at v k = elim (J.get v k) [ some x ↦ J.as_str x | none ↦ none ]

  -- The signature over the JSON that arrived.
  unfoldable pub verify_wire : Text → CoreResult (Unit {0})
  unfolding verify_hex utf8 text_at
  verify_wire raw = do
    value ← ok_or (S.from_str raw) CoreError.json
    from ← ok_or (text_at value (text "from")) (CoreError.signature Message.no_from)
    sig ← ok_or (text_at value (text "sig")) (CoreError.signature Message.unsigned)
    fail_if (not (J.is_object value)) (CoreError.invalid Message.not_an_object)
    let rest = S.remove (S.remove value (text "sig")) (text "type")
    verify_hex X E from (utf8 (S.to_string rest)) sig

-- Hexadecimal text is read back, and has no blanks around it.
abbrev pub IsRead : Externals → Type 0
IsRead X = (b : Bytes) → X.hex_decode (trim (X.hex_encode b)) ≡ some b

module _ (X : Externals) (E : Ed25519) (hex : IsRead X) where
  pub verify_hex-sign_hex :
      (i : Identity X E) (msg : Bytes)
      → verify_hex X E (public_key_hex X E i) msg (sign_hex X E i msg) ≡ ok tt
  unfolding verify_hex public_key_hex sign_hex
  verify_hex-sign_hex i msg =
      rw
        (
          hex (E.key_bytes (E.verifying_key i.signing)),
          E.length-key_bytes (E.verifying_key i.signing),
          E.key_of-key_bytes (E.verifying_key i.signing),
          hex (E.signature_bytes (E.sign i.signing msg)),
          E.length-signature_bytes (E.sign i.signing msg),
          E.signature_of-signature_bytes (E.sign i.signing msg),
          E.verify-sign i.signing msg,
        )
        refl

  -- When hexadecimal text is read back whatever the bytes, a job that signed_by signed with any
  -- identity passes verify.
  pub verify-signed_by :
      (J : JsonApi) (S : JsonText J) {F V : Type 0} (to_value : JobSubmit F V → Option J.Value)
      (m n : JobSubmit F V) (i : Identity X E)
      → signed_by X E J S to_value m i ≡ ok n
      → verify X E J S to_value n ≡ ok tt
  unfolding signed_by verify peer_id
  verify-signed_by J S to_value m n i e =
      let unsigned = record m { from = public_key_hex X E i; sig = none } in
      let (bytes, read, made) = >>=-ok (canonical_bytes J S (to_value unsigned)) _ e in
      let same : record unsigned { sig = some (sign_hex X E i bytes) } ≡ n = ok_inj made in
      subst (λ k. verify X E J S to_value k ≡ ok tt) same (rw read (verify_hex-sign_hex i bytes))
