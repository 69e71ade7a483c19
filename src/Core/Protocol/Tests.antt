-- ===== src/Core/Protocol/Tests.antt =====
-- Runs and examples of the messages.
use rootmode.Prelude.{
  ℕ, ◌+◌, ◌-◌, ◌≤◌, ◌↔◌, ◌≡◌, true, false, refl, none, some, [], ◌∷◌, replicate, length, arith, ap,
}
use rootmode.Prelude.Bytes.{Bytes}
use rootmode.Prelude.Text.{Text, text, utf8, utf8_char}
use rootmode.Prelude.Strings.{is_whitespace, trim, trim_start_by, trim_end_by}
use rootmode.Prelude.Result.{ok, err}
use rootmode.Core.Json.{trees, Tree}
use rootmode.Core.Errors.{CoreError}
use rootmode.Core.Fixtures.{toy}
use rootmode.Core.Externals.{Externals}
use rootmode.Core.Identity.{
  Ed25519, JsonText, Identity, canonical_bytes, peer_id, public_key_hex, sign_hex,
}
use rootmode.Core.Job.{JobPayload}
use rootmode.Core.Protocol.{
  JobSubmit, WorkerMessage, ClientMessage, parse_worker, parse_client, new_submit, worker_versions,
  check_version, max_message_bytes,
}
use rootmode.Core.Protocol.Parsing.{
  parse_worker_iff, parse_client_iff, worker_version, client_version, IsSpoken,
}
use rootmode.Core.Protocol.Signed.{signed_by, verify, IsRead, verify-signed_by}

-- A key of its own length, whose signature is the key twice over.
abbrev toy_keys : Ed25519
toy_keys = record {
  SigningKey = Unit {0};
  VerifyingKey = Unit {0};
  Signature = Unit {0};
  secret_of = λ b. tt;
  to_bytes = λ k. replicate 32 1;
  verifying_key = λ k. tt;
  key_bytes = λ k. replicate 32 2;
  key_of = λ b. some tt;
  sign = λ k m. tt;
  signature_bytes = λ s. replicate 64 3;
  signature_of = λ b. tt;
  verify = λ k m s. true;
  length-to_bytes = λ k. refl;
  length-key_bytes = λ k. refl;
  length-signature_bytes = λ s. refl;
  secret_of-to_bytes = λ k. refl;
  key_of-key_bytes = λ k. refl;
  signature_of-signature_bytes = λ s. refl;
  verify-sign = λ k m. refl;
}

-- Bytes as characters far above every blank.
abbrev shifted : Bytes → Text
shifted [] = []
shifted (b ∷ bs) = (b + 0x4000) ∷ shifted bs

abbrev unshifted : Text → Bytes
unshifted [] = []
unshifted (c ∷ t) = (c - 0x4000) ∷ unshifted t

no_blank : (b : ℕ) → is_whitespace (b + 0x4000) ≡ false
unfolding is_whitespace
no_blank b = ground arith

trim_start-shifted : (b : Bytes) → trim_start_by is_whitespace (shifted b) ≡ shifted b
trim_start-shifted [] = refl
trim_start-shifted (b ∷ bs) = rw (no_blank b) refl

trim_end-shifted : (b : Bytes) → trim_end_by is_whitespace (shifted b) ≡ shifted b
trim_end-shifted [] = refl
trim_end-shifted (b ∷ []) = rw (no_blank b) refl
trim_end-shifted (b ∷ d ∷ bs) = rw (trim_end-shifted (d ∷ bs)) refl

unshifted-shifted : (b : Bytes) → unshifted (shifted b) ≡ b
unshifted-shifted [] = refl
unshifted-shifted (b ∷ bs) =
    let here : (b + 0x4000) - 0x4000 ≡ b = omega arith in cc (here, unshifted-shifted bs)

abbrev readable : Externals
readable = record toy { hex_encode = shifted; hex_decode = λ t. some (unshifted t) }

readable-IsRead : IsRead readable
unfolding trim
readable-IsRead b = rw (trim_start-shifted b, trim_end-shifted b) (ap some (unshifted-shifted b))

abbrev plain_text : JsonText trees
plain_text = record { remove = λ v k. v; to_string = λ v. text "{}"; from_str = λ t. none }

abbrev clip : JobSubmit ℕ (Unit {0})
unfolding new_submit
clip = new_submit (text "j") (text "me") (
    JobPayload.video (record {
      model_hash = none;
      checkpoint_id = none;
      prompt = text "a cat";
      from_image = none;
      seconds = none;
      resolution = none;
      aspect_ratio = none;
      audio = none;
    }))

abbrev key : Identity readable toy_keys
key = record { signing = tt }

abbrev signed_clip : JobSubmit ℕ (Unit {0})
unfolding public_key_hex sign_hex utf8 utf8_char
signed_clip = record clip {
  from = public_key_hex readable toy_keys key;
  sig = some (sign_hex readable toy_keys key (utf8 (text "{}")));
}

signs : signed_by readable toy_keys trees plain_text (λ m. some Tree.null) clip key ≡ ok signed_clip
unfolding signed_by peer_id public_key_hex sign_hex canonical_bytes utf8 utf8_char
signs = refl

verify-signed_by_example :
    verify readable toy_keys trees plain_text (λ m. some Tree.null) signed_clip ≡ ok tt
verify-signed_by_example =
    verify-signed_by readable toy_keys readable-IsRead trees plain_text (λ m. some Tree.null) clip
      signed_clip key signs

abbrev delta : WorkerMessage ℕ (Unit {0})
delta =
    WorkerMessage.job_delta (record { v = 2; job_id = text "j"; answer = text "hi"; thinking = [] })

abbrev hello : ClientMessage ℕ (Unit {0})
hello = ClientMessage.peer_hello (record { v = 1; peer_id = text "me" })

parse_worker_iff_example :
    (parse_worker {F = ℕ} {V = Unit {0}} (λ t. some delta) (text "{}") ≡ ok delta) ↔ (
      (length (utf8 (text "{}")) ≤ max_message_bytes)
      × (some delta ≡ some delta)
      × IsSpoken (worker_version delta))
parse_worker_iff_example = parse_worker_iff (λ t. some delta) (text "{}") delta

parse_client_iff_example :
    (parse_client {F = ℕ} {V = Unit {0}} (λ t. some hello) (text "{}") ≡ ok hello) ↔ (
      (length (utf8 (text "{}")) ≤ max_message_bytes)
      × (some hello ≡ some hello)
      × IsSpoken (client_version hello))
parse_client_iff_example = parse_client_iff (λ t. some hello) (text "{}") hello

refuses_version : parse_worker (λ t. some delta) (text "{}") ≡ err (CoreError.version 2 1)
unfolding parse_worker worker_versions check_version utf8 utf8_char
refuses_version = refl
