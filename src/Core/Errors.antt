-- ===== src/Core/Errors.antt =====
-- crates/rootmode-core/src/lib.rs: the crate's errors. A message is kept as the case that it
-- reports with the values that are printed in it.
use rootmode.Prelude.{ℕ}
use rootmode.Prelude.Text.{Text}
use rootmode.Prelude.Result.{Result}

pub data Message : Type 0 where
  not_an_address : Text → Message
  not_32_bytes : Text → Message
  bad_signature : Message
  signature_length : ℕ → Message
  recovery_byte : ℕ → Message
  high_s : Message
  bad_recovery_id : Message
  cannot_recover : Message
  unsigned : Message
  reservation_expired : Message
  signed_by : Text → Text → Message
  must_rise : ℕ → ℕ → Message
  beyond_reserved : ℕ → ℕ → Message
  ticket_expired : ℕ → ℕ → Message
  -- What `JobPayload::validate` finds.
  no_messages no_prompt_text image_empty image_is_link image_too_large tool_unnamed : Message
  max_tokens_range temperature_range unknown_effort : Message
  no_result : Message
  empty_prompt : Text → Message
  long_prompt : Text → Message
  message_too_long not_an_object no_from : Message
  secret_not_hex secret_length key_not_hex key_length bad_key : Message
  signature_not_hex signature_size signature_rejected : Message
  change_range empty_from_image seconds_range bad_resolution bad_ratio : Message

pub data CoreError : Type 0 where
  version : ℕ → ℕ → CoreError
  invalid : Message → CoreError
  json : CoreError
  signature : Message → CoreError
  key : Message → CoreError

abbrev pub CoreResult {ℓ} : Type ℓ → Type ℓ
CoreResult A = Result CoreError A
