-- ===== src/Core/Job/Tests.antt =====
-- Runs and examples of job.rs.
use rootmode.Prelude.{◌≡◌, refl, true, none, some, [], ◌∷◌}
use rootmode.Prelude.Text.{Text, text, text_eq, utf8, utf8_char, ascii_lower}
use rootmode.Prelude.Strings.{
  trim, is_whitespace, starts_with, contains, from_dec, dec_digits, split_once,
}
use rootmode.Prelude.Result.{ok, err}
use rootmode.Core.Floats.{whole_floats}
use rootmode.Core.Errors.{Message, CoreError}
use rootmode.Core.Job.{JobPayload, LlmParams}
use rootmode.Core.Job.Validate.{validate, validate_llm, says_nothing, check_image, is_ratio}
use rootmode.Core.Job.Bounds.{IsSendable, validate-IsSendable}

abbrev with_image : Text → LlmParams (whole_floats).F (Unit {0})
with_image image = record {
  model_hash = none;
  model_id = none;
  messages =
      record {
        role = text "user";
        content = text "hi";
        tool_calls = [];
        tool_call_id = none;
        images = image ∷ [];
      }
      ∷ [];
  tools = [];
  max_tokens = 512;
  temperature = 1;
  reasoning_effort = some (text "low");
}

passes : validate whole_floats (JobPayload.llm (with_image (text "AAAA"))) ≡ ok tt
unfolding validate validate_llm says_nothing check_image trim is_whitespace starts_with contains
    ascii_lower utf8 utf8_char text_eq
passes = refl

refuses_link :
    validate whole_floats (JobPayload.llm (with_image (text "HTTP://x")))
    ≡ err (CoreError.invalid Message.image_is_link)
unfolding validate validate_llm says_nothing check_image trim is_whitespace starts_with contains
    ascii_lower utf8 utf8_char text_eq
refuses_link = refl

ratio : is_ratio (text "16:9") ≡ true
unfolding is_ratio split_once from_dec dec_digits
ratio = refl

validate-IsSendable_example : IsSendable whole_floats (with_image (text "AAAA"))
validate-IsSendable_example = validate-IsSendable whole_floats (with_image (text "AAAA")) passes
