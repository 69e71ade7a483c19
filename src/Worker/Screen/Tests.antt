-- ===== src/Worker/Screen/Tests.antt =====
-- Runs and examples of screen.rs.
use rootmode.Prelude.{◌≡◌, ◌↔◌, refl, true, false, none}
use rootmode.Prelude.Text.{text, text_eq, to_lowercase, ascii_lower}
use rootmode.Prelude.Strings.{starts_with, ends_with, contains}
use rootmode.Prelude.Result.{ok}
use rootmode.Core.Job.{JobPayload}
use rootmode.Worker.Screen.{
  Unicode, states_a_minor_age, age_loop, is_age, check, screened_text, words_of, is_alphanumeric,
  any_word, any_phrase,
}
use rootmode.Worker.Screen.Ages.{HasAge, states_a_minor_age-HasAge}

stated : states_a_minor_age (text "a 9-year-old") ≡ true
unfolding states_a_minor_age age_loop is_age starts_with ends_with text_eq
stated = refl

resolution : states_a_minor_age (text "1024 years") ≡ false
unfolding states_a_minor_age age_loop is_age starts_with ends_with text_eq
resolution = refl

abbrev ascii : Unicode
ascii = record { lowercase = λ t. t; alphanumeric = λ c. false }

abbrev picture : JobPayload (Unit {0}) (Unit {0})
picture = JobPayload.image (record {
  model_hash = none;
  checkpoint_id = none;
  prompt = text "A boy band in Essex";
  from_image = none;
  change = none;
  mask = none;
})

allowed : check ascii picture ≡ ok tt
unfolding check screened_text words_of is_alphanumeric any_word any_phrase to_lowercase ascii_lower
    states_a_minor_age age_loop is_age starts_with ends_with contains text_eq
allowed = refl

states_a_minor_age-HasAge_example :
    (states_a_minor_age (text "aged 9, or 1024") ≡ true) ↔ HasAge (text "aged 9, or 1024")
states_a_minor_age-HasAge_example = states_a_minor_age-HasAge (text "aged 9, or 1024")
