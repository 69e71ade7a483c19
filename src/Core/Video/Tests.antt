-- ===== src/Core/Video/Tests.antt =====
-- Runs and examples of the video menu.
use rootmode.Prelude.{ℕ, ◌≡◌, refl, false, none, some, [], ◌∷◌, arith}
use rootmode.Prelude.Text.{text, text_eq, eq_ignore_ascii_case, ascii_lower}
use rootmode.Prelude.Strings.{trim}
use rootmode.Prelude.Result.{ok, err}
use rootmode.Core.Floats.{whole_floats}
use rootmode.Core.Job.{VideoParams}
use rootmode.Core.Video.{
  AudioOffer, VideoRate, VideoOffer, VideoShape, ShapeRefusal, shape_for, check_seconds, rate_for,
  fits, dearest, dearest_from, dearer,
}
use rootmode.Core.Video.Menu.{IsOnMenu, shape_for-IsOnMenu}
use rootmode.Core.Video.Dearest.{IsOrder, IsQuoted, rate_for-IsQuoted}

abbrev rate : ℕ → VideoRate ℕ
rate n = record {
  resolution = some (text "720P");
  audio = false;
  from_image = false;
  usd_per_second = n;
  minimum_usd = 0;
}

abbrev offer : VideoOffer ℕ
offer = record {
  durations = 4 ∷ 8 ∷ [];
  default_seconds = 4;
  resolutions = text "720p" ∷ text "1080p" ∷ [];
  default_resolution = some (text "720p");
  aspect_ratios = [];
  default_aspect = none;
  audio = AudioOffer.optional;
  first_frame = false;
  rates = rate 3 ∷ rate 5 ∷ rate 4 ∷ [];
}

abbrev request : ℕ → VideoParams
request n = record {
  model_hash = none;
  checkpoint_id = none;
  prompt = text "a cat";
  from_image = none;
  seconds = some n;
  resolution = some (text "720P");
  aspect_ratio = none;
  audio = none;
}

abbrev shape : VideoShape
shape = record {
  seconds = 8;
  resolution = some (text "720p");
  aspect_ratio = none;
  audio = false;
  from_image = false;
}

takes : shape_for offer (request 8) ≡ ok shape
unfolding shape_for check_seconds eq_ignore_ascii_case text_eq ascii_lower trim
takes = refl

refuses : shape_for offer (request 5) ≡ err (ShapeRefusal.seconds_not_offered 5 (4 ∷ 8 ∷ []))
unfolding shape_for check_seconds
refuses = refl

quotes : rate_for whole_floats offer shape ≡ some (rate 5)
unfolding rate_for fits dearest dearest_from dearer eq_ignore_ascii_case text_eq ascii_lower
quotes = refl

shape_for-IsOnMenu_example : IsOnMenu offer (request 8) shape
shape_for-IsOnMenu_example = shape_for-IsOnMenu offer (request 8) shape takes

whole-IsOrder : IsOrder whole_floats
whole-IsOrder = record {
  trans = λ a b c p q. ground arith;
  total = λ a b p q h. ground arith;
  reflexive = λ a p. ground arith;
}

rate_for-IsQuoted_example :
    IsQuoted whole_floats shape offer.rates (rate_for whole_floats offer shape)
rate_for-IsQuoted_example =
    rate_for-IsQuoted whole_floats whole-IsOrder offer shape (refl, (refl, (refl, tt)))
