-- ===== src/Core/Video.antt =====
-- crates/rootmode-core/src/protocol.rs: the menu of a video model, the shape that a request
-- resolves to, and its price.
mod Menu
mod Dearest
mod Tests
use rootmode.Prelude.{
  ℕ, ◌≡◌, Bool, true, false, not, ◌&&◌, Option, none, some, List, [], ◌∷◌, is_empty, is_some, any,
  ◌==◌, if◌then◌else◌,
}
use rootmode.Prelude.Text.{Text, text_eq, eq_ignore_ascii_case}
use rootmode.Prelude.Strings.{trim}
use rootmode.Prelude.Result.{Result, ok, err, ◌>>=◌, ◌>>◌, fail_if}
use rootmode.Core.Floats.{FloatApi}
use rootmode.Core.Job.{VideoParams}
use rootmode.Core.Price.{ceil_cents}

pub data AudioOffer : Type 0 where
  never always optional : AudioOffer

pub record VideoRate (F : Type 0) : Type 0 where
  pub resolution : Option Text
  pub audio : Bool
  pub from_image : Bool
  pub usd_per_second : F
  pub minimum_usd : F

pub record VideoOffer (F : Type 0) : Type 0 where
  pub durations : List ℕ
  pub default_seconds : ℕ
  pub resolutions : List Text
  pub default_resolution : Option Text
  pub aspect_ratios : List Text
  pub default_aspect : Option Text
  pub audio : AudioOffer
  pub first_frame : Bool
  pub rates : List (VideoRate F)

pub record VideoShape : Type 0 where
  pub seconds : ℕ
  pub resolution : Option Text
  pub aspect_ratio : Option Text
  pub audio : Bool
  pub from_image : Bool

-- What the refusal names: the length that was asked for and those on offer, and so on.
pub data ShapeRefusal : Type 0 where
  seconds_not_offered : ℕ → List ℕ → ShapeRefusal
  only_seconds : ℕ → ShapeRefusal
  no_choice_of_resolution no_choice_of_aspect : ShapeRefusal
  resolution_not_offered aspect_not_offered : Text → List Text → ShapeRefusal
  only_silent only_with_sound no_first_frame : ShapeRefusal

abbrev pub Shaped : Type 0 → Type 0
Shaped A = Result ShapeRefusal A

abbrev pub find : {A : Type 0} → (A → Bool) → List A → Option A
find p [] = none
find p (x ∷ xs) = if p x then some x else find p xs

abbrev pub filter : {A : Type 0} → (A → Bool) → List A → List A
filter p [] = []
filter p (x ∷ xs) = let rest = filter p xs in if p x then x ∷ rest else rest

-- The part of a choice that its menu decides: `find` or the refusal, or the default.
abbrev pub choose :
    (Text → Text → Bool)
    → List Text
    → ShapeRefusal
    → (Text → List Text → ShapeRefusal)
    → Option Text
    → Option Text
    → Shaped (Option Text)
choose same menu empty refusal none default = ok default
choose same menu empty refusal (some want) default = elim (find (λ r. same r want) menu) [
  | some r ↦ ok (some r)
  | none ↦ err (if is_empty menu then empty else refusal want menu)
]

abbrev pub choose_audio : AudioOffer → Option Bool → Shaped Bool
choose_audio AudioOffer.never (some true) = err ShapeRefusal.only_silent
choose_audio AudioOffer.never (some false) = ok false
choose_audio AudioOffer.never none = ok false
choose_audio AudioOffer.always (some false) = err ShapeRefusal.only_with_sound
choose_audio AudioOffer.always (some true) = ok true
choose_audio AudioOffer.always none = ok true
choose_audio AudioOffer.optional (some b) = ok b
choose_audio AudioOffer.optional none = ok false

abbrev pub or_else : {A : Type 0} → Option A → A → A
or_else none d = d
or_else (some a) d = a

abbrev pub has_text : Option Text → Bool
has_text none = false
has_text (some t) = not (is_empty (trim t))

abbrev pub same_bool : Bool → Bool → Bool
same_bool true b = b
same_bool false b = not b

abbrev pub fits_resolution : Option Text → Option Text → Bool
fits_resolution none b = true
fits_resolution (some a) none = false
fits_resolution (some a) (some b) = eq_ignore_ascii_case a b

module _ {F : Type 0} where
  unfoldable pub check_seconds : VideoOffer F → ℕ → Shaped (Unit {0})
  check_seconds o seconds =
      if not (is_empty o.durations)
      then fail_if (not (any (λ d. d == seconds) o.durations))
          (ShapeRefusal.seconds_not_offered seconds o.durations)
      else fail_if (not (seconds == o.default_seconds))
          (ShapeRefusal.only_seconds o.default_seconds)

  unfoldable pub shape_for : VideoOffer F → VideoParams → Shaped VideoShape
  unfolding check_seconds eq_ignore_ascii_case text_eq
  shape_for o p = do
    let seconds = or_else p.seconds o.default_seconds
    check_seconds o seconds
    resolution ←
        choose eq_ignore_ascii_case o.resolutions ShapeRefusal.no_choice_of_resolution
          ShapeRefusal.resolution_not_offered p.resolution o.default_resolution
    aspect ←
        choose text_eq o.aspect_ratios ShapeRefusal.no_choice_of_aspect
          ShapeRefusal.aspect_not_offered p.aspect_ratio o.default_aspect
    audio ← choose_audio o.audio p.audio
    let from_image = has_text p.from_image
    fail_if (from_image && not o.first_frame) ShapeRefusal.no_first_frame
    ok (record {
      seconds = seconds;
      resolution = resolution;
      aspect_ratio = aspect;
      audio = audio;
      from_image = from_image;
    })

  unfoldable pub default_shape : VideoOffer F → VideoShape
  default_shape o = record {
    seconds = o.default_seconds;
    resolution = o.default_resolution;
    aspect_ratio = o.default_aspect;
    audio = elim o.audio [ AudioOffer.always ↦ true | _ ↦ false ];
    from_image = false;
  }

  unfoldable pub fits : VideoShape → VideoRate F → Bool
  fits shape r = same_bool r.audio shape.audio && fits_resolution r.resolution shape.resolution

module _ (A : FloatApi) where
  -- The step of the fold, and the fold.
  unfoldable pub dearer : Option (VideoRate A.F) → VideoRate A.F → Option (VideoRate A.F)
  dearer none r = some r
  dearer (some m) r = if A.le r.usd_per_second m.usd_per_second then some m else some r

  unfoldable pub dearest_from :
      Option (VideoRate A.F) → List (VideoRate A.F) → Option (VideoRate A.F)
  unfolding dearer
  dearest_from m [] = m
  dearest_from m (r ∷ rs) = dearest_from (dearer m r) rs

  unfoldable pub dearest : List (VideoRate A.F) → Option (VideoRate A.F)
  unfolding dearest_from
  dearest rs = dearest_from none rs

  unfoldable pub rate_for : VideoOffer A.F → VideoShape → Option (VideoRate A.F)
  unfolding dearest fits
  rate_for o shape =
      let fitting = filter (fits shape) o.rates in
      elim (dearest (filter (λ r. same_bool r.from_image shape.from_image) fitting)) [
        | some exact ↦ some exact
        | none ↦ dearest fitting
      ]

  unfoldable pub quote_usd : VideoOffer A.F → VideoShape → Option A.F
  unfolding rate_for ceil_cents
  quote_usd o shape = elim (rate_for o shape) [
    | some rate ↦ some (
        ceil_cents A (A.max_of (A.mul rate.usd_per_second (A.of_ℕ shape.seconds)) rate.minimum_usd))
    | none ↦ none
  ]
