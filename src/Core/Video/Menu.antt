-- ===== src/Core/Video/Menu.antt =====
-- crates/rootmode-core/src/protocol.rs: a shape that a request resolves to is on the menu.
use rootmode.Prelude.{
  ℕ, ◌≡◌, refl, Bool, true, false, not, ◌&&◌, Option, none, some, List, [], ◌∷◌, is_empty, any,
  ◌==◌, Bool-cases, inl, inr, sym, subst, arith, if◌then◌else◌, ◌⊎◌,
}
use rootmode.Prelude.Text.{Text, text_eq, text_eq_iff, eq_ignore_ascii_case}
use rootmode.Prelude.Result.{Result, ok, err, >>=-ok, fail_if, >>-ok, ok_inj}
use rootmode.Core.Job.{VideoParams}
use rootmode.Core.Video.{
  AudioOffer, VideoOffer, VideoShape, ShapeRefusal, shape_for, check_seconds, choose, choose_audio,
  find, has_text, or_else,
}

-- The length is one of those on offer, or the only one.
abbrev pub HasSeconds : {F : Type 0} → VideoOffer F → ℕ → Type 0
HasSeconds o n =
    ((is_empty o.durations ≡ false) × (any (λ d. d == n) o.durations ≡ true))
    ⊎ ((is_empty o.durations ≡ true) × (n ≡ o.default_seconds))

-- What was asked for, in the menu's own spelling, or the default.
abbrev pub IsChosen :
    (Text → Text → Bool) → List Text → Option Text → Option Text → Option Text → Type 0
IsChosen same menu none default chosen = chosen ≡ default
IsChosen same menu (some want) default chosen =
    (r : Text) × (chosen ≡ some r) × (same r want ≡ true) × (any (text_eq r) menu ≡ true)

abbrev pub HasAudio : AudioOffer → Option Bool → Bool → Type 0
HasAudio AudioOffer.never asked audio = (audio ≡ false) × ((b : Bool) → asked ≡ some b → b ≡ false)
HasAudio AudioOffer.always asked audio = (audio ≡ true) × ((b : Bool) → asked ≡ some b → b ≡ true)
HasAudio AudioOffer.optional asked audio = audio ≡ or_else asked false

pub record IsOnMenu {F : Type 0} (o : VideoOffer F) (p : VideoParams) (s : VideoShape)
    : Type 0 where
  pub seconds : HasSeconds o s.seconds
  pub asked_seconds : s.seconds ≡ or_else p.seconds o.default_seconds
  pub resolution :
      IsChosen eq_ignore_ascii_case o.resolutions p.resolution o.default_resolution s.resolution
  pub aspect : IsChosen text_eq o.aspect_ratios p.aspect_ratio o.default_aspect s.aspect_ratio
  pub audio : HasAudio o.audio p.audio s.audio
  pub picture : (s.from_image ≡ has_text p.from_image) × (s.from_image && not o.first_frame ≡ false)

find_lem :
    (p : Text → Bool) (xs : List Text) (r : Text)
    → find p xs ≡ some r
    → (p r ≡ true) × (any (text_eq r) xs ≡ true)
find_lem p [] r e = cc
find_lem p (x ∷ xs) r e = ground (arith, find_lem p xs r, text_eq_iff r x)

choose-IsChosen :
    (same : Text → Text → Bool) (menu : List Text) (empty : ShapeRefusal)
    (refusal : Text → List Text → ShapeRefusal) (asked default chosen : Option Text)
    → choose same menu empty refusal asked default ≡ ok chosen
    → IsChosen same menu asked default chosen
choose-IsChosen same menu empty refusal none default chosen e = sym (ok_inj e)
choose-IsChosen same menu empty refusal (some want) default chosen e =
    found (find (λ r. same r want) menu) refl e
  where
    answer : Option Text → Result ShapeRefusal (Option Text)
    answer f = elim f [
      | some r ↦ ok (some r)
      | none ↦ err (if is_empty menu then empty else refusal want menu)
    ]

    found :
        (f : Option Text)
        → find (λ r. same r want) menu ≡ f
        → answer f ≡ ok chosen
        → IsChosen same menu (some want) default chosen
    found none q h = cc
    found (some r) q h =
        let (fits, on_menu) = find_lem (λ r. same r want) menu r q in
        (r, sym (ok_inj h), fits, on_menu)

choose_audio-HasAudio :
    (offer : AudioOffer) (asked : Option Bool) (audio : Bool)
    → choose_audio offer asked ≡ ok audio
    → HasAudio offer asked audio
choose_audio-HasAudio AudioOffer.never none audio e = (cc, (λ b h. cc))
choose_audio-HasAudio AudioOffer.never (some true) audio e = cc
choose_audio-HasAudio AudioOffer.never (some false) audio e = (cc, (λ b h. cc))
choose_audio-HasAudio AudioOffer.always none audio e = (cc, (λ b h. cc))
choose_audio-HasAudio AudioOffer.always (some true) audio e = (cc, (λ b h. cc))
choose_audio-HasAudio AudioOffer.always (some false) audio e = cc
choose_audio-HasAudio AudioOffer.optional none audio e = cc
choose_audio-HasAudio AudioOffer.optional (some b) audio e = cc

check_seconds-HasSeconds :
    {F : Type 0} (o : VideoOffer F) (n : ℕ) → check_seconds o n ≡ ok tt → HasSeconds o n
unfolding check_seconds
check_seconds-HasSeconds o n e = elim (Bool-cases (is_empty o.durations)) [
  | inl h ↦ inr (h, ground arith)
  | inr h ↦ inl (h, ground arith)
]

module _ {F : Type 0} where
  -- A shape that shape_for resolves a request to has the length that was asked for or the
  -- default one, and that is on offer; its resolution and aspect ratio are those of the menu
  -- that match what was asked for, or the defaults where nothing was; its sound is what the
  -- offer allows and never the opposite of what was asked for; and it starts from a picture
  -- only if the request has one and the offer takes one.
  pub shape_for-IsOnMenu :
      (o : VideoOffer F) (p : VideoParams) (s : VideoShape) → shape_for o p ≡ ok s → IsOnMenu o p s
  unfolding shape_for
  shape_for-IsOnMenu o p s e =
      let n = or_else p.seconds o.default_seconds in
      let (h0, e0) = >>-ok (check_seconds o n) _ e in
      let (r, h1, e1) =
        >>=-ok
          (choose eq_ignore_ascii_case o.resolutions ShapeRefusal.no_choice_of_resolution
            ShapeRefusal.resolution_not_offered p.resolution o.default_resolution)
          _ e0 in
      let (a, h2, e2) =
        >>=-ok
          (choose text_eq o.aspect_ratios ShapeRefusal.no_choice_of_aspect
            ShapeRefusal.aspect_not_offered p.aspect_ratio o.default_aspect)
          _ e1 in
      let (b, h3, e3) = >>=-ok (choose_audio o.audio p.audio) _ e2 in
      let (h4, e4) =
        >>-ok (fail_if (has_text p.from_image && not o.first_frame) ShapeRefusal.no_first_frame) _
          e3 in
      subst (λ k. IsOnMenu o p k) (ok_inj e4)
        (record {
          seconds = check_seconds-HasSeconds o n h0;
          asked_seconds = refl;
          resolution =
              choose-IsChosen eq_ignore_ascii_case o.resolutions
                ShapeRefusal.no_choice_of_resolution ShapeRefusal.resolution_not_offered
                p.resolution o.default_resolution r h1;
          aspect =
              choose-IsChosen text_eq o.aspect_ratios ShapeRefusal.no_choice_of_aspect
                ShapeRefusal.aspect_not_offered p.aspect_ratio o.default_aspect a h2;
          audio = choose_audio-HasAudio _ _ _ h3;
          picture = (refl, ground (arith, h4));
        })
