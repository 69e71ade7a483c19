-- ===== src/Worker/Screen/Trims.antt =====
-- crates/rootmode-worker/src/screen.rs: a word at the start or at the end of a text, but for hyphens,
-- spaces and underscores.
use rootmode.Prelude.{
  ℕ, ◌≡◌, ◌⊎◌, ◌↔◌, refl, sym, ap, subst, ◌∙◌, arith, true, false, Bool-cases, inl, inr, [], ◌∷◌,
  ◌++◌, append_assoc, if◌then◌else◌,
}
use rootmode.Prelude.Text.{Text, text_eq, text_eq_iff}
use rootmode.Prelude.Strings.{starts_with, ends_with, trim_start_by, trim_end_by}
use rootmode.Worker.Screen.{is_joint}

-- A hyphen, a space or an underscore.
abbrev pub IsJoint : ℕ → Type 0
IsJoint c = (c ≡ 45) ⊎ (c ≡ 32) ⊎ (c ≡ 95)

abbrev pub AreJoints : Text → Type 0
AreJoints [] = Unit
AreJoints (c ∷ t) = IsJoint c × AreJoints t

-- The text begins with the word, but for some joints, and ends with it, but for some joints.
pub record Begins (t word : Text) : Type 0 where
  pub gap : Text
  pub rest : Text
  pub parts : t ≡ gap ++ (word ++ rest)
  pub joints : AreJoints gap

pub record Ends (t word : Text) : Type 0 where
  pub start : Text
  pub gap : Text
  pub parts : t ≡ start ++ (word ++ gap)
  pub joints : AreJoints gap

is_joint_iff : (c : ℕ) → (is_joint c ≡ true) ↔ IsJoint c
unfolding text_eq
is_joint_iff c = ground arith

pub starts_with-parts : (t p : Text) → starts_with t p ≡ true → (rest : Text) × (t ≡ p ++ rest)
unfolding starts_with
starts_with-parts t [] e = (t, refl)
starts_with-parts [] (c ∷ p) e = absurd (cc e)
starts_with-parts (d ∷ t) (c ∷ p) e =
    let same : d ≡ c = ground arith in
    let tail : starts_with t p ≡ true = ground arith in
    let (rest, h) = starts_with-parts t p tail in (rest, cc (same, h))

pub starts_with-append : (p rest : Text) → starts_with (p ++ rest) p ≡ true
unfolding starts_with
starts_with-append [] rest = refl
starts_with-append (c ∷ p) rest = ground (arith, starts_with-append p rest)

ends_with-parts : (t p : Text) → ends_with t p ≡ true → (start : Text) × (t ≡ start ++ p)
unfolding ends_with
ends_with-parts [] p e = ([], (text_eq_iff [] p).0 e)
ends_with-parts (c ∷ t) p e = elim (Bool-cases (text_eq (c ∷ t) p)) [
  | inl same ↦ ([], (text_eq_iff (c ∷ t) p).0 same)
  | inr other ↦
      let tail : ends_with t p ≡ true = ground arith in
      let (start, h) = ends_with-parts t p tail in (c ∷ start, ap (λ u. c ∷ u) h)
]

ends_with-append : (start p : Text) → ends_with (start ++ p) p ≡ true
unfolding ends_with
ends_with-append [] [] = (text_eq_iff [] []).1 refl
ends_with-append [] (c ∷ p) = rw ((text_eq_iff (c ∷ p) (c ∷ p)).1 refl) refl
ends_with-append (c ∷ start) p = ground (arith, ends_with-append start p)

trim_start_parts : (t : Text) → (gap : Text) × (t ≡ gap ++ trim_start_by is_joint t) × AreJoints gap
trim_start_parts [] = ([], refl, tt)
trim_start_parts (c ∷ t) = elim (Bool-cases (is_joint c)) [
  | inl joint ↦
      let (gap, e, joints) = trim_start_parts t in
      (c ∷ gap, rw joint (ap (λ u. c ∷ u) e), ((is_joint_iff c).0 joint, joints))
  | inr other ↦ ([], rw other refl, tt)
]

trim_start_gap :
    (gap u : Text) → AreJoints gap → trim_start_by is_joint (gap ++ u) ≡ trim_start_by is_joint u
trim_start_gap [] u h = refl
trim_start_gap (c ∷ gap) u h = rw ((is_joint_iff c).1 h.0) (trim_start_gap gap u h.1)

-- A step of the trimming at the end, on what is left of the rest.
abbrev kept : ℕ → Text → Text
kept c [] = if is_joint c then [] else c ∷ []
kept c (d ∷ u) = c ∷ d ∷ u

trim_end_step : (c : ℕ) (t : Text) → trim_end_by is_joint (c ∷ t) ≡ kept c (trim_end_by is_joint t)
trim_end_step c t = go (trim_end_by is_joint t)
  where
    go :
        (r : Text)
        → (elim r [ [] ↦ (if is_joint c then [] else c ∷ []) | d ∷ u ↦ c ∷ d ∷ u ]) ≡ kept c r
    go [] = refl
    go (d ∷ u) = refl

trim_end_parts : (t : Text) → (gap : Text) × (t ≡ trim_end_by is_joint t ++ gap) × AreJoints gap
trim_end_parts [] = ([], refl, tt)
trim_end_parts (c ∷ t) =
    let (gap, e, joints) = trim_end_parts t in
    let (more, h, all_joints) = go (trim_end_by is_joint t) gap e joints in
    (more, h ∙ ap (λ u. u ++ more) (sym (trim_end_step c t)), all_joints)
  where
    go :
        (r gap : Text)
        → t ≡ r ++ gap
        → AreJoints gap
        → (more : Text) × (c ∷ t ≡ kept c r ++ more) × AreJoints more
    go (d ∷ u) gap e joints = (gap, ap (λ v. c ∷ v) e, joints)
    go [] gap e joints = elim (Bool-cases (is_joint c)) [
      | inl joint ↦ (c ∷ gap, rw joint (ap (λ v. c ∷ v) e), ((is_joint_iff c).0 joint, joints))
      | inr other ↦ (gap, rw other (ap (λ v. c ∷ v) e), joints)
    ]

trim_end_joints : (gap : Text) → AreJoints gap → trim_end_by is_joint gap ≡ []
trim_end_joints [] h = refl
trim_end_joints (c ∷ gap) h =
    trim_end_step c gap ∙ ap (kept c) (trim_end_joints gap h.1) ∙ rw ((is_joint_iff c).1 h.0) refl

trim_end_gap :
    (t : Text) (c : ℕ) (gap : Text)
    → is_joint c ≡ false
    → AreJoints gap
    → trim_end_by is_joint (t ++ c ∷ gap) ≡ t ++ c ∷ []
trim_end_gap [] c gap h g = trim_end_step c gap ∙ ap (kept c) (trim_end_joints gap g) ∙ rw h refl
trim_end_gap (a ∷ t) c gap h g =
    trim_end_step a (t ++ c ∷ gap) ∙ ap (kept a) (trim_end_gap t c gap h g) ∙ longer t
  where
    longer : (t : Text) → kept a (t ++ c ∷ []) ≡ a ∷ (t ++ c ∷ [])
    longer [] = refl
    longer (d ∷ t) = refl

-- A word whose first letter, or last letter, is no joint.
pub first_word_iff :
    (t : Text) (c : ℕ) (w : Text)
    → is_joint c ≡ false
    → (starts_with (trim_start_by is_joint t) (c ∷ w) ≡ true) ↔ Begins t (c ∷ w)
first_word_iff t c w plain = (forth, back)
  where
    forth : starts_with (trim_start_by is_joint t) (c ∷ w) ≡ true → Begins t (c ∷ w)
    forth e =
        let (gap, h, joints) = trim_start_parts t in
        let (rest, k) = starts_with-parts (trim_start_by is_joint t) (c ∷ w) e in
        record { gap = gap; rest = rest; parts = h ∙ ap (λ u. gap ++ u) k; joints = joints }

    back : Begins t (c ∷ w) → starts_with (trim_start_by is_joint t) (c ∷ w) ≡ true
    back h =
        let trimmed : trim_start_by is_joint t ≡ c ∷ (w ++ h.rest) =
          ap (trim_start_by is_joint) h.parts
          ∙ trim_start_gap h.gap (c ∷ (w ++ h.rest)) h.joints
          ∙ rw plain refl in
        subst (λ u. starts_with u (c ∷ w) ≡ true) (sym trimmed) (starts_with-append (c ∷ w) h.rest)

pub last_word_iff :
    (t w : Text) (c : ℕ)
    → is_joint c ≡ false
    → (ends_with (trim_end_by is_joint t) (w ++ c ∷ []) ≡ true) ↔ Ends t (w ++ c ∷ [])
last_word_iff t w c plain = (forth, back)
  where
    forth : ends_with (trim_end_by is_joint t) (w ++ c ∷ []) ≡ true → Ends t (w ++ c ∷ [])
    forth e =
        let (gap, h, joints) = trim_end_parts t in
        let (start, k) = ends_with-parts (trim_end_by is_joint t) (w ++ c ∷ []) e in
        record {
          start = start;
          gap = gap;
          parts = h ∙ ap (λ u. u ++ gap) k ∙ append_assoc start (w ++ c ∷ []) gap;
          joints = joints;
        }

    back : Ends t (w ++ c ∷ []) → ends_with (trim_end_by is_joint t) (w ++ c ∷ []) ≡ true
    back h =
        let laid_out : t ≡ (h.start ++ w) ++ c ∷ h.gap =
          h.parts
          ∙ ap (λ u. h.start ++ u) (append_assoc w (c ∷ []) h.gap)
          ∙ sym (append_assoc h.start w (c ∷ h.gap)) in
        let trimmed : trim_end_by is_joint t ≡ h.start ++ (w ++ c ∷ []) =
          ap (trim_end_by is_joint) laid_out
          ∙ trim_end_gap (h.start ++ w) c h.gap plain h.joints
          ∙ append_assoc h.start w (c ∷ []) in
        subst (λ u. ends_with u (w ++ c ∷ []) ≡ true) (sym trimmed)
          (ends_with-append h.start (w ++ c ∷ []))
