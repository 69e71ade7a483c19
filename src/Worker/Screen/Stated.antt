-- ===== src/Worker/Screen/Stated.antt =====
-- crates/rootmode-worker/src/screen.rs: when a run of digits is the age of a minor, said by the texts
-- that may stand before it and behind it.
use rootmode.Prelude.{
  ℕ, ◌≤◌, ◌≡◌, ◌⊎◌, ◌↔◌, refl, sym, ap, subst, arith, Bool, true, false, ◌&&◌, ◌||◌, Bool-cases,
  inl, inr, [], ◌∷◌, ◌++◌, length, all, ltb, leb, ◌==◌,
}
use rootmode.Prelude.Sort.{Any}
use rootmode.Prelude.Text.{Text, text, text_eq}
use rootmode.Prelude.Strings.{starts_with, ends_with, trim_start_by, trim_end_by}
use rootmode.Worker.Screen.Trims.{
  Begins, Ends, starts_with-parts, starts_with-append, first_word_iff, last_word_iff,
}
use rootmode.Worker.Screen.{is_digit, is_joint, digits_value, is_age}

-- One digit, or two of which the first is 0, or 10 to 17.
abbrev pub IsMinor : Text → Type 0
IsMinor run =
    ((c : ℕ) × (run ≡ c ∷ []))
    ⊎ ((d : ℕ) × (run ≡ 48 ∷ d ∷ []))
    ⊎ ((d : ℕ) × (run ≡ 49 ∷ d ∷ []) × (d ≤ 55))

abbrev pub SaysAge : Text → Type 0
SaysAge t = Any (Begins t) (text "yo" ∷ text "y/o" ∷ text "yr" ∷ text "year" ∷ [])

abbrev pub IsCalledAge : Text → Type 0
IsCalledAge t = Any (Ends t) (text "age" ∷ text "aged" ∷ text "age of" ∷ text "old" ∷ [])

either_iff :
    {P Q : Type 0} {a b : Bool} → ((a ≡ true) ↔ P) → ((b ≡ true) ↔ Q) → ((a || b) ≡ true) ↔ (P ⊎ Q)
either_iff {a = true} f g = (λ e. inl (f.0 refl), λ h. refl)
either_iff {a = false} f g =
    (λ e. inr (g.0 e), λ h. elim h [ inl p ↦ absurd (cc (f.1 p)) | inr q ↦ g.1 q ])

last_iff : {P : Type 0} {a : Bool} → ((a ≡ true) ↔ P) → (a ≡ true) ↔ (P ⊎ ⊥)
last_iff f = (λ e. inl (f.0 e), λ h. elim h [ inl p ↦ f.1 p | inr n ↦ absurd n ])

minor_iff :
    (run : Text)
    → all is_digit run ≡ true
    → ((leb 1 (length run) && leb (length run) 2 && ltb (digits_value 0 run) 18) ≡ true)
      ↔ IsMinor run
minor_iff [] h = (
  λ e. absurd (cc e),
  λ m. elim m [
    | inl a ↦ absurd (cc a.1)
    | inr b ↦ elim b [ inl a ↦ absurd (cc a.1) | inr a ↦ absurd (cc a.1) ]
  ],
)
minor_iff (c ∷ []) h = (λ e. inl (c, refl), λ m. ground arith)
minor_iff (c ∷ d ∷ []) h = (
  λ e. elim (Bool-cases (c == 48)) [
    | inl z ↦ let same : c ≡ 48 = ground arith in inr (inl (d, ap (λ x. x ∷ d ∷ []) same))
    | inr other ↦
        let same : c ≡ 49 = ground arith in
        let small : d ≤ 55 = ground arith in inr (inr (d, ap (λ x. x ∷ d ∷ []) same, small))
  ],
  λ m. ground arith,
)
minor_iff (c ∷ d ∷ e ∷ run) h = (
  λ k. absurd (ground arith),
  λ m. elim m [
    | inl a ↦ absurd (cc a.1)
    | inr b ↦ elim b [ inl a ↦ absurd (cc a.1) | inr a ↦ absurd (cc a.1) ]
  ],
)

four_iff :
    {P Q R S : Type 0} {a b c d : Bool}
    → ((a ≡ true) ↔ P)
    → ((b ≡ true) ↔ Q)
    → ((c ≡ true) ↔ R)
    → ((d ≡ true) ↔ S)
    → ((a || b || c || d) ≡ true) ↔ (P ⊎ Q ⊎ R ⊎ S ⊎ ⊥)
four_iff {P} {Q} {R} {S} {a} {b} {c} {d} f g h k =
    subst (λ x. (x ≡ true) ↔ (P ⊎ Q ⊎ R ⊎ S ⊎ ⊥)) (nested a b c)
      (either_iff f (either_iff g (either_iff h (last_iff k))))
  where
    nested : (a b c : Bool) → (a || (b || (c || d))) ≡ (a || b || c || d)
    nested true b c = refl
    nested false true c = refl
    nested false false c = refl

-- A text that begins with "years old" begins with "year".
years_old :
    (t : Text) → starts_with t (text "years old") ≡ true → starts_with t (text "year") ≡ true
years_old t e =
    let (rest, h) = starts_with-parts t (text "years old") e in
    subst (λ u. starts_with u (text "year") ≡ true) (sym h)
      (starts_with-append (text "year") (text "s old" ++ rest))

says_iff :
    (after : Text)
    → let rest = trim_start_by is_joint after in
      ((starts_with rest (text "yo")
          || starts_with rest (text "y/o")
          || starts_with rest (text "yr")
          || starts_with rest (text "year")
          || starts_with rest (text "years old"))
        ≡ true)
      ↔ SaysAge after
unfolding text_eq
says_iff after =
    let rest = trim_start_by is_joint after in
    let four =
      four_iff (first_word_iff after 121 (111 ∷ []) refl)
        (first_word_iff after 121 (47 ∷ 111 ∷ []) refl) (first_word_iff after 121 (114 ∷ []) refl)
        (first_word_iff after 121 (101 ∷ 97 ∷ 114 ∷ []) refl) in
    (
      λ e. four.0 (
          shorter
            (starts_with rest (text "yo")
              || starts_with rest (text "y/o")
              || starts_with rest (text "yr"))
            (starts_with rest (text "year")) (starts_with rest (text "years old")) (years_old rest)
            e),
      λ h. longer _ (starts_with rest (text "years old")) (four.1 h),
    )
  where
    shorter : (x d e : Bool) → (e ≡ true → d ≡ true) → (x || d || e) ≡ true → (x || d) ≡ true
    shorter x d e h k = ground arith

    longer : (x e : Bool) → x ≡ true → (x || e) ≡ true
    longer x e h = ground arith

called_iff :
    (before : Text)
    → let prior = trim_end_by is_joint before in
      ((ends_with prior (text "age")
          || ends_with prior (text "aged")
          || ends_with prior (text "age of")
          || ends_with prior (text "old"))
        ≡ true)
      ↔ IsCalledAge before
unfolding text_eq
called_iff before =
    four_iff (last_word_iff before (97 ∷ 103 ∷ []) 101 refl)
      (last_word_iff before (97 ∷ 103 ∷ 101 ∷ []) 100 refl)
      (last_word_iff before (97 ∷ 103 ∷ 101 ∷ 32 ∷ 111 ∷ []) 102 refl)
      (last_word_iff before (111 ∷ 108 ∷ []) 100 refl)

both_iff :
    {M P Q : Type 0} {one s c : Bool} (x y : Bool)
    → one ≡ true
    → ((one && x && y) ≡ true) ↔ M
    → ((s ≡ true) ↔ P)
    → ((c ≡ true) ↔ Q)
    → ((x && y && (s || c)) ≡ true) ↔ (M × (P ⊎ Q))
both_iff {M} {P} {Q} {one} {s} {c} x y h m p q = (forth, back)
  where
    forth : (x && y && (s || c)) ≡ true → M × (P ⊎ Q)
    forth e =
        let low : (one && x && y) ≡ true = ground arith in
        let said : (s || c) ≡ true = ground arith in (m.0 low, (either_iff p q).0 said)

    back : M × (P ⊎ Q) → (x && y && (s || c)) ≡ true
    back (low, said) = ground (arith, m.1 low, (either_iff p q).1 said)

-- What is_age decides of a run of digits.
pub is_age_iff :
    (before run after : Text)
    → all is_digit run ≡ true
    → leb 1 (length run) ≡ true
    → (is_age before run after ≡ true) ↔ (IsMinor run × (SaysAge after ⊎ IsCalledAge before))
unfolding is_age
is_age_iff before run after digits some_digit =
    both_iff (leb (length run) 2) (ltb (digits_value 0 run) 18) some_digit (minor_iff run digits)
      (says_iff after) (called_iff before)
