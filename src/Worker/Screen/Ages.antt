-- ===== src/Worker/Screen/Ages.antt =====
-- The loop of states_a_minor_age in screen.rs against the runs of digits of the text.
use rootmode.Prelude.{
  ℕ, zero, suc, ◌≤◌, ◌≡◌, ◌↔◌, refl, sym, ap, subst, ◌∙◌, arith, Bool, true, false, Bool-cases, leb,
  ◌⊎◌, inl, inr, [], ◌∷◌, ◌++◌, length, all, length-append, append_assoc, append_nil, if◌then◌else◌,
}
use rootmode.Prelude.Text.{Text}
use rootmode.Worker.Screen.Stated.{IsMinor, SaysAge, IsCalledAge, is_age_iff}
use rootmode.Worker.Screen.{
  is_digit, is_age, digits_of, behind_digits, age_loop, states_a_minor_age,
}

abbrev starts_digit : Text → Bool
starts_digit [] = false
starts_digit (c ∷ t) = is_digit c

abbrev ends_digit : Text → Bool
ends_digit [] = false
ends_digit (c ∷ []) = is_digit c
ends_digit (c ∷ d ∷ t) = ends_digit (d ∷ t)

-- Behind some text, another contains a whole run of digits that is an age.
record HasRun (before rest : Text) : Type 0 where
  pub pre : Text
  pub run : Text
  pub post : Text
  pub parts : rest ≡ pre ++ (run ++ post)
  pub digits : all is_digit run ≡ true
  pub starts : starts_digit run ≡ true
  pub open_before : ends_digit (before ++ pre) ≡ false
  pub open_behind : starts_digit post ≡ false
  pub aged : is_age (before ++ pre) run post ≡ true

digits_parts : (t : Text) → t ≡ digits_of t ++ behind_digits t
digits_parts [] = refl
digits_parts (c ∷ t) = elim (Bool-cases (is_digit c)) [
  | inl digit ↦ rw digit (ap (λ u. c ∷ u) (digits_parts t))
  | inr other ↦ rw other refl
]

digits_all : (t : Text) → all is_digit (digits_of t) ≡ true
digits_all [] = refl
digits_all (c ∷ t) = elim (Bool-cases (is_digit c)) [
  | inl digit ↦ rw (digit, digits_all t) (ground arith)
  | inr other ↦ rw other refl
]

behind_open : (t : Text) → starts_digit (behind_digits t) ≡ false
behind_open [] = refl
behind_open (c ∷ t) = elim (Bool-cases (is_digit c)) [
  | inl digit ↦ rw digit (behind_open t)
  | inr other ↦ rw other other
]

length-behind_digits : (t : Text) → length (behind_digits t) ≤ length t
length-behind_digits t =
    omega (arith, ap length (digits_parts t), length-append (digits_of t) (behind_digits t))

ends_last : (b : Text) (c : ℕ) (p : Text) → ends_digit (b ++ c ∷ p) ≡ ends_digit (c ∷ p)
ends_last [] c p = refl
ends_last (a ∷ []) c p = refl
ends_last (a ∷ d ∷ b) c p = ends_last (d ∷ b) c p

-- Where a whole run stands in front, it is what the inner loop takes.
run_taken :
    (run post : Text)
    → all is_digit run ≡ true
    → starts_digit post ≡ false
    → (digits_of (run ++ post) ≡ run) × (behind_digits (run ++ post) ≡ post)
run_taken [] [] h g = (refl, refl)
run_taken [] (d ∷ post) h g = (rw g refl, rw g refl)
run_taken (c ∷ run) post h g =
    let digit : is_digit c ≡ true = ground arith in
    let (taken, left) = run_taken run post (ground arith) g in
    (rw (digit, taken) refl, rw (digit, left) refl)

-- Where a text that ends in no digit stands in front, the inner loop stays within it.
stays_within :
    (c : ℕ) (p x : Text)
    → ends_digit (c ∷ p) ≡ false
    → (digits_of (c ∷ p ++ x) ≡ digits_of (c ∷ p))
      × (behind_digits (c ∷ p ++ x) ≡ behind_digits (c ∷ p) ++ x)
stays_within c [] x h = (rw h refl, rw h refl)
stays_within c (d ∷ p) x h = elim (Bool-cases (is_digit c)) [
  | inl digit ↦
      let (taken, left) = stays_within d p x h in (rw (digit, taken) refl, rw (digit, left) refl)
  | inr other ↦ (rw other refl, rw other refl)
]

-- A run found behind one more piece of the text is found from before that piece.
HasRun-behind :
    (before piece rest : Text) → HasRun (before ++ piece) rest → HasRun before (piece ++ rest)
HasRun-behind before piece rest h =
    let same = append_assoc before piece h.pre in
    record {
      pre = piece ++ h.pre;
      run = h.run;
      post = h.post;
      parts = ap (λ t. piece ++ t) h.parts ∙ sym (append_assoc piece h.pre (h.run ++ h.post));
      digits = h.digits;
      starts = h.starts;
      open_before = ap ends_digit (sym same) ∙ h.open_before;
      open_behind = h.open_behind;
      aged = ap (λ b. is_age b h.run h.post) (sym same) ∙ h.aged;
    }

-- A round of the outer loop, at another character and at a digit.
skip_round :
    (fuel : ℕ) (before : Text) (c : ℕ) (t : Text)
    → is_digit c ≡ false
    → age_loop (suc fuel) before (c ∷ t) ≡ age_loop fuel (before ++ c ∷ []) t
unfolding age_loop
skip_round fuel before c t other = rw other refl

run_round :
    (fuel : ℕ) (before : Text) (c : ℕ) (t : Text)
    → is_digit c ≡ true
    → age_loop (suc fuel) before (c ∷ t) ≡ (
        if is_age before (digits_of (c ∷ t)) (behind_digits (c ∷ t))
        then true
        else age_loop fuel (before ++ digits_of (c ∷ t)) (behind_digits (c ∷ t)))
unfolding age_loop
run_round fuel before c t digit = rw digit refl

age_loop-HasRun :
    (fuel : ℕ) (before rest : Text)
    → (starts_digit rest ≡ true → ends_digit before ≡ false)
    → age_loop fuel before rest ≡ true
    → HasRun before rest
unfolding age_loop
age_loop-HasRun fuel before [] apart e = absurd (cc e)
age_loop-HasRun zero before (c ∷ t) apart e = absurd (cc e)
age_loop-HasRun (suc fuel) before (c ∷ t) apart e = elim (Bool-cases (is_digit c)) [
  | inr other ↦ HasRun-behind before (c ∷ []) t (
      age_loop-HasRun fuel (before ++ c ∷ []) t (λ h. ends_last before c [] ∙ other)
        (sym (skip_round fuel before c t other) ∙ e))
  | inl digit ↦
      let run = digits_of (c ∷ t) in
      let after = behind_digits (c ∷ t) in
      let round = sym (run_round fuel before c t digit) ∙ e in
      elim (Bool-cases (is_age before run after)) [
        | inl aged ↦ record {
          pre = [];
          run = run;
          post = after;
          parts = digits_parts (c ∷ t);
          digits = digits_all (c ∷ t);
          starts = rw digit digit;
          open_before = ap ends_digit (append_nil before) ∙ apart digit;
          open_behind = behind_open (c ∷ t);
          aged = ap (λ b. is_age b run after) (append_nil before) ∙ aged;
        }
        | inr not_age ↦
            let closed = behind_open (c ∷ t) in
            subst (λ r. HasRun before r) (sym (digits_parts (c ∷ t)))
              (HasRun-behind before run after (
                age_loop-HasRun fuel (before ++ run) after (λ h. absurd (cc (h, closed)))
                  (ground (arith, round, not_age))))
      ]
]

age_found :
    (fuel : ℕ) (before pre run post : Text)
    → length (pre ++ (run ++ post)) ≤ fuel
    → all is_digit run ≡ true
    → starts_digit run ≡ true
    → ends_digit (before ++ pre) ≡ false
    → starts_digit post ≡ false
    → is_age (before ++ pre) run post ≡ true
    → age_loop fuel before (pre ++ (run ++ post)) ≡ true
age_found fuel before [] [] post fits digits starts prior behind aged = absurd (cc starts)
age_found zero before [] (c ∷ run) post fits digits starts prior behind aged = absurd (omega arith)
age_found (suc fuel) before [] (c ∷ run) post fits digits starts prior behind aged =
    let (taken, left) = run_taken (c ∷ run) post digits behind in
    let here = ap (λ b. is_age b (c ∷ run) post) (sym (append_nil before)) ∙ aged in
    run_round fuel before c (run ++ post) starts ∙ rw (taken, left, here) refl
age_found zero before (c ∷ pre) run post fits digits starts prior behind aged = absurd (omega arith)
age_found (suc fuel) before (c ∷ pre) run post fits digits starts prior behind aged =
    elim (Bool-cases (is_digit c)) [
      | inr other ↦
          let same = append_assoc before (c ∷ []) pre in
          skip_round fuel before c (pre ++ (run ++ post)) other
          ∙ age_found fuel (before ++ c ∷ []) pre run post (omega arith) digits starts
              (ap ends_digit same ∙ prior) behind (ap (λ b. is_age b run post) same ∙ aged)
      | inl digit ↦
          let rest = run ++ post in
          let d = digits_of (c ∷ pre) in
          let p = behind_digits (c ∷ pre) in
          let (taken, left) = stays_within c pre rest (sym (ends_last before c pre) ∙ prior) in
          let same =
            append_assoc before d p ∙ ap (λ t. before ++ t) (sym (digits_parts (c ∷ pre))) in
          let shorter : length (p ++ rest) ≤ fuel = rw digit (
            omega (
              arith,
              fits,
              length-append pre rest,
              length-append (behind_digits pre) rest,
              length-behind_digits pre,
            )) in
          let next =
            age_found fuel (before ++ d) p run post shorter digits starts
              (ap ends_digit same ∙ prior) behind (ap (λ b. is_age b run post) same ∙ aged) in
          run_round fuel before c (pre ++ rest) digit
          ∙ rw (taken, left, next) (either (is_age before d (p ++ rest)))
    ]
  where
    either : (b : Bool) → (if b then true else true) ≡ true
    either true = refl
    either false = refl

-- A text contains a whole run of digits that is a number below 18, and is said to be an age by what
-- is right behind it or right before it.
pub record HasAge (t : Text) : Type 0 where
  pub pre : Text
  pub run : Text
  pub post : Text
  pub parts : t ≡ pre ++ (run ++ post)
  pub digits : all is_digit run ≡ true
  pub open_before : ends_digit pre ≡ false
  pub open_behind : starts_digit post ≡ false
  pub minor : IsMinor run
  pub said : SaysAge post ⊎ IsCalledAge pre

-- states_a_minor_age is true of a text exactly when the text has a whole run of digits, with no
-- digit right before or behind it, such that the run is one digit, or two of which the first is
-- 0, or 10 to 17, and, but for hyphens, spaces and underscores, the text behind it begins with
-- yo, y/o, yr or year, or the text before it ends with age, aged, age of or old. The words need
-- not stand alone: they may begin or end a longer one.
pub states_a_minor_age-HasAge : (t : Text) → (states_a_minor_age t ≡ true) ↔ HasAge t
unfolding states_a_minor_age
states_a_minor_age-HasAge t = (λ e. forth (age_loop-HasRun (length t) [] t (λ h. refl) e), back)
  where
    nonempty : (run : Text) → starts_digit run ≡ true → leb 1 (length run) ≡ true
    nonempty [] e = absurd (cc e)
    nonempty (c ∷ run) e = ground arith

    starting :
        (run : Text)
        → all is_digit run ≡ true
        → IsMinor run
        → (starts_digit run ≡ true) × (leb 1 (length run) ≡ true)
    starting [] h m = elim m [
      | inl a ↦ absurd (cc a.1)
      | inr b ↦ elim b [ inl a ↦ absurd (cc a.1) | inr a ↦ absurd (cc a.1) ]
    ]
    starting (c ∷ run) h m = (ground arith, ground arith)

    forth : HasRun [] t → HasAge t
    forth h =
        let (minor, said) =
          (is_age_iff h.pre h.run h.post h.digits (nonempty h.run h.starts)).0 h.aged in
        record {
          pre = h.pre;
          run = h.run;
          post = h.post;
          parts = h.parts;
          digits = h.digits;
          open_before = h.open_before;
          open_behind = h.open_behind;
          minor = minor;
          said = said;
        }

    back : HasAge t → age_loop (length t) [] t ≡ true
    back h =
        let (starts, some_digit) = starting h.run h.digits h.minor in
        ap (age_loop (length t) []) h.parts
        ∙ age_found (length t) [] h.pre h.run h.post (omega (arith, ap length h.parts)) h.digits
            starts h.open_before h.open_behind
            ((is_age_iff h.pre h.run h.post h.digits some_digit).1 (h.minor, h.said))
