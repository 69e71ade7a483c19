-- ===== src/Worker/Screen.antt =====
-- crates/rootmode-worker/src/screen.rs: what a worker refuses to run.
pub mod Lists
pub mod Trims
pub mod Stated
pub mod Ages
mod Tests
use rootmode.Prelude.{
  ℕ, zero, suc, ◌+◌, ◌*◌, ◌-◌, Bool, true, false, not, ◌&&◌, ◌||◌, List, [], ◌∷◌, ◌++◌, length, any,
  leb, ltb, map, if◌then◌else◌, is_empty,
}
use rootmode.Prelude.Text.{Text, text, text_eq, to_lowercase}
use rootmode.Prelude.Strings.{trim_start_by, trim_end_by, starts_with, ends_with, contains}
use rootmode.Prelude.Result.{Result, ok, err}
use rootmode.Core.Job.{JobPayload, ChatMessage}
use rootmode.Worker.Screen.Lists.{
  minor, minor_phrases, always, always_phrases, sexual, sexual_phrases,
}

-- What is refused: an unambiguous term, or both signals together.
pub data Refusal : Type 0 where
  unambiguous both_signals : Refusal

-- `is_ascii_digit`
abbrev pub is_digit : ℕ → Bool
is_digit c = leb 48 c && leb c 57

-- `parse::<u32>` of at most two digits.
abbrev pub digits_value : ℕ → Text → ℕ
digits_value acc [] = acc
digits_value acc (c ∷ t) = digits_value (acc * 10 + (c - 48)) t

-- `['-', ' ', '_']`
abbrev is_joint : ℕ → Bool
is_joint c =
    text_eq (c ∷ []) (text "-") || text_eq (c ∷ []) (text " ") || text_eq (c ∷ []) (text "_")

-- What the loop decides at a run of digits, with the text before it and behind it.
unfoldable pub is_age : Text → Text → Text → Bool
unfolding starts_with ends_with text_eq
is_age before run after =
    leb (length run) 2
    && ltb (digits_value 0 run) 18
    && (let rest = trim_start_by is_joint after in
        starts_with rest (text "yo")
        || starts_with rest (text "y/o")
        || starts_with rest (text "yr")
        || starts_with rest (text "year")
        || starts_with rest (text "years old")
        || (let prior = trim_end_by is_joint before in
            ends_with prior (text "age")
            || ends_with prior (text "aged")
            || ends_with prior (text "age of")
            || ends_with prior (text "old")))

-- The inner loop: the digits in front, and what is behind them.
abbrev pub digits_of : Text → Text
digits_of [] = []
digits_of (c ∷ t) = let rest = digits_of t in if is_digit c then c ∷ rest else []

abbrev pub behind_digits : Text → Text
behind_digits [] = []
behind_digits (c ∷ t) = let rest = behind_digits t in if is_digit c then rest else c ∷ t

-- The outer loop, at `text[i..]` with the text before it. A round takes at least one character.
unfoldable pub age_loop : ℕ → Text → Text → Bool
unfolding is_age
age_loop fuel before [] = false
age_loop zero before (c ∷ t) = false
age_loop (suc fuel) before (c ∷ t) =
    let skip = age_loop fuel (before ++ c ∷ []) t in
    let run = digits_of (c ∷ t) in
    let after = behind_digits (c ∷ t) in
    let next = age_loop fuel (before ++ run) after in
    if not (is_digit c) then skip else if is_age before run after then true else next

unfoldable pub states_a_minor_age : Text → Bool
unfolding age_loop
states_a_minor_age t = age_loop (length t) [] t

-- The tables of `char::is_alphanumeric` and of `str::to_lowercase` outside ASCII, which are not part
-- of the repository.
pub record Unicode : Type 0 where
  pub lowercase : Text → Text
  pub alphanumeric : ℕ → Bool

module _ (U : Unicode) where
  unfoldable pub is_alphanumeric : ℕ → Bool
  is_alphanumeric c =
      if ltb c 0x80
      then is_digit c || (leb 65 c && leb c 90) || (leb 97 c && leb c 122)
      else U.alphanumeric c

  -- `split(..)`: the word at the end of `acc` goes on until a character that separates.
  abbrev pub split_words : Text → Text → List Text
  split_words acc [] = acc ∷ []
  split_words acc (c ∷ t) =
      let here = split_words (acc ++ c ∷ []) t in
      let next = split_words [] t in if not (is_alphanumeric c) then acc ∷ next else here

  abbrev pub drop_empty : List Text → List Text
  drop_empty [] = []
  drop_empty (w ∷ ws) = let rest = drop_empty ws in if not (is_empty w) then w ∷ rest else rest

  unfoldable pub words_of : Text → List Text
  unfolding is_alphanumeric
  words_of t = drop_empty (split_words [] t)

  unfoldable pub any_word : List Text → List Text → Bool
  unfolding text_eq
  any_word words list = any (λ w. any (λ l. text_eq l w) list) words

  unfoldable pub any_phrase : Text → List Text → Bool
  unfolding contains
  any_phrase t list = any (λ p. contains t p) list

  -- `join(" ")`
  abbrev pub join_space : List Text → Text
  join_space [] = []
  join_space (t ∷ []) = t
  join_space (t ∷ u ∷ ts) = t ++ text " " ++ join_space (u ∷ ts)

  unfoldable pub screened_text : {F V : Type 0} → JobPayload F V → Text
  unfolding to_lowercase
  screened_text (JobPayload.image p) = to_lowercase U.lowercase p.prompt
  screened_text (JobPayload.video p) = to_lowercase U.lowercase p.prompt
  screened_text (JobPayload.llm p) =
      to_lowercase U.lowercase (join_space (map (λ m. m.content) p.messages))

  unfoldable pub check : {F V : Type 0} → JobPayload F V → Result Refusal (Unit {0})
  unfolding screened_text words_of any_word any_phrase states_a_minor_age
  check payload =
      let t = screened_text payload in
      let words = words_of t in
      let is_minor = any_word words minor || any_phrase t minor_phrases || states_a_minor_age t in
      let is_sexual = any_word words sexual || any_phrase t sexual_phrases in
      if any_word words always || any_phrase t always_phrases
      then err Refusal.unambiguous
      else if is_minor && is_sexual
      then err Refusal.both_signals
      else ok tt
