-- ===== src/Core/Job/Bounds.antt =====
-- What JobPayload::validate of job.rs guarantees of a job that it lets through, and what a summary is.
use rootmode.Prelude.{
  ℕ, zero, suc, ◌≤◌, ◌<◌, ◌≡◌, ◌≢◌, ◌⊎◌, inl, inr, refl, arith, Bool, true, false, Bool-cases, not,
  ◌||◌, List, [], ◌∷◌, ◌++◌, length, length-append, length-take, take, all, is_empty, All, map, ltb,
  ◌==◌, if◌then◌else◌,
}
use rootmode.Prelude.Text.{Text, text, utf8, ascii_lower}
use rootmode.Prelude.Strings.{trim, starts_with, contains}
use rootmode.Prelude.Result.{ok, err, ◌>>◌}
use rootmode.Core.Floats.{FloatApi}
use rootmode.Core.Errors.{Message, CoreResult}
use rootmode.Core.Job.{JobPayload, LlmParams}
use rootmode.Core.Job.Validate.{
  max_image_chars, check_image, invalid_if, each, says_nothing, in_range, validate_llm, validate,
  summary, shown_text,
}

-- An image that travels with the message: bytes or a data URL, no link, and not too long.
pub record IsInline (image : Text) : Type 0 where
  pub present : is_empty (trim image) ≡ false
  pub no_link :
      (starts_with (map ascii_lower (trim image)) (text "data:") ≡ true)
      ⊎ (contains (map ascii_lower (trim image)) (text "://") ≡ false)
  pub fits : length (utf8 (trim image)) ≤ max_image_chars

check_image-IsInline : (image : Text) → check_image image ≡ ok tt → IsInline image
unfolding check_image
check_image-IsInline image h = record {
  present = ground arith;
  no_link = ground arith;
  fits = ground arith;
}

-- Where two checks pass, each of them does.
both_pass : (m k : CoreResult (Unit {0})) → (m >> k) ≡ ok tt → (m ≡ ok tt) × (k ≡ ok tt)
both_pass (ok u) k h = (refl, h)
both_pass (err e) k h = absurd (cc h)

invalid_if-passes : (b : Bool) (m : Message) → invalid_if b m ≡ ok tt → b ≡ false
invalid_if-passes true m h = absurd (cc h)
invalid_if-passes false m h = refl

each-All :
    {A : Type 0} (f : A → CoreResult (Unit {0})) (l : List A)
    → each f l ≡ ok tt
    → All (λ a. f a ≡ ok tt) l
each-All f [] h = tt
each-All f (a ∷ l) h = let (here, rest) = both_pass (f a) (each f l) h in (here, each-All f l rest)

weaken-All :
    {A : Type 0} (P Q : A → Type 0) (l : List A) → ((a : A) → P a → Q a) → All P l → All Q l
weaken-All P Q [] f h = tt
weaken-All P Q (a ∷ l) f h = (f a h.0, weaken-All P Q l f h.1)

module _ (A : FloatApi) {V : Type 0} where
  -- A chat that is worth sending, and within the bounds.
  pub record IsSendable (p : LlmParams A.F V) : Type 0 where
    pub has_prompt : all says_nothing p.messages ≡ false
    pub images : All (λ m. All IsInline m.images) p.messages
    pub tools : All (λ t. is_empty (trim t.name) ≡ false) p.tools
    pub some_tokens : 0 < p.max_tokens
    pub max_tokens : p.max_tokens ≤ 131072
    pub temperature : in_range A 2 p.temperature ≡ true

  -- A chat job that validate lets through has a message that says something, asks for 1 to
  -- 131072 tokens at a temperature from 0 to 2, names each of its tools, and carries only
  -- images that are not blank, that are no link unless they are a data URL, and that have at
  -- most the allowed number of bytes.
  pub validate-IsSendable :
      (p : LlmParams A.F V) → validate A (JobPayload.llm p) ≡ ok tt → IsSendable p
  unfolding validate validate_llm
  validate-IsSendable p h =
      let (_, h1) = both_pass (invalid_if (is_empty p.messages) Message.no_messages) _ h in
      let (prompt, h2) =
        both_pass (invalid_if (all says_nothing p.messages) Message.no_prompt_text) _ h1 in
      let (images, h3) = both_pass (each (λ m. each check_image m.images) p.messages) _ h2 in
      let (tools, h4) =
        both_pass (each (λ t. invalid_if (is_empty (trim t.name)) Message.tool_unnamed) p.tools) _
          h3 in
      let (tokens, h5) =
        both_pass
          (invalid_if (p.max_tokens == 0 || ltb 131072 p.max_tokens) Message.max_tokens_range) _
          h4 in
      let (temperature, _) =
        both_pass (invalid_if (not (in_range A 2 p.temperature)) Message.temperature_range) _ h5 in
      let bounds = invalid_if-passes _ Message.max_tokens_range tokens in
      record {
        has_prompt = invalid_if-passes _ Message.no_prompt_text prompt;
        images =
            weaken-All _ _ p.messages
              (λ m e.
                weaken-All _ _ m.images check_image-IsInline (each-All check_image m.images e))
              (each-All (λ m. each check_image m.images) p.messages images);
        tools =
            weaken-All _ _ p.tools (λ t e. invalid_if-passes _ Message.tool_unnamed e)
              (each-All _ p.tools tools);
        some_tokens = ground arith;
        max_tokens = ground arith;
        temperature = ground (
          arith,
          invalid_if-passes (not (in_range A 2 p.temperature)) Message.temperature_range
              temperature,
        );
      }

-- A text of at most 80 characters on one line.
pub record IsShort (t : Text) : Type 0 where
  pub short : length t ≤ 80
  pub one_line : All (λ c. c ≢ 10) t

no_newline : (t : Text) → All (λ c. c ≢ 10) (map (λ c. if c == 10 then 32 else c) t)
no_newline [] = tt
no_newline (c ∷ t) = (ground arith, no_newline t)

cut_line : (n : ℕ) (t : Text) → All (λ c. c ≢ 10) t → All (λ c. c ≢ 10) (take n t ++ 0x2026 ∷ [])
cut_line zero t h = (omega arith, tt)
cut_line (suc n) [] h = (omega arith, tt)
cut_line (suc n) (c ∷ t) h = (h.0, cut_line n t h.1)

-- The summary of any job has at most 80 characters and no line end.
pub summary-IsShort : {F V : Type 0} (payload : JobPayload F V) → IsShort (summary payload)
unfolding summary
summary-IsShort payload =
    go (map (λ c. if c == 10 then 32 else c) (trim (shown_text payload)))
      (no_newline (trim (shown_text payload)))
  where
    go :
        (t : Text)
        → All (λ c. c ≢ 10) t
        → IsShort (if ltb 80 (length t) then take 79 t ++ 0x2026 ∷ [] else t)
    go t h = elim (Bool-cases (ltb 80 (length t))) [
      | inl long ↦ rw long (record {
        short = omega (arith, length-append (take 79 t) (0x2026 ∷ []), length-take 79 t);
        one_line = cut_line 79 t h;
      })
      | inr fits ↦ rw fits (record { short = ground arith; one_line = h })
    ]
