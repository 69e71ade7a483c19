-- ===== src/Core/Job/Validate.antt =====
-- crates/rootmode-core/src/job.rs: JobPayload::validate, summary and model_label, and Job.
use rootmode.Prelude.{
  ℕ, Bool, false, not, ◌&&◌, ◌||◌, Option, none, some, List, [], ◌∷◌, ◌++◌, length, take, any, all,
  is_empty, leb, ltb, ◌==◌, if◌then◌else◌, map,
}
use rootmode.Prelude.Int.{ℤ}
use rootmode.Prelude.Text.{Text, text, text_eq, utf8, ascii_lower}
use rootmode.Prelude.Strings.{trim, starts_with, contains, from_dec, split_once}
use rootmode.Prelude.Result.{ok, ◌>>◌, fail_if}
use rootmode.Core.Floats.{FloatApi}
use rootmode.Core.Errors.{Message, CoreError, CoreResult}
use rootmode.Core.Job.{JobPayload, JobStatus, ChatMessage, LlmParams, ImageParams, VideoParams}

abbrev pub max_image_chars : ℕ
max_image_chars = 20000000

abbrev pub reasoning_efforts : List Text
reasoning_efforts =
    text "none" ∷ text "minimal" ∷ text "low" ∷ text "medium" ∷ text "high" ∷ text "xhigh" ∷ []

-- `Err(CoreError::Invalid(..))` where a test holds.
abbrev pub invalid_if : Bool → Message → CoreResult (Unit {0})
invalid_if b m = fail_if b (CoreError.invalid m)

-- The body of the loop over the images of a message.
unfoldable pub check_image : Text → CoreResult (Unit {0})
unfolding trim starts_with contains ascii_lower utf8
check_image image = do
  let t = trim image
  let lower = map ascii_lower t
  invalid_if (is_empty t) Message.image_empty
  invalid_if (not (starts_with lower (text "data:")) && contains lower (text "://"))
      Message.image_is_link
  invalid_if (ltb max_image_chars (length (utf8 t))) Message.image_too_large

-- A `for` loop that returns the first error.
abbrev pub each : {A : Type 0} → (A → CoreResult (Unit {0})) → List A → CoreResult (Unit {0})
each f [] = ok tt
each f (a ∷ as') = f a >> each f as'

-- `if let Some(x) = option { .. }`
abbrev pub when_some : {A : Type 0} → Option A → (A → CoreResult (Unit {0})) → CoreResult (Unit {0})
when_some none f = ok tt
when_some (some a) f = f a

-- A message without text, tool calls and images.
unfoldable pub says_nothing : ChatMessage → Bool
unfolding trim
says_nothing m = is_empty (trim m.content) && is_empty m.tool_calls && is_empty m.images

-- `split_once(':').is_some_and(..)`, with two numbers above 0 that are `u8`.
unfoldable pub is_ratio : Text → Bool
unfolding split_once from_dec
is_ratio a = elim (split_once 58 a) [
  | none ↦ false
  | some p ↦ elim (from_dec 256 p.0) [
    | none ↦ false
    | some w ↦ ltb 0 w && elim (from_dec 256 p.1) [ none ↦ false | some h ↦ ltb 0 h ]
  ]
]

-- The checks that an image and a video share at their beginning.
unfoldable pub check_prompt : Text → Text → CoreResult (Unit {0})
unfolding trim
check_prompt kind prompt = do
  invalid_if (is_empty (trim prompt)) (Message.empty_prompt kind)
  invalid_if (ltb 8000 (length prompt)) (Message.long_prompt kind)

unfoldable pub check_from_image : Option Text → CoreResult (Unit {0})
unfolding trim
check_from_image from_image =
    when_some from_image (λ i. invalid_if (is_empty (trim i)) Message.empty_from_image)

unfoldable pub validate_video : VideoParams → CoreResult (Unit {0})
unfolding check_prompt check_from_image trim utf8 is_ratio
validate_video p = do
  check_prompt (text "video") p.prompt
  check_from_image p.from_image
  when_some p.seconds (λ s. invalid_if (not (leb 1 s && leb s 60)) Message.seconds_range)
  when_some p.resolution
      (λ r. invalid_if (is_empty (trim r) || ltb 8 (length (utf8 r))) Message.bad_resolution)
  when_some p.aspect_ratio (λ a. invalid_if (not (is_ratio a)) Message.bad_ratio)

module _ (A : FloatApi) where
  -- `(0.0..=top).contains(&x)`
  abbrev pub in_range : ℕ → A.F → Bool
  in_range top x = A.le (A.of_ℕ 0) x && A.le x (A.of_ℕ top)

  unfoldable pub validate_llm : {V : Type 0} → LlmParams A.F V → CoreResult (Unit {0})
  unfolding says_nothing check_image trim text_eq
  validate_llm p = do
    invalid_if (is_empty p.messages) Message.no_messages
    invalid_if (all says_nothing p.messages) Message.no_prompt_text
    each (λ m. each check_image m.images) p.messages
    each (λ t. invalid_if (is_empty (trim t.name)) Message.tool_unnamed) p.tools
    invalid_if (p.max_tokens == 0 || ltb 131072 p.max_tokens) Message.max_tokens_range
    invalid_if (not (in_range 2 p.temperature)) Message.temperature_range
    when_some p.reasoning_effort
        (λ e. invalid_if (not (any (λ r. text_eq r e) reasoning_efforts)) Message.unknown_effort)

  unfoldable pub validate_image : ImageParams A.F → CoreResult (Unit {0})
  unfolding check_prompt check_from_image
  validate_image p = do
    check_prompt (text "image") p.prompt
    when_some p.change (λ c. invalid_if (not (in_range 1 c)) Message.change_range)
    check_from_image p.from_image

  unfoldable pub validate : {V : Type 0} → JobPayload A.F V → CoreResult (Unit {0})
  unfolding validate_llm validate_image validate_video
  validate (JobPayload.llm p) = validate_llm p
  validate (JobPayload.image p) = validate_image p
  validate (JobPayload.video p) = validate_video p

-- `rev().find(..)`: the last message of the user, and `last()`.
abbrev pub last_user : List ChatMessage → Option ChatMessage
last_user [] = none
last_user (m ∷ ms) = elim (last_user ms) [
  | some found ↦ some found
  | none ↦ if text_eq m.role (text "user") then some m else none
]

abbrev pub last_message : List ChatMessage → Option ChatMessage
last_message [] = none
last_message (m ∷ []) = some m
last_message (m ∷ n ∷ ms) = last_message (n ∷ ms)

abbrev pub content_of : Option ChatMessage → Text
content_of none = []
content_of (some m) = m.content

abbrev pub shown_text : {F V : Type 0} → JobPayload F V → Text
shown_text (JobPayload.llm p) = elim (last_user p.messages) [
  | some m ↦ m.content
  | none ↦ content_of (last_message p.messages)
]
shown_text (JobPayload.image p) = p.prompt
shown_text (JobPayload.video p) = p.prompt

unfoldable pub summary : {F V : Type 0} → JobPayload F V → Text
unfolding trim text_eq
summary payload =
    let t = map (λ c. if c == 10 then 32 else c) (trim (shown_text payload)) in
    if ltb 80 (length t) then take 79 t ++ 0x2026 ∷ [] else t

abbrev pub model_names : {F V : Type 0} → JobPayload F V → Option Text × Option Text
model_names (JobPayload.llm p) = (p.model_hash, p.model_id)
model_names (JobPayload.image p) = (p.model_hash, p.checkpoint_id)
model_names (JobPayload.video p) = (p.model_hash, p.checkpoint_id)

unfoldable pub model_label : {F V : Type 0} → JobPayload F V → Text
model_label payload = elim (model_names payload).1 [
  | some id ↦ id
  | none ↦ elim (model_names payload).0 [
    | some hash ↦ text "sha256:" ++ take 12 hash
    | none ↦ text "peer default"
  ]
]

pub record Job (F V : Type 0) : Type 0 where
  pub job_id : Text
  pub peer_id : Text
  pub payload : JobPayload F V
  pub status : JobStatus
  pub progress : F
  pub error : Option Text
  pub created_at : ℤ

-- `Job::new`, with the random id as an argument.
unfoldable pub new_job :
    (A : FloatApi) {V : Type 0} → Text → Text → JobPayload A.F V → ℤ → Job A.F V
new_job A job_id peer_id payload created_at = record {
  job_id = job_id;
  peer_id = peer_id;
  payload = payload;
  status = JobStatus.queued;
  progress = A.of_ℕ 0;
  error = none;
  created_at = created_at;
}
