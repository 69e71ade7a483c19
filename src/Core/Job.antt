-- ===== src/Core/Job.antt =====
-- crates/rootmode-core/src/job.rs: jobs as data, and the bounds that a job must meet.
-- `F` is the type of `f32` and `f64` values, `V` that of JSON values.
pub mod Validate
pub mod Bounds
mod Tests
use rootmode.Prelude.{ℕ, Bool, true, false, Option, none, List, [], ◌||◌, is_some}
use rootmode.Prelude.Text.{Text, text}

pub data JobKind : Type 0 where
  llm image video : JobKind

unfoldable pub kind_as_str : JobKind → Text
kind_as_str JobKind.llm = text "llm"
kind_as_str JobKind.image = text "image"
kind_as_str JobKind.video = text "video"

pub data JobStatus : Type 0 where
  queued running done failed : JobStatus

unfoldable pub status_as_str : JobStatus → Text
status_as_str JobStatus.queued = text "queued"
status_as_str JobStatus.running = text "running"
status_as_str JobStatus.done = text "done"
status_as_str JobStatus.failed = text "failed"

unfoldable pub is_terminal : JobStatus → Bool
is_terminal JobStatus.done = true
is_terminal JobStatus.failed = true
is_terminal JobStatus.queued = false
is_terminal JobStatus.running = false

pub record ToolCall : Type 0 where
  pub id : Text
  pub name : Text
  pub arguments : Text

pub record ChatMessage : Type 0 where
  pub role : Text
  pub content : Text
  pub tool_calls : List ToolCall
  pub tool_call_id : Option Text
  pub images : List Text

unfoldable pub new_message : Text → Text → ChatMessage
new_message role content = record {
  role = role;
  content = content;
  tool_calls = [];
  tool_call_id = none;
  images = [];
}

pub record ToolDef (V : Type 0) : Type 0 where
  pub name : Text
  pub description : Option Text
  pub input_schema : V

pub record LlmParams (F V : Type 0) : Type 0 where
  pub model_hash : Option Text
  pub model_id : Option Text
  pub messages : List ChatMessage
  pub tools : List (ToolDef V)
  pub max_tokens : ℕ
  pub temperature : F
  pub reasoning_effort : Option Text

pub record ImageParams (F : Type 0) : Type 0 where
  pub model_hash : Option Text
  pub checkpoint_id : Option Text
  pub prompt : Text
  pub from_image : Option Text
  pub change : Option F
  pub mask : Option Text

pub record VideoParams : Type 0 where
  pub model_hash : Option Text
  pub checkpoint_id : Option Text
  pub prompt : Text
  pub from_image : Option Text
  pub seconds : Option ℕ
  pub resolution : Option Text
  pub aspect_ratio : Option Text
  pub audio : Option Bool

unfoldable pub is_shaped : VideoParams → Bool
is_shaped p = is_some p.seconds || is_some p.resolution || is_some p.aspect_ratio || is_some p.audio

pub data JobPayload (F V : Type 0) : Type 0 where
  llm : LlmParams F V → JobPayload F V
  image : ImageParams F → JobPayload F V
  video : VideoParams → JobPayload F V

unfoldable pub kind : {F V : Type 0} → JobPayload F V → JobKind
kind (JobPayload.llm p) = JobKind.llm
kind (JobPayload.image p) = JobKind.image
kind (JobPayload.video p) = JobKind.video
