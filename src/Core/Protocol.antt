-- ===== src/Core/Protocol.antt =====
-- crates/rootmode-core/src/protocol.rs: the messages, their version check and their parsers. The
-- readers that serde derives are arguments.
pub mod Signed
mod Parsing
mod Tests
use rootmode.Prelude.{
  ℕ, ◌*◌, Bool, not, ◌&&◌, Option, none, some, List, is_empty, ltb, ◌==◌, length,
}
use rootmode.Prelude.Text.{Text, text, utf8}
use rootmode.Prelude.Result.{ok, err, ◌>>=◌, ◌>>◌, fail_if, ok_or}
use rootmode.Core.Floats.{FloatApi}
use rootmode.Core.Errors.{Message, CoreError, CoreResult}
use rootmode.Core.Job.{JobKind, JobStatus, JobPayload}
use rootmode.Core.Price.{Price, JobResult, max_rate, ceil_cents}
use rootmode.Core.Video.{VideoOffer}
use rootmode.Core.Payments.SpendTicket.{SpendTicket}
use rootmode.Core.Payments.ReserveTicket.{ReserveTicket}
use rootmode.Core.Payments.SpendingAuth.{SpendingAuth}

abbrev pub protocol_version : ℕ
protocol_version = 1

abbrev pub max_message_bytes : ℕ
max_message_bytes = 64 * 1024 * 1024

abbrev pub stopped : Text
stopped = text "stopped by client"

unfoldable pub check_version : ℕ → CoreResult (Unit {0})
check_version v = fail_if (not (v == protocol_version)) (CoreError.version v protocol_version)

pub record JobCancel : Type 0 where
  pub job_id : Text

pub record ReservePost : Type 0 where
  pub ticket : ReserveTicket
  pub sig : Text

pub record JobPay : Type 0 where
  pub v : ℕ
  pub job_id : Text
  pub ticket : SpendTicket
  pub sig : Text

pub record JobSubmit (F V : Type 0) : Type 0 where
  pub v : ℕ
  pub job_id : Text
  pub from : Text
  pub payload : JobPayload F V
  pub sig : Option Text
  pub spend : Option SpendingAuth
  pub payer : Option Text
  pub bond : Option JobPay
  pub reserve : Option ReservePost

unfoldable pub new_submit : {F V : Type 0} → Text → Text → JobPayload F V → JobSubmit F V
new_submit job_id from payload = record {
  v = protocol_version;
  job_id = job_id;
  from = from;
  payload = payload;
  sig = none;
  spend = none;
  payer = none;
  bond = none;
  reserve = none;
}

pub record PeerHello : Type 0 where
  pub v : ℕ
  pub peer_id : Text

pub record JobInvoice : Type 0 where
  pub v : ℕ
  pub job_id : Text
  pub amount : ℕ
  pub sha256 : Text
  pub prompt_tokens : ℕ
  pub completion_tokens : ℕ
  pub cached_tokens : ℕ
  pub top_up : Bool

pub record JobStatusUpdate (F : Type 0) : Type 0 where
  pub v : ℕ
  pub job_id : Text
  pub status : JobStatus
  pub progress : F
  pub error : Option Text

pub record JobDelta : Type 0 where
  pub v : ℕ
  pub job_id : Text
  pub answer : Text
  pub thinking : Text

unfoldable pub delta_is_empty : JobDelta → Bool
delta_is_empty d = is_empty d.answer && is_empty d.thinking

pub record ModelDescriptor (F : Type 0) : Type 0 where
  pub id : Text
  pub sha256 : Option Text
  pub kind : JobKind
  pub price : Option (Price F)
  pub video : Option (VideoOffer F)

-- What a model costs for the ranking. Without a price it is free.
unfoldable pub model_amount : (A : FloatApi) → ModelDescriptor A.F → A.F
unfolding max_rate ceil_cents
model_amount A m = elim m.price [
  | some p ↦ ceil_cents A (A.max_of p.amount (max_rate A p))
  | none ↦ A.of_ℕ 0
]

pub record PeerAnnounce (F : Type 0) : Type 0 where
  pub v : ℕ
  pub peer_id : Text
  pub label : Option Text
  pub country : Option Text
  pub caps : List Text
  pub models : List (ModelDescriptor F)
  pub max_concurrent : ℕ
  pub payout : Option Text

-- The last case stands for a type that this version does not know.
pub data ClientMessage (F V : Type 0) : Type 0 where
  job_submit : JobSubmit F V → ClientMessage F V
  job_cancel : JobCancel → ClientMessage F V
  peer_hello : PeerHello → ClientMessage F V
  job_pay : JobPay → ClientMessage F V
  unknown : ClientMessage F V

pub data WorkerMessage (F V : Type 0) : Type 0 where
  job_status : JobStatusUpdate F → WorkerMessage F V
  job_result : JobResult V → WorkerMessage F V
  job_delta : JobDelta → WorkerMessage F V
  peer_announce : PeerAnnounce F → WorkerMessage F V
  job_invoice : JobInvoice → WorkerMessage F V
  unknown : WorkerMessage F V

module _ {F V : Type 0} where
  unfoldable pub client_versions : ClientMessage F V → CoreResult (Unit {0})
  unfolding check_version
  client_versions (ClientMessage.job_submit m) = check_version m.v
  client_versions (ClientMessage.peer_hello m) = check_version m.v
  client_versions (ClientMessage.job_pay m) = check_version m.v
  client_versions (ClientMessage.job_cancel m) = ok tt
  client_versions ClientMessage.unknown = ok tt

  -- `raw.len()` counts bytes.
  unfoldable pub parse_client :
      (Text → Option (ClientMessage F V)) → Text → CoreResult (ClientMessage F V)
  unfolding client_versions utf8
  parse_client from_str raw = do
    fail_if (ltb max_message_bytes (length (utf8 raw))) (CoreError.invalid Message.message_too_long)
    msg ← ok_or (from_str raw) CoreError.json
    client_versions msg
    ok msg

  unfoldable pub worker_versions : WorkerMessage F V → CoreResult (Unit {0})
  unfolding check_version
  worker_versions (WorkerMessage.job_status m) = check_version m.v
  worker_versions (WorkerMessage.job_result m) = check_version m.v
  worker_versions (WorkerMessage.job_delta m) = check_version m.v
  worker_versions (WorkerMessage.peer_announce m) = check_version m.v
  worker_versions (WorkerMessage.job_invoice m) = check_version m.v
  worker_versions WorkerMessage.unknown = ok tt

  unfoldable pub parse_worker :
      (Text → Option (WorkerMessage F V)) → Text → CoreResult (WorkerMessage F V)
  unfolding worker_versions utf8
  parse_worker from_str raw = do
    fail_if (ltb max_message_bytes (length (utf8 raw))) (CoreError.invalid Message.message_too_long)
    msg ← ok_or (from_str raw) CoreError.json
    worker_versions msg
    ok msg
