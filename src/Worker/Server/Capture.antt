-- ===== src/Worker/Server/Capture.antt =====
-- crates/rootmode-worker/src/server.rs: bank_pay, the top-up of a bond, and capture_chunk up to the
-- settlement.
pub mod Captured
use rootmode.Prelude.{
  ℕ, ◌-◌, Bool, not, Option, none, some, max, min, leb, true, false, [], if◌then◌else◌,
}
use rootmode.Prelude.Int.{ℤ, pos, pos_part}
use rootmode.Prelude.Text.{Text, text_eq}
use rootmode.Prelude.Dict
use rootmode.Prelude.Dict.{Dict}
use rootmode.Prelude.Result.{Result, ok, err, ◌>>=◌, ◌>>◌, fail_if, ok_or, map_err}
use rootmode.Core.Externals.{Externals}
use rootmode.Core.Floats.{FloatApi}
use rootmode.Core.Json.{JsonApi}
use rootmode.Core.Job.{JobKind, JobPayload, kind}
use rootmode.Core.Price.{Price, JobResult, chunk_micros, token_chunk}
use rootmode.Core.Payments.SpendTicket
use rootmode.Core.Payments.{Domain}
use rootmode.Core.Protocol.{JobSubmit, JobPay, JobInvoice, protocol_version}
use rootmode.Core.Tokens.{TokenUsage, reconcile, from_meta}
use rootmode.Core.Tokens.Measure.{Tokenizer, measure}
use rootmode.Worker.Errors.{WorkerMessage, WorkerError, WorkerResult}
use rootmode.Worker.Channels.{Channels, Refusal, accept_spend, authorised_for}
use rootmode.Worker.Server.{Setup, Bond, domain, payout_of}
use rootmode.Worker.Server.Prices.{flat_micros, local_usage, no_usage}
use rootmode.Worker.Server.Admission.{reject, check_same}

-- A time of u64 seconds as `i64`, which a clock before the year 2^63 does not wrap.
module _ (A : FloatApi) (J : JsonApi) (X : Externals) where
  unfoldable pub check_pay : Setup A.F → JobSubmit A.F J.Value → JobPay → WorkerResult Domain
  unfolding domain payout_of text_eq
  check_pay c submit pay = do
    fail_if (not (text_eq pay.job_id submit.job_id)) (WorkerError.rejected WorkerMessage.other_job)
    d ← ok_or (domain c) (WorkerError.rejected WorkerMessage.no_contract)
    check_same pay.ticket.worker_payout WorkerMessage.other_worker (payout_of c.payout_address)
    check_same pay.ticket.client WorkerMessage.other_payer submit.payer
    ok d

  unfoldable pub bank_pay :
      Setup A.F
      → Channels
      → JobSubmit A.F J.Value
      → JobPay
      → ℕ
      → Text
      → ℕ
      → Bool
      → WorkerResult (Unit {0}) × Channels
  unfolding check_pay accept_spend
  bank_pay c s submit pay amount app_key now saved = elim (check_pay c submit pay) [
    | err e ↦ (err e, s)
    | ok d ↦
        let (r, s') = accept_spend X s pay.ticket pay.sig d app_key amount (pos now) saved in
        (elim r [ ok earned ↦ ok tt | err e ↦ reject (WorkerMessage.payment_authorisation e) ], s')
  ]

  -- The bill of a capture: at most the chunk, and never nothing.
  unfoldable pub capture_amount : ℕ → Bond → ℕ
  capture_amount amount bond = max (min amount bond.delta) 1

  -- What the bill is banked with: the client's own ticket for it, if one came in time and holds, or
  -- else the chunk.
  unfoldable pub capture :
      Setup A.F
      → Channels
      → JobSubmit A.F J.Value
      → Bond
      → ℕ
      → Option JobPay
      → ℕ
      → ℕ
      → Bool
      → Bool
      → Option (JobPay × ℕ) × Channels
  unfolding bank_pay
  capture c s submit bond amount paid now later saved saved_later =
      let chunk : Channels → Option (JobPay × ℕ) × Channels = λ s.
        let (r, s') = bank_pay c s submit bond.pay bond.delta bond.app_key later saved_later in
        (elim r [ ok u ↦ some (bond.pay, bond.delta) | err e ↦ none ], s') in
      elim paid [
        | none ↦ chunk s
        | some pay ↦
            let (r, s') = bank_pay c s submit pay amount bond.app_key now saved in
            elim r [ ok u ↦ (some (pay, amount), s') | err e ↦ chunk s' ]
      ]

  -- The whole of it, with the bill that the worker computed: what is to be settled, the ledger, and
  -- the pending bonds.
  unfoldable pub capture_chunk :
      Setup A.F
      → Channels
      → Dict Bond
      → JobSubmit A.F J.Value
      → ℕ
      → Option JobPay
      → ℕ
      → ℕ
      → Bool
      → Bool
      → Option (JobPay × ℕ) × Channels × Dict Bond
  unfolding capture capture_amount
  capture_chunk c s bonds submit bill paid now later saved saved_later =
      let rest = Dict.remove submit.job_id bonds in
      elim (Dict.get submit.job_id bonds) [
        | none ↦ (none, s, rest)
        | some bond ↦
            let (chosen, s') =
              capture c s submit bond (capture_amount bill bond) paid now later saved saved_later in
            (chosen, s', rest)
      ]

  -- The invoice of a top-up, and of the bill.
  unfoldable pub top_up_invoice : JobSubmit A.F J.Value → Price A.F → JobInvoice
  unfolding chunk_micros flat_micros kind
  top_up_invoice submit price = record {
    v = protocol_version;
    job_id = submit.job_id;
    amount = elim (kind submit.payload) [
      | JobKind.llm ↦ chunk_micros A price
      | JobKind.image ↦ flat_micros A J price
      | JobKind.video ↦ flat_micros A J price
    ];
    sha256 = [];
    prompt_tokens = 0;
    completion_tokens = token_chunk;
    cached_tokens = 0;
    top_up = true;
  }

  abbrev pub or_no_usage : Option TokenUsage → TokenUsage
  or_no_usage none = no_usage A J
  or_no_usage (some u) = u

  module _ (T : Tokenizer J.Value) where
    abbrev pub billed_usage : JobPayload A.F J.Value → JobResult J.Value → TokenUsage
    billed_usage (JobPayload.llm p) r =
        reconcile (measure T p r.answer r.thinking r.tool_calls) (from_meta J r.meta)
    billed_usage (JobPayload.image p) r = or_no_usage (from_meta J r.meta)
    billed_usage (JobPayload.video p) r = or_no_usage (from_meta J r.meta)

    unfoldable pub bill_invoice : JobSubmit A.F J.Value → JobResult J.Value → ℕ → JobInvoice
    bill_invoice submit result amount =
        let usage = billed_usage submit.payload result in
        record {
          v = protocol_version;
          job_id = submit.job_id;
          amount = amount;
          sha256 = result.sha256;
          prompt_tokens = usage.prompt;
          completion_tokens = usage.completion;
          cached_tokens = usage.cached;
          top_up = false;
        }

  -- What a reply to a top-up makes of the pending bond: whether the chunk grew, and the bonds.
  abbrev pub grown : Domain → ℕ → ℕ → JobPay → Bond → Option Bond
  grown d now already pay bond =
      let new_delta = pay.ticket.cumulative - already in
      elim (SpendTicket.check X pay.ticket d pay.sig bond.app_key now) [
        | err e ↦ none
        | ok u ↦
            if leb new_delta bond.delta
            then none
            else some (record bond { pay = pay; delta = new_delta })
      ]

  unfoldable pub top_up :
      Setup A.F
      → Channels
      → Dict Bond
      → JobSubmit A.F J.Value
      → Option JobPay
      → ℕ
      → Bool × Dict Bond
  unfolding authorised_for domain
  top_up c s bonds submit none now = (false, bonds)
  top_up c s bonds submit (some pay) now =
      let already = authorised_for X s pay.ticket.client pay.ticket.worker_payout in
      elim (domain c) [
        | none ↦ (false, bonds)
        | some d ↦ elim (Dict.get submit.job_id bonds) [
          | none ↦ (false, bonds)
          | some bond ↦ elim (grown d now already pay bond) [
            | none ↦ (false, bonds)
            | some bigger ↦ (true, Dict.adjust submit.job_id (λ b. bigger) bonds)
          ]
        ]
      ]
