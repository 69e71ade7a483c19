-- ===== src/Desktop/Pot/Invoices.antt =====
-- apps/desktop/src-tauri/src/pot.rs: what becomes of a bonded job: its invoices, or its end without
-- one. The reads of the chain and of the account are arguments.
pub mod Bills
use rootmode.Prelude.{
  ℕ, ◌+◌, ◌-◌, ◌*◌, ◌/◌, Bool, true, false, not, ◌&&◌, ◌||◌, Option, none, some, List, [], ◌∷◌,
  ◌++◌, min, max, leb, ltb, ◌==◌, is_empty, u64_max, saturating_add, if◌then◌else◌,
}
use rootmode.Prelude.Bytes.{Bytes}
use rootmode.Prelude.Text.{Text, text, text_eq}
use rootmode.Prelude.Dict
use rootmode.Prelude.Result.{Result, ok, err, ◌>>=◌, ◌>>◌, fail_if, ok_or}
use rootmode.Core.Floats.{FloatApi}
use rootmode.Core.Json.{JsonApi}
use rootmode.Core.Externals.{Externals}
use rootmode.Core.Job.{JobKind}
use rootmode.Core.Price.{Price, charge_llm_micros}
use rootmode.Core.Payments.{Micros}
use rootmode.Core.Payments.SpendTicket.{SpendTicket}
use rootmode.Core.Protocol.{JobPay, JobInvoice, protocol_version}
use rootmode.Core.Tokens.{TokenUsage, from_meta}
use rootmode.Core.Tokens.Measure.{Tokenizer}
use rootmode.Worker.Chain.Client.{Signer}
use rootmode.Desktop.Pot.{
  Pot, PendingJob, LatestTicket, ChainConfig, ChannelSnap, Refused, PotResult, channel_key,
  cached_cumulative, authorised_so_far, sign_latest, persist, cap_of,
}
use rootmode.Desktop.Pot.Addresses.{authorised_in}
use rootmode.Desktop.Pot.Locks.{Account, chunk_of, llm_charge_micros, saturating_mul}

-- A row of the ledger that the user audits.
pub record SpendEntry : Type 0 where
  pub job_id : Text
  pub model : Text
  pub peer : Option Text
  pub tokens : Option ℕ
  pub cost_micros : Micros
  pub cumulative_micros : Option Micros
  pub payout : Option Text
  pub abandoned : Bool
  pub bond_cumulative : Option Micros
  pub chunk_micros : Option Micros

-- `Some(peer).filter(|p| !p.is_empty())`, and `filter(|n| n > 0)`.
abbrev pub named : Text → Option Text
named t = if is_empty t then none else some t

abbrev pub counted_tokens : ℕ → Option ℕ
counted_tokens n = if ltb 0 n then some n else none

module _ (A : FloatApi) (J : JsonApi) (T : Tokenizer J.Value) where
  -- `(amount * 1_000_000.0).round() as u64`
  unfoldable pub flat_price : A.F → Micros
  flat_price amount = A.to_u64 (A.round (A.mul amount (A.of_ℕ 1000000)))

  unfoldable pub fair_price : PendingJob A.F → JobInvoice → Micros
  unfolding charge_llm_micros flat_price
  fair_price p invoice = elim p.kind [
    | JobKind.llm ↦
        charge_llm_micros A p.price invoice.prompt_tokens invoice.completion_tokens
          invoice.cached_tokens
    | JobKind.image ↦ flat_price p.price.amount
    | JobKind.video ↦ flat_price p.price.amount
  ]

  -- The checks of a request for another slice.
  unfoldable pub check_top_up : PendingJob A.F → JobInvoice → ℕ → PotResult (Unit {0})
  unfolding chunk_of cap_of
  check_top_up p invoice max_per_job =
      let room = p.job_cap - p.ceiling in
      let cap = cap_of max_per_job in
      fail_if (room == 0 || ltb room invoice.amount) (
        if leb cap p.job_cap
        then Refused.job_limit p.job_cap
        else Refused.above_estimate p.job_cap cap)
      >> fail_if (ltb (chunk_of A J T p.price p.kind) invoice.amount) Refused.top_up_too_large

  -- The checks of a bill.
  unfoldable pub check_bill : PendingJob A.F → JobInvoice → PotResult (Unit {0})
  unfolding fair_price
  check_bill p invoice =
      let fair = fair_price p invoice in
      fail_if (ltb (saturating_mul fair 3 / 2) invoice.amount)
        (Refused.above_price invoice.amount fair)
      >> fail_if (ltb p.ceiling invoice.amount) Refused.above_prepaid

  -- What `pay_invoice` checks of the invoice itself, with the job on file.
  unfoldable pub check_invoice : Pot A.F → Text → JobInvoice → ℕ → PotResult (PendingJob A.F)
  unfolding text_eq check_top_up check_bill
  check_invoice s job_id invoice max_per_job = do
    fail_if (not (text_eq invoice.job_id job_id)) Refused.other_job
    fail_if (invoice.amount == 0) Refused.no_amount
    p ← ok_or (Dict.get job_id s.jobs) Refused.no_lock
    fail_if p.paid Refused.already_paid
    if invoice.top_up then check_top_up p invoice max_per_job else check_bill p invoice
    ok p

  -- What an invoice leaves on the job's row.
  unfoldable pub invoiced : JobInvoice → PendingJob A.F → PendingJob A.F
  invoiced invoice row =
      if invoice.top_up
      then record row { ceiling = saturating_add row.ceiling invoice.amount }
      else record row { paid = true; sha256 = some invoice.sha256; cost = some invoice.amount }

  unfoldable pub invoice_entry : PendingJob A.F → Text → JobInvoice → Micros → SpendEntry
  invoice_entry p job_id invoice cumulative = record {
    job_id = job_id;
    model = p.model;
    peer = named p.peer;
    tokens = counted_tokens (saturating_add invoice.prompt_tokens invoice.completion_tokens);
    cost_micros = invoice.amount;
    cumulative_micros = some cumulative;
    payout = some p.payout;
    abandoned = false;
    bond_cumulative = none;
    chunk_micros = none;
  }

  -- What a signature for an invoice adds to the total.
  unfoldable pub extra_of : PendingJob A.F → JobInvoice → Micros
  extra_of p invoice =
      if invoice.top_up then saturating_add p.ceiling invoice.amount else invoice.amount

  unfoldable pub abandoned_entry : Text → PendingJob A.F → SpendEntry
  abandoned_entry job_id p = record {
    job_id = job_id;
    model = p.model;
    peer = named p.peer;
    tokens = none;
    cost_micros = 0;
    cumulative_micros = none;
    payout = some p.payout;
    abandoned = true;
    bond_cumulative = some p.bond_cumulative;
    chunk_micros = some p.ceiling;
  }

  -- A job that ended without a bill: the row of the ledger, if there is one, and the pot.
  unfoldable pub abandon_job : Pot A.F → Text → Option SpendEntry × Pot A.F
  unfolding abandoned_entry
  abandon_job s job_id =
      let rest = record s { jobs = Dict.remove job_id s.jobs } in
      elim (Dict.get job_id s.jobs) [
        | none ↦ (none, rest)
        | some p ↦ if p.paid then (none, rest) else (some (abandoned_entry job_id p), rest)
      ]

  -- What a job costs that was never invoiced.
  unfoldable pub settle_amount : PendingJob A.F → J.Value → Micros
  unfolding llm_charge_micros flat_price
  settle_amount p meta = elim p.kind [
    | JobKind.llm ↦ llm_charge_micros A J T p.price (some meta)
    | JobKind.image ↦ flat_price p.price.amount
    | JobKind.video ↦ flat_price p.price.amount
  ]

  abbrev pub metered : PendingJob A.F → J.Value → Option ℕ
  metered p meta = elim p.kind [
    | JobKind.llm ↦ elim (from_meta J meta) [
      | none ↦ none
      | some u ↦ counted_tokens (saturating_add u.prompt u.completion)
    ]
    | JobKind.image ↦ none
    | JobKind.video ↦ none
  ]

  unfoldable pub job_entry : Text → PendingJob A.F → J.Value → Micros → Option Micros → SpendEntry
  job_entry job_id p meta amount cumulative = record {
    job_id = job_id;
    model = p.model;
    peer = named p.peer;
    tokens = metered p meta;
    cost_micros = amount;
    cumulative_micros = cumulative;
    payout = some p.payout;
    abandoned = false;
    bond_cumulative = none;
    chunk_micros = none;
  }

  module _ (X : Externals) (K : Signer X) where
    -- The newest ticket of a channel, kept and written.
    abbrev pub keep_latest : Bool → ChainConfig → Text → ℕ → SpendTicket × Bytes → Pot A.F → Pot A.F
    keep_latest saved cfg key on_chain signed s = persist X saved (record s {
      latest =
          Dict.insert key
            (record { ticket = signed.0; sig = signed.1; on_chain_paid = on_chain; pot = cfg.pot })
            s.latest;
    })

    -- `flush_worker` does nothing, so the two reads of the channel are of one ledger; `ch` is the second.
    unfoldable pub pay_invoice :
        K.SigningKey
        → ChainConfig
        → Pot A.F
        → Text
        → JobInvoice
        → Option Text
        → ℕ
        → ChannelSnap
        → ℕ
        → Bool
        → PotResult ((JobPay × Option SpendEntry) × Pot A.F)
    unfolding check_invoice extra_of authorised_so_far channel_key sign_latest persist invoiced
        invoice_entry
    pay_invoice key cfg s job_id invoice client max_per_job ch now saved = do
      p ← check_invoice s job_id invoice max_per_job
      client ← ok_or client Refused.no_client
      fail_if (ltb (cap_of max_per_job) invoice.amount) (Refused.above_cap (cap_of max_per_job))
      let total = authorised_so_far X s cfg client p.payout ch
      let cumulative = saturating_add total.0 (extra_of p invoice)
      signed ← sign_latest X K key cfg client p.payout cumulative now
      let s =
          if invoice.top_up
          then s
          else keep_latest saved cfg (channel_key X client p.payout) total.1 signed s
      ok (
        (
          record {
            v = protocol_version;
            job_id = job_id;
            ticket = signed.0;
            sig = text "0x" ++ X.hex_encode signed.1;
          },
          if invoice.top_up then none else some (invoice_entry p job_id invoice cumulative),
        ),
        record s { jobs = Dict.adjust job_id (invoiced invoice) s.jobs },
      )

    -- A node that has more authorised than was signed here: its total is signed and kept.
    unfoldable pub adopt_authorised :
        K.SigningKey → ChainConfig → Pot A.F → Text → Text → Option Text → ℕ → Bool → Pot A.F
    unfolding authorised_in cached_cumulative channel_key sign_latest persist
    adopt_authorised key cfg s job_id message client now saved = elim (authorised_in message) [
      | none ↦ s
      | some theirs ↦ elim (Dict.get job_id s.jobs) [
        | none ↦ s
        | some p ↦ elim client [
          | none ↦ s
          | some c ↦
              if leb theirs (cached_cumulative X s cfg c p.payout)
              then s
              else elim (sign_latest X K key cfg c p.payout theirs now) [
                | err e ↦ s
                | ok signed ↦
                    let wk = channel_key X c p.payout in
                    let on_chain : ℕ = elim (Dict.get wk s.latest) [
                      | none ↦ 0
                      | some t ↦ t.on_chain_paid
                    ] in
                    keep_latest saved cfg wk on_chain signed s
              ]
        ]
      ]
    ]
