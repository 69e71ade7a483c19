-- ===== src/Desktop/Pot/Invoices/Bills.antt =====
-- apps/desktop/src-tauri/src/pot.rs: which invoices are signed, and that a job is billed once.
use mathlib.Core.Option
use rootmode.Prelude.{
  ℕ, ◌+◌, ◌-◌, ◌/◌, ◌≤◌, ◌<◌, ◌≡◌, refl, sym, ap, subst, ◌∙◌, Bool, true, false, not, ◌||◌, Option,
  none, some, max, ltb, ltb-false, ◌==◌, arith, saturating_add, if◌then◌else◌,
}
use rootmode.Prelude.Bytes.{Bytes}
use rootmode.Prelude.Text.{Text, text_eq, text_eq_iff}
use rootmode.Prelude.Dict
use rootmode.Prelude.Dict.{Dict, get-adjust}
use rootmode.Prelude.Result.{ok, err, >>=-ok, >>-ok, ok_inj, ok_or, map_err, fail_if, fail_if-ok}
use rootmode.Core.Floats.{FloatApi}
use rootmode.Core.Json.{JsonApi}
use rootmode.Core.Externals.{Externals}
use rootmode.Core.Payments.{Domain}
use rootmode.Core.Payments.SpendTicket
use rootmode.Core.Payments.SpendTicket.{SpendTicket}
use rootmode.Core.Protocol.{JobPay, JobInvoice}
use rootmode.Core.Tokens.Measure.{Tokenizer}
use rootmode.Worker.Chain.Client.{Signer}
use rootmode.Desktop.Pot.{
  Pot, PendingJob, ChainConfig, ChannelSnap, Refused, cached_cumulative, authorised_so_far,
  sign_latest, cap_of, channel_key, ticket_ttl_secs, persist,
}
use rootmode.Desktop.Pot.Locks.{chunk_of, saturating_mul}
use rootmode.Desktop.Pot.Invoices.{
  SpendEntry, fair_price, check_top_up, check_bill, check_invoice, invoiced, invoice_entry,
  extra_of, keep_latest, pay_invoice,
}

get-adjusted :
    {V : Type 0} (k : Text) (f : V → V) (m : Dict V) (v : V)
    → Dict.get k m ≡ some v
    → Dict.get k (Dict.adjust k f m) ≡ some (f v)
get-adjusted k f m v h =
    get-adjust k k f m
    ∙ ap (λ b. if b then Option.map f (Dict.get k m) else Dict.get k m) ((text_eq_iff k k).1 refl)
    ∙ ap (Option.map f) h

module _ (A : FloatApi) (J : JsonApi) (T : Tokenizer J.Value) where
  -- An invoice for another slice, within the job's cap and the size of a slice, or a bill within one
  -- and a half times the advertised price and within what was prepaid.
  abbrev pub IsFair : PendingJob A.F → JobInvoice → Bool → Type 0
  IsFair p invoice true =
      (p.ceiling + invoice.amount ≤ p.job_cap) × (invoice.amount ≤ chunk_of A J T p.price p.kind)
  IsFair p invoice false =
      (invoice.amount ≤ saturating_mul (fair_price A J T p invoice) 3 / 2)
      × (invoice.amount ≤ p.ceiling)

  pub record IsPayable (s : Pot A.F) (job_id : Text) (invoice : JobInvoice) (p : PendingJob A.F)
      : Type 0 where
    pub same_job : invoice.job_id ≡ job_id
    pub on_file : Dict.get job_id s.jobs ≡ some p
    pub unpaid : p.paid ≡ false
    pub positive : 0 < invoice.amount
    pub fair : IsFair p invoice invoice.top_up

  check_top_up-IsFair :
      (p : PendingJob A.F) (invoice : JobInvoice) (max_per_job : ℕ)
      → 0 < invoice.amount
      → check_top_up A J T p invoice max_per_job ≡ ok tt
      → IsFair p invoice true
  unfolding check_top_up
  check_top_up-IsFair p invoice max_per_job positive e =
      let (h0, h1) =
        >>-ok (fail_if (p.job_cap - p.ceiling == 0 || ltb (p.job_cap - p.ceiling) invoice.amount) _)
          _ e in
      let inside : invoice.amount ≤ p.job_cap - p.ceiling = ground (arith, fail_if-ok _ _ h0) in
      (omega arith, ltb-false _ _ (fail_if-ok _ _ h1))

  check_bill-IsFair :
      (p : PendingJob A.F) (invoice : JobInvoice)
      → check_bill A J T p invoice ≡ ok tt
      → IsFair p invoice false
  unfolding check_bill
  check_bill-IsFair p invoice e =
      let (h0, h1) =
        >>-ok
          (fail_if (ltb (saturating_mul (fair_price A J T p invoice) 3 / 2) invoice.amount)
            (Refused.above_price invoice.amount (fair_price A J T p invoice)))
          _ e in
      (ltb-false _ _ (fail_if-ok _ _ h0), ltb-false _ _ (fail_if-ok _ _ h1))

  check_invoice-IsPayable :
      (s : Pot A.F) (job_id : Text) (invoice : JobInvoice) (max_per_job : ℕ) (p : PendingJob A.F)
      → check_invoice A J T s job_id invoice max_per_job ≡ ok p
      → IsPayable s job_id invoice p
  unfolding check_invoice
  check_invoice-IsPayable s job_id invoice max_per_job p e =
      let (h0, e0) = >>-ok (fail_if (not (text_eq invoice.job_id job_id)) Refused.other_job) _ e in
      let (h1, e1) = >>-ok (fail_if (invoice.amount == 0) Refused.no_amount) _ e0 in
      let (q, h2, e2) = >>=-ok (ok_or (Dict.get job_id s.jobs) Refused.no_lock) _ e1 in
      let (h3, e3) = >>-ok (fail_if q.paid Refused.already_paid) _ e2 in
      let (h4, e4) =
        >>-ok
          (if invoice.top_up
            then check_top_up A J T q invoice max_per_job
            else check_bill A J T q invoice)
          _ e3 in
      let amount : 0 < invoice.amount = ground (arith, fail_if-ok _ _ h1) in
      subst (λ k. IsPayable s job_id invoice k) (ok_inj e4)
        (record {
          same_job = ground (arith, h0, text_eq_iff invoice.job_id job_id);
          on_file = found (Dict.get job_id s.jobs) h2;
          unpaid = fail_if-ok _ _ h3;
          positive = amount;
          fair = fair q amount invoice.top_up h4;
        })
    where
      found :
          {q : PendingJob A.F} (o : Option (PendingJob A.F))
          → ok_or o Refused.no_lock ≡ ok q
          → o ≡ some q
      found none h = cc
      found (some k) h = ap some (ok_inj h)

      fair :
          (q : PendingJob A.F)
          → 0 < invoice.amount
          → (b : Bool)
          → (if b then check_top_up A J T q invoice max_per_job else check_bill A J T q invoice)
            ≡ ok tt
          → IsFair q invoice b
      fair q amount true h = check_top_up-IsFair q invoice max_per_job amount h
      fair q amount false h = check_bill-IsFair q invoice h

  module _ (X : Externals) (K : Signer X) where
    sign_latest-cumulative :
        (key : K.SigningKey) (cfg : ChainConfig) (client worker : Text) (cumulative now : ℕ)
        (signed : SpendTicket × Bytes)
        → sign_latest X K key cfg client worker cumulative now ≡ ok signed
        → (signed.0.client ≡ client)
          × (signed.0.worker_payout ≡ worker)
          × (signed.0.cumulative ≡ cumulative)
    unfolding sign_latest
    sign_latest-cumulative key cfg client worker cumulative now signed e =
        let ticket : SpendTicket = record {
          client = client;
          worker_payout = worker;
          cumulative = cumulative;
          deadline = now + ticket_ttl_secs;
        } in
        let d : Domain = record { chain_id = cfg.chain_id; verifying_contract = cfg.pot } in
        let (digest, h0, e0) = >>=-ok (map_err Refused.core (SpendTicket.digest X ticket d)) _ e in
        let (pair, h1, e1) = >>=-ok (ok_or (K.sign_prehash key digest) Refused.cannot_sign) _ e0 in
        let made = ok_inj e1 in
        (
          ap (λ r. r.0.client) (sym made),
          ap (λ r. r.0.worker_payout) (sym made),
          ap (λ r. r.0.cumulative) (sym made),
        )

    persist-jobs : (saved : Bool) (s : Pot A.F) → (persist X saved s).jobs ≡ s.jobs
    unfolding persist
    persist-jobs true s = refl
    persist-jobs false s = refl

    -- What a call of pay_invoice that succeeded has done.
    pub record IsBilled (cfg : ChainConfig) (s : Pot A.F) (job_id : Text) (invoice : JobInvoice)
        (payer : Option Text) (max_per_job : ℕ) (ch : ChannelSnap) (pay : JobPay)
        (entry : Option SpendEntry) (after : Pot A.F) : Type 0 where
      pub job : PendingJob A.F
      pub client : Text
      pub known : payer ≡ some client
      pub payable : IsPayable s job_id invoice job
      pub capped : invoice.amount ≤ cap_of max_per_job
      pub channel : (pay.ticket.client ≡ client) × (pay.ticket.worker_payout ≡ job.payout)
      pub cumulative :
          pay.ticket.cumulative
          ≡ saturating_add
              (max (cached_cumulative X s cfg client job.payout) (max ch.paid ch.earned))
              (extra_of A J T job invoice)
      pub row : Dict.get job_id after.jobs ≡ some (invoiced A J T invoice job)
      pub booked : entry ≡ (
          if invoice.top_up
          then none
          else some (invoice_entry A J T job job_id invoice pay.ticket.cumulative))

    pub pay_invoice-IsBilled :
        (key : K.SigningKey) (cfg : ChainConfig) (s after : Pot A.F) (job_id : Text)
        (invoice : JobInvoice) (client : Option Text) (max_per_job : ℕ) (ch : ChannelSnap) (now : ℕ)
        (saved : Bool) (pay : JobPay) (entry : Option SpendEntry)
        → pay_invoice A J T X K key cfg s job_id invoice client max_per_job ch now saved
          ≡ ok ((pay, entry), after)
        → IsBilled cfg s job_id invoice client max_per_job ch pay entry after
    unfolding pay_invoice authorised_so_far
    pay_invoice-IsBilled key cfg s after job_id invoice client max_per_job ch now saved pay entry
          e =
        let (p, h0, e0) = >>=-ok (check_invoice A J T s job_id invoice max_per_job) _ e in
        let (c, h1, e1) = >>=-ok (ok_or client Refused.no_client) _ e0 in
        let (h2, e2) =
          >>-ok
            (fail_if (ltb (cap_of max_per_job) invoice.amount)
              (Refused.above_cap (cap_of max_per_job)))
            _ e1 in
        let on_chain = max ch.paid ch.earned in
        let total =
          saturating_add (max (cached_cumulative X s cfg c p.payout) on_chain)
            (extra_of A J T p invoice) in
        let (signed, h3, e3) = >>=-ok (sign_latest X K key cfg c p.payout total now) _ e2 in
        let made = ok_inj e3 in
        let (of_client, of_worker, of_total) =
          sign_latest-cumulative key cfg c p.payout total now signed h3 in
        let payable = check_invoice-IsPayable s job_id invoice max_per_job p h0 in
        let ticket : signed.0 ≡ pay.ticket = ap (λ r. r.0.0.ticket) made in
        record {
          job = p;
          client = c;
          known = some_of client h1;
          payable = payable;
          capped = ltb-false _ _ (fail_if-ok _ _ h2);
          channel = (
            ap (λ t. t.client) (sym ticket) ∙ of_client,
            ap (λ t. t.worker_payout) (sym ticket) ∙ of_worker,
          );
          cumulative = ap (λ t. t.cumulative) (sym ticket) ∙ of_total;
          row =
              ap (λ r. Dict.get job_id r.1.jobs) (sym made)
              ∙ adjusted invoice.top_up p
                  (keep_latest A J T X K saved cfg (channel_key X c p.payout) on_chain signed s)
                  (persist-jobs saved _) payable.on_file;
          booked =
              ap (λ r. r.0.1) (sym made)
              ∙ ap
                  (λ n.
                    if invoice.top_up then none else some (invoice_entry A J T p job_id invoice n))
                  (sym of_total ∙ ap (λ t. t.cumulative) ticket);
        }
      where
        some_of : {c : Text} (o : Option Text) → ok_or o Refused.no_client ≡ ok c → o ≡ some c
        some_of none h = cc
        some_of (some k) h = ap some (ok_inj h)

        adjusted :
            (b : Bool) (p : PendingJob A.F) (kept : Pot A.F)
            → kept.jobs ≡ s.jobs
            → Dict.get job_id s.jobs ≡ some p
            → Dict.get job_id
                (Dict.adjust job_id (invoiced A J T invoice) (if b then s else kept).jobs)
              ≡ some (invoiced A J T invoice p)
        adjusted true p kept same h = get-adjusted job_id (invoiced A J T invoice) s.jobs p h
        adjusted false p kept same h =
            get-adjusted job_id (invoiced A J T invoice) kept.jobs p (ap (Dict.get job_id) same ∙ h)

    refused :
        (key : K.SigningKey) (cfg : ChainConfig) (s : Pot A.F) (job_id : Text)
        (invoice : JobInvoice) (client : Option Text) (max_per_job : ℕ) (ch : ChannelSnap) (now : ℕ)
        (saved : Bool) (q : PendingJob A.F)
        → Dict.get job_id s.jobs ≡ some q
        → q.paid ≡ true
        → text_eq invoice.job_id job_id ≡ true
        → (invoice.amount == 0) ≡ false
        → pay_invoice A J T X K key cfg s job_id invoice client max_per_job ch now saved
          ≡ err Refused.already_paid
    unfolding pay_invoice check_invoice
    refused key cfg s job_id invoice client max_per_job ch now saved q h0 h1 h2 h3 =
        rw (h2, h3, h0, h1) refl

    -- After pay_invoice has signed a bill for a job, every further invoice for that job with an
    -- amount is refused as already paid.
    pub pay_invoice_once :
        (key : K.SigningKey) (cfg : ChainConfig) (s after : Pot A.F) (job_id : Text)
        (invoice again : JobInvoice) (client : Option Text) (max_per_job : ℕ)
        (ch ch_later : ChannelSnap) (now later : ℕ) (saved : Bool) (pay : JobPay)
        (entry : Option SpendEntry)
        → pay_invoice A J T X K key cfg s job_id invoice client max_per_job ch now saved
          ≡ ok ((pay, entry), after)
        → invoice.top_up ≡ false
        → again.job_id ≡ job_id
        → 0 < again.amount
        → pay_invoice A J T X K key cfg after job_id again client max_per_job ch_later later saved
          ≡ err Refused.already_paid
    unfolding invoiced
    pay_invoice_once key cfg s after job_id invoice again client max_per_job ch ch_later now later
          saved pay entry e bill same positive =
        let billed =
          pay_invoice-IsBilled key cfg s after job_id invoice client max_per_job ch now saved pay
            entry e in
        refused key cfg after job_id again client max_per_job ch_later later saved
          (invoiced A J T invoice billed.job) billed.row (paid billed.job)
          ((text_eq_iff again.job_id job_id).1 same) (ground (arith, positive))
      where
        paid : (p : PendingJob A.F) → (invoiced A J T invoice p).paid ≡ true
        paid p = rw bill refl
