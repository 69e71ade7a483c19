-- ===== src/Worker/Server/Capture/Captured.antt =====
-- crates/rootmode-worker/src/server.rs: what a finished job is charged.
use rootmode.Prelude.{
  ℕ, ◌≤◌, ◌<◌, ◌≡◌, ◌⊎◌, inl, inr, refl, sym, subst, max, min, Bool, true, Option, none, some,
  arith, saturating_add, not, if◌then◌else◌,
}
use rootmode.Prelude.Int.{pos}
use rootmode.Prelude.Text.{Text, text_eq}
use rootmode.Prelude.Dict
use rootmode.Prelude.Dict.{Dict}
use rootmode.Prelude.Result.{Result, ok, err, >>=-ok, >>-ok, ok_or, fail_if}
use rootmode.Core.Externals.{Externals}
use rootmode.Core.Floats.{FloatApi}
use rootmode.Core.Json.{JsonApi}
use rootmode.Core.Payments.{Domain}
use rootmode.Core.Protocol.{JobSubmit, JobPay}
use rootmode.Worker.Errors.{WorkerMessage, WorkerError, WorkerResult}
use rootmode.Worker.Channels.{Channels, Refusal, accept_spend, id_for, banked}
use rootmode.Worker.Channels.Entries.{authorised_at}
use rootmode.Worker.Channels.Operations.{Banks, accept_spend-Banks}
use rootmode.Worker.Server.{Setup, Bond, domain, payout_of}
use rootmode.Worker.Server.Admission.{check_same, reject}
use rootmode.Worker.Server.Admission.Bonds.{IsSameAs, check_same-IsSameAs}
use rootmode.Worker.Server.Capture.{check_pay, bank_pay, capture, capture_amount, capture_chunk}

module _ (A : FloatApi) (J : JsonApi) (X : Externals) where
  -- A ticket for this job, to this worker and from this payer.
  pub record IsFor (c : Setup A.F) (submit : JobSubmit A.F J.Value) (pay : JobPay) : Type 0 where
    pub same_job : text_eq pay.job_id submit.job_id ≡ true
    pub worker : IsSameAs pay.ticket.worker_payout (payout_of c.payout_address)
    pub payer : IsSameAs pay.ticket.client submit.payer

  check_pay-IsFor :
      (c : Setup A.F) (submit : JobSubmit A.F J.Value) (pay : JobPay) (d : Domain)
      → check_pay A J X c submit pay ≡ ok d
      → IsFor c submit pay
  unfolding check_pay
  check_pay-IsFor c submit pay d e =
      let (h0, e0) =
        >>-ok
          (fail_if (not (text_eq pay.job_id submit.job_id))
            (WorkerError.rejected WorkerMessage.other_job))
          _ e in
      let (k, h1, e1) =
        >>=-ok (ok_or (domain c) (WorkerError.rejected WorkerMessage.no_contract)) _ e0 in
      let (h2, e2) =
        >>-ok
          (check_same pay.ticket.worker_payout WorkerMessage.other_worker
            (payout_of c.payout_address))
          _ e1 in
      let (h3, e3) =
        >>-ok (check_same pay.ticket.client WorkerMessage.other_payer submit.payer) _ e2 in
      record {
        same_job = ground (arith, h0);
        worker = check_same-IsSameAs _ _ _ h2;
        payer = check_same-IsSameAs _ _ _ h3;
      }

  -- The ledger in which a ticket is banked for an amount.
  pub record IsBanked (s : Channels) (pay : JobPay) (amount now : ℕ) (after : Channels)
      : Type 0 where
    pub rise :
        authorised_at s (id_for X s pay.ticket.client pay.ticket.worker_payout)
        < pay.ticket.cumulative
    pub covers :
        saturating_add
          (authorised_at s (id_for X s pay.ticket.client pay.ticket.worker_payout))
          amount
        ≤ pay.ticket.cumulative
    pub entries :
        (j : Text)
        → Dict.get j after.open_channels ≡ (
            if text_eq (id_for X s pay.ticket.client pay.ticket.worker_payout) j
            then some (banked X s pay.ticket pay.sig (pos now))
            else Dict.get j s.open_channels)

  abbrev pub Pays :
      Setup A.F
      → Channels
      → JobSubmit A.F J.Value
      → JobPay
      → ℕ
      → ℕ
      → WorkerResult (Unit {0}) × Channels
      → Type 0
  Pays c s submit pay amount now (err e, after) = after ≡ s
  Pays c s submit pay amount now (ok u, after) =
      IsFor c submit pay × IsBanked s pay amount now after

  bank_pay-Pays :
      (c : Setup A.F) (s : Channels) (submit : JobSubmit A.F J.Value) (pay : JobPay) (amount : ℕ)
      (key : Text) (now : ℕ) (saved : Bool)
      → Pays c s submit pay amount now (bank_pay A J X c s submit pay amount key now saved)
  unfolding bank_pay
  bank_pay-Pays c s submit pay amount key now saved = checked (check_pay A J X c submit pay) refl
    where
      accepted :
          IsFor c submit pay
          → (r : Result Refusal ℕ × Channels) → Banks X s pay.ticket pay.sig amount (pos now) r
          → Pays c s submit pay amount now (
            elim r.0 [ ok earned ↦ ok tt | err e ↦ reject (WorkerMessage.payment_authorisation e) ],
            r.1,
          )
      accepted good (err e, after) b = b
      accepted good (ok earned, after) b =
          (good, record { rise = b.1; covers = b.2; entries = b.3 })

      checked :
          (r : WorkerResult Domain)
          → check_pay A J X c submit pay ≡ r
          → Pays c s submit pay amount now (elim r [
            | err e ↦ (err e, s)
            | ok d ↦
                let (r, s') = accept_spend X s pay.ticket pay.sig d key amount (pos now) saved in
                (
                  elim r [
                    | ok earned ↦ ok tt
                    | err e ↦ reject (WorkerMessage.payment_authorisation e)
                  ],
                  s',
                )
          ])
      checked (err e) h = refl
      checked (ok d) h =
          accepted (check_pay-IsFor c submit pay d h)
            (accept_spend X s pay.ticket pay.sig d key amount (pos now) saved)
            (accept_spend-Banks X s pay.ticket pay.sig d key amount (pos now) saved)

  -- The client's own ticket for the bill, which is capped by the chunk, or the whole chunk.
  abbrev pub Bills : Channels → Bond → ℕ → Option JobPay → ℕ → ℕ → JobPay → ℕ → Channels → Type 0
  Bills s bond amount paid now later pay billed after =
      ((paid ≡ some pay) × (billed ≡ amount) × IsBanked s pay billed now after)
      ⊎ ((pay ≡ bond.pay) × (billed ≡ bond.delta) × IsBanked s pay billed later after)

  abbrev pub Captures :
      Setup A.F
      → Channels
      → JobSubmit A.F J.Value
      → Bond
      → ℕ
      → Option JobPay
      → ℕ
      → ℕ
      → Option (JobPay × ℕ) × Channels
      → Type 0
  Captures c s submit bond amount paid now later (none, after) = after ≡ s
  Captures c s submit bond amount paid now later (some (pay, billed), after) =
      IsFor c submit pay × Bills s bond amount paid now later pay billed after

  capture-Captures :
      (c : Setup A.F) (s : Channels) (submit : JobSubmit A.F J.Value) (bond : Bond) (amount : ℕ)
      (paid : Option JobPay) (now later : ℕ) (saved saved_later : Bool)
      → Captures c s submit bond amount paid now later
          (capture A J X c s submit bond amount paid now later saved saved_later)
  unfolding capture
  capture-Captures c s submit bond amount paid now later saved saved_later = by_paid paid refl
    where
      answer : WorkerResult (Unit {0}) × Channels → Option (JobPay × ℕ) × Channels
      answer (ok u, s') = (some (bond.pay, bond.delta), s')
      answer (err e, s') = (none, s')

      by_chunk :
          (r : WorkerResult (Unit {0}) × Channels)
          → Pays c s submit bond.pay bond.delta later r
          → Captures c s submit bond amount paid now later
              (elim r.0 [ ok u ↦ some (bond.pay, bond.delta) | err e ↦ none ], r.1)
      by_chunk (ok u, s') (good, done) = (good, inr (refl, refl, done))
      by_chunk (err e, s') h = h

      by_own :
          (pay : JobPay)
          → paid ≡ some pay
          → (r : WorkerResult (Unit {0}) × Channels) → Pays c s submit pay amount now r
          → Captures c s submit bond amount paid now later (elim r.0 [
            | ok u ↦ (some (pay, amount), r.1)
            | err e ↦
                let (q, s') =
                  bank_pay A J X c r.1 submit bond.pay bond.delta bond.app_key later saved_later in
                (elim q [ ok u ↦ some (bond.pay, bond.delta) | err e ↦ none ], s')
          ])
      by_own pay h (ok u, s') (good, done) = (good, inl (h, refl, done))
      by_own pay h (err e, s') same =
          subst
            (λ k. Captures c s submit bond amount paid now later (
              let (q, s') =
                bank_pay A J X c k submit bond.pay bond.delta bond.app_key later saved_later in
              (elim q [ ok u ↦ some (bond.pay, bond.delta) | err e ↦ none ], s')))
            (sym same)
            (by_chunk (bank_pay A J X c s submit bond.pay bond.delta bond.app_key later saved_later)
              (bank_pay-Pays c s submit bond.pay bond.delta bond.app_key later saved_later))

      by_paid :
          (p : Option JobPay)
          → paid ≡ p
          → Captures c s submit bond amount paid now later (elim p [
            | none ↦
                let (r, s') =
                  bank_pay A J X c s submit bond.pay bond.delta bond.app_key later saved_later in
                (elim r [ ok u ↦ some (bond.pay, bond.delta) | err e ↦ none ], s')
            | some pay ↦
                let (r, s') = bank_pay A J X c s submit pay amount bond.app_key now saved in
                elim r [
                  | ok u ↦ (some (pay, amount), s')
                  | err e ↦
                      let (q, k) =
                        bank_pay A J X c s' submit bond.pay bond.delta bond.app_key later
                          saved_later in
                      (elim q [ ok u ↦ some (bond.pay, bond.delta) | err e ↦ none ], k)
                ]
          ])
      by_paid none h =
          by_chunk (bank_pay A J X c s submit bond.pay bond.delta bond.app_key later saved_later)
            (bank_pay-Pays c s submit bond.pay bond.delta bond.app_key later saved_later)
      by_paid (some pay) h =
          by_own pay h (bank_pay A J X c s submit pay amount bond.app_key now saved)
            (bank_pay-Pays c s submit pay amount bond.app_key now saved)

  billed_bound :
      (s : Channels) (bond : Bond) (bill : ℕ) (paid : Option JobPay) (now later : ℕ) (pay : JobPay)
      (billed : ℕ) (after : Channels)
      → Bills s bond (max (min bill bond.delta) 1) paid now later pay billed after
      → billed ≤ max bond.delta 1
  billed_bound s bond bill paid now later pay billed after (inl (p, e, b)) = omega arith
  billed_bound s bond bill paid now later pay billed after (inr (p, e, b)) = omega arith

  -- What a capture has charged, which is never above the chunk or one micro.
  abbrev pub Charges :
      Setup A.F
      → Channels
      → JobSubmit A.F J.Value
      → Bond
      → ℕ
      → Option JobPay
      → ℕ
      → ℕ
      → Option (JobPay × ℕ) × Channels
      → Type 0
  Charges c s submit bond bill paid now later (none, after) = after ≡ s
  Charges c s submit bond bill paid now later (some (pay, billed), after) =
      (billed ≤ max bond.delta 1)
      × IsFor c submit pay
      × Bills s bond (max (min bill bond.delta) 1) paid now later pay billed after

  -- When a bond is pending for a job, the capture at its end either charges nothing and leaves
  -- the ledger as it was, or charges at most the bond's delta or one micro; it then banked
  -- either the client's own ticket for the bill held to the delta, or the bond itself for its
  -- delta, and that ticket is for this job, this worker's payout address and the job's payer,
  -- its total is above what was authorised and covers it with the charge, and in the ledger
  -- only the ticket's channel changed.
  pub capture_chunk-Charges :
      (c : Setup A.F) (s : Channels) (bonds : Dict Bond) (submit : JobSubmit A.F J.Value) (bill : ℕ)
      (paid : Option JobPay) (now later : ℕ) (saved saved_later : Bool) (bond : Bond)
      → Dict.get submit.job_id bonds ≡ some bond
      → let r = capture_chunk A J X c s bonds submit bill paid now later saved saved_later in
        Charges c s submit bond bill paid now later (r.0, r.1)
  unfolding capture_chunk capture_amount
  capture_chunk-Charges c s bonds submit bill paid now later saved saved_later bond h =
      subst
        (λ o. Charges c s submit bond bill paid now later (
          let r : Option (JobPay × ℕ) × Channels × Dict Bond = elim o [
            | none ↦ (none, s, Dict.remove submit.job_id bonds)
            | some bond ↦
                let (chosen, s') =
                  capture A J X c s submit bond (max (min bill bond.delta) 1) paid now later saved
                    saved_later in
                (chosen, s', Dict.remove submit.job_id bonds)
          ] in
          (r.0, r.1)))
        (sym h)
        (charged
          (capture A J X c s submit bond (max (min bill bond.delta) 1) paid now later saved
            saved_later)
          (capture-Captures c s submit bond (max (min bill bond.delta) 1) paid now later saved
            saved_later))
    where
      charged :
          (r : Option (JobPay × ℕ) × Channels)
          → Captures c s submit bond (max (min bill bond.delta) 1) paid now later r
          → Charges c s submit bond bill paid now later r
      charged (none, after) e = e
      charged (some (pay, billed), after) (good, bills) =
          (billed_bound s bond bill paid now later pay billed after bills, good, bills)
