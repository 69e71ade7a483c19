-- ===== src/Worker/Server/Admission/Bonds.antt =====
-- crates/rootmode-worker/src/server.rs: which chunks take_bond admits.
use rootmode.Prelude.{
  ℕ, ◌+◌, ◌-◌, not, leb, ap, sym, ◌<◌, ◌≡◌, refl, Bool, true, false, Option, none, some, arith, [],
  if◌then◌else◌,
}
use rootmode.Prelude.Text.{Text, text_eq, eq_ignore_ascii_case}
use rootmode.Prelude.Dict
use rootmode.Prelude.Dict.{Dict, get-insert}
use rootmode.Prelude.Result.{Result, ok, err, >>=-ok, >>-ok, ok_inj, fail_if, ok_or, map_err}
use rootmode.Core.Externals.{Externals}
use rootmode.Core.Floats.{FloatApi}
use rootmode.Core.Json.{JsonApi}
use rootmode.Core.Payments.{Domain}
use rootmode.Core.Payments.SpendTicket
use rootmode.Core.Protocol.{JobSubmit, JobPay}
use rootmode.Worker.Errors.{WorkerMessage, WorkerError, WorkerResult}
use rootmode.Worker.Channels.{Channels, authorised_for}
use rootmode.Worker.Server.{Setup, Bond, domain, payout_of}
use rootmode.Worker.Server.Admission.{reject, check_same, check_bond, take_bond}

-- The address that is configured or named, where there is one, is the ticket's.
abbrev pub IsSameAs : Text → Option Text → Type 0
IsSameAs have none = Unit
IsSameAs have (some want) = eq_ignore_ascii_case have want ≡ true

pub check_same-IsSameAs :
    (have : Text) (m : WorkerMessage) (want : Option Text)
    → check_same have m want ≡ ok tt
    → IsSameAs have want
check_same-IsSameAs have m none e = tt
check_same-IsSameAs have m (some want) e = passed (eq_ignore_ascii_case have want) e
  where
    passed :
        (b : Bool)
        → ◌≡◌ {A = WorkerResult (Unit {0})} (fail_if (not b) (WorkerError.rejected m)) (ok tt)
        → b ≡ true
    passed true h = refl
    passed false h = cc

module _ (A : FloatApi) (J : JsonApi) (X : Externals) where
  -- What holds of a chunk that passed, with the delta that it is worth.
  pub record IsGood (c : Setup A.F) (s : Channels) (submit : JobSubmit A.F J.Value) (bond : JobPay)
      (delta already : ℕ) : Type 0 where
    pub same_job : text_eq bond.job_id submit.job_id ≡ true
    pub contract : Domain
    pub configured : domain c ≡ some contract
    pub signer : Text
    pub signed : SpendTicket.recover X bond.ticket contract bond.sig ≡ ok signer
    pub worker : IsSameAs bond.ticket.worker_payout (payout_of c.payout_address)
    pub payer : IsSameAs bond.ticket.client submit.payer
    pub before : already ≡ authorised_for X s bond.ticket.client bond.ticket.worker_payout
    pub rise : (0 < delta) × (bond.ticket.cumulative ≡ already + delta)

  ok_or-some : {B : Type 0} (o : Option B) (e : WorkerError) (b : B) → ok_or o e ≡ ok b → o ≡ some b
  ok_or-some none e b h = cc
  ok_or-some (some a) e b h = cc

  map_err-ok :
      {B E : Type 0} (f : E → WorkerError) (r : Result E B) (b : B) → map_err f r ≡ ok b → r ≡ ok b
  map_err-ok f (ok a) b h = cc
  map_err-ok f (err e) b h = cc

  check_bond-IsGood :
      (c : Setup A.F) (s : Channels) (submit : JobSubmit A.F J.Value) (bond : JobPay)
      (delta already : ℕ)
      → check_bond A J X c s submit bond ≡ ok (delta, already)
      → IsGood c s submit bond delta already
  unfolding check_bond
  check_bond-IsGood c s submit bond delta already e =
      let (h0, e0) =
        >>-ok
          (fail_if (not (text_eq bond.job_id submit.job_id))
            (WorkerError.rejected WorkerMessage.other_job))
          _ e in
      let (d, h1, e1) =
        >>=-ok (ok_or (domain c) (WorkerError.rejected WorkerMessage.no_contract)) _ e0 in
      let (signer, h2, e2) =
        >>=-ok
          (map_err (λ e. WorkerError.rejected (WorkerMessage.chunk_ticket e))
            (SpendTicket.recover X bond.ticket d bond.sig))
          _ e1 in
      let (h3, e3) =
        >>-ok
          (check_same bond.ticket.worker_payout WorkerMessage.other_worker
            (payout_of c.payout_address))
          _ e2 in
      let (h4, e4) =
        >>-ok (check_same bond.ticket.client WorkerMessage.other_payer submit.payer) _ e3 in
      let (h5, e5) =
        >>-ok
          (fail_if
            (leb bond.ticket.cumulative
              (authorised_for X s bond.ticket.client bond.ticket.worker_payout))
            (WorkerError.rejected WorkerMessage.chunk_does_not_rise))
          _ e4 in
      let pair = ok_inj e5 in
      let d0 : bond.ticket.cumulative
            - authorised_for X s bond.ticket.client bond.ticket.worker_payout
          ≡ delta =
        ap (λ p. p.0) pair in
      let a0 : authorised_for X s bond.ticket.client bond.ticket.worker_payout ≡ already =
        ap (λ p. p.1) pair in
      record {
        same_job = ground (arith, h0);
        contract = d;
        configured = ok_or-some (domain c) _ d h1;
        signer = signer;
        signed = map_err-ok _ (SpendTicket.recover X bond.ticket d bond.sig) signer h2;
        worker = check_same-IsSameAs _ _ _ h3;
        payer = check_same-IsSameAs _ _ _ h4;
        before = sym a0;
        rise = ground (arith, h5, d0, a0);
      }

  -- What a call of take_bond that began with `bonds` has done, by how it ended.
  abbrev pub Admits :
      Setup A.F
      → Channels
      → Dict Bond
      → JobSubmit A.F J.Value
      → WorkerResult (ℕ × ℕ) × Dict Bond
      → Type 0
  Admits c s bonds submit (err e, after) = after ≡ bonds
  Admits c s bonds submit (ok (delta, already), after) =
      (bond : JobPay) × (submit.bond ≡ some bond)
      × IsGood c s submit bond delta already
      × ((j : Text)
          → Dict.get j after ≡ (
              if text_eq submit.job_id j
              then some (record { pay = bond; delta = delta; app_key = [] })
              else Dict.get j bonds))

  -- take_bond either refuses and leaves the pending bonds as they were, or the job carries a
  -- chunk for this job, whose signer can be recovered under the configured contract, for the
  -- configured payout address if it is one and for the payer if one is named; its total is what
  -- was authorised before plus a positive delta, both are returned, and the chunk is pending
  -- under the job alone.
  pub take_bond-Admits :
      (c : Setup A.F) (s : Channels) (bonds : Dict Bond) (submit : JobSubmit A.F J.Value)
      → Admits c s bonds submit (take_bond A J X c s bonds submit)
  unfolding take_bond
  take_bond-Admits c s bonds submit = by_bond submit.bond refl
    where
      checked :
          (bond : JobPay)
          → submit.bond ≡ some bond
          → (r : WorkerResult (ℕ × ℕ)) → check_bond A J X c s submit bond ≡ r
          → Admits c s bonds submit (elim r [
            | err e ↦ (err e, bonds)
            | ok (delta, already) ↦ (
              ok (delta, already),
              Dict.insert submit.job_id (record { pay = bond; delta = delta; app_key = [] }) bonds,
            )
          ])
      checked bond h (err e) q = refl
      checked bond h (ok (delta, already)) q = (
        bond,
        h,
        check_bond-IsGood c s submit bond delta already q,
        λ j. get-insert submit.job_id j (record { pay = bond; delta = delta; app_key = [] }) bonds,
      )

      by_bond :
          (b : Option JobPay)
          → submit.bond ≡ b
          → Admits c s bonds submit (elim b [
            | none ↦ (reject WorkerMessage.needs_chunk, bonds)
            | some bond ↦ elim (check_bond A J X c s submit bond) [
              | err e ↦ (err e, bonds)
              | ok (delta, already) ↦ (
                ok (delta, already),
                Dict.insert submit.job_id
                    (record { pay = bond; delta = delta; app_key = [] })
                    bonds,
              )
            ]
          ])
      by_bond none h = refl
      by_bond (some bond) h = checked bond h (check_bond A J X c s submit bond) refl
