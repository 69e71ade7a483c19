-- ===== src/Worker/Server/Admission.antt =====
-- crates/rootmode-worker/src/server.rs: authorize, take_payment and take_bond.
pub mod Bonds
use rootmode.Prelude.{
  ℕ, ◌-◌, Bool, not, ◌&&◌, ◌||◌, Option, none, some, true, false, any, is_empty, leb, is_some, [],
  if◌then◌else◌,
}
use rootmode.Prelude.Int.{ℤ}
use rootmode.Prelude.Text.{Text, text_eq, eq_ignore_ascii_case}
use rootmode.Prelude.Dict
use rootmode.Prelude.Dict.{Dict}
use rootmode.Prelude.Result.{Result, ok, err, ◌>>=◌, ◌>>◌, fail_if, ok_or, map_err}
use rootmode.Core.Errors.{CoreError, CoreResult}
use rootmode.Core.Externals.{Externals}
use rootmode.Core.Floats.{FloatApi}
use rootmode.Core.Json.{JsonApi}
use rootmode.Core.Identity.{Ed25519, JsonText}
use rootmode.Core.Price.{is_free}
use rootmode.Core.Payments.SpendTicket
use rootmode.Core.Protocol.{JobSubmit, JobPay}
use rootmode.Core.Protocol.Signed.{verify, verify_wire}
use rootmode.Worker.Errors.{WorkerMessage, WorkerError, WorkerResult}
use rootmode.Worker.Channels.{Channels, accept, authorised_for}
use rootmode.Worker.Server.{Setup, Bond, domain, require_signature, payout_of}
use rootmode.Worker.Server.Prices.{listed_price}

abbrev pub reject {ℓ} : {A : Type ℓ} → WorkerMessage → WorkerResult A
reject m = err (WorkerError.rejected m)

-- `if let Some(want) = want { if !have.eq_ignore_ascii_case(&want) { return Err(..) } }`
abbrev pub check_same : Text → WorkerMessage → Option Text → WorkerResult (Unit {0})
check_same have m none = ok tt
check_same have m (some want) =
    fail_if (not (eq_ignore_ascii_case have want)) (WorkerError.rejected m)

module _ (A : FloatApi) (J : JsonApi) (X : Externals) where
  -- `to_value` is the form of a job that serde derives.
  module _ (E : Ed25519) (S : JsonText J) (to_value : JobSubmit A.F J.Value → Option J.Value) where
    abbrev pub wire_is_ok : Option Text → Bool
    wire_is_ok none = false
    wire_is_ok (some raw) = elim (verify_wire X E J S to_value raw) [ ok u ↦ true | err e ↦ false ]

    abbrev pub check_signature : JobSubmit A.F J.Value → Option Text → WorkerResult (Unit {0})
    check_signature submit raw =
        if wire_is_ok raw
        then ok tt
        else map_err (λ e. WorkerError.rejected (WorkerMessage.signature e))
            (verify X E J S to_value submit)

    unfoldable pub authorize :
        Setup A.F → JobSubmit A.F J.Value → Option Text → WorkerResult (Unit {0})
    unfolding require_signature eq_ignore_ascii_case
    authorize c submit raw =
        (if require_signature c || is_some submit.sig then check_signature submit raw else ok tt)
        >> fail_if
            (not (is_empty c.allow_peers)
              && not (any (λ p. eq_ignore_ascii_case p submit.from) c.allow_peers))
            (WorkerError.rejected WorkerMessage.peer_not_allowed)

  -- A job without an authorisation, where one may be required.
  abbrev pub unsigned_job : Setup A.F → JobSubmit A.F J.Value → Bool → WorkerResult (Unit {0})
  unsigned_job c submit holdback =
      if c.require_auth && not holdback
      then elim (listed_price A J c submit.payload) [
        | none ↦ reject WorkerMessage.needs_authorisation
        | some price ↦ if is_free A price then ok tt else reject WorkerMessage.needs_authorisation
      ]
      else ok tt

  unfoldable pub take_payment :
      Setup A.F
      → Channels
      → JobSubmit A.F J.Value
      → Bool
      → ℤ
      → Bool
      → WorkerResult (Unit {0}) × Channels
  unfolding domain accept
  take_payment c s submit holdback now saved = elim (domain c) [
    | none ↦ (ok tt, s)
    | some d ↦ elim submit.spend [
      | some auth ↦
          let (r, s') = accept X s auth d now saved in
          (
            elim r [ ok earned ↦ ok tt | err e ↦ reject (WorkerMessage.payment_authorisation e) ],
            s',
          )
      | none ↦ (unsigned_job c submit holdback, s)
    ]
  ]

  -- The checks of `take_bond`: the delta of the chunk, and what was authorised before it.
  unfoldable pub check_bond :
      Setup A.F → Channels → JobSubmit A.F J.Value → JobPay → WorkerResult (ℕ × ℕ)
  unfolding domain SpendTicket.recover payout_of authorised_for text_eq
  check_bond c s submit bond = do
    fail_if (not (text_eq bond.job_id submit.job_id)) (WorkerError.rejected WorkerMessage.other_job)
    d ← ok_or (domain c) (WorkerError.rejected WorkerMessage.no_contract)
    signer ←
        map_err (λ e. WorkerError.rejected (WorkerMessage.chunk_ticket e))
          (SpendTicket.recover X bond.ticket d bond.sig)
    check_same bond.ticket.worker_payout WorkerMessage.other_worker (payout_of c.payout_address)
    check_same bond.ticket.client WorkerMessage.other_payer submit.payer
    let already = authorised_for X s bond.ticket.client bond.ticket.worker_payout
    fail_if (leb bond.ticket.cumulative already)
        (WorkerError.rejected WorkerMessage.chunk_does_not_rise)
    ok (bond.ticket.cumulative - already, already)

  unfoldable pub take_bond :
      Setup A.F → Channels → Dict Bond → JobSubmit A.F J.Value → WorkerResult (ℕ × ℕ) × Dict Bond
  unfolding check_bond
  take_bond c s bonds submit = elim submit.bond [
    | none ↦ (reject WorkerMessage.needs_chunk, bonds)
    | some bond ↦ elim (check_bond c s submit bond) [
      | err e ↦ (err e, bonds)
      | ok (delta, already) ↦ (
        ok (delta, already),
        Dict.insert submit.job_id (record { pay = bond; delta = delta; app_key = [] }) bonds,
      )
    ]
  ]
