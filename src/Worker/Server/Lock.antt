-- ===== src/Worker/Server/Lock.antt =====
-- crates/rootmode-worker/src/server.rs: ensure_lock. Its tree has a branch for every reply of the
-- chain. The entry of the job among the pending bonds is changed by this job's own task only.
pub mod Shown
pub mod Secured
use rootmode.Prelude.{
  ℕ, zero, suc, ◌-◌, ◌*◌, Bool, not, ◌&&◌, Option, none, some, max, min, leb, ltb, is_some, true,
  false, if◌then◌else◌,
}
use rootmode.Prelude.Bytes.{Bytes}
use rootmode.Prelude.Text.{Text, trim_0x, eq_ignore_ascii_case}
use rootmode.Prelude.Dict
use rootmode.Prelude.Dict.{Dict}
use rootmode.Prelude.Result.{Result, ok, err, ◌>>◌, fail_if, ok_or, map_err}
use rootmode.Core.Externals.{Externals}
use rootmode.Core.Floats.{FloatApi}
use rootmode.Core.Json.{JsonApi}
use rootmode.Core.Job.{JobKind, kind}
use rootmode.Core.Payments.{Domain}
use rootmode.Core.Payments.SpendTicket
use rootmode.Core.Protocol.{JobSubmit, JobPay, ReservePost}
use rootmode.Worker.Errors.{WorkerMessage, WorkerError, WorkerResult}
use rootmode.Worker.Chain.Words.{is_zero_address}
use rootmode.Worker.Chain.Io
use rootmode.Worker.Chain.Io.{Io, await, lift, ◌>>=◌}
use rootmode.Worker.Chain.Client.{ChannelState, Signer, channel_state, reserve}
use rootmode.Worker.Server.{Setup, Bond, domain, payout_of}
use rootmode.Worker.Server.Prices.{advertised_price}
use rootmode.Worker.Server.Admission.{reject}

abbrev pub lock_rounds : ℕ
lock_rounds = 8

-- `pending_bonds.get(job).map(|b| cumulative.saturating_sub(earned).max(1)).unwrap_or(1)`
unfoldable pub need_of : Option Bond → ℕ → ℕ
need_of none earned = 1
need_of (some b) earned = max (b.pay.ticket.cumulative - earned) 1

-- What the last lines leave on the bond: the key, and the delta above what the chain recognises.
unfoldable pub stash : ChannelState → Bond → Bond
stash state b = record b {
  delta = min b.delta (max (b.pay.ticket.cumulative - state.earned) 1);
  app_key = state.app_key;
}

module _ (A : FloatApi) (J : JsonApi) (X : Externals) (K : Signer X) (c : Setup A.F)
    (payer payout : Text) where
  unfoldable pub read_channel : Io J.Value (Option ChannelState)
  unfolding channel_state
  read_channel = channel_state J X K c.payments payer payout

  -- `if let Ok(Some(s)) = read { state = s }`
  abbrev pub newer : ChannelState → WorkerResult (Option ChannelState) → ChannelState
  newer state (ok (some s)) = s
  newer state (ok none) = state
  newer state (err e) = state

  -- The loop over the rounds that are left, which ends with the state that was read last.
  unfoldable pub wait_lock : ℕ → ℕ → ChannelState → Io J.Value ChannelState
  unfolding read_channel
  wait_lock need zero state = Io.done (ok state)
  wait_lock need (suc n) state =
      if ltb state.remaining need
      then Io.sleep 750 (await read_channel (λ r. wait_lock need n (newer state r)))
      else Io.done (ok state)

  unfoldable pub wait_if : Bool → ℕ → ChannelState → Io J.Value ChannelState
  unfolding wait_lock
  wait_if test need state = if test then wait_lock need lock_rounds state else Io.done (ok state)

  -- A raise whose transaction failed is given time to be mined by another task.
  abbrev pub after_post : ℕ → WorkerResult (Option Text) → ChannelState → Io J.Value ChannelState
  after_post need (ok hash) state = Io.done (ok state)
  after_post need (err e) state = wait_lock need lock_rounds state >>= λ state.
      if ltb state.remaining need
      then Io.done (reject (WorkerMessage.could_not_post e))
      else Io.done (ok state)

  abbrev pub read_back : WorkerResult (Option ChannelState) → WorkerResult ChannelState
  read_back (ok (some s)) = ok s
  read_back (ok none) = reject WorkerMessage.not_read_back
  read_back (err e) = err e

  unfoldable pub post_raise : ℕ → ReservePost → Bytes → ChannelState → Io J.Value ChannelState
  unfolding reserve read_channel
  post_raise need post sig state =
      if ltb state.reserved post.ticket.max_amount
      then await (reserve J X K c.payments post.ticket sig) (λ posted.
        await read_channel (λ r. lift (read_back r) >>= λ state. after_post need posted state))
      else Io.done (ok state)

  unfoldable pub raise_lock : ℕ → Option ReservePost → ChannelState → Io J.Value ChannelState
  unfolding wait_if post_raise eq_ignore_ascii_case trim_0x
  raise_lock need none state = Io.done (ok state)
  raise_lock need (some post) state = do
    right_payout ← lift (
        fail_if (not (eq_ignore_ascii_case post.ticket.worker_payout payout))
          (WorkerError.rejected WorkerMessage.reserve_other_payout))
    right_payer ← lift (
        fail_if (not (eq_ignore_ascii_case post.ticket.client payer))
          (WorkerError.rejected WorkerMessage.reserve_other_payer))
    sig ← lift (
        ok_or (X.hex_decode (trim_0x post.sig))
          (WorkerError.rejected WorkerMessage.reserve_signature))
    waited ←
        wait_if (leb post.ticket.max_amount state.reserved && ltb state.remaining need) need state
    post_raise need post sig waited

  abbrev pub is_llm : JobKind → Bool
  is_llm k = elim k [ JobKind.llm ↦ true | _ ↦ false ]

  -- A picture or a clip must not cost more than the channel lets one settle take.
  unfoldable pub check_cap : JobSubmit A.F J.Value → ChannelState → WorkerResult (Unit {0})
  unfolding advertised_price kind
  check_cap submit state =
      let flat =
        A.to_u64
          (A.round (A.mul (advertised_price A J c submit.payload).amount (A.of_ℕ 1000000))) in
      fail_if
        (ltb 0 state.max_per_job
          && not (is_llm (kind submit.payload))
          && ltb state.max_per_job flat)
        (WorkerError.rejected (WorkerMessage.above_cap flat state.max_per_job))

  abbrev pub check_ticket : Domain → ℕ → ChannelState → Option JobPay → WorkerResult (Unit {0})
  check_ticket d now state none = ok tt
  check_ticket d now state (some bond) =
      map_err (λ e. WorkerError.rejected (WorkerMessage.chunk_ticket e))
        (SpendTicket.check X bond.ticket d bond.sig state.app_key now)

  -- The refusals at the end.
  unfoldable pub check_lock :
      JobSubmit A.F J.Value → Domain → ℕ → ℕ → ChannelState → WorkerResult (Unit {0})
  unfolding check_cap is_zero_address
  check_lock submit d now need state =
      check_cap submit state
      >> fail_if (ltb state.remaining need) (
          WorkerError.rejected (
            if is_some submit.reserve
            then WorkerMessage.no_remaining
            else WorkerMessage.no_reserve_ticket))
      >> fail_if (is_zero_address state.app_key) (WorkerError.rejected WorkerMessage.no_app_key)
      >> check_ticket d now state submit.bond

  -- From the first read on. `bond` is the entry of the job.
  unfoldable pub secure : JobSubmit A.F J.Value → Domain → ℕ → Option Bond → Io J.Value ChannelState
  unfolding read_channel need_of raise_lock check_lock
  secure submit d now bond = do
    first ← read_channel
    state ← lift (ok_or first (WorkerError.rejected WorkerMessage.no_rpc))
    let need = need_of bond state.earned
    raised ← raise_lock need submit.reserve state
    checked ← lift (check_lock submit d now need raised)
    lift (ok raised)

module _ (A : FloatApi) (J : JsonApi) (X : Externals) (K : Signer X) where
  -- The pending bonds after it, with the entry of the job secured.
  unfoldable pub ensure_lock :
      Setup A.F → JobSubmit A.F J.Value → ℕ → Dict Bond → Io J.Value (Dict Bond)
  unfolding payout_of domain secure stash
  ensure_lock c submit now bonds = elim (payout_of c.payout_address) [
    | none ↦ Io.done (ok bonds)
    | some payout ↦ elim submit.payer [
      | none ↦ Io.done (reject WorkerMessage.needs_payer)
      | some payer ↦ do
        d ← lift (ok_or (domain c) (WorkerError.rejected WorkerMessage.no_contract))
        state ← secure A J X K c payer payout submit d now (Dict.get submit.job_id bonds)
        lift (ok (Dict.adjust submit.job_id (stash state) bonds))
    ]
  ]
