-- ===== src/Worker/Server/Lock/Secured.antt =====
-- crates/rootmode-worker/src/server.rs: what a job that passes ensure_lock has behind it.
use rootmode.Prelude.{ℕ, ◌≤◌, ◌≡◌, false, Option, some, List, []}
use rootmode.Prelude.Text.{Text}
use rootmode.Prelude.Dict
use rootmode.Prelude.Dict.{Dict}
use rootmode.Prelude.Result.{ok, ok_or}
use rootmode.Core.Externals.{Externals}
use rootmode.Core.Floats.{FloatApi}
use rootmode.Core.Json.{JsonApi}
use rootmode.Core.Payments.{Domain}
use rootmode.Core.Protocol.{JobSubmit}
use rootmode.Worker.Errors.{WorkerMessage, WorkerError, WorkerResult}
use rootmode.Worker.Chain.Words.{is_zero_address}
use rootmode.Worker.Chain.Io.{Io, pass, await, Event, World, run}
use rootmode.Worker.Chain.Runs.{onto}
use rootmode.Worker.Chain.Client.{ChannelState, Signer}
use rootmode.Worker.Server.{Setup, Bond, domain, payout_of}
use rootmode.Worker.Server.Lock.Shown.{last_read}
use rootmode.Worker.Server.Lock.{
  need_of, stash, read_channel, raise_lock, check_cap, check_ticket, check_lock, secure,
}

module _ (A : FloatApi) (J : JsonApi) (X : Externals) (K : Signer X) where
  -- A channel with enough left for the job, whose key is registered and signed the job's chunk.
  pub record IsSecure (c : Setup A.F) (payer payout : Text) (submit : JobSubmit A.F J.Value)
      (now : ℕ) (bond : Option Bond) (earned : ℕ) (state : ChannelState) : Type 0 where
    pub contract : Domain
    pub configured : domain c ≡ some contract
    pub need : need_of bond earned ≤ state.remaining
    pub key : is_zero_address state.app_key ≡ false
    pub cap : check_cap A J X K c payer payout submit state ≡ ok tt
    pub ticket : check_ticket A J X K c payer payout contract now state submit.bond ≡ ok tt

  module _ (c : Setup A.F) (payer payout : Text) (submit : JobSubmit A.F J.Value) (now : ℕ) where
    abbrev Secures : Option Bond → ℕ → List (Event J.Value) → WorkerResult ChannelState → Type 0
    Secures bond earned h r =
        (state : ChannelState) → r ≡ ok state → IsSecure c payer payout submit now bond earned state

    -- What `secure` does once the channel was read.
    abbrev behind_first : Domain → Option Bond → ChannelState → Io J.Value ChannelState
    behind_first d bond first =
        await (raise_lock A J X K c payer payout (need_of bond first.earned) submit.reserve first) (
          pass (λ raised.
            await
              (Io.done
                (check_lock A J X K c payer payout submit d now (need_of bond first.earned) raised))
              (pass (λ u. Io.done (ok raised)))))

    -- A run that secures the job has read the channel first.
    abbrev Secured : (W : World J.Value) → W.State → Option Bond → ChannelState → Type 0
    Secured W s bond state =
        (first : ChannelState) × ((run W (read_channel A J X K c payer payout) s).result
          ≡ some (ok (some first)))
        × IsSecure c payer payout submit now bond first.earned state

  -- What a run with these events has left pending: the bonds with the entry of the job secured, where
  -- a payout is configured.
  abbrev pub Ensures :
      (W : World J.Value)
      → W.State
      → Setup A.F
      → JobSubmit A.F J.Value
      → ℕ
      → Dict Bond
      → List (Event J.Value)
      → Dict Bond
      → Type 0
  Ensures W s c submit now bonds es after =
      (payout : Text)
      → payout_of c.payout_address ≡ some payout
      → (payer : Text) × (submit.payer ≡ some payer)
        × (state : ChannelState) × (last_read A J X K c payer payout (onto es []) ≡ some state)
        × Secured c payer payout submit now W s (Dict.get submit.job_id bonds) state
        × (after ≡ Dict.adjust submit.job_id (stash state) bonds)

  module _ (c : Setup A.F) (submit : JobSubmit A.F J.Value) (now : ℕ) (bonds after : Dict Bond)
      (W : World J.Value) (s : W.State) where
    abbrev job : Option Bond
    job = Dict.get submit.job_id bonds

    -- What ensure_lock does with the state that `secure` returned.
    abbrev stashed : ChannelState → Io J.Value (Dict Bond)
    stashed state = Io.done (ok (Dict.adjust submit.job_id (stash state) bonds))

    abbrev tail : Text → Text → Io J.Value (Dict Bond)
    tail payer payout =
        await (Io.done (ok_or (domain c) (WorkerError.rejected WorkerMessage.no_contract)))
          (pass (λ d. await (secure A J X K c payer payout submit d now job) (pass stashed)))
