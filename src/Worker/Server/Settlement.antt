-- ===== src/Worker/Server/Settlement.antt =====
-- crates/rootmode-worker/src/server.rs: when a ticket is settled, and what that leaves in the ledger.
pub mod Settled
use rootmode.Prelude.{
  ℕ, ◌-◌, ◌/◌, Bool, not, ◌&&◌, ◌||◌, Option, none, some, List, [], ◌∷◌, is_empty, leb, ltb, ◌==◌,
  length, true, false, if◌then◌else◌,
}
use rootmode.Prelude.Text.{Text, text, trim_0x}
use rootmode.Prelude.Strings.{trim}
use rootmode.Prelude.Result.{Result, ok, err}
use rootmode.Core.Externals.{Externals}
use rootmode.Core.Floats.{FloatApi}
use rootmode.Core.Json.{JsonApi}
use rootmode.Core.Payments.SpendTicket.{SpendTicket}
use rootmode.Core.Protocol.{JobPay, protocol_version}
use rootmode.Worker.Errors.{WorkerResult}
use rootmode.Worker.Channels.{Channel, Channels, id_for, redeemable, settled}
use rootmode.Worker.Chain.Io
use rootmode.Worker.Chain.Io.{Io, await, ◌>>=◌}
use rootmode.Worker.Chain.Client.{PaymentsConfig, ChannelState, Signer, channel_state, settle}
use rootmode.Worker.Server.{settle_min_micros, settle_before_deadline_secs}

-- `Uuid::nil()`
abbrev pub nil_job : Text
nil_job = text "00000000-0000-0000-0000-000000000000"

unfoldable pub can_settle : PaymentsConfig → Bool
unfolding trim
can_settle p =
    not (is_empty (trim p.rpc)) && not (is_empty (trim p.sender) && is_empty (trim p.key))

unfoldable pub due_soon : SpendTicket → ℕ → Bool
due_soon ticket now = ltb (ticket.deadline - now) settle_before_deadline_secs

-- What a read of the channel decides, where the ticket is not due.
unfoldable pub worth_now : SpendTicket → WorkerResult (Option ChannelState) → Bool
worth_now ticket (ok (some state)) =
    let delta = ticket.cumulative - state.earned in
    let near_cap = ltb 0 state.max_per_job && leb (state.max_per_job / 2) delta in
    not (delta == 0) && (leb settle_min_micros delta || near_cap)
worth_now ticket (ok none) = true
worth_now ticket (err e) = true

module _ (J : JsonApi) (X : Externals) (K : Signer X) (p : PaymentsConfig) where
  unfoldable pub worth_settling : SpendTicket → ℕ → Io J.Value Bool
  unfolding due_soon worth_now channel_state
  worth_settling ticket now =
      if due_soon ticket now
      then Io.done (ok true)
      else await (channel_state J X K p ticket.client ticket.worker_payout)
          (λ r. Io.done (ok (worth_now ticket r)))

  -- The ledger after it, `saved` being whether its file could be written.
  unfoldable pub settle_ticket : Channels → Text → JobPay → Bool → Io J.Value Channels
  unfolding settle settled trim_0x
  settle_ticket s id pay saved = elim (X.hex_decode (trim_0x pay.sig)) [
    | none ↦ Io.done (ok s)
    | some sig ↦
        if not (length sig == 65)
        then Io.done (ok s)
        else await (settle J X K p pay.ticket sig) (λ r.
          Io.done (ok (elim r [ ok hash ↦ settled s id pay.ticket.cumulative saved | err e ↦ s ])))
  ]

  unfoldable pub settle_if_configured : Channels → JobPay → ℕ → Bool → Io J.Value Channels
  unfolding can_settle worth_settling settle_ticket
  settle_if_configured s pay now saved =
      if not (can_settle p)
      then Io.done (ok s)
      else worth_settling pay.ticket now >>= λ worth.
          if worth
          then settle_ticket s (id_for X s pay.ticket.client pay.ticket.worker_payout) pay saved
          else Io.done (ok s)

  abbrev pub both : {A B : Type 0} → Option A → Option B → Option (A × B)
  both (some a) (some b) = some (a, b)
  both (some a) none = none
  both none b = none

  -- One round of the loop of `settle_due`.
  abbrev pub settle_channel : Channels → Channel → ℕ → Bool → Io J.Value Channels
  settle_channel s ch now saved = elim (both ch.spend ch.spend_sig) [
    | none ↦ Io.done (ok s)
    | some (ticket, sig) ↦ worth_settling ticket now >>= λ worth.
        if worth
        then settle_ticket s ch.channel_id
            (record { v = protocol_version; job_id = nil_job; ticket = ticket; sig = sig }) saved
        else Io.done (ok s)
  ]

  -- `times` is the time at which the turn of a channel comes.
  unfoldable pub settle_each : List Channel → Channels → (Text → ℕ) → Bool → Io J.Value Channels
  settle_each [] s times saved = Io.done (ok s)
  settle_each (ch ∷ chs) s times saved =
      settle_channel s ch (times ch.channel_id) saved >>= λ s'. settle_each chs s' times saved

  unfoldable pub settle_due : Channels → (Text → ℕ) → Bool → Io J.Value Channels
  unfolding can_settle redeemable settle_each
  settle_due s times saved =
      if not (can_settle p) then Io.done (ok s) else settle_each (redeemable s) s times saved
