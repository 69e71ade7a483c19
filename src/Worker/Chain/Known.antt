-- ===== src/Worker/Chain/Known.antt =====
-- reserve and settle of chain.rs, where the chain already holds what they would send.
use rootmode.Prelude.{
  ◌≡◌, ◌≤◌, refl, sym, ap, subst, ◌∙◌, arith, Bool, true, false, Bool-cases, inl, inr, Option, none,
  some, some_inj, List, [], ◌++◌, append_nil, leb, leb-true,
}
use rootmode.Prelude.Bytes.{Bytes}
use rootmode.Prelude.Text.{Text}
use rootmode.Prelude.Result.{ok, err}
use rootmode.Core.Json.{JsonApi}
use rootmode.Core.Externals.{Externals}
use rootmode.Core.Payments.SpendTicket.{SpendTicket}
use rootmode.Core.Payments.ReserveTicket.{ReserveTicket}
use rootmode.Worker.Chain.Io.{Io, await, Event, World, Outcome, run}
use rootmode.Worker.Chain.Client.{
  PaymentsConfig, ChannelState, Signer, channel_state, unless_known, send_and_wait, reserve, settle,
}
use rootmode.Worker.Chain.Runs.{Every, Every-await, Every-run, weaken, onto, run-await}
use rootmode.Worker.Chain.Looks.{last_shown, sends, Looks, channel_state-Looks}
use rootmode.Worker.Chain.Quiet.{send_and_wait-Sends}
use rootmode.Worker.Errors.{WorkerResult}

module _ (J : JsonApi) where
  module _ (X : Externals) (K : Signer X) where
    -- What a run that stops at what the chain already holds has done: it only looked.
    abbrev pub only_looked :
        (W : World J.Value) (look : Io J.Value (Option ChannelState)) (s : W.State)
        → Outcome J.Value (Option Text) W.State
    only_looked W look s = record {
      result = some (ok none);
      events = (run W look s).events;
      state = (run W look s).state;
    }

    unless_known-run :
        (W : World J.Value) (test : ChannelState → Bool) (go : Io J.Value (Option Text))
        (look : Io J.Value (Option ChannelState)) (s : W.State) (ch : ChannelState)
        → (run W look s).result ≡ some (ok (some ch))
        → test ch ≡ true
        → run W (await look (unless_known J X K test go)) s ≡ only_looked W look s
    unfolding run
    unless_known-run W test go look s ch e known =
        let stop : unless_known J X K test go (ok (some ch)) ≡ Io.done (ok none) = rw known refl in
        run-await W look (unless_known J X K test go) s e
        ∙ ap
            (λ m.
              let rest = run W m (run W look s).state in
              record {
                result = rest.result;
                events = (run W look s).events ++ rest.events;
                state = rest.state;
              })
            stop
        ∙ ap (λ es. record { result = some (ok none); events = es; state = (run W look s).state })
            (append_nil (run W look s).events)

    module _ (payments : PaymentsConfig) (ticket : SpendTicket) where
      abbrev pub last_seen : List (Event J.Value) → Option ChannelState
      last_seen = last_shown J X K payments ticket.client ticket.worker_payout

      -- What was seen last of the channel, and whether the ticket was paid already.
      abbrev pub StopsAtKnown : List (Event J.Value) → WorkerResult (Option Text) → Type 0
      StopsAtKnown g r =
          ((ch : ChannelState)
            → last_seen g ≡ some ch
            → ticket.cumulative ≤ ch.earned
            → (r ≡ ok none) × (sends J X K payments ticket.client ticket.worker_payout g ≡ false))
          × (r ≡ ok none
              → (ch : ChannelState) × (last_seen g ≡ some ch) × (ticket.cumulative ≤ ch.earned))

      sent-StopsAtKnown :
          (call : WorkerResult Bytes) (g : List (Event J.Value))
          → ((ch : ChannelState) → last_seen g ≡ some ch → ticket.cumulative ≤ ch.earned → ⊥)
          → Every StopsAtKnown g (send_and_wait J X K payments call)
      sent-StopsAtKnown call g unpaid =
          weaken _ StopsAtKnown (send_and_wait J X K payments call) g
            (λ f r s. ((λ ch e paid. absurd (unpaid ch (sym s.0 ∙ e) paid)), (λ e. absurd (s.1 e))))
            (send_and_wait-Sends J X K payments ticket.client ticket.worker_payout call g)

      looked-StopsAtKnown :
          (call : WorkerResult Bytes) (g : List (Event J.Value))
          (r : WorkerResult (Option ChannelState))
          → Looks J X K payments ticket.client ticket.worker_payout [] g r
          → Every StopsAtKnown g (
              unless_known J X K
                (λ ch. leb ticket.cumulative ch.earned)
                (send_and_wait J X K payments call)
                r)
      looked-StopsAtKnown call g (ok (some ch)) (seen, silent) =
          elim (Bool-cases (leb ticket.cumulative ch.earned)) [
            | inl paid ↦ rw paid (
              (λ other e le. (refl, silent)),
              (λ e. (ch, seen, leb-true ticket.cumulative ch.earned paid)),
            )
            | inr due ↦ rw due (
                sent-StopsAtKnown call g (λ other e le.
                  let same : ch ≡ other = some_inj (sym seen ∙ e) in later ch other same le due))
          ]
        where
          later :
              (ch other : ChannelState)
              → ch ≡ other
              → ticket.cumulative ≤ other.earned
              → leb ticket.cumulative ch.earned ≡ false
              → ⊥
          later ch other same le due =
              let low : ticket.cumulative ≤ ch.earned =
                subst (λ c. ticket.cumulative ≤ c.earned) (sym same) le in
              absurd (ground arith)
      looked-StopsAtKnown call g (ok none) (seen, silent) =
          sent-StopsAtKnown call g (λ ch e le. cc (sym seen ∙ e))
      looked-StopsAtKnown call g (err x) (seen, silent) =
          sent-StopsAtKnown call g (λ ch e le. cc (sym seen ∙ e))

      -- Whatever is replied, a run of settle that ends returns none exactly when the last reply
      -- that shows the ticket's channel shows at least the ticket's total as recognised, and a
      -- run in which it shows this has made no request that sends a transaction.
      pub settle_known :
          (W : World J.Value) (sig : Bytes) (s : W.State) (r : WorkerResult (Option Text))
          → (run W (settle J X K payments ticket sig) s).result ≡ some r
          → StopsAtKnown (onto (run W (settle J X K payments ticket sig) s).events []) r
      unfolding settle
      settle_known W sig s r e =
          let look = channel_state J X K payments ticket.client ticket.worker_payout in
          Every-run W StopsAtKnown (settle J X K payments ticket sig) [] s
            (Every-await StopsAtKnown look [] _ (
              weaken _ _ look [] (looked-StopsAtKnown _)
                (channel_state-Looks J X K payments ticket.client ticket.worker_payout [])))
            e

    -- When the look at the channel shows a lock at or above the ticket's amount, reserve
    -- returns none, and its run made the requests of that look and no others.
    pub reserve_known :
        (W : World J.Value) (payments : PaymentsConfig) (ticket : ReserveTicket) (sig : Bytes)
        (s : W.State) (ch : ChannelState)
        → let look = channel_state J X K payments ticket.client ticket.worker_payout in
          (run W look s).result ≡ some (ok (some ch))
          → ticket.max_amount ≤ ch.reserved
          → run W (reserve J X K payments ticket sig) s ≡ only_looked W look s
    unfolding reserve
    reserve_known W payments ticket sig s ch e locked =
        unless_known-run W (λ c. leb ticket.max_amount c.reserved) _
          (channel_state J X K payments ticket.client ticket.worker_payout) s ch e (ground arith)
