-- ===== src/Worker/Server/Lock/Shown.antt =====
-- crates/rootmode-worker/src/server.rs: the channel that ensure_lock decides on is the one that the
-- last readable reply shows.
use rootmode.Prelude.{
  ℕ, zero, suc, ◌≡◌, refl, ap, ◌∙◌, Bool, true, false, not, ◌&&◌, Bool-cases, inl, inr, Option,
  none, some, List, [], ltb, leb, if◌then◌else◌,
}
use rootmode.Prelude.Bytes.{Bytes}
use rootmode.Prelude.Text.{Text, eq_ignore_ascii_case, trim_0x}
use rootmode.Prelude.Result.{ok, err, ok_inj, ok_or, fail_if}
use rootmode.Core.Externals.{Externals}
use rootmode.Core.Floats.{FloatApi}
use rootmode.Core.Json.{JsonApi}
use rootmode.Core.Payments.{Domain}
use rootmode.Core.Protocol.{JobSubmit, ReservePost}
use rootmode.Worker.Errors.{WorkerMessage, WorkerError, WorkerResult}
use rootmode.Worker.Chain.Io.{Io, pass, await, Event}
use rootmode.Worker.Chain.Runs.{Every, Every-await, weaken, always}
use rootmode.Worker.Chain.Client.{ChannelState, Signer, reserve}
use rootmode.Worker.Chain.Looks.{last_shown, Looks, channel_state-Looks}
use rootmode.Worker.Server.{Setup, Bond}
use rootmode.Worker.Server.Lock.{
  need_of, lock_rounds, read_channel, newer, wait_lock, wait_if, after_post, read_back, post_raise,
  raise_lock, check_lock, secure,
}

module _ (A : FloatApi) (J : JsonApi) (X : Externals) (K : Signer X) (c : Setup A.F)
    (payer payout : Text) where
  abbrev pub last_read : List (Event J.Value) → Option ChannelState
  last_read = last_shown J X K c.payments payer payout

  -- A state that is returned is the last that was shown.
  abbrev pub Shows : List (Event J.Value) → WorkerResult ChannelState → Type 0
  Shows h r = (state : ChannelState) → r ≡ ok state → last_read h ≡ some state

  shows :
      (h : List (Event J.Value)) (state : ChannelState)
      → last_read h ≡ some state
      → Shows h (ok state)
  shows h state e other q = e ∙ ap some (ok_inj q)

  fails : (h : List (Event J.Value)) (e : WorkerError) → Shows h (err e)
  fails h e state q = absurd (cc q)

  read-Looks :
      (h : List (Event J.Value))
      → Every (Looks J X K c.payments payer payout h) h (read_channel A J X K c payer payout)
  unfolding read_channel
  read-Looks h = channel_state-Looks J X K c.payments payer payout h

  newer_shown :
      (h g : List (Event J.Value)) (state : ChannelState) (r : WorkerResult (Option ChannelState))
      → last_read h ≡ some state
      → Looks J X K c.payments payer payout h g r
      → last_read g ≡ some (newer A J X K c payer payout state r)
  newer_shown h g state (ok (some s)) e look = look.0
  newer_shown h g state (ok none) e look = look.0 ∙ e
  newer_shown h g state (err x) e look = look.0 ∙ e

  wait_lock-Shows :
      (need n : ℕ) (state : ChannelState) (h : List (Event J.Value))
      → last_read h ≡ some state
      → Every Shows h (wait_lock A J X K c payer payout need n state)
  unfolding wait_lock
  wait_lock-Shows need zero state h e = shows h state e
  wait_lock-Shows need (suc n) state h e = elim (Bool-cases (ltb state.remaining need)) [
    | inl short ↦ rw short (
        Every-await Shows (read_channel A J X K c payer payout) h _ (
          weaken _ _ (read_channel A J X K c payer payout) h
            (λ g r look.
              wait_lock-Shows need n (newer A J X K c payer payout state r) g
                (newer_shown h g state r e look))
            (read-Looks h)))
    | inr enough ↦ rw enough (shows h state e)
  ]

  -- A step on the state that the first part returned.
  then_state :
      (m : Io J.Value ChannelState) (k : ChannelState → Io J.Value ChannelState)
      (h : List (Event J.Value))
      → Every Shows h m
      → ((g : List (Event J.Value)) (state : ChannelState)
          → last_read g ≡ some state
          → Every Shows g (k state))
      → Every Shows h (await m (pass k))
  then_state m k h first rest = Every-await Shows m h (pass k) (weaken Shows _ m h step first)
    where
      step :
          (g : List (Event J.Value)) (r : WorkerResult ChannelState)
          → Shows g r
          → Every Shows g (pass k r)
      step g (ok state) e = rest g state (e state refl)
      step g (err x) e = fails g x

  -- A step behind a check.
  then_checked :
      {B : Type 0} (r : WorkerResult B) (k : B → Io J.Value ChannelState) (h : List (Event J.Value))
      → ((b : B) → Every Shows h (k b))
      → Every Shows h (pass k r)
  then_checked (ok b) k h rest = rest b
  then_checked (err x) k h rest = fails h x

  after_post-Shows :
      (need : ℕ) (posted : WorkerResult (Option Text)) (state : ChannelState)
      (h : List (Event J.Value))
      → last_read h ≡ some state
      → Every Shows h (after_post A J X K c payer payout need posted state)
  after_post-Shows need (ok hash) state h e = shows h state e
  after_post-Shows need (err x) state h e =
      then_state (wait_lock A J X K c payer payout need lock_rounds state) _ h
        (wait_lock-Shows need lock_rounds state h e)
        (λ g waited f. elim (Bool-cases (ltb waited.remaining need)) [
          | inl short ↦ rw short (fails g _)
          | inr enough ↦ rw enough (shows g waited f)
        ])

  post_raise-Shows :
      (need : ℕ) (post : ReservePost) (sig : Bytes) (state : ChannelState)
      (h : List (Event J.Value))
      → last_read h ≡ some state
      → Every Shows h (post_raise A J X K c payer payout need post sig state)
  unfolding post_raise
  post_raise-Shows need post sig state h e =
      elim (Bool-cases (ltb state.reserved post.ticket.max_amount)) [
        | inr enough ↦ rw enough (shows h state e)
        | inl short ↦ rw short (
            Every-await Shows (reserve J X K c.payments post.ticket sig) h _
              (always _ (reserve J X K c.payments post.ticket sig) h posted))
      ]
    where
      back :
          (posted : WorkerResult (Option Text)) (h g : List (Event J.Value))
          (r : WorkerResult (Option ChannelState))
          → Looks J X K c.payments payer payout h g r
          → Every Shows g (
              pass
                (after_post A J X K c payer payout need posted)
                (read_back A J X K c payer payout r))
      back posted h g (ok (some s)) look = after_post-Shows need posted s g look.0
      back posted h g (ok none) look = fails g _
      back posted h g (err x) look = fails g x

      posted :
          (g : List (Event J.Value)) (r : WorkerResult (Option Text))
          → Every Shows g (
              await (read_channel A J X K c payer payout) (λ q.
                pass
                  (after_post A J X K c payer payout need r)
                  (read_back A J X K c payer payout q)))
      posted g r =
          Every-await Shows (read_channel A J X K c payer payout) g _
            (weaken _ _ (read_channel A J X K c payer payout) g (back r g) (read-Looks g))

  raise_lock-Shows :
      (need : ℕ) (post : Option ReservePost) (state : ChannelState) (h : List (Event J.Value))
      → last_read h ≡ some state
      → Every Shows h (raise_lock A J X K c payer payout need post state)
  unfolding raise_lock wait_if
  raise_lock-Shows need none state h e = shows h state e
  raise_lock-Shows need (some post) state h e =
      then_checked (fail_if (not (eq_ignore_ascii_case post.ticket.worker_payout payout)) _) _ h
        (λ u.
          then_checked (fail_if (not (eq_ignore_ascii_case post.ticket.client payer)) _) _ h (λ v.
            then_checked (ok_or (X.hex_decode (trim_0x post.sig)) _) _ h (λ sig.
              then_state
                (wait_if A J X K c payer payout
                  (leb post.ticket.max_amount state.reserved && ltb state.remaining need) need
                  state)
                _ h (waited (leb post.ticket.max_amount state.reserved && ltb state.remaining need))
                (λ g s f. post_raise-Shows need post sig s g f))))
    where
      waited :
          (b : Bool)
          → Every Shows h (
              if b
              then wait_lock A J X K c payer payout need lock_rounds state
              else Io.done (ok state))
      waited true = wait_lock-Shows need lock_rounds state h e
      waited false = shows h state e

  pub secure-Shows :
      (submit : JobSubmit A.F J.Value) (d : Domain) (now : ℕ) (bond : Option Bond)
      → Every Shows [] (secure A J X K c payer payout submit d now bond)
  unfolding secure
  secure-Shows submit d now bond =
      Every-await Shows (read_channel A J X K c payer payout) [] _
        (weaken _ _ (read_channel A J X K c payer payout) [] first (read-Looks []))
    where
      behind : ChannelState → Io J.Value ChannelState
      behind state =
          await (raise_lock A J X K c payer payout (need_of bond state.earned) submit.reserve state)
            (pass (λ raised.
              await
                (Io.done (
                  check_lock A J X K c payer payout submit d now (need_of bond state.earned)
                    raised))
                (pass (λ u. Io.done (ok raised)))))

      first :
          (g : List (Event J.Value)) (r : WorkerResult (Option ChannelState))
          → Looks J X K c.payments payer payout [] g r
          → Every Shows g (
              pass
                (λ first.
                  await
                    (Io.done (ok_or first (WorkerError.rejected WorkerMessage.no_rpc)))
                    (pass behind))
                r)
      first g (err x) look = fails g x
      first g (ok none) look = fails g _
      first g (ok (some state)) look =
          then_state
            (raise_lock A J X K c payer payout (need_of bond state.earned) submit.reserve state) _ g
            (raise_lock-Shows (need_of bond state.earned) submit.reserve state g look.0)
            (λ f raised e.
              then_checked
                (check_lock A J X K c payer payout submit d now (need_of bond state.earned) raised)
                _ f (λ u. shows f raised e))
