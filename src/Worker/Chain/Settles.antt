-- ===== src/Worker/Chain/Settles.antt =====
-- reserve and settle of chain.rs: when they say that they paid, and when they send nothing.
use rootmode.Prelude.{
  ℕ, zero, suc, ◌≡◌, refl, subst, Bool, true, false, Bool-cases, inl, inr, Option, none, some, List,
  [], ◌∷◌, if◌then◌else◌, not,
}
use rootmode.Prelude.Bytes.{Bytes}
use rootmode.Prelude.Text.{Text, text, text_eq, text_eq_iff}
use rootmode.Prelude.Strings.{contains}
use rootmode.Prelude.Result.{ok, err}
use rootmode.Core.Json.{JsonApi}
use rootmode.Core.Externals.{Externals}
use rootmode.Core.Payments.SpendTicket.{SpendTicket}
use rootmode.Worker.Errors.{WorkerMessage, WorkerError, WorkerResult}
use rootmode.Worker.Chain.Io.{Request, Io, pass, ◌>>=◌, Event, World, run}
use rootmode.Worker.Chain.Client.{
  PaymentsConfig, ChannelState, Signer, rpc, try_all, base_mainnet_fallback_rpcs, channel_state,
  wait_rounds, wait_ok, status_of, send_call, send_and_wait, unless_known, settle,
}
use rootmode.Worker.Chain.Runs.{Every, Every-await, weaken, always, onto, Every-run}

-- What is kept by each request of one kind, and what then holds of a reply and of a failure.
module _ {V : Type 0} (I : List (Event V) → Type 0) (Q : List (Event V) → WorkerResult V → Type 0)
    (q : Request)
    (keep : (g : List (Event V)) (u : Text) (r : WorkerResult V)
      → I g
      → I (record { url = u; request = q; reply = r } ∷ g))
    (good : (g : List (Event V)) (u : Text) (v : V)
      → I g
      → Q (record { url = u; request = q; reply = ok v } ∷ g) (ok v))
    (bad : (g : List (Event V)) (e : WorkerError) → I g → Q g (err e)) where
  try_all-Every :
      (urls : List Text) (first : WorkerError) (h : List (Event V))
      → I h
      → Every Q h (try_all urls q first)
  try_all-Every [] first h p = bad h first p
  try_all-Every (u ∷ urls) first h p = λ r.
      elim r
        as (λ x.
          Every Q (record { url = u; request = q; reply = x } ∷ h)
            (elim x [ ok v ↦ Io.done (ok v) | err e ↦ try_all urls q first ])) [
              | ok v ↦ good h u v p
              | err e ↦
                  try_all-Every urls first (record { url = u; request = q; reply = err e } ∷ h)
                    (keep h u (err e) p)
            ]

  rpc-Every : (url : Text) (h : List (Event V)) → I h → Every Q h (rpc url q)
  unfolding rpc
  rpc-Every url h p = λ r.
      elim r
        as (λ x. Every Q (record { url = url; request = q; reply = x } ∷ h) (elim x [
          | ok v ↦ Io.done (ok v)
          | err first ↦
              if not (contains url (text "base.org"))
              then Io.done (err first)
              else try_all base_mainnet_fallback_rpcs q first
        ])) [ ok v ↦ good h url v p | err e ↦ go e (contains url (text "base.org")) ]
    where
      go :
          (e : WorkerError) (b : Bool)
          → Every Q
              (record { url = url; request = q; reply = err e } ∷ h)
              (if not b then Io.done (err e) else try_all base_mainnet_fallback_rpcs q e)
      go e false = bad _ e (keep h url (err e) p)
      go e true =
          try_all-Every base_mainnet_fallback_rpcs e
            (record { url = url; request = q; reply = err e } ∷ h) (keep h url (err e) p)

module _ (J : JsonApi) where
  -- A reply that says that the transaction of a hash was mined and did not revert.
  pub record IsReceipt (hash : Text) (e : Event J.Value) : Type 0 where
    pub asked : e.request ≡ Request.eth_get_transaction_receipt hash
    pub receipt : J.Value
    pub replied : e.reply ≡ ok receipt
    pub mined : J.is_null receipt ≡ false
    pub succeeded : status_of J receipt ≡ text "0x1"

  -- The latest event is such a reply.
  abbrev pub IsConfirmed : Text → List (Event J.Value) → Type 0
  IsConfirmed hash [] = ⊥
  IsConfirmed hash (e ∷ h) = IsReceipt hash e

  module _ (X : Externals) (K : Signer X) where
    wait_rounds-Every :
        (n : ℕ) (url hash : Text) (h : List (Event J.Value))
        → Every (λ g r. r ≡ ok tt → IsConfirmed hash g) h (wait_rounds J X K n url hash)
    unfolding wait_rounds
    wait_rounds-Every zero url hash h = λ e. absurd (cc e)
    wait_rounds-Every (suc n) url hash h =
        Every-await _ (rpc url (Request.eth_get_transaction_receipt hash)) h _ (
          rpc-Every (λ g. Unit {0}) _ _ (λ g u r p. tt) (good (wait_rounds-Every n url hash))
            (λ g e p. λ f. absurd (cc f)) url h tt)
      where
        good :
            ((g : List (Event J.Value))
              → Every (λ f r. r ≡ ok tt → IsConfirmed hash f) g (wait_rounds J X K n url hash))
            → (g : List (Event J.Value)) (u : Text) (v : J.Value) → Unit {0}
            → Every
                (λ g r. r ≡ ok tt → IsConfirmed hash g)
                (record {
                  url = u;
                  request = Request.eth_get_transaction_receipt hash;
                  reply = ok v;
                }
                  ∷ g)
                (if J.is_null v
                  then wait_rounds J X K n url hash
                  else if text_eq (status_of J v) (text "0x1")
                  then Io.done (ok tt)
                  else Io.done (err (WorkerError.rejected WorkerMessage.reverted)))
        good next g u v p = elim (Bool-cases (J.is_null v)) [
          | inl pending ↦ rw pending (next _)
          | inr mined ↦ elim (Bool-cases (text_eq (status_of J v) (text "0x1"))) [
            | inl success ↦
                rw (mined, success)
                  (λ e. record {
                    asked = refl;
                    receipt = v;
                    replied = refl;
                    mined = mined;
                    succeeded = (text_eq_iff (status_of J v) (text "0x1")).0 success;
                  })
            | inr reverted ↦ rw (mined, reverted) (λ e. absurd (cc e))
          ]
        ]

    -- A result that names a transaction comes right after its receipt.
    abbrev pub NamesMined : List (Event J.Value) → WorkerResult (Option Text) → Type 0
    NamesMined h r = (hash : Text) → r ≡ ok (some hash) → IsConfirmed hash h

    fails : (h : List (Event J.Value)) (e : WorkerError) → NamesMined h (err e)
    fails h e hash f = absurd (cc f)

    send_and_wait-Every :
        (payments : PaymentsConfig) (call : WorkerResult Bytes) (h : List (Event J.Value))
        → Every NamesMined h (send_and_wait J X K payments call)
    unfolding wait_ok
    send_and_wait-Every payments (err e) h = fails h e
    send_and_wait-Every payments (ok data_bytes) h =
        Every-await NamesMined (send_call J X K payments data_bytes) h _
          (always _ (send_call J X K payments data_bytes) h sent)
      where
        mined :
            (hash : Text) (g : List (Event J.Value)) (r : WorkerResult (Unit {0}))
            → (r ≡ ok tt → IsConfirmed hash g)
            → Every NamesMined g (pass (λ u. Io.done (ok (some hash))) r)
        mined hash g (ok u) p = λ other e. subst (λ x. IsConfirmed x g) (cc e) (p refl)
        mined hash g (err e) p = fails g e

        sent :
            (g : List (Event J.Value)) (r : WorkerResult Text)
            → Every NamesMined g
                (pass (λ hash. wait_ok J X K payments.rpc hash >>= λ u. Io.done (ok (some hash))) r)
        sent g (err e) = fails g e
        sent g (ok hash) = Every-await NamesMined (wait_ok J X K payments.rpc hash) g _ (
            weaken _ _ (wait_ok J X K payments.rpc hash) g (mined hash)
              (wait_rounds-Every 60 payments.rpc hash g))

    unless_known-Every :
        (test : ChannelState → Bool) (go : Io J.Value (Option Text))
        (known : WorkerResult (Option ChannelState)) (g : List (Event J.Value))
        → ((h : List (Event J.Value)) → Every NamesMined h go)
        → Every NamesMined g (unless_known J X K test go known)
    unless_known-Every test go (ok (some ch)) g f = elim (Bool-cases (test ch)) [
      | inl paid ↦ rw paid (λ hash e. absurd (cc e))
      | inr due ↦ rw due (f g)
    ]
    unless_known-Every test go (ok none) g f = f g
    unless_known-Every test go (err e) g f = f g

    -- Against any outside world, and whatever it replies, when settle returns a transaction
    -- hash, the last event of the run is a reply to a request for the receipt of that very
    -- hash, which is not null and has the status 0x1.
    pub settle-NamesMined :
        (W : World J.Value) (payments : PaymentsConfig) (ticket : SpendTicket) (sig : Bytes)
        (s : W.State) (hash : Text)
        → (run W (settle J X K payments ticket sig) s).result ≡ some (ok (some hash))
        → IsConfirmed hash (onto (run W (settle J X K payments ticket sig) s).events [])
    unfolding settle
    settle-NamesMined W payments ticket sig s hash e =
        Every-run W NamesMined (settle J X K payments ticket sig) [] s
          (Every-await NamesMined (channel_state J X K payments ticket.client ticket.worker_payout)
            [] _
            (always _ (channel_state J X K payments ticket.client ticket.worker_payout) []
              (λ g known. unless_known-Every _ _ known g (send_and_wait-Every payments _))))
          e hash refl
