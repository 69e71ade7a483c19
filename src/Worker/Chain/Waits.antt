-- ===== src/Worker/Chain/Waits.antt =====
-- crates/rootmode-worker/src/chain.rs: how the wait for a transaction ends.
use rootmode.Prelude.{
  ℕ, zero, suc, ◌<◌, ◌≡◌, refl, ◌∙◌, ap, true, false, some, if◌then◌else◌, arith, Bool-cases, inl,
  inr,
}
use rootmode.Prelude.Text.{Text, text, text_eq}
use rootmode.Prelude.Result.{ok, err}
use rootmode.Core.Externals.{Externals}
use rootmode.Core.Json.{JsonApi}
use rootmode.Worker.Errors.{WorkerResult, WorkerError, WorkerMessage}
use rootmode.Worker.Chain.Io.{Io, Request, World, Outcome, pass, run}
use rootmode.Worker.Chain.Client.{Signer, rpc, status_of, wait_rounds, wait_ok}
use rootmode.Worker.Chain.Runs.{run-await}

module _ (J : JsonApi) (X : Externals) (K : Signer X) (W : World J.Value) (url hash : Text) where
  -- A round: the pause, and then a question for the receipt.
  abbrev pub poll : W.State → Outcome J.Value J.Value W.State
  poll s = run W (rpc url (Request.eth_get_transaction_receipt hash)) (W.wait s 500)

  -- There is no receipt in `n` rounds, and then there is one.
  abbrev pub IsAnsweredIn : ℕ → J.Value → W.State → Type 0
  IsAnsweredIn zero v s = ((poll s).result ≡ some (ok v)) × (J.is_null v ≡ false)
  IsAnsweredIn (suc n) v s =
      (e : J.Value) × ((poll s).result ≡ some (ok e))
      × (J.is_null e ≡ true)
      × IsAnsweredIn n v (poll s).state

  abbrev verdict : J.Value → WorkerResult (Unit {0})
  verdict v =
      if text_eq (status_of J v) (text "0x1")
      then ok tt
      else err (WorkerError.rejected WorkerMessage.reverted)

  -- What follows the reply of a round.
  abbrev after : ℕ → J.Value → Io J.Value (Unit {0})
  after k e =
      if J.is_null e
      then wait_rounds J X K k url hash
      else if text_eq (status_of J e) (text "0x1")
      then Io.done (ok tt)
      else Io.done (err (WorkerError.rejected WorkerMessage.reverted))

  round :
      (k : ℕ) (e : J.Value) (s : W.State)
      → (poll s).result ≡ some (ok e)
      → (run W (wait_rounds J X K (suc k) url hash) s).result
        ≡ (run W (after k e) (poll s).state).result
  unfolding wait_rounds run
  round k e s h =
      ap (λ o. o.result)
        (run-await W (rpc url (Request.eth_get_transaction_receipt hash)) (pass (after k))
          (W.wait s 500) h)

  wait_rounds-verdict :
      (n k : ℕ) (v : J.Value) (s : W.State)
      → n < k
      → IsAnsweredIn n v s
      → (run W (wait_rounds J X K k url hash) s).result ≡ some (verdict v)
  unfolding run
  wait_rounds-verdict n zero v s h a = absurd (omega arith)
  wait_rounds-verdict zero (suc k) v s h a =
      round k v s a.0 ∙ (elim (Bool-cases (text_eq (status_of J v) (text "0x1"))) [
        | inl good ↦ rw (a.1, good) refl
        | inr bad ↦ rw (a.1, bad) refl
      ])
  wait_rounds-verdict (suc n) (suc k) v s h (e, got, empty, a) =
      round k e s got ∙ (rw empty (wait_rounds-verdict n k v (poll s).state (omega arith) a))

  -- When the endpoint answers every question for the receipt without an error, first with no
  -- receipt and then, at one of the first 60 questions, with one, wait_ok returns: with success
  -- where the status is 0x1, and with the error of a reverted transaction otherwise.
  pub wait_ok-answers :
      (n : ℕ) (v : J.Value) (s : W.State)
      → n < 60
      → IsAnsweredIn n v s
      → (run W (wait_ok J X K url hash) s).result
        ≡ some (
            if text_eq (status_of J v) (text "0x1")
            then ok tt
            else err (WorkerError.rejected WorkerMessage.reverted))
  unfolding wait_ok
  wait_ok-answers n v s h a = wait_rounds-verdict n 60 v s h a
