-- ===== src/Worker/Chain/Quiet.antt =====
-- crates/rootmode-worker/src/chain.rs: sending a transaction and waiting for it does not ask for the
-- channel.
use rootmode.Prelude.{
  ℕ, zero, suc, ◌≡◌, refl, ◌∙◌, Bool, true, false, Option, none, some, List, [], is_empty,
  if◌then◌else◌, ◌==◌,
}
use rootmode.Prelude.Bytes.{Bytes}
use rootmode.Prelude.Text.{Text, text, text_eq}
use rootmode.Prelude.Strings.{trim}
use rootmode.Prelude.Result.{ok, err, fail_if}
use rootmode.Core.Json.{JsonApi}
use rootmode.Core.Externals.{Externals}
use rootmode.Core.Payments.{address_of}
use rootmode.Worker.Chain.Words.{parse_address, parse_u64_hex}
use rootmode.Worker.Errors.{WorkerResult, WorkerError, WorkerMessage}
use rootmode.Worker.Chain.Io.{Io, Request, Event, pass, await}
use rootmode.Worker.Chain.Client.{
  PaymentsConfig, Signer, rpc, status_of, str_or, wait_rounds, wait_ok, send_signed, send_call,
  send_and_wait, signing_key, sign_legacy,
}
use rootmode.Worker.Chain.Runs.{Every, Every-await, weaken}
use rootmode.Worker.Chain.Looks.{asks, last_shown, Keeps, Keeps-await, Keeps-pass, rpc-Keeps}

module _ (J : JsonApi) (X : Externals) (K : Signer X) (payments : PaymentsConfig)
    (client worker : Text) where
  -- What was shown is kept by every run of a function, from every history.
  abbrev IsQuiet : {B : Type 0} → Io J.Value B → Type 0
  IsQuiet m = (h : List (Event J.Value)) → Every (Keeps J X K payments client worker h) h m

  rpc_then :
      {B : Type 0} (url : Text) (q : Request) (k : J.Value → Io J.Value B)
      → ((h : List (Event J.Value)) → Every (Keeps J X K payments client worker h) h (rpc url q))
      → ((v : J.Value) → IsQuiet (k v))
      → IsQuiet (await (rpc url q) (pass k))
  rpc_then url q k first rest h =
      Keeps-await J X K payments client worker h (rpc url q) (pass k) (first h)
        (λ g r. Keeps-pass J X K payments client worker g k r (λ v. rest v g))

  lift_then :
      {B C : Type 0} (r : WorkerResult B) (k : B → Io J.Value C)
      → ((b : B) → IsQuiet (k b))
      → IsQuiet (pass k r)
  lift_then r k rest h = Keeps-pass J X K payments client worker h k r (λ b. rest b h)

  quiet_if :
      {B : Type 0} (b : Bool) (m n : Io J.Value B)
      → IsQuiet m
      → IsQuiet n
      → IsQuiet (if b then m else n)
  quiet_if true m n p q h = p h
  quiet_if false m n p q h = q h

  wait_rounds-IsQuiet : (n : ℕ) (url hash : Text) → IsQuiet (wait_rounds J X K n url hash)
  unfolding wait_rounds
  wait_rounds-IsQuiet zero url hash = λ h. refl
  wait_rounds-IsQuiet (suc n) url hash =
      rpc_then url (Request.eth_get_transaction_receipt hash) _
        (λ h.
          rpc-Keeps J X K payments client worker url (Request.eth_get_transaction_receipt hash) h
            refl)
        (λ v.
          quiet_if (J.is_null v) _ _ (wait_rounds-IsQuiet n url hash)
            (quiet_if (text_eq (status_of J v) (text "0x1")) _ _ (λ h. refl) (λ h. refl)))

  asked : (q : Request) → asks J X K payments client worker q ≡ false → IsQuiet (rpc payments.rpc q)
  asked q other h = rpc-Keeps J X K payments client worker payments.rpc q h other

  send_signed-IsQuiet :
      (key : K.SigningKey) (data_bytes : Bytes)
      → IsQuiet (send_signed J X K payments key data_bytes)
  unfolding send_signed
  send_signed-IsQuiet key data_bytes =
      let count_of = Request.eth_get_transaction_count (address_of X (K.verifying_key key)) in
      lift_then (parse_address X payments.contract) _ (λ to.
        rpc_then payments.rpc count_of _ (asked count_of refl) (λ count.
          lift_then (parse_u64_hex (str_or J (text "0x0") count)) _ (λ nonce.
            rpc_then payments.rpc Request.eth_gas_price _ (asked Request.eth_gas_price refl)
              (λ price. lift_then (parse_u64_hex (str_or J (text "0x0") price)) _ (λ gas_price.
                lift_then (fail_if (gas_price == 0) (WorkerError.net WorkerMessage.gas_price_zero))
                  _
                  (λ u.
                    lift_then
                      (sign_legacy J X K key (record {
                        nonce = nonce;
                        gas_price = gas_price;
                        gas = 500000;
                        to = to;
                        value = 0;
                        data_bytes = data_bytes;
                        chain_id = payments.chain_id;
                      }))
                      _
                      (λ raw.
                        rpc_then payments.rpc (Request.eth_send_raw_transaction raw) _
                          (asked (Request.eth_send_raw_transaction raw) refl)
                          (λ hash h. refl))))))))

  send_call-IsQuiet : (data_bytes : Bytes) → IsQuiet (send_call J X K payments data_bytes)
  unfolding send_call
  send_call-IsQuiet data_bytes = lift_then (signing_key J X K payments) _ (λ key. by_key key)
    where
      sender : Text
      sender = trim payments.sender

      by_key :
          (key : Option K.SigningKey)
          → IsQuiet (elim key [
            | some k ↦ send_signed J X K payments k data_bytes
            | none ↦
                if is_empty sender
                then Io.done (err (WorkerError.rejected WorkerMessage.no_key))
                else await
                    (rpc payments.rpc
                      (Request.eth_send_transaction sender payments.contract data_bytes))
                    (pass (λ hash. Io.done (ok (str_or J [] hash))))
          ])
      by_key (some k) = send_signed-IsQuiet k data_bytes
      by_key none =
          let q = Request.eth_send_transaction sender payments.contract data_bytes in
          quiet_if (is_empty sender) _ _ (λ h. refl)
            (rpc_then payments.rpc q _ (asked q refl) (λ hash h. refl))

  -- The run keeps what was shown, and does not return without a hash.
  abbrev pub Sends :
      List (Event J.Value) → List (Event J.Value) → WorkerResult (Option Text) → Type 0
  Sends h g r =
      (last_shown J X K payments client worker g ≡ last_shown J X K payments client worker h)
      × (r ≡ ok none → ⊥)

  pub send_and_wait-Sends :
      (call : WorkerResult Bytes) (h : List (Event J.Value))
      → Every (Sends h) h (send_and_wait J X K payments call)
  unfolding wait_ok
  send_and_wait-Sends (err e) h = (refl, λ f. cc f)
  send_and_wait-Sends (ok data_bytes) h =
      Every-await (Sends h) (send_call J X K payments data_bytes) h _
        (weaken _ _ (send_call J X K payments data_bytes) h sent (send_call-IsQuiet data_bytes h))
    where
      named :
          (hash : Text) (g : List (Event J.Value)) (r : WorkerResult (Unit {0}))
          → last_shown J X K payments client worker g ≡ last_shown J X K payments client worker h
          → Every (Sends h) g (pass (λ u. Io.done (ok (some hash))) r)
      named hash g (ok u) same = (same, λ f. cc f)
      named hash g (err e) same = (same, λ f. cc f)

      sent :
          (g : List (Event J.Value)) (r : WorkerResult Text)
          → last_shown J X K payments client worker g ≡ last_shown J X K payments client worker h
          → Every (Sends h) g (
              pass
                (λ hash.
                  await (wait_ok J X K payments.rpc hash) (pass (λ u. Io.done (ok (some hash)))))
                r)
      sent g (err e) same = (same, λ f. cc f)
      sent g (ok hash) same = Every-await (Sends h) (wait_ok J X K payments.rpc hash) g _ (
          weaken _ _ (wait_ok J X K payments.rpc hash) g (λ f r kept. named hash f r (kept ∙ same))
            (wait_rounds-IsQuiet 60 payments.rpc hash g))
