-- ===== src/Worker/Server/Settlement/Settled.antt =====
-- crates/rootmode-worker/src/server.rs: what a settlement changes in the ledger.
use rootmode.Prelude.{
  ◌≡◌, ◌⊎◌, inl, inr, refl, sym, Bool, true, false, Option, none, some, some_inj, arith, length,
  ◌==◌, not, if◌then◌else◌,
}
use rootmode.Prelude.Bytes.{Bytes}
use rootmode.Prelude.Text.{Text, trim_0x}
use rootmode.Prelude.Result.{ok, err, ok_inj}
use rootmode.Core.Externals.{Externals}
use rootmode.Core.Json.{JsonApi}
use rootmode.Core.Protocol.{JobPay}
use rootmode.Worker.Errors.{WorkerResult}
use rootmode.Worker.Channels.{Channels, settled}
use rootmode.Worker.Chain.Io.{Io, await, World, run}
use rootmode.Worker.Chain.Client.{PaymentsConfig, Signer, settle}
use rootmode.Worker.Server.Settlement.{settle_ticket}

module _ (J : JsonApi) (X : Externals) (K : Signer X) (p : PaymentsConfig) (W : World J.Value) where
  -- The run of a call whose result a pure function follows.
  run_then :
      {B C : Type 0} (m : Io J.Value B) (f : WorkerResult B → C) (w : W.State) (out : C)
      → (run W (await m (λ r. Io.done (ok (f r)))) w).result ≡ some (ok out)
      → (r : WorkerResult B) × ((run W m w).result ≡ some r) × (f r ≡ out)
  unfolding run
  run_then (Io.done r) f w out e = (r, refl, ok_inj (some_inj e))
  run_then Io.panic f w out e = absurd (cc e)
  run_then (Io.sleep ms m) f w out e = run_then m f (W.wait w ms) out e
  run_then (Io.post url q next) f w out e =
      run_then (next (W.answer w url q).0) f (W.answer w url q).1 out e

  -- The ledger is as it was, or the ticket's total is entered as settled, and then the call of the
  -- contract had ended well.
  abbrev pub Settles : Channels → Text → JobPay → Bool → W.State → Channels → Type 0
  Settles s id pay saved w after =
      (after ≡ s)
      ⊎ ((sig : Bytes) × (X.hex_decode (trim_0x pay.sig) ≡ some sig)
          × (length sig ≡ 65)
          × (hash : Option Text) × ((run W (settle J X K p pay.ticket sig) w).result
              ≡ some (ok hash))
          × (after ≡ settled s id pay.ticket.cumulative saved))

  -- In every run of settle_ticket that ends, the ledger is as it was, or the ticket's total is
  -- entered as settled on its channel, and then its signature has 65 bytes and the run of the
  -- contract call with it from the same state of the world ended without an error.
  pub settle_ticket-Settles :
      (s : Channels) (id : Text) (pay : JobPay) (saved : Bool) (w : W.State) (after : Channels)
      → (run W (settle_ticket J X K p s id pay saved) w).result ≡ some (ok after)
      → Settles s id pay saved w after
  unfolding settle_ticket run
  settle_ticket-Settles s id pay saved w after e = by_sig (X.hex_decode (trim_0x pay.sig)) refl e
    where
      ended : WorkerResult (Option Text) → Channels
      ended r = elim r [ ok hash ↦ settled s id pay.ticket.cumulative saved | err e ↦ s ]

      called :
          (sig : Bytes)
          → X.hex_decode (trim_0x pay.sig) ≡ some sig
          → length sig ≡ 65
          → (r : WorkerResult (Option Text))
          → (run W (settle J X K p pay.ticket sig) w).result ≡ some r
          → ended r ≡ after
          → Settles s id pay saved w after
      called sig h l (ok hash) q f = inr (sig, h, l, hash, q, sym f)
      called sig h l (err e) q f = inl (sym f)

      whole : Bytes → Io J.Value Channels
      whole sig = await (settle J X K p pay.ticket sig) (λ r. Io.done (ok (ended r)))

      by_length :
          (sig : Bytes)
          → X.hex_decode (trim_0x pay.sig) ≡ some sig
          → (b : Bool) → (length sig == 65) ≡ b
          → (run W (if not b then Io.done (ok s) else whole sig) w).result ≡ some (ok after)
          → Settles s id pay saved w after
      by_length sig h false l f = inl (sym (ok_inj (some_inj f)))
      by_length sig h true l f =
          let (r, q, g) = run_then (settle J X K p pay.ticket sig) ended w after f in
          called sig h (ground (arith, l)) r q g

      by_sig :
          (o : Option Bytes)
          → X.hex_decode (trim_0x pay.sig) ≡ o
          → (run W
              (elim o [
                | none ↦ Io.done (ok s)
                | some sig ↦ if not (length sig == 65) then Io.done (ok s) else whole sig
              ])
              w).result
            ≡ some (ok after)
          → Settles s id pay saved w after
      by_sig none h f = inl (sym (ok_inj (some_inj f)))
      by_sig (some sig) h f = by_length sig h (length sig == 65) refl f
