-- ===== src/Worker/Channels/Steps.antt =====
-- The ledger of channels.rs under every sequence of calls.
use rootmode.Prelude.{ℕ, ◌≤◌, ◌≡◌, refl, Bool, List, [], ◌∷◌, arith, max}
use rootmode.Prelude.Int.{ℤ}
use rootmode.Prelude.Text.{Text, text_eq_iff}
use rootmode.Prelude.Dict
use rootmode.Prelude.Dict.{
  Dict, get-insert, insert-IsSorted, adjust-IsSorted, All-insert, All-adjust, total-insert,
}
use rootmode.Prelude.Result.{Result, ok, err}
use rootmode.Core.Externals.{Externals}
use rootmode.Core.Payments.{Micros, Domain}
use rootmode.Core.Payments.SpendTicket.{SpendTicket}
use rootmode.Core.Payments.SpendingAuth.{SpendingAuth}
use rootmode.Worker.Channels.{
  Channel, Channels, Refusal, accept, accept_check, accepted, accept_spend, accept_spend_check,
  banked, settled, id_for, write,
}
use rootmode.Worker.Channels.Entries.{IsEntry, IsValid, authorised_at, settled_at, write-IsValid}
use rootmode.Worker.Channels.Operations.{
  Accepts, accept-Accepts, Banks, accept_spend-Banks, settled-get,
}

-- A call that changes the ledger.
pub data Call : Type 0 where
  authorise : SpendingAuth → ℤ → Call
  bank : SpendTicket → Text → Text → Micros → ℤ → Call
  settle : Text → Micros → Call

module _ (X : Externals) (d : Domain) where
  -- A call, with whether the file could be written.
  unfoldable pub perform : Channels → Call × Bool → Channels
  perform s (Call.authorise auth now, saved) = (accept X s auth d now saved).1
  perform s (Call.bank t sig key delta now, saved) =
      (accept_spend X s t sig d key delta now saved).1
  perform s (Call.settle id upto, saved) = settled s id upto saved

  unfoldable pub perform_all : Channels → List (Call × Bool) → Channels
  perform_all s [] = s
  perform_all s (c ∷ cs) = perform_all (perform s c) cs

  insert-IsValid :
      (s : Channels) (id : Text) (c : Channel)
      → IsValid s
      → c.channel_id ≡ id
      → c.authorised ≤ c.reserved
      → IsValid (record s { open_channels = Dict.insert id c s.open_channels })
  insert-IsValid s id c h keyed covered = record {
    sorted = insert-IsSorted id c s.open_channels h.sorted;
    entries =
        All-insert IsEntry id c s.open_channels (record { keyed = keyed; covered = covered })
          h.entries;
  }

  accept-IsValid :
      (s : Channels) (auth : SpendingAuth) (now : ℤ) (saved : Bool)
      → IsValid s
      → IsValid (accept X s auth d now saved).1
  unfolding accept
  accept-IsValid s auth now saved h = go (accept_check X s auth d)
    where
      go :
          (r : Result Refusal ℕ)
          → IsValid (
              let p : Result Refusal ℕ × Channels = elim r [
                | err e ↦ (err e, s)
                | ok earned ↦ (
                  ok earned,
                  write saved (record s {
                    open_channels =
                        Dict.insert auth.channel_id (accepted X s auth now) s.open_channels;
                  }),
                )
              ] in
              p.1)
      go (err e) = h
      go (ok earned) =
          write-IsValid saved _
            (insert-IsValid s auth.channel_id (accepted X s auth now) h refl (omega arith))

  accept_spend-IsValid :
      (s : Channels) (t : SpendTicket) (sig key : Text) (delta : ℕ) (now : ℤ) (saved : Bool)
      → IsValid s
      → IsValid (accept_spend X s t sig d key delta now saved).1
  unfolding accept_spend
  accept_spend-IsValid s t sig key delta now saved h =
      go (accept_spend_check X s t sig d key delta now)
    where
      go :
          (r : Result Refusal (Unit {0}))
          → IsValid (
              let p : Result Refusal ℕ × Channels = elim r [
                | err e ↦ (err e, s)
                | ok _ ↦ (
                  ok delta,
                  write saved (record s {
                    open_channels =
                        Dict.insert
                          (id_for X s t.client t.worker_payout)
                          (banked X s t sig now)
                          s.open_channels;
                  }),
                )
              ] in
              p.1)
      go (err e) = h
      go (ok tt) = write-IsValid saved _ (
          insert-IsValid s (id_for X s t.client t.worker_payout) (banked X s t sig now) h refl
            (omega arith))

  settled-IsValid :
      (s : Channels) (id : Text) (upto : ℕ) (saved : Bool)
      → IsValid s
      → IsValid (settled s id upto saved)
  unfolding settled
  settled-IsValid s id upto saved h = write-IsValid saved _ (record {
    sorted = adjust-IsSorted id _ s.open_channels h.sorted;
    entries =
        All-adjust IsEntry id (λ c. record c { settled = max c.settled upto }) s.open_channels
          (λ j c e. record { keyed = e.keyed; covered = e.covered }) h.entries;
  })

  perform-IsValid : (s : Channels) (c : Call × Bool) → IsValid s → IsValid (perform s c)
  unfolding perform
  perform-IsValid s (Call.authorise auth now, saved) h = accept-IsValid s auth now saved h
  perform-IsValid s (Call.bank t sig key delta now, saved) h =
      accept_spend-IsValid s t sig key delta now saved h
  perform-IsValid s (Call.settle id upto, saved) h = settled-IsValid s id upto saved h

  -- Every sequence of calls that authorise, bank and settle keeps the ledger sorted by id, with
  -- each entry under its own id and no more authorised on it than is reserved.
  pub perform_all-IsValid :
      (s : Channels) (cs : List (Call × Bool)) → IsValid s → IsValid (perform_all s cs)
  unfolding perform_all
  perform_all-IsValid s [] h = h
  perform_all-IsValid s (c ∷ cs) h = perform_all-IsValid (perform s c) cs (perform-IsValid s c h)

  abbrev Rises : Channels → Channels → Text → Type 0
  Rises s s' id = (authorised_at s id ≤ authorised_at s' id) × (settled_at s id ≤ settled_at s' id)

  Accepts-Rises :
      (s : Channels) (auth : SpendingAuth) (now : ℤ) (r : Result Refusal ℕ × Channels) (id : Text)
      → Accepts X s auth now r
      → Rises s r.1 id
  unfolding accepted
  Accepts-Rises s auth now (err e, s') id h = rw h (omega arith)
  Accepts-Rises s auth now (ok earned, s') id h =
      ground (arith, h.2 id, text_eq_iff auth.channel_id id)

  Banks-Rises :
      (s : Channels) (t : SpendTicket) (sig : Text) (delta : ℕ) (now : ℤ)
      (r : Result Refusal ℕ × Channels) (id : Text)
      → Banks X s t sig delta now r
      → Rises s r.1 id
  unfolding banked
  Banks-Rises s t sig delta now (err e, s') id h = rw h (omega arith)
  Banks-Rises s t sig delta now (ok earned, s') id h =
      ground (arith, h.3 id, text_eq_iff (id_for X s t.client t.worker_payout) id)

  perform-Rises : (s : Channels) (c : Call × Bool) (id : Text) → Rises s (perform s c) id
  unfolding perform
  perform-Rises s (Call.authorise auth now, saved) id =
      Accepts-Rises s auth now _ id (accept-Accepts X s auth d now saved)
  perform-Rises s (Call.bank t sig key delta now, saved) id =
      Banks-Rises s t sig delta now _ id (accept_spend-Banks X s t sig d key delta now saved)
  perform-Rises s (Call.settle i upto, saved) id =
      ground (arith, settled-get s i id upto saved, text_eq_iff i id)

  -- Under every sequence of calls that authorise, bank and settle, what is authorised on a
  -- channel and what is settled on it never go down.
  pub perform_all-Rises :
      (s : Channels) (cs : List (Call × Bool)) (id : Text)
      → (authorised_at s id ≤ authorised_at (perform_all s cs) id)
        × (settled_at s id ≤ settled_at (perform_all s cs) id)
  unfolding perform_all
  perform_all-Rises s [] id = omega arith
  perform_all-Rises s (c ∷ cs) id =
      omega (arith, perform-Rises s c id, perform_all-Rises (perform s c) cs id)
