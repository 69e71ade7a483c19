-- ===== src/Worker/Channels/Earnings.antt =====
-- What the calls of channels.rs credit, against what the clients signed for.
use rootmode.Prelude.{
  ℕ, ◌+◌, ◌-◌, ◌≤◌, ◌<◌, ◌≡◌, Bool, List, [], ◌∷◌, arith, All, u64_max, if◌then◌else◌,
}
use rootmode.Prelude.Int.{ℤ}
use rootmode.Prelude.Text.{Text, text_eq, text_eq_iff}
use rootmode.Prelude.Dict
use rootmode.Prelude.Dict.{total-insert}
use rootmode.Prelude.Result.{Result, ok, err}
use rootmode.Core.Externals.{Externals}
use rootmode.Core.Payments.{Domain}
use rootmode.Core.Payments.SpendTicket.{SpendTicket}
use rootmode.Core.Payments.SpendingAuth.{SpendingAuth}
use rootmode.Worker.Channels.{
  Channels, Refusal, accept, accepted, accept_spend, banked, id_for, channel_owed,
}
use rootmode.Worker.Channels.Entries.{IsValid, authorised_at, settled_at, write-open}
use rootmode.Worker.Channels.Operations.{
  Accepts, accept-Accepts, Banks, accept_spend-Banks, settled-get,
}
use rootmode.Worker.Channels.Steps.{Call, perform, perform_all}

-- The amount of a result that is credited to a channel.
abbrev pub credited : Bool → Result Refusal ℕ → ℕ
credited here (err e) = 0
credited here (ok earned) = if here then earned else 0

-- A ticket's total is not the last `u64`, where the sum of the check saturates.
abbrev pub IsBelowMax : Call × Bool → Type 0
IsBelowMax (Call.authorise auth now, saved) = Unit
IsBelowMax (Call.bank t sig key delta now, saved) = t.cumulative < u64_max
IsBelowMax (Call.settle id upto, saved) = Unit

module _ (X : Externals) (d : Domain) where
  pub earned_on : Text → Channels → Call × Bool → ℕ
  earned_on id s (Call.authorise auth now, saved) =
      credited (text_eq auth.channel_id id) (accept X s auth d now saved).0
  earned_on id s (Call.bank t sig key delta now, saved) =
      credited (text_eq (id_for X s t.client t.worker_payout) id)
        (accept_spend X s t sig d key delta now saved).0
  earned_on id s (Call.settle i upto, saved) = 0

  -- What a sequence of calls credits to a channel.
  pub earned_all : Text → Channels → List (Call × Bool) → ℕ
  earned_all id s [] = 0
  earned_all id s (c ∷ cs) = earned_on id s c + earned_all id (perform X d s c) cs

  Accepts-credits :
      (s : Channels) (auth : SpendingAuth) (now : ℤ) (r : Result Refusal ℕ × Channels) (id : Text)
      → Accepts X s auth now r
      → credited (text_eq auth.channel_id id) r.0 + authorised_at s id ≤ authorised_at r.1 id
  unfolding accepted
  Accepts-credits s auth now (err e, s') id h = rw h (omega arith)
  Accepts-credits s auth now (ok earned, s') id h =
      ground (arith, h.2 id, text_eq_iff auth.channel_id id)

  Banks-credits :
      (s : Channels) (t : SpendTicket) (sig : Text) (delta : ℕ) (now : ℤ)
      (r : Result Refusal ℕ × Channels) (id : Text)
      → t.cumulative < u64_max
      → Banks X s t sig delta now r
      → credited (text_eq (id_for X s t.client t.worker_payout) id) r.0 + authorised_at s id
        ≤ authorised_at r.1 id
  unfolding banked
  Banks-credits s t sig delta now (err e, s') id fits h = rw h (omega arith)
  Banks-credits s t sig delta now (ok earned, s') id fits h =
      ground (arith, h.3 id, text_eq_iff (id_for X s t.client t.worker_payout) id)

  perform_credits :
      (s : Channels) (c : Call × Bool) (id : Text)
      → IsBelowMax c
      → earned_on id s c + authorised_at s id ≤ authorised_at (perform X d s c) id
  unfolding perform earned_on
  perform_credits s (Call.authorise auth now, saved) id fits =
      Accepts-credits s auth now _ id (accept-Accepts X s auth d now saved)
  perform_credits s (Call.bank t sig key delta now, saved) id fits =
      Banks-credits s t sig delta now _ id fits (accept_spend-Banks X s t sig d key delta now saved)
  perform_credits s (Call.settle i upto, saved) id fits =
      ground (arith, settled-get s i id upto saved, text_eq_iff i id)

  -- Under every sequence of calls that authorise, bank and settle on a ledger, whether or not
  -- each could write the file, the amounts that the successful calls credited to a channel,
  -- with what was authorised on it before, never exceed the cumulative total that stands on the
  -- channel after the calls. The condition is that no ticket that is banked names the last u64
  -- as its total, where the sum in the check saturates.
  pub earned_all-le_signed :
      (s : Channels) (cs : List (Call × Bool)) (id : Text)
      → All IsBelowMax cs
      → earned_all id s cs + authorised_at s id ≤ authorised_at (perform_all X d s cs) id
  unfolding earned_all perform_all
  earned_all-le_signed s [] id h = omega arith
  earned_all-le_signed s (c ∷ cs) id h =
      omega (arith, perform_credits s c id h.0, earned_all-le_signed (perform X d s c) cs id h.1)

  accept_stores :
      (s : Channels) (auth : SpendingAuth) (now : ℤ) (saved : Bool) (earned : ℕ)
      → (accept X s auth d now saved).0 ≡ ok earned
      → (accept X s auth d now saved).1.open_channels
        ≡ Dict.insert auth.channel_id (accepted X s auth now) s.open_channels
  unfolding accept
  accept_stores s auth now saved earned h =
      let stored : Channels = record s {
        open_channels = Dict.insert auth.channel_id (accepted X s auth now) s.open_channels;
      } in
      ground (arith, write-open saved stored)

  accept_gain :
      (s : Channels) (auth : SpendingAuth) (now : ℤ) (saved : Bool) (earned : ℕ)
      → (accept X s auth d now saved).0 ≡ ok earned
      → (authorised_at s auth.channel_id < auth.cumulative)
        × (earned ≡ auth.cumulative - authorised_at s auth.channel_id)
  accept_gain s auth now saved earned h =
      go (accept X s auth d now saved) (accept-Accepts X s auth d now saved) h
    where
      go :
          (r : Result Refusal ℕ × Channels)
          → Accepts X s auth now r
          → r.0 ≡ ok earned
          → (authorised_at s auth.channel_id < auth.cumulative)
            × (earned ≡ auth.cumulative - authorised_at s auth.channel_id)
      go (err e, s') a q = cc
      go (ok g, s') a q = ground arith

  -- On a well-formed ledger whose channel is not settled beyond what it authorised, an
  -- authorisation that is accepted raises what the ledger as a whole is owed by exactly what it
  -- earned.
  pub accept-owed :
      (s : Channels) (auth : SpendingAuth) (now : ℤ) (saved : Bool) (earned : ℕ)
      → IsValid s
      → settled_at s auth.channel_id ≤ authorised_at s auth.channel_id
      → (accept X s auth d now saved).0 ≡ ok earned
      → Dict.total channel_owed (accept X s auth d now saved).1.open_channels
        ≡ Dict.total channel_owed s.open_channels + earned
  unfolding channel_owed accepted
  accept-owed s auth now saved earned v behind h =
      let id = auth.channel_id in
      rw (accept_stores s auth now saved earned h) (
        ground (
          arith,
          total-insert channel_owed id (accepted X s auth now) s.open_channels v.sorted,
          accept_gain s auth now saved earned h,
        ))
