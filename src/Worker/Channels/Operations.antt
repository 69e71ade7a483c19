-- ===== src/Worker/Channels/Operations.antt =====
-- What each operation of channels.rs does, on every branch.
use mathlib.Core.Option
use rootmode.Prelude.{
  ℕ, ◌-◌, ◌≤◌, ◌<◌, ◌≡◌, refl, Bool, some, arith, max, saturating_add, if◌then◌else◌,
}
use rootmode.Prelude.Int.{ℤ}
use rootmode.Prelude.Text.{Text, text_eq}
use rootmode.Prelude.Dict
use rootmode.Prelude.Dict.{
  get-insert, get-adjust, insert-IsSorted, adjust-IsSorted, All-insert, All-adjust,
}
use rootmode.Prelude.Result.{Result, ok, err}
use rootmode.Core.Externals.{Externals}
use rootmode.Core.Payments.{Micros, Domain}
use rootmode.Core.Payments.SpendTicket.{SpendTicket}
use rootmode.Core.Payments.SpendingAuth
use rootmode.Core.Payments.SpendingAuth.{SpendingAuth}
use rootmode.Worker.Channels.{
  Channel, Channels, Refusal, accept, accept_check, accepted, accept_spend, accept_spend_check,
  banked, settled, id_for, write, field_or,
}
use rootmode.Worker.Channels.Entries.{authorised_at, write-open}

module _ (X : Externals) where
  -- A successful check earns the rise of the total, which must be a rise.
  SpendingAuth-check_rise :
      (a : SpendingAuth) (d : Domain) (already reserved earned : ℕ)
      → SpendingAuth.check X a d already reserved ≡ ok earned
      → (already < a.cumulative) × (earned ≡ a.cumulative - already) × (a.cumulative ≤ reserved)
  unfolding SpendingAuth.check
  SpendingAuth-check_rise a d already reserved earned h = ground arith

  accept_check_rise :
      (s : Channels) (auth : SpendingAuth) (d : Domain) (earned : ℕ)
      → accept_check X s auth d ≡ ok earned
      → (authorised_at s auth.channel_id < auth.cumulative)
        × (earned ≡ auth.cumulative - authorised_at s auth.channel_id)
  unfolding accept_check
  accept_check_rise s auth d earned h =
      let existing = Dict.get auth.channel_id s.open_channels in
      let already = field_or (λ c. c.authorised) 0 existing in
      let reserved = max (field_or (λ c. c.reserved) auth.cumulative existing) auth.cumulative in
      ground (arith, SpendingAuth-check_rise auth d already reserved earned)

  -- What a call of `accept` that began at `s` has done, by how it ended.
  abbrev pub Accepts : Channels → SpendingAuth → ℤ → Result Refusal Micros × Channels → Type 0
  Accepts s auth now (err e, s') = s' ≡ s
  Accepts s auth now (ok earned, s') =
      (authorised_at s auth.channel_id < auth.cumulative)
      × (earned ≡ auth.cumulative - authorised_at s auth.channel_id)
      × ((j : Text)
          → Dict.get j s'.open_channels ≡ (
              if text_eq auth.channel_id j
              then some (accepted X s auth now)
              else Dict.get j s.open_channels))

  pub accept-Accepts :
      (s : Channels) (auth : SpendingAuth) (d : Domain) (now : ℤ) (saved : Bool)
      → Accepts s auth now (accept X s auth d now saved)
  unfolding accept
  accept-Accepts s auth d now saved = go (accept_check X s auth d) refl
    where
      go :
          (r : Result Refusal ℕ)
          → accept_check X s auth d ≡ r
          → Accepts s auth now (elim r [
            | err e ↦ (err e, s)
            | ok earned ↦ (
              ok earned,
              write saved (record s {
                open_channels = Dict.insert auth.channel_id (accepted X s auth now) s.open_channels;
              }),
            )
          ])
      go (err e) h = refl
      go (ok earned) h =
          let (rise, gain) = accept_check_rise s auth d earned h in
          (
            rise,
            gain,
            λ j.
                rw write-open
                  (get-insert auth.channel_id j (accepted X s auth now) s.open_channels),
          )

  accept_spend_check_rise :
      (s : Channels) (t : SpendTicket) (sig : Text) (d : Domain) (app_key : Text) (delta : ℕ)
      (now : ℤ)
      → accept_spend_check X s t sig d app_key delta now ≡ ok tt
      → let id = id_for X s t.client t.worker_payout in
        (authorised_at s id < t.cumulative)
        × (saturating_add (authorised_at s id) delta ≤ t.cumulative)
  unfolding accept_spend_check
  accept_spend_check_rise s t sig d app_key delta now h = ground arith

  abbrev pub Banks :
      Channels → SpendTicket → Text → Micros → ℤ → Result Refusal Micros × Channels → Type 0
  Banks s t sig delta now (err e, s') = s' ≡ s
  Banks s t sig delta now (ok earned, s') =
      let id = id_for X s t.client t.worker_payout in
      (earned ≡ delta)
      × (authorised_at s id < t.cumulative)
      × (saturating_add (authorised_at s id) delta ≤ t.cumulative)
      × ((j : Text)
          → Dict.get j s'.open_channels
            ≡ (if text_eq id j then some (banked X s t sig now) else Dict.get j s.open_channels))

  pub accept_spend-Banks :
      (s : Channels) (t : SpendTicket) (sig : Text) (d : Domain) (app_key : Text) (delta : ℕ)
      (now : ℤ) (saved : Bool)
      → Banks s t sig delta now (accept_spend X s t sig d app_key delta now saved)
  unfolding accept_spend
  accept_spend-Banks s t sig d app_key delta now saved =
      go (accept_spend_check X s t sig d app_key delta now) refl
    where
      go :
          (r : Result Refusal (Unit {0}))
          → accept_spend_check X s t sig d app_key delta now ≡ r
          → Banks s t sig delta now (elim r [
            | err e ↦ (err e, s)
            | ok _ ↦ (
              ok delta,
              write saved (record s {
                open_channels =
                    Dict.insert
                      (id_for X s t.client t.worker_payout)
                      (banked X s t sig now)
                      s.open_channels;
              }),
            )
          ])
      go (err e) h = refl
      go (ok tt) h =
          let (rise, invoice) = accept_spend_check_rise s t sig d app_key delta now h in
          (
            refl,
            rise,
            invoice,
            λ j. rw write-open (
                get-insert (id_for X s t.client t.worker_payout) j (banked X s t sig now)
                  s.open_channels),
          )

-- Settling moves one channel's settled amount and nothing else.
pub settled-get :
    (s : Channels) (id j : Text) (upto : ℕ) (saved : Bool)
    → Dict.get j (settled s id upto saved).open_channels ≡ (
        if text_eq id j
        then Option.map {A = Channel}
            (λ c. record c { settled = max c.settled upto })
            (Dict.get j s.open_channels)
        else Dict.get j s.open_channels)
unfolding settled
settled-get s id j upto saved =
    rw write-open (get-adjust id j (λ c. record c { settled = max c.settled upto }) s.open_channels)
