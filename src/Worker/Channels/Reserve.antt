-- ===== src/Worker/Channels/Reserve.antt =====
-- `accept` of channels.rs against the reservation on record.
use rootmode.Prelude.{ℕ, ◌-◌, ◌<◌, ◌≡◌, Bool, true, some, max, arith}
use rootmode.Prelude.Int.{ℤ}
use rootmode.Prelude.Text.{Text, eq_ignore_ascii_case, text_eq_iff}
use rootmode.Prelude.Dict
use rootmode.Prelude.Dict.{get-insert}
use rootmode.Prelude.Result.{ok, err}
use rootmode.Core.Errors.{CoreError, Message}
use rootmode.Core.Externals.{Externals}
use rootmode.Core.Payments.{Domain}
use rootmode.Core.Payments.SpendingAuth
use rootmode.Core.Payments.SpendingAuth.{SpendingAuth}
use rootmode.Worker.Channels.{
  Channel, Channels, Refusal, accept, accept_check, accepted, field_or, write,
}
use rootmode.Worker.Channels.Entries.{write-open}

module _ (X : Externals) (d : Domain) where
  -- An authorisation that its client signed, on a channel of that client, above both what is
  -- authorised and what is reserved on it, is accepted and earns the difference: no
  -- authorisation of the channel is refused as one beyond the reserved amount.
  pub accept_beyond_reserve :
      (s : Channels) (auth : SpendingAuth) (now : ℤ) (saved : Bool) {c : Channel} {signer : Text}
      → SpendingAuth.recover X auth d ≡ ok signer
      → eq_ignore_ascii_case signer auth.client ≡ true
      → Dict.get auth.channel_id s.open_channels ≡ some c
      → eq_ignore_ascii_case c.client auth.client ≡ true
      → c.authorised < auth.cumulative
      → c.reserved < auth.cumulative
      → (accept X s auth d now saved).0 ≡ ok (auth.cumulative - c.authorised)
  unfolding accept accept_check SpendingAuth.check
  accept_beyond_reserve s auth now saved signed same known owner rise beyond = ground arith

  check_again :
      (a : SpendingAuth) (already reserved later earned : ℕ)
      → SpendingAuth.check X a d already reserved ≡ ok earned
      → SpendingAuth.check X a d a.cumulative later
        ≡ err (CoreError.invalid (Message.must_rise a.cumulative a.cumulative))
  unfolding SpendingAuth.check
  check_again a already reserved later earned h = ground arith

  abbrev already_used : SpendingAuth → Refusal
  already_used auth =
      Refusal.core (CoreError.invalid (Message.must_rise auth.cumulative auth.cumulative))

  check_of_accept :
      (s : Channels) (auth : SpendingAuth) (earned : ℕ)
      → accept_check X s auth d ≡ ok earned
      → let existing = Dict.get auth.channel_id s.open_channels in
        SpendingAuth.check X auth d
          (field_or (λ c. c.authorised) 0 existing)
          (max (field_or (λ c. c.reserved) auth.cumulative existing) auth.cumulative)
        ≡ ok earned
  unfolding accept_check
  check_of_accept s auth earned h = ground arith

  accept_check_again :
      (s s' : Channels) (auth : SpendingAuth) (now : ℤ) (earned : ℕ)
      → accept_check X s auth d ≡ ok earned
      → Dict.get auth.channel_id s'.open_channels ≡ some (accepted X s auth now)
      → accept_check X s' auth d ≡ err (already_used auth)
  unfolding accept_check accepted
  accept_check_again s s' auth now earned h stored =
      let existing = Dict.get auth.channel_id s.open_channels in
      let already = field_or (λ c. c.authorised) 0 existing in
      let reserved = max (field_or (λ c. c.reserved) auth.cumulative existing) auth.cumulative in
      let later = max reserved auth.cumulative in
      let again =
        check_again auth already reserved later earned (check_of_accept s auth earned h) in
      rw (stored, again)

  -- When a ledger has accepted an authorisation, the same authorisation is refused as one whose
  -- total does not rise, and the ledger keeps its state, whatever the time and whether or not
  -- the file could be written.
  pub accept_twice :
      (s : Channels) (auth : SpendingAuth) (now later : ℤ) (saved : Bool) (earned : ℕ)
      → (accept X s auth d now saved).0 ≡ ok earned
      → let s' = (accept X s auth d now saved).1 in
        accept X s' auth d later saved ≡ (err (already_used auth), s')
  unfolding accept
  accept_twice s auth now later saved earned h =
      let stored : Channels = record s {
        open_channels = Dict.insert auth.channel_id (accepted X s auth now) s.open_channels;
      } in
      ground (
        arith,
        accept_check_again s (write saved stored) auth now earned,
        write-open saved stored,
        get-insert auth.channel_id auth.channel_id (accepted X s auth now) s.open_channels,
        text_eq_iff auth.channel_id auth.channel_id,
      )
