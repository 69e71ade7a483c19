-- ===== src/Desktop/Pot/Restore.antt =====
-- apps/desktop/src-tauri/src/pot.rs: restore, and boot up to its servers.
use rootmode.Prelude.{
  ℕ, Bool, not, ◌||◌, Option, none, some, List, [], ◌∷◌, is_empty, ltb, ◌==◌, length, any,
  if◌then◌else◌,
}
use rootmode.Prelude.Text.{Text, trim_0x, eq_ignore_ascii_case}
use rootmode.Prelude.Dict
use rootmode.Prelude.Dict.{Dict}
use rootmode.Core.Externals.{Externals}
use rootmode.Desktop.Pot.{Pot, LatestTicket, DiskTicket, channel_key}

-- A row whose pot is not named is trusted until its deadline.
unfoldable pub is_left_behind : Text → ℕ → DiskTicket → Bool
unfolding eq_ignore_ascii_case
is_left_behind pot now row =
    if is_empty row.pot then ltb row.ticket.deadline now else not (eq_ignore_ascii_case row.pot pot)

module _ (X : Externals) where
  -- The ticket of a row that is kept.
  unfoldable pub from_disk : Text → ℕ → DiskTicket → Option LatestTicket
  unfolding trim_0x is_left_behind
  from_disk pot now row = elim (X.hex_decode (trim_0x row.sig)) [
    | none ↦ none
    | some sig ↦
        if not (length sig == 65) || is_left_behind pot now row
        then none
        else some (record {
          ticket = row.ticket;
          sig = sig;
          on_chain_paid = row.on_chain_paid;
          pot = if is_empty row.pot then pot else row.pot;
        })
  ]

  unfoldable pub restore_rows : Text → ℕ → List DiskTicket → Dict LatestTicket → Dict LatestTicket
  unfolding from_disk channel_key
  restore_rows pot now [] m = m
  restore_rows pot now (row ∷ rows) m = restore_rows pot now rows (elim (from_disk pot now row) [
    | none ↦ m
    | some t ↦ Dict.insert (channel_key X row.ticket.client row.ticket.worker_payout) t m
  ])

  -- `file` is the rows of the pending file, where there is one that can be read.
  unfoldable pub restore : {F : Type 0} → Text → ℕ → Pot F → Pot F
  unfolding restore_rows
  restore pot now s = elim s.file [
    | none ↦ s
    | some rows ↦ record s { latest = restore_rows pot now rows s.latest }
  ]

  -- Whether `boot` schedules a settlement right away.
  unfoldable pub has_pending : {F : Type 0} → Pot F → Bool
  has_pending s = any (λ t. ltb t.on_chain_paid t.ticket.cumulative) (Dict.values s.latest)
