-- ===== src/Worker/Channels.antt =====
-- crates/rootmode-worker/src/channels.rs: the ledger of what each client has authorised.
-- `Channels` holds the map in memory and the list that the ledger file holds, `none` where there is
-- no readable file. Each operation that writes takes `saved`: whether the file could be replaced.
pub mod Entries
pub mod Operations
pub mod Steps
pub mod Abstract
pub mod Refines
pub mod Earnings
pub mod Restart
pub mod Reserve
mod Tests
use mathlib.Core.Option
use rootmode.Prelude.{
  ℕ, ◌+◌, ◌-◌, ◌%◌, ◌^◌, max, Option, none, some, List, [], ◌∷◌, ◌++◌, Bool, not, true, false, leb,
  ltb, is_empty, replicate, saturating_add, if◌then◌else◌,
}
use rootmode.Prelude.Int.{ℤ, pos_part}
use rootmode.Prelude.Text.{Text, text, eq_ignore_ascii_case, to_lowercase}
use rootmode.Prelude.Dict
use rootmode.Prelude.Dict.{Dict}
use rootmode.Prelude.Result.{Result, ok, err, ◌>>=◌, ◌>>◌, fail_if, map_err}
use rootmode.Core.Errors.{CoreError}
use rootmode.Core.Externals.{Externals}
use rootmode.Core.Payments.{Micros, Domain, channel_id}
use rootmode.Core.Payments.SpendTicket
use rootmode.Core.Payments.SpendTicket.{SpendTicket}
use rootmode.Core.Payments.SpendingAuth
use rootmode.Core.Payments.SpendingAuth.{SpendingAuth}

pub record Channel : Type 0 where
  pub channel_id : Text
  pub client : Text
  pub authorised : Micros
  pub reserved : Micros
  pub latest : SpendingAuth
  pub spend : Option SpendTicket
  pub spend_sig : Option Text
  pub settled : Micros
  pub updated_at : ℤ
  pub contract : Text

unfoldable pub channel_owed : Channel → Micros
channel_owed c = c.authorised - c.settled

pub record Channels : Type 0 where
  pub contract : Text
  pub open_channels : Dict Channel
  pub file : Option (List Channel)

-- What a refusal says, with the values that it prints.
pub data Refusal : Type 0 where
  core : CoreError → Refusal
  belongs_to : Text → Text → Refusal
  behind : Micros → Micros → Micros → Refusal
  must_rise : Micros → Micros → Refusal

-- `write`: the whole map, written beside the file and moved into place.
pub write : Bool → Channels → Channels
write saved s = if saved then record s { file = some (Dict.values s.open_channels) } else s

-- Whether an entry of the file is kept at a start.
pub keep : Text → ℕ → Channel → Bool
keep contract now c =
    if is_empty c.contract
    then elim c.spend [ none ↦ true | some t ↦ leb now t.deadline ]
    else eq_ignore_ascii_case c.contract contract

-- `filter`, `map` and `collect` of `load`, with the number of entries left behind.
pub collect : Text → ℕ → Dict Channel → ℕ → List Channel → Dict Channel × ℕ
collect contract now acc left [] = (acc, left)
collect contract now acc left (c ∷ cs) =
    collect contract now (if keep contract now c then Dict.insert c.channel_id c acc else acc)
      (if keep contract now c then left else (left + 1) % 2 ^ 32) cs

unfoldable pub load : Option (List Channel) → Text → ℕ → Bool → Channels
unfolding write collect keep
load file contract now saved =
    let list : List Channel = elim file [ none ↦ [] | some l ↦ l ] in
    let (kept, left) = collect contract now [] 0 list in
    let s : Channels = record { contract = contract; open_channels = kept; file = file } in
    if ltb 0 left then write saved s else s

-- `existing.map(|c| c.field).unwrap_or(default)`
abbrev pub field_or {ℓ} : {A : Type ℓ} → (Channel → A) → A → Option Channel → A
field_or f d none = d
field_or f d (some c) = f c

-- A channel belongs to the address that opened it.
abbrev pub check_owner : Option Channel → Text → Result Refusal (Unit {0})
check_owner none client = ok tt
check_owner (some c) client =
    fail_if (not (eq_ignore_ascii_case c.client client)) (Refusal.belongs_to c.client client)

module _ (X : Externals) where
  pub id_for : Channels → Text → Text → Text
  id_for s client worker = channel_id X client worker (to_lowercase X.unicode_lowercase s.contract)

  -- What `accept` stores for an authorisation.
  pub accepted : Channels → SpendingAuth → ℤ → Channel
  accepted s auth now =
      let existing = Dict.get auth.channel_id s.open_channels in
      record {
        channel_id = auth.channel_id;
        client = auth.client;
        authorised = auth.cumulative;
        reserved = max (field_or (λ c. c.reserved) auth.cumulative existing) auth.cumulative;
        latest = auth;
        spend = Option.bind existing (λ c. c.spend);
        spend_sig = Option.bind existing (λ c. c.spend_sig);
        settled = field_or (λ c. c.settled) 0 existing;
        updated_at = now;
        contract = s.contract;
      }

  -- The checks of `accept`, in their order, and what the job earns.
  pub accept_check : Channels → SpendingAuth → Domain → Result Refusal Micros
  accept_check s auth d = do
    let existing = Dict.get auth.channel_id s.open_channels
    let already = field_or (λ c. c.authorised) 0 existing
    let reserved = max (field_or (λ c. c.reserved) auth.cumulative existing) auth.cumulative
    earned ← map_err Refusal.core (SpendingAuth.check X auth d already reserved)
    check_owner existing auth.client
    ok earned

  unfoldable pub accept :
      Channels → SpendingAuth → Domain → ℤ → Bool → Result Refusal Micros × Channels
  unfolding accept_check accepted write
  accept s auth d now saved = elim (accept_check s auth d) [
    | err e ↦ (err e, s)
    | ok earned ↦ (
      ok earned,
      write saved (record s {
        open_channels = Dict.insert auth.channel_id (accepted s auth now) s.open_channels;
      }),
    )
  ]

  pub banked : Channels → SpendTicket → Text → ℤ → Channel
  banked s ticket sig now =
      let id = id_for s ticket.client ticket.worker_payout in
      let existing = Dict.get id s.open_channels in
      record {
        channel_id = id;
        client = ticket.client;
        authorised = ticket.cumulative;
        reserved = max (field_or (λ c. c.reserved) ticket.cumulative existing) ticket.cumulative;
        latest =
            field_or (λ c. c.latest)
              (record {
                channel_id = id;
                client = ticket.client;
                cumulative = ticket.cumulative;
                metadata_hash = text "0x" ++ X.hex_encode (replicate 32 0);
                sig = none;
              })
              existing;
        spend = some ticket;
        spend_sig = some sig;
        settled = field_or (λ c. c.settled) 0 existing;
        updated_at = now;
        contract = s.contract;
      }

  pub accept_spend_check :
      Channels → SpendTicket → Text → Domain → Text → Micros → ℤ → Result Refusal (Unit {0})
  accept_spend_check s ticket sig d app_key expected_delta now = do
    map_err Refusal.core (SpendTicket.check X ticket d sig app_key (pos_part now))
    let existing = Dict.get (id_for s ticket.client ticket.worker_payout) s.open_channels
    check_owner existing ticket.client
    let already = field_or (λ c. c.authorised) 0 existing
    fail_if (ltb ticket.cumulative (saturating_add already expected_delta))
        (Refusal.behind ticket.cumulative already expected_delta)
    fail_if (leb ticket.cumulative already) (Refusal.must_rise ticket.cumulative already)
    ok tt

  unfoldable pub accept_spend :
      Channels
      → SpendTicket
      → Text
      → Domain
      → Text
      → Micros
      → ℤ
      → Bool
      → Result Refusal Micros × Channels
  unfolding accept_spend_check banked id_for write
  accept_spend s ticket sig d app_key expected_delta now saved =
      elim (accept_spend_check s ticket sig d app_key expected_delta now) [
        | err e ↦ (err e, s)
        | ok _ ↦ (
          ok expected_delta,
          write saved (record s {
            open_channels =
                Dict.insert (id_for s ticket.client ticket.worker_payout) (banked s ticket sig now)
                  s.open_channels;
          }),
        )
      ]

  unfoldable pub authorised_for : Channels → Text → Text → Micros
  unfolding id_for
  authorised_for s client worker =
      field_or (λ c. c.authorised) 0 (Dict.get (id_for s client worker) s.open_channels)

abbrev filter_owed : List Channel → List Channel
filter_owed [] = []
filter_owed (c ∷ cs) = if ltb 0 (channel_owed c) then c ∷ filter_owed cs else filter_owed cs

unfoldable pub redeemable : Channels → List Channel
unfolding channel_owed
redeemable s = filter_owed (Dict.values s.open_channels)

unfoldable pub owed_for : Channels → Text → Micros
unfolding channel_owed
owed_for s id = field_or channel_owed 0 (Dict.get id s.open_channels)

-- `sum` of `u64` values, as a release build computes it.
unfoldable pub owed : Channels → Micros
unfolding channel_owed
owed s = Dict.total channel_owed s.open_channels % 2 ^ 64

unfoldable pub settled : Channels → Text → Micros → Bool → Channels
unfolding write
settled s id upto saved = write saved (record s {
  open_channels = Dict.adjust id (λ c. record c { settled = max c.settled upto }) s.open_channels;
})
