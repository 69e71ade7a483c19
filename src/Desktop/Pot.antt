-- ===== src/Desktop/Pot.antt =====
-- apps/desktop/src-tauri/src/pot.rs: what the client has signed, on which channel, and for which
-- jobs. The state is the two maps in memory and the rows of the pending file.
pub mod Addresses
pub mod Restore
pub mod Locks
pub mod Invoices
mod Tests
use rootmode.Prelude.{
  ℕ, ◌+◌, ◌-◌, ◌*◌, ◌%◌, Bool, not, ◌&&◌, ◌||◌, Option, none, some, List, [], ◌∷◌, ◌++◌, is_empty,
  max, leb, ltb, ◌==◌, u64_max, map, if◌then◌else◌,
}
use rootmode.Prelude.Bytes.{Bytes}
use rootmode.Prelude.Int.{ℤ}
use rootmode.Prelude.Text.{Text, text, text_eq, trim_0x, to_lowercase, eq_ignore_ascii_case}
use rootmode.Prelude.Dict
use rootmode.Prelude.Dict.{Dict}
use rootmode.Prelude.Result.{Result, ok, err, ◌>>=◌, ok_or, map_err}
use rootmode.Core.Errors.{CoreError}
use rootmode.Core.Externals.{Externals}
use rootmode.Core.Job.{JobKind}
use rootmode.Core.Price.{Price}
use rootmode.Core.Payments.{Micros, Domain}
use rootmode.Core.Payments.SpendTicket
use rootmode.Core.Payments.SpendTicket.{SpendTicket}
use rootmode.Worker.Chain.Client.{Signer}

abbrev pub default_max_job : Micros
default_max_job = 500000

abbrev pub ticket_ttl_secs : ℕ
ticket_ttl_secs = 3600

-- The fields of the chain's configuration that the accounting reads.
pub record ChainConfig : Type 0 where
  pub chain_id : ℕ
  pub pot : Text

pub record PendingJob (F : Type 0) : Type 0 where
  pub price : Price F
  pub kind : JobKind
  pub paid : Bool
  pub sha256 : Option Text
  pub ceiling : Micros
  pub job_cap : Micros
  pub cost : Option Micros
  pub model : Text
  pub peer : Text
  pub payout : Text
  pub bond_cumulative : Micros

pub record LatestTicket : Type 0 where
  pub ticket : SpendTicket
  pub sig : Bytes
  pub on_chain_paid : ℕ
  pub pot : Text

pub record DiskTicket : Type 0 where
  pub ticket : SpendTicket
  pub sig : Text
  pub on_chain_paid : ℕ
  pub pot : Text

pub record ChannelSnap : Type 0 where
  pub reserved : ℕ
  pub paid : ℕ
  pub earned : ℕ
  pub max_per_job : ℕ

unfoldable pub snap_remaining : ChannelSnap → ℕ
snap_remaining ch = ch.reserved - ch.earned

pub record Pot (F : Type 0) : Type 0 where
  pub jobs : Dict (PendingJob F)
  pub latest : Dict LatestTicket
  pub file : Option (List DiskTicket)

-- What is said to the user, with the values that are printed.
pub data Refused : Type 0 where
  no_payout wrong_wallet other_job no_amount no_lock already_paid no_client : Refused
  above_channel_cap : ℕ → ℕ → ℕ → Refused
  not_covered : ℕ → ℕ → Refused
  job_limit : ℕ → Refused
  above_estimate : ℕ → ℕ → Refused
  top_up_too_large : Refused
  above_price : ℕ → ℕ → Refused
  above_prepaid : Refused
  above_cap : ℕ → Refused
  cannot_sign : Refused
  core : CoreError → Refused

abbrev pub PotResult : Type 0 → Type 0
PotResult A = Result Refused A

module _ (X : Externals) where
  unfoldable pub addr_key : Text → Text
  unfolding trim_0x to_lowercase
  addr_key addr = to_lowercase X.unicode_lowercase (trim_0x addr)

  unfoldable pub channel_key : Text → Text → Text
  unfolding addr_key
  channel_key client worker = addr_key client ++ text "/" ++ addr_key worker

  -- The ticket counts on the configured pot and for this payer only.
  abbrev pub counted : ChainConfig → Text → Option LatestTicket → ℕ
  counted cfg client none = 0
  counted cfg client (some t) =
      if eq_ignore_ascii_case t.pot cfg.pot && eq_ignore_ascii_case t.ticket.client client
      then t.ticket.cumulative
      else 0

  unfoldable pub cached_cumulative : {F : Type 0} → Pot F → ChainConfig → Text → Text → ℕ
  unfolding channel_key
  cached_cumulative s cfg client worker =
      counted cfg client (Dict.get (channel_key client worker) s.latest)

  -- What is authorised, and what the chain has paid or recognised, by a read of the channel.
  unfoldable pub authorised_so_far :
      {F : Type 0} → Pot F → ChainConfig → Text → Text → ChannelSnap → ℕ × ℕ
  unfolding cached_cumulative
  authorised_so_far s cfg client worker ch =
      let on_chain = max ch.paid ch.earned in
      (max (cached_cumulative s cfg client worker) on_chain, on_chain)

  -- The ticket up to a cumulative, signed by the app key.
  unfoldable pub sign_latest :
      (K : Signer X)
      → K.SigningKey
      → ChainConfig
      → Text
      → Text
      → ℕ
      → ℕ
      → PotResult (SpendTicket × Bytes)
  unfolding SpendTicket.digest
  sign_latest K key cfg client worker cumulative now =
      let ticket : SpendTicket = record {
        client = client;
        worker_payout = worker;
        cumulative = cumulative;
        deadline = now + ticket_ttl_secs;
      } in
      map_err Refused.core (
        SpendTicket.digest X ticket
          (record { chain_id = cfg.chain_id; verifying_contract = cfg.pot }))
      >>= λ digest. ok_or (K.sign_prehash key digest) Refused.cannot_sign >>= λ (bytes, recovery).
          ok (ticket, bytes ++ (recovery + 27) % 256 ∷ [])

  abbrev pub to_disk : LatestTicket → DiskTicket
  to_disk t = record {
    ticket = t.ticket;
    sig = X.hex_encode t.sig;
    on_chain_paid = t.on_chain_paid;
    pot = t.pot;
  }

  -- `saved` is whether the file could be written.
  unfoldable pub persist : {F : Type 0} → Bool → Pot F → Pot F
  persist saved s =
      if saved then record s { file = some (map to_disk (Dict.values s.latest)) } else s

-- The limit that a job is held to.
unfoldable pub cap_of : ℕ → ℕ
cap_of max_per_job = if max_per_job == 0 then default_max_job else max_per_job

unfoldable pub drop_job : {F : Type 0} → Pot F → Text → Pot F
drop_job s job_id = record s { jobs = Dict.remove job_id s.jobs }

unfoldable pub expected_sha256 : {F : Type 0} → Pot F → Text → Option Text
expected_sha256 s job_id = elim (Dict.get job_id s.jobs) [ none ↦ none | some j ↦ j.sha256 ]

unfoldable pub job_cost_micros : {F : Type 0} → Pot F → Text → Option Micros
job_cost_micros s job_id = elim (Dict.get job_id s.jobs) [ none ↦ none | some j ↦ j.cost ]
