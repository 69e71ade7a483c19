-- ===== src/Worker/Server.antt =====
-- crates/rootmode-worker/src/server.rs: how a worker decides on the payment of a job, and
-- `PaymentsConfig::domain` and `Config::require_signature` of config.rs. The floats, the JSON
-- library, the hashes and the tokenizer are parameters. The functions take the lists, the maps and
-- the ledger that the worker shares between its tasks as arguments and return what they changed.
pub mod Prices
pub mod Admission
pub mod Lock
pub mod Capture
pub mod Settlement
mod Tests
use rootmode.Prelude.{
  ℕ, ◌-◌, ◌*◌, Bool, not, ◌&&◌, ◌||◌, Option, none, some, List, is_empty, all, leb, ltb, ◌==◌,
  length, map, if◌then◌else◌,
}
use rootmode.Prelude.Text.{Text, text, utf8}
use rootmode.Prelude.Strings.{trim, starts_with, hex_digit, slice_from}
use rootmode.Prelude.{is_some}
use rootmode.Core.Payments.{Domain}
use rootmode.Core.Protocol.{JobPay, ModelDescriptor}
use rootmode.Worker.Chain.Client.{PaymentsConfig}

abbrev pub settle_min_micros : ℕ
settle_min_micros = 50000

abbrev pub settle_before_deadline_secs : ℕ
settle_before_deadline_secs = 20 * 60

-- The fields of the configuration that the decisions read, and what the registry lists.
pub record Setup (F : Type 0) : Type 0 where
  pub payments : PaymentsConfig
  pub require_auth : Bool
  pub payout_address : Text
  pub require_signature_set : Bool
  pub allow_peers : List Text
  pub models : List (ModelDescriptor F)

pub record Bond : Type 0 where
  pub pay : JobPay
  pub delta : ℕ
  pub app_key : Text

module _ {F : Type 0} where
  unfoldable pub domain : Setup F → Option Domain
  unfolding trim
  domain c =
      let contract = trim c.payments.contract in
      if is_empty contract
      then none
      else some (record { chain_id = c.payments.chain_id; verifying_contract = contract })

  unfoldable pub require_signature : Setup F → Bool
  require_signature c = c.require_signature_set || not (is_empty c.allow_peers)

abbrev pub is_ascii_alphabetic : ℕ → Bool
is_ascii_alphabetic c = (leb 65 c && leb c 90) || (leb 97 c && leb c 122)

abbrev pub ascii_upper : ℕ → ℕ
ascii_upper c = if leb 97 c && leb c 122 then c - 32 else c

unfoldable pub normalise_country : Text → Option Text
unfolding trim utf8
normalise_country raw =
    let code = trim raw in
    if length (utf8 code) == 2 && all is_ascii_alphabetic code
    then some (map ascii_upper code)
    else none

-- `address[2..]`, where the text is known to begin with `0x`.
abbrev pub behind_0x : Text → Text
behind_0x t = elim (slice_from 2 t) [ none ↦ t | some u ↦ u ]

unfoldable pub payout_of : Text → Option Text
unfolding trim utf8 starts_with hex_digit
payout_of raw =
    let address = trim raw in
    let looks_right =
      length (utf8 address) == 42
      && starts_with address (text "0x")
      && all (λ c. is_some (hex_digit c)) (behind_0x address) in
    if looks_right then some address else none
