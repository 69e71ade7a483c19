-- ===== src/Worker/Config.antt =====
-- crates/rootmode-worker/src/config.rs: the configuration of a worker, and what a start makes of it.
-- The file system, the environment, the parsers of addresses and of URLs are parameters (Host).
pub mod Checks
pub mod Usable
mod Tests
use rootmode.Prelude.{
  ℕ, Bool, true, false, not, ◌&&◌, ◌||◌, Option, none, some, List, [], ◌∷◌, is_empty, length, ◌==◌,
  is_some, ◌^◌, if◌then◌else◌,
}
use rootmode.Prelude.Text.{Text, text, trim_0x}
use rootmode.Prelude.Strings.{trim, starts_with, from_dec}
use rootmode.Prelude.Dict.{Dict}
use rootmode.Core.Externals.{Externals}
use rootmode.Core.Json.{JsonApi}
use rootmode.Core.Payments.{address_of}
use rootmode.Worker.Chain.Client.{Signer}

-- The parts of an address of libp2p that the checks tell apart.
pub data Protocol : Type 0 where
  tcp p2p_circuit other : Protocol

-- Paths are the texts that show them.
pub record Host : Type 0 where
  pub env : Text → Option Text
  pub is_socket_addr : Text → Bool
  pub multiaddr : Text → Option (List Protocol)
  pub url_scheme : Text → Option Text
  pub exists : Text → Bool
  pub is_absolute : Text → Bool
  pub join : Text → Text → Text
  pub parent : Text → Option Text
  -- `load_or_create_pay_key`.
  pub pay_key : Text → Option Text

pub record StatsConfig : Type 0 where
  pub url : Text
  pub report_secs : ℕ

pub record P2pConfig : Type 0 where
  pub enabled : Bool
  pub bootstrap : List Text
  pub listen : List Text
  pub relay : Bool
  pub dht_server : Bool
  pub local_discovery : Bool
  pub external : List Text

pub record WorkerConfig : Type 0 where
  pub label : Text
  pub listen : Text
  pub max_concurrent : ℕ
  pub require_signature : Bool
  pub allow_peers : List Text
  pub country : Text
  pub identity_file : Text
  pub payout_address : Text
  pub refresh_secs : ℕ

pub record OpenRouterConfig (F : Type 0) : Type 0 where
  pub api_key : Text
  pub models : List Text
  pub markup : F
  pub web_search : Bool
  pub timeout_secs : ℕ

pub record VllmConfig (F : Type 0) : Type 0 where
  pub endpoint : Text
  pub api_key : Option Text
  pub models : List Text
  pub model_hashes : Dict Text
  pub price : Option F
  pub prices : Dict F
  pub currency : Text
  pub timeout_secs : ℕ

pub record WorkflowChoice : Type 0 where
  pub model : Text
  pub file : Text
  pub slots : Dict Text

pub record ComfyConfig (F : Type 0) : Type 0 where
  pub endpoint : Text
  pub workflow : Option Text
  pub workflow_for : List WorkflowChoice
  pub checkpoint_id : Text
  pub model_hash : Option Text
  pub price : Option F
  pub prices : Dict F
  pub currency : Text
  pub slots : Dict Text
  pub timeout_secs : ℕ

pub data BackendConfig (F : Type 0) : Type 0 where
  vllm : VllmConfig F → BackendConfig F
  comfyui : ComfyConfig F → BackendConfig F
  openrouter : OpenRouterConfig F → BackendConfig F

pub record PaymentsConfig : Type 0 where
  pub contract : Text
  pub chain_id : ℕ
  pub rpc : Text
  pub sender : Text
  pub key : Text
  pub key_file : Text
  pub require_auth : Bool
  pub channels_file : Text

pub record Config (F : Type 0) : Type 0 where
  pub worker : WorkerConfig
  pub stats : StatsConfig
  pub p2p : P2pConfig
  pub payments : PaymentsConfig
  pub backends : List (BackendConfig F)

pub record BundledChain : Type 0 where
  pub chain_id : ℕ
  pub pot : Text
  pub rpc : Text

unfoldable pub is_blank : Text → Bool
unfolding trim
is_blank t = is_empty (trim t)

unfoldable pub stats_enabled : StatsConfig → Bool
unfolding is_blank
stats_enabled c = not (is_blank c.url)

abbrev pub unwrap_or : Option Text → Text → Text
unwrap_or none d = d
unwrap_or (some t) d = t

-- `bundled_chain`, from what `serde_json` makes of the file that is built in.
unfoldable pub bundled_chain : (J : JsonApi) → Option J.Value → Option BundledChain
unfolding trim
bundled_chain J file = elim file [
  | none ↦ none
  | some v ↦ elim (J.get v (text "pot")) [
    | none ↦ none
    | some p ↦ elim (J.as_str p) [
      | none ↦ none
      | some pot ↦ if is_empty (trim pot) then none else elim (J.get v (text "chainId")) [
        | none ↦ none
        | some i ↦ elim (J.as_u64 i) [
          | none ↦ none
          | some id ↦ elim (J.get v (text "rpc")) [
            | none ↦ none
            | some r ↦ elim (J.as_str r) [
              | none ↦ none
              | some rpc ↦ some (record { chain_id = id; pot = trim pot; rpc = trim rpc })
            ]
          ]
        ]
      ]
    ]
  ]
]

unfoldable pub scrub : Text → Text
unfolding trim starts_with
scrub s = if is_empty (trim s) || starts_with (trim s) (text "${") then [] else s

-- What a variable of the environment fills, where nothing was set.
abbrev pub fill : Option Text → Text → Text
fill value s = if is_empty s then unwrap_or value s else s

abbrev pub chain_id_of : Option Text → ℕ → ℕ
chain_id_of none id = id
chain_id_of (some v) id = elim (from_dec (2 ^ 64) (trim v)) [ none ↦ id | some n ↦ n ]

module _ {F : Type 0} where
  abbrev pub is_priced : BackendConfig F → Bool
  is_priced (BackendConfig.vllm c) = is_some c.price || not (is_empty c.prices)
  is_priced (BackendConfig.comfyui c) = is_some c.price || not (is_empty c.prices)
  is_priced (BackendConfig.openrouter c) = true

  abbrev any_priced : List (BackendConfig F) → Bool
  any_priced [] = false
  any_priced (b ∷ bs) = is_priced b || any_priced bs

  unfoldable pub charges : Config F → Bool
  unfolding is_blank
  charges c = not (is_blank c.worker.payout_address) || any_priced c.backends

  unfoldable pub apply_network_defaults : Option BundledChain → Config F → Config F
  unfolding charges is_blank
  apply_network_defaults bundled c = if not (charges c) then c else elim bundled [
    | none ↦ c
    | some chain ↦ if not (chain.chain_id == c.payments.chain_id) then c else record c {
      payments = record c.payments {
        contract = if is_blank c.payments.contract then chain.pot else c.payments.contract;
        rpc = if is_blank c.payments.rpc then chain.rpc else c.payments.rpc;
      };
    }
  ]

  unfoldable pub apply_payout_default : Config F → Config F
  unfolding charges is_blank trim
  apply_payout_default c =
      let sender = trim c.payments.sender in
      if not (is_blank c.worker.payout_address) || not (charges c)
      then c
      else if is_empty sender
      then c
      else record c { worker = record c.worker { payout_address = sender } }

  unfoldable pub apply_payment_env : (Text → Option Text) → Config F → Config F
  unfolding scrub
  apply_payment_env env c = record c {
    payments = record c.payments {
      contract = fill (env (text "ROOTMODE_POT")) (scrub c.payments.contract);
      rpc = fill (env (text "ROOTMODE_RPC")) (scrub c.payments.rpc);
      chain_id = chain_id_of (env (text "ROOTMODE_CHAIN_ID")) c.payments.chain_id;
    };
    worker = record c.worker {
      payout_address = fill (env (text "ROOTMODE_PAYOUT")) (scrub c.worker.payout_address);
    };
  }

unfoldable pub own_key : Host → PaymentsConfig → Text
unfolding trim starts_with
own_key H c =
    let k = trim c.key in
    let key =
      if is_empty k || starts_with k (text "${")
      then unwrap_or (H.env (text "ROOTMODE_PAY_KEY")) []
      else c.key in
    if is_empty (trim key) && not (is_empty c.key_file)
    then unwrap_or (H.pay_key c.key_file) key
    else key

module _ (X : Externals) (K : Signer X) where
  -- The address of a key that is 32 bytes of hexadecimal and on the curve.
  unfoldable pub key_address : Text → Option Text
  unfolding trim trim_0x address_of
  key_address key =
      let raw = trim_0x (trim key) in
      if is_empty raw then none else elim (X.hex_decode raw) [
        | none ↦ none
        | some bytes ↦ if not (length bytes == 32) then none else elim (K.from_bytes bytes) [
          | none ↦ none
          | some sk ↦ some (address_of X (K.verifying_key sk))
        ]
      ]

  unfoldable pub apply_key : Host → PaymentsConfig → PaymentsConfig
  unfolding own_key key_address is_blank
  apply_key H c =
      let key = own_key H c in
      record c {
        key = key;
        sender = elim (key_address key) [
          | none ↦ c.sender
          | some addr ↦ if is_blank c.sender then addr else c.sender
        ];
      }
