-- ===== src/Worker/Config/Tests.antt =====
-- Runs and examples of config.rs.
use rootmode.Prelude.{ℕ, ◌≡◌, ◌++◌, refl, true, false, none, some, [], ◌∷◌, replicate}
use rootmode.Prelude.Text.{text, text_eq, trim_0x, utf8, utf8_char}
use rootmode.Prelude.Strings.{trim, is_whitespace, starts_with}
use rootmode.Prelude.Bytes.{Bytes}
use rootmode.Prelude.Dict
use rootmode.Prelude.Result.{ok, err}
use rootmode.Core.Fixtures.{toy}
use rootmode.Core.Json.{trees, obj, num, str, field, end}
use rootmode.Core.Payments.{address_of}
use rootmode.Worker.Chain.Client.{Signer}
use rootmode.Worker.Config.{
  Protocol, Host, ComfyConfig, BackendConfig, Config, BundledChain, apply_payment_env,
  apply_network_defaults, apply_key, apply_payout_default, charges, is_blank, scrub, own_key,
  key_address, bundled_chain,
}
use rootmode.Worker.Config.Checks.{
  Fault, check_url, parse_bootstrap, check_comfy, check_backend, validate, resolve, resolve_set,
  resolve_all, prepared, load,
}
use rootmode.Worker.Config.Usable.{IsUsable, load-IsUsable}

abbrev toy_signer : Signer toy
toy_signer = record {
  SigningKey = Bytes;
  from_bytes = λ b. some b;
  verifying_key = λ k. k;
  sign_prehash = λ k b. some (replicate 64 1, 0);
}

abbrev host : Host
host = record {
  env = λ v. none;
  is_socket_addr = λ a. true;
  multiaddr = λ a. some (Protocol.other ∷ Protocol.tcp ∷ []);
  url_scheme = λ u. some (text "http");
  exists = λ p. true;
  is_absolute = λ p. false;
  join = λ d p. d ++ text "/" ++ p;
  parent = λ p. some (text "etc");
  pay_key = λ p. none;
}

abbrev pictures : ComfyConfig ℕ
pictures = record {
  endpoint = text "http://gpu:8188";
  workflow = some (text "sdxl.json");
  workflow_for = [];
  checkpoint_id = text "sdxl";
  model_hash = none;
  price = some 2;
  prices = [];
  currency = text "USD";
  slots = (text "prompt", text "6.inputs.text") ∷ [];
  timeout_secs = 900;
}

abbrev node : ComfyConfig ℕ → Config ℕ
node c = record {
  worker = record {
    label = text "node";
    listen = text "0.0.0.0:9944";
    max_concurrent = 1;
    require_signature = true;
    allow_peers = replicate 64 97 ∷ [];
    country = [];
    identity_file = text "worker.key";
    payout_address = [];
    refresh_secs = 60;
  };
  stats = record { url = []; report_secs = 300 };
  p2p = record {
    enabled = true;
    bootstrap = text "/ip4/1.2.3.4/tcp/4001" ∷ [];
    listen = [];
    relay = true;
    dht_server = false;
    local_discovery = true;
    external = [];
  };
  payments = record {
    contract = text "${POT}";
    chain_id = 8453;
    rpc = [];
    sender = text " 0xme";
    key = text "0x" ++ replicate 32 66;
    key_file = [];
    require_auth = false;
    channels_file = text "channels.json";
  };
  backends = BackendConfig.comfyui c ∷ [];
}

abbrev base : BundledChain
base = record { chain_id = 8453; pot = text "0xpot"; rpc = text "https://rpc" }

bundled :
    bundled_chain trees (
      some (
        obj (
          field (text "pot") (str (text " 0xpot ")) (
            field
              (text "chainId")
              (num 8453)
              (field (text "rpc") (str (text "https://rpc")) end)))))
    ≡ some base
unfolding bundled_chain trim is_whitespace text_eq
bundled = refl

-- A node that names only a price and its sender settles on the network's pot and is paid there.
abbrev started : Config ℕ
started =
    let c = node (record pictures { workflow = some (text "etc/sdxl.json") }) in
    record c {
      worker = record c.worker {
        identity_file = text "etc/worker.key";
        payout_address = text "0xme";
      };
      payments = record c.payments {
        contract = text "0xpot";
        rpc = text "https://rpc";
        channels_file = text "etc/channels.json";
      };
    }

starts : load toy host toy_signer (some base) (text "etc/worker.toml") (node pictures) ≡ ok started
unfolding load prepared validate resolve_all resolve resolve_set apply_payment_env scrub trim
    is_whitespace starts_with apply_network_defaults charges is_blank apply_key own_key key_address
    trim_0x address_of apply_payout_default parse_bootstrap check_backend check_comfy check_url
    text_eq Dict.get utf8 utf8_char
starts = refl

no_prompt :
    check_comfy host (record pictures { slots = (text "seed", text "3.inputs.seed") ∷ [] })
    ≡ err Fault.no_prompt
unfolding check_comfy check_url text_eq Dict.get
no_prompt = refl

load-IsUsable_example :
    (started ≡ prepared toy host toy_signer (some base) (text "etc/worker.toml") (node pictures))
    × IsUsable toy host started
load-IsUsable_example =
    load-IsUsable toy host toy_signer (some base) (text "etc/worker.toml") (node pictures) started
      starts
