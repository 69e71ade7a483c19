-- ===== src/Worker/Config/Checks.antt =====
-- crates/rootmode-worker/src/config.rs: `Config::validate`, and `Config::load` from the parsed file
-- on; `parse_bootstrap` of crates/rootmode-p2p/src/lib.rs.
use rootmode.Prelude.{
  ℕ, ◌+◌, Bool, true, false, not, ◌&&◌, ◌||◌, Option, none, some, List, [], ◌∷◌, is_empty, length,
  ◌==◌, ltb, is_some, map, if◌then◌else◌,
}
use rootmode.Prelude.Text.{Text, text, text_eq, utf8}
use rootmode.Prelude.Strings.{trim}
use rootmode.Prelude.Dict
use rootmode.Prelude.Dict.{Dict}
use rootmode.Prelude.Result.{Result, ok, ◌>>=◌, ◌>>◌, fail_if, ok_or}
use rootmode.Core.Externals.{Externals}
use rootmode.Worker.Chain.Client.{Signer}
use rootmode.Worker.Config.{
  Protocol, Host, ComfyConfig, OpenRouterConfig, BackendConfig, Config, BundledChain, is_blank,
  apply_payment_env, apply_network_defaults, apply_key, apply_payout_default,
}

-- What a refused configuration is told.
pub data Fault : Type 0 where
  bad_listen bad_peer bad_bootstrap no_transport bad_p2p_listen bad_endpoint : Text → Fault
  no_slots no_jobs no_backends no_api_key no_models no_prompt : Fault
  bad_scheme no_workflow unknown_slot : Text → Fault
  bad_slot_path : Text → Text → Fault

abbrev pub allowed_slots : List Text
allowed_slots = text "prompt" ∷ text "seed" ∷ []

abbrev pub is_in : Text → List Text → Bool
is_in t [] = false
is_in t (u ∷ us) = text_eq u t || is_in t us

-- `split(c).count()`
abbrev pub parts : ℕ → Text → ℕ
parts c [] = 1
parts c (d ∷ t) = let n = parts c t in if d == c then n + 1 else n

-- A loop that stops at the first refusal.
abbrev pub each {ℓ} :
    {A : Type ℓ} → (A → Result Fault (Unit {0})) → List A → Result Fault (Unit {0})
each f [] = ok tt
each f (a ∷ l) = f a >> each f l

abbrev pub is_dialable : List Protocol → Bool
is_dialable [] = false
is_dialable (p ∷ ps) = elim p [
  | Protocol.tcp ↦ true
  | Protocol.p2p_circuit ↦ true
  | Protocol.other ↦ is_dialable ps
]

unfoldable pub resolve : Host → Text → Text → Text
resolve H dir path = if H.is_absolute path then path else H.join dir path

unfoldable pub resolve_set : Host → Text → Text → Text
unfolding resolve
resolve_set H dir path = if is_empty path then path else resolve H dir path

module _ (H : Host) where
  unfoldable pub check_url : Text → Result Fault (Unit {0})
  check_url url = do
    scheme ← ok_or (H.url_scheme url) (Fault.bad_endpoint url)
    fail_if (not (text_eq scheme (text "http") || text_eq scheme (text "https")))
        (Fault.bad_scheme scheme)

  unfoldable pub parse_bootstrap : Text → Result Fault (Unit {0})
  unfolding trim
  parse_bootstrap addr = do
    parsed ← ok_or (H.multiaddr (trim addr)) (Fault.bad_bootstrap addr)
    fail_if (not (is_dialable parsed)) (Fault.no_transport addr)

  abbrev pub check_workflow : Option Text → Dict Text → Result Fault (Unit {0})
  check_workflow none slots = ok tt
  check_workflow (some workflow) slots =
      fail_if (not (H.exists workflow)) (Fault.no_workflow workflow)
      >> fail_if (is_empty slots) Fault.no_slots

  abbrev pub check_slot : Text × Text → Result Fault (Unit {0})
  check_slot s =
      fail_if (not (is_in s.0 allowed_slots)) (Fault.unknown_slot s.0)
      >> fail_if (ltb (parts 46 s.1) 2) (Fault.bad_slot_path s.0 s.1)

  module _ {F : Type 0} where
    unfoldable pub check_comfy : ComfyConfig F → Result Fault (Unit {0})
    unfolding check_url Dict.get
    check_comfy c =
        check_url c.endpoint
        >> check_workflow c.workflow c.slots
        >> each check_slot c.slots
        >> fail_if (is_some c.workflow && not (is_some (Dict.get (text "prompt") c.slots)))
            Fault.no_prompt

    abbrev pub check_openrouter : OpenRouterConfig F → Result Fault (Unit {0})
    check_openrouter c =
        fail_if (is_blank c.api_key) Fault.no_api_key >> fail_if (is_empty c.models) Fault.no_models

    unfoldable pub check_backend : BackendConfig F → Result Fault (Unit {0})
    unfolding check_url check_comfy
    check_backend (BackendConfig.vllm c) = check_url c.endpoint
    check_backend (BackendConfig.openrouter c) = check_openrouter c
    check_backend (BackendConfig.comfyui c) = check_comfy c

abbrev pub check_peer : Externals → Text → Result Fault (Unit {0})
check_peer X peer =
    fail_if (not (length (utf8 peer) == 64) || not (is_some (X.hex_decode peer)))
      (Fault.bad_peer peer)

module _ {F : Type 0} (X : Externals) (H : Host) where
  unfoldable pub validate : Config F → Result Fault (Unit {0})
  unfolding parse_bootstrap check_backend
  validate c =
      fail_if (not (H.is_socket_addr c.worker.listen)) (Fault.bad_listen c.worker.listen)
      >> fail_if (c.worker.max_concurrent == 0) Fault.no_jobs
      >> each (check_peer X) c.worker.allow_peers
      >> each (parse_bootstrap H) c.p2p.bootstrap
      >> each (λ a. fail_if (not (is_some (H.multiaddr a))) (Fault.bad_p2p_listen a)) c.p2p.listen
      >> fail_if (is_empty c.backends) Fault.no_backends
      >> each (check_backend H) c.backends

  abbrev pub resolve_backend : Text → BackendConfig F → BackendConfig F
  resolve_backend dir (BackendConfig.vllm c) = BackendConfig.vllm c
  resolve_backend dir (BackendConfig.openrouter c) = BackendConfig.openrouter c
  resolve_backend dir (BackendConfig.comfyui c) =
      BackendConfig.comfyui
        (record c { workflow = elim c.workflow [ none ↦ none | some w ↦ some (resolve H dir w) ] })

  unfoldable pub resolve_all : Text → Config F → Config F
  unfolding resolve resolve_set
  resolve_all dir c = record c {
    worker = record c.worker { identity_file = resolve H dir c.worker.identity_file };
    payments = record c.payments {
      key_file = resolve_set H dir c.payments.key_file;
      channels_file = resolve_set H dir c.payments.channels_file;
    };
    backends = map (resolve_backend dir) c.backends;
  }

  -- Paths are relative to the folder of the file, where its path names one.
  abbrev pub resolve_beside : Option Text → Config F → Config F
  resolve_beside none c = c
  resolve_beside (some dir) c = if is_empty dir then c else resolve_all dir c

  -- What `load` makes of the parsed file, before the checks.
  unfoldable pub prepared : Signer X → Option BundledChain → Text → Config F → Config F
  unfolding resolve_all apply_payment_env apply_network_defaults apply_key apply_payout_default
  prepared K bundled path c =
      let c = apply_payment_env H.env (resolve_beside (H.parent path) c) in
      let c = apply_network_defaults bundled c in
      apply_payout_default (record c { payments = apply_key X K H c.payments })

  unfoldable pub load : Signer X → Option BundledChain → Text → Config F → Result Fault (Config F)
  unfolding prepared validate
  load K bundled path c = validate (prepared K bundled path c) >> ok (prepared K bundled path c)
