-- ===== src/Worker/Config/Usable.antt =====
-- crates/rootmode-worker/src/config.rs: what a configuration that passes the checks is good for.
use rootmode.Prelude.{
  ℕ, ◌≤◌, ◌≡◌, ◌⊎◌, inl, inr, refl, sym, ap, subst, some_inj, ◌∙◌, Bool, true, false, not, ◌&&◌,
  ◌||◌, Bool-cases, Option, none, some, List, [], ◌∷◌, All, is_empty, is_some, length, ◌==◌, ltb,
  ltb-false, arith,
}
use rootmode.Prelude.Text.{Text, text, text_eq, text_eq_iff, utf8}
use rootmode.Prelude.Strings.{trim}
use rootmode.Prelude.Bytes.{Bytes}
use rootmode.Prelude.Dict
use rootmode.Prelude.Dict.{Dict}
use rootmode.Prelude.Result.{
  Result, ok, ◌>>=◌, ◌>>◌, fail_if, ok_or, >>-ok, >>=-ok, fail_if-ok, ok_inj,
}
use rootmode.Core.Externals.{Externals}
use rootmode.Worker.Chain.Client.{Signer}
use rootmode.Worker.Config.{Protocol, Host, BackendConfig, Config, BundledChain, is_blank}
use rootmode.Worker.Config.Checks.{
  Fault, allowed_slots, is_in, parts, each, is_dialable, check_url, parse_bootstrap, check_workflow,
  check_slot, check_comfy, check_backend, check_peer, validate, prepared, load,
}

not-false : (b : Bool) → not b ≡ false → b ≡ true
not-false true e = refl
not-false false e = cc

ok_or-some : {A : Type 0} (o : Option A) (e : Fault) {a : A} → ok_or o e ≡ ok a → o ≡ some a
ok_or-some none e h = cc
ok_or-some (some b) e h = ap some (ok_inj h)

is_some-some : {A : Type 0} (o : Option A) → is_some o ≡ true → (a : A) × (o ≡ some a)
is_some-some none e = absurd (cc e)
is_some-some (some a) e = (a, refl)

behind : {a b : Bool} → a ≡ false → (a || b) ≡ true → b ≡ true
behind e h = ground arith

each-All :
    {A : Type 0} (f : A → Result Fault (Unit {0})) (P : A → Type 0)
    → ((a : A) → f a ≡ ok tt → P a)
    → (l : List A) → each f l ≡ ok tt
    → All P l
each-All f P h [] e = tt
each-All f P h (a ∷ l) e =
    let (first, rest) = >>-ok (f a) (each f l) e in (h a first, each-All f P h l rest)

module _ (H : Host) where
  abbrev pub IsHttp : Text → Type 0
  IsHttp url = (H.url_scheme url ≡ some (text "http")) ⊎ (H.url_scheme url ≡ some (text "https"))

  abbrev pub IsDialable : Text → Type 0
  IsDialable addr =
      (ps : List Protocol) × (H.multiaddr (trim addr) ≡ some ps) × (is_dialable ps ≡ true)

  -- One of the two inputs that the worker fills, with a path of two parts or more.
  abbrev pub IsSlot : Text × Text → Type 0
  IsSlot s = ((s.0 ≡ text "prompt") ⊎ (s.0 ≡ text "seed")) × (2 ≤ parts 46 s.1)

  -- Where the operator names a workflow, its file is there and the prompt has a slot.
  abbrev pub IsServable : {F : Type 0} → BackendConfig F → Type 0
  IsServable (BackendConfig.vllm c) = IsHttp c.endpoint
  IsServable (BackendConfig.openrouter c) =
      (is_blank c.api_key ≡ false) × (is_empty c.models ≡ false)
  IsServable (BackendConfig.comfyui c) =
      IsHttp c.endpoint
      × All IsSlot c.slots
      × ((w : Text)
          → c.workflow ≡ some w
          → (H.exists w ≡ true) × (is_some (Dict.get (text "prompt") c.slots) ≡ true))

  check_url-IsHttp : (url : Text) → check_url H url ≡ ok tt → IsHttp url
  unfolding check_url
  check_url-IsHttp url e = go (H.url_scheme url) refl e
    where
      go :
          (o : Option Text)
          → H.url_scheme url ≡ o
          → (ok_or o (Fault.bad_endpoint url) >>= λ scheme.
              fail_if
                (not (text_eq scheme (text "http") || text_eq scheme (text "https")))
                (Fault.bad_scheme scheme))
            ≡ ok tt
          → IsHttp url
      go none h k = absurd (cc k)
      go (some scheme) h k =
          let test = text_eq scheme (text "http") || text_eq scheme (text "https") in
          let good : test ≡ true =
            not-false test (fail_if-ok (not test) (Fault.bad_scheme scheme) k) in
          elim (Bool-cases (text_eq scheme (text "http"))) [
            | inl plain ↦ inl (h ∙ ap some ((text_eq_iff scheme (text "http")).0 plain))
            | inr other ↦
                inr (h ∙ ap some ((text_eq_iff scheme (text "https")).0 (behind other good)))
          ]

  parse_bootstrap-IsDialable : (a : Text) → parse_bootstrap H a ≡ ok tt → IsDialable a
  unfolding parse_bootstrap
  parse_bootstrap-IsDialable a e =
      let (ps, found, good) = >>=-ok (ok_or (H.multiaddr (trim a)) (Fault.bad_bootstrap a)) _ e in
      (
        ps,
        ok_or-some (H.multiaddr (trim a)) _ found,
        not-false _ (fail_if-ok (not (is_dialable ps)) (Fault.no_transport a) good),
      )

  check_slot-IsSlot : (s : Text × Text) → check_slot H s ≡ ok tt → IsSlot s
  check_slot-IsSlot s e =
      let known = is_in s.0 allowed_slots in
      let (e1, e2) =
        >>-ok (fail_if (not known) (Fault.unknown_slot s.0))
          (fail_if (ltb (parts 46 s.1) 2) (Fault.bad_slot_path s.0 s.1)) e in
      (
        slot-name s.0 (not-false known (fail_if-ok (not known) _ e1)),
        ltb-false _ _ (fail_if-ok _ _ e2),
      )
    where
      slot-name :
          (t : Text) → is_in t allowed_slots ≡ true → (t ≡ text "prompt") ⊎ (t ≡ text "seed")
      slot-name t h = elim (Bool-cases (text_eq (text "prompt") t)) [
        | inl first ↦ inl (sym ((text_eq_iff (text "prompt") t).0 first))
        | inr other ↦ elim (Bool-cases (text_eq (text "seed") t)) [
          | inl second ↦ inr (sym ((text_eq_iff (text "seed") t).0 second))
          | inr none_of ↦ absurd (cc (h, other, none_of))
        ]
      ]

  check_workflow-there :
      (o : Option Text) (slots : Dict Text) (w : Text)
      → check_workflow H o slots ≡ ok tt
      → o ≡ some w
      → H.exists w ≡ true
  check_workflow-there none slots w e h = absurd (cc h)
  check_workflow-there (some v) slots w e h =
      let there : H.exists v ≡ true = not-false _ (
        fail_if-ok _ _
          (>>-ok (fail_if (not (H.exists v)) (Fault.no_workflow v))
            (fail_if (is_empty slots) Fault.no_slots) e).0) in
      subst (λ x. H.exists x ≡ true) (some_inj h) there

  check_backend-IsServable :
      {F : Type 0} (b : BackendConfig F) → check_backend H b ≡ ok tt → IsServable b
  unfolding check_backend check_comfy
  check_backend-IsServable (BackendConfig.vllm c) e = check_url-IsHttp c.endpoint e
  check_backend-IsServable (BackendConfig.openrouter c) e =
      let (e1, e2) =
        >>-ok (fail_if (is_blank c.api_key) Fault.no_api_key)
          (fail_if (is_empty c.models) Fault.no_models) e in
      (fail_if-ok _ _ e1, fail_if-ok _ _ e2)
  check_backend-IsServable (BackendConfig.comfyui c) e =
      let url = check_url H c.endpoint in
      let flow = check_workflow H c.workflow c.slots in
      let slots = each (check_slot H) c.slots in
      let has = is_some (Dict.get (text "prompt") c.slots) in
      let (e3, prompt) =
        >>-ok ((url >> flow) >> slots) (fail_if (is_some c.workflow && not has) Fault.no_prompt)
          e in
      let (e2, each_good) = >>-ok (url >> flow) slots e3 in
      let (e1, there) = >>-ok url flow e2 in
      (
        check_url-IsHttp c.endpoint e1,
        each-All (check_slot H) IsSlot check_slot-IsSlot c.slots each_good,
        λ w h. (
          check_workflow-there c.workflow c.slots w there h,
          filled has (is_some c.workflow) (ap is_some h) (fail_if-ok _ _ prompt),
        ),
      )
    where
      filled : (a b : Bool) → b ≡ true → (b && not a) ≡ false → a ≡ true
      filled a b e h = ground arith

-- A configuration that a worker can start from.
pub record IsUsable {F : Type 0} (X : Externals) (H : Host) (c : Config F) : Type 0 where
  pub listens : H.is_socket_addr c.worker.listen ≡ true
  pub works : 1 ≤ c.worker.max_concurrent
  pub peers :
      All
        (λ p. (length (utf8 p) ≡ 64) × (b : Bytes) × (X.hex_decode p ≡ some b))
        c.worker.allow_peers
  pub entries : All (IsDialable H) c.p2p.bootstrap
  pub serves : is_empty c.backends ≡ false
  pub backends : All (IsServable H) c.backends

check_peer-named :
    (X : Externals) (p : Text)
    → check_peer X p ≡ ok tt
    → (length (utf8 p) ≡ 64) × (b : Bytes) × (X.hex_decode p ≡ some b)
check_peer-named X p e =
    let long = length (utf8 p) == 64 in
    let hex = is_some (X.hex_decode p) in
    let (size, digits) = both long hex (fail_if-ok (not long || not hex) (Fault.bad_peer p) e) in
    let (b, decoded) = is_some-some (X.hex_decode p) digits in (ground (arith, size), b, decoded)
  where
    both : (a b : Bool) → (not a || not b) ≡ false → (a ≡ true) × (b ≡ true)
    both a b h = ground arith

positive : (n : ℕ) → (n == 0) ≡ false → 1 ≤ n
positive n e = ground arith

module _ {F : Type 0} (X : Externals) (H : Host) where
  validate-IsUsable : (c : Config F) → validate X H c ≡ ok tt → IsUsable X H c
  unfolding validate
  validate-IsUsable c e =
      let listen =
        fail_if (not (H.is_socket_addr c.worker.listen)) (Fault.bad_listen c.worker.listen) in
      let jobs = fail_if (c.worker.max_concurrent == 0) Fault.no_jobs in
      let peers = each (check_peer X) c.worker.allow_peers in
      let boot = each (parse_bootstrap H) c.p2p.bootstrap in
      let addrs =
        each (λ a. fail_if (not (is_some (H.multiaddr a))) (Fault.bad_p2p_listen a)) c.p2p.listen in
      let some_backend = fail_if (is_empty c.backends) Fault.no_backends in
      let (e6, servable) =
        >>-ok (((((listen >> jobs) >> peers) >> boot) >> addrs) >> some_backend)
          (each (check_backend H) c.backends) e in
      let (e5, any) = >>-ok ((((listen >> jobs) >> peers) >> boot) >> addrs) some_backend e6 in
      let (e4, _) = >>-ok (((listen >> jobs) >> peers) >> boot) addrs e5 in
      let (e3, dialable) = >>-ok ((listen >> jobs) >> peers) boot e4 in
      let (e2, named) = >>-ok (listen >> jobs) peers e3 in
      let (e1, work) = >>-ok listen jobs e2 in
      record {
        listens = not-false _ (fail_if-ok _ _ e1);
        works = positive c.worker.max_concurrent (fail_if-ok _ _ work);
        peers = each-All (check_peer X) _ (check_peer-named X) c.worker.allow_peers named;
        entries =
            each-All (parse_bootstrap H) (IsDialable H) (parse_bootstrap-IsDialable H)
              c.p2p.bootstrap dialable;
        serves = fail_if-ok _ _ any;
        backends =
            each-All (check_backend H) (IsServable H) (check_backend-IsServable H) c.backends
              servable;
      }

  -- When load returns a configuration, it is the parsed file with its paths, its environment
  -- and its defaults applied, the address to listen on parses, at least one job runs at a time,
  -- each allowed peer is 64 bytes of hexadecimal, each entry point is an address that can be
  -- dialled, and there is a backend; and each backend has an http or https endpoint, or for
  -- OpenRouter a key and a model, while for ComfyUI each slot is the prompt or the seed with a
  -- path of two parts or more, and a workflow of the operator's own is on disk and has a slot
  -- for the prompt.
  pub load-IsUsable :
      (K : Signer X) (bundled : Option BundledChain) (path : Text) (c d : Config F)
      → load X H K bundled path c ≡ ok d
      → (d ≡ prepared X H K bundled path c) × IsUsable X H d
  unfolding load
  load-IsUsable K bundled path c d e =
      let (good, same) =
        >>-ok (validate X H (prepared X H K bundled path c)) (ok (prepared X H K bundled path c))
          e in
      (sym (ok_inj same), subst (IsUsable X H) (ok_inj same) (validate-IsUsable _ good))
