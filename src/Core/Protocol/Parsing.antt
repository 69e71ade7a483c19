-- ===== src/Core/Protocol/Parsing.antt =====
-- crates/rootmode-core/src/protocol.rs: what the two parsers let through.
use rootmode.Prelude.{
  ℕ, ◌≡◌, ◌≤◌, ◌↔◌, refl, ap, sym, subst, ◌∙◌, Option, none, some, Bool, true, false, ltb, length,
  arith,
}
use rootmode.Prelude.Text.{Text, utf8}
use rootmode.Prelude.Result.{ok, err, ok_or, fail_if, ◌>>=◌, ◌>>◌, ok_inj}
use rootmode.Core.Errors.{Message, CoreError, CoreResult}
use rootmode.Core.Protocol.{
  ClientMessage, WorkerMessage, parse_client, parse_worker, client_versions, worker_versions,
  check_version, max_message_bytes, protocol_version,
}

module _ {F V : Type 0} where
  -- The version that a message names, where it names one.
  abbrev pub client_version : ClientMessage F V → Option ℕ
  client_version (ClientMessage.job_submit m) = some m.v
  client_version (ClientMessage.peer_hello m) = some m.v
  client_version (ClientMessage.job_pay m) = some m.v
  client_version (ClientMessage.job_cancel m) = none
  client_version ClientMessage.unknown = none

  abbrev pub worker_version : WorkerMessage F V → Option ℕ
  worker_version (WorkerMessage.job_status m) = some m.v
  worker_version (WorkerMessage.job_result m) = some m.v
  worker_version (WorkerMessage.job_delta m) = some m.v
  worker_version (WorkerMessage.peer_announce m) = some m.v
  worker_version (WorkerMessage.job_invoice m) = some m.v
  worker_version WorkerMessage.unknown = none

abbrev pub IsSpoken : Option ℕ → Type 0
IsSpoken none = Unit
IsSpoken (some v) = v ≡ protocol_version

check_version-IsSpoken : (v : ℕ) → (check_version v ≡ ok tt) ↔ (v ≡ protocol_version)
unfolding check_version
check_version-IsSpoken v = ((λ e. ground arith), (λ e. rw e refl))

module _ {F V : Type 0} where
  client_versions-IsSpoken :
      (m : ClientMessage F V) → (client_versions m ≡ ok tt) ↔ IsSpoken (client_version m)
  unfolding client_versions
  client_versions-IsSpoken (ClientMessage.job_submit m) = check_version-IsSpoken m.v
  client_versions-IsSpoken (ClientMessage.peer_hello m) = check_version-IsSpoken m.v
  client_versions-IsSpoken (ClientMessage.job_pay m) = check_version-IsSpoken m.v
  client_versions-IsSpoken (ClientMessage.job_cancel m) = ((λ _. tt), (λ _. refl))
  client_versions-IsSpoken ClientMessage.unknown = ((λ _. tt), (λ _. refl))

  worker_versions-IsSpoken :
      (m : WorkerMessage F V) → (worker_versions m ≡ ok tt) ↔ IsSpoken (worker_version m)
  unfolding worker_versions
  worker_versions-IsSpoken (WorkerMessage.job_status m) = check_version-IsSpoken m.v
  worker_versions-IsSpoken (WorkerMessage.job_result m) = check_version-IsSpoken m.v
  worker_versions-IsSpoken (WorkerMessage.job_delta m) = check_version-IsSpoken m.v
  worker_versions-IsSpoken (WorkerMessage.peer_announce m) = check_version-IsSpoken m.v
  worker_versions-IsSpoken (WorkerMessage.job_invoice m) = check_version-IsSpoken m.v
  worker_versions-IsSpoken WorkerMessage.unknown = ((λ _. tt), (λ _. refl))

-- Three checks in a row, by what each of them finds.
three_checks :
    {M : Type 0} (large : Bool) (e : CoreError) (r : Option M) (check : M → CoreResult (Unit {0}))
    (m : M)
    → ((fail_if large e >> (ok_or r CoreError.json >>= (λ k. check k >> ok k))) ≡ ok m)
      ↔ ((large ≡ false) × (r ≡ some m) × (check m ≡ ok tt))
three_checks true e r check m = ((λ h. cc), (λ h. cc h.0))
three_checks false e none check m = ((λ h. cc), (λ h. cc h.1))
three_checks {M} false e (some k) check m = ((λ h. first (check k) refl h), back)
  where
    first :
        (c : CoreResult (Unit {0}))
        → check k ≡ c
        → ◌≡◌ {A = CoreResult M} (c >> ok k) (ok m)
        → (◌≡◌ {A = Bool} false false) × (◌≡◌ {A = Option M} (some k) (some m)) × (check m ≡ ok tt)
    first (err why) q h = cc
    first (ok u) q h = let same : k ≡ m = ok_inj h in (refl, ap some same, sym (ap check same) ∙ q)

    back :
        (◌≡◌ {A = Bool} false false) × (◌≡◌ {A = Option M} (some k) (some m)) × (check m ≡ ok tt)
        → ◌≡◌ {A = CoreResult M} (check k >> ok k) (ok m)
    back h =
        let same : k ≡ m = cc h.1 in
        subst (λ n. ◌≡◌ {A = CoreResult M} (check n >> ok n) (ok m)) (sym same) (rw h.2 refl)

module _ {F V : Type 0} where
  -- x
  pub parse_client_iff :
      (from_str : Text → Option (ClientMessage F V)) (raw : Text) (m : ClientMessage F V)
      → (parse_client from_str raw ≡ ok m) ↔ (
          (length (utf8 raw) ≤ max_message_bytes)
          × (from_str raw ≡ some m)
          × IsSpoken (client_version m))
  unfolding parse_client
  parse_client_iff from_str raw m =
      let steps =
        three_checks (ltb max_message_bytes (length (utf8 raw)))
          (CoreError.invalid Message.message_too_long) (from_str raw) client_versions m in
      let version = client_versions-IsSpoken m in
      (
        (λ h. let (small, read, v) = steps.0 h in (ground (arith, small), read, version.0 v)),
        (λ h. steps.1 (ground (arith, h.0), h.1, version.1 h.2)),
      )

  -- The parser of worker messages returns a message exactly when the text has at most 64 MiB of
  -- UTF-8, is read as that message, and the version that the message names, if it names one, is
  -- the one spoken here.
  pub parse_worker_iff :
      (from_str : Text → Option (WorkerMessage F V)) (raw : Text) (m : WorkerMessage F V)
      → (parse_worker from_str raw ≡ ok m) ↔ (
          (length (utf8 raw) ≤ max_message_bytes)
          × (from_str raw ≡ some m)
          × IsSpoken (worker_version m))
  unfolding parse_worker
  parse_worker_iff from_str raw m =
      let steps =
        three_checks (ltb max_message_bytes (length (utf8 raw)))
          (CoreError.invalid Message.message_too_long) (from_str raw) worker_versions m in
      let version = worker_versions-IsSpoken m in
      (
        (λ h. let (small, read, v) = steps.0 h in (ground (arith, small), read, version.0 v)),
        (λ h. steps.1 (ground (arith, h.0), h.1, version.1 h.2)),
      )
