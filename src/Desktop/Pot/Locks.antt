-- ===== src/Desktop/Pot/Locks.antt =====
-- apps/desktop/src-tauri/src/pot.rs: what a job may cost, what is locked for it, and the bond that is
-- signed. The reads of the chain and of the account are arguments.
pub mod Covers
use rootmode.Prelude.{
  ℕ, ◌+◌, ◌-◌, ◌*◌, ◌/◌, ◌%◌, Bool, true, false, not, ◌&&◌, ◌||◌, Option, none, some, List, [], ◌∷◌,
  ◌++◌, min, max, leb, ltb, ◌==◌, u64_max, saturating_add, if◌then◌else◌,
}
use rootmode.Prelude.Bytes.{Bytes}
use rootmode.Prelude.Text.{Text, text}
use rootmode.Prelude.Dict
use rootmode.Prelude.Result.{Result, ok, err, ◌>>=◌, ◌>>◌, fail_if, ok_or, map_err}
use rootmode.Core.Floats.{FloatApi}
use rootmode.Core.Json.{JsonApi}
use rootmode.Core.Externals.{Externals}
use rootmode.Core.Job.{JobKind, JobPayload}
use rootmode.Core.Job.Validate.{model_label}
use rootmode.Core.Price.{Price, charge_llm_micros, chunk_micros}
use rootmode.Core.Payments.{Micros}
use rootmode.Core.Payments.ReserveTicket
use rootmode.Core.Payments.ReserveTicket.{ReserveTicket}
use rootmode.Core.Protocol.{JobPay, ReservePost, protocol_version}
use rootmode.Core.Tokens.{TokenUsage, is_zero, from_meta}
use rootmode.Core.Tokens.Measure.{Tokenizer, measure}
use rootmode.Worker.Chain.Client.{Signer}
use rootmode.Desktop.Pot.{
  Pot, PendingJob, ChainConfig, ChannelSnap, Refused, PotResult, snap_remaining, cached_cumulative,
  sign_latest, persist, cap_of, ticket_ttl_secs,
}

abbrev pub min_answer_tokens : ℕ
min_answer_tokens = 8192

abbrev pub reserve_headroom_jobs : ℕ
reserve_headroom_jobs = 4

abbrev pub reserve_headroom_floor : Micros
reserve_headroom_floor = 3000000

abbrev pub saturating_mul : ℕ → ℕ → ℕ
saturating_mul a b = min (a * b) u64_max

unfoldable pub reserve_extra : ℕ → ℕ → ℕ → Bool → ℕ
reserve_extra remaining need free raise_caps =
    let want = max (saturating_mul need reserve_headroom_jobs) reserve_headroom_floor in
    let short =
      ltb remaining (saturating_mul need 2) || ltb remaining (reserve_headroom_floor / 2) in
    if short || raise_caps
    then min (max (want - remaining) (if raise_caps then 1 else 0)) free
    else 0

module _ (A : FloatApi) (J : JsonApi) (T : Tokenizer J.Value) where
  -- `(amount * 1_000_000.0).round().max(1.0) as u64`
  unfoldable pub flat_lock : A.F → Micros
  flat_lock amount = A.to_u64 (A.max_of (A.round (A.mul amount (A.of_ℕ 1000000))) (A.of_ℕ 1))

  unfoldable pub worst_case_micros : A.F → JobKind → Micros
  unfolding flat_lock
  worst_case_micros price JobKind.llm =
      A.to_u64 (A.max_of (A.round (A.mul (A.of_ℕ min_answer_tokens) price)) (A.of_ℕ 1))
  worst_case_micros price JobKind.image = flat_lock price
  worst_case_micros price JobKind.video = flat_lock price

  unfoldable pub lock_micros : Price A.F → JobKind → JobPayload A.F J.Value → Micros
  unfolding worst_case_micros measure charge_llm_micros
  lock_micros price kind (JobPayload.llm params) =
      charge_llm_micros A price (measure T params none none []).prompt min_answer_tokens 0
  lock_micros price kind (JobPayload.image params) = worst_case_micros price.amount kind
  lock_micros price kind (JobPayload.video params) = worst_case_micros price.amount kind

  unfoldable pub job_lock_micros : Price A.F → JobKind → JobPayload A.F J.Value → Micros
  unfolding lock_micros measure charge_llm_micros
  job_lock_micros price kind (JobPayload.llm params) =
      max (charge_llm_micros A price (measure T params none none []).prompt params.max_tokens 0) 1
  job_lock_micros price kind (JobPayload.image params) =
      max (lock_micros price kind (JobPayload.image params)) 1
  job_lock_micros price kind (JobPayload.video params) =
      max (lock_micros price kind (JobPayload.video params)) 1

  -- `meta.get("total_tokens").or_else(|| meta.get("completion_tokens")).and_then(as_u64)`, or 0.
  abbrev pub reported_total : J.Value → ℕ
  reported_total m =
      let field : Option J.Value = elim (J.get m (text "total_tokens")) [
        | some v ↦ some v
        | none ↦ J.get m (text "completion_tokens")
      ] in
      elim field [ none ↦ 0 | some v ↦ elim (J.as_u64 v) [ none ↦ 0 | some n ↦ n ] ]

  abbrev pub bare_usage : ℕ → TokenUsage
  bare_usage n = record { prompt = 0; completion = n; cached = 0; reasoning = 0 }

  abbrev pub reported_usage : Option J.Value → TokenUsage
  reported_usage none = bare_usage 0
  reported_usage (some m) = elim (from_meta J m) [
    | some u ↦ u
    | none ↦ bare_usage (reported_total m)
  ]

  unfoldable pub llm_charge_micros : Price A.F → Option J.Value → Micros
  unfolding is_zero charge_llm_micros
  llm_charge_micros price meta =
      let usage = reported_usage meta in
      if is_zero usage
      then 0
      else charge_llm_micros A price usage.prompt usage.completion usage.cached

  unfoldable pub chunk_of : Price A.F → JobKind → Micros
  unfolding chunk_micros flat_lock
  chunk_of price JobKind.llm = chunk_micros A price
  chunk_of price JobKind.image = flat_lock price.amount
  chunk_of price JobKind.video = flat_lock price.amount

  abbrev pub is_llm : JobKind → Bool
  is_llm JobKind.llm = true
  is_llm JobKind.image = false
  is_llm JobKind.video = false

  -- The account: the per-job limit and the unlocked balance.
  pub record Account : Type 0 where
    pub max_per_job_micros : ℕ
    pub balance_micros : ℕ

  unfoldable pub raises_cap : Account → ChannelSnap → Bool
  unfolding cap_of
  raises_cap st ch =
      ltb 0 ch.max_per_job
      && ltb ch.max_per_job (cap_of st.max_per_job_micros)
      && ltb 0 st.balance_micros

  -- The most that this job may be billed, or the refusal of a bill above the channel's cap.
  unfoldable pub job_cap :
      Price A.F → JobKind → JobPayload A.F J.Value → Account → ChannelSnap → PotResult Micros
  unfolding raises_cap cap_of job_lock_micros chunk_of
  job_cap price kind payload st ch =
      let cap = cap_of st.max_per_job_micros in
      let channel_cap = if raises_cap st ch then cap else ch.max_per_job in
      let own = max (min (job_lock_micros price kind payload) cap) 1 in
      if ltb 0 channel_cap
      then fail_if (not (is_llm kind) && ltb channel_cap (chunk_of price kind))
          (Refused.above_channel_cap (chunk_of price kind) channel_cap cap)
        >> ok (min own channel_cap)
      else ok own

  -- What is signed: the bond's cumulative, and the raise of the lock.
  pub record Plan : Type 0 where
    pub need : Micros
    pub cumulative : Micros
    pub lock_need : Micros
    pub extra : Micros

  -- `cached` is the cumulative that was signed last.
  unfoldable pub plan_ticket :
      Price A.F → JobKind → JobPayload A.F J.Value → Account → ChannelSnap → ℕ → PotResult Plan
  unfolding job_cap reserve_extra snap_remaining raises_cap
  plan_ticket price kind payload st ch cached = do
    need ← job_cap price kind payload st ch
    let authorised = max cached (max ch.paid ch.earned)
    let lock_need = max (saturating_add authorised need - ch.earned) 1
    let extra = reserve_extra (snap_remaining ch) lock_need st.balance_micros (raises_cap st ch)
    fail_if (ltb (saturating_add (snap_remaining ch) extra) lock_need)
        (Refused.not_covered st.balance_micros lock_need)
    ok (record {
      need = need;
      cumulative = saturating_add authorised need;
      lock_need = lock_need;
      extra = extra;
    })

  module _ (X : Externals) (K : Signer X) where
    -- The reserve ticket, unless the lock stays empty.
    unfoldable pub sign_reserve_if_needed :
        K.SigningKey
        → ChainConfig
        → Text
        → Text
        → ChannelSnap
        → ℕ
        → ℕ
        → Bool
        → ℕ
        → PotResult (Option ReservePost)
    unfolding reserve_extra snap_remaining ReserveTicket.digest
    sign_reserve_if_needed key cfg client worker ch need free raise_caps now =
        let extra = reserve_extra (snap_remaining ch) need free raise_caps in
        let new_max = saturating_add ch.reserved extra in
        let ticket : ReserveTicket = record {
          client = client;
          worker_payout = worker;
          max_amount = new_max;
          deadline = now + ticket_ttl_secs;
        } in
        if new_max == 0
        then ok none
        else map_err Refused.core (
            ReserveTicket.digest X ticket
              (record { chain_id = cfg.chain_id; verifying_contract = cfg.pot }))
          >>= (λ digest.
              ok_or (K.sign_prehash key digest) Refused.cannot_sign >>= (λ (bytes, recovery). ok (
                some (record {
                  ticket = ticket;
                  sig = text "0x" ++ X.hex_encode (bytes ++ (recovery + 27) % 256 ∷ []);
                }))))

    -- The bond with the reserve that goes with it, and the pot with the job on file.
    unfoldable pub issue_ticket :
        K.SigningKey
        → ChainConfig
        → Pot A.F
        → Text
        → Price A.F
        → JobKind
        → JobPayload A.F J.Value
        → Text
        → Text
        → Text
        → Account
        → ChannelSnap
        → ℕ
        → ℕ
        → Bool
        → PotResult ((JobPay × Option ReservePost) × Pot A.F)
    unfolding plan_ticket cached_cumulative sign_reserve_if_needed sign_latest persist raises_cap
        model_label
    issue_ticket key cfg s job_id price kind payload client worker peer st ch now later saved = do
      plan ← plan_ticket price kind payload st ch (cached_cumulative X s cfg client worker)
      reserve ←
          sign_reserve_if_needed key cfg client worker ch plan.lock_need st.balance_micros
            (raises_cap st ch) now
      signed ← sign_latest X K key cfg client worker plan.cumulative later
      let job : PendingJob A.F = record {
        price = price;
        kind = kind;
        paid = false;
        sha256 = none;
        ceiling = plan.need;
        job_cap = plan.need;
        cost = none;
        model = model_label payload;
        peer = peer;
        payout = worker;
        bond_cumulative = plan.cumulative;
      }
      let s = persist X saved s
      ok (
        (
          record {
            v = protocol_version;
            job_id = job_id;
            ticket = signed.0;
            sig = text "0x" ++ X.hex_encode signed.1;
          },
          reserve,
        ),
        record s { jobs = Dict.insert job_id job s.jobs },
      )
