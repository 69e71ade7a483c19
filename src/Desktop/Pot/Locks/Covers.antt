-- ===== src/Desktop/Pot/Locks/Covers.antt =====
-- apps/desktop/src-tauri/src/pot.rs against crates/rootmode-worker/src/server.rs: the lock that a
-- client signs is the lock that the worker asks for.
use rootmode.Prelude.{
  ℕ, some, ◌⊎◌, ◌+◌, ◌-◌, ◌≤◌, ◌<◌, ◌≡◌, subst, Bool, true, false, Bool-cases, inl, inr, min, max,
  ltb, ltb-false, ltb→lt, arith, u64_max, saturating_add, if◌then◌else◌,
}
use rootmode.Prelude.Result.{ok, ◌>>◌, >>=-ok, >>-ok, ok_inj, fail_if, fail_if-ok}
use rootmode.Core.Floats.{FloatApi}
use rootmode.Core.Json.{JsonApi}
use rootmode.Core.Job.{JobKind, JobPayload}
use rootmode.Core.Price.{Price}
use rootmode.Core.Tokens.Measure.{Tokenizer}
use rootmode.Desktop.Pot.{ChannelSnap, Refused, PotResult, snap_remaining, cap_of}
use rootmode.Desktop.Pot.Locks.{
  Account, Plan, reserve_extra, raises_cap, job_cap, job_lock_micros, plan_ticket,
}
use rootmode.Worker.Server.{Bond}
use rootmode.Worker.Server.Lock.{need_of}

reserve_extra-le_free :
    (remaining need free : ℕ) (raise_caps : Bool)
    → reserve_extra remaining need free raise_caps ≤ free
unfolding reserve_extra
reserve_extra-le_free remaining need free raise_caps = ground arith

cap_of-positive : (n : ℕ) → 1 ≤ cap_of n
unfolding cap_of
cap_of-positive n = ground arith

module _ (A : FloatApi) (J : JsonApi) (T : Tokenizer J.Value) where
  -- What the plan of a bond promises, once its reserve is on chain.
  pub record IsCovered (st : Account A J T) (ch : ChannelSnap) (plan : Plan A J T) : Type 0 where
    pub lock :
        (b : Bond)
        → b.pay.ticket.cumulative ≡ plan.cumulative
        → need_of (some b) ch.earned ≤ saturating_add ch.reserved plan.extra - ch.earned
    pub affordable : plan.extra ≤ st.balance_micros
    pub need : (1 ≤ plan.need) × (plan.need ≤ cap_of st.max_per_job_micros)
    pub rise :
        (plan.cumulative ≤ u64_max) × ((ch.earned < plan.cumulative) ⊎ (plan.cumulative ≡ u64_max))

  capped :
      (test : Bool) (e : Refused) (own channel_cap cap need : ℕ)
      → 1 ≤ own
      → own ≤ cap
      → ◌≡◌ {A = PotResult ℕ}
          (if ltb 0 channel_cap then fail_if test e >> ok (min own channel_cap) else ok own)
          (ok need)
      → (1 ≤ need) × (need ≤ cap)
  capped true e own channel_cap cap need low high h = by_cap (ltb 0 channel_cap) h
    where
      by_cap :
          (b : Bool)
          → ◌≡◌ {A = PotResult ℕ}
              (if b then fail_if true e >> ok (min own channel_cap) else ok own)
              (ok need)
          → (1 ≤ need) × (need ≤ cap)
      by_cap true h = cc
      by_cap false h = let same : own ≡ need = ok_inj h in (omega arith, omega arith)
  capped false e own channel_cap cap need low high h = elim (Bool-cases (ltb 0 channel_cap)) [
    | inl some_cap ↦
        let same : min own channel_cap ≡ need = ok_inj (
          subst
            (λ b. ◌≡◌ {A = PotResult ℕ} (if b then ok (min own channel_cap) else ok own) (ok need))
            some_cap h) in
        let positive : 0 < channel_cap = ltb→lt _ _ some_cap in (omega arith, omega arith)
    | inr no_cap ↦
        let same : own ≡ need = ok_inj (
          subst
            (λ b. ◌≡◌ {A = PotResult ℕ} (if b then ok (min own channel_cap) else ok own) (ok need))
            no_cap h) in
        (omega arith, omega arith)
  ]

  job_cap_bounds :
      (price : Price A.F) (kind : JobKind) (payload : JobPayload A.F J.Value) (st : Account A J T)
      (ch : ChannelSnap) (need : ℕ)
      → job_cap A J T price kind payload st ch ≡ ok need
      → (1 ≤ need) × (need ≤ cap_of st.max_per_job_micros)
  unfolding job_cap
  job_cap_bounds price kind payload st ch need e =
      capped _ _
        (max (min (job_lock_micros A J T price kind payload) (cap_of st.max_per_job_micros)) 1) _
        (cap_of st.max_per_job_micros) need (omega arith)
        (omega (arith, cap_of-positive st.max_per_job_micros)) e

  covered :
      (st : Account A J T) (ch : ChannelSnap) (authorised need extra : ℕ)
      → ch.earned ≤ authorised
      → max (saturating_add authorised need - ch.earned) 1
        ≤ saturating_add (snap_remaining ch) extra
      → extra ≤ st.balance_micros
      → (1 ≤ need) × (need ≤ cap_of st.max_per_job_micros)
      → ch.earned ≤ ch.reserved
      → ch.reserved + st.balance_micros ≤ u64_max
      → IsCovered st ch (record {
        need = need;
        cumulative = saturating_add authorised need;
        lock_need = max (saturating_add authorised need - ch.earned) 1;
        extra = extra;
      })
  unfolding snap_remaining need_of
  covered st ch authorised need extra above enough free bounds sound fits = record {
    lock = λ b e. locks b e;
    affordable = free;
    need = bounds;
    rise = (omega arith, rises);
  }
    where
      locks :
          (b : Bond)
          → b.pay.ticket.cumulative ≡ saturating_add authorised need
          → max (b.pay.ticket.cumulative - ch.earned) 1
            ≤ saturating_add ch.reserved extra - ch.earned
      locks b e = omega arith

      rises :
          (ch.earned < saturating_add authorised need) ⊎ (saturating_add authorised need ≡ u64_max)
      rises = elim (Bool-cases (ltb ch.earned (saturating_add authorised need))) [
        | inl below ↦ inl (ltb→lt _ _ below)
        | inr full ↦ let top = ltb-false _ _ full in let few = bounds.0 in inr (omega arith)
      ]

  -- When the channel has not recognised more than it reserves and the reserve with the free
  -- balance fits a u64, the bond that plan_ticket plans has a need from one micro to the job's
  -- cap, its cumulative is above what the chain recognised or at the largest u64, the raise of
  -- the lock is within the free balance, and the lock that it makes leaves at least what a
  -- worker that holds the bond asks for.
  pub plan_ticket-IsCovered :
      (price : Price A.F) (kind : JobKind) (payload : JobPayload A.F J.Value) (st : Account A J T)
      (ch : ChannelSnap) (cached : ℕ) (plan : Plan A J T)
      → plan_ticket A J T price kind payload st ch cached ≡ ok plan
      → ch.earned ≤ ch.reserved
      → ch.reserved + st.balance_micros ≤ u64_max
      → IsCovered st ch plan
  unfolding plan_ticket
  plan_ticket-IsCovered price kind payload st ch cached plan e sound fits =
      let (need, h0, e0) = >>=-ok (job_cap A J T price kind payload st ch) _ e in
      let authorised = max cached (max ch.paid ch.earned) in
      let lock_need = max (saturating_add authorised need - ch.earned) 1 in
      let extra =
        reserve_extra (snap_remaining ch) lock_need st.balance_micros (raises_cap A J T st ch) in
      let (h1, e1) =
        >>-ok
          (fail_if (ltb (saturating_add (snap_remaining ch) extra) lock_need)
            (Refused.not_covered st.balance_micros lock_need))
          _ e0 in
      subst (λ p. IsCovered st ch p) (ok_inj e1)
        (covered st ch authorised need extra (omega arith) (ltb-false _ _ (fail_if-ok _ _ h1))
          (reserve_extra-le_free (snap_remaining ch) lock_need st.balance_micros
            (raises_cap A J T st ch))
          (job_cap_bounds price kind payload st ch need h0) sound fits)
