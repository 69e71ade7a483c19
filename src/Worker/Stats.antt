-- ===== src/Worker/Stats.antt =====
-- crates/rootmode-worker/src/stats.rs: what a node served, since it last reported it.
-- The state of the meter is its counters; a sum of `u64` wraps as in a release build.
pub mod Windows
mod Tests
use rootmode.Prelude.{
  ℕ, ◌+◌, ◌%◌, ◌^◌, ◌==◌, Bool, true, false, Option, none, some, ◌&&◌, if◌then◌else◌,
}
use rootmode.Prelude.Text.{text}
use rootmode.Core.Floats.{FloatApi}
use rootmode.Core.Json.{JsonApi}
use rootmode.Core.Job.{JobKind}
use rootmode.Core.Tokens.{TokenUsage, from_meta}
use rootmode.Core.Price.{Price, JobResult, charge_llm_micros}

pub record Counters (F : Type 0) : Type 0 where
  pub requests : ℕ
  pub images : ℕ
  pub tokens_in : ℕ
  pub tokens_out : ℕ
  pub tokens_cached : ℕ
  pub revenue : F
  pub failures : ℕ
  pub rejected : ℕ

abbrev pub plus : ℕ → ℕ → ℕ
plus a b = (a + b) % 2 ^ 64

-- `unwrap_or_default()`
abbrev pub usage_or_zero : Option TokenUsage → TokenUsage
usage_or_zero (some u) = u
usage_or_zero none = record { prompt = 0; completion = 0; cached = 0; reasoning = 0 }

module _ (A : FloatApi) where
  abbrev pub no_counts : Counters A.F
  no_counts = record {
    requests = 0;
    images = 0;
    tokens_in = 0;
    tokens_out = 0;
    tokens_cached = 0;
    revenue = A.of_ℕ 0;
    failures = 0;
    rejected = 0;
  }

  unfoldable pub nothing_happened : Counters A.F → Bool
  nothing_happened c =
      c.requests == 0
      && c.images == 0
      && c.tokens_in == 0
      && c.tokens_out == 0
      && c.tokens_cached == 0
      && A.eq c.revenue (A.of_ℕ 0)
      && c.failures == 0
      && c.rejected == 0

  unfoldable pub failed : Counters A.F → Counters A.F
  failed c = record c { requests = plus c.requests 1; failures = plus c.failures 1 }

  unfoldable pub rejected : Counters A.F → Counters A.F
  rejected c = record c { rejected = plus c.rejected 1 }

  -- What was taken, and the meter after it.
  unfoldable pub drain : Counters A.F → Counters A.F × Counters A.F
  drain c = (c, no_counts)

  unfoldable pub restore : Counters A.F → Counters A.F → Counters A.F
  restore c k = record {
    requests = plus c.requests k.requests;
    images = plus c.images k.images;
    tokens_in = plus c.tokens_in k.tokens_in;
    tokens_out = plus c.tokens_out k.tokens_out;
    tokens_cached = plus c.tokens_cached k.tokens_cached;
    revenue = A.add c.revenue k.revenue;
    failures = plus c.failures k.failures;
    rejected = plus c.rejected k.rejected;
  }

  module _ (J : JsonApi) where
    -- `get("tokens_measured").and_then(as_bool).unwrap_or(false)`
    abbrev pub is_measured : J.Value → Bool
    is_measured meta = elim (J.get meta (text "tokens_measured")) [
      | none ↦ false
      | some v ↦ elim (J.as_bool v) [ none ↦ false | some b ↦ b ]
    ]

    abbrev pub add_image : Counters A.F → Price A.F → Counters A.F
    add_image c price = record c {
      images = plus c.images 1;
      revenue = A.add c.revenue price.amount;
    }

    abbrev pub add_chat : Counters A.F → JobResult J.Value → Price A.F → Counters A.F
    add_chat c result price =
        let usage = usage_or_zero (from_meta J result.meta) in
        if is_measured result.meta
        then record c {
          tokens_in = plus c.tokens_in usage.prompt;
          tokens_out = plus c.tokens_out usage.completion;
          tokens_cached = plus c.tokens_cached usage.cached;
          revenue = A.add c.revenue (
              A.div (A.of_ℕ (charge_llm_micros A price usage.prompt usage.completion usage.cached))
                (A.of_ℕ 1000000));
        }
        else c

    -- `Meter::record`
    unfoldable pub record_job : Counters A.F → JobResult J.Value → Price A.F → Counters A.F
    unfolding from_meta charge_llm_micros
    record_job c0 result price =
        let c = record c0 { requests = plus c0.requests 1 } in
        elim result.kind [
          | JobKind.image ↦ add_image c price
          | JobKind.video ↦ add_image c price
          | JobKind.llm ↦ add_chat c result price
        ]
