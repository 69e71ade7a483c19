-- ===== src/Worker/Server/Prices/Bills.antt =====
-- crates/rootmode-worker/src/server.rs: the bounds of a bill, and of the room that a chunk leaves.
use rootmode.Prelude.{
  ℕ, ◌-◌, ◌≤◌, ◌<◌, ◌≡◌, ◌⊎◌, inl, inr, refl, true, false, Bool-cases, Option, none, some, some_inj,
  [], arith, max, leb, leb-true, leb-false,
}
use rootmode.Prelude.Result.{ok, err}
use rootmode.Core.Floats.{FloatApi}
use rootmode.Core.Json.{JsonApi}
use rootmode.Core.Job.{JobKind, JobPayload}
use rootmode.Core.Price.{Price, JobResult, is_free, charge_llm_micros}
use rootmode.Core.Tokens.{reconcile, from_meta}
use rootmode.Core.Tokens.Measure.{Tokenizer, measure}
use rootmode.Worker.Errors.{WorkerResult}
use rootmode.Worker.Server.{Setup}
use rootmode.Worker.Server.Prices.{
  advertised_price, billed_price, bill_micros, clamp_to_chunk, flat_micros, flat_bill, min_bill,
  local_usage, floor_or_zero, prompt_micros, room,
}

module _ (A : FloatApi) (J : JsonApi) (T : Tokenizer J.Value) where
  -- What a bill is held to, by the kind of the result.
  abbrev pub IsBounded :
      Price A.F → JobPayload A.F J.Value → JobResult J.Value → JobKind → ℕ → Type 0
  IsBounded price payload result JobKind.llm bill =
      let usage = reconcile (local_usage A J T payload result) (from_meta J result.meta) in
      (charge_llm_micros A price usage.prompt usage.completion usage.cached ≤ bill)
      × ((least : ℕ) → min_bill A J result.meta ≡ some least → least ≤ bill)
  IsBounded price payload result JobKind.image bill = (1 ≤ bill) × (bill ≤ flat_micros A J price)
  IsBounded price payload result JobKind.video bill = (1 ≤ bill) × (bill ≤ flat_micros A J price)

  flat_bill_bound :
      (flat : ℕ) (least : Option ℕ)
      → 1 ≤ flat
      → (1 ≤ flat_bill A J flat least) × (flat_bill A J flat least ≤ flat)
  flat_bill_bound flat none h = (h, omega arith)
  flat_bill_bound flat (some least) h = (omega arith, omega arith)

  floor_or_zero_bound :
      (o : Option ℕ) (n least : ℕ) → o ≡ some least → least ≤ max n (floor_or_zero A J o)
  floor_or_zero_bound none n least e = cc
  floor_or_zero_bound (some k) n least e = let same : k ≡ least = some_inj e in omega arith

  by_kind :
      (price : Price A.F) (payload : JobPayload A.F J.Value) (result : JobResult J.Value)
      (k : JobKind)
      → 1 ≤ flat_micros A J price
      → IsBounded price payload result k (elim k [
        | JobKind.llm ↦
            let usage = reconcile (local_usage A J T payload result) (from_meta J result.meta) in
            max
              (charge_llm_micros A price usage.prompt usage.completion usage.cached)
              (floor_or_zero A J (min_bill A J result.meta))
        | JobKind.image ↦ flat_bill A J (flat_micros A J price) (min_bill A J result.meta)
        | JobKind.video ↦ flat_bill A J (flat_micros A J price) (min_bill A J result.meta)
      ])
  by_kind price payload result JobKind.llm positive =
      (omega arith, λ least e. floor_or_zero_bound (min_bill A J result.meta) _ least e)
  by_kind price payload result JobKind.image positive = flat_bill_bound _ _ positive
  by_kind price payload result JobKind.video positive = flat_bill_bound _ _ positive

  -- When the flat bill of the price that applies is at least one micro, the bill of a job is
  -- zero if that price is free; otherwise a chat is billed at least its reconciled tokens at
  -- the rates and at least the floor that the backend set, and a picture or clip between one
  -- micro and its flat price.
  pub bill_micros-IsBounded :
      (c : Setup A.F) (payload : JobPayload A.F J.Value) (result : JobResult J.Value)
      → 1 ≤ flat_micros A J (billed_price A J T c payload result)
      → ((is_free A (billed_price A J T c payload result) ≡ true)
          × (bill_micros A J T c payload result ≡ 0))
        ⊎ ((is_free A (billed_price A J T c payload result) ≡ false)
            × IsBounded
                (billed_price A J T c payload result)
                payload
                result
                result.kind
                (bill_micros A J T c payload result))
  unfolding bill_micros
  bill_micros-IsBounded c payload result positive =
      elim (Bool-cases (is_free A (billed_price A J T c payload result))) [
        | inl free ↦ inl (free, rw free refl)
        | inr paid ↦ inr (
          paid,
          rw paid
              (by_kind (billed_price A J T c payload result) payload result result.kind positive),
        )
      ]

  -- A chat is left as it was but for its length, or refused because its prompt costs the chunk.
  abbrev pub Clamps :
      Setup A.F → JobPayload A.F J.Value → ℕ → WorkerResult (JobPayload A.F J.Value) → Type 0
  Clamps c (JobPayload.llm p) micros (ok q) =
      (n : ℕ) × (q ≡ JobPayload.llm (record p { max_tokens = n }))
      × (n ≤ p.max_tokens)
      × (n
          ≤ max 1 (
              room A J T (advertised_price A J c (JobPayload.llm p)) (
                micros
                - prompt_micros A J T (advertised_price A J c (JobPayload.llm p))
                    (measure T p none none []).prompt)))
      × (prompt_micros A J T (advertised_price A J c (JobPayload.llm p))
            (measure T p none none []).prompt
          < micros)
  Clamps c (JobPayload.llm p) micros (err e) =
      micros
      ≤ prompt_micros A J T (advertised_price A J c (JobPayload.llm p))
          (measure T p none none []).prompt
  Clamps c (JobPayload.image p) micros r = r ≡ ok (JobPayload.image p)
  Clamps c (JobPayload.video p) micros r = r ≡ ok (JobPayload.video p)

  -- clamp_to_chunk refuses a chat whose prompt alone costs the chunk, lets any other chat pass
  -- with nothing changed but its maximum length, which does not grow and is at most what the
  -- rest of the chunk pays for or one token, and lets pictures and clips pass as they are.
  pub clamp_to_chunk-Clamps :
      (c : Setup A.F) (payload : JobPayload A.F J.Value) (micros already : ℕ)
      → Clamps c payload micros (clamp_to_chunk A J T c payload micros already)
  unfolding clamp_to_chunk
  clamp_to_chunk-Clamps c (JobPayload.image p) micros already = refl
  clamp_to_chunk-Clamps c (JobPayload.video p) micros already = refl
  clamp_to_chunk-Clamps c (JobPayload.llm p) micros already =
      let cost =
        prompt_micros A J T (advertised_price A J c (JobPayload.llm p))
          (measure T p none none []).prompt in
      elim (Bool-cases (leb micros cost)) [
        | inl dear ↦ rw dear (leb-true _ _ dear)
        | inr fits ↦ rw fits (_, refl, omega arith, omega arith, leb-false _ _ fits)
      ]
