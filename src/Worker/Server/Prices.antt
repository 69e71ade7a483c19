-- ===== src/Worker/Server/Prices.antt =====
-- crates/rootmode-worker/src/server.rs: the price of a job, its bill, and the room that a prepaid
-- chunk leaves for the answer.
pub mod Bills
use rootmode.Prelude.{
  ℕ, ◌-◌, ◌*◌, ◌^◌, Bool, not, ◌&&◌, ◌||◌, Option, none, some, List, [], ◌∷◌, leb, ltb, ◌==◌,
  length, min, max, u64_max, if◌then◌else◌, true, false,
}
use rootmode.Prelude.Text.{Text, text, text_eq}
use rootmode.Prelude.Strings.{starts_with}
use rootmode.Prelude.Result.{Result, ok, err}
use rootmode.Core.Floats.{FloatApi}
use rootmode.Core.Json.{JsonApi}
use rootmode.Core.Job.{JobKind, JobPayload, LlmParams}
use rootmode.Core.Price.{
  Price, JobResult, ceil_cents, new_price, round_protocol, is_free, llm_rates, charge_llm_micros,
}
use rootmode.Core.Video.{VideoOffer, shape_for, quote_usd, find}
use rootmode.Core.Protocol.{ModelDescriptor}
use rootmode.Core.Tokens.{TokenUsage, reconcile, from_meta}
use rootmode.Core.Tokens.Measure.{Tokenizer, measure}
use rootmode.Worker.Errors.{WorkerMessage, WorkerError, WorkerResult}
use rootmode.Worker.Server.{Setup, domain}

-- `a.or(b)`
abbrev pub first_of : {A : Type 0} → Option A → Option A → Option A
first_of (some a) b = some a
first_of none b = b

unfoldable pub model_asked : {F V : Type 0} → JobPayload F V → Option Text
model_asked (JobPayload.llm p) = first_of p.model_id p.model_hash
model_asked (JobPayload.image p) = first_of p.checkpoint_id p.model_hash
model_asked (JobPayload.video p) = first_of p.checkpoint_id p.model_hash

module _ (A : FloatApi) (J : JsonApi) where
  -- `Price::default`, and `unwrap_or_default`.
  abbrev pub default_price : Price A.F
  default_price = record {
    amount = A.of_ℕ 0;
    currency = text "USD";
    input = none;
    output = none;
    cache = none;
    cache_write = none;
  }

  abbrev pub or_default : Option (Price A.F) → Price A.F
  or_default none = default_price
  or_default (some p) = p

  -- `offer.shape_for(p).ok().and_then(|s| offer.quote_usd(&s))`, for a clip with an offer.
  abbrev pub clip_quote : JobPayload A.F J.Value → ModelDescriptor A.F → Option A.F
  clip_quote (JobPayload.video p) found = elim found.video [
    | none ↦ none
    | some offer ↦ elim (shape_for offer p) [ err e ↦ none | ok s ↦ quote_usd A offer s ]
  ]
  clip_quote (JobPayload.llm p) found = none
  clip_quote (JobPayload.image p) found = none

  abbrev pub only_price : List (ModelDescriptor A.F) → Option (Price A.F)
  only_price [] = none
  only_price (m ∷ []) = some (round_protocol A (or_default m.price))
  only_price (m ∷ n ∷ ms) = none

  abbrev pub names : Text → ModelDescriptor A.F → Bool
  names model m = text_eq m.id model || starts_with model m.id || starts_with m.id model

  unfoldable pub listed_price : Setup A.F → JobPayload A.F J.Value → Option (Price A.F)
  unfolding model_asked round_protocol new_price
  listed_price c payload =
      let found : Option (ModelDescriptor A.F) = elim (model_asked payload) [
        | none ↦ none
        | some model ↦ find (names model) c.models
      ] in
      elim found [
        | none ↦ only_price c.models
        | some m ↦ elim (clip_quote payload m) [
          | some quote ↦ some (new_price A quote)
          | none ↦ some (round_protocol A (or_default m.price))
        ]
      ]

  unfoldable pub advertised_price : Setup A.F → JobPayload A.F J.Value → Price A.F
  unfolding listed_price
  advertised_price c payload = or_default (listed_price c payload)

  unfoldable pub holdback_for : Setup A.F → JobPayload A.F J.Value → Bool
  unfolding domain advertised_price is_free
  holdback_for c payload = elim (domain c) [
    | none ↦ false
    | some d ↦ not (is_free A (advertised_price c payload))
  ]

  unfoldable pub price_of : Setup A.F → JobResult J.Value → Price A.F
  unfolding text_eq
  price_of c result = elim (J.get result.meta (text "model")) [
    | none ↦ default_price
    | some v ↦ elim (J.as_str v) [
      | none ↦ default_price
      | some model ↦ elim (find (λ m. text_eq m.id model) c.models) [
        | none ↦ default_price
        | some m ↦ or_default m.price
      ]
    ]
  ]

  -- `meta.get("min_bill_micros").and_then(|v| v.as_u64())`
  abbrev pub min_bill : J.Value → Option ℕ
  min_bill meta = elim (J.get meta (text "min_bill_micros")) [ none ↦ none | some v ↦ J.as_u64 v ]

  abbrev pub no_usage : TokenUsage
  no_usage = record { prompt = 0; completion = 0; cached = 0; reasoning = 0 }

  -- What a picture or a clip costs at most.
  unfoldable pub flat_micros : Price A.F → ℕ
  flat_micros p = A.to_u64 (A.max_of (A.round (A.mul p.amount (A.of_ℕ 1000000))) (A.of_ℕ 1))

  abbrev pub flat_bill : ℕ → Option ℕ → ℕ
  flat_bill flat none = flat
  flat_bill flat (some least) = max (min least flat) 1

  abbrev pub floor_or_zero : Option ℕ → ℕ
  floor_or_zero none = 0
  floor_or_zero (some n) = n

  module _ (T : Tokenizer J.Value) where
    abbrev pub local_usage : JobPayload A.F J.Value → JobResult J.Value → TokenUsage
    local_usage (JobPayload.llm p) r = measure T p r.answer r.thinking r.tool_calls
    local_usage (JobPayload.image p) r = no_usage
    local_usage (JobPayload.video p) r = no_usage

    abbrev pub billed_price : Setup A.F → JobPayload A.F J.Value → JobResult J.Value → Price A.F
    billed_price c payload result = elim result.kind [
      | JobKind.video ↦ advertised_price c payload
      | _ ↦ price_of c result
    ]

    unfoldable pub bill_micros : Setup A.F → JobPayload A.F J.Value → JobResult J.Value → ℕ
    unfolding is_free charge_llm_micros reconcile from_meta flat_micros
    bill_micros c payload result =
        let price = billed_price c payload result in
        if is_free A price then 0 else elim result.kind [
          | JobKind.llm ↦
              let usage = reconcile (local_usage payload result) (from_meta J result.meta) in
              max (charge_llm_micros A price usage.prompt usage.completion usage.cached)
                (floor_or_zero (min_bill result.meta))
          | JobKind.image ↦ flat_bill (flat_micros price) (min_bill result.meta)
          | JobKind.video ↦ flat_bill (flat_micros price) (min_bill result.meta)
        ]

    -- What the prompt of a chat costs, and the tokens that the rest of the chunk pays for.
    abbrev pub prompt_micros : Price A.F → ℕ → ℕ
    prompt_micros price prompt =
        let rates = llm_rates A price in
        A.to_u64 (A.ceil (A.mul (A.of_ℕ prompt) (A.max_of rates.input rates.cache_write)))

    abbrev pub room : Price A.F → ℕ → ℕ
    room price left =
        let rates = llm_rates A price in
        if A.lt (A.of_ℕ 0) rates.output
        then A.to_u64 (A.floor (A.div (A.of_ℕ left) rates.output))
        else u64_max

    unfoldable pub clamp_to_chunk :
        Setup A.F → JobPayload A.F J.Value → ℕ → ℕ → WorkerResult (JobPayload A.F J.Value)
    unfolding advertised_price measure
    clamp_to_chunk c (JobPayload.llm params) bond_micros already =
        let price = advertised_price c (JobPayload.llm params) in
        let prompt = (measure T params none none []).prompt in
        let cost = prompt_micros price prompt in
        if leb bond_micros cost
        then err (WorkerError.rejected (WorkerMessage.prompt_too_dear bond_micros already prompt))
        else ok (
            JobPayload.llm (record params {
              max_tokens =
                  min params.max_tokens
                    (min (max (room price (bond_micros - cost)) 1) (2 ^ 32 - 1));
            }))
    clamp_to_chunk c (JobPayload.image params) bond_micros already = ok (JobPayload.image params)
    clamp_to_chunk c (JobPayload.video params) bond_micros already = ok (JobPayload.video params)
