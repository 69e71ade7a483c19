-- ===== src/Core/Price.antt =====
-- crates/rootmode-core/src/protocol.rs: Price, and JobResult with its body.
use rootmode.Prelude.{
  ℕ, ◌-◌, min, Bool, not, ◌||◌, ◌&&◌, Option, none, some, List, is_empty, if◌then◌else◌, u64_max,
  saturating_add, [],
}
use rootmode.Prelude.Text.{Text, text}
use rootmode.Prelude.Result.{ok, err}
use rootmode.Core.Floats.{FloatApi}
use rootmode.Core.Errors.{Message, CoreError, CoreResult}
use rootmode.Core.Job.{JobKind, ToolCall}

pub record Price (F : Type 0) : Type 0 where
  pub amount : F
  pub currency : Text
  pub input : Option F
  pub output : Option F
  pub cache : Option F
  pub cache_write : Option F

abbrev pub or_rate : {F : Type 0} → Option F → F → F
or_rate none d = d
or_rate (some x) d = x

-- The four rates of `llm_rates`.
pub record Rates (F : Type 0) : Type 0 where
  pub input : F
  pub output : F
  pub cache : F
  pub cache_write : F

abbrev pub token_chunk : ℕ
token_chunk = 1000000

module _ (A : FloatApi) where
  unfoldable pub ceil_cents : A.F → A.F
  ceil_cents x =
      let scaled = A.mul x (A.of_ℕ 100) in
      let nearest = A.round scaled in
      if not (A.is_finite x) || A.le x (A.of_ℕ 0)
      then A.of_ℕ 0
      else if A.lt (A.abs (A.sub scaled nearest)) A.millionth
      then A.div nearest (A.of_ℕ 100)
      else A.div (A.ceil scaled) (A.of_ℕ 100)

  unfoldable pub new_price : A.F → Price A.F
  unfolding ceil_cents
  new_price amount = record {
    amount = ceil_cents amount;
    currency = text "USD";
    input = none;
    output = none;
    cache = none;
    cache_write = none;
  }

  unfoldable pub is_free : Price A.F → Bool
  is_free p =
      let zero = A.of_ℕ 0 in
      A.le p.amount zero && A.le (or_rate p.input zero) zero && A.le (or_rate p.output zero) zero

  unfoldable pub llm_rates : Price A.F → Rates A.F
  unfolding ceil_cents
  llm_rates p =
      let input = ceil_cents (or_rate p.input p.amount) in
      record {
        input = input;
        output = ceil_cents (or_rate p.output p.amount);
        cache = ceil_cents (or_rate p.cache input);
        cache_write = A.max_of (ceil_cents (or_rate p.cache_write input)) input;
      }

  unfoldable pub charge_llm_micros : Price A.F → ℕ → ℕ → ℕ → ℕ
  unfolding llm_rates
  charge_llm_micros p prompt completion cached_tokens =
      let rates = llm_rates p in
      let cached = min cached_tokens prompt in
      let uncached = prompt - cached in
      let fresh = A.max_of rates.input rates.cache_write in
      A.to_u64 (
        A.max_of
          (A.round (
            A.add (A.add (A.mul (A.of_ℕ uncached) fresh) (A.mul (A.of_ℕ cached) rates.cache))
              (A.mul (A.of_ℕ completion) rates.output)))
          (A.of_ℕ 0))

  unfoldable pub max_rate : Price A.F → A.F
  unfolding llm_rates
  max_rate p =
      let rates = llm_rates p in
      A.max_of (A.max_of (A.max_of rates.input rates.output) rates.cache_write) (A.of_ℕ 0)

  -- The rates are rounded before the dearest of them is taken.
  abbrev pub round_rate : Option A.F → Option A.F
  round_rate none = none
  round_rate (some x) = some (ceil_cents x)

  unfoldable pub round_protocol : Price A.F → Price A.F
  unfolding ceil_cents max_rate
  round_protocol p =
      let rounded : Price A.F = record {
        amount = ceil_cents p.amount;
        currency = p.currency;
        input = round_rate p.input;
        output = round_rate p.output;
        cache = round_rate p.cache;
        cache_write = round_rate p.cache_write;
      } in
      let top = max_rate rounded in
      if A.lt rounded.amount top then record rounded { amount = top } else rounded

  unfoldable pub chunk_micros : Price A.F → ℕ
  unfolding max_rate
  chunk_micros p =
      A.to_u64 (A.max_of (A.round (A.mul (A.of_ℕ token_chunk) (max_rate p))) (A.of_ℕ 1))

  unfoldable pub authorized_tokens : Price A.F → ℕ → ℕ → ℕ
  unfolding llm_rates charge_llm_micros
  authorized_tokens p micros prompt =
      let output = (llm_rates p).output in
      let left = micros - charge_llm_micros p prompt 0 0 in
      if A.le output (A.of_ℕ 0)
      then u64_max
      else saturating_add prompt (A.to_u64 (A.floor (A.div (A.of_ℕ left) output)))

  unfoldable pub tokens_for_micros : Price A.F → ℕ → ℕ
  unfolding max_rate
  tokens_for_micros p micros =
      let rate = max_rate p in
      if A.le rate (A.of_ℕ 0) then u64_max else A.to_u64 (A.floor (A.div (A.of_ℕ micros) rate))

pub record JobResult (V : Type 0) : Type 0 where
  pub v : ℕ
  pub job_id : Text
  pub kind : JobKind
  pub sha256 : Text
  pub answer : Option Text
  pub tool_calls : List ToolCall
  pub image_path_or_b64 : Option Text
  pub thinking : Option Text
  pub meta : V

pub data JobResultBody : Type 0 where
  words image video : Text → JobResultBody

unfoldable pub body : {V : Type 0} → JobResult V → CoreResult JobResultBody
body r = elim r.kind [
  | JobKind.llm ↦ elim r.answer [
    | some t ↦ ok (JobResultBody.words t)
    | none ↦
        if not (is_empty r.tool_calls)
        then ok (JobResultBody.words [])
        else err (CoreError.invalid Message.no_result)
  ]
  | JobKind.image ↦ elim r.image_path_or_b64 [
    | some i ↦ ok (JobResultBody.image i)
    | none ↦ err (CoreError.invalid Message.no_result)
  ]
  | JobKind.video ↦ elim r.image_path_or_b64 [
    | some i ↦ ok (JobResultBody.video i)
    | none ↦ err (CoreError.invalid Message.no_result)
  ]
]
