-- ===== src/Worker/Stats/Windows.antt =====
-- A report of stats.rs that could not be sent, and is put back.
use rootmode.Prelude.{ℕ, ◌^◌, ◌<◌, ◌≡◌, sym, arith, Bool-cases, inl, inr, List, [], ◌∷◌}
use rootmode.Core.Floats.{FloatApi}
use rootmode.Core.Json.{JsonApi}
use rootmode.Core.Job.{JobKind}
use rootmode.Core.Tokens.{from_meta}
use rootmode.Core.Price.{Price, JobResult}
use rootmode.Worker.Stats.{
  Counters, plus, usage_or_zero, no_counts, failed, rejected, drain, restore, is_measured,
  add_image, add_chat, record_job,
}

module _ (A : FloatApi) (J : JsonApi) where
  -- What happens to a node between two reports.
  pub data Event : Type 0 where
    served : JobResult J.Value → Price A.F → Event
    failure : Event
    refusal : Event

  abbrev pub count : Counters A.F → Event → Counters A.F
  count c (Event.served result price) = record_job A J c result price
  count c Event.failure = failed A c
  count c Event.refusal = rejected A c

  abbrev pub count_all : Counters A.F → List Event → Counters A.F
  count_all c [] = c
  count_all c (e ∷ es) = count_all (count c e) es

  -- The counters of `c` are the sums of those of `a` and `k`.
  pub record IsSum (a k c : Counters A.F) : Type 0 where
    pub requests : c.requests ≡ plus a.requests k.requests
    pub images : c.images ≡ plus a.images k.images
    pub tokens_in : c.tokens_in ≡ plus a.tokens_in k.tokens_in
    pub tokens_out : c.tokens_out ≡ plus a.tokens_out k.tokens_out
    pub tokens_cached : c.tokens_cached ≡ plus a.tokens_cached k.tokens_cached
    pub failures : c.failures ≡ plus a.failures k.failures
    pub rejected : c.rejected ≡ plus a.rejected k.rejected

  plus_later : (x a k d : ℕ) → x ≡ plus a k → plus x d ≡ plus (plus a d) k
  plus_later x a k d h = omega arith

  add_image-IsSum :
      (a k c : Counters A.F) (price : Price A.F)
      → IsSum a k c
      → IsSum (add_image A J a price) k (add_image A J c price)
  add_image-IsSum a k c price h = record {
    requests = h.requests;
    images = plus_later _ _ _ 1 h.images;
    tokens_in = h.tokens_in;
    tokens_out = h.tokens_out;
    tokens_cached = h.tokens_cached;
    failures = h.failures;
    rejected = h.rejected;
  }

  add_chat-IsSum :
      (a k c : Counters A.F) (result : JobResult J.Value) (price : Price A.F)
      → IsSum a k c
      → IsSum (add_chat A J a result price) k (add_chat A J c result price)
  add_chat-IsSum a k c result price h = elim (Bool-cases (is_measured A J result.meta)) [
    | inl measured ↦
        let usage = usage_or_zero (from_meta J result.meta) in
        rw measured (record {
          requests = h.requests;
          images = h.images;
          tokens_in = plus_later _ _ _ usage.prompt h.tokens_in;
          tokens_out = plus_later _ _ _ usage.completion h.tokens_out;
          tokens_cached = plus_later _ _ _ usage.cached h.tokens_cached;
          failures = h.failures;
          rejected = h.rejected;
        })
    | inr guessed ↦ rw guessed h
  ]

  request-IsSum :
      (a k c : Counters A.F)
      → IsSum a k c
      → IsSum
          (record a { requests = plus a.requests 1 })
          k
          (record c { requests = plus c.requests 1 })
  request-IsSum a k c h = record {
    requests = plus_later _ _ _ 1 h.requests;
    images = h.images;
    tokens_in = h.tokens_in;
    tokens_out = h.tokens_out;
    tokens_cached = h.tokens_cached;
    failures = h.failures;
    rejected = h.rejected;
  }

  count-IsSum : (a k c : Counters A.F) (e : Event) → IsSum a k c → IsSum (count a e) k (count c e)
  unfolding record_job failed rejected
  count-IsSum a k c (Event.served result price) h =
      let once = request-IsSum a k c h in
      elim result.kind
        as (λ kind.
          IsSum
            (elim kind [
              | JobKind.image ↦ add_image A J (record a { requests = plus a.requests 1 }) price
              | JobKind.video ↦ add_image A J (record a { requests = plus a.requests 1 }) price
              | JobKind.llm ↦ add_chat A J (record a { requests = plus a.requests 1 }) result price
            ])
            k
            (elim kind [
              | JobKind.image ↦ add_image A J (record c { requests = plus c.requests 1 }) price
              | JobKind.video ↦ add_image A J (record c { requests = plus c.requests 1 }) price
              | JobKind.llm ↦ add_chat A J (record c { requests = plus c.requests 1 }) result price
            ])) [
              | JobKind.image ↦ add_image-IsSum _ k _ price once
              | JobKind.video ↦ add_image-IsSum _ k _ price once
              | JobKind.llm ↦ add_chat-IsSum _ k _ result price once
            ]
  count-IsSum a k c Event.failure h = record {
    requests = plus_later _ _ _ 1 h.requests;
    images = h.images;
    tokens_in = h.tokens_in;
    tokens_out = h.tokens_out;
    tokens_cached = h.tokens_cached;
    failures = plus_later _ _ _ 1 h.failures;
    rejected = h.rejected;
  }
  count-IsSum a k c Event.refusal h = record {
    requests = h.requests;
    images = h.images;
    tokens_in = h.tokens_in;
    tokens_out = h.tokens_out;
    tokens_cached = h.tokens_cached;
    failures = h.failures;
    rejected = plus_later _ _ _ 1 h.rejected;
  }

  count_all-IsSum :
      (a k c : Counters A.F) (es : List Event)
      → IsSum a k c
      → IsSum (count_all a es) k (count_all c es)
  count_all-IsSum a k c [] h = h
  count_all-IsSum a k c (e ∷ es) h =
      count_all-IsSum (count a e) k (count c e) es (count-IsSum a k c e h)

  -- Each counter is a `u64`.
  pub record IsCounted (c : Counters A.F) : Type 0 where
    pub requests : c.requests < 2 ^ 64
    pub images : c.images < 2 ^ 64
    pub tokens_in : c.tokens_in < 2 ^ 64
    pub tokens_out : c.tokens_out < 2 ^ 64
    pub tokens_cached : c.tokens_cached < 2 ^ 64
    pub failures : c.failures < 2 ^ 64
    pub rejected : c.rejected < 2 ^ 64

  -- Two meters that differ at most in the revenue.
  pub record SameCounts (c d : Counters A.F) : Type 0 where
    pub requests : c.requests ≡ d.requests
    pub images : c.images ≡ d.images
    pub tokens_in : c.tokens_in ≡ d.tokens_in
    pub tokens_out : c.tokens_out ≡ d.tokens_out
    pub tokens_cached : c.tokens_cached ≡ d.tokens_cached
    pub failures : c.failures ≡ d.failures
    pub rejected : c.rejected ≡ d.rejected

  -- When a meter is drained, goes on counting any sequence of served jobs, failures and
  -- refusals, and is then given back what was drained, each of its counters other than the
  -- revenue is what it would be had it never been drained. The counters are u64 values, and
  -- sums wrap.
  pub restore-drain :
      (c : Counters A.F) (es : List Event)
      → IsCounted c
      → SameCounts (restore A (count_all (drain A c).1 es) (drain A c).0) (count_all c es)
  unfolding restore drain
  restore-drain c es h =
      let sum = count_all-IsSum (no_counts A) c c es (record {
        requests = omega (arith, h.requests);
        images = omega (arith, h.images);
        tokens_in = omega (arith, h.tokens_in);
        tokens_out = omega (arith, h.tokens_out);
        tokens_cached = omega (arith, h.tokens_cached);
        failures = omega (arith, h.failures);
        rejected = omega (arith, h.rejected);
      }) in
      record {
        requests = sym sum.requests;
        images = sym sum.images;
        tokens_in = sym sum.tokens_in;
        tokens_out = sym sum.tokens_out;
        tokens_cached = sym sum.tokens_cached;
        failures = sym sum.failures;
        rejected = sym sum.rejected;
      }
