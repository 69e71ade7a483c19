-- ===== src/Desktop/Routing/Tests.antt =====
-- Runs and examples of routing.rs.
use rootmode.Prelude.{ℕ, ◌≡◌, inl, inr, refl, All, some, none, [], ◌∷◌, arith, map}
use rootmode.Prelude.Sort.{Any, sort_by, insert_by}
use rootmode.Prelude.Text.{Text, text, text_eq, text_lt}
use rootmode.Prelude.Strings.{starts_with}
use rootmode.Core.Floats.{whole_floats}
use rootmode.Core.Job.{JobKind}
use rootmode.Core.Price.{max_rate, ceil_cents, llm_rates}
use rootmode.Core.Protocol.{ModelDescriptor, model_amount}
use rootmode.Desktop.Routing.{
  Peer, offers, is_online, candidate, contend, offer_to, collect_options, model_options,
  first_price, consider, consider_all, fallbacks, serves,
}
use rootmode.Desktop.Routing.Cheapest.{IsStrict, IsFor, model_options-IsFor}
use rootmode.Desktop.Routing.Retries.{IsAllowed, fallbacks-IsAllowed}

abbrev llama : ℕ → ModelDescriptor ℕ
llama amount = record {
  id = text "llama";
  sha256 = none;
  kind = JobKind.llm;
  price = some (record {
    amount = amount;
    currency = text "USD";
    input = none;
    output = none;
    cache = none;
    cache_write = none;
  });
  video = none;
}

abbrev peer : Text → ℕ → Peer ℕ
peer label amount = record {
  id = label;
  label = label;
  country = none;
  payout = none;
  endpoint = [];
  public_key = none;
  peer_id = none;
  status = text "online";
  latency_ms = none;
  caps = [];
  models = llama amount ∷ [];
  max_concurrent = 1;
  last_seen = none;
  last_error = none;
  source = [];
  added_at = 0;
}

cheap_wins :
    map
      (λ o. o.peer_id)
      (model_options whole_floats
        (λ k n. 1)
        (peer (text "a") 9 ∷ peer (text "b") 1 ∷ [])
        JobKind.llm)
    ≡ text "b" ∷ []
unfolding model_options collect_options offer_to contend candidate offers text_eq text_lt
    model_amount max_rate ceil_cents llm_rates sort_by insert_by
cheap_wins = refl

retries :
    map
      (λ f. f.peer_id)
      (fallbacks whole_floats
        (λ k. k)
        (peer (text "a") 5 ∷ peer (text "b") 9 ∷ peer (text "c") 3 ∷ [])
        JobKind.llm
        (text "llama")
        (text "a"))
    ≡ text "c" ∷ []
unfolding fallbacks consider_all consider first_price offers serves starts_with text_eq text_lt
    model_amount max_rate ceil_cents llm_rates sort_by insert_by
retries = refl

whole-IsStrict : IsStrict whole_floats
whole-IsStrict = record {
  irreflexive = λ a. ground arith;
  trans = λ a b c p q. ground arith;
  equal = λ a b c p q. ground arith;
}

offered :
    Any
      (λ x. x ≡ (peer (text "b") 1, llama 1))
      (offers is_online JobKind.llm (peer (text "a") 9 ∷ peer (text "b") 1 ∷ []))
unfolding offers text_eq
offered = inr (inl refl)

model_options-IsFor_example :
    Any (IsFor whole_floats whole-IsStrict (peer (text "b") 1, llama 1)) (
      model_options whole_floats
        (λ k n. 1)
        (peer (text "a") 9 ∷ peer (text "b") 1 ∷ [])
        JobKind.llm)
model_options-IsFor_example =
    model_options-IsFor whole_floats whole-IsStrict (λ k n. 1)
      (peer (text "a") 9 ∷ peer (text "b") 1 ∷ []) JobKind.llm (peer (text "b") 1, llama 1) offered

fallbacks-IsAllowed_example :
    All
      (IsAllowed whole_floats
        (peer (text "a") 5 ∷ peer (text "c") 3 ∷ [])
        JobKind.llm
        (text "llama")
        (text "a")
        (first_price whole_floats
          (peer (text "a") 5 ∷ peer (text "c") 3 ∷ [])
          JobKind.llm
          (text "llama")
          (text "a")))
      (fallbacks whole_floats
        (λ k. k)
        (peer (text "a") 5 ∷ peer (text "c") 3 ∷ [])
        JobKind.llm
        (text "llama")
        (text "a"))
fallbacks-IsAllowed_example =
    fallbacks-IsAllowed whole_floats (λ k. k) (peer (text "a") 5 ∷ peer (text "c") 3 ∷ [])
      JobKind.llm (text "llama") (text "a")
