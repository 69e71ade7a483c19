-- ===== src/Core/Tokens/Tests.antt =====
-- Runs and examples of tokens.rs.
use rootmode.Prelude.{ℕ, ◌≡◌, refl, none, some, [], ◌∷◌, arith}
use rootmode.Prelude.Text.{text}
use rootmode.Core.Json
use rootmode.Core.Json.{JsonApi, Tree, trees}
use rootmode.Core.Job.{LlmParams, new_message}
use rootmode.Core.Tokens.{TokenUsage, IsValid, reconcile, from_meta, write_into}
use rootmode.Core.Tokens.Reconcile.{Covers, reconcile-Covers}
use rootmode.Core.Tokens.Meta.{from_meta-write_into}
use rootmode.Core.Tokens.Measure.{
  measure, prompt_tokens, completion_tokens, messages_tokens, calls_tokens, count_text,
}
use rootmode.Core.Tokens.Measure.Exact.{measure-exact}
use rootmode.Core.Fixtures.{toy_tokenizer}

abbrev local : TokenUsage
local = record { prompt = 100; completion = 40; cached = 0; reasoning = 10 }

abbrev reported : TokenUsage
reported = record { prompt = 90; completion = 60; cached = 95; reasoning = 5 }

reconcile_run :
    reconcile local (some reported)
    ≡ record { prompt = 100; completion = 60; cached = 95; reasoning = 10 }
unfolding reconcile
reconcile_run = refl

local-IsValid : IsValid local
local-IsValid = omega arith

reconcile-Covers_example : Covers local (some reported) (reconcile local (some reported))
reconcile-Covers_example = reconcile-Covers local (some reported) local-IsValid

abbrev empty_meta : Tree
empty_meta = Tree.obj Json.Fields.end

from_meta-write_into_example : from_meta trees (write_into trees local empty_meta) ≡ some local
from_meta-write_into_example =
    from_meta-write_into trees local empty_meta refl local-IsValid (omega arith) (omega arith)

abbrev ping : LlmParams ℕ ℕ
unfolding new_message
ping = record {
  model_hash = none;
  model_id = some (text "gpt-4o");
  messages = new_message (text "user") (text "ping") ∷ [];
  tools = [];
  max_tokens = 16;
  temperature = 0;
  reasoning_effort = none;
}

ping_run :
    measure toy_tokenizer ping (some (text "pong")) none []
    ≡ record { prompt = 14; completion = 4; cached = 0; reasoning = 0 }
unfolding measure ping
ping_run = refl

measure-exact_example : measure toy_tokenizer ping (some (text "pong")) none [] ≡ record {
  prompt = prompt_tokens toy_tokenizer tt ping;
  completion = completion_tokens toy_tokenizer tt (some (text "pong")) none [];
  cached = 0;
  reasoning = 0;
}
unfolding ping prompt_tokens completion_tokens messages_tokens calls_tokens count_text
measure-exact_example =
    measure-exact toy_tokenizer ping (some (text "pong")) none [] (omega arith) (omega arith)
