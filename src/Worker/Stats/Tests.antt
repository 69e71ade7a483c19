-- ===== src/Worker/Stats/Tests.antt =====
-- Runs and examples of stats.rs.
use rootmode.Prelude.{◌≡◌, refl, true, none, some, List, [], ◌∷◌, arith}
use rootmode.Prelude.Text.{text, text_eq}
use rootmode.Core.Floats.{whole_floats}
use rootmode.Core.Json.{trees, Tree, num, bool, obj, field, end}
use rootmode.Core.Job.{JobKind}
use rootmode.Core.Tokens.{from_meta, as_u64}
use rootmode.Core.Price.{JobResult, new_price}
use rootmode.Worker.Stats.{Counters, drain, restore, failed, rejected, record_job}
use rootmode.Worker.Stats.Windows.{Event, SameCounts, count_all, restore-drain}

abbrev counted : Counters (whole_floats).F
counted = record {
  requests = 4;
  images = 1;
  tokens_in = 100;
  tokens_out = 50;
  tokens_cached = 10;
  revenue = 3;
  failures = 1;
  rejected = 2;
}

abbrev chat : JobResult Tree
chat = record {
  v = 1;
  job_id = text "j";
  kind = JobKind.llm;
  sha256 = text "x";
  answer = some (text "hi");
  tool_calls = [];
  image_path_or_b64 = none;
  thinking = none;
  meta = obj (
      field (text "prompt_tokens") (num 7) (
        field (text "completion_tokens") (num 5) (field (text "tokens_measured") (bool true) end)));
}

abbrev events : List (Event whole_floats trees)
events = Event.served chat (new_price whole_floats 2) ∷ Event.failure ∷ Event.refusal ∷ []

served_tokens : (count_all whole_floats trees counted events).tokens_in ≡ 107
unfolding record_job failed rejected from_meta as_u64 text_eq
served_tokens = refl

restore-drain_example :
    SameCounts whole_floats trees
      (restore whole_floats
        (count_all whole_floats trees (drain whole_floats counted).1 events)
        (drain whole_floats counted).0)
      (count_all whole_floats trees counted events)
restore-drain_example = restore-drain whole_floats trees counted events (record {
  requests = omega arith;
  images = omega arith;
  tokens_in = omega arith;
  tokens_out = omega arith;
  tokens_cached = omega arith;
  failures = omega arith;
  rejected = omega arith;
})
