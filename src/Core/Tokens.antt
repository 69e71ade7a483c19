-- ===== src/Core/Tokens.antt =====
-- crates/rootmode-core/src/tokens.rs: the token counts that a job is billed by.
pub mod Reconcile
pub mod Meta
pub mod Measure
mod Tests
use rootmode.Prelude.{
  ℕ, ◌+◌, ◌-◌, ◌*◌, ◌%◌, ◌^◌, ◌≤◌, min, max, Bool, true, ◌&&◌, Option, none, some, List, [], ◌∷◌,
  length, is_empty, saturating_add, ◌==◌, if◌then◌else◌,
}
use rootmode.Prelude.Text.{Text, text}
use rootmode.Core.Json.{JsonApi}

pub record TokenUsage : Type 0 where
  pub prompt : ℕ
  pub completion : ℕ
  pub cached : ℕ
  pub reasoning : ℕ

-- What the fields' documentation says: two of the counts are subsets of the others.
pub record IsValid (u : TokenUsage) : Type 0 where
  pub cached_subset : u.cached ≤ u.prompt
  pub reasoning_subset : u.reasoning ≤ u.completion

unfoldable pub total : TokenUsage → ℕ
total u = saturating_add u.prompt u.completion

unfoldable pub uncached_prompt : TokenUsage → ℕ
uncached_prompt u = u.prompt - u.cached

unfoldable pub is_zero : TokenUsage → Bool
is_zero u = u.prompt == 0 && u.completion == 0

-- `reported.filter(|r| !r.is_zero())`, and the merge with what is left.
unfoldable pub reconcile : TokenUsage → Option TokenUsage → TokenUsage
unfolding is_zero
reconcile self none = self
reconcile self (some theirs) =
    if is_zero theirs
    then self
    else let prompt = max self.prompt theirs.prompt in
      let completion = max self.completion theirs.completion in
      record {
        prompt = prompt;
        completion = completion;
        cached = min theirs.cached prompt;
        reasoning = min (max self.reasoning theirs.reasoning) completion;
      }

module _ (J : JsonApi) where
  open J use {Value, get, is_object, insert, of_u64, of_bool, of_str}

  -- The private `as_u64` of the file: 0 where there is no number.
  unfoldable pub as_u64 : Option Value → ℕ
  as_u64 none = 0
  as_u64 (some v) = elim (J.as_u64 v) [ none ↦ 0 | some n ↦ n ]

  unfoldable pub from_meta : Value → Option TokenUsage
  from_meta meta =
      let prompt = as_u64 (get meta (text "prompt_tokens")) in
      let completion = as_u64 (get meta (text "completion_tokens")) in
      if prompt == 0 && completion == 0
      then none
      else some (record {
        prompt = prompt;
        completion = completion;
        cached = min (as_u64 (get meta (text "cached_tokens"))) prompt;
        reasoning = min (as_u64 (get meta (text "reasoning_tokens"))) completion;
      })

  put_counts : TokenUsage → Value → Value
  unfolding total
  put_counts u v0 =
      let v1 = insert v0 (text "prompt_tokens") (of_u64 u.prompt) in
      let v2 = insert v1 (text "completion_tokens") (of_u64 u.completion) in
      let v3 = insert v2 (text "cached_tokens") (of_u64 u.cached) in
      let v4 = insert v3 (text "reasoning_tokens") (of_u64 u.reasoning) in
      let v5 = insert v4 (text "total_tokens") (of_u64 (total u)) in
      let v6 = insert v5 (text "tokens_measured") (of_bool true) in
      insert v6 (text "tokenizer") (of_str (text "openai"))

  -- `meta` is left alone where it is no object.
  unfoldable pub write_into : TokenUsage → Value → Value
  unfolding put_counts
  write_into u meta = if is_object meta then put_counts u meta else meta
