-- ===== src/Core/Tokens/Meta.antt =====
-- TokenUsage::from_meta and write_into: the counts in a result's `meta`.
use rootmode.Prelude.{ℕ, ◌+◌, ◌≤◌, ◌≡◌, ◌≢◌, true, some, arith, u64_max}
use rootmode.Prelude.Text.{text_eq}
use rootmode.Core.Json.{JsonApi}
use rootmode.Core.Tokens.{TokenUsage, IsValid, as_u64, from_meta, write_into, put_counts}

-- Every count fits its `u64`.
pub record Fits (u : TokenUsage) : Type 0 where
  pub prompt : u.prompt ≤ u64_max
  pub completion : u.completion ≤ u64_max
  pub cached : u.cached ≤ u64_max
  pub reasoning : u.reasoning ≤ u64_max

module _ (J : JsonApi) where
  open J use {Value, is_object}

  -- Whatever a provider reports, what is read from it respects the subset rules, and is not zero.
  pub from_meta-IsValid :
      (meta : Value) (u : TokenUsage)
      → from_meta J meta ≡ some u
      → IsValid u × (u.prompt + u.completion ≢ 0)
  unfolding from_meta
  from_meta-IsValid meta u h = ground arith

  as_u64-of_u64 : (n : ℕ) → n ≤ u64_max → as_u64 J (some (J.of_u64 n)) ≡ n
  unfolding as_u64
  as_u64-of_u64 n h = rw (J.as_u64-of_u64 n h, as_u64)

  -- Counts that respect the subset rules, fit a u64 and are not both zero are read back by
  -- from_meta from any JSON object that write_into has written them into.
  pub from_meta-write_into :
      (u : TokenUsage) (meta : Value)
      → is_object meta ≡ true
      → IsValid u
      → Fits u
      → u.prompt + u.completion ≢ 0
      → from_meta J (write_into J u meta) ≡ some u
  unfolding from_meta write_into put_counts text_eq
  from_meta-write_into u meta ho hv hf hz =
      simp (J.get-insert, J.is_object-insert, ho)
        (ground (
          arith,
          as_u64-of_u64 u.prompt,
          as_u64-of_u64 u.completion,
          as_u64-of_u64 u.cached,
          as_u64-of_u64 u.reasoning,
        ))
