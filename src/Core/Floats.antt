-- ===== src/Core/Floats.antt =====
-- `f32` and `f64`: the checker has no floats, so the model takes them as a type with the operations
-- and the constants that the modelled code uses.
use rootmode.Prelude.{ℕ, ◌+◌, ◌*◌, ◌-◌, ◌/◌, Bool, true, leb, ltb, ◌==◌, min, max, u64_max}

pub record FloatApi : Type 1 where
  pub F : Type 0
  -- `n as f64`.
  pub of_ℕ : ℕ → F
  -- `1e-6`
  pub millionth : F
  -- `a <= b`, `a < b` and `a == b`, false at NaN.
  pub le : F → F → Bool
  pub lt : F → F → Bool
  pub eq : F → F → Bool
  pub is_finite : F → Bool
  pub add : F → F → F
  pub sub : F → F → F
  pub mul : F → F → F
  pub div : F → F → F
  pub max_of : F → F → F
  pub abs : F → F
  pub round : F → F
  pub ceil : F → F
  pub floor : F → F
  -- `x as u64`, which saturates.
  pub to_u64 : F → ℕ

-- Whole numbers, for the tests.
abbrev pub whole_floats : FloatApi
whole_floats = record {
  F = ℕ;
  of_ℕ = λ n. n;
  millionth = 0;
  le = leb;
  lt = ltb;
  eq = λ a b. a == b;
  is_finite = λ a. true;
  add = λ a b. a + b;
  sub = λ a b. a - b;
  mul = λ a b. a * b;
  div = λ a b. a / b;
  max_of = max;
  abs = λ a. a;
  round = λ a. a;
  ceil = λ a. a;
  floor = λ a. a;
  to_u64 = λ a. min a u64_max;
}
