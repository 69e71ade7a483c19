-- ===== src/Core/Tokens/Reconcile.antt =====
-- TokenUsage::reconcile: the bill never falls below what was counted here.
use rootmode.Prelude.{◌≤◌, ◌≡◌, refl, Option, none, some, arith}
use rootmode.Core.Tokens.{TokenUsage, IsValid, reconcile}

-- The merged counts keep the subset rules, cover the local prompt and completion counts, and cover
-- the provider's as well when it reported any.
pub record Covers (u : TokenUsage) (reported : Option TokenUsage) (r : TokenUsage) : Type 0 where
  pub valid : IsValid r
  pub prompt : u.prompt ≤ r.prompt
  pub completion : u.completion ≤ r.completion
  pub reported_prompt : (t : TokenUsage) → reported ≡ some t → t.prompt ≤ r.prompt
  pub reported_completion : (t : TokenUsage) → reported ≡ some t → t.completion ≤ r.completion

-- When the local counts respect the subset rules, the counts that reconcile makes of them and a
-- provider's report respect them too, are at least the local prompt and completion counts, and
-- at least those of the report when there is one.
pub reconcile-Covers :
    (u : TokenUsage) (reported : Option TokenUsage)
    → IsValid u
    → Covers u reported (reconcile u reported)
unfolding reconcile
reconcile-Covers u none h = record {
  valid = h;
  prompt = omega arith;
  completion = omega arith;
  reported_prompt = λ t e. cc;
  reported_completion = λ t e. cc;
}
reconcile-Covers u (some t) h = record {
  valid = ground arith;
  prompt = ground arith;
  completion = ground arith;
  reported_prompt = λ s e. ground arith;
  reported_completion = λ s e. ground arith;
}

-- Reconciling a second time with the same report changes nothing.
pub reconcile_idem :
    (u : TokenUsage) (reported : Option TokenUsage)
    → reconcile (reconcile u reported) reported ≡ reconcile u reported
unfolding reconcile
reconcile_idem u none = refl
reconcile_idem u (some t) = ground arith
