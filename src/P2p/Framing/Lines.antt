-- ===== src/P2p/Framing/Lines.antt =====
-- Lines of bytes, and where their ends stand.
use mathlib.Core.Option
use rootmode.Prelude.{
  ℕ, zero, suc, ◌≤◌, ◌≡◌, ◌≢◌, refl, ap, arith, Bool-cases, inl, inr, Option, none, some, [], ◌∷◌,
  ◌++◌, length, take, drop, All, ◌==◌,
}
use rootmode.Prelude.Bytes.{Bytes}
use rootmode.P2p.Framing.{newline_at}

-- No byte of it is a line end.
abbrev pub IsLine : Bytes → Type 0
IsLine = All (λ b. b ≢ 10)

pub IsLine-append : (a b : Bytes) → IsLine a → IsLine b → IsLine (a ++ b)
IsLine-append [] b h g = g
IsLine-append (x ∷ a) b h g = (h.0, IsLine-append a b h.1 g)

pub newline_some :
    (c : Bytes) (i : ℕ)
    → newline_at c ≡ some i
    → (c ≡ take i c ++ 10 ∷ drop (suc i) c) × IsLine (take i c)
newline_some [] i e = absurd (cc e)
newline_some (b ∷ c) zero e = elim (Bool-cases (b == 10)) [
  | inl here ↦ (ap (λ h. h ∷ c) (ground arith), tt)
  | inr other ↦ absurd (go (newline_at c) (ground arith))
]
  where
    go : (o : Option ℕ) → Option.map suc o ≡ some 0 → ⊥
    go none f = cc f
    go (some i) f = ground arith
newline_some (b ∷ c) (suc i) e = elim (Bool-cases (b == 10)) [
  | inl here ↦ absurd (ground arith)
  | inr other ↦
      let (parts, line) = newline_some c i (ground arith) in
      (ap (λ t. b ∷ t) parts, (ground arith, line))
]

pub newline_none : (c : Bytes) → newline_at c ≡ none → IsLine c
newline_none [] e = tt
newline_none (b ∷ c) e = elim (Bool-cases (b == 10)) [
  | inl here ↦ absurd (ground arith)
  | inr other ↦ (ground arith, newline_none c (ground arith))
]

-- The first line end cuts a text in one way.
pub line_cut :
    (a b x y : Bytes) → IsLine a → IsLine b → a ++ 10 ∷ x ≡ b ++ 10 ∷ y → (a ≡ b) × (x ≡ y)
line_cut [] [] x y h g e = (refl, cc e)
line_cut [] (q ∷ b) x y h g e = absurd (g.0 (cc e))
line_cut (p ∷ a) [] x y h g e = absurd (h.0 (cc e))
line_cut (p ∷ a) (q ∷ b) x y h g e =
    let (same, rest) = line_cut a b x y h.1 g.1 (cc e) in (cc (e, same), rest)

-- Bytes without a line end are no longer than the line that they begin.
pub line_prefix :
    (a b x y : Bytes) → IsLine a → IsLine b → a ++ x ≡ b ++ 10 ∷ y → length a ≤ length b
line_prefix [] b x y h g e = omega arith
line_prefix (p ∷ a) [] x y h g e = absurd (h.0 (cc e))
line_prefix (p ∷ a) (q ∷ b) x y h g e = omega (arith, line_prefix a b x y h.1 g.1 (cc e))
