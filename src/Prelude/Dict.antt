-- ===== src/Prelude/Dict.antt =====
-- `BTreeMap` with text keys: an association list in the order of the keys.
use Prim.Native.Nat.{ℕ, ◌+◌}
use mathlib.Core.Path.{◌≡◌, refl, ap, subst, subst₂}
use mathlib.Core.Bool.{true, false}
use mathlib.Core.List.{List, [], ◌∷◌, ◌++◌, map}
use mathlib.Core.Option
use mathlib.Core.Logic.{inl, inr}
use mathlib.Core.Option.{Option, none, some}
use native.Mathlib.Omega.{arith}
use rootmode.Prelude.Tests.{if◌then◌else◌, Bool-cases}
use rootmode.Prelude.Lists.{All}
use rootmode.Prelude.Text.{
  Text, text_eq, text_eq_iff, text_lt, text_lt_irrefl, text_lt_trans, text_lt_total, text_lt_asymm,
}

abbrev pub Dict {ℓ} : Type ℓ → Type ℓ
Dict V = List (Text × V)

module _ {ℓ} {V : Type ℓ} where
  unfoldable pub get : Text → Dict V → Option V
  get k [] = none
  get k ((j, v) ∷ m) = if text_eq j k then some v else get k m

  unfoldable pub insert : Text → V → Dict V → Dict V
  insert k v [] = (k, v) ∷ []
  insert k v ((j, w) ∷ m) =
      if text_eq j k
      then (k, v) ∷ m
      else if text_lt k j
      then (k, v) ∷ (j, w) ∷ m
      else (j, w) ∷ insert k v m

  -- `get_mut`, and a change of what it points to.
  unfoldable pub adjust : Text → (V → V) → Dict V → Dict V
  adjust k f [] = []
  adjust k f ((j, w) ∷ m) = if text_eq j k then (j, f w) ∷ m else (j, w) ∷ adjust k f m

  unfoldable pub remove : Text → Dict V → Dict V
  remove k [] = []
  remove k ((j, w) ∷ m) = if text_eq j k then m else (j, w) ∷ remove k m

  abbrev pub values : Dict V → List V
  values = map (λ e. e.1)

  -- The keys rise.
  abbrev pub IsSorted : Dict V → Type 0
  IsSorted [] = Unit
  IsSorted (e ∷ m) = All (λ d. text_lt e.0 d.0 ≡ true) m × IsSorted m

  pub get-insert :
      (k j : Text) (v : V) (m : Dict V)
      → get j (insert k v m) ≡ (if text_eq k j then some v else get j m)
  unfolding get insert
  get-insert k j v [] = refl
  get-insert k j v ((i, w) ∷ m) =
      ground (arith, text_eq_iff k j, text_eq_iff i k, text_eq_iff i j, get-insert k j v m)

  pub get-adjust :
      (k j : Text) (f : V → V) (m : Dict V)
      → get j (adjust k f m) ≡ (if text_eq k j then Option.map f (get j m) else get j m)
  unfolding get adjust
  get-adjust k j f [] = ground arith
  get-adjust k j f ((i, w) ∷ m) =
      ground (arith, text_eq_iff k j, text_eq_iff i k, text_eq_iff i j, get-adjust k j f m)

  -- A key below every key of a map is not in it.
  get_below : (k : Text) (m : Dict V) → All (λ d. text_lt k d.0 ≡ true) m → get k m ≡ none
  unfolding get
  get_below k [] h = refl
  get_below k ((j, w) ∷ m) h = ground (arith, get_below k m h.1, text_eq_iff j k, text_lt_irrefl k)

  All-trans :
      (j k : Text) (m : Dict V)
      → text_lt j k ≡ true
      → All (λ d. text_lt k d.0 ≡ true) m
      → All (λ d. text_lt j d.0 ≡ true) m
  All-trans j k [] p h = tt
  All-trans j k (e ∷ m) p h = (text_lt_trans j k e.0 p h.0, All-trans j k m p h.1)

  before-insert :
      (j k : Text) (v : V) (m : Dict V)
      → text_lt j k ≡ true
      → All (λ d. text_lt j d.0 ≡ true) m
      → All (λ d. text_lt j d.0 ≡ true) (insert k v m)
  unfolding insert
  before-insert j k v [] p h = (p, tt)
  before-insert j k v ((i, w) ∷ m) p h = elim (Bool-cases (text_eq i k)) [
    | inl same ↦ rw same (p, h.1)
    | inr other ↦ rw other (elim (Bool-cases (text_lt k i)) [
      | inl before ↦ rw before (p, h)
      | inr after ↦ rw after (h.0, before-insert j k v m p h.1)
    ])
  ]

  pub insert-IsSorted : (k : Text) (v : V) (m : Dict V) → IsSorted m → IsSorted (insert k v m)
  unfolding insert
  insert-IsSorted k v [] h = (tt, tt)
  insert-IsSorted k v ((i, w) ∷ m) h = elim (Bool-cases (text_eq i k)) [
    | inl same ↦
        rw same (subst (λ t. All (λ d. text_lt t d.0 ≡ true) m) ((text_eq_iff i k).0 same) h.0, h.1)
    | inr other ↦ rw other (elim (Bool-cases (text_lt k i)) [
      | inl before ↦ rw before ((before, All-trans k i m before h.0), h)
      | inr after ↦ rw after (
        before-insert i k v m (text_lt_total k i (not_same k i other) after) h.0,
        insert-IsSorted k v m h.1,
      )
    ])
  ]
    where
      not_same : (a b : Text) → text_eq b a ≡ false → text_eq a b ≡ false
      not_same a b e = ground (arith, text_eq_iff a b, text_eq_iff b a)

  -- The sum of a measure over the entries.
  abbrev pub total : (V → ℕ) → Dict V → ℕ
  total f [] = 0
  total f (e ∷ m) = f e.1 + total f m

  abbrev pub measured : (V → ℕ) → Option V → ℕ
  measured f none = 0
  measured f (some v) = f v

  -- An insertion moves the sum by the new entry and the one that it replaces.
  pub total-insert :
      (f : V → ℕ) (k : Text) (v : V) (m : Dict V)
      → IsSorted m
      → total f (insert k v m) + measured f (get k m) ≡ total f m + f v
  unfolding insert get
  total-insert f k v [] h = omega arith
  total-insert f k v ((i, w) ∷ m) h = elim (Bool-cases (text_eq i k)) [
    | inl same ↦ rw same (omega arith)
    | inr other ↦ rw other (elim (Bool-cases (text_lt k i)) [
      | inl before ↦ rw (before, get_below k m (All-trans k i m before h.0)) (omega arith)
      | inr after ↦ rw after (omega (arith, total-insert f k v m h.1))
    ])
  ]

-- Properties of every entry.
module _ {ℓ κ} {V : Type ℓ} (P : Text × V → Type κ) where
  pub All-insert : (k : Text) (v : V) (m : Dict V) → P (k, v) → All P m → All P (insert k v m)
  unfolding insert
  All-insert k v [] p h = (p, tt)
  All-insert k v ((i, w) ∷ m) p h = elim (Bool-cases (text_eq i k)) [
    | inl same ↦ rw same (p, h.1)
    | inr other ↦ rw other (elim (Bool-cases (text_lt k i)) [
      | inl before ↦ rw before (p, h)
      | inr after ↦ rw after (h.0, All-insert k v m p h.1)
    ])
  ]

  pub All-adjust :
      (k : Text) (f : V → V) (m : Dict V)
      → ((j : Text) (v : V) → P (j, v) → P (j, f v))
      → All P m
      → All P (adjust k f m)
  unfolding adjust
  All-adjust k f [] keep h = tt
  All-adjust k f ((i, w) ∷ m) keep h = elim (Bool-cases (text_eq i k)) [
    | inl same ↦ rw same (keep i w h.0, h.1)
    | inr other ↦ rw other (h.0, All-adjust k f m keep h.1)
  ]

  pub All-get : (k : Text) (v : V) (m : Dict V) → All P m → get k m ≡ some v → P (k, v)
  unfolding get
  All-get k v [] h e = cc
  All-get k v ((i, w) ∷ m) h e = elim (Bool-cases (text_eq i k)) [
    | inl same ↦
        let found : w ≡ v = ground arith in
        subst₂ (λ t u. P (t, u)) ((text_eq_iff i k).0 same) found h.0
    | inr other ↦ All-get k v m h.1 (ground arith)
  ]

module _ {ℓ} {V : Type ℓ} where
  keys_adjust :
      (j k : Text) (f : V → V) (m : Dict V)
      → All (λ d. text_lt j d.0 ≡ true) m
      → All (λ d. text_lt j d.0 ≡ true) (adjust k f m)
  keys_adjust j k f m h = All-adjust (λ d. text_lt j d.0 ≡ true) k f m (λ i v p. p) h

  pub adjust-IsSorted : (k : Text) (f : V → V) (m : Dict V) → IsSorted m → IsSorted (adjust k f m)
  unfolding adjust
  adjust-IsSorted k f [] h = tt
  adjust-IsSorted k f ((i, w) ∷ m) h = elim (Bool-cases (text_eq i k)) [
    | inl same ↦ rw same h
    | inr other ↦ rw other (keys_adjust i k f m h.0, adjust-IsSorted k f m h.1)
  ]

  -- A key above all others goes to the end.
  pub insert_last :
      (k : Text) (v : V) (m : Dict V)
      → All (λ e. text_lt e.0 k ≡ true) m
      → insert k v m ≡ m ++ (k, v) ∷ []
  unfolding insert
  insert_last k v [] h = refl
  insert_last k v ((i, w) ∷ m) h =
      let (differs, after) = text_lt_asymm i k h.0 in
      rw (differs, after) (ap (λ l. (i, w) ∷ l) (insert_last k v m h.1))

  -- In a sorted map the keys before an entry are below its key.
  pub before_of_sorted :
      (k : Text) (v : V) (xs ys : Dict V)
      → IsSorted (xs ++ (k, v) ∷ ys)
      → All (λ e. text_lt e.0 k ≡ true) xs
  before_of_sorted k v [] ys h = tt
  before_of_sorted k v (e ∷ xs) ys h = (middle xs h.0, before_of_sorted k v xs ys h.1)
    where
      middle :
          (zs : Dict V)
          → All (λ d. text_lt e.0 d.0 ≡ true) (zs ++ (k, v) ∷ ys)
          → text_lt e.0 k ≡ true
      middle [] a = a.0
      middle (z ∷ zs) a = middle zs a.1
