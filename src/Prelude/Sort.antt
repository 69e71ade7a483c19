-- ===== src/Prelude/Sort.antt =====
-- `sort_by`: a stable sort by a comparison, and what it keeps.
use Prim.Native.Nat.{Ordering}
use mathlib.Core.Bool.{Bool, true, false}
use mathlib.Core.List.{List, [], ◌∷◌, ◌++◌, map}
use mathlib.Core.Logic.{◌⊎◌, inl, inr}
use rootmode.Prelude.Tests.{Bool-cases, if◌then◌else◌}
use rootmode.Prelude.Lists.{All}

-- `then_with`
abbrev pub then_with : Ordering → Ordering → Ordering
then_with Ordering.eq o = o
then_with Ordering.lt o = Ordering.lt
then_with Ordering.gt o = Ordering.gt

abbrev pub not_after : Ordering → Bool
not_after Ordering.lt = true
not_after Ordering.eq = true
not_after Ordering.gt = false

module _ {ℓ} {A : Type ℓ} (compare_by : A → A → Ordering) where
  -- In front of the first entry that it does not come after.
  unfoldable pub insert_by : A → List A → List A
  insert_by x [] = x ∷ []
  insert_by x (y ∷ ys) = if not_after (compare_by x y) then x ∷ y ∷ ys else y ∷ insert_by x ys

  unfoldable pub sort_by : List A → List A
  unfolding insert_by
  sort_by [] = []
  sort_by (x ∷ xs) = insert_by x (sort_by xs)

module _ {ℓ κ} {A : Type ℓ} (compare_by : A → A → Ordering) (P : A → Type κ) where
  All-insert_by : (x : A) (xs : List A) → P x → All P xs → All P (insert_by compare_by x xs)
  unfolding insert_by
  All-insert_by x [] p a = (p, tt)
  All-insert_by x (y ∷ ys) p a = elim (Bool-cases (not_after (compare_by x y))) [
    | inl here ↦ rw here (p, a)
    | inr later ↦ rw later (a.0, All-insert_by x ys p a.1)
  ]

  pub All-sort_by : (xs : List A) → All P xs → All P (sort_by compare_by xs)
  unfolding sort_by
  All-sort_by [] a = tt
  All-sort_by (x ∷ xs) a = All-insert_by x (sort_by compare_by xs) a.0 (All-sort_by xs a.1)

-- Some entry has the property.
abbrev pub Any {ℓ} : {A : Type ℓ} → (A → Type 0) → List A → Type 0
Any P [] = ⊥
Any P (x ∷ xs) = P x ⊎ Any P xs

module _ {ℓ} {A : Type ℓ} (compare_by : A → A → Ordering) (P : A → Type 0) where
  Any-insert_by : (x : A) (xs : List A) → P x ⊎ Any P xs → Any P (insert_by compare_by x xs)
  unfolding insert_by
  Any-insert_by x [] a = a
  Any-insert_by x (y ∷ ys) a = elim (Bool-cases (not_after (compare_by x y))) [
    | inl here ↦ rw here a
    | inr later ↦ rw later (elim a [
      | inl p ↦ inr (Any-insert_by x ys (inl p))
      | inr q ↦ elim q [ inl p ↦ inl p | inr r ↦ inr (Any-insert_by x ys (inr r)) ]
    ])
  ]

  pub Any-sort_by : (xs : List A) → Any P xs → Any P (sort_by compare_by xs)
  unfolding sort_by
  Any-sort_by [] a = absurd a
  Any-sort_by (x ∷ xs) (inl p) = Any-insert_by x (sort_by compare_by xs) (inl p)
  Any-sort_by (x ∷ xs) (inr a) = Any-insert_by x (sort_by compare_by xs) (inr (Any-sort_by xs a))

pub Any-map {ℓ κ} :
    {A : Type ℓ} {B : Type κ} (P : B → Type 0) (f : A → B) (xs : List A)
    → Any (λ x. P (f x)) xs
    → Any P (map f xs)
Any-map P f [] a = absurd a
Any-map P f (x ∷ xs) (inl p) = inl p
Any-map P f (x ∷ xs) (inr a) = inr (Any-map P f xs a)

pub All-map {ℓ κ μ} :
    {A : Type ℓ} {B : Type κ} (P : B → Type μ) (f : A → B) (xs : List A)
    → All (λ x. P (f x)) xs
    → All P (map f xs)
All-map P f [] a = tt
All-map P f (x ∷ xs) a = (a.0, All-map P f xs a.1)

pub All-append {ℓ κ} :
    {A : Type ℓ} (P : A → Type κ) (xs ys : List A) → All P xs → All P ys → All P (xs ++ ys)
All-append P [] ys a b = b
All-append P (x ∷ xs) ys a b = (a.0, All-append P xs ys a.1 b)
