-- ===== src/Desktop/Routing/Cheapest.antt =====
-- apps/desktop/src-tauri/src/routing.rs: the option that is shown for a model is a cheapest one.
use rootmode.Prelude.{
  ℕ, ◌+◌, ◌≡◌, ◌⊎◌, inl, inr, refl, sym, subst, ◌∙◌, true, false, Bool-cases, List, [], map, ◌∷◌,
  ◌==◌,
}
use rootmode.Prelude.Sort.{Any, Any-sort_by, Any-map}
use rootmode.Prelude.Text.{text_eq, text_eq_iff}
use rootmode.Core.Floats.{FloatApi}
use rootmode.Core.Job.{JobKind}
use rootmode.Core.Protocol.{ModelDescriptor, model_amount}
use rootmode.Desktop.Routing.{
  Peer, ModelOption, offers, is_online, candidate, contend, offer_to, collect_options,
  model_options, Tied,
}

-- The order of floats, which holds at NaN too.
pub record IsStrict (A : FloatApi) : Type 0 where
  pub irreflexive : (a : A.F) → A.lt a a ≡ false
  pub trans : (a b c : A.F) → A.lt a b ≡ true → A.lt b c ≡ true → A.lt a c ≡ true
  pub equal : (a b c : A.F) → A.lt a b ≡ true → A.eq b c ≡ true → A.lt a c ≡ true

module _ (A : FloatApi) (order : IsStrict A) where
  -- An option for the model of an offer that is not dearer than the offer.
  abbrev pub IsFor : Peer A.F × ModelDescriptor A.F → ModelOption A.F → Type 0
  IsFor o t = (t.model ≡ o.1.id) × (A.lt (model_amount A o.1) t.price ≡ false)

  -- A price that does not undercut one price does not undercut a price below it or equal to it.
  not_below :
      (a new old : A.F)
      → (A.lt new old ≡ true) ⊎ (A.eq new old ≡ true)
      → A.lt a old ≡ false
      → A.lt a new ≡ false
  not_below a new old (inl h) k = elim (Bool-cases (A.lt a new)) [
    | inl below ↦ absurd (cc (order.trans a new old below h, k))
    | inr same ↦ same
  ]
  not_below a new old (inr h) k = elim (Bool-cases (A.lt a new)) [
    | inl below ↦ absurd (cc (order.equal a new old below h, k))
    | inr same ↦ same
  ]

  -- Whoever wins, the price is not above the held one, nor above the newcomer's.
  contend-price :
      (rng : ℕ → ℕ → ℕ) (k : ℕ) (new : ModelOption A.F) (t : Tied A) (a : A.F)
      → (A.lt a t.0.price ≡ false) ⊎ (a ≡ new.price)
      → A.lt a (contend A rng k new t).0.0.price ≡ false
  unfolding contend
  contend-price rng k new (old, ties) a h = elim (Bool-cases (A.lt new.price old.price)) [
    | inl cheaper ↦ rw cheaper (against_new (inl cheaper) h)
    | inr kept ↦ elim (Bool-cases (A.eq new.price old.price)) [
      | inl tie ↦ elim (Bool-cases (rng k (ties + 1) == 0)) [
        | inl drawn ↦ rw (kept, tie, drawn) (against_new (inr tie) h)
        | inr lost ↦ rw (kept, tie, lost) (against_old kept h)
      ]
      | inr dearer ↦ rw (kept, dearer) (against_old kept h)
    ]
  ]
    where
      against_new :
          (A.lt new.price old.price ≡ true) ⊎ (A.eq new.price old.price ≡ true)
          → (A.lt a old.price ≡ false) ⊎ (a ≡ new.price)
          → A.lt a new.price ≡ false
      against_new won (inl g) = not_below a new.price old.price won g
      against_new won (inr g) =
          subst (λ x. A.lt x new.price ≡ false) (sym g) (order.irreflexive new.price)

      against_old :
          A.lt new.price old.price ≡ false
          → (A.lt a old.price ≡ false) ⊎ (a ≡ new.price)
          → A.lt a old.price ≡ false
      against_old kept (inl g) = g
      against_old kept (inr g) = subst (λ x. A.lt x old.price ≡ false) (sym g) kept

  contend-model :
      (rng : ℕ → ℕ → ℕ) (k : ℕ) (new : ModelOption A.F) (t : Tied A)
      → t.0.model ≡ new.model
      → (contend A rng k new t).0.0.model ≡ new.model
  unfolding contend
  contend-model rng k new (old, ties) h = elim (Bool-cases (A.lt new.price old.price)) [
    | inl cheaper ↦ rw cheaper refl
    | inr kept ↦ elim (Bool-cases (A.eq new.price old.price)) [
      | inl tie ↦ elim (Bool-cases (rng k (ties + 1) == 0)) [
        | inl drawn ↦ rw (kept, tie, drawn) refl
        | inr lost ↦ rw (kept, tie, lost) h
      ]
      | inr dearer ↦ rw (kept, dearer) h
    ]
  ]

  abbrev pub Covers : List (Tied A) → Peer A.F × ModelDescriptor A.F → Type 0
  Covers ts o = Any (λ t. IsFor o t.0) ts

  -- What an offer is covered by stays, or the newcomer takes its place.
  offer_to-keeps :
      (rng : ℕ → ℕ → ℕ) (k : ℕ) (new : ModelOption A.F) (o : Peer A.F × ModelDescriptor A.F)
      (ts : List (Tied A))
      → Covers ts o
      → Covers (offer_to A rng k new ts).0 o
  unfolding offer_to
  offer_to-keeps rng k new o [] c = absurd c
  offer_to-keeps rng k new o (t ∷ ts) c = elim (Bool-cases (text_eq t.0.model new.model)) [
    | inl same ↦ rw same (here ((text_eq_iff t.0.model new.model).0 same) c)
    | inr other ↦
        rw other (elim c [ inl p ↦ inl p | inr q ↦ inr (offer_to-keeps rng k new o ts q) ])
  ]
    where
      here : t.0.model ≡ new.model → Covers (t ∷ ts) o → Covers ((contend A rng k new t).0 ∷ ts) o
      here same (inl p) = inl (
        contend-model rng k new t same ∙ sym same ∙ p.0,
        contend-price rng k new t (model_amount A o.1) (inl p.1),
      )
      here same (inr q) = inr q

  offer_to-Covers :
      (rng : ℕ → ℕ → ℕ) (k : ℕ) (o : Peer A.F × ModelDescriptor A.F) (ts : List (Tied A))
      → Covers (offer_to A rng k (candidate A o) ts).0 o
  unfolding offer_to candidate
  offer_to-Covers rng k o [] = inl (refl, order.irreflexive (model_amount A o.1))
  offer_to-Covers rng k o (t ∷ ts) = elim (Bool-cases (text_eq t.0.model o.1.id)) [
    | inl same ↦
        let e = (text_eq_iff t.0.model o.1.id).0 same in
        rw same (
          inl (
            contend-model rng k (candidate A o) t e,
            contend-price rng k (candidate A o) t (model_amount A o.1) (inr refl),
          ))
    | inr other ↦ rw other (inr (offer_to-Covers rng k o ts))
  ]

  collect-Covers :
      (rng : ℕ → ℕ → ℕ) (k : ℕ) (ts : List (Tied A)) (os : List (Peer A.F × ModelDescriptor A.F))
      (o : Peer A.F × ModelDescriptor A.F)
      → Covers ts o ⊎ Any (λ x. x ≡ o) os
      → Covers (collect_options A rng k ts os) o
  unfolding collect_options
  collect-Covers rng k ts [] o (inl c) = c
  collect-Covers rng k ts [] o (inr m) = absurd m
  collect-Covers rng k ts (x ∷ os) o c =
      collect-Covers rng (offer_to A rng k (candidate A x) ts).1
        (offer_to A rng k (candidate A x) ts).0 os o (next c)
    where
      next :
          Covers ts o ⊎ ((x ≡ o) ⊎ Any (λ x. x ≡ o) os)
          → Covers (offer_to A rng k (candidate A x) ts).0 o ⊎ Any (λ x. x ≡ o) os
      next (inl h) = inl (offer_to-keeps rng k (candidate A x) o ts h)
      next (inr (inl e)) = inl (
          subst (λ y. Covers (offer_to A rng k (candidate A x) ts).0 y) e
            (offer_to-Covers rng k x ts))
      next (inr (inr m)) = inr m

  -- Whatever the random draws, under an order of floats that is irreflexive, transitive and
  -- compatible with equality, for each model that an online provider offers the list of options
  -- holds an option for that model whose price is not above that provider's.
  pub model_options-IsFor :
      (rng : ℕ → ℕ → ℕ) (peers : List (Peer A.F)) (kind : JobKind)
      (o : Peer A.F × ModelDescriptor A.F)
      → Any (λ x. x ≡ o) (offers is_online kind peers)
      → Any (IsFor o) (model_options A rng peers kind)
  unfolding model_options
  model_options-IsFor rng peers kind o h =
      Any-sort_by _ (IsFor o)
        (map (λ t. t.0) (collect_options A rng 0 [] (offers is_online kind peers)))
        (Any-map (IsFor o) (λ t. t.0) (collect_options A rng 0 [] (offers is_online kind peers))
          (collect-Covers rng 0 [] (offers is_online kind peers) o (inr h)))
