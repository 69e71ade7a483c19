-- ===== src/Desktop/Routing/Retries.antt =====
-- apps/desktop/src-tauri/src/routing.rs: a retry never costs more than the first choice.
use rootmode.Prelude.{
  ℕ, ◌≡◌, ◌⊎◌, inl, inr, refl, true, false, not, ◌&&◌, Bool-cases, List, [], ◌∷◌, All,
}
use rootmode.Prelude.Sort.{Any, All-sort_by, All-map, All-append}
use rootmode.Prelude.Text.{Text, text_eq}
use rootmode.Core.Floats.{FloatApi}
use rootmode.Core.Job.{JobKind}
use rootmode.Core.Protocol.{ModelDescriptor, model_amount}
use rootmode.Desktop.Routing.{
  Peer, Fallback, Found, offers, meet, is_online, same_kind, serves, first_price, consider,
  consider_all, fallbacks,
}

module _ (A : FloatApi) where
  -- Another online provider of the kind, of the model at no more than the first price, or free where
  -- the first choice was free.
  pub record IsAllowed (peers : List (Peer A.F)) (kind : JobKind) (model first_peer_id : Text)
      (first : A.F) (f : Fallback) : Type 0 where
    pub peer : Peer A.F
    pub descriptor : ModelDescriptor A.F
    pub listed : Any (λ p. p ≡ peer) peers
    pub offered : Any (λ m. m ≡ descriptor) peer.models
    pub of_peer : f.peer_id ≡ peer.id
    pub labelled : f.peer_label ≡ peer.label
    pub of_model : f.model ≡ descriptor.id
    pub online : is_online peer ≡ true
    pub other : text_eq peer.id first_peer_id ≡ false
    pub of_kind : same_kind descriptor.kind kind ≡ true
    pub price :
        ((serves descriptor model ≡ true) × (A.le (model_amount A descriptor) first ≡ true))
        ⊎ ((A.le first (A.of_ℕ 0) ≡ true)
            × (A.le (model_amount A descriptor) (A.of_ℕ 0) ≡ true)
            × (kind ≡ JobKind.llm))

  -- What the loops meet.
  abbrev pub IsMet : List (Peer A.F) → JobKind → Text → Peer A.F × ModelDescriptor A.F → Type 0
  IsMet peers kind first_peer_id o =
      Any (λ p. p ≡ o.0) peers
      × Any (λ m. m ≡ o.1) o.0.models
      × (is_online o.0 ≡ true)
      × (text_eq o.0.id first_peer_id ≡ false)
      × (same_kind o.1.kind kind ≡ true)

  meet-IsMet :
      (peers : List (Peer A.F)) (kind : JobKind) (first_peer_id : Text) (p : Peer A.F)
      (ms : List (ModelDescriptor A.F))
      → Any (λ q. q ≡ p) peers
      → is_online p ≡ true
      → text_eq p.id first_peer_id ≡ false
      → ((m : ModelDescriptor A.F) → Any (λ n. n ≡ m) ms → Any (λ n. n ≡ m) p.models)
      → All (IsMet peers kind first_peer_id) (meet kind p ms)
  meet-IsMet peers kind first_peer_id p [] i h k within = tt
  meet-IsMet peers kind first_peer_id p (m ∷ ms) i h k within =
      let rest = meet-IsMet peers kind first_peer_id p ms i h k (λ n a. within n (inr a)) in
      elim (Bool-cases (same_kind m.kind kind)) [
        | inl same ↦ rw same ((i, within m (inl refl), h, k, same), rest)
        | inr differs ↦ rw differs rest
      ]

  offers-IsMet :
      (peers : List (Peer A.F)) (kind : JobKind) (first_peer_id : Text) (ps : List (Peer A.F))
      → ((p : Peer A.F) → Any (λ q. q ≡ p) ps → Any (λ q. q ≡ p) peers)
      → All
          (IsMet peers kind first_peer_id)
          (offers (λ p. is_online p && not (text_eq p.id first_peer_id)) kind ps)
  unfolding offers
  offers-IsMet peers kind first_peer_id [] within = tt
  offers-IsMet peers kind first_peer_id (p ∷ ps) within =
      let rest = offers-IsMet peers kind first_peer_id ps (λ q a. within q (inr a)) in
      elim (Bool-cases (is_online p)) [
        | inr away ↦ rw away rest
        | inl here ↦ elim (Bool-cases (text_eq p.id first_peer_id)) [
          | inl first ↦ rw (here, first) rest
          | inr other ↦
              rw (here, other)
                (All-append (IsMet peers kind first_peer_id) (meet kind p p.models) _
                  (meet-IsMet peers kind first_peer_id p p.models (within p (inl refl)) here other
                    (λ m a. a))
                  rest)
        ]
      ]

  module _ (peers : List (Peer A.F)) (gen : ℕ → ℕ) (kind : JobKind) (model first_peer_id : Text)
      (first : A.F) where
    abbrev pub AreAllowed : Found A → Type 0
    AreAllowed f =
        All (λ d. IsAllowed peers kind model first_peer_id first d.fallback) f.same
        × All (λ d. IsAllowed peers kind model first_peer_id first d.fallback) f.other_free

    llm-only : (k : JobKind) → same_kind k JobKind.llm ≡ true → k ≡ JobKind.llm
    llm-only JobKind.llm e = refl
    llm-only JobKind.image e = cc
    llm-only JobKind.video e = cc

    consider-AreAllowed :
        (f : Found A) (o : Peer A.F × ModelDescriptor A.F)
        → IsMet peers kind first_peer_id o
        → AreAllowed f
        → AreAllowed (consider A gen kind model first f o)
    unfolding consider
    consider-AreAllowed f (p, m) met a = elim (Bool-cases (serves m model)) [
      | inl serving ↦ elim (Bool-cases (A.le (model_amount A m) first)) [
        | inl cheap ↦
            rw (serving, cheap)
              (All-append _ f.same _ a.0 (allowed (inl (serving, cheap)), tt), a.1)
        | inr dear ↦ rw (serving, dear) a
      ]
      | inr another ↦ elim (Bool-cases (A.le first (A.of_ℕ 0))) [
        | inr paid ↦ rw (another, paid) a
        | inl free ↦ elim (Bool-cases (A.le (model_amount A m) (A.of_ℕ 0))) [
          | inr dear ↦ rw (another, free, dear) a
          | inl gratis ↦ elim (Bool-cases (same_kind kind JobKind.llm)) [
            | inr picture ↦ rw (another, free, gratis, picture) a
            | inl chat ↦
                rw (another, free, gratis, chat)
                  (
                    a.0,
                    All-append _ f.other_free _ a.1
                        (allowed (inr (free, gratis, llm-only kind chat)), tt),
                  )
          ]
        ]
      ]
    ]
      where
        allowed :
            ((serves m model ≡ true) × (A.le (model_amount A m) first ≡ true))
              ⊎ ((A.le first (A.of_ℕ 0) ≡ true)
                  × (A.le (model_amount A m) (A.of_ℕ 0) ≡ true)
                  × (kind ≡ JobKind.llm))
            → IsAllowed peers kind model first_peer_id first
                (record { peer_id = p.id; peer_label = p.label; model = m.id })
        allowed price = record {
          peer = p;
          descriptor = m;
          listed = met.0;
          offered = met.1;
          of_peer = refl;
          labelled = refl;
          of_model = refl;
          online = met.2;
          other = met.3;
          of_kind = met.4;
          price = price;
        }

    consider_all-AreAllowed :
        (f : Found A) (os : List (Peer A.F × ModelDescriptor A.F))
        → All (IsMet peers kind first_peer_id) os
        → AreAllowed f
        → AreAllowed (consider_all A gen kind model first f os)
    unfolding consider_all
    consider_all-AreAllowed f [] met a = a
    consider_all-AreAllowed f (o ∷ os) met a =
        consider_all-AreAllowed (consider A gen kind model first f o) os met.1
          (consider-AreAllowed f o met.0 a)

  -- Whatever the random draws, every fallback names one of the given providers, online and
  -- other than the first, and one of the models of the asked kind that this provider lists,
  -- which either serves the model asked for at no more than the price of the first choice, or,
  -- for chats only, costs nothing where the first choice cost nothing.
  pub fallbacks-IsAllowed :
      (gen : ℕ → ℕ) (peers : List (Peer A.F)) (kind : JobKind) (model first_peer_id : Text)
      → All
          (IsAllowed peers kind model first_peer_id (first_price A peers kind model first_peer_id))
          (fallbacks A gen peers kind model first_peer_id)
  unfolding fallbacks
  fallbacks-IsAllowed gen peers kind model first_peer_id =
      let first = first_price A peers kind model first_peer_id in
      let os = offers (λ p. is_online p && not (text_eq p.id first_peer_id)) kind peers in
      let none_yet : Found A = record { same = []; other_free = []; draws = 0 } in
      let f = consider_all A gen kind model first none_yet os in
      let (same, free) =
        consider_all-AreAllowed peers gen kind model first_peer_id first none_yet os
          (offers-IsMet peers kind first_peer_id peers (λ p a. a)) (tt, tt) in
      All-append _ _ _ (All-map _ (λ d. d.fallback) _ (All-sort_by _ _ f.same same))
        (All-map _ (λ d. d.fallback) _ (All-sort_by _ _ f.other_free free))
