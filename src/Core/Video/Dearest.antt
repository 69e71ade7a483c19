-- ===== src/Core/Video/Dearest.antt =====
-- crates/rootmode-core/src/protocol.rs: the rate that a shape is quoted at is the dearest one.
use rootmode.Prelude.{
  ◌≡◌, refl, sym, subst, ◌∙◌, if◌then◌else◌, some_inj, Bool, true, false, Option, none, some, List,
  [], ◌∷◌, All, Bool-cases, ◌⊎◌, inl, inr,
}
use rootmode.Prelude.Sort.{Any}
use rootmode.Core.Floats.{FloatApi}
use rootmode.Core.Video.{
  VideoRate, VideoOffer, VideoShape, dearer, dearest_from, dearest, rate_for, fits, filter,
  same_bool,
}

module _ (A : FloatApi) where
  -- The order of `<=` on floats that are numbers.
  pub record IsOrder : Type 0 where
    pub trans : (a b c : A.F) → A.le a b ≡ true → A.le b c ≡ true → A.le a c ≡ true
    pub total :
        (a b : A.F)
        → A.is_finite a ≡ true
        → A.is_finite b ≡ true
        → A.le a b ≡ false
        → A.le b a ≡ true
    pub reflexive : (a : A.F) → A.is_finite a ≡ true → A.le a a ≡ true

  abbrev pub IsFiniteRate : VideoRate A.F → Type 0
  IsFiniteRate r = A.is_finite r.usd_per_second ≡ true

  -- At most the rate that was found.
  abbrev pub IsBelow : VideoRate A.F → VideoRate A.F → Type 0
  IsBelow top r = A.le r.usd_per_second top.usd_per_second ≡ true

  -- Whether a rate is for the same answer to the question of a first frame.
  abbrev pub has_frame : VideoShape → VideoRate A.F → Bool
  has_frame shape r = same_bool r.from_image shape.from_image

  -- The dearest of the fitting rates that agree on the first frame, or, where none of them agrees,
  -- the dearest of the fitting rates.
  abbrev pub IsDearest : VideoShape → List (VideoRate A.F) → VideoRate A.F → Type 0
  IsDearest shape rates top =
      ((has_frame shape top ≡ true)
        × All (λ r. fits shape r ≡ true → has_frame shape r ≡ true → IsBelow top r) rates)
      ⊎ (All (λ r. fits shape r ≡ true → has_frame shape r ≡ false) rates
          × All (λ r. fits shape r ≡ true → IsBelow top r) rates)

  -- No rate, and then nothing fits; or one of the rates, which fits and is the dearest.
  abbrev pub IsQuoted : VideoShape → List (VideoRate A.F) → Option (VideoRate A.F) → Type 0
  IsQuoted shape rates none = All (λ r. fits shape r ≡ false) rates
  IsQuoted shape rates (some top) =
      Any (λ r. r ≡ top) rates × (fits shape top ≡ true) × IsDearest shape rates top

  module _ (order : IsOrder) where
    All-IsBelow :
        (m n : VideoRate A.F) (rs : List (VideoRate A.F))
        → IsBelow n m
        → All (IsBelow m) rs
        → All (IsBelow n) rs
    All-IsBelow m n [] h a = tt
    All-IsBelow m n (r ∷ rs) h a = (order.trans _ _ _ a.0 h, All-IsBelow m n rs h a.1)

    -- The fold from `m` ends at a rate above `m` and above the whole list.
    dearest_from_lem :
        (m : VideoRate A.F) (rs : List (VideoRate A.F))
        → IsFiniteRate m
        → All IsFiniteRate rs
        → (top : VideoRate A.F) × (dearest_from A (some m) rs ≡ some top)
          × (IsBelow top m)
          × (All (IsBelow top) rs)
          × (IsFiniteRate top)
    unfolding dearest_from dearer
    dearest_from_lem m [] f a = (m, refl, order.reflexive _ f, tt, f)
    dearest_from_lem m (r ∷ rs) f a = elim (Bool-cases (A.le r.usd_per_second m.usd_per_second)) [
      | inl keep ↦
          let (top, e, h, below, g) = dearest_from_lem m rs f a.1 in
          (top, rw keep e, h, (order.trans _ _ _ keep h, below), g)
      | inr rise ↦
          let (top, e, h, below, g) = dearest_from_lem r rs a.0 a.1 in
          (top, rw rise e, order.trans _ _ _ (order.total _ _ a.0 f rise) h, (h, below), g)
    ]

    dearest_lem :
        (rs : List (VideoRate A.F)) (top : VideoRate A.F)
        → All IsFiniteRate rs
        → dearest A rs ≡ some top
        → All (IsBelow top) rs
    unfolding dearest dearest_from dearer
    dearest_lem [] top a e = tt
    dearest_lem (r ∷ rs) top a e =
        let (found, q, h, below, g) = dearest_from_lem r rs a.0 a.1 in
        let same : found ≡ top = some_inj (sym q ∙ e) in
        subst (λ t. All (IsBelow t) (r ∷ rs)) same (h, below)

    All-filter :
        (Q : VideoRate A.F → Type 0) (p : VideoRate A.F → Bool) (rs : List (VideoRate A.F))
        → All Q rs
        → All Q (filter p rs)
    All-filter Q p [] a = tt
    All-filter Q p (r ∷ rs) a = elim (Bool-cases (p r)) [
      | inl h ↦ rw h (a.0, All-filter Q p rs a.1)
      | inr h ↦ rw h (All-filter Q p rs a.1)
    ]

    dearest-none : (rs : List (VideoRate A.F)) → All IsFiniteRate rs → dearest A rs ≡ none → rs ≡ []
    unfolding dearest dearest_from dearer
    dearest-none [] f e = refl
    dearest-none (r ∷ rs) f e =
        let (found, q, h, below, g) = dearest_from_lem r rs f.0 f.1 in absurd (cc (q, e))

    none_pass :
        (p : VideoRate A.F → Bool) (rs : List (VideoRate A.F))
        → filter p rs ≡ []
        → All (λ r. p r ≡ false) rs
    none_pass p [] e = tt
    none_pass p (r ∷ rs) e = elim (Bool-cases (p r)) [
      | inl h ↦ absurd (cc (subst (λ b. (if b then r ∷ filter p rs else filter p rs) ≡ []) h e))
      | inr h ↦
          (h, none_pass p rs (subst (λ b. (if b then r ∷ filter p rs else filter p rs) ≡ []) h e))
    ]

    dearest_All :
        (P : VideoRate A.F → Type 0) (m : Option (VideoRate A.F)) (rs : List (VideoRate A.F))
        (top : VideoRate A.F)
        → ((k : VideoRate A.F) → m ≡ some k → P k)
        → All P rs
        → dearest_from A m rs ≡ some top
        → P top
    unfolding dearest_from dearer
    dearest_All P m [] top h a e = h top e
    dearest_All P none (r ∷ rs) top h a e =
        dearest_All P (some r) rs top (λ k q. subst P (some_inj q) a.0) a.1 e
    dearest_All P (some k) (r ∷ rs) top h a e =
        elim (Bool-cases (A.le r.usd_per_second k.usd_per_second)) [
          | inl keep ↦ dearest_All P (some k) rs top h a.1 (sym (kept keep) ∙ e)
          | inr rise ↦
              dearest_All P (some r) rs top (λ k q. subst P (some_inj q) a.0) a.1
                (sym (taken rise) ∙ e)
        ]
      where
        kept :
            A.le r.usd_per_second k.usd_per_second ≡ true
            → dearest_from A (dearer A (some k) r) rs ≡ dearest_from A (some k) rs
        kept q = rw q refl

        taken :
            A.le r.usd_per_second k.usd_per_second ≡ false
            → dearest_from A (dearer A (some k) r) rs ≡ dearest_from A (some r) rs
        taken q = rw q refl

    passed :
        (p : VideoRate A.F → Bool) (Q : VideoRate A.F → Type 0) (rs : List (VideoRate A.F))
        → ((r : VideoRate A.F) → p r ≡ true → Q r)
        → All Q (filter p rs)
    passed p Q [] h = tt
    passed p Q (r ∷ rs) h = elim (Bool-cases (p r)) [
      | inl q ↦ rw q (h r q, passed p Q rs h)
      | inr q ↦ rw q (passed p Q rs h)
    ]

    filter_elim :
        (p : VideoRate A.F → Bool) (Q : VideoRate A.F → Type 0) (rs : List (VideoRate A.F))
        → All Q (filter p rs)
        → All (λ r. p r ≡ true → Q r) rs
    filter_elim p Q [] a = tt
    filter_elim p Q (r ∷ rs) a = elim (Bool-cases (p r)) [
      | inl h ↦
          let b = subst (λ b. All Q (if b then r ∷ filter p rs else filter p rs)) h a in
          ((λ _. b.0), filter_elim p Q rs b.1)
      | inr h ↦
          let b = subst (λ b. All Q (if b then r ∷ filter p rs else filter p rs)) h a in
          ((λ q. absurd cc), filter_elim p Q rs b)
    ]

    -- What holds of every rate that passes holds of the dearest of them.
    dearest_passed :
        (p : VideoRate A.F → Bool) (Q : VideoRate A.F → Type 0) (rs : List (VideoRate A.F))
        (top : VideoRate A.F)
        → All Q (filter p rs)
        → dearest A (filter p rs) ≡ some top
        → Q top
    unfolding dearest
    dearest_passed p Q rs top a e = dearest_All Q none (filter p rs) top (λ k q. absurd cc) a e

    -- Each of a list is in the list.
    All-listed :
        (rs all_rates : List (VideoRate A.F))
        → ((r : VideoRate A.F) → Any (λ q. q ≡ r) rs → Any (λ q. q ≡ r) all_rates)
        → All (λ r. Any (λ q. q ≡ r) all_rates) rs
    All-listed [] all_rates within = tt
    All-listed (r ∷ rs) all_rates within =
        (within r (inl refl), All-listed rs all_rates (λ q a. within q (inr a)))

    quoted :
        (o : VideoOffer A.F) (shape : VideoShape) (e f : Option (VideoRate A.F))
        → All IsFiniteRate o.rates
        → dearest A (filter (has_frame shape) (filter (fits shape) o.rates)) ≡ e
        → dearest A (filter (fits shape) o.rates) ≡ f
        → IsQuoted shape o.rates (elim e [ some r ↦ some r | none ↦ f ])
    quoted o shape e f finite he hf = go e f he hf
      where
        fitting : List (VideoRate A.F)
        fitting = filter (fits shape) o.rates

        fitting-finite : All IsFiniteRate fitting
        fitting-finite = All-filter IsFiniteRate (fits shape) o.rates finite

        fitting-fits : All (λ r. fits shape r ≡ true) fitting
        fitting-fits = passed (fits shape) (λ r. fits shape r ≡ true) o.rates (λ r q. q)

        fitting-listed : All (λ r. Any (λ q. q ≡ r) o.rates) fitting
        fitting-listed =
            All-filter (λ r. Any (λ q. q ≡ r) o.rates) (fits shape) o.rates
              (All-listed o.rates o.rates (λ r a. a))

        go :
            (e f : Option (VideoRate A.F))
            → dearest A (filter (has_frame shape) fitting) ≡ e
            → dearest A fitting ≡ f
            → IsQuoted shape o.rates (elim e [ some r ↦ some r | none ↦ f ])
        go (some top) f he hf = (
          dearest_passed (has_frame shape) (λ r. Any (λ q. q ≡ r) o.rates) fitting top
              (All-filter (λ r. Any (λ q. q ≡ r) o.rates) (has_frame shape) fitting fitting-listed)
              he,
          dearest_passed (has_frame shape) (λ r. fits shape r ≡ true) fitting top
              (All-filter (λ r. fits shape r ≡ true) (has_frame shape) fitting fitting-fits) he,
          inl (
            dearest_passed (has_frame shape) (λ r. has_frame shape r ≡ true) fitting top
                (passed (has_frame shape) (λ r. has_frame shape r ≡ true) fitting (λ r q. q)) he,
            filter_elim (fits shape) (λ r. has_frame shape r ≡ true → IsBelow top r) o.rates
                (filter_elim (has_frame shape) (IsBelow top) fitting (
                  dearest_lem (filter (has_frame shape) fitting) top
                    (All-filter IsFiniteRate (has_frame shape) fitting fitting-finite) he)),
          ),
        )
        go none (some top) he hf = (
          dearest_passed (fits shape) (λ r. Any (λ q. q ≡ r) o.rates) o.rates top fitting-listed hf,
          dearest_passed (fits shape) (λ r. fits shape r ≡ true) o.rates top fitting-fits hf,
          inr (
            filter_elim (fits shape) (λ r. has_frame shape r ≡ false) o.rates
                (none_pass (has_frame shape) fitting (
                  dearest-none (filter (has_frame shape) fitting)
                    (All-filter IsFiniteRate (has_frame shape) fitting fitting-finite) he)),
            filter_elim (fits shape) (IsBelow top) o.rates
                (dearest_lem fitting top fitting-finite hf),
          ),
        )
        go none none he hf = none_pass (fits shape) o.rates (dearest-none fitting fitting-finite hf)

    -- For an offer whose rates are all finite, under an order that is reflexive and total on
    -- finite rates and transitive, rate_for finds no rate only if none fits the shape, and a
    -- rate that it finds is one of the offer's and fits the shape; it agrees on whether a first
    -- frame is sent and is at least every fitting rate that agrees too, or else no fitting rate
    -- agrees and it is at least every fitting rate.
    pub rate_for-IsQuoted :
        (o : VideoOffer A.F) (shape : VideoShape)
        → All IsFiniteRate o.rates
        → IsQuoted shape o.rates (rate_for A o shape)
    unfolding rate_for
    rate_for-IsQuoted o shape finite =
        quoted o shape (dearest A (filter (has_frame shape) (filter (fits shape) o.rates)))
          (dearest A (filter (fits shape) o.rates)) finite refl refl
