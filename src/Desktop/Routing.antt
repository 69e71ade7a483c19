-- ===== src/Desktop/Routing.antt =====
-- apps/desktop/src-tauri/src/routing.rs: which provider is asked for a model, and `Peer` of store.rs.
-- The draws of the random generator are a function of their number.
mod Cheapest
mod Retries
mod Tests
use Prim.Native.Nat.{Ordering, compare}
use rootmode.Prelude.{
  ℕ, ◌+◌, ◌%◌, ◌^◌, Bool, true, false, not, ◌&&◌, ◌||◌, Option, none, some, List, [], ◌∷◌, ◌++◌,
  map, ltb, ◌==◌, if◌then◌else◌,
}
use rootmode.Prelude.Sort.{then_with, sort_by}
use rootmode.Prelude.Text.{Text, text, text_eq, text_lt}
use rootmode.Prelude.Strings.{starts_with}
use rootmode.Core.Floats.{FloatApi}
use rootmode.Core.Job.{JobKind}
use rootmode.Core.Price.{Price, is_free}
use rootmode.Core.Video.{VideoOffer, find, filter}
use rootmode.Core.Protocol.{ModelDescriptor, model_amount}

pub record Peer (F : Type 0) : Type 0 where
  pub id : Text
  pub label : Text
  pub country : Option Text
  pub payout : Option Text
  pub endpoint : Text
  pub public_key : Option Text
  pub peer_id : Option Text
  pub status : Text
  pub latency_ms : Option ℕ
  pub caps : List Text
  pub models : List (ModelDescriptor F)
  pub max_concurrent : ℕ
  pub last_seen : Option ℕ
  pub last_error : Option Text
  pub source : Text
  pub added_at : ℕ

pub record ModelOption (F : Type 0) : Type 0 where
  pub model : Text
  pub kind : JobKind
  pub providers : ℕ
  pub peer_id : Text
  pub peer_label : Text
  pub price : F
  pub currency : Text
  pub latency_ms : Option ℕ
  pub unpriced : Bool

pub record ProviderOption (F : Type 0) : Type 0 where
  pub model : Text
  pub kind : JobKind
  pub peer_id : Text
  pub peer_label : Text
  pub peer_country : Option Text
  pub price : F
  pub currency : Text
  pub unpriced : Bool
  pub latency_ms : Option ℕ
  pub video : Option (VideoOffer F)

pub record Fallback : Type 0 where
  pub peer_id : Text
  pub peer_label : Text
  pub model : Text

abbrev pub same_kind : JobKind → JobKind → Bool
same_kind JobKind.llm JobKind.llm = true
same_kind JobKind.llm JobKind.image = false
same_kind JobKind.llm JobKind.video = false
same_kind JobKind.image JobKind.image = true
same_kind JobKind.image JobKind.llm = false
same_kind JobKind.image JobKind.video = false
same_kind JobKind.video JobKind.video = true
same_kind JobKind.video JobKind.llm = false
same_kind JobKind.video JobKind.image = false

abbrev pub is_online : {F : Type 0} → Peer F → Bool
is_online p = text_eq p.status (text "online")

-- The two loops over the peers and their models, as the list of what they meet.
abbrev pub meet :
    {F : Type 0} → JobKind → Peer F → List (ModelDescriptor F) → List (Peer F × ModelDescriptor F)
meet kind p [] = []
meet kind p (m ∷ ms) =
    let rest = meet kind p ms in if same_kind m.kind kind then (p, m) ∷ rest else rest

unfoldable pub offers :
    {F : Type 0} → (Peer F → Bool) → JobKind → List (Peer F) → List (Peer F × ModelDescriptor F)
offers test kind [] = []
offers test kind (p ∷ ps) =
    let rest = offers test kind ps in if test p then meet kind p p.models ++ rest else rest

unfoldable pub serves : {F : Type 0} → ModelDescriptor F → Text → Bool
unfolding starts_with text_eq
serves m model = text_eq m.id model || starts_with model m.id

abbrev pub compare_text : Text → Text → Ordering
compare_text a b =
    if text_lt a b then Ordering.lt else if text_lt b a then Ordering.gt else Ordering.eq

module _ (A : FloatApi) where
  -- `partial_cmp(..).unwrap_or(Equal)`
  abbrev pub compare_price : A.F → A.F → Ordering
  compare_price a b =
      if A.lt a b then Ordering.lt else if A.lt b a then Ordering.gt else Ordering.eq

  abbrev pub currency_of : Option (Price A.F) → Text
  currency_of none = text "USD"
  currency_of (some p) = p.currency

  abbrev pub is_unpriced : Option (Price A.F) → Bool
  is_unpriced none = true
  is_unpriced (some p) = is_free A p

  unfoldable pub candidate : Peer A.F × ModelDescriptor A.F → ModelOption A.F
  unfolding model_amount
  candidate (p, m) = record {
    model = m.id;
    kind = m.kind;
    providers = 1;
    peer_id = p.id;
    peer_label = p.label;
    price = model_amount A m;
    currency = currency_of m.price;
    latency_ms = p.latency_ms;
    unpriced = is_unpriced m.price;
  }

  -- An option with the number of providers that tie for its price, where the program keeps that
  -- number in a map by the model.
  abbrev pub Tied : Type 0
  Tied = ModelOption A.F × ℕ

  -- The held option against a newcomer, and the draws that are used up.
  unfoldable pub contend : (ℕ → ℕ → ℕ) → ℕ → ModelOption A.F → Tied → Tied × ℕ
  contend gen_range k new (old, ties) =
      let providers = (old.providers + 1) % 2 ^ 32 in
      if A.lt new.price old.price
      then ((record new { providers = providers }, 1), k)
      else if A.eq new.price old.price
      then (
        (
          record (if gen_range k (ties + 1) == 0 then new else old) { providers = providers },
          ties + 1,
        ),
        k + 1,
      )
      else ((record old { providers = providers }, ties), k)

  unfoldable pub offer_to : (ℕ → ℕ → ℕ) → ℕ → ModelOption A.F → List Tied → List Tied × ℕ
  unfolding contend text_eq
  offer_to gen_range k new [] = ((new, 1) ∷ [], k)
  offer_to gen_range k new (t ∷ ts) =
      let (rest, k_rest) = offer_to gen_range k new ts in
      let (won, k_won) = contend gen_range k new t in
      if text_eq t.0.model new.model then (won ∷ ts, k_won) else (t ∷ rest, k_rest)

  unfoldable pub collect_options :
      (ℕ → ℕ → ℕ) → ℕ → List Tied → List (Peer A.F × ModelDescriptor A.F) → List Tied
  unfolding offer_to candidate
  collect_options gen_range k options [] = options
  collect_options gen_range k options (o ∷ os) =
      let (options, k) = offer_to gen_range k (candidate o) options in
      collect_options gen_range k options os

  unfoldable pub model_options : (ℕ → ℕ → ℕ) → List (Peer A.F) → JobKind → List (ModelOption A.F)
  unfolding collect_options offers sort_by
  model_options gen_range peers kind =
      sort_by (λ a b. then_with (compare_price a.price b.price) (compare_text a.model b.model))
        (map (λ t. t.0) (collect_options gen_range 0 [] (offers is_online kind peers)))

  unfoldable pub provider_option : Peer A.F × ModelDescriptor A.F → ProviderOption A.F
  unfolding model_amount
  provider_option (p, m) = record {
    model = m.id;
    kind = m.kind;
    peer_id = p.id;
    peer_label = p.label;
    peer_country = p.country;
    price = model_amount A m;
    currency = currency_of m.price;
    unpriced = is_unpriced m.price;
    latency_ms = p.latency_ms;
    video = m.video;
  }

  unfoldable pub provider_options : List (Peer A.F) → JobKind → List (ProviderOption A.F)
  unfolding provider_option offers sort_by
  provider_options peers kind =
      sort_by
        (λ a b.
          then_with (then_with (compare_price a.price b.price) (compare_text a.model b.model))
            (compare_text a.peer_label b.peer_label))
        (map provider_option (offers is_online kind peers))

  unfoldable pub provider_for :
      (ℕ → ℕ → ℕ) → List (Peer A.F) → JobKind → Text → Option (ModelOption A.F)
  unfolding model_options text_eq
  provider_for gen_range peers kind model =
      find (λ o. text_eq o.model model) (model_options gen_range peers kind)

  -- The price of the first choice, or zero.
  unfoldable pub first_price : List (Peer A.F) → JobKind → Text → Text → A.F
  unfolding serves model_amount text_eq
  first_price peers kind model first_peer_id = elim (find (λ p. text_eq p.id first_peer_id) peers) [
    | none ↦ A.of_ℕ 0
    | some p ↦ elim (find (λ m. same_kind m.kind kind && serves m model) p.models) [
      | none ↦ A.of_ℕ 0
      | some m ↦ model_amount A m
    ]
  ]

  -- A fallback with its price and its draw.
  pub record Drawn : Type 0 where
    pub price : A.F
    pub draw : ℕ
    pub fallback : Fallback

  pub record Found : Type 0 where
    pub same : List Drawn
    pub other_free : List Drawn
    pub draws : ℕ

  abbrev pub draw_next : (ℕ → ℕ) → Found → Peer A.F × ModelDescriptor A.F → Drawn
  draw_next gen f (p, m) = record {
    price = model_amount A m;
    draw = gen f.draws;
    fallback = record { peer_id = p.id; peer_label = p.label; model = m.id };
  }

  -- One round of the inner loop.
  unfoldable pub consider :
      (ℕ → ℕ) → JobKind → Text → A.F → Found → Peer A.F × ModelDescriptor A.F → Found
  unfolding serves model_amount
  consider gen kind model first f (p, m) =
      if serves m model
      then (if A.le (model_amount A m) first
          then record f { same = f.same ++ draw_next gen f (p, m) ∷ []; draws = f.draws + 1 }
          else f)
      else if A.le first (A.of_ℕ 0)
          && A.le (model_amount A m) (A.of_ℕ 0)
          && same_kind kind JobKind.llm
      then record f {
        other_free = f.other_free ++ draw_next gen f (p, m) ∷ [];
        draws = f.draws + 1;
      }
      else f

  unfoldable pub consider_all :
      (ℕ → ℕ) → JobKind → Text → A.F → Found → List (Peer A.F × ModelDescriptor A.F) → Found
  unfolding consider
  consider_all gen kind model first f [] = f
  consider_all gen kind model first f (o ∷ os) =
      consider_all gen kind model first (consider gen kind model first f o) os

  unfoldable pub fallbacks : (ℕ → ℕ) → List (Peer A.F) → JobKind → Text → Text → List Fallback
  unfolding consider_all first_price offers sort_by text_eq
  fallbacks gen peers kind model first_peer_id =
      let f =
        consider_all gen kind model (first_price peers kind model first_peer_id)
          (record { same = []; other_free = []; draws = 0 })
          (offers (λ p. is_online p && not (text_eq p.id first_peer_id)) kind peers) in
      map (λ d. d.fallback)
        (sort_by (λ a b. then_with (compare_price a.price b.price) (compare a.draw b.draw)) f.same)
      ++ map (λ d. d.fallback) (sort_by (λ a b. compare a.draw b.draw) f.other_free)
