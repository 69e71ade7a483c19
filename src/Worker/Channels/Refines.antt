-- ===== src/Worker/Channels/Refines.antt =====
-- The ledger of channels.rs does to the amounts what Abstract.antt allows.
use mathlib.Core.Option
use rootmode.Prelude.{
  ℕ, ◌≡◌, refl, ap, subst, Bool, true, false, Bool-cases, inl, inr, Option, none, some, List, [],
  ◌∷◌, map, max, if◌then◌else◌,
}
use rootmode.Prelude.Int.{ℤ}
use rootmode.Prelude.Text.{Text, text_eq}
use rootmode.Prelude.Dict
use rootmode.Prelude.Result.{Result, ok, err}
use rootmode.Core.Externals.{Externals}
use rootmode.Core.Payments.{Micros, Domain}
use rootmode.Core.Payments.SpendTicket.{SpendTicket}
use rootmode.Core.Payments.SpendingAuth.{SpendingAuth}
use rootmode.Worker.Channels.{
  Channel, Channels, Refusal, accept, accept_check, accepted, accept_spend, accept_spend_check,
  banked, settled, id_for, write, field_or,
}
use rootmode.Worker.Channels.Operations.{
  Accepts, accept-Accepts, Banks, accept_spend-Banks, settled-get,
}
use rootmode.Worker.Channels.Steps.{Call, perform, perform_all}
use rootmode.Worker.Channels.Abstract.{
  Account, Step, Reaches, accounts, authorised_in, settled_in, signed,
}

-- What the accounts keep of an entry.
abbrev account : Channel → Account
account c = record { authorised = c.authorised; settled = c.settled }

module _ (X : Externals) (d : Domain) where
  write-contract : (saved : Bool) (s : Channels) → (write saved s).contract ≡ s.contract
  unfolding write
  write-contract true s = refl
  write-contract false s = refl

  answered-contract :
      {A B : Type 0} (s s' : Channels) (f : A → B) (r : Result Refusal A)
      → s'.contract ≡ s.contract
      → (let p : Result Refusal B × Channels = elim r [
        | err e ↦ (err e, s)
        | ok a ↦ (ok (f a), s')
      ] in
          p.1.contract ≡ s.contract)
  answered-contract s s' f (err e) h = refl
  answered-contract s s' f (ok a) h = h

  perform-contract : (s : Channels) (c : Call × Bool) → (perform X d s c).contract ≡ s.contract
  unfolding perform settled accept accept_spend
  perform-contract s (Call.authorise auth now, saved) =
      answered-contract s _ (λ earned. earned) (accept_check X s auth d) (write-contract saved _)
  perform-contract s (Call.bank t sig key delta now, saved) =
      answered-contract s _ (λ _. delta) (accept_spend_check X s t sig d key delta now)
        (write-contract saved _)
  perform-contract s (Call.settle id upto, saved) = write-contract saved _

  authorised-eq :
      (s : Channels) (id : Text)
      → authorised_in (accounts s) id ≡ field_or (λ c. c.authorised) 0 (Dict.get id s.open_channels)
  authorised-eq s id = go (Dict.get id s.open_channels)
    where
      go :
          (o : Option Channel)
          → (elim (Option.map {A = Channel} account o) [ none ↦ 0 | some a ↦ a.authorised ])
            ≡ field_or (λ c. c.authorised) 0 o
      go none = refl
      go (some c) = refl

  -- An entry that is replaced by a signed one.
  signed-eq :
      (s s' : Channels) (id : Text) (c : Channel)
      → c.settled ≡ settled_in (accounts s) id
      → ((j : Text)
          → Dict.get j s'.open_channels
            ≡ (if text_eq id j then some c else Dict.get j s.open_channels))
      → (j : Text) → accounts s' j ≡ signed (accounts s) id c.authorised j
  signed-eq s s' id c e h j = elim (Bool-cases (text_eq id j)) [
    | inl same ↦ rw (h j, same, e) refl
    | inr other ↦ rw (h j, other) refl
  ]

  settled-eq :
      (s : Channels) (id : Text)
      → field_or (λ c. c.settled) 0 (Dict.get id s.open_channels) ≡ settled_in (accounts s) id
  settled-eq s id = go (Dict.get id s.open_channels)
    where
      go :
          (o : Option Channel)
          → field_or (λ c. c.settled) 0 o
            ≡ (elim (Option.map {A = Channel} account o) [ none ↦ 0 | some a ↦ a.settled ])
      go none = refl
      go (some c) = refl

  Accepts-Step :
      (s : Channels) (auth : SpendingAuth) (now : ℤ) (r : Result Refusal Micros × Channels)
      → Accepts X s auth now r
      → Step X s.contract (Call.authorise auth now) (accounts s) (accounts r.1)
  unfolding accepted
  Accepts-Step s auth now (err e, s') h = Step.refused (λ j. ap (λ x. accounts x j) h)
  Accepts-Step s auth now (ok earned, s') h =
      Step.done (rw (authorised-eq s auth.channel_id) (h.0))
        (signed-eq s s' auth.channel_id (accepted X s auth now) (settled-eq s auth.channel_id) h.2)

  Banks-Step :
      (s : Channels) (t : SpendTicket) (sig key : Text) (delta : ℕ) (now : ℤ)
      (r : Result Refusal Micros × Channels)
      → Banks X s t sig delta now r
      → Step X s.contract (Call.bank t sig key delta now) (accounts s) (accounts r.1)
  unfolding banked id_for
  Banks-Step s t sig key delta now (err e, s') h = Step.refused (λ j. ap (λ x. accounts x j) h)
  Banks-Step s t sig key delta now (ok earned, s') h =
      let id = id_for X s t.client t.worker_payout in
      Step.done (rw (authorised-eq s id) (h.1, h.2))
        (signed-eq s s' id (banked X s t sig now) (settled-eq s id) h.3)

  raised :
      (upto : ℕ) (o : Option Channel)
      → Option.map {A = Channel} account
          (Option.map {A = Channel} (λ c. record c { settled = max c.settled upto }) o)
        ≡ Option.map {A = Account}
            (λ a. record a { settled = max a.settled upto })
            (Option.map {A = Channel} account o)
  raised upto none = refl
  raised upto (some c) = refl

  settled-Step :
      (s : Channels) (id : Text) (upto : ℕ) (saved : Bool)
      → Step X s.contract (Call.settle id upto) (accounts s) (accounts (settled s id upto saved))
  settled-Step s id upto saved = Step.done tt (λ j. elim (Bool-cases (text_eq id j)) [
    | inl same ↦ rw (settled-get s id j upto saved, same) (raised upto (Dict.get j s.open_channels))
    | inr other ↦ rw (settled-get s id j upto saved, other) refl
  ])

  perform-Step :
      (s : Channels) (c : Call × Bool)
      → Step X s.contract c.0 (accounts s) (accounts (perform X d s c))
  unfolding perform
  perform-Step s (Call.authorise auth now, saved) =
      Accepts-Step s auth now _ (accept-Accepts X s auth d now saved)
  perform-Step s (Call.bank t sig key delta now, saved) =
      Banks-Step s t sig key delta now _ (accept_spend-Banks X s t sig d key delta now saved)
  perform-Step s (Call.settle id upto, saved) = settled-Step s id upto saved

  -- Every sequence of calls that authorise, bank and settle takes the amounts authorised and
  -- settled on the channels through a run of the abstract ledger: each call is refused and
  -- changes no amount, or it sets the total of its own channel, which is above what was
  -- authorised there and, for a bill, at least the saturating sum of that and the price, or it
  -- raises what is settled on a known channel to the amount given if that is more; no other
  -- channel changes.
  pub perform_all-refines :
      (s : Channels) (cs : List (Call × Bool))
      → Reaches X s.contract (map (λ c. c.0) cs) (accounts s) (accounts (perform_all X d s cs))
  unfolding perform_all
  perform_all-refines s [] = Reaches.end
  perform_all-refines s (c ∷ cs) = Reaches.next (perform-Step s c) (
      subst
        (λ k.
          Reaches X k (map (λ x. x.0) cs) (accounts (perform X d s c))
            (accounts (perform_all X d s (c ∷ cs))))
        (perform-contract s c) (perform_all-refines (perform X d s c) cs))
