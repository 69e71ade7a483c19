-- ===== src/Worker/Channels/Abstract.antt =====
-- What channels.rs promises its callers, without signatures, files and the order of the entries: for
-- each channel the amounts authorised and settled, and what a call may do to them.
use mathlib.Core.Option
use rootmode.Prelude.{
  ◌≤◌, ◌<◌, ◌≡◌, Option, none, some, List, [], ◌∷◌, max, saturating_add, if◌then◌else◌,
}
use rootmode.Prelude.Text.{Text, text_eq, to_lowercase}
use rootmode.Prelude.Dict
use rootmode.Core.Externals.{Externals}
use rootmode.Core.Payments.{Micros, channel_id}
use rootmode.Worker.Channels.{Channel, Channels}
use rootmode.Worker.Channels.Steps.{Call}

pub record Account : Type 0 where
  pub authorised : Micros
  pub settled : Micros

abbrev pub Accounts : Type 0
Accounts = Text → Option Account

abbrev pub authorised_in : Accounts → Text → Micros
authorised_in v id = elim (v id) [ none ↦ 0 | some a ↦ a.authorised ]

abbrev pub settled_in : Accounts → Text → Micros
settled_in v id = elim (v id) [ none ↦ 0 | some a ↦ a.settled ]

-- The amounts that the ledger holds.
abbrev pub accounts : Channels → Accounts
accounts s id =
    Option.map {A = Channel} (λ c. record { authorised = c.authorised; settled = c.settled })
      (Dict.get id s.open_channels)

abbrev pub signed : Accounts → Text → Micros → Accounts
signed v id n j =
    if text_eq id j then some (record { authorised = n; settled = settled_in v id }) else v j

module _ (X : Externals) (contract : Text) where
  -- The channel that a call is about.
  abbrev pub channel_of : Call → Text
  channel_of (Call.authorise auth now) = auth.channel_id
  channel_of (Call.bank t sig key delta now) =
      channel_id X t.client t.worker_payout (to_lowercase X.unicode_lowercase contract)
  channel_of (Call.settle id upto) = id

  -- When a call may have an effect.
  abbrev pub IsPermitted : Call → Accounts → Type 0
  IsPermitted (Call.authorise auth now) v = authorised_in v auth.channel_id < auth.cumulative
  IsPermitted (Call.bank t sig key delta now) v =
      let id = channel_of (Call.bank t sig key delta now) in
      (authorised_in v id < t.cumulative)
      × (saturating_add (authorised_in v id) delta ≤ t.cumulative)
  IsPermitted (Call.settle id upto) v = Unit

  -- The effect of a call that is not refused.
  abbrev pub effect : Call → Accounts → Accounts
  effect (Call.authorise auth now) v j = signed v auth.channel_id auth.cumulative j
  effect (Call.bank t sig key delta now) v j =
      signed v (channel_of (Call.bank t sig key delta now)) t.cumulative j
  effect (Call.settle id upto) v j =
      if text_eq id j
      then Option.map {A = Account} (λ a. record a { settled = max a.settled upto }) (v j)
      else v j

  -- A call is refused and changes nothing, or it has its effect.
  pub data Step (c : Call) (v w : Accounts) : Type 0 where
    refused : ((j : Text) → w j ≡ v j) → Step c v w
    done : IsPermitted c v → ((j : Text) → w j ≡ effect c v j) → Step c v w

  pub data Reaches : List Call → Accounts → Accounts → Type 0 where
    end : {v : Accounts} → Reaches [] v v
    next :
        {c : Call} {cs : List Call} {u v w : Accounts}
        → Step c u v
        → Reaches cs v w
        → Reaches (c ∷ cs) u w
