-- ===== src/Worker/Channels/Entries.antt =====
-- What a well-formed ledger of channels.rs is, and the amounts that are read from it.
use rootmode.Prelude.{ℕ, ◌≤◌, ◌≡◌, refl, Bool, true, false, some, All}
use rootmode.Prelude.Text.{Text}
use rootmode.Prelude.Dict
use rootmode.Prelude.Dict.{Dict, IsSorted, All-get}
use rootmode.Worker.Channels.{Channel, Channels, field_or, write}

-- An entry stands under its own id, and no more is authorised on it than is reserved.
pub record IsEntry (e : Text × Channel) : Type 0 where
  pub keyed : e.1.channel_id ≡ e.0
  pub covered : e.1.authorised ≤ e.1.reserved

pub record IsValid (s : Channels) : Type 0 where
  pub sorted : IsSorted s.open_channels
  pub entries : All IsEntry s.open_channels

-- What is authorised, and what is settled, on the channel of an id.
abbrev pub authorised_at : Channels → Text → ℕ
authorised_at s id = field_or (λ c. c.authorised) 0 (Dict.get id s.open_channels)

abbrev pub settled_at : Channels → Text → ℕ
settled_at s id = field_or (λ c. c.settled) 0 (Dict.get id s.open_channels)

-- Writing the file changes nothing in memory.
pub write-open : (saved : Bool) (s : Channels) → (write saved s).open_channels ≡ s.open_channels
unfolding write
write-open true s = refl
write-open false s = refl

pub write-IsValid : (saved : Bool) (s : Channels) → IsValid s → IsValid (write saved s)
unfolding write
write-IsValid true s h = record { sorted = h.sorted; entries = h.entries }
write-IsValid false s h = h

pub authorised-le-reserved :
    (s : Channels) (id : Text) (c : Channel)
    → IsValid s
    → Dict.get id s.open_channels ≡ some c
    → c.authorised ≤ c.reserved
authorised-le-reserved s id c h e = (All-get IsEntry id c s.open_channels h.entries e).covered
