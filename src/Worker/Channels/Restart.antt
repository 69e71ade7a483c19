-- ===== src/Worker/Channels/Restart.antt =====
-- `load` of channels.rs: what a start reads from the ledger file.
use mathlib.Core.List.{append-nil, append_assoc}
use rootmode.Prelude.{
  ℕ, ◌+◌, ◌%◌, ◌^◌, ◌≡◌, refl, sym, ap, ltb, ◌∙◌, Bool, true, Option, none, some, List, [], ◌∷◌,
  ◌++◌, All, Bool-cases, inl, inr,
}
use rootmode.Prelude.Text.{Text}
use rootmode.Prelude.Dict
use rootmode.Prelude.Dict.{
  Dict, IsSorted, insert-IsSorted, All-insert, insert_last, before_of_sorted,
}
use rootmode.Worker.Channels.{Channel, Channels, keep, collect, load, write}
use rootmode.Worker.Channels.Entries.{IsEntry, IsValid, write-open}

-- A loaded entry stands under its own id, and passes the filter.
pub record IsKept (contract : Text) (now : ℕ) (e : Text × Channel) : Type 0 where
  pub keyed : e.1.channel_id ≡ e.0
  pub kept : keep contract now e.1 ≡ true

pub record IsLoaded (contract : Text) (now : ℕ) (m : Dict Channel) : Type 0 where
  pub sorted : IsSorted m
  pub entries : All (IsKept contract now) m

collect-IsLoaded :
    (contract : Text) (now : ℕ) (acc : Dict Channel) (left : ℕ) (cs : List Channel)
    → IsLoaded contract now acc
    → IsLoaded contract now (collect contract now acc left cs).0
unfolding collect
collect-IsLoaded contract now acc left [] h = h
collect-IsLoaded contract now acc left (c ∷ cs) h = elim (Bool-cases (keep contract now c)) [
  | inl kept ↦
      rw (kept, collect)
        (collect-IsLoaded contract now (Dict.insert c.channel_id c acc) left cs (record {
          sorted = insert-IsSorted c.channel_id c acc h.sorted;
          entries =
              All-insert (IsKept contract now) c.channel_id c acc
                (record { keyed = refl; kept = kept }) h.entries;
        }))
  | inr dropped ↦
      rw (dropped, collect) (collect-IsLoaded contract now acc ((left + 1) % 2 ^ 32) cs h)
]

-- Whatever the ledger file holds, the ledger that load makes of it is sorted by id, and each of
-- its entries stands under its own id and passed the filter for the contract and the time.
pub load-IsLoaded :
    (file : Option (List Channel)) (contract : Text) (now : ℕ) (saved : Bool)
    → IsLoaded contract now (load file contract now saved).open_channels
unfolding load
load-IsLoaded none contract now saved = record { sorted = tt; entries = tt }
load-IsLoaded (some cs) contract now saved =
    let h = collect-IsLoaded contract now [] 0 cs (record { sorted = tt; entries = tt }) in
    elim (Bool-cases (ltb 0 (collect contract now [] 0 cs).1)) [
      | inl some_left ↦ rw some_left (rw write-open h)
      | inr none_left ↦ rw none_left h
    ]

-- Entries that are all kept, in the order of their keys, are collected as they are.
collect_kept :
    (contract : Text) (now : ℕ) (acc m : Dict Channel) (left : ℕ)
    → IsSorted (acc ++ m)
    → All (IsKept contract now) m
    → collect contract now acc left (Dict.values m) ≡ (acc ++ m, left)
unfolding collect
collect_kept contract now acc [] left hs h = ap (λ l. (l, left)) (sym (append-nil acc))
collect_kept contract now acc ((k, c) ∷ m) left hs h =
    let goes_last : Dict.insert c.channel_id c acc ≡ acc ++ (k, c) ∷ [] =
      ap (λ i. Dict.insert i c acc) h.0.keyed
      ∙ insert_last k c acc (before_of_sorted k c acc m hs) in
    let regrouped : (acc ++ (k, c) ∷ []) ++ m ≡ acc ++ (k, c) ∷ m =
      append_assoc acc ((k, c) ∷ []) m in
    rw (h.0.kept, goes_last, collect)
      (collect_kept contract now (acc ++ (k, c) ∷ []) m left (rw regrouped hs) h.1
        ∙ ap (λ l. (l, left)) regrouped)

-- A ledger whose entries are sorted and stand under their own ids, and whose entries all pass
-- the filter of load for its own contract at the time of the start, is read back whole from the
-- file that write makes of it.
pub load-write :
    (s : Channels) (now : ℕ) (saved : Bool)
    → IsValid s
    → All (λ e. keep s.contract now e.1 ≡ true) s.open_channels
    → (load (write true s).file s.contract now saved).open_channels ≡ s.open_channels
unfolding load write
load-write s now saved v h = rw (
    collect_kept s.contract now [] s.open_channels 0 v.sorted
      (kept_entries s.open_channels v.entries h))
  where
    kept_entries :
        (m : Dict Channel)
        → All IsEntry m
        → All (λ e. keep s.contract now e.1 ≡ true) m
        → All (IsKept s.contract now) m
    kept_entries [] he hk = tt
    kept_entries (e ∷ m) he hk =
        (record { keyed = he.0.keyed; kept = hk.0 }, kept_entries m he.1 hk.1)
