-- ===== src/Worker/Channels/Tests.antt =====
-- Runs and examples of channels.rs.
use rootmode.Prelude.{
  map, ℕ, ◌+◌, ◌≤◌, ◌≡◌, refl, Bool, true, false, List, [], ◌∷◌, ◌++◌, replicate, arith, some, none,
}
use rootmode.Prelude.Int.{pos}
use rootmode.Prelude.Bytes.{be_bytes, be_value}
use rootmode.Prelude.Text.{Text, text, utf8, strip_0x, text_eq, eq_ignore_ascii_case}
use rootmode.Prelude.Dict
use rootmode.Prelude.Result.{ok, err}
use rootmode.Core.Errors.{CoreError, Message}
use rootmode.Core.Fixtures.{toy}
use rootmode.Core.Payments.{
  Domain, word_u64, word_address, word_bytes32, separator_named, digest_of_named, digest_of,
  recover, address_of,
}
use rootmode.Core.Payments.SpendTicket.{SpendTicket}
use rootmode.Core.Payments.SpendingAuth
use rootmode.Core.Payments.SpendingAuth.{SpendingAuth}
use rootmode.Worker.Channels.{Channel, Channels, Refusal, accept, load, write, keep, channel_owed}
use rootmode.Worker.Channels.Entries.{IsValid, authorised_at, settled_at}
use rootmode.Worker.Channels.Steps.{Call, perform_all, perform_all-IsValid, perform_all-Rises}
use rootmode.Worker.Channels.Abstract.{Reaches, accounts}
use rootmode.Worker.Channels.Refines.{perform_all-refines}
use rootmode.Worker.Channels.Earnings.{earned_all, earned_all-le_signed, accept-owed}
use rootmode.Worker.Channels.Restart.{load-write}
use rootmode.Worker.Channels.Reserve.{accept_beyond_reserve, accept_twice}

abbrev payer : Text
payer = text "0x" ++ replicate 20 65

abbrev base : Domain
base = record { chain_id = 8453; verifying_contract = text "0x" ++ replicate 20 1 }

-- A signature by `payer`, in the stand-in for k256.
abbrev signed : Text
signed = replicate 44 7 ++ (replicate 20 65 ++ (27 ∷ []))

abbrev auth : ℕ → SpendingAuth
auth n = record {
  channel_id = replicate 32 5;
  client = payer;
  cumulative = n;
  metadata_hash = replicate 32 6;
  sig = some signed;
}

abbrev fresh : Channels
fresh = record { contract = text "0xc0"; open_channels = []; file = none }

auth_signer : SpendingAuth.recover toy (auth 100) base ≡ ok payer
unfolding SpendingAuth.recover digest_of digest_of_named separator_named word_address word_bytes32
    strip_0x word_u64 utf8 be_bytes be_value recover address_of
auth_signer = refl

accept_run : (accept toy fresh (auth 100) base (pos 1) true).0 ≡ ok 100
unfolding accept SpendingAuth.check digest_of digest_of_named separator_named word_address
    word_bytes32 strip_0x word_u64 utf8 be_bytes be_value recover address_of Dict.get
    eq_ignore_ascii_case
accept_run = refl

abbrev ticket : SpendTicket
ticket = record {
  client = payer;
  worker_payout = text "0x" ++ replicate 20 66;
  cumulative = 500;
  deadline = 77;
}

abbrev calls : List (Call × Bool)
calls =
    (Call.authorise (auth 100) (pos 1), true)
    ∷ (Call.bank ticket signed payer 20 (pos 2), false)
    ∷ (Call.settle (replicate 32 5) 60, true)
    ∷ (Call.authorise (auth 130) (pos 3), true)
    ∷ []

fresh-IsValid : IsValid fresh
fresh-IsValid = record { sorted = tt; entries = tt }

perform_all-IsValid_example : IsValid (perform_all toy base fresh calls)
perform_all-IsValid_example = perform_all-IsValid toy base fresh calls fresh-IsValid

perform_all-Rises_example :
    (authorised_at fresh (replicate 32 5)
      ≤ authorised_at (perform_all toy base fresh calls) (replicate 32 5))
    × (settled_at fresh (replicate 32 5)
        ≤ settled_at (perform_all toy base fresh calls) (replicate 32 5))
perform_all-Rises_example = perform_all-Rises toy base fresh calls (replicate 32 5)

earned_all-le_signed_example :
    earned_all toy base (replicate 32 5) fresh calls + authorised_at fresh (replicate 32 5)
    ≤ authorised_at (perform_all toy base fresh calls) (replicate 32 5)
earned_all-le_signed_example =
    earned_all-le_signed toy base fresh calls (replicate 32 5) (omega arith)

accept-owed_example :
    Dict.total channel_owed (accept toy fresh (auth 100) base (pos 1) true).1.open_channels
    ≡ Dict.total channel_owed fresh.open_channels + 100
accept-owed_example =
    accept-owed toy base fresh (auth 100) (pos 1) true 100 fresh-IsValid
      (unfold Dict.get in omega arith) accept_run

abbrev kept_channel : Channel
kept_channel = record {
  channel_id = replicate 32 5;
  client = payer;
  authorised = 100;
  reserved = 100;
  latest = auth 100;
  spend = some ticket;
  spend_sig = some signed;
  settled = 40;
  updated_at = pos 1;
  contract = text "0xC0";
}

abbrev ledger : Channels
ledger = record fresh { open_channels = (replicate 32 5, kept_channel) ∷ [] }

ledger-IsValid : IsValid ledger
ledger-IsValid = record {
  sorted = (tt, tt);
  entries = (record { keyed = refl; covered = omega arith }, tt);
}

load-write_example :
    (load (write true ledger).file ledger.contract 9 true).open_channels ≡ ledger.open_channels
load-write_example = load-write ledger 9 true ledger-IsValid (kept_run, tt)
  where
    kept_run : keep ledger.contract 9 kept_channel ≡ true
    kept_run = unfold keep eq_ignore_ascii_case in refl

ledger_get : Dict.get (replicate 32 5) ledger.open_channels ≡ some kept_channel
unfolding Dict.get text_eq
ledger_get = refl

payer_owns : eq_ignore_ascii_case payer payer ≡ true
unfolding eq_ignore_ascii_case
payer_owns = refl

auth_130_signer : SpendingAuth.recover toy (auth 130) base ≡ ok payer
unfolding SpendingAuth.recover digest_of digest_of_named separator_named word_address word_bytes32
    strip_0x word_u64 utf8 be_bytes be_value recover address_of
auth_130_signer = refl

accept_beyond_reserve_example : (accept toy ledger (auth 130) base (pos 2) true).0 ≡ ok 30
accept_beyond_reserve_example =
    accept_beyond_reserve toy base ledger (auth 130) (pos 2) true auth_130_signer payer_owns
      ledger_get payer_owns (omega arith) (omega arith)

accept_twice_example :
    let s' = (accept toy fresh (auth 100) base (pos 1) true).1 in
    accept toy s' (auth 100) base (pos 2) true
    ≡ (err (Refusal.core (CoreError.invalid (Message.must_rise 100 100))), s')
accept_twice_example = accept_twice toy base fresh (auth 100) (pos 1) (pos 2) true 100 accept_run

perform_all-refines_example :
    Reaches toy
      (text "0xc0")
      (map (λ c. c.0) calls)
      (accounts fresh)
      (accounts (perform_all toy base fresh calls))
perform_all-refines_example = perform_all-refines toy base fresh calls
