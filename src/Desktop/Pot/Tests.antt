-- ===== src/Desktop/Pot/Tests.antt =====
-- Runs and examples of pot.rs.
use rootmode.Prelude.{
  ℕ, ◌≡◌, refl, true, false, [], ◌∷◌, ◌++◌, replicate, length, arith, some, none,
}
use rootmode.Prelude.Bytes.{Bytes, be_bytes, be_value}
use rootmode.Prelude.Text.{
  Text, text, text_eq, utf8, utf8_char, trim_0x, strip_0x, to_lowercase, ascii_lower,
}
use rootmode.Prelude.Strings.{starts_with, from_dec, dec_digits, split_once}
use rootmode.Prelude.Dict
use rootmode.Prelude.Dict.{Dict}
use rootmode.Prelude.Result.{ok, err}
use rootmode.Core.Floats.{whole_floats}
use rootmode.Core.Json.{trees, Tree}
use rootmode.Core.Fixtures.{toy}
use rootmode.Core.Job.{JobKind, JobPayload}
use rootmode.Core.Price.{Price}
use rootmode.Core.Payments.{word_u64, word_address, separator_named, digest_of_named}
use rootmode.Core.Payments.SpendTicket
use rootmode.Core.Payments.SpendTicket.{SpendTicket}
use rootmode.Core.Protocol.{JobPay, JobInvoice}
use rootmode.Core.Tokens.Measure.{Tokenizer}
use rootmode.Worker.Chain.Client.{Signer}
use rootmode.Desktop.Pot.{
  Pot, PendingJob, ChainConfig, ChannelSnap, Refused, snap_remaining, cached_cumulative,
  authorised_so_far, channel_key, addr_key, sign_latest, persist, cap_of,
}
use rootmode.Desktop.Pot.Addresses.{authorised_in, fund_rpc_allowed}
use rootmode.Desktop.Pot.Locks.{
  Account, Plan, reserve_extra, plan_ticket, job_cap, job_lock_micros, lock_micros,
  worst_case_micros, flat_lock, chunk_of, raises_cap,
}
use rootmode.Desktop.Pot.Locks.Covers.{IsCovered, plan_ticket-IsCovered}
use rootmode.Desktop.Pot.Invoices.{
  SpendEntry, pay_invoice, check_invoice, check_bill, fair_price, flat_price, extra_of, invoiced,
  invoice_entry,
}
use rootmode.Desktop.Pot.Invoices.Bills.{pay_invoice_once}

reads_total :
    authorised_in (text "by only $0.0003 (already authorised 8064009), and") ≡ some 8064009
unfolding authorised_in starts_with from_dec dec_digits
reads_total = refl

reads_none : authorised_in (text "already authorised 0") ≡ none
unfolding authorised_in starts_with from_dec dec_digits
reads_none = refl

no_signing : fund_rpc_allowed (text "eth_signTypedData") ≡ false
unfolding fund_rpc_allowed utf8 utf8_char split_once text_eq starts_with
no_signing = refl

reading : fund_rpc_allowed (text "eth_getBalance") ≡ true
unfolding fund_rpc_allowed utf8 utf8_char split_once text_eq starts_with
reading = refl

headroom : reserve_extra 1000000 280000 5000000 false ≡ 2000000
unfolding reserve_extra
headroom = refl

enough : reserve_extra 10000000 280000 5000000 false ≡ 0
unfolding reserve_extra
enough = refl

abbrev tree_tokens : Tokenizer Tree
tree_tokens = record {
  Bpe = Unit {0};
  encoding_for = λ m. tt;
  count_ordinary = λ b t. length t;
  to_string = λ v. [];
}

abbrev price : Price ℕ
price = record {
  amount = 2;
  currency = text "USD";
  input = none;
  output = none;
  cache = none;
  cache_write = none;
}

abbrev clip : JobPayload ℕ Tree
clip = JobPayload.video (record {
  model_hash = none;
  checkpoint_id = none;
  prompt = text "a cat";
  from_image = none;
  seconds = none;
  resolution = none;
  aspect_ratio = none;
  audio = none;
})

abbrev account : Account whole_floats trees tree_tokens
account = record { max_per_job_micros = 3000000; balance_micros = 9000000 }

abbrev snap : ChannelSnap
snap = record { reserved = 500000; paid = 100; earned = 400; max_per_job = 0 }

abbrev plan : Plan whole_floats trees tree_tokens
plan = record { need = 2000000; cumulative = 2000700; lock_need = 2000300; extra = 7501600 }

plans :
    plan_ticket whole_floats trees tree_tokens price JobKind.video clip account snap 700 ≡ ok plan
unfolding plan_ticket job_cap job_lock_micros lock_micros worst_case_micros flat_lock chunk_of
    raises_cap cap_of reserve_extra snap_remaining
plans = refl

plan_ticket-IsCovered_example : IsCovered whole_floats trees tree_tokens account snap plan
plan_ticket-IsCovered_example =
    plan_ticket-IsCovered whole_floats trees tree_tokens price JobKind.video clip account snap 700
      plan plans (omega arith) (omega arith)

abbrev toy_signer : Signer toy
toy_signer = record {
  SigningKey = Bytes;
  from_bytes = λ b. some b;
  verifying_key = λ k. k;
  sign_prehash = λ k b. some (replicate 64 1, 0);
}

abbrev base : ChainConfig
base = record { chain_id = 8453; pot = text "0x" ++ replicate 20 1 }

abbrev client : Text
client = text "0x" ++ replicate 20 65

abbrev worker : Text
worker = text "0x" ++ replicate 20 66

abbrev job : PendingJob ℕ
job = record {
  price = price;
  kind = JobKind.video;
  paid = false;
  sha256 = none;
  ceiling = 2000000;
  job_cap = 2000000;
  cost = none;
  model = text "clips";
  peer = text "spark";
  payout = worker;
  bond_cumulative = 2000700;
}

abbrev pot : Pot ℕ
pot = record { jobs = (text "j", job) ∷ []; latest = []; file = none }

abbrev invoice : JobInvoice
invoice = record {
  v = 1;
  job_id = text "j";
  amount = 1500000;
  sha256 = text "ab";
  prompt_tokens = 0;
  completion_tokens = 0;
  cached_tokens = 0;
  top_up = false;
}

abbrev again : JobInvoice
again = record invoice { amount = 20 }

abbrev ticket : SpendTicket
ticket = record { client = client; worker_payout = worker; cumulative = 1500400; deadline = 3605 }

abbrev pay : JobPay
pay = record {
  v = 1;
  job_id = text "j";
  ticket = ticket;
  sig = text "0x" ++ replicate 64 1 ++ 27 ∷ [];
}

abbrev entry : SpendEntry
entry = record {
  job_id = text "j";
  model = text "clips";
  peer = some (text "spark");
  tokens = none;
  cost_micros = 1500000;
  cumulative_micros = some 1500400;
  payout = some worker;
  abandoned = false;
  bond_cumulative = none;
  chunk_micros = none;
}

abbrev after : Pot ℕ
after = record {
  jobs =
      (text "j", record job { paid = true; sha256 = some (text "ab"); cost = some 1500000 }) ∷ [];
  latest =
      (
        replicate 20 97 ++ text "/" ++ replicate 20 98,
        record {
          ticket = ticket;
          sig = replicate 64 1 ++ 27 ∷ [];
          on_chain_paid = 400;
          pot = base.pot;
        },
      )
      ∷ [];
  file = none;
}

bills :
    pay_invoice whole_floats trees tree_tokens toy toy_signer [] base pot
      (text "j")
      invoice
      (some client)
      0
      snap
      5
      false
    ≡ err (Refused.above_cap 500000)
unfolding pay_invoice check_invoice check_bill fair_price flat_price text_eq Dict.get cap_of
bills = refl

pays :
    pay_invoice whole_floats trees tree_tokens toy toy_signer [] base pot
      (text "j")
      invoice
      (some client)
      3000000
      snap
      5
      false
    ≡ ok ((pay, some entry), after)
unfolding pay_invoice check_invoice check_bill fair_price flat_price text_eq Dict.get cap_of
    authorised_so_far cached_cumulative channel_key addr_key to_lowercase ascii_lower trim_0x
    sign_latest persist extra_of invoiced invoice_entry Dict.insert Dict.adjust SpendTicket.digest
    SpendTicket.encode digest_of_named separator_named word_address strip_0x word_u64 utf8 utf8_char
    be_bytes be_value
pays = refl

pay_invoice_once_example :
    pay_invoice whole_floats trees tree_tokens toy toy_signer [] base after
      (text "j")
      again
      (some client)
      3000000
      snap
      6
      false
    ≡ err Refused.already_paid
pay_invoice_once_example =
    pay_invoice_once whole_floats trees tree_tokens toy toy_signer [] base pot after (text "j")
      invoice again (some client) 3000000 snap snap 5 6 false pay (some entry) pays refl refl
      (omega arith)
