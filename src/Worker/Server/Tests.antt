-- ===== src/Worker/Server/Tests.antt =====
-- Runs and examples of server.rs.
use rootmode.Prelude.{
  ℕ, ◌+◌, ◌≡◌, ◌⊎◌, ◌≤◌, refl, true, false, [], ◌∷◌, ◌++◌, replicate, take, arith, some, none,
  length,
}
use rootmode.Prelude.Bytes.{Bytes}
use rootmode.Prelude.Text.{Text, text, utf8, utf8_char, trim_0x, text_eq}
use rootmode.Prelude.Strings.{
  trim, is_whitespace, starts_with, contains, slice_from, slice_to, from_hex, hex_digits, hex_digit,
}
use rootmode.Prelude.Dict
use rootmode.Prelude.Dict.{Dict}
use rootmode.Prelude.Result.{ok}
use rootmode.Core.Floats.{whole_floats}
use rootmode.Core.Json.{trees, Tree, obj, num, str, field, end}
use rootmode.Core.Fixtures.{toy}
use rootmode.Core.Externals.{Externals}
use rootmode.Core.Job.{JobKind, JobPayload, LlmParams, new_message, kind}
use rootmode.Core.Payments.SpendTicket.{SpendTicket}
use rootmode.Core.Protocol.{JobPay, JobSubmit, ModelDescriptor, new_submit}
use rootmode.Core.Price.{JobResult, is_free}
use rootmode.Core.Tokens.Measure.{Tokenizer}
use rootmode.Worker.Channels.{Channels, settled}
use rootmode.Worker.Chain.Io.{World, run}
use rootmode.Worker.Chain.Words.{read_u64, word_address}
use rootmode.Worker.Chain.Client.{Signer, rpc, channel_state, read_channel, settle}
use rootmode.Worker.Server.{Setup, Bond, payout_of, normalise_country}
use rootmode.Worker.Server.Prices.{bill_micros, billed_price, flat_micros, clamp_to_chunk, price_of}
use rootmode.Worker.Server.Prices.Bills.{
  IsBounded, bill_micros-IsBounded, Clamps, clamp_to_chunk-Clamps,
}
use rootmode.Worker.Server.Admission.{take_bond}
use rootmode.Worker.Server.Admission.Bonds.{Admits, take_bond-Admits}
use rootmode.Worker.Server.Capture.{capture_chunk}
use rootmode.Worker.Server.Capture.Captured.{Charges, capture_chunk-Charges}
use rootmode.Worker.Server.Lock.{read_channel as read_lock}
use rootmode.Worker.Server.Settlement.{settle_ticket}
use rootmode.Worker.Server.Settlement.Settled.{Settles, settle_ticket-Settles}

country : normalise_country (text " de ") ≡ some (text "DE")
unfolding normalise_country trim is_whitespace utf8 utf8_char
country = refl

no_country : normalise_country (text "Germany") ≡ none
unfolding normalise_country trim is_whitespace utf8 utf8_char
no_country = refl

no_payout : payout_of (text "0x1234") ≡ none
unfolding payout_of trim is_whitespace utf8 utf8_char
no_payout = refl

abbrev tree_tokens : Tokenizer Tree
tree_tokens = record {
  Bpe = Unit {0};
  encoding_for = λ m. tt;
  count_ordinary = λ b t. length t;
  to_string = λ v. [];
}

-- Addresses are read from their first 20 characters.
abbrev short : Externals
short = record toy { hex_decode = λ t. some (take 20 t) }

abbrev short_signer : Signer short
short_signer = record {
  SigningKey = Bytes;
  from_bytes = λ b. some b;
  verifying_key = λ k. k;
  sign_prehash = λ k b. some (replicate 64 1, 0);
}

abbrev payer : Text
payer = text "0x" ++ replicate 20 65

abbrev payout : Text
payout = text "0x" ++ replicate 40 b'b'

abbrev picture : ModelDescriptor ℕ
picture = record {
  id = text "sd";
  sha256 = none;
  kind = JobKind.image;
  price = some (record {
    amount = 3;
    currency = text "USD";
    input = none;
    output = none;
    cache = none;
    cache_write = none;
  });
  video = none;
}

abbrev setup : Text → Setup ℕ
setup payout = record {
  payments = record {
    contract = text "0x" ++ replicate 20 1;
    chain_id = 8453;
    rpc = text "https://rpc.example";
    sender = [];
    key = [];
  };
  require_auth = true;
  payout_address = payout;
  require_signature_set = false;
  allow_peers = [];
  models = picture ∷ [];
}

abbrev ticket : ℕ → SpendTicket
ticket n = record {
  client = payer;
  worker_payout = text "0x" ++ replicate 20 66;
  cumulative = n;
  deadline = 77;
}

-- A signature by `payer`, in the stand-in for k256.
abbrev pay : ℕ → JobPay
pay n = record {
  v = 1;
  job_id = text "j";
  ticket = ticket n;
  sig = replicate 44 7 ++ (replicate 20 65 ++ (27 ∷ []));
}

abbrev chat : LlmParams ℕ Tree
chat = record {
  model_hash = none;
  model_id = some (text "sd");
  messages = new_message (text "user") (text "hi") ∷ [];
  tools = [];
  max_tokens = 512;
  temperature = 1;
  reasoning_effort = none;
}

abbrev submit : JobSubmit ℕ Tree
submit = record (new_submit (text "j") (text "me") (JobPayload.llm chat)) {
  payer = some payer;
  bond = some (pay 100);
}

abbrev fresh : Channels
fresh = record { contract = text "0xc0"; open_channels = []; file = none }

take_bond-Admits_example :
    Admits whole_floats trees toy
      (setup [])
      fresh
      []
      submit
      (take_bond whole_floats trees toy (setup []) fresh [] submit)
take_bond-Admits_example = take_bond-Admits whole_floats trees toy (setup []) fresh [] submit

abbrev bond : Bond
bond = record { pay = pay 100; delta = 100; app_key = payer }

abbrev bonds : Dict Bond
bonds = (text "j", bond) ∷ []

pending : Dict.get submit.job_id bonds ≡ some bond
unfolding Dict.get text_eq new_submit
pending = refl

capture_chunk-Charges_example :
    let r =
      capture_chunk whole_floats trees toy
        (setup [])
        fresh
        bonds
        submit
        40
        (some (pay 40))
        5
        6
        true
        true in
    Charges whole_floats trees toy (setup []) fresh submit bond 40 (some (pay 40)) 5 6 (r.0, r.1)
capture_chunk-Charges_example =
    capture_chunk-Charges whole_floats trees toy (setup []) fresh bonds submit 40 (some (pay 40)) 5
      6 true true bond pending

abbrev result : JobResult Tree
result = record {
  v = 1;
  job_id = text "j";
  kind = JobKind.image;
  sha256 = [];
  answer = none;
  tool_calls = [];
  image_path_or_b64 = some (text "AAAA");
  thinking = none;
  meta = obj (field (text "model") (str (text "sd")) (field (text "min_bill_micros") (num 70) end));
}

bills : bill_micros whole_floats trees tree_tokens (setup []) (JobPayload.llm chat) result ≡ 70
unfolding bill_micros price_of is_free flat_micros text_eq
bills = refl

picture_price :
    1
    ≤ flat_micros whole_floats trees
        (billed_price whole_floats trees tree_tokens (setup []) (JobPayload.llm chat) result)
unfolding flat_micros price_of text_eq
picture_price = omega arith

bill_micros-IsBounded_example :
    ((is_free whole_floats
          (billed_price whole_floats trees tree_tokens (setup []) (JobPayload.llm chat) result)
        ≡ true)
      × (bill_micros whole_floats trees tree_tokens (setup []) (JobPayload.llm chat) result ≡ 0))
    ⊎ ((is_free whole_floats
            (billed_price whole_floats trees tree_tokens (setup []) (JobPayload.llm chat) result)
          ≡ false)
        × IsBounded whole_floats trees tree_tokens
            (billed_price whole_floats trees tree_tokens (setup []) (JobPayload.llm chat) result)
            (JobPayload.llm chat)
            result
            JobKind.image
            (bill_micros whole_floats trees tree_tokens (setup []) (JobPayload.llm chat) result))
bill_micros-IsBounded_example =
    bill_micros-IsBounded whole_floats trees tree_tokens (setup []) (JobPayload.llm chat) result
      picture_price

clamp_to_chunk-Clamps_example :
    Clamps whole_floats trees tree_tokens
      (setup [])
      (JobPayload.llm chat)
      100
      (clamp_to_chunk whole_floats trees tree_tokens (setup []) (JobPayload.llm chat) 100 7)
clamp_to_chunk-Clamps_example =
    clamp_to_chunk-Clamps whole_floats trees tree_tokens (setup []) (JobPayload.llm chat) 100 7

-- A word of the reply that ends in two digits: 255 reserved, 16 earned.
abbrev word : ℕ → ℕ → Text
word a b = replicate 62 48 ++ a ∷ b ∷ []

abbrev channel_words : Text
channel_words =
    text "0x" ++ word 102 102 ++ word 48 48 ++ word 48 48 ++ word 48 48 ++ word 97 97 ++ word 49 48

abbrev world : World Tree
world = record { State = ℕ; answer = λ n u q. (ok (str channel_words), n + 1); wait = λ n ms. n }

abbrev unbonded : JobSubmit ℕ Tree
unbonded = record submit { bond = none }

abbrev secured : Dict Bond
secured =
    (
      text "j",
      record { pay = pay 100; delta = 84; app_key = text "0x" ++ replicate 38 48 ++ 97 ∷ 97 ∷ [] },
    )
    ∷ []

abbrev toy_signer : Signer toy
toy_signer = record {
  SigningKey = Bytes;
  from_bytes = λ b. some b;
  verifying_key = λ k. k;
  sign_prehash = λ k b. some (replicate 64 1, 0);
}

-- The channel has earned all that this ticket is for.
abbrev old_pay : JobPay
old_pay = record (pay 16) { sig = replicate 65 7 }

settles :
    (run world
      (settle_ticket trees toy toy_signer (setup payout).payments fresh (text "c") old_pay true)
      0).result
    ≡ some (ok (settled fresh (text "c") 16 true))
unfolding run settle_ticket settle channel_state read_channel rpc contains starts_with word_address
    trim_0x trim is_whitespace utf8 utf8_char slice_from slice_to read_u64 from_hex hex_digits
    hex_digit settled
settles = refl

settle_ticket-Settles_example :
    Settles trees toy toy_signer
      (setup payout).payments
      world
      fresh
      (text "c")
      old_pay
      true
      0
      (settled fresh (text "c") 16 true)
settle_ticket-Settles_example =
    settle_ticket-Settles trees toy toy_signer (setup payout).payments world fresh (text "c")
      old_pay true 0 (settled fresh (text "c") 16 true) settles
