-- ===== src/Worker/Chain/Tests.antt =====
-- Runs and examples of chain.rs.
use rootmode.Prelude.{ℕ, zero, suc, ◌+◌, ◌≡◌, refl, some, [], ◌∷◌, ◌++◌, replicate, arith}
use rootmode.Prelude.Bytes.{Bytes}
use rootmode.Prelude.Text.{Text, text, text_eq, utf8, trim_0x, utf8_char}
use rootmode.Prelude.Strings.{
  trim, is_whitespace, starts_with, contains, slice_from, slice_to, from_hex, hex_digits, hex_digit,
}
use rootmode.Prelude.{none}
use rootmode.Prelude.Result.{ok}
use rootmode.Core.Json.{trees, Tree, obj, str, field, end}
use rootmode.Core.Fixtures.{toy}
use rootmode.Core.Payments.{address_of}
use rootmode.Core.Payments.SpendTicket.{SpendTicket}
use rootmode.Worker.Errors.{WorkerResult}
use rootmode.Worker.Chain.Words.{
  read_u64, parse_u64_hex, parse_address, word_address, encode_call, pad,
}
use rootmode.Worker.Chain.Io.{Request, World, run}
use rootmode.Worker.Chain.Client.{
  PaymentsConfig, ChannelState, Signer, rpc, channel_state, read_channel, wait_rounds, wait_ok,
  signing_key, sign_legacy, send_signed, send_call, settle,
}
use rootmode.Worker.Chain.Reads.{hex_text, read_u64-hex_text}
use rootmode.Worker.Chain.Runs.{onto}
use rootmode.Worker.Chain.Settles.{IsConfirmed, settle-NamesMined}
use rootmode.Worker.Chain.Waits.{IsAnsweredIn, wait_ok-answers}
use rootmode.Worker.Chain.Known.{StopsAtKnown, settle_known}

abbrev toy_signer : Signer toy
toy_signer = record {
  SigningKey = Bytes;
  from_bytes = λ b. some b;
  verifying_key = λ k. k;
  sign_prehash = λ k b. some (replicate 64 1, 0);
}

abbrev party : ℕ → Text
party n = text "0x" ++ replicate 20 n

abbrev payments : PaymentsConfig
payments = record {
  contract = party 65;
  chain_id = 8453;
  rpc = text "https://mainnet.base.org";
  sender = [];
  key = replicate 32 66;
}

-- A word of the reply that ends in two digits.
abbrev word : ℕ → ℕ → Text
word a b = replicate 62 48 ++ a ∷ b ∷ []

-- 255 reserved, 16 earned.
abbrev channel_words : Text
channel_words =
    text "0x" ++ word 102 102 ++ word 48 48 ++ word 48 48 ++ word 48 48 ++ word 97 97 ++ word 49 48

-- The primary endpoint throttles the first read; each transaction is mined after a round.
abbrev answer : ℕ → Text → Request → WorkerResult Tree
answer n url (Request.eth_call to d) = ok (str channel_words)
answer n url (Request.eth_get_balance a) = ok (str (text "0x10"))
answer n url (Request.eth_get_transaction_count a) = ok (str (text "0x5"))
answer n url Request.eth_gas_price = ok (str (text "0x64"))
answer n url (Request.eth_get_transaction_receipt h) =
    ok (obj (field (text "status") (str (text "0x1")) end))
answer n url (Request.eth_send_raw_transaction raw) = ok (str (text "0xabc"))
answer n url (Request.eth_send_transaction f t d) = ok (str (text "0xabc"))

abbrev world : World Tree
world = record { State = ℕ; answer = λ n u q. (answer n u q, n + 1); wait = λ n ms. n }

abbrev due : SpendTicket
due = record { client = party 67; worker_payout = party 68; cumulative = 100; deadline = 77 }

pays :
    (run world (settle trees toy toy_signer payments due (1 ∷ 2 ∷ [])) 0).result
    ≡ some (ok (some (text "0xabc")))
unfolding run settle channel_state read_channel rpc contains starts_with word_address trim_0x trim
    is_whitespace utf8 utf8_char slice_from slice_to read_u64 from_hex hex_digits hex_digit
    send_call signing_key send_signed sign_legacy parse_address parse_u64_hex address_of wait_ok
    wait_rounds text_eq encode_call pad
pays = refl

settle-NamesMined_example :
    IsConfirmed trees
      (text "0xabc")
      (onto (run world (settle trees toy toy_signer payments due (1 ∷ 2 ∷ [])) 0).events [])
settle-NamesMined_example =
    settle-NamesMined trees toy toy_signer world payments due (1 ∷ 2 ∷ []) 0 (text "0xabc") pays

abbrev seen : ChannelState
seen = record {
  remaining = 239;
  reserved = 255;
  earned = 16;
  max_per_job = 0;
  app_key = text "0x" ++ replicate 38 48 ++ 97 ∷ 97 ∷ [];
}

looks :
    (run world (channel_state trees toy toy_signer payments (party 67) (party 68)) 0).result
    ≡ some (ok (some seen))
unfolding run channel_state read_channel rpc contains starts_with word_address trim_0x trim
    is_whitespace utf8 utf8_char slice_from slice_to read_u64 from_hex hex_digits hex_digit
looks = refl

abbrev paid : SpendTicket
paid = record { client = party 67; worker_payout = party 68; cumulative = 16; deadline = 77 }

known : (run world (settle trees toy toy_signer payments paid []) 0).result ≡ some (ok none)
unfolding run settle channel_state read_channel rpc contains starts_with word_address trim_0x trim
    is_whitespace utf8 utf8_char slice_from slice_to read_u64 from_hex hex_digits hex_digit
    encode_call pad
known = refl

settle_known_example :
    StopsAtKnown trees toy toy_signer payments paid
      (onto (run world (settle trees toy toy_signer payments paid []) 0).events [])
      (ok none)
settle_known_example = settle_known trees toy toy_signer payments paid world [] 0 (ok none) known

read_u64-hex_text_example : read_u64 (hex_text 64 500) ≡ 500
read_u64-hex_text_example = read_u64-hex_text 500 (omega arith)

-- A transaction that is mined after the first question.
abbrev slow : World Tree
slow = record {
  State = ℕ;
  answer = λ n u q. elim n [ zero ↦ (ok Tree.null, 1) | suc k ↦ (answer k u q, suc k) ];
  wait = λ n ms. n;
}

mined :
    IsAnsweredIn trees toy toy_signer slow
      (text "https://x")
      (text "0xabc")
      1
      (obj (field (text "status") (str (text "0x1")) end))
      0
unfolding run rpc
mined = (Tree.null, refl, refl, (refl, refl))

wait_ok-answers_example :
    (run slow (wait_ok trees toy toy_signer (text "https://x") (text "0xabc")) 0).result
    ≡ some (ok tt)
unfolding text_eq
wait_ok-answers_example =
    wait_ok-answers trees toy toy_signer slow (text "https://x") (text "0xabc") 1
      (obj (field (text "status") (str (text "0x1")) end)) 0 (omega arith) mined
