-- ===== src/Worker/Chain/Words.antt =====
-- crates/rootmode-worker/src/chain.rs: the words of calls and of replies.
use rootmode.Prelude.{
  ℕ, zero, suc, ◌*◌, ◌%◌, ◌^◌, Bool, not, none, some, [], ◌∷◌, ◌++◌, length, take, replicate,
  concat, all, ◌==◌, if◌then◌else◌, is_empty,
}
use rootmode.Prelude.Bytes.{Bytes, be_bytes}
use rootmode.Prelude.Text.{Text, trim_0x}
use rootmode.Prelude.Strings.{trim, trim_start_by, from_hex}
use rootmode.Prelude.Result.{ok, ◌>>=◌, ◌>>◌, fail_if, ok_or}
use rootmode.Core.Externals.{Externals}
use rootmode.Core.Payments.{keccak}
use rootmode.Worker.Errors.{WorkerMessage, WorkerError, WorkerResult}

unfoldable pub is_zero_address : Text → Bool
unfolding trim_0x
is_zero_address addr = all (λ c. c == 48) (trim_0x addr)

unfoldable pub word_u256 : ℕ → Bytes
word_u256 v = replicate 24 0 ++ be_bytes 8 v

-- The number that a word's text names, and 0 where it is no `u64`.
unfoldable pub read_u64 : Text → ℕ
unfolding from_hex
read_u64 word = elim (from_hex (2 ^ 64) (trim_start_by (λ c. c == 48) word)) [
  | none ↦ 0
  | some n ↦ n
]

unfoldable pub parse_u64_hex : Text → WorkerResult ℕ
unfolding from_hex trim trim_0x
parse_u64_hex s =
    let h = trim_0x (trim s) in
    if is_empty h
    then ok 0
    else ok_or (from_hex (2 ^ 64) h) (WorkerError.net (WorkerMessage.bad_quantity s))

-- `while padded.len() % 32 != 0 { padded.push(0) }`, which ends after at most 31 rounds.
unfoldable pub pad : ℕ → Bytes → Bytes
pad zero b = b
pad (suc fuel) b = let rest = pad fuel (b ++ 0 ∷ []) in if length b % 32 == 0 then b else rest

module _ (X : Externals) where
  unfoldable pub parse_address : Text → WorkerResult Bytes
  unfolding trim_0x
  parse_address addr = do
    bytes ← ok_or (X.hex_decode (trim_0x addr)) (WorkerError.rejected WorkerMessage.invalid_hex)
    fail_if (not (length bytes == 20)) (WorkerError.rejected (WorkerMessage.not_an_address addr))
    ok bytes

  unfoldable pub word_address : Text → WorkerResult Bytes
  unfolding trim_0x
  word_address addr = do
    bytes ← ok_or (X.hex_decode (trim_0x addr)) (WorkerError.rejected WorkerMessage.invalid_hex)
    fail_if (not (length bytes == 20)) (WorkerError.rejected (WorkerMessage.not_an_address addr))
    ok (replicate 12 0 ++ bytes)

  unfoldable pub encode_call : Bytes → Text → Text → ℕ → ℕ → Bytes → WorkerResult Bytes
  unfolding word_address pad
  encode_call signature client worker amount deadline sig = do
    client_word ← word_address client
    worker_word ← word_address worker
    ok (
        concat (
          take 4 (keccak X signature)
          ∷ client_word
          ∷ worker_word
          ∷ word_u256 amount
          ∷ word_u256 deadline
          ∷ word_u256 (5 * 32)
          ∷ word_u256 (length sig)
          ∷ pad 31 sig
          ∷ []))
