-- ===== src/Worker/Chain/Client.antt =====
-- crates/rootmode-worker/src/chain.rs: the calls that read the chain and that pay on it.
use rootmode.Prelude.{
  ℕ, zero, suc, ◌+◌, ◌*◌, ◌%◌, ◌-◌, ◌^◌, Bool, not, ◌||◌, Option, none, some, List, [], ◌∷◌, ◌++◌,
  length, take, drop, concat, leb, ltb, ◌==◌, if◌then◌else◌, is_empty, min, u64_max, saturating_add,
}
use rootmode.Prelude.Bytes.{Bytes}
use rootmode.Prelude.Text.{Text, text, utf8, trim_0x, text_eq}
use rootmode.Prelude.Strings.{trim, starts_with, contains, slice_from, slice_to, from_hex}
use rootmode.Prelude.Result.{ok, err, fail_if, ok_or}
use rootmode.Core.Json.{JsonApi}
use rootmode.Core.Externals.{Externals}
use rootmode.Core.Payments.{keccak, address_of}
use rootmode.Core.Payments.SpendTicket.{SpendTicket}
use rootmode.Core.Payments.ReserveTicket.{ReserveTicket}
use rootmode.Worker.Errors.{WorkerMessage, WorkerError, WorkerResult}
use rootmode.Worker.Chain.Rlp.{LegacyTx, legacy_rlp}
use rootmode.Worker.Chain.Words
use rootmode.Worker.Chain.Words.{read_u64, parse_u64_hex, parse_address, encode_call}
use rootmode.Worker.Chain.Io.{Request, Io, await, lift, ◌>>=◌}

-- The fields of config.rs that these calls read.
pub record PaymentsConfig : Type 0 where
  pub contract : Text
  pub chain_id : ℕ
  pub rpc : Text
  pub sender : Text
  pub key : Text

pub record ChannelState : Type 0 where
  pub remaining : ℕ
  pub reserved : ℕ
  pub earned : ℕ
  pub max_per_job : ℕ
  pub app_key : Text

-- `k256::ecdsa::SigningKey`, which is not part of the repository: `from_bytes`, `verifying_key` and
-- `sign_prehash`, with the 64 bytes of the signature and the recovery byte.
pub record Signer (X : Externals) : Type 1 where
  pub SigningKey : Type 0
  pub from_bytes : Bytes → Option SigningKey
  pub verifying_key : SigningKey → X.VerifyingKey
  pub sign_prehash : SigningKey → Bytes → Option (Bytes × ℕ)

abbrev pub base_mainnet_fallback_rpcs : List Text
base_mainnet_fallback_rpcs =
    text "https://base-rpc.publicnode.com"
    ∷ text "https://1rpc.io/base"
    ∷ text "https://base.drpc.org"
    ∷ []

module _ {V : Type 0} where
  -- The loop of `rpc` over the fallbacks, which answers with the first error where all of them fail.
  abbrev pub try_all : List Text → Request → WorkerError → Io V V
  try_all [] q first = Io.done (err first)
  try_all (alt ∷ alts) q first =
      Io.post alt q (λ r. elim r [ ok v ↦ Io.done (ok v) | err e ↦ try_all alts q first ])

  unfoldable pub rpc : Text → Request → Io V V
  unfolding contains
  rpc url q = Io.post url q (λ r. elim r [
    | ok v ↦ Io.done (ok v)
    | err first ↦
        if not (contains url (text "base.org"))
        then Io.done (err first)
        else try_all base_mainnet_fallback_rpcs q first
  ])

-- `&hex[64 * i..64 * (i + 1)]`
abbrev pub word_at : ℕ → Text → Option Text
word_at i hex = elim (slice_from (64 * i) hex) [ none ↦ none | some t ↦ slice_to 64 t ]

abbrev pub with_some : {A B V : Type 0} → Option A → (A → Io V B) → Io V B
with_some none k = Io.panic
with_some (some a) k = k a

module _ (J : JsonApi) where
  -- `as_str().unwrap_or(default)`
  abbrev pub str_or : Text → J.Value → Text
  str_or default v = elim (J.as_str v) [ none ↦ default | some s ↦ s ]

  -- `rec.get("status").and_then(|s| s.as_str()).unwrap_or("0x0")`
  abbrev pub status_of : J.Value → Text
  status_of rec = elim (J.get rec (text "status")) [
    | none ↦ text "0x0"
    | some v ↦ str_or (text "0x0") v
  ]

module _ (J : JsonApi) (X : Externals) (K : Signer X) where
  -- What `channel_state` makes of the reply, behind its `0x`.
  unfoldable pub read_channel : Text → Io J.Value (Option ChannelState)
  unfolding read_u64 slice_from slice_to utf8
  read_channel hex =
      if ltb (length (utf8 hex)) (64 * 6)
      then Io.done (
          ok (
            some
              (record { remaining = 0; reserved = 0; earned = 0; max_per_job = 0; app_key = [] })))
      else with_some (word_at 0 hex) (λ word_reserved. with_some (word_at 3 hex) (λ word_close.
        with_some (word_at 4 hex) (λ word_key. with_some (slice_from 24 word_key) (λ key_digits.
          with_some (word_at 5 hex) (λ word_earned.
            with_some (if leb (64 * 7) (length (utf8 hex)) then word_at 6 hex else some (text "0"))
              (λ word_cap.
                if not (read_u64 word_close == 0)
                then Io.done (err (WorkerError.rejected WorkerMessage.closing))
                else Io.done (
                    ok (
                      some (record {
                        remaining = read_u64 word_reserved - read_u64 word_earned;
                        reserved = read_u64 word_reserved;
                        earned = read_u64 word_earned;
                        max_per_job = read_u64 word_cap;
                        app_key = text "0x" ++ key_digits;
                      })))))))))

  unfoldable pub channel_state : PaymentsConfig → Text → Text → Io J.Value (Option ChannelState)
  unfolding read_channel rpc Words.word_address trim_0x trim
  channel_state payments client worker =
      if is_empty (trim payments.rpc) || is_empty (trim payments.contract)
      then Io.done (ok none)
      else do
        client_word ← lift (Words.word_address X client)
        worker_word ← lift (Words.word_address X worker)
        raw ← rpc payments.rpc (
            Request.eth_call payments.contract (
              concat (
                take 4 (keccak X (utf8 (text "channels(address,address)")))
                ∷ client_word
                ∷ worker_word
                ∷ [])))
        read_channel (trim_0x (str_or J (text "0x") raw))

  unfoldable pub eth_balance : PaymentsConfig → Text → Io J.Value ℕ
  unfolding rpc from_hex trim_0x
  eth_balance payments address = do
    raw ← rpc payments.rpc (Request.eth_get_balance address)
    let hex = trim_0x (str_or J (text "0x0") raw)
    lift (
        ok_or (from_hex (2 ^ 128) (if is_empty hex then text "0" else hex))
          (WorkerError.net (WorkerMessage.bad_quantity hex)))

  -- The loop of `wait_ok`, with the rounds that are left.
  unfoldable pub wait_rounds : ℕ → Text → Text → Io J.Value (Unit {0})
  unfolding rpc
  wait_rounds zero url hash = Io.done (err (WorkerError.rejected WorkerMessage.not_mined))
  wait_rounds (suc n) url hash = Io.sleep 500 (
      rpc url (Request.eth_get_transaction_receipt hash) >>= λ rec.
      let next = wait_rounds n url hash in
      if J.is_null rec
      then next
      else if text_eq (status_of J rec) (text "0x1")
      then Io.done (ok tt)
      else Io.done (err (WorkerError.rejected WorkerMessage.reverted)))

  unfoldable pub wait_ok : Text → Text → Io J.Value (Unit {0})
  unfolding wait_rounds
  wait_ok url hash = wait_rounds 60 url hash

  -- The worker's own key, where there is one.
  unfoldable pub signing_key : PaymentsConfig → WorkerResult (Option K.SigningKey)
  unfolding trim trim_0x starts_with
  signing_key payments =
      let raw = trim_0x (trim payments.key) in
      if is_empty raw || starts_with raw (text "${") then ok none else elim (X.hex_decode raw) [
        | none ↦ err (WorkerError.config WorkerMessage.bad_key)
        | some bytes ↦
            if not (length bytes == 32)
            then err (WorkerError.config WorkerMessage.key_length)
            else elim (K.from_bytes bytes) [
              | none ↦ err (WorkerError.config WorkerMessage.bad_key)
              | some key ↦ ok (some key)
            ]
      ]

  unfoldable pub sign_legacy : K.SigningKey → LegacyTx → WorkerResult Bytes
  unfolding legacy_rlp
  sign_legacy key tx = elim (K.sign_prehash key (keccak X (legacy_rlp tx none))) [
    | none ↦ err (WorkerError.config WorkerMessage.cannot_sign)
    | some (bytes, recovery) ↦
        let v = (saturating_add (min (tx.chain_id * 2) u64_max) 35 + recovery) % 2 ^ 64 in
        ok (legacy_rlp tx (some (v, take 32 bytes, drop 32 bytes)))
  ]

  unfoldable pub send_signed : PaymentsConfig → K.SigningKey → Bytes → Io J.Value Text
  unfolding rpc sign_legacy parse_address parse_u64_hex address_of
  send_signed payments key data_bytes = do
    to ← lift (parse_address X payments.contract)
    count ←
        rpc payments.rpc (Request.eth_get_transaction_count (address_of X (K.verifying_key key)))
    nonce ← lift (parse_u64_hex (str_or J (text "0x0") count))
    price ← rpc payments.rpc Request.eth_gas_price
    gas_price ← lift (parse_u64_hex (str_or J (text "0x0") price))
    positive ← lift (fail_if (gas_price == 0) (WorkerError.net WorkerMessage.gas_price_zero))
    raw ← lift (
        sign_legacy key (record {
          nonce = nonce;
          gas_price = gas_price;
          gas = 500000;
          to = to;
          value = 0;
          data_bytes = data_bytes;
          chain_id = payments.chain_id;
        }))
    hash ← rpc payments.rpc (Request.eth_send_raw_transaction raw)
    lift (ok (str_or J [] hash))

  unfoldable pub send_call : PaymentsConfig → Bytes → Io J.Value Text
  unfolding rpc signing_key send_signed trim
  send_call payments data_bytes = do
    key ← lift (signing_key payments)
    elim key [
      | some k ↦ send_signed payments k data_bytes
      | none ↦
          let s = trim payments.sender in
          if is_empty s then Io.done (err (WorkerError.rejected WorkerMessage.no_key)) else do
            hash ← rpc payments.rpc (Request.eth_send_transaction s payments.contract data_bytes)
            lift (ok (str_or J [] hash))
    ]

  -- What `reserve` and `settle` share behind their check: the call, sent and waited for.
  abbrev pub send_and_wait : PaymentsConfig → WorkerResult Bytes → Io J.Value (Option Text)
  send_and_wait payments call = do
    data_bytes ← lift call
    hash ← send_call payments data_bytes
    mined ← wait_ok payments.rpc hash
    lift (ok (some hash))

  -- `if let Ok(Some(ch)) = channel_state(..).await { if test(ch) { return Ok(None) } }`
  abbrev pub unless_known :
      (ChannelState → Bool)
      → Io J.Value (Option Text)
      → WorkerResult (Option ChannelState)
      → Io J.Value (Option Text)
  unless_known test go (ok (some ch)) = if test ch then Io.done (ok none) else go
  unless_known test go (ok none) = go
  unless_known test go (err e) = go

  unfoldable pub reserve : PaymentsConfig → ReserveTicket → Bytes → Io J.Value (Option Text)
  unfolding channel_state send_call wait_ok encode_call utf8
  reserve payments ticket sig = await (channel_state payments ticket.client ticket.worker_payout) (
      unless_known (λ ch. leb ticket.max_amount ch.reserved)
        (send_and_wait payments (
          encode_call X (utf8 (text "reserve(address,address,uint256,uint64,bytes)")) ticket.client
            ticket.worker_payout ticket.max_amount ticket.deadline sig)))

  unfoldable pub settle : PaymentsConfig → SpendTicket → Bytes → Io J.Value (Option Text)
  unfolding channel_state send_call wait_ok encode_call utf8
  settle payments ticket sig = await (channel_state payments ticket.client ticket.worker_payout) (
      unless_known (λ ch. leb ticket.cumulative ch.earned)
        (send_and_wait payments (
          encode_call X (utf8 (text "settle(address,address,uint256,uint64,bytes)")) ticket.client
            ticket.worker_payout ticket.cumulative ticket.deadline sig)))
