-- ===== src/Worker/Chain/Looks.antt =====
-- What the replies in a run of chain.rs show of a channel.
use rootmode.Prelude.{
  ◌≡◌, refl, ap, ◌∙◌, Bool, true, false, ◌&&◌, ◌||◌, Bool-cases, inl, inr, Option, none, some, List,
  [], ◌∷◌, concat, not, is_empty, take, if◌then◌else◌, arith,
}
use rootmode.Prelude.Bytes.{Bytes}
use rootmode.Prelude.Text.{Text, text, text_eq, text_eq_iff, trim_0x, utf8}
use rootmode.Prelude.Strings.{trim, contains}
use rootmode.Prelude.Result.{ok, err}
use rootmode.Core.Json.{JsonApi}
use rootmode.Core.Externals.{Externals}
use rootmode.Core.Payments.{keccak}
use rootmode.Worker.Errors.{WorkerResult, WorkerError}
use rootmode.Worker.Chain.Words.{word_address}
use rootmode.Worker.Chain.Io.{Io, Request, Event, pass, await}
use rootmode.Worker.Chain.Client.{
  PaymentsConfig, ChannelState, Signer, base_mainnet_fallback_rpcs, rpc, try_all, str_or,
  read_channel, channel_state,
}
use rootmode.Worker.Chain.Runs.{Every, Every-await, weaken}

module _ (J : JsonApi) (X : Externals) (K : Signer X) (payments : PaymentsConfig)
    (client worker : Text) where
  -- The data of the look, from the two words.
  abbrev look_data : Bytes → Bytes → Bytes
  look_data client_word worker_word =
      concat (
        take 4 (keccak X (utf8 (text "channels(address,address)")))
        ∷ client_word
        ∷ worker_word
        ∷ [])

  abbrev asks_with : WorkerResult Bytes → WorkerResult Bytes → Text → Bytes → Bool
  asks_with (ok client_word) (ok worker_word) to data_bytes =
      text_eq to payments.contract && text_eq data_bytes (look_data client_word worker_word)
  asks_with (ok client_word) (err e) to data_bytes = false
  asks_with (err e) w to data_bytes = false

  -- Whether a request asks the contract for the channel of the two addresses.
  abbrev pub asks : Request → Bool
  asks (Request.eth_call to data_bytes) =
      asks_with (word_address X client) (word_address X worker) to data_bytes
  asks (Request.eth_get_balance a) = false
  asks (Request.eth_get_transaction_count a) = false
  asks Request.eth_gas_price = false
  asks (Request.eth_get_transaction_receipt h) = false
  asks (Request.eth_send_raw_transaction raw) = false
  asks (Request.eth_send_transaction f t d) = false

  abbrev pub state_in : Io J.Value (Option ChannelState) → Option ChannelState
  state_in (Io.done (ok s)) = s
  state_in (Io.done (err e)) = none
  state_in Io.panic = none
  state_in (Io.sleep ms m) = none
  state_in (Io.post url q next) = none

  -- What a reply to a request shows of the channel.
  abbrev pub shown : Request → WorkerResult J.Value → Option ChannelState
  shown q (err e) = none
  shown q (ok v) =
      if asks q then state_in (read_channel J X K (trim_0x (str_or J (text "0x") v))) else none

  abbrev pub newer_of : Option ChannelState → Option ChannelState → Option ChannelState
  newer_of (some s) older = some s
  newer_of none older = older

  -- What the last of the replies that shows the channel shows, of the events, the latest first.
  abbrev pub last_shown : List (Event J.Value) → Option ChannelState
  last_shown [] = none
  last_shown (e ∷ h) = newer_of (shown e.request e.reply) (last_shown h)

  abbrev pub is_sending : Request → Bool
  is_sending (Request.eth_call to d) = false
  is_sending (Request.eth_get_balance a) = false
  is_sending (Request.eth_get_transaction_count a) = false
  is_sending Request.eth_gas_price = false
  is_sending (Request.eth_get_transaction_receipt h) = false
  is_sending (Request.eth_send_raw_transaction raw) = true
  is_sending (Request.eth_send_transaction f t d) = true

  -- Whether one of the requests sends a transaction.
  abbrev pub sends : List (Event J.Value) → Bool
  sends [] = false
  sends (e ∷ h) = is_sending e.request || sends h

  -- What a request adds to a history, with its fallbacks.
  abbrev Asked :
      Request → List (Event J.Value) → List (Event J.Value) → WorkerResult J.Value → Type 0
  Asked q h g r =
      (last_shown g ≡ newer_of (shown q r) (last_shown h))
      × (is_sending q ≡ false → sends g ≡ sends h)

  -- A reply without an error ends the request, and another one leaves it to the rest.
  by_reply :
      (url : Text) (q : Request) (h g : List (Event J.Value))
      (rest : WorkerError → Io J.Value J.Value)
      → last_shown g ≡ last_shown h
      → (is_sending q ≡ false → sends g ≡ sends h)
      → ((e : WorkerError)
          → Every (Asked q h) (record { url = url; request = q; reply = err e } ∷ g) (rest e))
      → (r : WorkerResult J.Value)
      → Every
          (Asked q h)
          (record { url = url; request = q; reply = r } ∷ g)
          (elim r [ ok v ↦ Io.done (ok v) | err e ↦ rest e ])
  by_reply url q h g rest same quiet next (err e) = next e
  by_reply url q h g rest same quiet next (ok v) =
      (ap (newer_of (shown q (ok v))) same, λ k. rw k (quiet k))

  try_all-Asked :
      (urls : List Text) (q : Request) (first : WorkerError) (h g : List (Event J.Value))
      → last_shown g ≡ last_shown h
      → (is_sending q ≡ false → sends g ≡ sends h)
      → Every (Asked q h) g (try_all urls q first)
  try_all-Asked [] q first h g same quiet = (same, quiet)
  try_all-Asked (alt ∷ alts) q first h g same quiet =
      by_reply alt q h g (λ e. try_all alts q first) same quiet
        (λ e. try_all-Asked alts q first h _ same (λ k. rw k (quiet k)))

  pub rpc-Asked :
      (url : Text) (q : Request) (h : List (Event J.Value)) → Every (Asked q h) h (rpc url q)
  unfolding rpc
  rpc-Asked url q h = by_reply url q h h _ refl (λ k. refl) (λ first. fallback first)
    where
      fallback :
          (first : WorkerError)
          → Every (Asked q h) (record { url = url; request = q; reply = err first } ∷ h) (
              if not (contains url (text "base.org"))
              then Io.done (err first)
              else try_all base_mainnet_fallback_rpcs q first)
      fallback first = elim (Bool-cases (contains url (text "base.org"))) [
        | inl known ↦
            rw known (try_all-Asked base_mainnet_fallback_rpcs q first h _ refl (λ k. rw k refl))
        | inr other ↦ rw other (refl, λ k. rw k refl)
      ]

  -- What a look at the channel has seen.
  abbrev pub Looks :
      List (Event J.Value) → List (Event J.Value) → WorkerResult (Option ChannelState) → Type 0
  Looks h g (ok (some s)) = (last_shown g ≡ some s) × (sends g ≡ sends h)
  Looks h g (ok none) = (last_shown g ≡ last_shown h) × (sends g ≡ sends h)
  Looks h g (err e) = (last_shown g ≡ last_shown h) × (sends g ≡ sends h)

  -- The reading of a reply asks for nothing.
  abbrev stops : Io J.Value (Option ChannelState) → Bool
  stops (Io.done r) = true
  stops Io.panic = true
  stops (Io.sleep ms m) = false
  stops (Io.post url q next) = false

  read_channel-stops : (hex : Text) → stops (read_channel J X K hex) ≡ true
  unfolding read_channel
  read_channel-stops hex = ground arith

  pure-Looks :
      (h g : List (Event J.Value)) (m : Io J.Value (Option ChannelState))
      → stops m ≡ true
      → last_shown g ≡ newer_of (state_in m) (last_shown h)
      → sends g ≡ sends h
      → Every (Looks h) g m
  pure-Looks h g (Io.done (ok (some s))) p e k = (e, k)
  pure-Looks h g (Io.done (ok none)) p e k = (e, k)
  pure-Looks h g (Io.done (err x)) p e k = (e, k)
  pure-Looks h g Io.panic p e k = tt
  pure-Looks h g (Io.sleep ms m) p e k = absurd (cc p)
  pure-Looks h g (Io.post url q next) p e k = absurd (cc p)

  look_asks :
      (client_word worker_word : Bytes)
      → word_address X client ≡ ok client_word
      → word_address X worker ≡ ok worker_word
      → asks (Request.eth_call payments.contract (look_data client_word worker_word)) ≡ true
  look_asks c w hc hw =
      let d = look_data c w in
      ap (λ x. asks_with x (word_address X worker) payments.contract d) hc
      ∙ ap (λ x. asks_with (ok c) x payments.contract d) hw
      ∙ ap (λ b. b && text_eq d d) ((text_eq_iff payments.contract payments.contract).1 refl)
      ∙ (text_eq_iff d d).1 refl

  read-Looks :
      (q : Request) (h g : List (Event J.Value)) (r : WorkerResult J.Value)
      → asks q ≡ true
      → is_sending q ≡ false
      → Asked q h g r
      → Every
          (Looks h)
          g
          (pass {V = J.Value} (λ raw. read_channel J X K (trim_0x (str_or J (text "0x") raw))) r)
  read-Looks q h g (err e) asked quiet (seen, silent) = (seen, silent quiet)
  read-Looks q h g (ok v) asked quiet (seen, silent) =
      let m = read_channel J X K (trim_0x (str_or J (text "0x") v)) in
      pure-Looks h g m (read_channel-stops (trim_0x (str_or J (text "0x") v)))
        (seen ∙ ap (λ b. newer_of (if b then state_in m else none) (last_shown h)) asked)
        (silent quiet)

  with_words :
      (h : List (Event J.Value)) (c w : WorkerResult Bytes)
      → word_address X client ≡ c
      → word_address X worker ≡ w
      → Every (Looks h) h (
          pass {V = J.Value}
            (λ client_word. await (Io.done w) (
              pass (λ worker_word.
                await
                  (rpc payments.rpc
                    (Request.eth_call payments.contract (look_data client_word worker_word)))
                  (pass (λ raw. read_channel J X K (trim_0x (str_or J (text "0x") raw)))))))
            c)
  with_words h (err e) w hc hw = (refl, refl)
  with_words h (ok c) (err e) hc hw = (refl, refl)
  with_words h (ok c) (ok w) hc hw =
      let q = Request.eth_call payments.contract (look_data c w) in
      Every-await (Looks h) (rpc payments.rpc q) h _ (
        weaken (Asked q h) _ (rpc payments.rpc q) h
          (λ g r a. read-Looks q h g r (look_asks c w hc hw) refl a) (rpc-Asked payments.rpc q h))

  pub channel_state-Looks :
      (h : List (Event J.Value)) → Every (Looks h) h (channel_state J X K payments client worker)
  unfolding channel_state
  channel_state-Looks h =
      elim (Bool-cases (is_empty (trim payments.rpc) || is_empty (trim payments.contract))) [
        | inl unset ↦ rw unset (refl, refl)
        | inr set ↦ rw set (with_words h (word_address X client) (word_address X worker) refl refl)
      ]

  -- Where nothing asks for the channel, what was shown stays.
  abbrev pub Keeps :
      {B : Type 0} → List (Event J.Value) → List (Event J.Value) → WorkerResult B → Type 0
  Keeps h g r = last_shown g ≡ last_shown h

  pub Keeps-await :
      {B C : Type 0} (h : List (Event J.Value)) (m : Io J.Value B)
      (k : WorkerResult B → Io J.Value C)
      → Every (Keeps h) h m
      → ((g : List (Event J.Value)) (r : WorkerResult B) → Every (Keeps g) g (k r))
      → Every (Keeps h) h (await m k)
  Keeps-await h m k first rest = Every-await (Keeps h) m h k (
      weaken (Keeps h) _ m h
        (λ g r same. weaken (Keeps g) (Keeps h) (k r) g (λ f q e. e ∙ same) (rest g r)) first)

  pub Keeps-pass :
      {B C : Type 0} (h : List (Event J.Value)) (k : B → Io J.Value C) (r : WorkerResult B)
      → ((b : B) → Every (Keeps h) h (k b))
      → Every (Keeps h) h (pass k r)
  Keeps-pass h k (ok b) f = f b
  Keeps-pass h k (err e) f = refl

  -- A request of another kind.
  pub rpc-Keeps :
      (url : Text) (q : Request) (h : List (Event J.Value))
      → asks q ≡ false
      → Every (Keeps h) h (rpc url q)
  rpc-Keeps url q h other =
      weaken (Asked q h) (Keeps h) (rpc url q) h (λ g r a. kept g r a.0) (rpc-Asked url q h)
    where
      kept :
          (g : List (Event J.Value)) (r : WorkerResult J.Value)
          → last_shown g ≡ newer_of (shown q r) (last_shown h)
          → last_shown g ≡ last_shown h
      kept g (err e) a = a
      kept g (ok v) a =
          a
          ∙ ap
              (λ b.
                newer_of
                  (if b
                    then state_in (read_channel J X K (trim_0x (str_or J (text "0x") v)))
                    else none)
                  (last_shown h))
              other
