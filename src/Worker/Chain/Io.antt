-- ===== src/Worker/Chain/Io.antt =====
-- crates/rootmode-worker/src/chain.rs: what its functions do to the outside. A function that awaits
-- is a tree of requests: each has a branch for every reply, an error of the transport included.
use rootmode.Prelude.{ℕ, Option, none, some, List, [], ◌∷◌}
use rootmode.Prelude.Bytes.{Bytes}
use rootmode.Prelude.Text.{Text}
use rootmode.Prelude.Result.{ok, err}
use rootmode.Worker.Errors.{WorkerResult}

-- The method of a JSON-RPC call with its parameters. Bytes travel as `0x` and their hexadecimal form.
pub data Request : Type 0 where
  eth_call : Text → Bytes → Request
  eth_get_balance : Text → Request
  eth_get_transaction_count : Text → Request
  eth_gas_price : Request
  eth_get_transaction_receipt : Text → Request
  eth_send_raw_transaction : Bytes → Request
  eth_send_transaction : Text → Text → Bytes → Request

-- `rpc_once` is one `post` to a URL. A slice behind the end of a text is a panic.
pub data Io (V A : Type 0) : Type 0 where
  done : WorkerResult A → Io V A
  panic : Io V A
  sleep : ℕ → Io V A → Io V A
  post : Text → Request → (WorkerResult V → Io V A) → Io V A

-- `.await?`, and `.await` where the caller takes the error too.
infixl 5 ◌>>=◌
abbrev pub await : {V A B : Type 0} → Io V A → (WorkerResult A → Io V B) → Io V B
await (Io.done r) k = k r
await Io.panic k = Io.panic
await (Io.sleep ms m) k = Io.sleep ms (await m k)
await (Io.post url q next) k = Io.post url q (λ r. await (next r) k)

abbrev pub pass : {V A B : Type 0} → (A → Io V B) → WorkerResult A → Io V B
pass k (ok a) = k a
pass k (err e) = Io.done (err e)

abbrev pub ◌>>=◌ : {V A B : Type 0} → Io V A → (A → Io V B) → Io V B
m >>= k = await m (pass k)

-- A pure result inside a function that awaits.
abbrev pub lift : {V A : Type 0} → WorkerResult A → Io V A
lift r = Io.done r

-- The outside: a state, and how it answers each call.
pub record World (V : Type 0) : Type 1 where
  pub State : Type 0
  pub answer : State → Text → Request → WorkerResult V × State
  pub wait : State → ℕ → State

-- What happened: a request to a URL, with its reply.
pub record Event (V : Type 0) : Type 0 where
  pub url : Text
  pub request : Request
  pub reply : WorkerResult V

-- A run: how it ended (`none` for a panic), what was asked in order, and the world after it.
pub record Outcome (V A S : Type 0) : Type 0 where
  pub result : Option (WorkerResult A)
  pub events : List (Event V)
  pub state : S

module _ {V : Type 0} (W : World V) where
  unfoldable pub run : {A : Type 0} → Io V A → W.State → Outcome V A W.State
  run (Io.done r) s = record { result = some r; events = []; state = s }
  run Io.panic s = record { result = none; events = []; state = s }
  run (Io.sleep ms m) s = run m (W.wait s ms)
  run (Io.post url q next) s =
      let a = W.answer s url q in
      let o = run (next a.0) a.1 in
      record {
        result = o.result;
        events = record { url = url; request = q; reply = a.0 } ∷ o.events;
        state = o.state;
      }
