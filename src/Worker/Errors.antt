-- ===== src/Worker/Errors.antt =====
-- crates/rootmode-worker/src/error.rs: the worker's errors. A message is kept as the case that it
-- reports with the values that are printed in it.
use rootmode.Prelude.Text.{Text}
use rootmode.Prelude.Result.{Result}
use rootmode.Prelude.{ℕ}
use rootmode.Core.Errors.{CoreError}
use rootmode.Worker.Channels.{Refusal}

mutual
  pub data WorkerMessage : Type 0 where
    invalid_hex : WorkerMessage
    not_an_address : Text → WorkerMessage
    bad_quantity : Text → WorkerMessage
    closing : WorkerMessage
    no_key : WorkerMessage
    bad_key : WorkerMessage
    key_length : WorkerMessage
    cannot_sign : WorkerMessage
    gas_price_zero : WorkerMessage
    reverted : WorkerMessage
    not_mined : WorkerMessage
    transport : WorkerMessage
    -- The refusals of server.rs.
    signature : CoreError → WorkerMessage
    peer_not_allowed needs_authorisation needs_chunk other_job no_contract : WorkerMessage
    chunk_ticket : CoreError → WorkerMessage
    payment_authorisation : Refusal → WorkerMessage
    other_worker other_payer chunk_does_not_rise needs_payer no_rpc : WorkerMessage
    prompt_too_dear : ℕ → ℕ → ℕ → WorkerMessage
    reserve_other_payout reserve_other_payer reserve_signature not_read_back : WorkerMessage
    could_not_post : WorkerError → WorkerMessage
    above_cap : ℕ → ℕ → WorkerMessage
    no_reserve_ticket no_remaining no_app_key : WorkerMessage

  pub data WorkerError : Type 0 where
    core : CoreError → WorkerError
    config : WorkerMessage → WorkerError
    io : WorkerError
    json : WorkerError
    backend : Text → Text → WorkerError
    net : WorkerMessage → WorkerError
    rejected : WorkerMessage → WorkerError

abbrev pub WorkerResult {ℓ} : Type ℓ → Type ℓ
WorkerResult A = Result WorkerError A
