-- ===== src/Lib.antt =====
-- Verification of Rootmode, a peer-to-peer network where a desktop client pays a worker, job by job,
-- for inference. The parts and how they interact:
--
-- - Core (crates/rootmode-core) is what both sides share: the jobs, the token counts that a job is
--   billed by, the messages between them with their prices and signatures, the menu of videos, and the
--   typed messages that a client signs to authorise a payment.
-- - P2p (crates/rootmode-p2p) carries the messages: lines of JSON over a stream.
-- - Worker (crates/rootmode-worker) serves jobs. It screens a request, asks for a lock on chain that
--   covers the most that the job may cost, takes the bond that comes with it, counts the tokens, asks
--   for a signature over the new total of the channel, banks it in a ledger and settles it on chain.
-- - Desktop (apps/desktop/src-tauri) is the client. Its routing chooses a provider for a model; its pot
--   plans the bond of a job (what the worker's lock is checked against) and signs the invoices.
--
-- Which file models which part:
--
-- - Core.Job: the types of crates/rootmode-core/src/job.rs; Core.Job.Validate is validate, summary,
--   model_label and Job::new, Core.Job.Bounds what is proved of them. Core.Errors: CoreError of
--   crates/rootmode-core/src/lib.rs.
-- - Core.Identity: the signing and checking of payloads of crates/rootmode-core/src/identity.rs.
-- - Core.Protocol: the messages of crates/rootmode-core/src/protocol.rs; Protocol.Signed is about their
--   signatures, Protocol.Parsing about the kinds of work. Core.Price: Price, JobResult and the rounding
--   of a price, of the same file. Core.Video: its video offers, with the menu in Video.Menu and the
--   dearest clip in Video.Dearest.
-- - Core.Tokens: TokenUsage of crates/rootmode-core/src/tokens.rs (reconcile, from_meta, write_into);
--   Core.Tokens.Measure is measure with its loops; Reconcile, Meta and Measure.Exact hold what is
--   proved of them.
-- - Core.Payments: crates/rootmode-core/src/payments.rs, with ReserveAuth, SpendingAuth, ReserveTicket
--   and SpendTicket in the child modules of those names; Injective and Injective.Tickets are about the
--   encodings.
-- - P2p.Framing: JsonStream of crates/rootmode-p2p/src/framing.rs. The reader is the list of the parts
--   that fill_buf will show. Lines, Exact and Bound hold what is proved.
-- - Worker.Channels: Channels of crates/rootmode-worker/src/channels.rs. Its state is the map in
--   memory (a sorted association list, the order of BTreeMap) and the list that the file holds. Each
--   operation returns the new state; `saved` says whether the file could be replaced. Entries has the
--   invariant, Operations and Reserve what one call does, Steps and Earnings every sequence of calls,
--   Restart what a start reads. Abstract is a ledger of amounts alone, and Refines compares the two.
-- - Worker.Chain: crates/rootmode-worker/src/chain.rs. Rlp is the encoding of transactions, with a
--   decoder of its own in Rlp.Decode and the proofs in Rlp.Exact, Rlp.Lists and Rlp.Transactions;
--   Words is the call data and the parsing of replies, with Reads about read_u64; Client has
--   channel_state, reserve, settle and what they call. A function that awaits is a tree of requests
--   (Io) with a branch for each reply; run answers it from an outside world, Runs has the rules for every run, Looks reads off
--   the events what the chain showed of a channel, and Settles, Quiet, Known and Waits apply them.
-- - Worker.Server: what crates/rootmode-worker/src/server.rs decides about payments. Prices is what a
--   job and a slice of it cost, Admission the bond that a job must bring, Lock the lock on chain before
--   a job, Capture the tickets and invoices while it runs, Settlement when a ticket is sent to the
--   chain. Their child modules hold what is proved.
-- - Worker.Config: crates/rootmode-worker/src/config.rs, from the parsed file on; Checks is validate and
--   load, Usable what is proved of them. Worker.Server.Setup and the PaymentsConfig of
--   Worker.Chain.Client are the fields of it that those parts read.
-- - Worker.Screen: crates/rootmode-worker/src/screen.rs, with its lists in Screen.Lists; Screen.Ages
--   is about the loop over ages, with Screen.Trims and Screen.Stated about the words.
-- - Worker.Stats: the meter of crates/rootmode-worker/src/stats.rs; Stats.Windows is about a report
--   that is put back.
-- - Desktop.Routing: apps/desktop/src-tauri/src/routing.rs. Cheapest is about the option that is shown
--   for a model, Retries about the providers that are tried next.
-- - Desktop.Pot: apps/desktop/src-tauri/src/pot.rs: the jobs that are paid for, the latest ticket of
--   each channel and the rows of the pending file. Addresses has the forms of an address, Restore what
--   a start reads, Locks the bond of a job, Invoices the signing of a bill and what is recorded.
-- - Core.Externals, Core.Json, Core.Floats, Worker.Chain.Client.Signer and Worker.Screen.Unicode are
--   the parameters for code outside the repository: keccak, hex and curve operations, the values of
--   serde_json with the laws that the code relies on, floats, and the Unicode tables. Core.Fixtures has
--   concrete instances for the tests.
-- - Prelude: tests on numbers, lists and their sorting, text as code points with UTF-8 and the
--   operations of str, bytes, association lists and results.
--
-- A u64 is a natural number with the wrap or the saturation of the source written out; a text is the
-- list of its code points. Fuel: the 60 rounds of wait_ok are those of the source; the loop over ages
-- has as much fuel as the text has characters, and a decoder as much as there are bytes, and each round
-- takes at least one; the padding of call data runs at most 31 rounds (Worker.Chain.Padding).
--
-- Not modelled: network and file I/O, the event loop of libp2p, the HTTP clients of the inference
-- servers, the server's sockets, its queue and the forwarding of tokens, the deposits of the desktop
-- program and its scan of the chain's log, its gateway and its database, the substitution of variables
-- in the text of the configuration, the user interfaces and the contracts.
pub mod Prelude
pub mod Core
pub mod P2p
pub mod Worker
pub mod Desktop
