-- ===== src/Worker/Chain.antt =====
-- crates/rootmode-worker/src/chain.rs: what the worker asks of the chain and sends to it.
pub mod Rlp
pub mod Runs
pub mod Settles
pub mod Looks
pub mod Quiet
pub mod Known
pub mod Waits
pub mod Words
pub mod Padding
pub mod Reads
mod Tests
pub mod Io
pub mod Client
