-- ===== src/Worker.antt =====
-- crates/rootmode-worker: the node that serves jobs and is paid for them.
pub mod Channels
pub mod Errors
pub mod Chain
pub mod Screen
pub mod Stats
pub mod Server
pub mod Config
