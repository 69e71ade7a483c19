-- ===== src/Core.antt =====
-- crates/rootmode-core: the value types of the protocol, and how work is counted and paid.
pub mod Json
pub mod Floats
pub mod Job
pub mod Price
pub mod Tokens
pub mod Errors
pub mod Externals
pub mod Payments
pub mod Identity
pub mod Protocol
pub mod Video
pub mod Fixtures
