-- ===== src/P2p.antt =====
-- crates/rootmode-p2p: the transport between peers.
pub mod Framing
