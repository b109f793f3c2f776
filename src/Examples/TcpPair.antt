-- ===== src/Examples/TcpPair.antt =====
-- examples/plexus/tcp_pair: two programs, each with a plexus over one side of a pair.
pub mod Send
pub mod Respond
pub mod Both
