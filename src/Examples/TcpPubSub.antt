-- ===== src/Examples/TcpPubSub.antt =====
-- examples/plexus/tcp_pubsub: two programs, each with a plexus over a publisher and subscriber.
pub mod Send
pub mod Respond
pub mod Both
