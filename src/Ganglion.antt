-- ===== src/Ganglion.antt =====
-- src/plexo/ganglion: the ganglia, each a module.
pub mod Internal
pub mod External
pub mod TcpPair
pub mod TcpPubSub
pub mod Multicast
