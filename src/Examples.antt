-- ===== src/Examples.antt =====
-- The programs under examples that run in one process, and pairs of programs that exchange messages.
pub mod TcpPair
pub mod TcpPubSub
pub mod Exchange
pub mod Rounds
pub mod Received
pub mod OnAxon
pub mod OnPlexus
pub mod AxonStr
pub mod AxonPickle
pub mod AxonJson
pub mod PlexusPickle
pub mod PlexusJson
pub mod GanglionPickle
pub mod EpgmSend
