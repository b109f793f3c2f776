-- ===== src/Ganglion/Multicast.antt =====
-- src/plexo/ganglion/plexo_multicast.py: `GanglionPlexoMulticast`, in which the processes of a network
-- agree by a variant of Paxos which multicast group carries which type.
pub mod Ballot
pub mod State
pub mod Transport
pub mod Addresses
pub mod Owners
pub mod Replies
pub mod Reactions
pub mod Consensus
pub mod Startup
