-- ===== src/Synapse.antt =====
-- src/plexo/synapse: the synapses, each a module.
pub mod Epgm
