-- ===== src/Ganglion/Multicast/State.antt =====
-- The state of src/plexo/ganglion/plexo_multicast.py, with the neurons of
-- src/plexo/neuron/plexo_multicast_neuron.py.
use pyplexo.Base.{ℕ, String, Bool, Option, none, List, Map}
use pyplexo.Codec.{Codec, Serialiser, capnpy}
use pyplexo.Exceptions.{Action, gets, modify}
use pyplexo.IpLease.{IpLeaseManager, Choice}
use pyplexo.Namespace.{plexo_namespace}
use pyplexo.Neuron
use pyplexo.Neuron.{Neuron}
use pyplexo.Schema.{Bytes, PlexoProposal, PlexoPromise}
use pyplexo.Synapse.Epgm.{Epgm, Frame, Net}
use pyplexo.Timer.{Timer}
use pyplexo.Ganglion.External.State.{External}

pub record Multicast : Type 0 where
  pub bind_interface : Option String
  pub port : ℕ
  pub heartbeat_interval_seconds : ℕ
  pub proposal_timeout_seconds : ℕ
  pub ip_lease_manager : IpLeaseManager
  pub reserved_addresses : List ℕ
  pub synapses_by_address : Map ℕ ℕ
  pub instance_id : ℕ
  pub heartbeats : Map ℕ ℕ
  pub num_peers : ℕ
  pub proposals : Map Bytes PlexoProposal
  pub preparation_timers : Map Bytes Timer
  pub preparation_promises : Map Bytes (List PlexoPromise)
  pub preparation_rejections : Map Bytes ℕ
  pub proposal_timers : Map Bytes Timer
  pub proposal_approvals : Map (Bytes × ℕ × ℕ) ℕ
  pub startup_done : Bool
  -- What has left on the sockets, the latest first.
  pub sent : List Frame

abbrev pub Ganglion : Type 0
Ganglion = External Multicast Epgm

-- The structures that capnpy generates from the schema.
pub record Structs : Type 0 where
  pub approval : Serialiser
  pub heartbeat : Serialiser
  pub preparation : Serialiser
  pub promise : Serialiser
  pub proposal : Serialiser
  pub rejection : Serialiser

-- What the ganglion uses and does not implement.
pub record Env : Type 0 where
  pub net : Net
  pub structs : Structs
  pub choose : Choice

plexo_neuron : String → Codec → Neuron
unfolding Neuron.init plexo_namespace capnpy
plexo_neuron type_name codec = Neuron.init type_name plexo_namespace codec none

module _ (env : Env) where
  open env use {structs}

  abbrev pub approval_codec : Codec
  approval_codec = capnpy structs.approval

  unfoldable pub approval_neuron : Neuron
  unfolding plexo_neuron
  approval_neuron = plexo_neuron "PlexoApproval" approval_codec

  abbrev pub heartbeat_codec : Codec
  heartbeat_codec = capnpy structs.heartbeat

  unfoldable pub heartbeat_neuron : Neuron
  unfolding plexo_neuron
  heartbeat_neuron = plexo_neuron "PlexoHeartbeat" heartbeat_codec

  abbrev pub preparation_codec : Codec
  preparation_codec = capnpy structs.preparation

  unfoldable pub preparation_neuron : Neuron
  unfolding plexo_neuron
  preparation_neuron = plexo_neuron "PlexoPreparation" preparation_codec

  abbrev pub promise_codec : Codec
  promise_codec = capnpy structs.promise

  unfoldable pub promise_neuron : Neuron
  unfolding plexo_neuron
  promise_neuron = plexo_neuron "PlexoPromise" promise_codec

  abbrev pub proposal_codec : Codec
  proposal_codec = capnpy structs.proposal

  unfoldable pub proposal_neuron : Neuron
  unfolding plexo_neuron
  proposal_neuron = plexo_neuron "PlexoProposal" proposal_codec

  abbrev pub rejection_codec : Codec
  rejection_codec = capnpy structs.rejection

  unfoldable pub rejection_neuron : Neuron
  unfolding plexo_neuron
  rejection_neuron = plexo_neuron "PlexoRejection" rejection_codec

-- Reading and writing the part of the state that the subclass adds.
abbrev pub asks : {A : Type 0} → (Multicast → A) → Action Ganglion A
asks f = gets (λ s. f s.extra)

abbrev pub change : (Multicast → Multicast) → Action Ganglion (Unit {0})
change f = modify (λ s. record s { extra = f s.extra })
