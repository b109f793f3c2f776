-- ===== src/Schema.antt =====
-- src/plexo/schema: the messages that the program itself sends. A UInt64 is a number, Text and Data
-- are bytes, and a Data that may be absent is an `Option`.
use pyplexo.Base.{ℕ, List, Option, String}

abbrev pub Bytes : Type 0
Bytes = List ℕ

pub record PlexoApproval : Type 0 where
  pub instance_id : ℕ
  pub proposal_id : ℕ
  pub type_name : Bytes
  pub multicast_ip : Option Bytes

pub record PlexoHeartbeat : Type 0 where
  pub instance_id : ℕ

pub record PlexoPreparation : Type 0 where
  pub instance_id : ℕ
  pub proposal_id : ℕ
  pub type_name : Bytes

pub record PlexoPromise : Type 0 where
  pub instance_id : ℕ
  pub proposal_id : ℕ
  pub type_name : Bytes
  pub accepted_instance_id : ℕ
  pub accepted_proposal_id : ℕ
  pub multicast_ip : Option Bytes

pub record PlexoProposal : Type 0 where
  pub instance_id : ℕ
  pub proposal_id : ℕ
  pub type_name : Bytes
  pub multicast_ip : Option Bytes

pub record PlexoRejection : Type 0 where
  pub instance_id : ℕ
  pub proposal_id : ℕ
  pub type_name : Bytes

-- The envelope of the pair socket.
pub record PlexoMessage : Type 0 where
  pub type_name : Bytes
  pub payload : Bytes

-- The values that a program hands to a neuron: the messages above, and any other object, known by a
-- number or by its class and what its attributes hold, which the
-- library never looks into.
pub data Value : Type 0 where
  approval : PlexoApproval → Value
  heartbeat : PlexoHeartbeat → Value
  preparation : PlexoPreparation → Value
  promise : PlexoPromise → Value
  proposal : PlexoProposal → Value
  rejection : PlexoRejection → Value
  text : String → Value
  object : ℕ → Value
  attributes : String → List (String × String) → Value
