-- ===== src/Ganglion/Multicast/Startup.antt =====
-- src/plexo/ganglion/plexo_multicast.py: the methods of the base class as this class overrides them,
-- `__init__` and `startup`. The handlers of the protocol are the reactants 0 to 5.
pub mod Stuck
pub mod Reserved
use pyplexo.Base.{ℕ, String, Bool, true, false, Option, none, some, List, [], ◌∷◌, ◌++◌, Map, take}
use pyplexo.Codec.{CodecClass}
use pyplexo.Exceptions.{
  Action, Result, Error, pure, throw, modify, catch, ◌>>=◌, ◌>>◌, zmq_error, ok,
}
use pyplexo.IpLease
use pyplexo.IpLease.{IpLeaseManager}
use pyplexo.Neuron.{Neuron, name}
use pyplexo.Synapse.Epgm
use pyplexo.Synapse.Epgm.{Epgm}
use pyplexo.Ganglion.External
use pyplexo.Ganglion.External.State
use pyplexo.Ganglion.External.State.{External, Hooks, Task, heartbeat_loop, num_peers_loop}
use pyplexo.Ganglion.Multicast.Addresses.{
  ReservedMulticastAddress, create_synapse_with_address, create_synapse_with_reserved_address,
  on_synapse,
}
use pyplexo.Ganglion.Multicast.Consensus.{Round, acquire_address_for_type}
use pyplexo.Ganglion.Multicast.State.{
  Multicast, Ganglion, Env, change, heartbeat_neuron, preparation_neuron, promise_neuron,
  rejection_neuron, proposal_neuron, approval_neuron,
}
use pyplexo.Ganglion.Multicast.Transport.{wait_startup}
use pyplexo.Plexus.{gather}

-- `for address in self._reserved_addresses: self._ip_lease_manager.lease_address(address)`; an
-- exception would leave `__init__`
unfoldable pub lease_all : List ℕ → Action IpLeaseManager (Unit {0})
unfolding IpLease.lease_address
lease_all [] = pure tt
lease_all (a ∷ rest) = do _ ← IpLease.lease_address a; lease_all rest

-- `GanglionPlexoMulticast(…)`, over the addresses of its network and the identity of the instance
unfoldable pub init :
    (interface : Option String) (cidr : List ℕ) (port heartbeat_interval proposal_timeout me : ℕ)
    (relevant ignored : List String) (allowed : List CodecClass)
    → Result (Unit {0}) × Ganglion
unfolding lease_all IpLease.init External.State.init
init interface cidr port heartbeat_interval proposal_timeout me relevant ignored allowed =
    let reserved = take 32 cidr in
    let (r, m) = lease_all reserved (IpLease.init cidr) in
    (
      r,
      External.State.init relevant ignored allowed (record {
        bind_interface = interface;
        port = port;
        heartbeat_interval_seconds = heartbeat_interval;
        proposal_timeout_seconds = proposal_timeout;
        ip_lease_manager = m;
        reserved_addresses = reserved;
        synapses_by_address = [];
        instance_id = me;
        heartbeats = [];
        num_peers = 0;
        proposals = [];
        preparation_timers = [];
        preparation_promises = [];
        preparation_rejections = [];
        proposal_timers = [];
        proposal_approvals = [];
        startup_done = false;
        sent = [];
      }),
    )

module _ (env : Env) (rounds : List Round) where
  -- `_create_synapse_by_name`
  unfoldable pub create_synapse_by_name : Neuron → String → Action Ganglion ℕ
  create_synapse_by_name n key = do
    a ← acquire_address_for_type env key rounds
    create_synapse_with_address env n key a

  abbrev pub hooks : Hooks Multicast Epgm
  hooks = record {
    create_synapse_by_name = create_synapse_by_name;
    add_reactants = λ ref rs. on_synapse ref (Epgm.add_reactants env.net rs);
    add_raw_reactants = State.add_raw_reactants;
  }

  unfoldable pub react_ignore_startup : Neuron → List ℕ → Action Ganglion (Unit {0})
  unfolding External.react
  react_ignore_startup n rs = External.react hooks n rs

  unfoldable pub react : Neuron → List ℕ → Action Ganglion (Unit {0})
  unfolding wait_startup react_ignore_startup
  react n rs = do wait_startup; react_ignore_startup n rs

  unfoldable pub react_raw_ignore_startup : Neuron → List ℕ → Action Ganglion (Unit {0})
  unfolding External.react_raw
  react_raw_ignore_startup n rs = External.react_raw hooks n rs

  unfoldable pub react_raw : Neuron → List ℕ → Action Ganglion (Unit {0})
  unfolding wait_startup react_raw_ignore_startup
  react_raw n rs = do wait_startup; react_raw_ignore_startup n rs

  -- `super().adapt(…)`, whose `self.react` is the method above
  unfoldable pub adapt_ignore_startup : Neuron → List ℕ → List ℕ → Action Ganglion (Unit {0})
  unfolding External.adapt react react_raw
  adapt_ignore_startup n rs raws = External.adapt hooks react react_raw n rs raws

  unfoldable pub adapt : Neuron → List ℕ → List ℕ → Action Ganglion (Unit {0})
  unfolding wait_startup adapt_ignore_startup
  adapt n rs raws = do wait_startup; adapt_ignore_startup n rs raws

  -- `_add_task`
  abbrev add_task : Task → Action Ganglion (Unit {0})
  add_task t = modify (λ s. record s { tasks = s.tasks ++ t ∷ [] })

  abbrev reserve : Neuron → ReservedMulticastAddress → Action Ganglion (Unit {0})
  reserve n r = do _ ← create_synapse_with_reserved_address env n r; pure tt

  -- What `startup` does after the heartbeat's synapse has its reactant. The calls of a `gather` run in
  -- turn here, each of them whatever the others raise; the sleep of an interval before the flag is set
  -- changes nothing.
  unfoldable pub startup_rest : Action Ganglion (Unit {0})
  unfolding adapt_ignore_startup gather
  startup_rest = do
    add_task heartbeat_loop
    add_task num_peers_loop
    gather (
        reserve (preparation_neuron env) ReservedMulticastAddress.preparation
        ∷ reserve (promise_neuron env) ReservedMulticastAddress.promise
        ∷ reserve (rejection_neuron env) ReservedMulticastAddress.rejection
        ∷ reserve (proposal_neuron env) ReservedMulticastAddress.proposal
        ∷ reserve (approval_neuron env) ReservedMulticastAddress.approval
        ∷ [])
    gather (
        adapt_ignore_startup (preparation_neuron env) (1 ∷ []) []
        ∷ adapt_ignore_startup (promise_neuron env) (2 ∷ []) []
        ∷ adapt_ignore_startup (rejection_neuron env) (3 ∷ []) []
        ∷ adapt_ignore_startup (proposal_neuron env) (4 ∷ []) []
        ∷ adapt_ignore_startup (approval_neuron env) (5 ∷ []) []
        ∷ [])
    change (λ m. record m { startup_done = true })

  -- `except ZMQError`: logged
  unfoldable pub log_zmq_error : Error → Action Ganglion (Unit {0})
  log_zmq_error zmq_error = pure tt
  log_zmq_error e = throw e

  unfoldable pub startup : Action Ganglion (Unit {0})
  unfolding adapt_ignore_startup log_zmq_error
  startup =
      catch
        (do
          reserve (heartbeat_neuron env) ReservedMulticastAddress.heartbeat
          adapt_ignore_startup (heartbeat_neuron env) (0 ∷ []) []
          startup_rest)
        log_zmq_error
