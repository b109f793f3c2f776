-- ===== src/Ganglion/Multicast/Addresses/Steady.antt =====
-- What the handling of addresses leaves alone: the state of the protocol and the map of neurons.
use pyplexo.Base.{ℕ, String, Bool, Map, arith}
use pyplexo.Exceptions.Keeps.{Keeps}
use pyplexo.Neuron.{Neuron}
use pyplexo.Schema.{Bytes, PlexoProposal}
use pyplexo.Ganglion.Multicast.Addresses.{
  install, put_synapse, try_lease_address, create_synapse_with_address, move_synapse,
  update_synapse_with_address, create_or_update_synapse_with_address,
}
use pyplexo.Ganglion.Multicast.State.{Ganglion, Env}

-- The state of the protocol, as far as the acceptor and the startup read it.
pub record Protocol : Type 0 where
  pub proposals : Map Bytes PlexoProposal
  pub instance_id : ℕ
  pub num_peers : ℕ
  pub startup_done : Bool
  pub name_neurons : Map String Neuron

abbrev pub protocol : Ganglion → Protocol
protocol s = record {
  proposals = s.extra.proposals;
  instance_id = s.extra.instance_id;
  num_peers = s.extra.num_peers;
  startup_done = s.extra.startup_done;
  name_neurons = s.name_neurons;
}

try_lease_address-steady : (a : ℕ) → Keeps protocol (try_lease_address a)
unfolding try_lease_address
try_lease_address-steady a s = ground arith

module _ (env : Env) where
  install-steady : (n : Neuron) (key : String) (a : ℕ) → Keeps protocol (install env n key a)
  unfolding install put_synapse
  install-steady n key a s = ground arith

  create-steady :
      (n : Neuron) (key : String) (a : ℕ) → Keeps protocol (create_synapse_with_address env n key a)
  unfolding create_synapse_with_address
  create-steady n key a s =
      ground (arith, try_lease_address-steady a s, install-steady n key a (try_lease_address a s).1)

  move-steady : (ref current a : ℕ) → Keeps protocol (move_synapse env ref current a)
  unfolding move_synapse
  move-steady ref current a s = ground arith

  update-steady : (key : String) (a : ℕ) → Keeps protocol (update_synapse_with_address env key a)
  unfolding update_synapse_with_address
  update-steady key a s = grind (arith, try_lease_address-steady, move-steady)

  pub create_or_update-steady :
      (n : Neuron) (key : String) (a : ℕ)
      → Keeps protocol (create_or_update_synapse_with_address env n key a)
  unfolding create_or_update_synapse_with_address
  create_or_update-steady n key a s = ground (arith, update-steady key a s, create-steady n key a s)
