-- ===== src/Tests/Lone.antt =====
-- A run of the theorem on a ganglion without peers.
use pyplexo.Base.{refl, [], ◌∷◌, ℕ_key, string_key, ℕ_discrete, string_discrete, arith}
use pyplexo.Codec.{bytes}
use pyplexo.IpLease.Valid.{IsValid, Picks}
use pyplexo.Synapse.Epgm
use pyplexo.Ganglion.Multicast.Consensus.Alone.{quiet}
use pyplexo.Ganglion.Multicast.Consensus.Creates.{Creates, create_synapse_by_name-Creates}
use pyplexo.Ganglion.Multicast.Consensus.Settled.{Solo}
use pyplexo.Ganglion.Multicast.Owners.{Owned}
use pyplexo.Ganglion.Multicast.State.{Ganglion, preparation_neuron, proposal_neuron}
use pyplexo.Neuron.{name}
use pyplexo.Tests.Setting.{env, running, sender, synapse, note}

abbrev lone : Ganglion
lone = record running { extra = record running.extra { num_peers = 0 } }

lone-Owned : Owned lone
lone-Owned = record {
  owns = λ key ref o h k. ground arith;
  distinct = λ k j ref h e. ground arith;
  older = λ key ref h. ground arith;
  leased = λ a ref h. ground arith;
}

lone-IsValid : IsValid lone.extra.ip_lease_manager
unfolding ℕ_discrete
lone-IsValid a = ground arith

lone-Picks : Picks env.choose
lone-Picks a rest = ground arith

lone-Solo : Solo env (env.net.utf8.encode "Note") lone
unfolding name preparation_neuron proposal_neuron ℕ_discrete string_discrete
lone-Solo = record {
  running = refl;
  peers = refl;
  prepares = record {
    transmitter = sender;
    found = refl;
    object = synapse;
    there = refl;
    encodes = λ a. (bytes (7 ∷ []), refl);
  };
  proposes = record {
    transmitter = sender;
    found = refl;
    object = synapse;
    there = refl;
    encodes = λ a. (bytes (7 ∷ []), refl);
  };
  no_promises = refl;
  no_rejections = refl;
}

create_synapse_by_name-Creates_example : Creates env note "Note" (quiet 100 ∷ []) lone
unfolding Epgm.init
create_synapse_by_name-Creates_example =
    create_synapse_by_name-Creates env note "Note" 100 40 (41 ∷ []) [] lone lone-Solo lone-Owned
      refl lone-Picks lone-IsValid refl (λ a. refl)
