-- ===== src/Ganglion/Multicast/Startup/Stuck.antt =====
-- The startup waits for its own end.
use pyplexo.Base.{ℕ, ◌≡◌, Bool, true, false, List, [], ◌∷◌, String, arith}
use pyplexo.Codec.{CodecClass}
use pyplexo.Exceptions.{ok, pending}
use pyplexo.Exceptions.Keeps.{Keeps}
use pyplexo.Neuron.{Neuron}
use pyplexo.Ganglion.External
use pyplexo.Ganglion.Multicast.Addresses.{
  ReservedMulticastAddress, create_synapse_with_reserved_address, create_synapse_with_address,
  install, put_synapse, try_lease_address,
}
use pyplexo.Ganglion.Multicast.Consensus.{Round}
use pyplexo.Ganglion.Multicast.Startup.{adapt_ignore_startup, startup, react}
use pyplexo.Ganglion.Multicast.State.{Ganglion, Env, heartbeat_neuron}

-- What decides whether the startup is over, and which neurons are handled.
record Setup : Type 0 where
  startup_done : Bool
  relevant_neurons : List String
  ignored_neurons : List String
  allowed_codecs : List CodecClass

abbrev setup : Ganglion → Setup
setup s = record {
  startup_done = s.extra.startup_done;
  relevant_neurons = s.relevant_neurons;
  ignored_neurons = s.ignored_neurons;
  allowed_codecs = s.allowed_codecs;
}

module _ (env : Env) (rounds : List Round) where
  react-pending :
      (n : Neuron) (rs : List ℕ) (s : Ganglion)
      → s.extra.startup_done ≡ false
      → react env rounds n rs s ≡ (pending, s)
  unfolding react
  react-pending n rs s h = ground arith

  -- To adapt to a neuron with a reactant before the startup is done never returns.
  adapt-pending :
      (n : Neuron) (r : ℕ) (s : Ganglion)
      → s.extra.startup_done ≡ false
      → External.capable n s ≡ true
      → adapt_ignore_startup env rounds n (r ∷ []) [] s ≡ (pending, s)
  unfolding adapt_ignore_startup
  adapt-pending n r s h able = ground (arith, react-pending n (r ∷ []) s h)

  -- What creating a synapse leaves alone: the startup's flag, and which neurons are handled.
  create-setup :
      (n : Neuron) (r : ReservedMulticastAddress)
      → Keeps setup (create_synapse_with_reserved_address env n r)
  unfolding create_synapse_with_reserved_address create_synapse_with_address install put_synapse
      try_lease_address
  create-setup n r s = ground arith

  capable-setup :
      (n : Neuron) (s t : Ganglion)
      → setup s ≡ setup t
      → External.capable n s ≡ External.capable n t
  unfolding External.capable
  capable-setup n s t e = ground arith

  -- The state once the heartbeat's synapse is made.
  abbrev first : Ganglion → Ganglion
  first s =
      (create_synapse_with_reserved_address env (heartbeat_neuron env)
        ReservedMulticastAddress.heartbeat s).1

  -- The startup of a ganglion that is not started and is capable of its heartbeat neuron never leaves
  -- its flag set; where the heartbeat's synapse is made, the startup stays pending in the state that
  -- this left.
  pub startup_never_done :
      (s : Ganglion)
      → s.extra.startup_done ≡ false
      → External.capable (heartbeat_neuron env) s ≡ true
      → ((startup env rounds s).1.extra.startup_done ≡ false)
        × ((ref : ℕ)
            → (create_synapse_with_reserved_address env
                (heartbeat_neuron env)
                ReservedMulticastAddress.heartbeat
                s).0
              ≡ ok ref
            → startup env rounds s ≡ (
              pending,
              (create_synapse_with_reserved_address env
                  (heartbeat_neuron env)
                  ReservedMulticastAddress.heartbeat
                  s).1,
            ))
  unfolding startup
  startup_never_done s h able = ground (
    arith,
    create-setup (heartbeat_neuron env) ReservedMulticastAddress.heartbeat s,
    capable-setup (heartbeat_neuron env) (first s) s
        (create-setup (heartbeat_neuron env) ReservedMulticastAddress.heartbeat s),
    adapt-pending (heartbeat_neuron env) 0 (first s),
  )
