-- ===== src/Tests/Epgm.antt =====
-- A run of the theorem on two synapses in a multicast group.
use pyplexo.Base.{ℕ, ◌≡◌, refl, some, none, List, [], ◌∷◌, map, contains, ℕ_key}
use pyplexo.Codec.{bytes, string}
use pyplexo.Dendrite.{reacts}
use pyplexo.Exceptions.{ok}
use pyplexo.Neuron.{decode}
use pyplexo.Schema.{text}
use pyplexo.Ganglion.External.State.{Synapse, to_payload}
use pyplexo.Synapse.Epgm
use pyplexo.Synapse.Epgm.{Epgm, Frame}
use pyplexo.Synapse.Epgm.Heard.{hearing, transmit-recv_loop_round}
use pyplexo.Tests.Coding.{coding}
use pyplexo.Tests.Setting.{env, note}

abbrev made : Synapse Epgm
made = (Epgm.init env.net note 40 none 5560).1

transmit-recv_loop_round_example :
    let q = hearing env.net (1 ∷ 2 ∷ []) made in
    let e = bytes (coding.encode "hello") in
    (f : Frame) × (reactants : List ℕ) × (Epgm.transmit env.net made e ≡ some f)
    × (f.address ≡ q.channel.multicast_address)
    × (f.topic ≡ q.topic_bytes)
    × ((Epgm.recv_loop_round env.net (f.topic ∷ f.payload ∷ []) q).0
        ≡ ok (map (λ r. reacts r (text "hello") note none) reactants))
    × ((r : ℕ) → contains r reactants ≡ contains r (1 ∷ 2 ∷ []))
unfolding Epgm.init string decode to_payload
transmit-recv_loop_round_example =
    transmit-recv_loop_round env.net note 40 5560 none none made made (1 ∷ 2 ∷ [])
      (bytes (coding.encode "hello")) (text "hello") refl refl refl
