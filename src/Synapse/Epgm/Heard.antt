-- ===== src/Synapse/Epgm/Heard.antt =====
-- Two synapses of a neuron in one multicast group.
use mathlib.Core.List.{append-nil}
use pyplexo.Base.{
  ℕ, ◌≡◌, sym, ap, ◌∙◌, String, true, Option, none, some, List, [], ◌∷◌, map, contains, ℕ_key,
  arith, if◌then◌else◌,
}
use pyplexo.Codec.{Encoded, bytes}
use pyplexo.Dendrite
use pyplexo.Dendrite.{Call, reacts}
use pyplexo.Dendrite.Decoder
use pyplexo.Dendrite.Decoder.Decoded.{transduce-decode}
use pyplexo.Dendrite.Once.{contains-update, contains-pset}
use pyplexo.Exceptions.{ok}
use pyplexo.Neuron.{Neuron, name, decode}
use pyplexo.Schema.{Bytes, Value}
use pyplexo.Ganglion.External.State.{Synapse, to_payload}
use pyplexo.Synapse.Epgm.{Net, Epgm, Frame, init, transmit, receive, recv_loop_round, add_reactants}

module _ (net : Net) where
  -- What a synapse is once it is made.
  pub record Made (n : Neuron) (a : ℕ) (o : Synapse Epgm) : Type 0 where
    pub publishes : o.channel.socket_pub ≡ true
    pub address : o.channel.multicast_address ≡ a
    pub topic : o.topic_bytes ≡ net.utf8.encode (name n)
    pub neuron : o.dendrite.neuron ≡ n
    pub reactants : o.dendrite.reactants ≡ []
    pub raws : o.dendrite.raw_reactants ≡ []

  pub made :
      (n : Neuron) (a : ℕ) (i : Option String) (port : ℕ) (o : Synapse Epgm)
      → init net n a i port ≡ (ok tt, o)
      → Made n a o
  unfolding init Decoder.init Dendrite.pset
  made n a i port o h = record {
    publishes = ground arith;
    address = ground arith;
    topic = ground arith;
    neuron = ground arith;
    reactants = ground arith;
    raws = ground arith;
  }

  pub sent :
      (n : Neuron) (a : ℕ) (o : Synapse Epgm) (e : Encoded)
      → Made n a o
      → transmit net o e
        ≡ some (record {
          address = o.channel.multicast_address;
          topic = o.topic_bytes;
          payload = to_payload net.utf8 e;
        })
  unfolding transmit
  sent n a o e m = ground (arith, m.publishes)

  heard :
      (topic payload : Bytes) (calls : List Call) (p : Synapse Epgm)
      → Decoder.transduce p.dendrite (bytes payload) none ≡ (ok tt, calls)
      → (recv_loop_round net (topic ∷ payload ∷ []) p).0 ≡ ok calls
  unfolding recv_loop_round receive
  heard topic payload calls p h = ground (arith, h)

  -- A synapse with reactants added.
  abbrev pub hearing : List ℕ → Synapse Epgm → Synapse Epgm
  hearing rs p = (add_reactants net rs p).1

  hearing-address :
      (rs : List ℕ) (p : Synapse Epgm)
      → (hearing rs p).channel.multicast_address ≡ p.channel.multicast_address
  unfolding add_reactants
  hearing-address rs p = ground arith

  hearing-topic : (rs : List ℕ) (p : Synapse Epgm) → (hearing rs p).topic_bytes ≡ p.topic_bytes
  unfolding add_reactants
  hearing-topic rs p = ground arith

  hearing-dendrite :
      (rs : List ℕ) (p : Synapse Epgm)
      → (hearing rs p).dendrite ≡ Decoder.add_reactants p.dendrite rs
  unfolding add_reactants
  hearing-dendrite rs p = ground arith

  grown-reactants :
      (r : ℕ) (rs : List ℕ) (d : Decoder.DecoderDendrite)
      → d.reactants ≡ []
      → contains r (Decoder.add_reactants d rs).reactants ≡ contains r rs
  unfolding Decoder.add_reactants
  grown-reactants r rs d h =
      contains-update r (Dendrite.pset d.reactants) rs
      ∙ ap (λ b. if b then true else contains r rs)
          (contains-pset r d.reactants ∙ ap (contains r) h)

  grown_calls :
      (rs : List ℕ) (n : Neuron) (a : ℕ) (p : Synapse Epgm) (payload : Bytes) (w : Value)
      → Made n a p
      → decode n (bytes payload) ≡ ok w
      → let d = Decoder.add_reactants p.dendrite rs in
        Decoder.transduce d (bytes payload) none ≡ (ok tt, map (λ r. reacts r w n none) d.reactants)
  unfolding Decoder.add_reactants
  grown_calls rs n a p payload w m h =
      let d = Decoder.add_reactants p.dendrite rs in
      let plain : Decoder.transduce d (bytes payload) none
          ≡ (ok tt, map (λ r. reacts r w d.neuron none) d.reactants) =
        rw
          (
            transduce-decode d (bytes payload) none w
                (ap (λ x. decode x (bytes payload)) m.neuron ∙ h),
            m.raws,
          )
          (ap (λ l. (ok tt, l)) (append-nil (map (λ r. reacts r w d.neuron none) d.reactants))) in
      plain ∙ ap (λ x. (ok tt, map (λ r. reacts r w x none) d.reactants)) m.neuron

  -- If two synapses for a neuron are made at one address, and the codec decodes the payload of some
  -- encoded data to a value, then transmitting the data on one sends it to the group and with the topic
  -- of the other, where a round of the receiving loop gives the value to just the reactants that were
  -- added.
  pub transmit-recv_loop_round :
      (n : Neuron) (a port : ℕ) (i j : Option String) (o p : Synapse Epgm) (rs : List ℕ)
      (e : Encoded) (w : Value)
      → init net n a i port ≡ (ok tt, o)
      → init net n a j port ≡ (ok tt, p)
      → decode n (bytes (to_payload net.utf8 e)) ≡ ok w
      → let q = hearing rs p in
        (f : Frame) × (reactants : List ℕ) × (transmit net o e ≡ some f)
        × (f.address ≡ q.channel.multicast_address)
        × (f.topic ≡ q.topic_bytes)
        × ((recv_loop_round net (f.topic ∷ f.payload ∷ []) q).0
            ≡ ok (map (λ r. reacts r w n none) reactants))
        × ((r : ℕ) → contains r reactants ≡ contains r rs)
  transmit-recv_loop_round n a port i j o p rs e w ho hp dec =
      let m = made n a i port o ho in
      let k = made n a j port p hp in
      let payload = to_payload net.utf8 e in
      let d = Decoder.add_reactants p.dendrite rs in
      let calls = map (λ r. reacts r w n none) d.reactants in
      (
        record { address = o.channel.multicast_address; topic = o.topic_bytes; payload = payload },
        d.reactants,
        sent n a o e m,
        m.address ∙ sym k.address ∙ sym (hearing-address rs p),
        m.topic ∙ sym k.topic ∙ sym (hearing-topic rs p),
        heard o.topic_bytes payload calls (hearing rs p) (
            ap (λ x. Decoder.transduce x (bytes payload) none) (hearing-dendrite rs p)
            ∙ grown_calls rs n a p payload w k dec),
        λ r. grown-reactants r rs p.dendrite k.reactants,
      )
