-- ===== src/Ganglion/TcpPubSub/Joined.antt =====
-- A publisher and a subscriber that adapt to the same neuron.
use pyplexo.Base.{
  ℕ, ◌≡◌, refl, sym, ap, ◌∙◌, subst, true, false, Option, none, List, [], ◌∷◌, map, contains, ℕ_key,
  string_key, arith,
}
use pyplexo.Codec.{Encoded, bytes}
use pyplexo.Dendrite.{reacts}
use pyplexo.Dendrite.Once.{contains-update}
use pyplexo.Exceptions.{ok}
use pyplexo.Neuron.{Neuron, encode, decode}
use pyplexo.Schema.{Bytes, Value}
use pyplexo.Ganglion.External
use pyplexo.Ganglion.External.Fresh.{Lawful, adapted}
use pyplexo.Ganglion.External.Joined.{IsNew, Joined}
use pyplexo.Ganglion.External.State.{to_payload}
use pyplexo.Ganglion.TcpPair.{Library}
use pyplexo.Ganglion.TcpPair.Joined.{decoded}
use pyplexo.Ganglion.TcpPubSub.{
  Ganglion, hooks, create_synapse_by_name, adapt, start_recv_loop_if_needed, transmit, receive,
  publish-receive,
}

module _ (lib : Library) where
  pub hooks-Lawful : Lawful (hooks lib) lib.utf8 tt (λ p. p)
  unfolding create_synapse_by_name
  hooks-Lawful = record { creates = λ n s e. ground arith; adds = λ ref rs s. refl }

  -- What the start of the receiving loop leaves alone.
  pub started :
      (n : Neuron) (rs : List ℕ) (t : Ganglion)
      → Joined lib.utf8 n rs t
      → Joined lib.utf8 n rs (start_recv_loop_if_needed lib t).1
  unfolding start_recv_loop_if_needed
  started n rs t j = record {
    ref = j.ref;
    object = j.object;
    transmitter = ground (arith, j.transmitter);
    raw_transmitter = ground (arith, j.raw_transmitter);
    bound = ground (arith, j.bound);
    there = ground (arith, j.there);
    topic = j.topic;
    neuron = j.neuron;
    reactants = j.reactants;
    raws = j.raws;
  }

  -- How `adapt` ends: the base class's adaptation, and the receiving loop.
  adapt-eq :
      (n : Neuron) (rs : List ℕ) (s t : Ganglion)
      → External.adapt
          (hooks lib)
          (External.react (hooks lib))
          (External.react_raw (hooks lib))
          n
          rs
          []
          s
        ≡ (ok tt, t)
      → (adapt lib n rs [] s).1 ≡ (start_recv_loop_if_needed lib t).1
  unfolding adapt
  adapt-eq n rs s t h = ground arith

  pub adapt-Joined :
      (n : Neuron) (rs : List ℕ) (s : Ganglion)
      → IsNew n s
      → External.capable n s ≡ true
      → Joined lib.utf8 n rs (adapt lib n rs [] s).1
  adapt-Joined n rs s new able =
      let a = adapted (hooks lib) lib.utf8 tt (λ p. p) hooks-Lawful n rs s new able in
      subst (Joined lib.utf8 n rs) (sym (adapt-eq n rs s a.state a.ends))
        (started n rs a.state a.joined)

  -- The start of the receiving loop leaves the socket open, or closed, as it is.
  started_open :
      (t : Ganglion) → ((start_recv_loop_if_needed lib t).1.extra.pub_closed ≡ t.extra.pub_closed)
  unfolding start_recv_loop_if_needed
  started_open t = ground arith

  adapt_open :
      (n : Neuron) (rs : List ℕ) (s : Ganglion)
      → IsNew n s
      → External.capable n s ≡ true
      → ((adapt lib n rs [] s).1.extra.pub_closed ≡ s.extra.pub_closed)
  adapt_open n rs s new able =
      let a = adapted (hooks lib) lib.utf8 tt (λ p. p) hooks-Lawful n rs s new able in
      let e = adapt-eq n rs s a.state a.ends in
      ap (λ x. x.extra.pub_closed) e ∙ started_open a.state ∙ ap (λ x. x.pub_closed) a.same_extra

  -- If a publisher and a subscriber adapt to a neuron that is new to both and that both handle, and the
  -- codec decodes what it encodes of some data to a value, then transmitting the data, where the publisher is
  -- not closed, publishes one message, and receiving it gives the value to just the reactants of the subscriber's `adapt`, and
  -- changes nothing.
  pub adapt-publish-receive :
      (n : Neuron) (rs : List ℕ) (v w : Value) (rid : Option ℕ) (e : Encoded) (a b : Ganglion)
      → IsNew n a
      → IsNew n b
      → External.capable n a ≡ true
      → External.capable n b ≡ true
      → a.extra.pub_closed ≡ false
      → encode n v ≡ ok e
      → decode n (bytes (to_payload lib.utf8 e)) ≡ ok w
      → let c = (adapt lib n [] [] a).1 in
        let d = (adapt lib n rs [] b).1 in
        (frame : Bytes × Bytes) × (reactants : List ℕ) × (transmit lib v n rid c
          ≡ (ok tt, record c { extra = record c.extra { sent = frame ∷ c.extra.sent } }))
        × (receive lib frame d ≡ (ok (map (λ r. reacts r w n none) reactants), d))
        × ((r : ℕ) → contains r reactants ≡ contains r rs)
  adapt-publish-receive n rs v w rid e a b new_a new_b able_a able_b still enc dec =
      let c = (adapt lib n [] [] a).1 in
      let d = (adapt lib n rs [] b).1 in
      let kept = adapt_open n [] a new_a able_a in
      let j = adapt-Joined n [] a new_a able_a in
      let k = adapt-Joined n rs b new_b able_b in
      let p = k.object in
      let (frame, sends, gives) =
        publish-receive lib v n rid c d (record { synapse = j.ref; encoder = encode n }) j.object p
          e k.ref j.transmitter enc j.there j.topic (kept ∙ still) k.bound k.there in
      let same =
        decoded lib p.dendrite (bytes (to_payload lib.utf8 e)) w k.raws
          (ap (λ m. decode m (bytes (to_payload lib.utf8 e))) k.neuron ∙ dec) in
      (
        frame,
        p.dendrite.reactants,
        sends,
        gives
            ∙ ap (λ x. (x, d))
                (same ∙ ap (λ m. ok (map (λ r. reacts r w m none) p.dendrite.reactants)) k.neuron),
        λ r. ap (contains r) k.reactants ∙ contains-update r [] rs,
      )
