-- ===== src/Examples/GanglionPickle.antt =====
-- examples/ganglion/inproc/pickle_send_receive.py
use pyplexo.Base.{
  ℕ, ◌≡◌, refl, ap, ◌∙◌, String, none, List, [], ◌∷◌, ◌++◌, ℕ_key, string_key, arith,
}
use pyplexo.Codec.{Utf8, pickle, Serialiser}
use pyplexo.Dendrite
use pyplexo.Dendrite.{Call, reacts}
use pyplexo.Exceptions.{Action, Result, ok, modify, ◌>>=◌, ◌>>◌}
use pyplexo.Namespace
use pyplexo.Neuron
use pyplexo.Neuron.{Neuron, name}
use pyplexo.Schema.{Value}
use pyplexo.Examples.Received.{received_by, received_by-append}
use pyplexo.Examples.Rounds.{hello, rounds, values, foo, Sent, rounds-Rounded}
use pyplexo.Ganglion.Internal
use pyplexo.Ganglion.Internal.{Internal}
use pyplexo.Plexus.Own.Connected.{Bound, synapse_with, blank, inproc_adapt}

-- The ganglion, and the calls that its transmissions have made.
pub record Watched : Type 0 where
  pub ganglion : Internal
  pub received : List Call

module _ (u : Utf8) (lib : Serialiser) (decimal : ℕ → String) (foo_reaction : ℕ) where
  abbrev on_ganglion : {A : Type 0} → Action Internal A → Action Watched A
  on_ganglion f s = let (r, g) = f s.ganglion in (r, record s { ganglion = g })

  pub foo_neuron : Neuron
  unfolding Neuron.init Namespace.init pickle
  foo_neuron =
      Neuron.init "Foo" (Namespace.init ("dev" ∷ "plexo" ∷ "test" ∷ []) ".") (pickle lib) none

  abbrev pub message : ℕ → Value
  message i = foo (hello decimal i)

  -- `ganglion.transmit(foo, foo_neuron)`
  unfoldable send : Value → Action Watched (Unit {0})
  unfolding Internal.transmit
  send v = do
    calls ← on_ganglion (Internal.transmit u v foo_neuron none)
    modify (λ s. record s { received = s.received ++ calls })

  unfoldable pub send_foo_hello_str : ℕ → ℕ → Action Watched (Unit {0})
  unfolding rounds send
  send_foo_hello_str = rounds send (λ i. ok (message i))

  -- `run`, with so many rounds of its loop
  unfoldable pub run : ℕ → Result (Unit {0}) × Watched
  unfolding send_foo_hello_str Internal.adapt Internal.init
  run k =
      (do on_ganglion (Internal.adapt u foo_neuron (foo_reaction ∷ [])); send_foo_hello_str k 1)
        (record { ganglion = Internal.init [] [] []; received = [] })

  abbrev Ready : Watched → Type 0
  Ready s = Bound u foo_neuron (synapse_with u foo_neuron (foo_reaction ∷ [])) s.ganglion

  abbrev seen : Watched → List Value
  seen s = received_by foo_reaction s.received

  inproc_transmit :
      (v : Value) (g : Internal)
      → Bound u foo_neuron (synapse_with u foo_neuron (foo_reaction ∷ [])) g
      → Internal.transmit u v foo_neuron none g
        ≡ (ok (reacts foo_reaction v foo_neuron none ∷ []), g)
  unfolding Internal.transmit Internal.transduce Dendrite.transduce
  inproc_transmit v g b = ground (arith, b.transmitter, b.there)

  send_eq :
      (v : Value) (s : Watched)
      → Ready s
      → send v s
        ≡ (ok tt, record s { received = s.received ++ reacts foo_reaction v foo_neuron none ∷ [] })
  unfolding send
  send_eq v s b = ground (arith, inproc_transmit v s.ganglion b)

  received_one :
      (v : Value) → received_by foo_reaction (reacts foo_reaction v foo_neuron none ∷ []) ≡ v ∷ []
  unfolding received_by
  received_one v = ground arith

  send-Sent : (v : Value) (s : Watched) → Ready s → Sent send Ready seen v s
  send-Sent v s b = record {
    state = record s { received = s.received ++ reacts foo_reaction v foo_neuron none ∷ [] };
    sends = send_eq v s b;
    still = b;
    more =
        received_by-append foo_reaction s.received (reacts foo_reaction v foo_neuron none ∷ [])
        ∙ ap (λ l. seen s ++ l) (received_one v);
  }

  run_eq :
      (k : ℕ) (g : Internal) (t : Watched)
      → Internal.adapt u foo_neuron (foo_reaction ∷ []) blank ≡ (ok tt, g)
      → rounds send (λ i. ok (message i)) k 1 (record { ganglion = g; received = [] }) ≡ (ok tt, t)
      → run k ≡ (ok tt, t)
  unfolding run send_foo_hello_str
  run_eq k g t h e = ground (arith, h, e)

  -- However many rounds the program runs, it meets no exception, and its reactant has been called with
  -- the message of each round once and in order.
  pub run-ganglion_foo :
      (k : ℕ)
      → let (r, s) = run k in
        (r ≡ ok tt) × (received_by foo_reaction s.received ≡ values message k 1)
  unfolding received_by
  run-ganglion_foo k =
      let (g, h, b) = inproc_adapt u foo_reaction foo_neuron in
      let t =
        rounds-Rounded send Ready seen (λ i. ok (message i)) message k 1
          (record { ganglion = g; received = [] }) send-Sent (λ j. refl) b in
      let e = run_eq k g t.state h t.ends in
      (ap (λ x. x.0) e, ap (λ x. received_by foo_reaction x.1.received) e ∙ t.more)
