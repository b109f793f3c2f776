-- ===== src/Examples/PlexusPickle.antt =====
-- examples/plexus/inprocess/pickle_send.py
use pyplexo.Base.{ℕ, ◌≡◌, ◌≢◌, refl, String, none, [], ◌∷◌, ℕ_key}
use pyplexo.Codec.{Utf8, pickle, Serialiser}
use pyplexo.Exceptions.{Action, Result, ok, ◌>>◌}
use pyplexo.Namespace
use pyplexo.Neuron
use pyplexo.Neuron.{Neuron}
use pyplexo.Schema.{Value}
use pyplexo.Examples.Received.{received_by}
use pyplexo.Examples.OnPlexus.{run-result}
use pyplexo.Examples.Rounds.{hello, rounds, values, foo}
use pyplexo.Plexus
use pyplexo.Plexus.{Plexus}
use pyplexo.Plexus.Own
use pyplexo.Plexus.Own.{Own, own}

module _ (u : Utf8) (lib : Serialiser) (decimal : ℕ → String) (entry foo_reaction : ℕ) where
  pub foo_neuron : Neuron
  unfolding Neuron.init Namespace.init pickle
  foo_neuron =
      Neuron.init "Foo" (Namespace.init ("dev" ∷ "plexo" ∷ "test" ∷ []) ".") (pickle lib) none

  abbrev pub message : ℕ → Value
  message i = foo (hello decimal i)

  unfoldable pub send_foo_hello_str : ℕ → ℕ → Action (Plexus Own) (Unit {0})
  unfolding rounds Own.transmit
  send_foo_hello_str = rounds (λ v. Own.transmit u entry v foo_neuron none) (λ i. ok (message i))

  -- `run`, with so many rounds of its loop
  unfoldable pub run : ℕ → Result (Unit {0}) × Plexus Own
  unfolding send_foo_hello_str Plexus.adapt Own.init
  run k =
      (do Plexus.adapt (own u entry) foo_neuron (foo_reaction ∷ []); send_foo_hello_str k 1)
        (Own.init u entry)

  -- If the program's reactant is not the plexus's own, then however many rounds the program runs, it
  -- meets no exception, its reactant has been called with the message of each round once and in order,
  -- and its plexus has asked for no other deliveries.
  pub run-plexus_foo :
      foo_reaction ≢ entry
      → (k : ℕ)
      → let (r, p) = run k in
        (r ≡ ok tt)
        × (received_by foo_reaction p.ganglia.received ≡ values message k 1)
        × (p.ganglia.asked ≡ [])
  unfolding run send_foo_hello_str
  run-plexus_foo apart k =
      run-result u entry foo_reaction apart foo_neuron (λ i. ok (message i)) message k (λ j. refl)
