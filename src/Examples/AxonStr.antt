-- ===== src/Examples/AxonStr.antt =====
-- examples/axon/inprocess/str_send.py
use pyplexo.Base.{ℕ, ◌≡◌, ◌≢◌, refl, String, none, [], ◌∷◌, ℕ_key}
use pyplexo.Axon
use pyplexo.Axon.{Axon}
use pyplexo.Codec.{Utf8, string}
use pyplexo.Exceptions.{Action, Result, ok, ◌>>◌}
use pyplexo.Namespace
use pyplexo.Neuron
use pyplexo.Neuron.{Neuron}
use pyplexo.Schema.{Value, text}
use pyplexo.Examples.OnAxon.{run-result}
use pyplexo.Examples.Received.{received_by}
use pyplexo.Examples.Rounds.{hello, rounds, values}
use pyplexo.Plexus.{Plexus}
use pyplexo.Plexus.Own
use pyplexo.Plexus.Own.{Own, methods}

module _ (u : Utf8) (decimal : ℕ → String) (entry str_reaction : ℕ) where
  pub str_neuron : Neuron
  unfolding Neuron.init Namespace.init string
  str_neuron =
      Neuron.init "str" (Namespace.init ("dev" ∷ "plexo" ∷ "test" ∷ []) ".") (string u) none

  abbrev pub message : ℕ → Value
  message i = text (hello decimal i)

  unfoldable pub send_hello_str : ℕ → ℕ → Action (Axon (Plexus Own)) (Unit {0})
  unfolding rounds Axon.transmit
  send_hello_str = rounds (Axon.transmit (methods u entry)) (λ i. ok (message i))

  -- `run`, with so many rounds of its loop
  unfoldable pub run : ℕ → Result (Unit {0}) × Axon (Plexus Own)
  unfolding send_hello_str Axon.init Axon.react Own.init
  run k =
      (do Axon.react (methods u entry) (str_reaction ∷ []); send_hello_str k 1)
        (Axon.init str_neuron (Own.init u entry))

  -- If the program's reactant is not the plexus's own, then however many rounds the program runs, it
  -- meets no exception, its reactant has been called with the message of each round once and in order,
  -- and its plexus has asked for no other deliveries.
  pub run-hello :
      str_reaction ≢ entry
      → (k : ℕ)
      → let (r, a) = run k in
        (r ≡ ok tt)
        × (received_by str_reaction a.ganglion.ganglia.received ≡ values message k 1)
        × (a.ganglion.ganglia.asked ≡ [])
  unfolding run send_hello_str
  run-hello apart k =
      run-result u entry str_reaction apart str_neuron (λ i. ok (message i)) message k (λ j. refl)
