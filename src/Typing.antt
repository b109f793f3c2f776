-- ===== src/Typing.antt =====
-- src/plexo/typing/ganglion.py: what every ganglion can do, and what one can that sends encoded data
-- away, over the states of the ganglion. Whoever transmits gets back an `A`.
use pyplexo.Base.{ℕ, Bool, Option, List}
use pyplexo.Codec.{Encoded}
use pyplexo.Exceptions.{Action}
use pyplexo.Neuron.{Neuron}
use pyplexo.Schema.{Value}

pub record Ganglion (G A : Type 0) : Type 0 where
  pub capable : Neuron → G → Bool
  pub update_transmitter : Neuron → Action G (Unit {0})
  pub react : Neuron → List ℕ → Action G (Unit {0})
  pub transmit : Value → Neuron → Option ℕ → Action G A
  pub adapt : Neuron → List ℕ → Action G (Unit {0})
  pub close : Action G (Unit {0})

-- Its `adapt` takes raw reactants too.
pub record GanglionExternal (G : Type 0) : Type 0 where
  pub ganglion : Ganglion G (Unit {0})
  pub react_raw : Neuron → List ℕ → Action G (Unit {0})
  pub transmit_encoded : Encoded → Neuron → Option ℕ → Action G (Unit {0})
  pub adapt : Neuron → List ℕ → List ℕ → Action G (Unit {0})
