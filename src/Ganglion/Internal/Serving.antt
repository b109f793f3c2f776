-- ===== src/Ganglion/Internal/Serving.antt =====
-- What is there of a neuron in a ganglion that has adapted to it, and what adapting leaves alone.
use pyplexo.Base.{ℕ, ◌≡◌, ◌≢◌, ◌<◌, String, ◌∙◌, none, some, List, lookup, ℕ_key, string_key}
use pyplexo.Neuron.{Neuron, name}
use pyplexo.Ganglion.Internal
use pyplexo.Ganglion.Internal.{Synapse, Internal}

-- The ganglion gives data of a neuron to these reactants.
pub record Serving (n : Neuron) (rs : List ℕ) (g : Internal) : Type 0 where
  pub ref : ℕ
  pub object : Synapse
  pub bound : lookup (name n) g.synapses ≡ some ref
  pub transmitter : lookup (name n) g.transmitters ≡ some ref
  pub there : lookup ref g.objects ≡ some object
  pub reactants : object.dendrite.reactants ≡ rs
  pub neuron : object.dendrite.neuron ≡ n

-- The neuron is new to the ganglion.
pub record IsNew (n : Neuron) (g : Internal) : Type 0 where
  pub no_synapse : lookup (name n) g.synapses ≡ none
  pub no_transmitter : lookup (name n) g.transmitters ≡ none

-- Synapses are older than the objects to come.
abbrev pub IsOlder : Internal → Type 0
IsOlder g = (key : String) (ref : ℕ) → lookup key g.synapses ≡ some ref → ref < g.next_object

-- What adapting to a neuron leaves alone.
pub record Others (n : Neuron) (s t : Internal) : Type 0 where
  pub transmitters :
      (key : String) → name n ≢ key → lookup key t.transmitters ≡ lookup key s.transmitters
  pub synapses : (key : String) → name n ≢ key → lookup key t.synapses ≡ lookup key s.synapses
  pub objects : (ref : ℕ) → ref < s.next_object → lookup ref t.objects ≡ lookup ref s.objects
  pub older : IsOlder s → IsOlder t
  pub able : (m : Neuron) → Internal.capable m t ≡ Internal.capable m s

pub Serving-Others :
    (n m : Neuron) (rs : List ℕ) (s t : Internal)
    → Others n s t
    → name n ≢ name m
    → IsOlder s
    → Serving m rs s
    → Serving m rs t
Serving-Others n m rs s t o e older j = record {
  ref = j.ref;
  object = j.object;
  bound = o.synapses (name m) e ∙ j.bound;
  transmitter = o.transmitters (name m) e ∙ j.transmitter;
  there = o.objects j.ref (older (name m) j.ref j.bound) ∙ j.there;
  reactants = j.reactants;
  neuron = j.neuron;
}

pub IsNew-Others :
    (n m : Neuron) (s t : Internal) → Others n s t → name n ≢ name m → IsNew m s → IsNew m t
IsNew-Others n m s t o e w = record {
  no_synapse = o.synapses (name m) e ∙ w.no_synapse;
  no_transmitter = o.transmitters (name m) e ∙ w.no_transmitter;
}
