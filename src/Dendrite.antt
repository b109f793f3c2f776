-- ===== src/Dendrite.antt =====
-- src/plexo/dendrite.py, `Dendrite`: the reactants of a synapse. A reactant is a callable, which is known here by
-- its identity, a number; a call of it is noted with its arguments.
pub mod Once
pub mod Decoder
use pyplexo.Base.{ℕ, List, [], ◌∷◌, map, Option, add, discard, ℕ_key}
use pyplexo.Codec.{Encoded}
use pyplexo.Neuron.{Neuron}
use pyplexo.Schema.{Value}

-- A call `reactant(data, neuron, reaction_id)`.
pub data Call : Type 0 where
  reacts : ℕ → Value → Neuron → Option ℕ → Call
  reacts_raw : ℕ → Encoded → Neuron → Option ℕ → Call

-- `pset(old).update(new)`, in an order that nothing depends on
unfoldable pub update : List ℕ → List ℕ → List ℕ
update old [] = old
update old (r ∷ rs) = update (add r old) rs

-- `pset(reactants)`
unfoldable pub pset : List ℕ → List ℕ
unfolding update
pset = update []

-- `pset(old).difference(gone)`
unfoldable pub difference : List ℕ → List ℕ → List ℕ
difference old [] = old
difference old (r ∷ rs) = difference (discard r old) rs

pub record Dendrite : Type 0 where
  pub neuron : Neuron
  pub reactants : List ℕ

-- `Dendrite(neuron, reactants)`
unfoldable pub init : Neuron → List ℕ → Dendrite
unfolding pset
init n rs = record { neuron = n; reactants = pset rs }

unfoldable pub add_reactants : Dendrite → List ℕ → Dendrite
unfolding update pset
add_reactants d rs = record d { reactants = update (pset d.reactants) rs }

unfoldable pub remove_reactants : Dendrite → List ℕ → Dendrite
unfolding difference pset
remove_reactants d rs = record d { reactants = difference (pset d.reactants) rs }

-- The calls that `transduce` makes, one for each reactant.
unfoldable pub transduce : Dendrite → Value → Option ℕ → List Call
transduce d v rid = map (λ r. reacts r v d.neuron rid) d.reactants
