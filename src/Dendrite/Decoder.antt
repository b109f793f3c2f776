-- ===== src/Dendrite/Decoder.antt =====
-- src/plexo/dendrite.py, `DecoderDendrite`: reactants that are given the decoded data, and raw
-- reactants that are given the data as it came.
pub mod Decoded
use pyplexo.Base.{ℕ, List, [], ◌++◌, map, Option}
use pyplexo.Codec.{Encoded}
use pyplexo.Dendrite.{Call, reacts, reacts_raw, update, pset, difference}
use pyplexo.Exceptions.{Result, ok, raise, value_error}
use pyplexo.Neuron.{Neuron, decode}
use pyplexo.Schema.{Value}

pub record DecoderDendrite : Type 0 where
  pub neuron : Neuron
  pub reactants : List ℕ
  pub raw_reactants : List ℕ

-- `DecoderDendrite(neuron, reactants, raw_reactants)`
unfoldable pub init : Neuron → List ℕ → List ℕ → DecoderDendrite
unfolding pset
init n rs raws = record { neuron = n; reactants = pset rs; raw_reactants = pset raws }

unfoldable pub add_reactants : DecoderDendrite → List ℕ → DecoderDendrite
unfolding update pset
add_reactants d rs = record d { reactants = update (pset d.reactants) rs }

unfoldable pub add_raw_reactants : DecoderDendrite → List ℕ → DecoderDendrite
unfolding update pset
add_raw_reactants d rs = record d { raw_reactants = update (pset d.raw_reactants) rs }

unfoldable pub remove_reactants : DecoderDendrite → List ℕ → DecoderDendrite
unfolding difference pset
remove_reactants d rs = record d { reactants = difference (pset d.reactants) rs }

unfoldable pub remove_raw_reactants : DecoderDendrite → List ℕ → DecoderDendrite
unfolding difference pset
remove_raw_reactants d rs = record d { raw_reactants = difference (pset d.raw_reactants) rs }

calls : DecoderDendrite → Value → Encoded → Option ℕ → List Call
calls d v e rid =
    map (λ r. reacts r v d.neuron rid) d.reactants
    ++ map (λ r. reacts_raw r e d.neuron rid) d.raw_reactants

-- A `ValueError` of the decoder is dropped, with the data; another exception goes to the caller.
handle : DecoderDendrite → Encoded → Option ℕ → Result Value → Result (Unit {0}) × List Call
unfolding calls
handle d e rid (ok v) = (ok tt, calls d v e rid)
handle d e rid (raise value_error) = (ok tt, [])
handle d e rid (raise x) = (raise x, [])
handle d e rid Result.pending = (Result.pending, [])

-- How `transduce` ends, and the calls that it makes.
unfoldable pub transduce : DecoderDendrite → Encoded → Option ℕ → Result (Unit {0}) × List Call
unfolding handle decode
transduce d e rid = handle d e rid (decode d.neuron e)
