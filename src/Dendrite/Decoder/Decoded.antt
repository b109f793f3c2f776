-- ===== src/Dendrite/Decoder/Decoded.antt =====
-- What a decoder dendrite does with data that its codec decodes.
use pyplexo.Base.{ℕ, ◌≡◌, refl, ◌++◌, map, Option}
use pyplexo.Codec.{Encoded}
use pyplexo.Dendrite.{reacts, reacts_raw}
use pyplexo.Dendrite.Decoder.{DecoderDendrite, transduce, handle, calls}
use pyplexo.Exceptions.{ok}
use pyplexo.Neuron.{decode}
use pyplexo.Schema.{Value}

pub transduce-decode :
    (d : DecoderDendrite) (e : Encoded) (rid : Option ℕ) (w : Value)
    → decode d.neuron e ≡ ok w
    → transduce d e rid ≡ (
      ok tt,
      map (λ r. reacts r w d.neuron rid) d.reactants
          ++ map (λ r. reacts_raw r e d.neuron rid) d.raw_reactants,
    )
unfolding transduce handle calls
transduce-decode d e rid w h = rw h refl
