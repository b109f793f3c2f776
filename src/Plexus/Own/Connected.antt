-- ===== src/Plexus/Own/Connected.antt =====
-- The ganglion of a plexus that has no other, once it has adapted to a neuron.
use pyplexo.Base.{
  ℕ, ◌≡◌, refl, ◌∙◌, none, some, List, [], ◌∷◌, lookup, ℕ_key, string_key, ℕ_discrete, arith,
  lookup-insert, ◌⊎◌, inl, inr, ◌≢◌,
}
use pyplexo.Codec.{Utf8}
use pyplexo.Dendrite
use pyplexo.Dendrite.{Call, reacts, Dendrite, add_reactants}
use pyplexo.Exceptions.{ok}
use pyplexo.Neuron.{Neuron, name}
use pyplexo.Ganglion.Internal
use pyplexo.Ganglion.Internal.{Internal, Synapse}
use pyplexo.Ganglion.Internal.Adapt.{connect, grown, adapt_some, react_got, update_got}
use pyplexo.Ganglion.Internal.Wired.{get_present, get_absent, with_synapse, empty}

-- A ganglion with nothing in it.
abbrev pub blank : Internal
blank = record {
  tasks = [];
  synapses = [];
  objects = [];
  next_object = 0;
  transmitters = [];
  name_neurons = [];
  relevant_neurons = [];
  ignored_neurons = [];
  allowed_codecs = [];
}

module _ (u : Utf8) where
  -- The ganglion with a synapse for the neuron, its object and its transmitter.
  pub record Bound (n : Neuron) (o : Synapse) (g : Internal) : Type 0 where
    pub bound : lookup (name n) g.synapses ≡ some 0
    pub there : lookup 0 g.objects ≡ some o
    pub transmitter : lookup (name n) g.transmitters ≡ some 0

  abbrev pub synapse_with : Neuron → List ℕ → Synapse
  synapse_with n rs = record {
    neuron = n;
    topic_bytes = u.encode (name n);
    dendrite = record { neuron = n; reactants = rs };
  }

  pub connect-Bound :
      (n : Neuron) (o : Synapse) (g : Internal)
      → lookup (name n) g.synapses ≡ some 0
      → lookup 0 g.objects ≡ some o
      → (lookup (name n) g.transmitters ≡ none) ⊎ (lookup (name n) g.transmitters ≡ some 0)
      → Bound n o (connect u n 0 g)
  unfolding Internal.create_transmitter_ Internal.update_name_neurons
  connect-Bound n o g b h (inl e) = record {
    bound = ground arith;
    there = ground arith;
    transmitter = ground (arith, lookup-insert (name n) (name n) 0 g.transmitters);
  }
  connect-Bound n o g b h (inr e) = record {
    bound = ground arith;
    there = ground arith;
    transmitter = ground arith;
  }

  pub inproc_adapt :
      (entry : ℕ) (n : Neuron)
      → (g : Internal) × (Internal.adapt u n (entry ∷ []) blank ≡ (ok tt, g))
        × Bound n (synapse_with n (entry ∷ [])) g
  unfolding Internal.capable Dendrite.init Dendrite.add_reactants Dendrite.pset Dendrite.update
      ℕ_discrete
  inproc_adapt entry n =
      let s : Internal = with_synapse u n blank in
      let bound : lookup (name n) s.synapses ≡ some 0 =
        lookup-insert (name n) (name n) 0 [] ∙ ground arith in
      let t : Internal = grown u 0 (empty u n) (entry ∷ []) s in
      (
        connect u n 0 t,
        adapt_some u n entry [] blank t refl
              (react_got u n (entry ∷ []) blank s 0 (empty u n) (get_absent u n blank refl) refl)
            ∙ update_got u n t t 0 (get_present u n t 0 bound),
        connect-Bound n (synapse_with n (entry ∷ [])) t bound refl (inl refl),
      )

  pub inproc_update :
      (n : Neuron) (o : Synapse) (g : Internal)
      → Bound n o g
      → (Internal.update_transmitter u n g ≡ (ok tt, connect u n 0 g)) × Bound n o (connect u n 0 g)
  inproc_update n o g b = (
    update_got u n g g 0 (get_present u n g 0 b.bound),
    connect-Bound n o g b.bound b.there (inr b.transmitter),
  )

  pub inproc_react :
      (entry : ℕ) (n : Neuron) (r : ℕ) (g : Internal)
      → r ≢ entry
      → Bound n (synapse_with n (entry ∷ [])) g
      → (t : Internal) × (Internal.react u n (r ∷ []) g ≡ (ok tt, t))
        × Bound n (synapse_with n (entry ∷ r ∷ [])) t
  unfolding Dendrite.add_reactants Dendrite.pset Dendrite.update
  inproc_react entry n r g apart b =
      let o = synapse_with n (entry ∷ []) in
      (
        grown u 0 o (r ∷ []) g,
        react_got u n (r ∷ []) g g 0 o (get_present u n g 0 b.bound) b.there,
        record {
          bound = b.bound;
          there = ground (arith, lookup-insert 0 0 (synapse_with n (entry ∷ r ∷ [])) g.objects);
          transmitter = b.transmitter;
        },
      )
