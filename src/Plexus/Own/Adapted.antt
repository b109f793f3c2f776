-- ===== src/Plexus/Own/Adapted.antt =====
-- A new plexus that adapts to a neuron with a reactant of the program.
use pyplexo.Base.{
  ℕ, ◌≡◌, ◌≢◌, refl, ap, ◌∙◌, some, [], ◌∷◌, lookup, ℕ_key, string_key, ℕ_discrete, arith,
  lookup-insert, inl,
}
use pyplexo.Codec.{Utf8}
use pyplexo.Dendrite
use pyplexo.Exceptions.{ok}
use pyplexo.Neuron.{Neuron, name}
use pyplexo.Ganglion.Internal
use pyplexo.Ganglion.Internal.{Internal}
use pyplexo.Ganglion.Internal.Adapt.{connect, grown, adapt_some, react_got, update_got}
use pyplexo.Ganglion.Internal.Wired.{get_present, get_absent, with_synapse, empty}
use pyplexo.Plexus
use pyplexo.Plexus.{Plexus}
use pyplexo.Plexus.Own.{Own, own, init}
use pyplexo.Plexus.Own.Connected.{synapse_with, blank, connect-Bound, inproc_update}
use pyplexo.Plexus.Own.Served.{Served, made, init_eq, after, ready, update_neurons_eq}

module _ (u : Utf8) (entry : ℕ) where
  adapt_made :
      (n : Neuron) (r : ℕ) (g t v : Internal)
      → Internal.react u n (r ∷ []) blank ≡ (ok tt, g)
      → Internal.adapt u n (entry ∷ []) g ≡ (ok tt, t)
      → Internal.update_transmitter u n t ≡ (ok tt, v)
      → Plexus.adapt (own u entry) n (r ∷ []) (made u entry) ≡ (ok tt, after u entry n v)
  unfolding Plexus.adapt Plexus.react Plexus.update_transmitter Plexus.capable
  adapt_made n r g t v h k l = ground (arith, update_neurons_eq u entry n g t k, h, l)

  -- What the plexus is once it has adapted.
  pub record Adapted (n : Neuron) (r : ℕ) : Type 0 where
    pub state : Plexus Own
    pub adapts : Plexus.adapt (own u entry) n (r ∷ []) (init u entry) ≡ (ok tt, state)
    pub served : Served n (r ∷ entry ∷ []) state
    pub none_received : state.ganglia.received ≡ []
    pub none_asked : state.ganglia.asked ≡ []

  pub adapted : (n : Neuron) (r : ℕ) → r ≢ entry → Adapted n r
  unfolding Internal.capable Dendrite.init Dendrite.add_reactants Dendrite.pset Dendrite.update
      ℕ_discrete
  adapted n r apart =
      let s : Internal = with_synapse u n blank in
      let bound : lookup (name n) s.synapses ≡ some 0 =
        lookup-insert (name n) (name n) 0 [] ∙ ground arith in
      let g : Internal = grown u 0 (empty u n) (r ∷ []) s in
      let one = synapse_with u n (r ∷ []) in
      let two = synapse_with u n (r ∷ entry ∷ []) in
      let t : Internal = grown u 0 one (entry ∷ []) g in
      let there : lookup 0 t.objects ≡ some two = ground arith in
      let v = connect u n 0 t in
      let b = connect-Bound u n two t bound there (inl refl) in
      let (k, c) = inproc_update u n two v b in
      let reacts = react_got u n (r ∷ []) blank s 0 (empty u n) (get_absent u n blank refl) refl in
      let adapts =
        adapt_some u n entry [] g t refl
          (react_got u n (entry ∷ []) g g 0 one (get_present u n g 0 bound) refl)
        ∙ update_got u n t t 0 (get_present u n t 0 bound) in
      record {
        state = after u entry n (connect u n 0 v);
        adapts =
            ap (Plexus.adapt (own u entry) n (r ∷ [])) (init_eq u entry)
            ∙ adapt_made n r g v (connect u n 0 v) reacts adapts k;
        served = ready u entry n (r ∷ entry ∷ []) (connect u n 0 v) c;
        none_received = refl;
        none_asked = refl;
      }
