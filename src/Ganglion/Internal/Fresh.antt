-- ===== src/Ganglion/Internal/Fresh.antt =====
-- How a ganglion adapts to a neuron that is new to it, as a plexus has it do, and what that leaves alone.
use pyplexo.Base.{
  ℕ, ◌≡◌, ◌≢◌, ◌<◌, refl, ap, ◌∙◌, true, none, some, List, [], ◌∷◌, Map, lookup, insert, ℕ_key,
  string_key, ℕ_discrete, arith, lookup-insert,
}
use pyplexo.Codec.{Utf8}
use pyplexo.Dendrite
use pyplexo.Exceptions.{ok}
use pyplexo.Neuron.{Neuron, name}
use pyplexo.Ganglion.Internal
use pyplexo.Ganglion.Internal.{Synapse, Internal, update_name_neurons, create_transmitter_}
use pyplexo.Ganglion.Internal.Adapt.{connect, grown, adapt_some, react_got, update_got}
use pyplexo.Ganglion.Internal.Serving.{Serving, IsNew, Others}
use pyplexo.Ganglion.Internal.Wired.{get_present, get_absent, with_synapse, empty}

module _ (u : Utf8) where
  -- The ganglion with a synapse for the neuron, whose objects are these.
  abbrev with_objects : Neuron → Map ℕ Synapse → Internal → Internal
  with_objects n objects g = record (with_synapse u n g) { objects = objects }

  Others-made :
      (n : Neuron) (objects : Map ℕ Synapse) (g : Internal)
      → ((ref : ℕ) → ref < g.next_object → lookup ref objects ≡ lookup ref g.objects)
      → Others n g (with_objects n objects g)
  unfolding Internal.capable
  Others-made n objects g same = record {
    transmitters = λ key e. refl;
    synapses = λ key e. ground (arith, e, lookup-insert key (name n) g.next_object g.synapses);
    objects = same;
    older = λ o key ref h.
        ground (arith, o key ref, h, lookup-insert key (name n) g.next_object g.synapses);
    able = λ m. refl;
  }

  Others-connect :
      (n : Neuron) (ref : ℕ) (s t : Internal) → Others n s t → Others n s (connect u n ref t)
  unfolding create_transmitter_ update_name_neurons Internal.capable
  Others-connect n ref s t o = record {
    transmitters = λ key e.
        ground (arith, e, o.transmitters key e, lookup-insert key (name n) ref t.transmitters);
    synapses = λ key e. ground (arith, o.synapses key e);
    objects = λ r h. ground (arith, o.objects r h);
    older = λ old key r h. ground (arith, o.older old key r, h);
    able = λ m. ground (arith, o.able m);
  }

  connect-bound :
      (n : Neuron) (ref : ℕ) (t : Internal)
      → lookup (name n) (connect u n ref t).synapses ≡ lookup (name n) t.synapses
  unfolding create_transmitter_ update_name_neurons
  connect-bound n ref t = ground arith

  connect-there :
      (x : ℕ) (n : Neuron) (ref : ℕ) (t : Internal)
      → lookup x (connect u n ref t).objects ≡ lookup x t.objects
  unfolding create_transmitter_ update_name_neurons
  connect-there x n ref t = ground arith

  connect-new :
      (n : Neuron) (ref : ℕ) (t : Internal)
      → lookup (name n) t.transmitters ≡ none
      → lookup (name n) (connect u n ref t).transmitters ≡ some ref
  unfolding create_transmitter_ update_name_neurons
  connect-new n ref t e = ground (arith, lookup-insert (name n) (name n) ref t.transmitters)

  connect-again :
      (n : Neuron) (ref r : ℕ) (t : Internal)
      → lookup (name n) t.transmitters ≡ some r
      → lookup (name n) (connect u n ref t).transmitters ≡ some r
  unfolding create_transmitter_ update_name_neurons
  connect-again n ref r t e = ground arith

  Serving-connect :
      (n : Neuron) (ref : ℕ) (rs : List ℕ) (t : Internal)
      → Serving n rs t
      → Serving n rs (connect u n ref t)
  Serving-connect n ref rs t j = record {
    ref = j.ref;
    object = j.object;
    bound = connect-bound n ref t ∙ j.bound;
    transmitter = connect-again n ref j.ref t j.transmitter;
    there = connect-there j.ref n ref t ∙ j.there;
    reactants = j.reactants;
    neuron = j.neuron;
  }

  synapse-bound :
      (n : Neuron) (g : Internal)
      → lookup (name n) (with_synapse u n g).synapses ≡ some g.next_object
  synapse-bound n g = ground (arith, lookup-insert (name n) (name n) g.next_object g.synapses)

  Serving-made :
      (n : Neuron) (rs : List ℕ) (objects : Map ℕ Synapse) (o : Synapse) (g : Internal)
      → IsNew n g
      → lookup g.next_object objects ≡ some o
      → o.dendrite.reactants ≡ rs
      → o.dendrite.neuron ≡ n
      → Serving n rs (connect u n g.next_object (with_objects n objects g))
  Serving-made n rs objects o g new h k l =
      let t : Internal = with_objects n objects g in
      record {
        ref = g.next_object;
        object = o;
        bound = connect-bound n g.next_object t ∙ synapse-bound n g;
        transmitter = connect-new n g.next_object t new.no_transmitter;
        there = connect-there g.next_object n g.next_object t ∙ h;
        reactants = k;
        neuron = l;
      }

  -- What a plexus has its ganglion do for a new neuron: react with the program's reactants, if there are
  -- any, adapt with the plexus's own, and look for the transmitter.
  pub record Prepared (n : Neuron) (entry : ℕ) (rs : List ℕ) (before g : Internal) : Type 0 where
    pub adapting : Internal
    pub after : Internal
    pub adapts : Internal.adapt u n (entry ∷ []) before ≡ (ok tt, adapting)
    pub updates : Internal.update_transmitter u n adapting ≡ (ok tt, after)
    pub serving : Serving n rs after
    pub others : Others n g after

  abbrev holding : Neuron → List ℕ → Synapse
  holding n rs = record (empty u n) { dendrite = record { neuron = n; reactants = rs } }

  -- With the state once the synapse holds all its reactants.
  prepared :
      (n : Neuron) (entry : ℕ) (rs : List ℕ) (before g : Internal) (objects : Map ℕ Synapse)
      → IsNew n g
      → Internal.capable n before ≡ true
      → ((ref : ℕ) → ref < g.next_object → lookup ref objects ≡ lookup ref g.objects)
      → lookup g.next_object objects ≡ some (holding n rs)
      → Internal.react u n (entry ∷ []) before ≡ (ok tt, with_objects n objects g)
      → Prepared n entry rs before g
  prepared n entry rs before g objects new able same there reacts =
      let ref = g.next_object in
      let t : Internal = with_objects n objects g in
      let v : Internal = connect u n ref t in
      let serving = Serving-made n rs objects (holding n rs) g new there refl refl in
      record {
        adapting = v;
        after = connect u n ref v;
        adapts =
            adapt_some u n entry [] before t able reacts
            ∙ update_got u n t t ref (get_present u n t ref (synapse-bound n g));
        updates =
            update_got u n v v ref
              (get_present u n v ref (connect-bound n ref t ∙ synapse-bound n g));
        serving = Serving-connect n ref rs v serving;
        others = Others-connect n ref g v (Others-connect n ref g t (Others-made n objects g same));
      }

  store-older :
      (o : Synapse) (objects : Map ℕ Synapse) (g : Internal)
      → ((ref : ℕ) → ref < g.next_object → lookup ref objects ≡ lookup ref g.objects)
      → (ref : ℕ) → ref < g.next_object
      → lookup ref (insert g.next_object o objects) ≡ lookup ref g.objects
  store-older o objects g same ref h =
      ground (arith, h, same ref h, lookup-insert ref g.next_object o objects)

  made-there :
      (n : Neuron) (g : Internal)
      → lookup g.next_object (with_synapse u n g).objects ≡ some (empty u n)
  made-there n g = ground (arith, lookup-insert g.next_object g.next_object (empty u n) g.objects)

  pub Prepared-none :
      (n : Neuron) (entry : ℕ) (g : Internal)
      → IsNew n g
      → Internal.capable n g ≡ true
      → Prepared n entry (entry ∷ []) g g
  unfolding Dendrite.init Dendrite.add_reactants Dendrite.pset Dendrite.update
  Prepared-none n entry g new able =
      let ref = g.next_object in
      let s : Internal = with_synapse u n g in
      let o = holding n (entry ∷ []) in
      prepared n entry (entry ∷ []) g g (insert ref o s.objects) new able
        (store-older o s.objects g (store-older (empty u n) g.objects g (λ r h. refl)))
        (lookup-insert ref ref o s.objects ∙ ground arith)
        (react_got u n (entry ∷ []) g s ref (empty u n) (get_absent u n g new.no_synapse)
          (made-there n g))

  added :
      (r entry : ℕ)
      → r ≢ entry
      → Dendrite.update (Dendrite.pset (r ∷ [])) (entry ∷ []) ≡ r ∷ entry ∷ []
  unfolding Dendrite.pset Dendrite.update
  added r entry apart = ground (arith, apart)

  -- With a reactant of the program.
  pub record Reacting (n : Neuron) (r entry : ℕ) (g : Internal) : Type 0 where
    pub before : Internal
    pub reacts : Internal.react u n (r ∷ []) g ≡ (ok tt, before)
    pub prepared : Prepared n entry (r ∷ entry ∷ []) before g

  pub prepared_reactant :
      (n : Neuron) (r entry : ℕ) (g : Internal)
      → r ≢ entry
      → IsNew n g
      → Internal.capable n g ≡ true
      → Reacting n r entry g
  unfolding Dendrite.init Dendrite.add_reactants Dendrite.pset Dendrite.update ℕ_discrete
      Internal.capable
  prepared_reactant n r entry g apart new able =
      let ref = g.next_object in
      let s : Internal = with_synapse u n g in
      let o = holding n (r ∷ []) in
      let p = holding n (r ∷ entry ∷ []) in
      let t : Internal = grown u ref (empty u n) (r ∷ []) s in
      let there : lookup ref t.objects ≡ some o =
        lookup-insert ref ref o s.objects ∙ ground arith in
      let same = store-older o s.objects g (store-older (empty u n) g.objects g (λ r h. refl)) in
      record {
        before = t;
        reacts =
            react_got u n (r ∷ []) g s ref (empty u n) (get_absent u n g new.no_synapse)
              (made-there n g);
        prepared =
            prepared n entry (r ∷ entry ∷ []) t g (insert ref p t.objects) new able
              (store-older p t.objects g same) (lookup-insert ref ref p t.objects ∙ ground arith)
              (react_got u n (entry ∷ []) t t ref o (get_present u n t ref (synapse-bound n g))
                  there
                ∙ ap (λ l. (ok tt, record t { objects = insert ref (holding n l) t.objects }))
                    (added r entry apart));
      }
