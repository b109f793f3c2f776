-- ===== src/Ganglion/Internal/Adapt.antt =====
-- What adapting does.
use pyplexo.Base.{
  ℕ, ◌≡◌, ap, ◌∙◌, true, Option, some, List, [], ◌∷◌, map, lookup, insert, contains, ℕ_key,
  string_key, if◌then◌else◌, arith, lookup-insert, Option-cases, inl, inr, ◌||◌,
}
use pyplexo.Codec.{Utf8}
use pyplexo.Dendrite
use pyplexo.Dendrite.{Call, reacts}
use pyplexo.Dendrite.Once.{contains-update, contains-pset}
use pyplexo.Exceptions.{ok}
use pyplexo.Neuron.{Neuron, name}
use pyplexo.Schema.{Value}
use pyplexo.Ganglion.Internal.{
  Synapse, Internal, capable, get_synapse, add_reactants, create_transmitter_, update_name_neurons,
  update_transmitter, react, transmit, transduce, adapt,
}
use pyplexo.Ganglion.Internal.Wired.{Wired, reactants_of, Got, get, get_present}

module _ (u : Utf8) where
  -- The state once the neuron has a transmitter.
  abbrev pub connect : Neuron → ℕ → Internal → Internal
  connect n ref t = (update_name_neurons n (create_transmitter_ n ref t).1).1

  pub update_got :
      (n : Neuron) (s t : Internal) (ref : ℕ)
      → get_synapse u n s ≡ (ok ref, t)
      → update_transmitter u n s ≡ (ok tt, connect n ref t)
  unfolding update_transmitter create_transmitter_ update_name_neurons
  update_got n s t ref h = ground arith

  connect-Wired :
      (n : Neuron) (ref : ℕ) (t : Internal)
      → Wired t
      → lookup (name n) t.synapses ≡ some ref
      → Wired (connect n ref t)
  unfolding create_transmitter_ update_name_neurons
  connect-Wired n ref t w h = record {
    transmits =
        λ key r k. ground (arith, w.transmits key r, lookup-insert key (name n) ref t.transmitters);
    exists = λ key r k e. ground (arith, w.exists key r);
    older = λ key r k. ground (arith, w.older key r);
    named = λ key r o k e. ground (arith, w.named key r o);
  }

  pub connected :
      (n : Neuron) (ref : ℕ) (t : Internal)
      → Wired t
      → lookup (name n) t.synapses ≡ some ref
      → lookup (name n) (connect n ref t).transmitters ≡ some ref
  unfolding create_transmitter_ update_name_neurons
  connected n ref t w h = elim (Option-cases (lookup (name n) t.transmitters)) [
    | inl e ↦ ground (arith, lookup-insert (name n) (name n) ref t.transmitters)
    | inr (x, e) ↦ ground (arith, w.transmits (name n) x e)
  ]

  transmit_at :
      (n : Neuron) (ref : ℕ) (t : Internal) (o : Synapse) (v : Value) (rid : Option ℕ)
      → lookup (name n) t.transmitters ≡ some ref
      → lookup ref t.objects ≡ some o
      → transmit u v n rid t ≡ (ok (Dendrite.transduce o.dendrite v rid), t)
  unfolding transmit transduce
  transmit_at n ref t o v rid h k = ground arith

  transmit_connected :
      (n : Neuron) (ref : ℕ) (t : Internal) (o : Synapse) (v : Value) (rid : Option ℕ)
      → Wired t
      → lookup (name n) t.synapses ≡ some ref
      → lookup ref t.objects ≡ some o
      → transmit u v n rid (connect n ref t)
        ≡ (ok (Dendrite.transduce o.dendrite v rid), connect n ref t)
  unfolding create_transmitter_ update_name_neurons
  transmit_connected n ref t o v rid w h k =
      transmit_at n ref (connect n ref t) o v rid (connected n ref t w h) (ground arith)

  -- The state once reactants are added to an object.
  abbrev pub grown : ℕ → Synapse → List ℕ → Internal → Internal
  grown ref o rs t = record t {
    objects = insert ref (record o { dendrite = Dendrite.add_reactants o.dendrite rs }) t.objects;
  }

  pub react_got :
      (n : Neuron) (rs : List ℕ) (s t : Internal) (ref : ℕ) (o : Synapse)
      → get_synapse u n s ≡ (ok ref, t)
      → lookup ref t.objects ≡ some o
      → react u n rs s ≡ (ok tt, grown ref o rs t)
  unfolding react add_reactants
  react_got n rs s t ref o h k = ground arith

  grown-Wired :
      (ref : ℕ) (o : Synapse) (rs : List ℕ) (t : Internal)
      → Wired t
      → lookup ref t.objects ≡ some o
      → Wired (grown ref o rs t)
  unfolding Dendrite.add_reactants
  grown-Wired ref o rs t w there = record {
    transmits = w.transmits;
    older = w.older;
    named = λ key r p h k. ground (
      arith,
      w.named key r p h,
      w.named key r o h,
      lookup-insert r ref (record o { dendrite = Dendrite.add_reactants o.dendrite rs }) t.objects,
    );
    exists = λ key r h e. ground (
      arith,
      w.exists key r h,
      lookup-insert r ref (record o { dendrite = Dendrite.add_reactants o.dendrite rs }) t.objects,
    );
  }

  -- How adapting ends for a neuron that the ganglion handles: a state in which it is connected.
  record Adapted (n : Neuron) (rs : List ℕ) (s : Internal) : Type 0 where
    state : Internal
    ref : ℕ
    object : Synapse
    wired : Wired state
    bound : lookup (name n) state.synapses ≡ some ref
    there : lookup ref state.objects ≡ some object
    ends : adapt u n rs s ≡ (ok tt, connect n ref state)
    holds :
        (r : ℕ)
        → contains r object.dendrite.reactants
          ≡ (contains r (reactants_of (name n) s) || contains r rs)

  adapt_none :
      (n : Neuron) (s : Internal) → capable n s ≡ true → adapt u n [] s ≡ update_transmitter u n s
  unfolding adapt
  adapt_none n s h = ground arith

  pub adapt_some :
      (n : Neuron) (r : ℕ) (rs : List ℕ) (s t : Internal)
      → capable n s ≡ true
      → react u n (r ∷ rs) s ≡ (ok tt, t)
      → adapt u n (r ∷ rs) s ≡ update_transmitter u n t
  unfolding adapt
  adapt_some n r rs s t h k = ground arith

  Adapted-none :
      (n : Neuron) (s t : Internal) (ref : ℕ)
      → capable n s ≡ true
      → Got u n s t ref
      → Adapted n [] s
  Adapted-none n s t ref able g = record {
    state = t;
    ref = ref;
    object = g.found;
    wired = g.wired;
    bound = g.bound;
    there = g.there;
    ends = adapt_none n s able ∙ update_got n s t ref g.got;
    holds = λ r. ap (contains r) g.same ∙ ground arith;
  }

  Adapted-some :
      (n : Neuron) (x : ℕ) (xs : List ℕ) (s t : Internal) (ref : ℕ)
      → capable n s ≡ true
      → Got u n s t ref
      → Adapted n (x ∷ xs) s
  unfolding Dendrite.add_reactants
  Adapted-some n x xs s t ref able g =
      let o : Synapse = record g.found {
        dendrite = Dendrite.add_reactants g.found.dendrite (x ∷ xs);
      } in
      let v : Internal = grown ref g.found (x ∷ xs) t in
      record {
        state = v;
        ref = ref;
        object = o;
        wired = grown-Wired ref g.found (x ∷ xs) t g.wired g.there;
        bound = g.bound;
        there = ground (arith, lookup-insert ref ref o t.objects);
        ends =
            adapt_some n x xs s v able (react_got n (x ∷ xs) s t ref g.found g.got g.there)
            ∙ update_got n v v ref (get_present u n v ref g.bound);
        holds = λ r.
            contains-update r (Dendrite.pset g.found.dendrite.reactants) (x ∷ xs)
            ∙ ap (λ b. if b then true else contains r (x ∷ xs))
                (contains-pset r g.found.dendrite.reactants ∙ ap (contains r) g.same)
            ∙ ground arith;
      }

  adapted :
      (n : Neuron) (rs : List ℕ) (s : Internal) → Wired s → capable n s ≡ true → Adapted n rs s
  adapted n [] s w able = let (t, ref, g) = get u n s w in Adapted-none n s t ref able g
  adapted n (x ∷ xs) s w able = let (t, ref, g) = get u n s w in Adapted-some n x xs s t ref able g

  -- Once a ganglion whose transmitters are wired adapts to a neuron that it handles, it stays wired, and
  -- what is transmitted for the neuron, the value with the identity of its reaction, is given with a
  -- neuron of the same name to just the reactants that its synapse had and those of `adapt`, with
  -- nothing else changed by the transmission.
  pub adapt-transmit :
      (n : Neuron) (rs : List ℕ) (s : Internal) (v : Value) (rid : Option ℕ)
      → Wired s
      → capable n s ≡ true
      → let t = (adapt u n rs s).1 in
        (m : Neuron) × (reactants : List ℕ) × Wired t
        × (transmit u v n rid t ≡ (ok (map (λ r. reacts r v m rid) reactants), t))
        × (name m ≡ name n)
        × ((r : ℕ) → contains r reactants ≡ (contains r (reactants_of (name n) s) || contains r rs))
  unfolding Dendrite.transduce
  adapt-transmit n rs s v rid w able =
      let a = adapted n rs s w able in
      rw a.ends (
        a.object.dendrite.neuron,
        a.object.dendrite.reactants,
        connect-Wired n a.ref a.state a.wired a.bound,
        transmit_connected n a.ref a.state a.object v rid a.wired a.bound a.there,
        a.wired.named (name n) a.ref a.object a.bound a.there,
        a.holds,
      )
