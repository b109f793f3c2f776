-- ===== src/Ganglion/External/Fresh.antt =====
-- How a ganglion adapts to a neuron that is new to it, over the laws of its subclass.
use pyplexo.Base.{
  ℕ, ◌≡◌, refl, ap, ◌∙◌, true, none, some, List, [], ◌∷◌, lookup, ℕ_key, string_key, arith,
  lookup-insert,
}
use pyplexo.Codec.{Utf8}
use pyplexo.Dendrite
use pyplexo.Dendrite.Decoder
use pyplexo.Dendrite.{update}
use pyplexo.Exceptions.{ok}
use pyplexo.Neuron.{Neuron, name, encode}
use pyplexo.Ganglion.External
use pyplexo.Ganglion.External.Joined.{Joined, IsNew, Others}
use pyplexo.Ganglion.External.State
use pyplexo.Ganglion.External.State.{
  External, Synapse, EncoderTransmitter, Hooks, new_synapse, put_new,
}

-- What a subclass promises: a new synapse is a new object, and reactants are added to the object. What
-- else is made with a synapse changes the subclass's own state alone.
pub record Lawful {X Y : Type 0} (h : Hooks X Y) (u : Utf8) (y : Y) (touch : X → X) : Type 0 where
  pub creates :
      (n : Neuron) (s : External X Y)
      → lookup (name n) s.synapses ≡ none
      → h.create_synapse_by_name n (name n) s ≡ (
        ok s.next_object,
        put_new (name n) (new_synapse u n y) (record s { extra = touch s.extra }),
      )
  pub adds :
      (ref : ℕ) (rs : List ℕ) (s : External X Y)
      → h.add_reactants ref rs s ≡ State.add_reactants ref rs s

module _ {X Y : Type 0} where
  module _ (h : Hooks X Y) (u : Utf8) (y : Y) (touch : X → X) (law : Lawful h u y touch) where
    -- The state with the synapse of a new neuron.
    abbrev made : Neuron → External X Y → External X Y
    made n s = put_new (name n) (new_synapse u n y) (record s { extra = touch s.extra })

    get_new :
        (n : Neuron) (s : External X Y)
        → lookup (name n) s.synapses ≡ none
        → External.get_synapse h n s ≡ (ok s.next_object, made n s)
    unfolding External.get_synapse
    get_new n s e = ground (arith, law.creates n s e)

    get_present :
        (n : Neuron) (s : External X Y) (ref : ℕ)
        → lookup (name n) s.synapses ≡ some ref
        → External.get_synapse h n s ≡ (ok ref, s)
    unfolding External.get_synapse
    get_present n s ref e = ground arith

    abbrev connect : Neuron → ℕ → External X Y → External X Y
    connect n ref t =
        (External.create_external_transmitter_ n ref (External.create_transmitter_ n ref t).1).1

    update_got :
        (n : Neuron) (s t : External X Y) (ref : ℕ)
        → External.get_synapse h n s ≡ (ok ref, t)
        → External.update_transmitter h n s ≡ (ok tt, connect n ref t)
    unfolding External.update_transmitter External.create_transmitter_
        External.create_external_transmitter_
    update_got n s t ref e = ground arith

    connect-Joined :
        (n : Neuron) (rs : List ℕ) (ref : ℕ) (o : Synapse Y) (t : External X Y)
        → lookup (name n) t.transmitters ≡ none
        → lookup (name n) t.external_transmitters ≡ none
        → lookup (name n) t.synapses ≡ some ref
        → lookup ref t.objects ≡ some o
        → o.topic_bytes ≡ u.encode (name n)
        → o.dendrite.neuron ≡ n
        → o.dendrite.reactants ≡ update [] rs
        → o.dendrite.raw_reactants ≡ []
        → Joined u n rs (connect n ref t)
    unfolding External.create_transmitter_ External.create_external_transmitter_
    connect-Joined n rs ref o t no_t no_e bound there topic same holds raws = record {
      ref = ref;
      object = o;
      transmitter = ground (
        arith,
        lookup-insert (name n) (name n) (record { synapse = ref; encoder = encode n })
            t.transmitters,
      );
      raw_transmitter = ground (arith, lookup-insert (name n) (name n) ref t.external_transmitters);
      bound = ground arith;
      there = ground arith;
      topic = topic;
      neuron = same;
      reactants = holds;
      raws = raws;
    }

    made-bound :
        (n : Neuron) (s : External X Y) → lookup (name n) (made n s).synapses ≡ some s.next_object
    unfolding put_new
    made-bound n s = ground (arith, lookup-insert (name n) (name n) s.next_object s.synapses)

    made-there :
        (n : Neuron) (s : External X Y)
        → lookup s.next_object (made n s).objects ≡ some (new_synapse u n y)
    unfolding put_new
    made-there n s =
        ground (arith, lookup-insert s.next_object s.next_object (new_synapse u n y) s.objects)

    made-transmitters : (n : Neuron) (s : External X Y) → (made n s).transmitters ≡ s.transmitters
    unfolding put_new
    made-transmitters n s = refl

    made-external :
        (n : Neuron) (s : External X Y) → (made n s).external_transmitters ≡ s.external_transmitters
    unfolding put_new
    made-external n s = refl

    -- An object with more reactants.
    abbrev grown : List ℕ → Synapse Y → Synapse Y
    grown rs o = record o { dendrite = Decoder.add_reactants o.dendrite rs }

    react_new :
        (n : Neuron) (rs : List ℕ) (s : External X Y)
        → lookup (name n) s.synapses ≡ none
        → External.react h n rs s
          ≡ (ok tt, State.store s.next_object (grown rs (new_synapse u n y)) (made n s))
    unfolding External.react State.add_reactants
    react_new n rs s e =
        ground (arith, get_new n s e, law.adds s.next_object rs (made n s), made-there n s)

    adapt_none :
        (n : Neuron) (s : External X Y)
        → External.capable n s ≡ true
        → External.adapt h (External.react h) (External.react_raw h) n [] [] s
          ≡ External.update_transmitter h n s
    unfolding External.adapt
    adapt_none n s able = ground arith

    adapt_some :
        (n : Neuron) (r : ℕ) (rs : List ℕ) (s t : External X Y)
        → External.capable n s ≡ true
        → External.react h n (r ∷ rs) s ≡ (ok tt, t)
        → External.adapt h (External.react h) (External.react_raw h) n (r ∷ rs) [] s
          ≡ External.update_transmitter h n t
    unfolding External.adapt
    adapt_some n r rs s t able e = ground arith

    -- How adapting ends for a new neuron that the ganglion handles.
    pub record Adapted (n : Neuron) (rs : List ℕ) (s : External X Y) : Type 0 where
      pub state : External X Y
      pub ends :
          External.adapt h (External.react h) (External.react_raw h) n rs [] s ≡ (ok tt, state)
      pub joined : Joined u n rs state
      pub same_extra : state.extra ≡ touch s.extra
      pub others : Others n s state

    connect-extra : (n : Neuron) (ref : ℕ) (t : External X Y) → (connect n ref t).extra ≡ t.extra
    unfolding External.create_transmitter_ External.create_external_transmitter_
    connect-extra n ref t = ground arith

    made-extra : (n : Neuron) (s : External X Y) → (made n s).extra ≡ touch s.extra
    unfolding put_new
    made-extra n s = refl

    stored-Others :
        (n : Neuron) (o : Synapse Y) (s : External X Y)
        → Others n s (connect n s.next_object (State.store s.next_object o (made n s)))
    unfolding put_new External.create_transmitter_ External.create_external_transmitter_
        External.capable
    stored-Others n o s = record {
      transmitters = λ key e. ground (
        arith,
        e,
        lookup-insert key (name n) (record { synapse = s.next_object; encoder = encode n })
            s.transmitters,
      );
      raw_transmitters = λ key e.
          ground (arith, e, lookup-insert key (name n) s.next_object s.external_transmitters);
      synapses = λ key e. ground (arith, e, lookup-insert key (name n) s.next_object s.synapses);
      objects = λ ref h. ground (
        arith,
        h,
        lookup-insert ref s.next_object (new_synapse u n y) s.objects,
        lookup-insert ref s.next_object o (made n s).objects,
      );
      older = λ o key ref h.
          ground (arith, o key ref, h, lookup-insert key (name n) s.next_object s.synapses);
      able = λ m. ground arith;
    }

    made-Others : (n : Neuron) (s : External X Y) → Others n s (connect n s.next_object (made n s))
    unfolding put_new External.create_transmitter_ External.create_external_transmitter_
        External.capable
    made-Others n s = record {
      transmitters = λ key e. ground (
        arith,
        e,
        lookup-insert key (name n) (record { synapse = s.next_object; encoder = encode n })
            s.transmitters,
      );
      raw_transmitters = λ key e.
          ground (arith, e, lookup-insert key (name n) s.next_object s.external_transmitters);
      synapses = λ key e. ground (arith, e, lookup-insert key (name n) s.next_object s.synapses);
      objects =
          λ ref h. ground (arith, h, lookup-insert ref s.next_object (new_synapse u n y) s.objects);
      older = λ o key ref h.
          ground (arith, o key ref, h, lookup-insert key (name n) s.next_object s.synapses);
      able = λ m. ground arith;
    }

    pub adapted :
        (n : Neuron) (rs : List ℕ) (s : External X Y)
        → IsNew n s
        → External.capable n s ≡ true
        → Adapted n rs s
    unfolding new_synapse Decoder.init Dendrite.pset Decoder.add_reactants update
    adapted n [] s new able = record {
      state = connect n s.next_object (made n s);
      ends =
          adapt_none n s able
          ∙ update_got n s (made n s) s.next_object (get_new n s new.no_synapse);
      joined =
          connect-Joined n [] s.next_object (new_synapse u n y) (made n s)
            (ap (lookup (name n)) (made-transmitters n s) ∙ new.no_transmitter)
            (ap (lookup (name n)) (made-external n s) ∙ new.no_raw_transmitter) (made-bound n s)
            (made-there n s) refl refl refl refl;
      same_extra = connect-extra n s.next_object (made n s) ∙ made-extra n s;
      others = made-Others n s;
    }
    adapted n (x ∷ xs) s new able =
        let o : Synapse Y = grown (x ∷ xs) (new_synapse u n y) in
        let t : External X Y = State.store s.next_object o (made n s) in
        record {
          state = connect n s.next_object t;
          ends =
              adapt_some n x xs s t able (react_new n (x ∷ xs) s new.no_synapse)
              ∙ update_got n t t s.next_object (get_present n t s.next_object (made-bound n s));
          joined =
              connect-Joined n (x ∷ xs) s.next_object o t
                (ap (lookup (name n)) (made-transmitters n s) ∙ new.no_transmitter)
                (ap (lookup (name n)) (made-external n s) ∙ new.no_raw_transmitter) (made-bound n s)
                (lookup-insert s.next_object s.next_object o (made n s).objects ∙ ground arith) refl
                refl refl refl;
          same_extra = connect-extra n s.next_object t ∙ made-extra n s;
          others = stored-Others n o s;
        }
