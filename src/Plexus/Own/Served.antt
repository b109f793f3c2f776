-- ===== src/Plexus/Own/Served.antt =====
-- What a plexus with no ganglia but its own does once a program has adapted it.
use pyplexo.Base.{
  ℕ, ◌≡◌, refl, ap, ◌∙◌, Option, some, List, [], ◌∷◌, ◌++◌, map, lookup, ℕ_key, string_key, arith,
  ◌≢◌,
}
use pyplexo.Codec.{Utf8}
use pyplexo.Dendrite
use pyplexo.Dendrite.{Call, reacts, Dendrite, add_reactants}
use pyplexo.Exceptions.{ok}
use pyplexo.Neuron.{Neuron, name}
use pyplexo.Schema.{Value}
use pyplexo.Ganglion.Internal
use pyplexo.Ganglion.Internal.{Internal, Synapse}
use pyplexo.Ganglion.Internal.Adapt.{connect}
use pyplexo.Plexus
use pyplexo.Plexus.{Plexus, Delivery}
use pyplexo.Plexus.Own.{Own, me, own, init, carry_out, transmit}
use pyplexo.Plexus.Own.Connected.{
  Bound, synapse_with, blank, inproc_adapt, inproc_update, inproc_react,
}
use pyplexo.Plexus.Own.Carried.{Alone, Carried, carry_out-Carried}

-- The plexus gives data of a neuron to these reactants, and nothing waits.
pub record Served (n : Neuron) (rs : List ℕ) (p : Plexus Own) : Type 0 where
  pub ref : ℕ
  pub object : Synapse
  pub alone : Alone p
  pub transmitter : lookup (name n) p.ganglia.inproc.transmitters ≡ some ref
  pub there : lookup ref p.ganglia.inproc.objects ≡ some object
  pub reactants : object.dendrite.reactants ≡ rs
  pub neuron : object.dendrite.neuron ≡ n
  pub settled : p.ganglia.waiting ≡ []

-- The calls of some reactants with data of a neuron.
abbrev pub calls_of : List ℕ → Value → Neuron → Option ℕ → List Call
calls_of rs v n rid = map (λ r. reacts r v n rid) rs

module _ (u : Utf8) (entry : ℕ) where
  abbrev emptied : Plexus Own → Plexus Own
  emptied p = record p { ganglia = record p.ganglia { waiting = [] } }

  inproc_transmit :
      (n : Neuron) (rs : List ℕ) (v : Value) (rid : Option ℕ) (p : Plexus Own)
      → Served n rs p
      → Internal.transmit u v n rid p.ganglia.inproc ≡ (ok (calls_of rs v n rid), p.ganglia.inproc)
  unfolding Internal.transmit Internal.transduce Dendrite.transduce
  inproc_transmit n rs v rid p s =
      let d = s.object.dendrite in
      let found : Internal.transmit u v n rid p.ganglia.inproc
          ≡ (ok (calls_of d.reactants v d.neuron rid), p.ganglia.inproc) =
        ground (arith, s.transmitter, s.there) in
      found
      ∙ ap (λ m. (ok (calls_of d.reactants v m rid), p.ganglia.inproc)) s.neuron
      ∙ ap (λ l. (ok (calls_of l v n rid), p.ganglia.inproc)) s.reactants

  transmit_eq :
      (n : Neuron) (rs : List ℕ) (v : Value) (rid : Option ℕ) (p : Plexus Own)
      → Served n rs p
      → transmit u entry v n rid p ≡ carry_out u entry (calls_of rs v n rid) (emptied p)
  unfolding transmit
  transmit_eq n rs v rid p s = ground (arith, inproc_transmit n rs v rid p s, s.settled)

  kept :
      (n : Neuron) (rs : List ℕ) (cs : List Call) (p t : Plexus Own)
      → Served n rs p
      → Carried cs (emptied p) t
      → Served n rs t
  kept n rs cs p t s c = record {
    ref = s.ref;
    object = s.object;
    alone = c.alone;
    transmitter = ap (λ g. lookup (name n) g.transmitters) c.same ∙ s.transmitter;
    there = ap (λ g. lookup s.ref g.objects) c.same ∙ s.there;
    reactants = s.reactants;
    neuron = s.neuron;
    settled = c.still;
  }

  -- What a transmission comes to: each of the reactants is called once, in turn, and nothing is asked for.
  pub transmit-Served :
      (n : Neuron) (rs : List ℕ) (v : Value) (rid : Option ℕ) (p : Plexus Own)
      → Served n rs p
      → (t : Plexus Own) × (transmit u entry v n rid p ≡ (ok tt, t))
        × Served n rs t
        × (t.ganglia.received ≡ p.ganglia.received ++ calls_of rs v n rid)
        × (t.ganglia.asked ≡ p.ganglia.asked)
  transmit-Served n rs v rid p s =
      let (t, h, c) =
        carry_out-Carried u entry (calls_of rs v n rid) (emptied p)
          (record { internal = s.alone.internal; external = s.alone.external }) in
      (
        t,
        transmit_eq n rs v rid p s ∙ h,
        kept n rs (calls_of rs v n rid) p t s c,
        c.received,
        c.asked,
      )

  -- The plexus once it has adapted to one neuron, with this state of its ganglion.
  abbrev pub after : Neuron → Internal → Plexus Own
  after n g = record {
    internal_ganglia = me ∷ [];
    external_ganglia = [];
    neurons = n ∷ [];
    neuron_ganglia = (n, me) ∷ [];
    reactions = [];
    relevant_neurons = [];
    ignored_neurons = [];
    ganglia = record { inproc = g; waiting = []; received = []; asked = []; next_id = 0 };
  }

  -- A new plexus.
  abbrev pub made : Plexus Own
  made = record {
    internal_ganglia = me ∷ [];
    external_ganglia = [];
    neurons = [];
    neuron_ganglia = [];
    reactions = [];
    relevant_neurons = [];
    ignored_neurons = [];
    ganglia = record { inproc = blank; waiting = []; received = []; asked = []; next_id = 0 };
  }

  pub init_eq : init u entry ≡ made
  unfolding init
  init_eq = refl

  -- The plexus with this state of its ganglion.
  abbrev pub with_inproc : Internal → Plexus Own
  with_inproc g = record made { ganglia = record made.ganglia { inproc = g } }

  pub update_neurons_eq :
      (n : Neuron) (g t : Internal)
      → Internal.adapt u n (entry ∷ []) g ≡ (ok tt, t)
      → Plexus.update_neurons (own u entry) n (with_inproc g) ≡ (ok tt, after n t)
  unfolding Plexus.update_neurons Plexus.update_neuron_ganglia Plexus.note_pairs Plexus.known
      Plexus.product Plexus.unpaired Plexus.gather
  update_neurons_eq n g t h = ground (arith, h)

  adapt_made :
      (n : Neuron) (g t : Internal)
      → Internal.adapt u n (entry ∷ []) blank ≡ (ok tt, g)
      → Internal.update_transmitter u n g ≡ (ok tt, t)
      → Plexus.adapt (own u entry) n [] made ≡ (ok tt, after n t)
  unfolding Plexus.adapt Plexus.update_transmitter Plexus.capable
  adapt_made n g t h k = ground (arith, update_neurons_eq n blank g h, k)

  adapt_eq :
      (n : Neuron) (g t : Internal)
      → Internal.adapt u n (entry ∷ []) blank ≡ (ok tt, g)
      → Internal.update_transmitter u n g ≡ (ok tt, t)
      → Plexus.adapt (own u entry) n [] (init u entry) ≡ (ok tt, after n t)
  adapt_eq n g t h k = ap (Plexus.adapt (own u entry) n []) init_eq ∙ adapt_made n g t h k

  react_eq :
      (n : Neuron) (r : ℕ) (g t : Internal)
      → Internal.react u n (r ∷ []) g ≡ (ok tt, t)
      → Plexus.react (own u entry) n (r ∷ []) (after n g) ≡ (ok tt, after n t)
  unfolding Plexus.react
  react_eq n r g t h = ground (arith, h)

  pub ready :
      (n : Neuron) (rs : List ℕ) (g : Internal)
      → Bound u n (synapse_with u n rs) g
      → Served n rs (after n g)
  ready n rs g b = record {
    ref = 0;
    object = synapse_with u n rs;
    alone = record { internal = refl; external = refl };
    transmitter = b.transmitter;
    there = b.there;
    reactants = refl;
    neuron = refl;
    settled = refl;
  }

  -- What a program has made of a new plexus when it has adapted it to a neuron, and then given it a
  -- reactant.
  pub record Started (n : Neuron) (r : ℕ) : Type 0 where
    pub adapted : Plexus Own
    pub adapts : Plexus.adapt (own u entry) n [] (init u entry) ≡ (ok tt, adapted)
    pub state : Plexus Own
    pub reacts : Plexus.react (own u entry) n (r ∷ []) adapted ≡ (ok tt, state)
    pub served : Served n (entry ∷ r ∷ []) state
    pub none_received : state.ganglia.received ≡ []
    pub none_asked : state.ganglia.asked ≡ []

  pub started : (n : Neuron) (r : ℕ) → r ≢ entry → Started n r
  started n r apart =
      let (g, h, b) = inproc_adapt u entry n in
      let (k, c) = inproc_update u n (synapse_with u n (entry ∷ [])) g b in
      let v = connect u n 0 g in
      let (t, l, d) = inproc_react u entry n r v apart c in
      record {
        adapted = after n v;
        adapts = adapt_eq n g v h k;
        state = after n t;
        reacts = react_eq n r v t l;
        served = ready n (entry ∷ r ∷ []) t d;
        none_received = refl;
        none_asked = refl;
      }
