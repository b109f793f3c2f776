-- ===== src/Plexus/Bridge/Adapted.antt =====
-- A plexus with a link adapts to a neuron that is new to it.
use pyplexo.Base.{
  ℕ, ◌≡◌, ◌≢◌, refl, String, ◌∙◌, false, List, [], ◌∷◌, ◌++◌, map, contains, ℕ_key, string_key,
  arith, ◌||◌,
}
use pyplexo.Codec.{Utf8, Encoded}
use pyplexo.Exceptions.{ok}
use pyplexo.Neuron.{Neuron, name}
use pyplexo.Ganglion.Internal
use pyplexo.Ganglion.Internal.{Internal}
use pyplexo.Ganglion.Internal.Serving
use pyplexo.Ganglion.Internal.Serving.{Serving, IsOlder, Serving-Others, IsNew-Others}
use pyplexo.Ganglion.Internal.Fresh.{Prepared, Prepared-none, prepared_reactant}
use pyplexo.Plexus
use pyplexo.Plexus.{Plexus, known, product, unpaired}
use pyplexo.Plexus.Bridge.{Link, Joint, me, other, bridge, adapt_ganglion}
use pyplexo.Plexus.Bridge.Laws.{View, Lawful, Adapts}
use pyplexo.Plexus.Bridge.Steady.{Shaped, Steady, Unmet, Tied}
use pyplexo.Plexus.Bridge.Pairing.{unpaired-product}

abbrev both_ganglia : List ℕ
both_ganglia = other ∷ me ∷ []

abbrev after : {S : Type 0} → Neuron → Internal → S → Plexus (Joint S) → Plexus (Joint S)
after n g t p = record p {
  neurons = p.neurons ++ n ∷ [];
  neuron_ganglia = product (p.neurons ++ n ∷ []) both_ganglia;
  ganglia = record p.ganglia { inproc = g; link = t };
}

known-append :
    (key : String) (ns : List Neuron) (n : Neuron)
    → known key (ns ++ n ∷ []) ≡ (known key ns || contains key (name n ∷ []))
unfolding known
known-append key [] n = ground arith
known-append key (m ∷ ns) n = ground (arith, known-append key ns n)

module _ {S F : Type 0} (u : Utf8) (l : Link S F) (own_entry link_entry : ℕ) (view : View S)
    (frame : Neuron → Encoded → F) (law : Lawful u l link_entry view frame) where
  -- What adapting comes to.
  pub record Met (n : Neuron) (rs : List ℕ) (p : Plexus (Joint S)) : Type 0 where
    pub state : Plexus (Joint S)
    pub ends : Plexus.adapt (bridge u l own_entry link_entry) n rs p ≡ (ok tt, state)
    pub steady : Steady view state
    pub tied : Tied view own_entry n rs state
    pub sent : l.sent state.ganglia.link ≡ l.sent p.ganglia.link
    pub received : state.ganglia.received ≡ p.ganglia.received
    pub unmet_others : (m : Neuron) → name n ≢ name m → Unmet view m p → Unmet view m state
    pub tied_others :
        (m : Neuron) (us : List ℕ)
        → name n ≢ name m
        → Tied view own_entry m us p
        → Tied view own_entry m us state

  abbrev set_inproc : Internal → Plexus (Joint S) → Plexus (Joint S)
  set_inproc g p = record p { ganglia = record p.ganglia { inproc = g } }

  abbrev with_neuron : Neuron → Plexus (Joint S) → Plexus (Joint S)
  with_neuron n p = record p { neurons = p.neurons ++ n ∷ [] }

  abbrev with_pairs : Neuron → Plexus (Joint S) → Plexus (Joint S)
  with_pairs n p = record (with_neuron n p) {
    neuron_ganglia = product (p.neurons ++ n ∷ []) both_ganglia;
  }

  note_pairs_eq :
      (n : Neuron) (p : Plexus (Joint S))
      → Shaped view p
      → known (name n) p.neurons ≡ false
      → Plexus.note_pairs (bridge u l own_entry link_entry) (with_neuron n p)
        ≡ (ok ((n, other) ∷ (n, me) ∷ []), with_pairs n p)
  unfolding Plexus.note_pairs
  note_pairs_eq n p s e =
      rw (s.internal, s.external, s.noted, unpaired-product p.neurons n both_ganglia e) refl

  adaptations_eq :
      (n : Neuron) (g : Internal) (t : S) (p : Plexus (Joint S))
      → Internal.adapt u n (own_entry ∷ []) p.ganglia.inproc ≡ (ok tt, g)
      → l.adapt n (link_entry ∷ []) p.ganglia.link ≡ (ok tt, t)
      → Plexus.gather
          (map (Plexus.adaptation (bridge u l own_entry link_entry)) ((n, other) ∷ (n, me) ∷ []))
          (with_pairs n p)
        ≡ (ok tt, after n g t p)
  unfolding Plexus.gather Plexus.adaptation adapt_ganglion
  adaptations_eq n g t p h k = ground (arith, h, k)

  update_neuron_ganglia_eq :
      (n : Neuron) (g : Internal) (t : S) (p q : Plexus (Joint S)) (ps : List (Neuron × ℕ))
      → Plexus.note_pairs (bridge u l own_entry link_entry) (with_neuron n p) ≡ (ok ps, q)
      → Plexus.gather (map (Plexus.adaptation (bridge u l own_entry link_entry)) ps) q
        ≡ (ok tt, after n g t p)
      → Plexus.update_neuron_ganglia (bridge u l own_entry link_entry) (with_neuron n p)
        ≡ (ok tt, after n g t p)
  unfolding Plexus.update_neuron_ganglia Plexus.note_pairs Plexus.gather
  update_neuron_ganglia_eq n g t p q ps h k = ground (arith, h, k)

  update_neurons_eq :
      (n : Neuron) (g : Internal) (t : S) (p : Plexus (Joint S))
      → Shaped view p
      → known (name n) p.neurons ≡ false
      → Internal.adapt u n (own_entry ∷ []) p.ganglia.inproc ≡ (ok tt, g)
      → l.adapt n (link_entry ∷ []) p.ganglia.link ≡ (ok tt, t)
      → Plexus.update_neurons (bridge u l own_entry link_entry) n p ≡ (ok tt, after n g t p)
  unfolding Plexus.update_neurons
  update_neurons_eq n g t p s e h k = ground (
    arith,
    e,
    update_neuron_ganglia_eq n g t p (with_pairs n p) ((n, other) ∷ (n, me) ∷ [])
        (note_pairs_eq n p s e) (adaptations_eq n g t p h k),
  )

  adapt_none_eq :
      (n : Neuron) (g x : Internal) (t : S) (p : Plexus (Joint S))
      → Shaped view p
      → known (name n) p.neurons ≡ false
      → Internal.adapt u n (own_entry ∷ []) p.ganglia.inproc ≡ (ok tt, g)
      → l.adapt n (link_entry ∷ []) p.ganglia.link ≡ (ok tt, t)
      → Internal.update_transmitter u n g ≡ (ok tt, x)
      → Plexus.adapt (bridge u l own_entry link_entry) n [] p ≡ (ok tt, after n x t p)
  unfolding Plexus.adapt Plexus.update_transmitter Plexus.capable
  adapt_none_eq n g x t p s e h k m =
      ground (arith, s.relevant, s.ignored, update_neurons_eq n g t p s e h k, m)

  adapt_some_eq :
      (n : Neuron) (r : ℕ) (b g x : Internal) (t : S) (p : Plexus (Joint S))
      → Shaped view p
      → known (name n) p.neurons ≡ false
      → Internal.react u n (r ∷ []) p.ganglia.inproc ≡ (ok tt, b)
      → Plexus.update_neurons (bridge u l own_entry link_entry) n (set_inproc b p)
        ≡ (ok tt, after n g t p)
      → Internal.update_transmitter u n g ≡ (ok tt, x)
      → Plexus.adapt (bridge u l own_entry link_entry) n (r ∷ []) p ≡ (ok tt, after n x t p)
  unfolding Plexus.adapt Plexus.update_transmitter Plexus.capable Plexus.react
  adapt_some_eq n r b g x t p s e h k m = ground (arith, s.relevant, s.ignored, h, k, m)

  after-Steady :
      (n : Neuron) (g : Internal) (t : S) (p : Plexus (Joint S))
      → Steady view p
      → Serving.Others n p.ganglia.inproc g
      → view.IsSound t
      → Steady view (after n g t p)
  after-Steady n g t p s o sound = record {
    running = record {
      shape = record {
        internal = s.running.shape.internal;
        external = s.running.shape.external;
        relevant = s.running.shape.relevant;
        ignored = s.running.shape.ignored;
        noted = refl;
      };
      older = o.older s.running.older;
      able = λ m. o.able m ∙ s.running.able m;
      sound = sound;
      fresh = s.running.fresh;
    };
    settled = s.settled;
  }

  unknown_other :
      (n m : Neuron) (ns : List Neuron)
      → name n ≢ name m
      → known (name m) ns ≡ false
      → known (name m) (ns ++ n ∷ []) ≡ false
  unknown_other n m ns e h = known-append (name m) ns n ∙ ground (arith, e, h)

  -- The two ganglia's parts give the whole.
  met :
      (n : Neuron) (rs : List ℕ) (before : Internal) (p : Plexus (Joint S))
      (g : Prepared u n own_entry (rs ++ own_entry ∷ []) before p.ganglia.inproc)
      (t : Adapts u l link_entry view n p.ganglia.link)
      → Steady view p
      → Plexus.adapt (bridge u l own_entry link_entry) n rs p ≡ (ok tt, after n g.after t.state p)
      → Met n rs p
  met n rs before p g t s e = record {
    state = after n g.after t.state p;
    ends = e;
    steady = after-Steady n g.after t.state p s g.others t.sound;
    tied = record { serving = g.serving; link = t.tied };
    sent = t.sent;
    received = refl;
    unmet_others = λ m apart w. record {
      unknown = unknown_other n m p.neurons apart w.unknown;
      inproc = IsNew-Others n m p.ganglia.inproc g.after g.others apart w.inproc;
      link = t.new_others m apart w.link;
      able = t.able m ∙ w.able;
    };
    tied_others = λ m us apart w. record {
      serving =
          Serving-Others n m (us ++ own_entry ∷ []) p.ganglia.inproc g.after g.others apart
            s.running.older w.serving;
      link = t.tied_others m apart w.link;
    };
  }

  -- `plexus.adapt(neuron)`
  pub adapt-Met : (n : Neuron) (p : Plexus (Joint S)) → Steady view p → Unmet view n p → Met n [] p
  adapt-Met n p s w =
      let g = Prepared-none u n own_entry p.ganglia.inproc w.inproc (s.running.able n) in
      let t = law.adapts n p.ganglia.link s.running.sound w.link w.able in
      met n [] p.ganglia.inproc p g t s (
        adapt_none_eq n g.adapting g.after t.state p s.running.shape w.unknown g.adapts t.ends
          g.updates)

  -- `plexus.adapt(neuron, reactants=[reactant])`
  pub adapt_reactant-Met :
      (n : Neuron) (r : ℕ) (p : Plexus (Joint S))
      → r ≢ own_entry
      → Steady view p
      → Unmet view n p
      → Met n (r ∷ []) p
  adapt_reactant-Met n r p apart s w =
      let x =
        prepared_reactant u n r own_entry p.ganglia.inproc apart w.inproc (s.running.able n) in
      let g = x.prepared in
      let t = law.adapts n p.ganglia.link s.running.sound w.link w.able in
      let h : Shaped view p = s.running.shape in
      let shape : Shaped view (set_inproc x.before p) = record {
        internal = h.internal;
        external = h.external;
        relevant = h.relevant;
        ignored = h.ignored;
        noted = h.noted;
      } in
      met n (r ∷ []) x.before p g t s (
        adapt_some_eq n r x.before g.adapting g.after t.state p h w.unknown x.reacts
          (update_neurons_eq n g.adapting t.state (set_inproc x.before p) shape w.unknown g.adapts
            t.ends)
          g.updates)
