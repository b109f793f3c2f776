-- ===== src/Ganglion/Internal/Wired.antt =====
-- Ganglia whose transmitters lead to their synapses, and what finding a synapse comes to.
use pyplexo.Base.{
  ℕ, ◌≡◌, ◌<◌, ◌+◌, String, Option, none, some, List, [], lookup, insert, ℕ_key, string_key, arith,
  lookup-insert, Option-cases, inl, inr,
}
use pyplexo.Codec.{Utf8}
use pyplexo.Dendrite
use pyplexo.Dendrite.{Call}
use pyplexo.Exceptions.{ok}
use pyplexo.Neuron.{Neuron, name}
use pyplexo.Ganglion.Internal.{Synapse, Internal, get_synapse}

-- Transmitters lead where the synapses of their names do, and each synapse is an object that was made
-- before and whose neuron has the name.
pub record Wired (s : Internal) : Type 0 where
  pub transmits :
      (key : String) (ref : ℕ)
      → lookup key s.transmitters ≡ some ref
      → lookup key s.synapses ≡ some ref
  pub exists :
      (key : String) (ref : ℕ) → lookup key s.synapses ≡ some ref → lookup ref s.objects ≡ none → ⊥
  pub older : (key : String) (ref : ℕ) → lookup key s.synapses ≡ some ref → ref < s.next_object
  pub named :
      (key : String) (ref : ℕ) (o : Synapse)
      → lookup key s.synapses ≡ some ref
      → lookup ref s.objects ≡ some o
      → name o.dendrite.neuron ≡ key

abbrev pub reactants_at : Option Synapse → List ℕ
reactants_at none = []
reactants_at (some o) = o.dendrite.reactants

abbrev pub object_at : Internal → Option ℕ → Option Synapse
object_at s none = none
object_at s (some ref) = lookup ref s.objects

-- The reactants that the synapse of a name has, if there is one.
abbrev pub reactants_of : String → Internal → List ℕ
reactants_of key s = reactants_at (object_at s (lookup key s.synapses))

module _ (u : Utf8) where
  pub get_present :
      (n : Neuron) (s : Internal) (ref : ℕ)
      → lookup (name n) s.synapses ≡ some ref
      → get_synapse u n s ≡ (ok ref, s)
  unfolding get_synapse
  get_present n s ref h = ground arith

  abbrev pub empty : Neuron → Synapse
  empty n = record { neuron = n; topic_bytes = u.encode (name n); dendrite = Dendrite.init n [] }

  -- The state with a new synapse for a neuron.
  abbrev pub with_synapse : Neuron → Internal → Internal
  with_synapse n s = record s {
    objects = insert s.next_object (empty n) s.objects;
    next_object = s.next_object + 1;
    synapses = insert (name n) s.next_object s.synapses;
  }

  pub get_absent :
      (n : Neuron) (s : Internal)
      → lookup (name n) s.synapses ≡ none
      → get_synapse u n s ≡ (ok s.next_object, with_synapse n s)
  unfolding get_synapse
  get_absent n s h = ground arith

  pub with_synapse-Wired :
      (n : Neuron) (s : Internal)
      → lookup (name n) s.synapses ≡ none
      → Wired s
      → Wired (with_synapse n s)
  unfolding Dendrite.init
  with_synapse-Wired n s absent w = record {
    transmits = λ key ref h.
        ground (arith, w.transmits key ref h, lookup-insert key (name n) s.next_object s.synapses);
    exists = λ key ref h e. ground (
      arith,
      w.exists key ref,
      lookup-insert key (name n) s.next_object s.synapses,
      lookup-insert ref s.next_object (empty n) s.objects,
    );
    older = λ key ref h.
        ground (arith, w.older key ref, lookup-insert key (name n) s.next_object s.synapses);
    named = λ key ref o h k. ground (
      arith,
      w.named key ref o,
      w.older key ref,
      lookup-insert key (name n) s.next_object s.synapses,
      lookup-insert ref s.next_object (empty n) s.objects,
    );
  }

  -- What `get_synapse` comes to.
  pub record Got (n : Neuron) (s t : Internal) (ref : ℕ) : Type 0 where
    pub got : get_synapse u n s ≡ (ok ref, t)
    pub wired : Wired t
    pub bound : lookup (name n) t.synapses ≡ some ref
    pub found : Synapse
    pub there : lookup ref t.objects ≡ some found
    pub same : found.dendrite.reactants ≡ reactants_of (name n) s

  pub Got-present :
      (n : Neuron) (s : Internal) (ref : ℕ) (o : Synapse)
      → Wired s
      → lookup (name n) s.synapses ≡ some ref
      → lookup ref s.objects ≡ some o
      → Got n s s ref
  Got-present n s ref o w h k = record {
    got = get_present n s ref h;
    wired = w;
    bound = h;
    found = o;
    there = k;
    same = ground arith;
  }

  pub Got-absent :
      (n : Neuron) (s : Internal)
      → Wired s
      → lookup (name n) s.synapses ≡ none
      → Got n s (with_synapse n s) s.next_object
  unfolding Dendrite.init Dendrite.pset
  Got-absent n s w h = record {
    got = get_absent n s h;
    wired = with_synapse-Wired n s h w;
    bound = ground (arith, lookup-insert (name n) (name n) s.next_object s.synapses);
    found = empty n;
    there = ground (arith, lookup-insert s.next_object s.next_object (empty n) s.objects);
    same = ground arith;
  }

  pub get : (n : Neuron) (s : Internal) → Wired s → (t : Internal) × (ref : ℕ) × Got n s t ref
  get n s w = elim (Option-cases (lookup (name n) s.synapses)) [
    | inl h ↦ (with_synapse n s, s.next_object, Got-absent n s w h)
    | inr (ref, h) ↦ elim (Option-cases (lookup ref s.objects)) [
      | inl k ↦ absurd (w.exists (name n) ref h k)
      | inr (o, k) ↦ (s, ref, Got-present n s ref o w h k)
    ]
  ]
