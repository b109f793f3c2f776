-- ===== src/Ganglion/External/Joined.antt =====
-- What is there of a neuron in a ganglion that has adapted to it, and what adapting leaves alone.
use pyplexo.Base.{ℕ, ◌≡◌, ◌≢◌, ◌<◌, String, ◌∙◌, none, some, List, [], lookup, ℕ_key, string_key}
use pyplexo.Codec.{Utf8}
use pyplexo.Dendrite.{update}
use pyplexo.Neuron.{Neuron, name, encode}
use pyplexo.Ganglion.External
use pyplexo.Ganglion.External.State.{External, Synapse}

module _ {X Y : Type 0} where
  -- What is there of a neuron once the ganglion has adapted to it.
  pub record Joined (u : Utf8) (n : Neuron) (rs : List ℕ) (t : External X Y) : Type 0 where
    pub ref : ℕ
    pub object : Synapse Y
    pub transmitter :
        lookup (name n) t.transmitters ≡ some (record { synapse = ref; encoder = encode n })
    pub raw_transmitter : lookup (name n) t.external_transmitters ≡ some ref
    pub bound : lookup (name n) t.synapses ≡ some ref
    pub there : lookup ref t.objects ≡ some object
    pub topic : object.topic_bytes ≡ u.encode (name n)
    pub neuron : object.dendrite.neuron ≡ n
    pub reactants : object.dendrite.reactants ≡ update [] rs
    pub raws : object.dendrite.raw_reactants ≡ []

  -- Synapses are older than the objects to come.
  abbrev pub IsOlder : External X Y → Type 0
  IsOlder s = (key : String) (ref : ℕ) → lookup key s.synapses ≡ some ref → ref < s.next_object

  -- What adapting to a neuron leaves alone.
  pub record Others (n : Neuron) (s t : External X Y) : Type 0 where
    pub transmitters :
        (key : String) → name n ≢ key → lookup key t.transmitters ≡ lookup key s.transmitters
    pub raw_transmitters :
        (key : String)
        → name n ≢ key
        → lookup key t.external_transmitters ≡ lookup key s.external_transmitters
    pub synapses : (key : String) → name n ≢ key → lookup key t.synapses ≡ lookup key s.synapses
    pub objects : (ref : ℕ) → ref < s.next_object → lookup ref t.objects ≡ lookup ref s.objects
    pub older : IsOlder s → IsOlder t
    pub able : (m : Neuron) → External.capable m t ≡ External.capable m s

  -- The neuron is new to the ganglion.
  pub record IsNew (n : Neuron) (s : External X Y) : Type 0 where
    pub no_synapse : lookup (name n) s.synapses ≡ none
    pub no_transmitter : lookup (name n) s.transmitters ≡ none
    pub no_raw_transmitter : lookup (name n) s.external_transmitters ≡ none

  pub IsNew-Others :
      (n m : Neuron) (s t : External X Y) → Others n s t → name n ≢ name m → IsNew m s → IsNew m t
  IsNew-Others n m s t o e w = record {
    no_synapse = o.synapses (name m) e ∙ w.no_synapse;
    no_transmitter = o.transmitters (name m) e ∙ w.no_transmitter;
    no_raw_transmitter = o.raw_transmitters (name m) e ∙ w.no_raw_transmitter;
  }

  pub Joined-Others :
      (u : Utf8) (n m : Neuron) (rs : List ℕ) (s t : External X Y)
      → Others n s t
      → name n ≢ name m
      → IsOlder s
      → Joined u m rs s
      → Joined u m rs t
  Joined-Others u n m rs s t o e older j = record {
    ref = j.ref;
    object = j.object;
    transmitter = o.transmitters (name m) e ∙ j.transmitter;
    raw_transmitter = o.raw_transmitters (name m) e ∙ j.raw_transmitter;
    bound = o.synapses (name m) e ∙ j.bound;
    there = o.objects j.ref (older (name m) j.ref j.bound) ∙ j.there;
    topic = j.topic;
    neuron = j.neuron;
    reactants = j.reactants;
    raws = j.raws;
  }
