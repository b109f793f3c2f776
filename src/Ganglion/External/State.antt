-- ===== src/Ganglion/External/State.antt =====
-- The state of src/plexo/ganglion/external.py and src/plexo/synapse/base.py.
use pyplexo.Base.{
  ℕ, ◌+◌, String, Bool, true, false, none, some, List, [], Map, lookup, insert, Key, ℕ_key,
  string_key, ℕ_discrete,
}
use pyplexo.Codec.{Encoded, CodecClass, Utf8}
use pyplexo.Dendrite.Decoder
use pyplexo.Dendrite.Decoder.{DecoderDendrite}
use pyplexo.Exceptions.{Action, Result, gets, or_throw, modify, ◌>>=◌, attribute_error}
use pyplexo.Neuron.{Neuron, name}
use pyplexo.Schema.{Bytes, Value}

unfoldable pub codec_class_discrete : Discrete CodecClass
codec_class_discrete = hlevel ℕ_discrete

instance abbrev pub codec_class_key : Key CodecClass
codec_class_key = record { dec = codec_class_discrete }

-- `SynapseExternalBase`
pub record Synapse (Y : Type 0) : Type 0 where
  pub neuron : Neuron
  pub topic_bytes : Bytes
  pub dendrite : DecoderDendrite
  pub channel : Y

-- `partial(transmit_external_encode, synapse, encoder)`
pub record EncoderTransmitter : Type 0 where
  pub synapse : ℕ
  pub encoder : Value → Result Encoded

-- A background task that the object keeps for `close`.
pub data Task : Type 0 where
  recv_loop heartbeat_loop num_peers_loop : Task

pub record External (X Y : Type 0) : Type 0 where
  pub tasks : List Task
  pub synapses : Map String ℕ
  pub objects : Map ℕ (Synapse Y)
  pub next_object : ℕ
  pub transmitters : Map String EncoderTransmitter
  pub external_transmitters : Map String ℕ
  pub name_neurons : Map String Neuron
  pub relevant_neurons : List String
  pub ignored_neurons : List String
  pub allowed_codecs : List CodecClass
  pub extra : X

-- `key in map`
abbrev pub has : {V : Type 0} → String → Map String V → Bool
has key m = elim (lookup key m) [ none ↦ false | some _ ↦ true ]

-- The methods that a subclass and its synapses give: synapses are named by their reference.
pub record Hooks (X Y : Type 0) : Type 0 where
  pub create_synapse_by_name : Neuron → String → Action (External X Y) ℕ
  pub add_reactants : ℕ → List ℕ → Action (External X Y) (Unit {0})
  pub add_raw_reactants : ℕ → List ℕ → Action (External X Y) (Unit {0})

-- `SynapseExternalBase.__init__`: a new object, with no reactants yet
unfoldable pub new_synapse : {Y : Type 0} → Utf8 → Neuron → Y → Synapse Y
unfolding Decoder.init name
new_synapse u n y = record {
  neuron = n;
  topic_bytes = u.encode (name n);
  dendrite = Decoder.init n [] [];
  channel = y;
}

module _ {X Y : Type 0} where
  -- `__init__`
  unfoldable pub init : List String → List String → List CodecClass → X → External X Y
  init relevant ignored allowed x = record {
    tasks = [];
    synapses = [];
    objects = [];
    next_object = 0;
    transmitters = [];
    external_transmitters = [];
    name_neurons = [];
    relevant_neurons = relevant;
    ignored_neurons = ignored;
    allowed_codecs = allowed;
    extra = x;
  }

  -- A method call on a synapse that is not there does not happen in Python: a reference is good.
  abbrev pub deref : ℕ → Action (External X Y) (Synapse Y)
  deref ref = do or_throw (← gets (λ s. lookup ref s.objects)) attribute_error

  abbrev pub store : ℕ → Synapse Y → External X Y → External X Y
  store ref o s = record s { objects = insert ref o s.objects }

  -- `SynapseExternalBase.add_reactants`
  unfoldable pub add_reactants : ℕ → List ℕ → Action (External X Y) (Unit {0})
  unfolding Decoder.add_reactants
  add_reactants ref rs = do
    o ← deref ref
    modify (store ref (record o { dendrite = Decoder.add_reactants o.dendrite rs }))

  -- `SynapseExternalBase.add_raw_reactants`
  unfoldable pub add_raw_reactants : ℕ → List ℕ → Action (External X Y) (Unit {0})
  unfolding Decoder.add_raw_reactants
  add_raw_reactants ref rs = do
    o ← deref ref
    modify (store ref (record o { dendrite = Decoder.add_raw_reactants o.dendrite rs }))

  -- `self._synapses.set(name, synapse)` of a new object
  unfoldable pub put_new : String → Synapse Y → External X Y → External X Y
  put_new key o s = record s {
    objects = insert s.next_object o s.objects;
    next_object = s.next_object + 1;
    synapses = insert key s.next_object s.synapses;
  }

-- `data.encode("UTF-8") if isinstance(data, str) else data`
unfoldable pub to_payload : Utf8 → Encoded → Bytes
to_payload u (Encoded.bytes b) = b
to_payload u (Encoded.str s) = u.encode s
