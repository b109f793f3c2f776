-- ===== src/Ganglion/Internal.antt =====
-- src/plexo/ganglion/internal.py and inproc.py, `GanglionInternalBase` and `GanglionInproc`, with
-- src/plexo/synapse/inproc.py and the internal half of base.py. Synapses are shared objects, as in
-- an external ganglion; a transmitter is the reference of its synapse.
pub mod Wired
pub mod Adapt
pub mod Serving
pub mod Fresh
use pyplexo.Base.{
  ℕ, ◌+◌, String, Bool, true, false, not, ◌&&◌, Option, none, some, List, [], Map, lookup, insert,
  contains, ℕ_key, string_key, length, ltb, if◌then◌else◌,
}
use pyplexo.Codec.{CodecClass, Utf8}
use pyplexo.Dendrite
use pyplexo.Dendrite.{Dendrite, Call}
use pyplexo.Exceptions.{
  Action, Error, pure, throw, throw_if, gets, modify, or_throw, catch, ◌>>=◌, ◌>>◌,
  neuron_not_found, transmitter_not_found, synapse_exists, key_error, attribute_error,
}
use pyplexo.Neuron.{Neuron, name}
use pyplexo.Schema.{Bytes, Value}
use pyplexo.Ganglion.External.State.{Task, has, codec_class_key}

-- `SynapseInproc`
pub record Synapse : Type 0 where
  pub neuron : Neuron
  pub topic_bytes : Bytes
  pub dendrite : Dendrite

pub record Internal : Type 0 where
  pub tasks : List Task
  pub synapses : Map String ℕ
  pub objects : Map ℕ Synapse
  pub next_object : ℕ
  pub transmitters : Map String ℕ
  pub name_neurons : Map String Neuron
  pub relevant_neurons : List String
  pub ignored_neurons : List String
  pub allowed_codecs : List CodecClass

-- `__init__`
unfoldable pub init : List String → List String → List CodecClass → Internal
init relevant ignored allowed = record {
  tasks = [];
  synapses = [];
  objects = [];
  next_object = 0;
  transmitters = [];
  name_neurons = [];
  relevant_neurons = relevant;
  ignored_neurons = ignored;
  allowed_codecs = allowed;
}

abbrev deref : ℕ → Action Internal Synapse
deref ref = do or_throw (← gets (λ s. lookup ref s.objects)) attribute_error

-- `SynapseInternalBase.add_reactants`
unfoldable pub add_reactants : ℕ → List ℕ → Action Internal (Unit {0})
add_reactants ref rs = do
  o ← deref ref
  modify (λ s. record s {
    objects = insert ref (record o { dendrite = Dendrite.add_reactants o.dendrite rs }) s.objects;
  })

-- `SynapseInproc.transmit`, which is `transduce`: the calls that it makes
unfoldable pub transduce : ℕ → Value → Option ℕ → Action Internal (List Call)
transduce ref v rid = do o ← deref ref; pure (Dendrite.transduce o.dendrite v rid)

unfoldable pub get_neuron_by_name : String → Action Internal Neuron
get_neuron_by_name key = do or_throw (← gets (λ s. lookup key s.name_neurons)) neuron_not_found

unfoldable pub update_name_neurons : Neuron → Action Internal (Unit {0})
update_name_neurons n = modify (λ s.
    if has (name n) s.name_neurons
    then s
    else record s { name_neurons = insert (name n) n s.name_neurons })

-- `_create_transmitter`
unfoldable pub create_transmitter_ : Neuron → ℕ → Action Internal (Unit {0})
create_transmitter_ n ref = modify (λ s.
    if has (name n) s.transmitters
    then s
    else record s { transmitters = insert (name n) ref s.transmitters })

unfoldable pub create_transmitter : Neuron → ℕ → Action Internal (Unit {0})
create_transmitter n ref = do create_transmitter_ n ref; update_name_neurons n

unfoldable pub capable : Neuron → Internal → Bool
capable n s =
    if ltb 0 (length s.relevant_neurons) && not (contains (name n) s.relevant_neurons)
    then false
    else if ltb 0 (length s.ignored_neurons) && contains (name n) s.ignored_neurons
    then false
    else not (ltb 0 (length s.allowed_codecs) && not (contains n.codec.class s.allowed_codecs))

-- `close`: every task is cancelled and forgotten.
unfoldable pub close : Action Internal (Unit {0})
close = modify (λ s. record s { tasks = [] })

module _ (u : Utf8) where
  -- `GanglionInproc._create_synapse_by_name`
  unfoldable pub create_synapse_by_name : Neuron → String → Action Internal ℕ
  create_synapse_by_name n key = do
    exists ← gets (λ s. has key s.synapses)
    throw_if exists synapse_exists
    ref ← gets (λ s. s.next_object)
    let o : Synapse = record {
      neuron = n;
      topic_bytes = u.encode (name n);
      dendrite = Dendrite.init n [];
    }
    modify (λ s. record s {
      objects = insert ref o s.objects;
      next_object = ref + 1;
      synapses = insert key ref s.synapses;
    })
    pure ref

  neuron_or : Option Neuron → String → Action Internal Neuron
  unfolding get_neuron_by_name
  neuron_or (some n) key = pure n
  neuron_or none key = get_neuron_by_name key

  synapse_at : String → Action Internal ℕ
  synapse_at key = do or_throw (← gets (λ s. lookup key s.synapses)) key_error

  -- `except SynapseExists: pass`
  unless_exists : String → Error → Action Internal ℕ
  unfolding synapse_at
  unless_exists key synapse_exists = synapse_at key
  unless_exists key e = throw e

  unfoldable pub get_synapse_by_name : String → Option Neuron → Action Internal ℕ
  unfolding neuron_or synapse_at unless_exists create_synapse_by_name
  get_synapse_by_name key n = do
    present ← gets (λ s. has key s.synapses)
    if present
        then synapse_at key
        else catch (do m ← neuron_or n key; create_synapse_by_name m key) (unless_exists key)

  unfoldable pub get_synapse : Neuron → Action Internal ℕ
  unfolding get_synapse_by_name
  get_synapse n = get_synapse_by_name (name n) (some n)

  unfoldable pub update_transmitter : Neuron → Action Internal (Unit {0})
  update_transmitter n = do ref ← get_synapse n; create_transmitter_ n ref; update_name_neurons n

  unfoldable pub react : Neuron → List ℕ → Action Internal (Unit {0})
  react n rs = do ref ← get_synapse n; add_reactants ref rs

  -- `transmit`: the calls that the synapse's reactants get
  unfoldable pub transmit : Value → Neuron → Option ℕ → Action Internal (List Call)
  transmit v n rid = do
    ref ← or_throw (← gets (λ s. lookup (name n) s.transmitters)) transmitter_not_found
    transduce ref v rid

  -- `adapt`: no reactants, and an empty list of them, count as false.
  unfoldable pub adapt : Neuron → List ℕ → Action Internal (Unit {0})
  adapt n rs = do
    able ← gets (capable n)
    if not able
        then pure tt
        else do if ltb 0 (length rs) then react n rs else pure tt; update_transmitter n
