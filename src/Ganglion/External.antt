-- ===== src/Ganglion/External.antt =====
-- src/plexo/ganglion/external.py, `GanglionExternalBase`, with src/plexo/transmitter.py and the
-- synapse objects of src/plexo/synapse/base.py.
--
-- Synapses are shared: a transmitter and a map of the subclass hold the object that `_synapses`
-- holds, so the objects stand in a store, and all else holds their references. A neuron is a key by
-- its name. `X` is the state that a subclass adds, `Y` what its synapses add.
pub mod State
pub mod Joined
pub mod Fresh
use pyplexo.Base.{
  ℕ, suc, ◌+◌, String, Bool, true, false, not, ◌&&◌, ◌||◌, Option, none, some, List, [], ◌∷◌, map,
  Map, lookup, insert, contains, Key, ℕ_key, string_key, length, ltb, if◌then◌else◌,
}
use pyplexo.Codec.{Encoded, CodecClass}
use pyplexo.Exceptions.{
  Result, ok, raise, Action, pure, throw, throw_if, gets, modify, lift, or_throw, catch, ◌>>=◌,
  ◌>>◌, Error, neuron_not_found, transmitter_not_found, synapse_exists, key_error,
}
use pyplexo.Neuron.{Neuron, name, encode}
use pyplexo.Schema.{Value}
use pyplexo.Ganglion.External.State.{
  External, Synapse, Hooks, EncoderTransmitter, codec_class_key, has,
}

-- Transmission, over the method `transmit` of a synapse.
module _ {X Y : Type 0} (send : ℕ → Encoded → Option ℕ → Action (External X Y) (Unit {0})) where
  -- `transmitter(data, reaction_id)`: `transmit_external_encode`
  transmit_external_encode :
      EncoderTransmitter → Value → Option ℕ → Action (External X Y) (Unit {0})
  transmit_external_encode t v rid = do encoded ← lift (t.encoder v); send t.synapse encoded rid

  -- `external_transmitter(data, reaction_id)`: `transmit_external`
  transmit_external : ℕ → Encoded → Option ℕ → Action (External X Y) (Unit {0})
  transmit_external ref e rid = send ref e rid

  -- `_get_transmitter`
  get_transmitter : Neuron → Action (External X Y) EncoderTransmitter
  unfolding name
  get_transmitter n = do
    or_throw (← gets (λ s. lookup (name n) s.transmitters)) transmitter_not_found

  -- `_get_external_transmitter`
  get_external_transmitter : Neuron → Action (External X Y) ℕ
  unfolding name
  get_external_transmitter n = do
    or_throw (← gets (λ s. lookup (name n) s.external_transmitters)) transmitter_not_found

  unfoldable pub transmit : Value → Neuron → Option ℕ → Action (External X Y) (Unit {0})
  unfolding transmit_external_encode get_transmitter
  transmit v n rid = do t ← get_transmitter n; transmit_external_encode t v rid

  unfoldable pub transmit_encoded : Encoded → Neuron → Option ℕ → Action (External X Y) (Unit {0})
  unfolding transmit_external get_external_transmitter
  transmit_encoded e n rid = do ref ← get_external_transmitter n; transmit_external ref e rid

module _ {X Y : Type 0} where
  -- `_get_neuron_by_name`
  unfoldable pub get_neuron_by_name : String → Action (External X Y) Neuron
  get_neuron_by_name n = do or_throw (← gets (λ s. lookup n s.name_neurons)) neuron_not_found

  -- `_update_name_neurons`
  unfoldable pub update_name_neurons : Neuron → Action (External X Y) (Unit {0})
  unfolding name
  update_name_neurons n = modify (λ s.
      if has (name n) s.name_neurons
      then s
      else record s { name_neurons = insert (name n) n s.name_neurons })

  -- `_create_external_transmitter`
  unfoldable pub create_external_transmitter_ : Neuron → ℕ → Action (External X Y) (Unit {0})
  unfolding name
  create_external_transmitter_ n ref = modify (λ s.
      if has (name n) s.external_transmitters
      then s
      else record s { external_transmitters = insert (name n) ref s.external_transmitters })

  -- `create_external_transmitter`
  unfoldable pub create_external_transmitter : Neuron → ℕ → Action (External X Y) (Unit {0})
  unfolding create_external_transmitter_ update_name_neurons
  create_external_transmitter n ref = do create_external_transmitter_ n ref; update_name_neurons n

  -- `_create_transmitter`
  unfoldable pub create_transmitter_ : Neuron → ℕ → Action (External X Y) (Unit {0})
  unfolding name
  create_transmitter_ n ref = modify (λ s. if has (name n) s.transmitters then s else record s {
    transmitters = insert (name n) (record { synapse = ref; encoder = encode n }) s.transmitters;
  })

  -- `create_transmitter`: it returns the coroutine of `_create_transmitter` and does not await it, so
  -- nothing is done.
  unfoldable pub create_transmitter : Neuron → ℕ → Action (External X Y) (Unit {0})
  create_transmitter n ref = pure tt

  unfoldable pub capable : Neuron → External X Y → Bool
  unfolding name
  capable n s =
      if ltb 0 (length s.relevant_neurons) && not (contains (name n) s.relevant_neurons)
      then false
      else if ltb 0 (length s.ignored_neurons) && contains (name n) s.ignored_neurons
      then false
      else not (ltb 0 (length s.allowed_codecs) && not (contains n.codec.class s.allowed_codecs))

  -- `close`: every task is cancelled and forgotten.
  unfoldable pub close : Action (External X Y) (Unit {0})
  close = modify (λ s. record s { tasks = [] })

module _ {X Y : Type 0} (h : Hooks X Y) where
  -- `neuron or await self._get_neuron_by_name(name)`
  neuron_or : Option Neuron → String → Action (External X Y) Neuron
  unfolding get_neuron_by_name
  neuron_or (some n) key = pure n
  neuron_or none key = get_neuron_by_name key

  -- `self._synapses[name]`
  synapse_at : String → Action (External X Y) ℕ
  synapse_at key = do or_throw (← gets (λ s. lookup key s.synapses)) key_error

  -- `except SynapseExists: pass`
  unless_exists : String → Error → Action (External X Y) ℕ
  unfolding synapse_at
  unless_exists key synapse_exists = synapse_at key
  unless_exists key e = throw e

  unfoldable pub get_synapse_by_name : String → Option Neuron → Action (External X Y) ℕ
  unfolding neuron_or synapse_at unless_exists
  get_synapse_by_name key n = do
    present ← gets (λ s. has key s.synapses)
    if present
        then synapse_at key
        else catch (do m ← neuron_or n key; h.create_synapse_by_name m key) (unless_exists key)

  unfoldable pub get_synapse : Neuron → Action (External X Y) ℕ
  unfolding get_synapse_by_name name
  get_synapse n = get_synapse_by_name (name n) (some n)

  unfoldable pub update_transmitter : Neuron → Action (External X Y) (Unit {0})
  unfolding get_synapse create_transmitter_ create_external_transmitter_
  update_transmitter n = do
    ref ← get_synapse n
    create_transmitter_ n ref
    create_external_transmitter_ n ref

  unfoldable pub react : Neuron → List ℕ → Action (External X Y) (Unit {0})
  unfolding get_synapse
  react n reactants = do ref ← get_synapse n; h.add_reactants ref reactants

  unfoldable pub react_raw : Neuron → List ℕ → Action (External X Y) (Unit {0})
  unfolding get_synapse
  react_raw n reactants = do ref ← get_synapse n; h.add_raw_reactants ref reactants

  -- `adapt`, which calls the methods `react` and `react_raw` that the object's class has. No
  -- reactants, and an empty list of them, count as false.
  unfoldable pub adapt :
      (self_react self_react_raw : Neuron → List ℕ → Action (External X Y) (Unit {0}))
      → Neuron
      → List ℕ
      → List ℕ
      → Action (External X Y) (Unit {0})
  unfolding capable update_transmitter
  adapt self_react self_react_raw n reactants raws = do
    able ← gets (capable n)
    if not able then pure tt else do
      if ltb 0 (length reactants) then self_react n reactants else pure tt
      if ltb 0 (length raws) then self_react_raw n raws else pure tt
      update_transmitter n
