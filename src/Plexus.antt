-- ===== src/Plexus.antt =====
-- src/plexo/plexus.py: `Plexus`, which joins ganglia. A ganglion is known by its identity, a number, and
-- what the ganglia do is an argument. Whether a ganglion is a `GanglionExternal` is its own affair.
pub mod Spread
pub mod Pairs
pub mod Left
pub mod Ends
pub mod Rate
pub mod Bound
pub mod Own
pub mod Bridge
use pyplexo.Base.{
  ℕ, ◌+◌, String, Bool, true, false, not, ◌&&◌, ◌||◌, Option, none, some, List, [], ◌∷◌, ◌++◌, map,
  Map, lookup, insert, contains, add, ℕ_key, string_key, length, ltb, if◌then◌else◌, ite,
}
use pyplexo.Dendrite.{update, pset, difference}
use pyplexo.Exceptions.{
  Action, Result, ok, raise, pending, Error, pure, throw, gets, modify, catch, ◌>>=◌, ◌>>◌,
  value_error, runtime_error,
}
use pyplexo.Codec.{Encoded}
use pyplexo.Neuron.{Neuron, name}
use pyplexo.Schema.{Value}

-- The reactants that a plexus gives to a ganglion.
pub data Reaction : Type 0 where
  reacts_internal reacts_external : ℕ → Reaction

-- What the plexus asks of its ganglia, over their states `G`.
pub record Ganglia (G : Type 0) : Type 0 where
  pub is_external : ℕ → Bool
  pub adapt : ℕ → Neuron → Reaction → Action G (Unit {0})
  pub update_transmitter : Neuron → Action G (Unit {0})
  pub react : Neuron → List ℕ → Action G (Unit {0})
  pub transmit : Value → Neuron → Option ℕ → Action G (Unit {0})
  pub close : ℕ → Action G (Unit {0})

pub record Plexus (G : Type 0) : Type 0 where
  pub internal_ganglia : List ℕ
  pub external_ganglia : List ℕ
  pub neurons : List Neuron
  pub neuron_ganglia : List (Neuron × ℕ)
  pub reactions : Map ℕ (List ℕ)
  pub relevant_neurons : List String
  pub ignored_neurons : List String
  pub ganglia : G

-- A delivery that a reaction asks for: data as an object, or as it came.
pub data Delivery : Type 0 where
  transmit transmit_encoded : ℕ → Delivery

-- `x for x in xs if test(x)`
unfoldable pub select : (ℕ → Bool) → List ℕ → List ℕ
select test [] = []
select test (x ∷ xs) = let rest = select test xs in if test x then x ∷ rest else rest

-- `(neuron, ganglion) in pairs`
unfoldable pub paired : String → ℕ → List (Neuron × ℕ) → Bool
paired key g [] = false
paired key g (p ∷ ps) = (contains key (name p.0 ∷ []) && contains g (p.1 ∷ [])) || paired key g ps

-- `pairs.difference(old)`
unfoldable pub unpaired : List (Neuron × ℕ) → List (Neuron × ℕ) → List (Neuron × ℕ)
unfolding paired
unpaired [] old = []
unpaired (p ∷ ps) old =
    let rest = unpaired ps old in if paired (name p.0) p.1 old then rest else p ∷ rest

-- `neuron in neurons`
unfoldable pub known : String → List Neuron → Bool
known key [] = false
known key (n ∷ ns) = contains key (name n ∷ []) || known key ns

-- `itertools.product(neurons, ganglia)`
unfoldable pub product : List Neuron → List ℕ → List (Neuron × ℕ)
product [] gs = []
product (n ∷ ns) gs = map (λ g. (n, g)) gs ++ product ns gs

-- `asyncio.gather` of calls that run in turn: all of them run, and the first exception is raised.
unfoldable pub gather : {S : Type 0} → List (Action S (Unit {0})) → Action S (Unit {0})
gather [] s = (ok tt, s)
gather (m ∷ ms) s =
    let (r, t) = m s in
    let (q, v) = gather ms t in
    elim r [ ok _ ↦ (q, v) | raise e ↦ (raise e, v) | pending ↦ (pending, v) ]

-- `except ValueError: pass`
pub pass_value_error : {S : Type 0} → Error → Action S (Unit {0})
pass_value_error value_error = pure tt
pass_value_error e = throw e

-- `except RuntimeError: pass`
pass_runtime_error : {S : Type 0} → Error → Action S (Unit {0})
pass_runtime_error runtime_error = pure tt
pass_runtime_error e = throw e

-- `get_reaction_lock`: the identity of a reaction, a new one where there is none yet
unfoldable pub identity : ℕ → Option ℕ → ℕ
identity fresh none = fresh
identity fresh (some rid) = rid

module _ {G : Type 0} where
  -- `Plexus(ganglia, relevant_neurons, ignored_neurons)`, with the identity of its own ganglion
  unfoldable pub init : Ganglia G → ℕ → List ℕ → List String → List String → G → Plexus G
  unfolding update select
  init h inproc gs relevant ignored g = record {
    internal_ganglia = add inproc (update [] (select (λ x. not (h.is_external x)) gs));
    external_ganglia = update [] (select h.is_external gs);
    neurons = [];
    neuron_ganglia = [];
    reactions = [];
    relevant_neurons = relevant;
    ignored_neurons = ignored;
    ganglia = g;
  }

  unfoldable pub reacted : ℕ → Plexus G → List ℕ
  reacted rid s = elim (lookup rid s.reactions) [ none ↦ [] | some gs ↦ gs ]

  -- The set of a reaction, made or added to.
  unfoldable pub note : ℕ → ℕ → Action (Plexus G) (Unit {0})
  unfolding reacted
  note current rid =
      modify (λ s. record s { reactions = insert rid (add current (reacted rid s)) s.reactions })

  -- `_internal_reaction`: the identity of the reaction, and the deliveries
  unfoldable pub internal_reaction :
      (fresh current : ℕ) → Option ℕ → Action (Plexus G) (ℕ × List Delivery)
  unfolding note reacted difference identity
  internal_reaction fresh current reaction_id = do
    let rid = identity fresh reaction_id
    note current rid
    internal ← gets (λ s. difference s.internal_ganglia (reacted rid s))
    external ← gets (λ s. difference s.external_ganglia (reacted rid s))
    pure (rid, map transmit internal ++ map transmit external)

  -- `_external_internal_reaction`
  unfoldable pub external_internal_reaction :
      (fresh current : ℕ) → Option ℕ → Action (Plexus G) (ℕ × List Delivery)
  unfolding note reacted difference identity
  external_internal_reaction fresh current reaction_id = do
    let rid = identity fresh reaction_id
    note current rid
    internal ← gets (λ s. difference s.internal_ganglia (reacted rid s))
    pure (rid, map transmit internal)

  -- `_external_external_reaction`
  unfoldable pub external_external_reaction :
      (fresh current : ℕ) → Option ℕ → Action (Plexus G) (ℕ × List Delivery)
  unfolding note reacted difference identity
  external_external_reaction fresh current reaction_id = do
    let rid = identity fresh reaction_id
    note current rid
    external ← gets (λ s. difference s.external_ganglia (reacted rid s))
    pure (rid, map transmit_encoded external)

  -- A call of a ganglion's method.
  abbrev pub on_ganglia : Action G (Unit {0}) → Action (Plexus G) (Unit {0})
  on_ganglia f s = let (r, g) = f s.ganglia in (r, record s { ganglia = g })

  unfoldable pub capable : Neuron → Plexus G → Bool
  capable n s =
      if ltb 0 (length s.relevant_neurons) && not (contains (name n) s.relevant_neurons)
      then false
      else not (ltb 0 (length s.ignored_neurons) && contains (name n) s.ignored_neurons)

module _ {G : Type 0} (h : Ganglia G) where
  -- The ganglia are closed in turn, up to one whose `close` raises.
  close_all : List ℕ → Action (Plexus G) (Unit {0})
  close_all [] = pure tt
  close_all (g ∷ gs) = do on_ganglia (h.close g); close_all gs

  unfoldable pub close : Action (Plexus G) (Unit {0})
  unfolding close_all pass_runtime_error
  close = do
    gs ← gets (λ s. s.internal_ganglia ++ s.external_ganglia)
    catch (close_all gs) pass_runtime_error

  -- The adaptation of a ganglion to a neuron that it does not know yet.
  adaptation : Neuron × ℕ → Action (Plexus G) (Unit {0})
  adaptation (n, g) =
      on_ganglia (h.adapt g n (if h.is_external g then reacts_external g else reacts_internal g))

  -- `_update_neuron_ganglia`: the pairs that are new, which are all noted at once
  unfoldable pub note_pairs : Action (Plexus G) (List (Neuron × ℕ))
  unfolding unpaired product
  note_pairs = do
    all ← gets (λ s. product s.neurons (s.internal_ganglia ++ s.external_ganglia))
    old ← gets (λ s. s.neuron_ganglia)
    modify (λ s. record s { neuron_ganglia = all })
    pure (unpaired all old)

  unfoldable pub update_neuron_ganglia : Action (Plexus G) (Unit {0})
  unfolding note_pairs adaptation gather pass_value_error
  update_neuron_ganglia = do new ← note_pairs; catch (gather (map adaptation new)) pass_value_error

  unfoldable pub infuse_ganglion : ℕ → Action (Plexus G) (Unit {0})
  infuse_ganglion g = do
    modify (λ s.
        if h.is_external g
        then record s { external_ganglia = add g s.external_ganglia }
        else record s { internal_ganglia = add g s.internal_ganglia })
    update_neuron_ganglia

  unfoldable pub update_neurons : Neuron → Action (Plexus G) (Unit {0})
  unfolding known
  update_neurons n = do
    modify (λ s. if known (name n) s.neurons then s else record s { neurons = s.neurons ++ n ∷ [] })
    update_neuron_ganglia

  -- The other methods go to the plexus's own ganglion.
  unfoldable pub update_transmitter : Neuron → Action (Plexus G) (Unit {0})
  update_transmitter n = do update_neurons n; on_ganglia (h.update_transmitter n)

  unfoldable pub react : Neuron → List ℕ → Action (Plexus G) (Unit {0})
  react n rs = on_ganglia (h.react n rs)

  unfoldable pub transmit_data : Value → Neuron → Option ℕ → Action (Plexus G) (Unit {0})
  transmit_data v n rid = on_ganglia (h.transmit v n rid)

  unfoldable pub adapt : Neuron → List ℕ → Action (Plexus G) (Unit {0})
  unfolding capable
  adapt n rs = do
    able ← gets (capable n)
    if not able
        then pure tt
        else do if ltb 0 (length rs) then react n rs else pure tt; update_transmitter n
