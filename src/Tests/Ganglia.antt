-- ===== src/Tests/Ganglia.antt =====
-- Runs of the theorems on ganglia and the plexus.
use pyplexo.Base.{
  Bool, ℕ, ◌≡◌, ◌<◌, refl, true, false, not, ◌&&◌, ◌||◌, none, some, List, [], ◌∷◌, map, contains,
  ite, ℕ_key, string_key, ℕ_discrete, arith,
}
use pyplexo.Dendrite
use pyplexo.Dendrite.{difference}
use pyplexo.Exceptions.{ok, raise, value_error}
use pyplexo.Neuron.{Neuron, name}
use pyplexo.Schema.{text}
use pyplexo.Ganglion.Internal
use pyplexo.Ganglion.Internal.{Internal}
use pyplexo.Ganglion.Internal.Wired.{Wired, reactants_of}
use pyplexo.Ganglion.Internal.Adapt.{adapt-transmit}
use pyplexo.Ganglion.Multicast.Reactions.{on_approval, on_proposal, run_events}
use pyplexo.Ganglion.Multicast.Reactions.Nameless.{groups, run_events-still}
use pyplexo.Plexus.{
  Plexus, Ganglia, Delivery, transmit, reacted, internal_reaction, update_neuron_ganglia, note,
  identity,
}
use pyplexo.Plexus.Spread.{
  Spreads, done, next, reacts, sent_to, internal_reaction-Spreads, internal_reaction-targets,
  responds, given,
}
use pyplexo.Plexus.Ends.{internal_reaction-ends}
use pyplexo.Plexus.Bound.{internal_reaction-steps, steps}
use pyplexo.Plexus.Rate.{rate}
use pyplexo.Plexus.Pairs.{pairs, update_neuron_ganglia-again}
use pyplexo.Tests.Coding.{coding}
use pyplexo.Tests.Setting.{env, running, note as note_neuron, approval, proposal}

-- An internal ganglion with nothing in it.
abbrev empty : Internal
empty = record {
  tasks = [];
  synapses = [];
  objects = [];
  next_object = 0;
  transmitters = [];
  name_neurons = [];
  relevant_neurons = [];
  ignored_neurons = [];
  allowed_codecs = [];
}

empty-Wired : Wired empty
empty-Wired = record {
  transmits = λ key ref h. ground arith;
  exists = λ key ref h e. ground arith;
  older = λ key ref h. ground arith;
  named = λ key ref o h k. ground arith;
}

adapt-transmit_example :
    let t = (Internal.adapt coding note_neuron (1 ∷ 2 ∷ []) empty).1 in
    (m : Neuron) × (reactants : List ℕ) × Wired t
    × (Internal.transmit coding (text "hello") note_neuron none t
        ≡ (ok (map (λ r. Dendrite.reacts r (text "hello") m none) reactants), t))
    × (name m ≡ name note_neuron)
    × ((r : ℕ)
        → contains r reactants
          ≡ (contains r (reactants_of (name note_neuron) empty) || contains r (1 ∷ 2 ∷ [])))
unfolding Internal.capable
adapt-transmit_example =
    adapt-transmit coding note_neuron (1 ∷ 2 ∷ []) empty (text "hello") none empty-Wired refl

run_events-still_example :
    groups (run_events env (on_proposal proposal ∷ on_approval approval ∷ []) running)
    ≡ groups running
run_events-still_example =
    run_events-still env (on_proposal proposal ∷ on_approval approval ∷ []) running refl

-- A plexus over two ganglia of which nothing is asked, and its own.
abbrev silent : Ganglia (Unit {0})
silent = record {
  is_external = λ _. false;
  adapt = λ g n r s. (raise value_error, s);
  update_transmitter = λ n s. (ok tt, s);
  react = λ n rs s. (ok tt, s);
  transmit = λ v n rid s. (ok tt, s);
  close = λ g s. (ok tt, s);
}

abbrev two : Plexus (Unit {0})
two = record {
  internal_ganglia = 0 ∷ 1 ∷ [];
  external_ganglia = [];
  neurons = note_neuron ∷ [];
  neuron_ganglia = [];
  reactions = [];
  relevant_neurons = [];
  ignored_neurons = [];
  ganglia = tt;
}

abbrev after_first : Plexus (Unit {0})
after_first = record two { reactions = (7, 1 ∷ []) ∷ [] }

abbrev after_both : Plexus (Unit {0})
after_both = record two { reactions = (7, 1 ∷ 0 ∷ []) ∷ [] }

-- The plexus's own ganglion calls the plexus's reactant, and the other one sends away.
abbrev own : ℕ → Bool
own g = contains g (0 ∷ [])

delivered : Spreads own 7 after_first (transmit 0 ∷ []) after_both []
unfolding note reacted difference ℕ_discrete
delivered =
    next after_first after_both after_both (transmit 0 ∷ []) [] [] (reacts [] [] 0 after_first refl)
      (done after_both [])

internal_reaction-Spreads_example :
    (responds own 0 two ≡ true → contains 0 (reacted 7 after_both) ≡ true)
    × ((contains 0 two.internal_ganglia || contains 0 two.external_ganglia) ≡ true
        → (contains 0 (reacted 7 after_first) || contains 0 (given delivered)) ≡ true)
unfolding internal_reaction ℕ_discrete
internal_reaction-Spreads_example =
    internal_reaction-Spreads own 9 1 7 (some 7) two after_first after_both (transmit 0 ∷ []) 0 refl
      delivered

internal_reaction-targets_example :
    (ds : List Delivery) × (internal_reaction 9 0 none two
      ≡ (ok (identity 9 none, ds), (internal_reaction 9 0 none two).1))
    × (contains 1 (reacted (identity 9 none) (internal_reaction 9 0 none two).1)
        ≡ ite (ℕ_discrete 0 1) true (contains 1 (reacted (identity 9 none) two)))
    × (sent_to 1 ds ≡ (
        (contains 1 two.internal_ganglia || contains 1 two.external_ganglia)
        && not (contains 1 (reacted (identity 9 none) (internal_reaction 9 0 none two).1))))
internal_reaction-targets_example = internal_reaction-targets 9 0 none two 1

update_neuron_ganglia-again_example :
    let t = (update_neuron_ganglia silent two).1 in
    (t.neuron_ganglia ≡ pairs silent two) × (update_neuron_ganglia silent t ≡ (ok tt, t))
update_neuron_ganglia-again_example = update_neuron_ganglia-again silent two

internal_reaction-ends_example :
    (w : Plexus (Unit {0})) × Spreads own 7 after_both [] w []
    × ((x : ℕ) → responds own x two ≡ true → contains x (reacted 7 w) ≡ true)
unfolding internal_reaction reacted difference note ℕ_discrete
internal_reaction-ends_example =
    internal_reaction-ends own 9 1 7 (some 7) two after_first after_both (transmit 0 ∷ []) [] refl
      delivered

internal_reaction-steps_example : steps own 7 delivered < rate 0 3
unfolding internal_reaction reacted difference note ℕ_discrete
internal_reaction-steps_example =
    internal_reaction-steps own 9 1 7 (some 7) two after_first after_both (transmit 0 ∷ []) [] refl
      delivered
