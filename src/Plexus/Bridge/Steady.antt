-- ===== src/Plexus/Bridge/Steady.antt =====
-- A plexus with a link whose state is in order.
use pyplexo.Base.{
  ℕ, ◌≡◌, ◌≤◌, refl, true, false, none, List, [], ◌∷◌, ◌++◌, lookup, ℕ_key, ℕ_discrete, string_key,
  arith,
}
use pyplexo.Codec.{Utf8}
use pyplexo.Neuron.{Neuron, name}
use pyplexo.Ganglion.Internal
use pyplexo.Ganglion.Internal.{Internal}
use pyplexo.Ganglion.Internal.Serving
use pyplexo.Ganglion.Internal.Serving.{Serving, IsOlder, Serving-Others, IsNew-Others}
use pyplexo.Plexus.{Plexus, known, product}
use pyplexo.Plexus.Bridge.{Link, Joint, me, other, init}
use pyplexo.Plexus.Bridge.Laws.{View}

module _ {S : Type 0} (view : View S) where
  -- The plexus has its two ganglia, handles every neuron, and has noted each pair of its own.
  pub record Shaped (p : Plexus (Joint S)) : Type 0 where
    pub internal : p.internal_ganglia ≡ other ∷ me ∷ []
    pub external : p.external_ganglia ≡ []
    pub relevant : p.relevant_neurons ≡ []
    pub ignored : p.ignored_neurons ≡ []
    pub noted : p.neuron_ganglia ≡ product p.neurons (other ∷ me ∷ [])

  -- The plexus and its ganglia are in order.
  pub record Running (p : Plexus (Joint S)) : Type 0 where
    pub shape : Shaped p
    pub older : IsOlder p.ganglia.inproc
    pub able : (m : Neuron) → Internal.capable m p.ganglia.inproc ≡ true
    pub sound : view.IsSound p.ganglia.link
    pub fresh : (i : ℕ) → p.ganglia.next_id ≤ i → lookup i p.reactions ≡ none

  -- And no call waits.
  pub record Steady (p : Plexus (Joint S)) : Type 0 where
    pub running : Running p
    pub settled : p.ganglia.waiting ≡ []

  -- The neuron is new to the plexus and both its ganglia, and the link handles it.
  pub record Unmet (n : Neuron) (p : Plexus (Joint S)) : Type 0 where
    pub unknown : known (name n) p.neurons ≡ false
    pub inproc : Serving.IsNew n p.ganglia.inproc
    pub link : view.IsNew n p.ganglia.link
    pub able : view.able n p.ganglia.link ≡ true

  module _ (own_entry : ℕ) where
    -- Data of the neuron reaches these reactants of the program, and both the plexus's own.
    pub record Tied (n : Neuron) (rs : List ℕ) (p : Plexus (Joint S)) : Type 0 where
      pub serving : Serving n (rs ++ own_entry ∷ []) p.ganglia.inproc
      pub link : view.IsTied n p.ganglia.link

module _ {S F : Type 0} (u : Utf8) (l : Link S F) (own_entry link_entry : ℕ) (view : View S) where
  -- A new plexus is in order.
  pub init-Steady : (s : S) → view.IsSound s → Steady view (init u l own_entry link_entry s)
  unfolding init product ℕ_discrete Internal.capable
  init-Steady s sound = record {
    running = record {
      shape = record {
        internal = refl;
        external = refl;
        relevant = refl;
        ignored = refl;
        noted = refl;
      };
      older = λ key ref h. absurd (ground (arith, h));
      able = λ m. refl;
      sound = sound;
      fresh = λ i h. refl;
    };
    settled = refl;
  }

  -- Every neuron is new to it that is new to its link.
  pub init-Unmet :
      (s : S) (n : Neuron)
      → view.IsNew n s
      → view.able n s ≡ true
      → Unmet view n (init u l own_entry link_entry s)
  unfolding init known
  init-Unmet s n new able = record {
    unknown = refl;
    inproc = record { no_synapse = refl; no_transmitter = refl };
    link = new;
    able = able;
  }
