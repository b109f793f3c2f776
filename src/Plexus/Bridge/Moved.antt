-- ===== src/Plexus/Bridge/Moved.antt =====
-- Changes of a plexus with a link that keep it in order.
use pyplexo.Base.{
  ℕ, suc, ◌≡◌, ◌≤◌, refl, none, some, List, [], ◌∷◌, ◌++◌, Map, lookup, insert, ℕ_key, arith,
  lookup-insert,
}
use pyplexo.Codec.{Utf8, Encoded}
use pyplexo.Dendrite.{Call}
use pyplexo.Neuron.{Neuron}
use pyplexo.Plexus.{Plexus}
use pyplexo.Plexus.Bridge.{Link, Joint}
use pyplexo.Plexus.Bridge.Laws.{View, Lawful, Kept}
use pyplexo.Plexus.Bridge.Steady.{Running, Tied}

-- No reaction is known by an identity to come.
abbrev pub IsFresh : ℕ → Map ℕ (List ℕ) → Type 0
IsFresh next reactions = (i : ℕ) → next ≤ i → lookup i reactions ≡ none

pub IsFresh-insert :
    (next : ℕ) (gs : List ℕ) (reactions : Map ℕ (List ℕ))
    → IsFresh next reactions
    → IsFresh (suc next) (insert next gs reactions)
IsFresh-insert next gs reactions h i k = ground (arith, k, h i, lookup-insert i next gs reactions)

pub IsFresh-again :
    (next rid : ℕ) (gs hs : List ℕ) (reactions : Map ℕ (List ℕ))
    → lookup rid reactions ≡ some gs
    → IsFresh next reactions
    → IsFresh (suc next) (insert rid hs reactions)
IsFresh-again next rid gs hs reactions e h i k =
    ground (arith, e, k, h i, h rid, lookup-insert i rid hs reactions)

module _ {S : Type 0} where
  -- The state with this link, calls that wait and that have been carried out, identity and reactions.
  abbrev pub changed :
      S → List Call → List Call → ℕ → Map ℕ (List ℕ) → Plexus (Joint S) → Plexus (Joint S)
  changed t waiting received i reactions p = record p {
    reactions = reactions;
    ganglia = record {
      inproc = p.ganglia.inproc;
      link = t;
      waiting = waiting;
      received = received;
      next_id = i;
    };
  }

  -- The state with these calls waiting in place of the others.
  abbrev pub waiting_for : List Call → Plexus (Joint S) → Plexus (Joint S)
  waiting_for cs p = record p { ganglia = record p.ganglia { waiting = cs } }

  -- The state once the first call that waits is taken.
  abbrev pub popped : Call → List Call → Plexus (Joint S) → Plexus (Joint S)
  popped c cs p = record p {
    ganglia = record p.ganglia { waiting = cs; received = p.ganglia.received ++ c ∷ [] };
  }

module _ {S F : Type 0} (u : Utf8) (l : Link S F) (own_entry link_entry : ℕ) (view : View S)
    (frame : Neuron → Encoded → F) (law : Lawful u l link_entry view frame) where
  -- What is in order stays so, and what is tied stays tied.
  pub record Moved (p t : Plexus (Joint S)) : Type 0 where
    pub running : Running view p → Running view t
    pub tied : (m : Neuron) (us : List ℕ) → Tied view own_entry m us p → Tied view own_entry m us t

  pub then_Moved : (p q t : Plexus (Joint S)) → Moved p q → Moved q t → Moved p t
  then_Moved p q t a b = record {
    running = λ r. b.running (a.running r);
    tied = λ m us r. b.tied m us (a.tied m us r);
  }

  pub changed-Moved :
      (t : S) (waiting received : List Call) (i : ℕ) (reactions : Map ℕ (List ℕ))
      (p : Plexus (Joint S))
      → Kept u l link_entry view p.ganglia.link t
      → (IsFresh p.ganglia.next_id p.reactions → IsFresh i reactions)
      → Moved p (changed t waiting received i reactions p)
  changed-Moved t waiting received i reactions p k fresh = record {
    running = λ r. record {
      shape = record {
        internal = r.shape.internal;
        external = r.shape.external;
        relevant = r.shape.relevant;
        ignored = r.shape.ignored;
        noted = r.shape.noted;
      };
      older = r.older;
      able = r.able;
      sound = k.sound r.sound;
      fresh = fresh r.fresh;
    };
    tied = λ m us r. record { serving = r.serving; link = k.tied m r.link };
  }

  pub same-Kept : (s : S) → Kept u l link_entry view s s
  same-Kept s = record { sound = λ h. h; new = λ m h. h; tied = λ m h. h; able = λ m. refl }

  pub waiting_for-Moved : (cs : List Call) (p : Plexus (Joint S)) → Moved p (waiting_for cs p)
  waiting_for-Moved cs p =
      changed-Moved p.ganglia.link cs p.ganglia.received p.ganglia.next_id p.reactions p
        (same-Kept p.ganglia.link) (λ h. h)

  pub popped-Moved : (c : Call) (cs : List Call) (p : Plexus (Joint S)) → Moved p (popped c cs p)
  popped-Moved c cs p =
      changed-Moved p.ganglia.link cs (p.ganglia.received ++ c ∷ []) p.ganglia.next_id p.reactions p
        (same-Kept p.ganglia.link) (λ h. h)

  pub link-Moved :
      (t : S) (p : Plexus (Joint S))
      → Kept u l link_entry view p.ganglia.link t
      → Moved p (record p { ganglia = record p.ganglia { link = t } })
  link-Moved t p k =
      changed-Moved t p.ganglia.waiting p.ganglia.received p.ganglia.next_id p.reactions p k
        (λ h. h)
