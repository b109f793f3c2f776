-- ===== src/Plexus/Bridge/Calls.antt =====
-- What a call of one of the plexus's own reactants comes to.
use pyplexo.Base.{
  ℕ, suc, ◌≡◌, refl, ap, ◌∙◌, Option, none, some, List, [], ◌∷◌, ◌++◌, map, lookup, add, ℕ_key,
  ℕ_discrete, string_key, arith, lookup-insert,
}
use pyplexo.Codec.{Utf8}
use pyplexo.Dendrite
use pyplexo.Dendrite.{Call, reacts, difference}
use pyplexo.Exceptions.{ok, Action, catch}
use pyplexo.Neuron.{Neuron}
use pyplexo.Schema.{Value}
use pyplexo.Ganglion.Internal
use pyplexo.Ganglion.Internal.{Internal}
use pyplexo.Ganglion.Internal.Serving.{Serving}
use pyplexo.Plexus
use pyplexo.Plexus.{Plexus, Delivery, reacted, note, identity, gather, pass_value_error}
use pyplexo.Plexus.Spread.{noted, targets, reaction_eq}
use pyplexo.Plexus.Bridge.{Link, Joint, me, other, entry_reaction, deliver, transmit_inproc}

-- The calls of some reactants with data of a neuron.
abbrev pub calls_of : List ℕ → Value → Neuron → Option ℕ → List Call
calls_of rs v n rid = map (λ r. reacts r v n rid) rs

pub inproc_transmit :
    (u : Utf8) (n : Neuron) (rs : List ℕ) (v : Value) (rid : Option ℕ) (g : Internal)
    → Serving n rs g
    → Internal.transmit u v n rid g ≡ (ok (calls_of rs v n rid), g)
unfolding Internal.transmit Internal.transduce Dendrite.transduce
inproc_transmit u n rs v rid g s =
    let d = s.object.dendrite in
    let found : Internal.transmit u v n rid g ≡ (ok (calls_of d.reactants v d.neuron rid), g) =
      ground (arith, s.transmitter, s.there) in
    found
    ∙ ap (λ m. (ok (calls_of d.reactants v m rid), g)) s.neuron
    ∙ ap (λ l. (ok (calls_of l v n rid), g)) s.reactants

module _ {S : Type 0} where
  -- The state once `uuid4()` has been called.
  abbrev pub counted : Plexus (Joint S) → Plexus (Joint S)
  counted p = record p { ganglia = record p.ganglia { next_id = suc p.ganglia.next_id } }

  reacted_noted :
      (current rid : ℕ) (p : Plexus (Joint S))
      → reacted rid (noted current rid p) ≡ add current (reacted rid p)
  unfolding note reacted
  reacted_noted current rid p =
      ground (arith, lookup-insert rid rid (add current (reacted rid p)) p.reactions)

  reacted_at :
      (rid : ℕ) (o : Option (List ℕ)) (p : Plexus (Joint S))
      → lookup rid p.reactions ≡ o
      → reacted rid p ≡ (elim o [ none ↦ [] | some gs ↦ gs ])
  unfolding reacted
  reacted_at rid o p h = ap (λ x. elim x [ none ↦ [] | some gs ↦ gs ]) h

  pub targets_of :
      (current rid : ℕ) (gs : List ℕ) (p : Plexus (Joint S))
      → p.internal_ganglia ≡ other ∷ me ∷ []
      → p.external_ganglia ≡ []
      → reacted rid p ≡ gs
      → targets current rid p ≡ (
          map Plexus.transmit (difference (other ∷ me ∷ []) (add current gs))
          ++ map Plexus.transmit (difference [] (add current gs)))
  unfolding note
  targets_of current rid gs p h k l = rw (reacted_noted current rid p, l, h, k) refl

  pub targets_first_own :
      (rid : ℕ) (p : Plexus (Joint S))
      → p.internal_ganglia ≡ other ∷ me ∷ []
      → p.external_ganglia ≡ []
      → lookup rid p.reactions ≡ none
      → targets me rid p ≡ Plexus.transmit other ∷ []
  unfolding difference ℕ_discrete
  targets_first_own rid p h k l = targets_of me rid [] p h k (reacted_at rid none p l)

  pub targets_first_link :
      (rid : ℕ) (p : Plexus (Joint S))
      → p.internal_ganglia ≡ other ∷ me ∷ []
      → p.external_ganglia ≡ []
      → lookup rid p.reactions ≡ none
      → targets other rid p ≡ Plexus.transmit me ∷ []
  unfolding difference ℕ_discrete
  targets_first_link rid p h k l = targets_of other rid [] p h k (reacted_at rid none p l)

  pub targets_last_own :
      (rid : ℕ) (p : Plexus (Joint S))
      → p.internal_ganglia ≡ other ∷ me ∷ []
      → p.external_ganglia ≡ []
      → lookup rid p.reactions ≡ some (other ∷ [])
      → targets me rid p ≡ []
  unfolding difference ℕ_discrete
  targets_last_own rid p h k l =
      targets_of me rid (other ∷ []) p h k (reacted_at rid (some (other ∷ [])) p l)

module _ {S F : Type 0} (u : Utf8) (l : Link S F) (own_entry link_entry : ℕ) where
  -- The deliveries of a reaction, together.
  abbrev deliveries : Value → Neuron → ℕ → List Delivery → Action (Plexus (Joint S)) (Unit {0})
  deliveries v n rid ds =
      catch (gather (map (deliver u l own_entry link_entry v n rid) ds)) pass_value_error

  entry_eq :
      (current : ℕ) (v : Value) (n : Neuron) (o : Option ℕ) (p : Plexus (Joint S))
      → let rid = identity p.ganglia.next_id o in
        entry_reaction u l own_entry link_entry current v n o p
        ≡ deliveries v n rid (targets current rid (counted p)) (noted current rid (counted p))
  unfolding entry_reaction
  entry_eq current v n o p = ground (arith, reaction_eq p.ganglia.next_id current o (counted p))

  pub entry_targets :
      (current : ℕ) (v : Value) (n : Neuron) (o : Option ℕ) (ds : List Delivery)
      (p : Plexus (Joint S))
      → let rid = identity p.ganglia.next_id o in
        targets current rid (counted p) ≡ ds
        → entry_reaction u l own_entry link_entry current v n o p
          ≡ deliveries v n rid ds (noted current rid (counted p))
  entry_targets current v n o ds p h =
      let rid = identity p.ganglia.next_id o in
      entry_eq current v n o p ∙ ap (λ x. deliveries v n rid x (noted current rid (counted p))) h

  abbrev set_link : S → Plexus (Joint S) → Plexus (Joint S)
  set_link t p = record p { ganglia = record p.ganglia { link = t } }

  abbrev adding : List Call → Plexus (Joint S) → Plexus (Joint S)
  adding cs p = record p { ganglia = record p.ganglia { waiting = p.ganglia.waiting ++ cs } }

  pub deliver_link :
      (v : Value) (n : Neuron) (rid : ℕ) (p : Plexus (Joint S)) (t : S)
      → l.transmit v n (some rid) p.ganglia.link ≡ (ok tt, t)
      → deliveries v n rid (Plexus.transmit other ∷ []) p ≡ (ok tt, set_link t p)
  unfolding deliver gather
  deliver_link v n rid p t h = ground (arith, h)

  pub deliver_inproc :
      (v : Value) (n : Neuron) (rid : ℕ) (p : Plexus (Joint S)) (rs : List ℕ)
      → Serving n rs p.ganglia.inproc
      → deliveries v n rid (Plexus.transmit me ∷ []) p
        ≡ (ok tt, adding (calls_of rs v n (some rid)) p)
  unfolding deliver gather transmit_inproc
  deliver_inproc v n rid p rs s =
      ground (arith, inproc_transmit u n rs v (some rid) p.ganglia.inproc s)

  pub deliver_none :
      (v : Value) (n : Neuron) (rid : ℕ) (p : Plexus (Joint S))
      → deliveries v n rid [] p ≡ (ok tt, p)
  unfolding gather
  deliver_none v n rid p = refl
