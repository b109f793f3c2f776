-- ===== src/Plexus/Bridge/Traffic.antt =====
-- What the calls of reactants leave of a plexus with a link.
use pyplexo.Base.{
  ℕ, suc, ◌≡◌, ◌≢◌, refl, sym, ◌∙◌, Option, none, some, List, [], ◌∷◌, ◌++◌, lookup, insert, add,
  ℕ_key, arith, lookup-insert,
}
use mathlib.Core.List.{append-nil}
use pyplexo.Codec.{Utf8, Encoded}
use pyplexo.Dendrite.{Call, reacts}
use pyplexo.Exceptions.{ok, Action}
use pyplexo.Neuron.{Neuron, encode}
use pyplexo.Schema.{Value}
use pyplexo.Plexus
use pyplexo.Plexus.{Plexus, reacted, note}
use pyplexo.Plexus.Spread.{noted}
use pyplexo.Plexus.Bridge.{Link, Joint, me, other, entry_reaction, call}
use pyplexo.Plexus.Bridge.Calls.{
  counted, calls_of, targets_first_own, targets_first_link, targets_last_own, entry_targets,
  deliver_link, deliver_inproc, deliver_none,
}
use pyplexo.Plexus.Bridge.Laws.{View, Lawful}
use pyplexo.Plexus.Bridge.Steady.{Running, Tied}
use pyplexo.Plexus.Bridge.Moved.{IsFresh-insert, IsFresh-again, Moved, changed-Moved, same-Kept}

module _ {S F : Type 0} (u : Utf8) (l : Link S F) (own_entry link_entry : ℕ) (view : View S)
    (frame : Neuron → Encoded → F) (law : Lawful u l link_entry view frame) where
  module _ (handle : ℕ → Value → Neuron → Option ℕ → Action (Plexus (Joint S)) (Unit {0})) where
    -- What a call comes to: it makes some more calls wait, and the link sends some frames.
    pub record Called (c : Call) (more : List Call) (frames : List F) (p : Plexus (Joint S))
        : Type 0 where
      pub state : Plexus (Joint S)
      pub ends : call u l own_entry link_entry handle c p ≡ (ok tt, state)
      pub moved : Moved u l own_entry link_entry view frame law p state
      pub waiting : state.ganglia.waiting ≡ p.ganglia.waiting ++ more
      pub received : state.ganglia.received ≡ p.ganglia.received
      pub sent : l.sent state.ganglia.link ≡ frames ++ l.sent p.ganglia.link

    call_own :
        (v : Value) (n : Neuron) (rid : Option ℕ) (p : Plexus (Joint S))
        → call u l own_entry link_entry handle (reacts own_entry v n rid) p
          ≡ entry_reaction u l own_entry link_entry me v n rid p
    unfolding call
    call_own v n rid p = ground arith

    call_link :
        (v : Value) (n : Neuron) (rid : Option ℕ) (p : Plexus (Joint S))
        → link_entry ≢ own_entry
        → call u l own_entry link_entry handle (reacts link_entry v n rid) p
          ≡ entry_reaction u l own_entry link_entry other v n rid p
    unfolding call
    call_link v n rid p apart = ground (arith, apart)

    pub call_program :
        (r : ℕ) (v : Value) (n : Neuron) (rid : Option ℕ) (p : Plexus (Joint S))
        → r ≢ own_entry
        → r ≢ link_entry
        → call u l own_entry link_entry handle (reacts r v n rid) p ≡ handle r v n rid p
    unfolding call
    call_program r v n rid p a b = ground (arith, a, b)

    -- Data that the program transmits reaches the plexus's own reactant, and leaves by the link.
    pub own-Called :
        (v : Value) (n : Neuron) (us : List ℕ) (e : Encoded) (p : Plexus (Joint S))
        → Running view p
        → Tied view own_entry n us p
        → encode n v ≡ ok e
        → Called (reacts own_entry v n none) [] (frame n e ∷ []) p
    unfolding note Plexus.identity
    own-Called v n us e p r t h =
        let id = p.ganglia.next_id in
        let s = law.sends n v (some id) e p.ganglia.link r.sound t.link h in
        let q : Plexus (Joint S) = counted p in
        let new = r.fresh id (ground arith) in
        record {
          state = record (noted me id q) {
            ganglia = record (noted me id q).ganglia { link = s.state };
          };
          ends =
              call_own v n none p
              ∙ entry_targets u l own_entry link_entry me v n none (Plexus.transmit other ∷ []) p
                  (targets_first_own id q r.shape.internal r.shape.external new)
              ∙ deliver_link u l own_entry link_entry v n id (noted me id q) s.state s.ends;
          moved =
              changed-Moved u l own_entry link_entry view frame law s.state p.ganglia.waiting
                p.ganglia.received (suc id) (insert id (add me (reacted id q)) p.reactions) p s.kept
                (IsFresh-insert id (add me (reacted id q)) p.reactions);
          waiting = sym (append-nil p.ganglia.waiting);
          received = refl;
          sent = s.sent;
        }

    -- Data that the link has received reaches the reactants of the plexus's own ganglion, under a new
    -- identity, which is noted.
    pub record Spread (v : Value) (n : Neuron) (us : List ℕ) (p : Plexus (Joint S)) : Type 0 where
      pub id : ℕ
      pub called :
          Called (reacts link_entry v n none) (calls_of (us ++ own_entry ∷ []) v n (some id)) [] p
      pub noted : lookup id called.state.reactions ≡ some (other ∷ [])

    pub link-Spread :
        (v : Value) (n : Neuron) (us : List ℕ) (p : Plexus (Joint S))
        → link_entry ≢ own_entry
        → Running view p
        → Tied view own_entry n us p
        → Spread v n us p
    unfolding note reacted Plexus.identity
    link-Spread v n us p apart r t =
        let id = p.ganglia.next_id in
        let q : Plexus (Joint S) = counted p in
        let new = r.fresh id (ground arith) in
        let cs = calls_of (us ++ own_entry ∷ []) v n (some id) in
        record {
          id = id;
          called = record {
            state = record (noted other id q) {
              ganglia = record (noted other id q).ganglia { waiting = p.ganglia.waiting ++ cs };
            };
            ends =
                call_link v n none p apart
                ∙ entry_targets u l own_entry link_entry other v n none (Plexus.transmit me ∷ []) p
                    (targets_first_link id q r.shape.internal r.shape.external new)
                ∙ deliver_inproc u l own_entry link_entry v n id (noted other id q)
                    (us ++ own_entry ∷ []) t.serving;
            moved =
                changed-Moved u l own_entry link_entry view frame law p.ganglia.link
                  (p.ganglia.waiting ++ cs) p.ganglia.received (suc id)
                  (insert id (add other (reacted id q)) p.reactions) p
                  (same-Kept u l own_entry link_entry view frame law p.ganglia.link)
                  (IsFresh-insert id (add other (reacted id q)) p.reactions);
            waiting = refl;
            received = refl;
            sent = refl;
          };
          noted = ground (arith, new, lookup-insert id id (add other (reacted id q)) p.reactions);
        }

    -- Data that the link has received does not leave by it again.
    pub own_again-Called :
        (v : Value) (n : Neuron) (rid : ℕ) (p : Plexus (Joint S))
        → Running view p
        → lookup rid p.reactions ≡ some (other ∷ [])
        → Called (reacts own_entry v n (some rid)) [] [] p
    unfolding note Plexus.identity
    own_again-Called v n rid p r h =
        let q : Plexus (Joint S) = counted p in
        record {
          state = noted me rid q;
          ends =
              call_own v n (some rid) p
              ∙ entry_targets u l own_entry link_entry me v n (some rid) [] p
                  (targets_last_own rid q r.shape.internal r.shape.external h)
              ∙ deliver_none u l own_entry link_entry v n rid (noted me rid q);
          moved =
              changed-Moved u l own_entry link_entry view frame law p.ganglia.link p.ganglia.waiting
                p.ganglia.received (suc p.ganglia.next_id)
                (insert rid (add me (reacted rid q)) p.reactions) p
                (same-Kept u l own_entry link_entry view frame law p.ganglia.link)
                (IsFresh-again p.ganglia.next_id rid (other ∷ []) (add me (reacted rid q))
                  p.reactions h);
          waiting = sym (append-nil p.ganglia.waiting);
          received = refl;
          sent = refl;
        }
