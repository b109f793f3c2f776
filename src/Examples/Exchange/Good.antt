-- ===== src/Examples/Exchange/Good.antt =====
-- One round of a program that sends, and the reply of another.
use pyplexo.Base.{
  ℕ, true, ◌≡◌, ◌≢◌, refl, sym, ap, ◌∙◌, Option, none, List, [], ◌∷◌, ◌++◌, length, ℕ_key, arith,
}
use mathlib.Core.List.{append-nil}
use pyplexo.Codec.{Utf8, Encoded, bytes}
use pyplexo.Dendrite.{Call, reacts}
use pyplexo.Exceptions.{ok}
use pyplexo.Neuron.{Neuron, encode, decode}
use pyplexo.Schema.{Value}
use pyplexo.Ganglion.External.State.{to_payload}
use pyplexo.Plexus
use pyplexo.Plexus.{Plexus}
use pyplexo.Plexus.Bridge
use pyplexo.Plexus.Bridge.{Link, Joint, bridge, transmit_inproc}
use pyplexo.Plexus.Bridge.Calls.{inproc_transmit}
use pyplexo.Plexus.Bridge.Laws.{View, Lawful}
use pyplexo.Plexus.Bridge.Steady.{Steady, Tied}
use pyplexo.Plexus.Bridge.Journeys.{transmit-Ends}
use pyplexo.Plexus.Bridge.Arrivals.{IsPlain, arrivals, receive-Ends, receive_reply-Ends}
use pyplexo.Examples.Exchange.{Two, Handler, most_calls, meanwhile, Network, IsReliable}
use pyplexo.Examples.Exchange.Carried.{one_arriving, carry_there_eq, carry_here_eq, meanwhile_eq}
use pyplexo.Examples.Received.{received_by, received_by-append}

-- The neuron's codec decodes what it encodes of a value.
pub record Coded (u : Utf8) (n : Neuron) (v : Value) : Type 0 where
  pub encoded : Encoded
  pub encodes : encode n v ≡ ok encoded
  pub decodes : decode n (bytes (to_payload u encoded)) ≡ ok v

-- A network that delivers every frame, and what each process relies on of its link: that is in order, and
-- two that are in order are connected.
pub record Sides {S F : Type 0} (u : Utf8) (l : Link S F) (link_entry : ℕ) : Type 1 where
  pub net : Network
  pub sure : IsReliable net
  pub frame : Neuron → Encoded → F
  pub view_here : View S
  pub view_there : View S
  pub law_here : Lawful u l link_entry view_here frame
  pub law_there : Lawful u l link_entry view_there frame
  pub meets :
      (s t : S)
      → view_here.IsSound s
      → view_there.IsSound t
      → (l.reaches s t ≡ true) × (l.reaches t s ≡ true)

module _ {S F : Type 0} (u : Utf8) (l : Link S F) (own_entry link_entry : ℕ)
    (sides : Sides u l link_entry) (here there : Handler S) (foo bar : Neuron)
    (foo_reaction bar_reaction : ℕ) where
  -- Both plexus are in order and know both neurons, one reacts to `foo` and the other to `bar`, and each
  -- frame has been carried.
  pub record Good (s : Two S) : Type 0 where
    pub here_steady : Steady sides.view_here s.here
    pub here_foo : Tied sides.view_here own_entry foo [] s.here
    pub here_bar : Tied sides.view_here own_entry bar (bar_reaction ∷ []) s.here
    pub there_steady : Steady sides.view_there s.there
    pub there_foo : Tied sides.view_there own_entry foo (foo_reaction ∷ []) s.there
    pub there_bar : Tied sides.view_there own_entry bar [] s.there
    pub here_carried : s.here_carried ≡ length (l.sent s.here.ganglia.link)
    pub there_carried : s.there_carried ≡ length (l.sent s.there.ganglia.link)

  -- What the programs' reactants do: one notes what it gets, the other transmits a reply.
  pub record Handlers (message reply : ℕ → Value) : Type 0 where
    pub own_apart : link_entry ≢ own_entry
    pub foo_own : foo_reaction ≢ own_entry
    pub foo_link : foo_reaction ≢ link_entry
    pub bar_own : bar_reaction ≢ own_entry
    pub bar_link : bar_reaction ≢ link_entry
    pub notes :
        (v : Value) (rid : Option ℕ) (q : Plexus (Joint S))
        → here bar_reaction v bar rid q ≡ (ok tt, q)
    pub replies :
        (i : ℕ) (rid : Option ℕ) (q t : Plexus (Joint S))
        → Plexus.transmit_data (bridge u l own_entry link_entry) (reply i) bar none q ≡ (ok tt, t)
        → there foo_reaction (message i) foo rid q ≡ (ok tt, t)

  module _ (message reply : ℕ → Value) (h : Handlers message reply) where
    notes-IsPlain :
        (v : Value) (p : Plexus (Joint S))
        → IsPlain u l own_entry link_entry sides.view_here sides.frame sides.law_here here
            bar_reaction v bar [] p
    notes-IsPlain v p rid q m =
        h.notes v rid q
        ∙ ap (λ x. (ok tt, record q { ganglia = record q.ganglia { waiting = x } }))
            (sym (append-nil q.ganglia.waiting))

    transmit_data_eq :
        (v : Value) (q : Plexus (Joint S))
        → Tied sides.view_there own_entry bar [] q
        → Plexus.transmit_data (bridge u l own_entry link_entry) v bar none q ≡ (
          ok tt,
          record q {
            ganglia = record q.ganglia {
              waiting = q.ganglia.waiting ++ reacts own_entry v bar none ∷ [];
            };
          },
        )
    unfolding Plexus.transmit_data transmit_inproc
    transmit_data_eq v q t =
        ground (arith, inproc_transmit u bar (own_entry ∷ []) v none q.ganglia.inproc t.serving)

    replies-IsPlain :
        (i : ℕ) (p : Plexus (Joint S))
        → Tied sides.view_there own_entry bar [] p
        → IsPlain u l own_entry link_entry sides.view_there sides.frame sides.law_there there
            foo_reaction
            (message i)
            foo
            (reacts own_entry (reply i) bar none ∷ [])
            p
    replies-IsPlain i p t rid q m =
        h.replies i rid q
          (record q {
            ganglia = record q.ganglia {
              waiting = q.ganglia.waiting ++ reacts own_entry (reply i) bar none ∷ [];
            };
          })
          (transmit_data_eq (reply i) q (m.tied bar [] t))

    -- What a round comes to: the other program's reactant gets the message, and this program's the reply.
    pub record Round (i : ℕ) (s : Two S) : Type 0 where
      pub sent : Plexus (Joint S)
      pub sends :
          Bridge.transmit u l own_entry link_entry here most_calls (message i) foo s.here
          ≡ (ok tt, sent)
      pub state : Two S
      pub sleeps :
          meanwhile u l own_entry link_entry sides.net here there (record s { here = sent })
          ≡ (ok tt, state)
      pub good : Good state
      pub there_received :
          received_by foo_reaction state.there.ganglia.received
          ≡ received_by foo_reaction s.there.ganglia.received ++ message i ∷ []
      pub here_received :
          received_by bar_reaction state.here.ganglia.received
          ≡ received_by bar_reaction s.here.ganglia.received ++ reply i ∷ []

    -- Of the calls that a frame leads to, one is of the program's reactant.
    received_arrivals :
        (r id : ℕ) (v : Value) (n : Neuron)
        → r ≢ own_entry
        → r ≢ link_entry
        → received_by r (
            arrivals u l own_entry link_entry sides.view_here sides.frame sides.law_here here r id v
              n)
          ≡ v ∷ []
    unfolding received_by
    received_arrivals r id v n a b = ground (arith, a, b)

    received_own :
        (r : ℕ) (v : Value) (n : Neuron)
        → r ≢ own_entry
        → received_by r (reacts own_entry v n none ∷ []) ≡ []
    unfolding received_by
    received_own r v n a = ground (arith, a)

    gains :
        (r : ℕ) (cs ds : List Call) (v : Value) (l : List Call)
        → l ≡ cs ++ ds
        → received_by r ds ≡ v ∷ []
        → received_by r l ≡ received_by r cs ++ v ∷ []
    gains r cs ds v l e h =
        ap (received_by r) e ∙ received_by-append r cs ds ∙ ap (λ x. received_by r cs ++ x) h

    -- What the reactant there has received once a message has come and been replied to.
    foo_gains :
        (v w : Value) (id : ℕ) (cs ds : List Call)
        → ds
          ≡ cs
            ++ (arrivals u l own_entry link_entry sides.view_here sides.frame sides.law_here here
                  foo_reaction id v foo
                ++ reacts own_entry w bar none ∷ [])
        → received_by foo_reaction ds ≡ received_by foo_reaction cs ++ v ∷ []
    foo_gains v w id cs ds e =
        let went =
          arrivals u l own_entry link_entry sides.view_here sides.frame sides.law_here here
            foo_reaction id v foo in
        gains foo_reaction cs (went ++ reacts own_entry w bar none ∷ []) v ds e (
          received_by-append foo_reaction went (reacts own_entry w bar none ∷ [])
          ∙ ap (λ k. received_by foo_reaction went ++ k) (received_own foo_reaction w bar h.foo_own)
          ∙ append-nil (received_by foo_reaction went)
          ∙ received_arrivals foo_reaction id v foo h.foo_own h.foo_link)

    -- What the reactant here has received once a message has left and the reply has come.
    bar_gains :
        (v w : Value) (id : ℕ) (cs ds es : List Call)
        → ds ≡ cs ++ reacts own_entry v foo none ∷ []
        → es
          ≡ ds
            ++ arrivals u l own_entry link_entry sides.view_here sides.frame sides.law_here here
                bar_reaction id w bar
        → received_by bar_reaction es ≡ received_by bar_reaction cs ++ w ∷ []
    bar_gains v w id cs ds es e k =
        gains bar_reaction ds
          (arrivals u l own_entry link_entry sides.view_here sides.frame sides.law_here here
            bar_reaction id w bar)
          w es k (received_arrivals bar_reaction id w bar h.bar_own h.bar_link)
        ∙ ap (λ x. x ++ w ∷ [])
            (ap (received_by bar_reaction) e
              ∙ received_by-append bar_reaction cs (reacts own_entry v foo none ∷ [])
              ∙ ap (λ x. received_by bar_reaction cs ++ x)
                  (received_own bar_reaction v foo h.bar_own)
              ∙ append-nil (received_by bar_reaction cs))

    pub round :
        (i : ℕ) (s : Two S) → Good s → Coded u foo (message i) → Coded u bar (reply i) → Round i s
    round i s g c d =
        let v = message i in
        let w = reply i in
        let a =
          transmit-Ends u l own_entry link_entry sides.view_here sides.frame sides.law_here here 3 v
            foo c.encoded s.here g.here_steady g.here_foo c.encodes in
        let p = a.state in
        let (x, b) =
          receive_reply-Ends u l own_entry link_entry sides.view_there sides.frame sides.law_there
            there 0 foo_reaction v w foo bar c.encoded d.encoded s.there h.foo_own h.foo_link
            h.own_apart g.there_steady g.there_foo g.there_bar c.decodes d.encodes
            (replies-IsPlain i s.there g.there_bar) in
        let q = b.state in
        let (y, e) =
          receive-Ends u l own_entry link_entry sides.view_here sides.frame sides.law_here here 1
            bar_reaction w bar d.encoded p h.bar_own h.bar_link h.own_apart a.steady
            (a.came.moved.tied bar (bar_reaction ∷ []) g.here_bar) d.decodes (notes-IsPlain w p) in
        let z = e.state in
        let s1 : Two S = record s { here = p } in
        let s2 : Two S = record s1 { here_carried = length (l.sent p.ganglia.link); there = q } in
        let s3 : Two S = record s2 { there_carried = length (l.sent q.ganglia.link); here = z } in
        let foo_frame = sides.frame foo c.encoded in
        let bar_frame = sides.frame bar d.encoded in
        let near =
          sides.meets p.ganglia.link s.there.ganglia.link a.steady.running.sound
            g.there_steady.running.sound in
        let far =
          sides.meets p.ganglia.link q.ganglia.link a.steady.running.sound b.steady.running.sound in
        let new_there =
          one_arriving u l own_entry link_entry sides.net here there sides.net.to_there foo_frame
            (l.sent s.here.ganglia.link) s.here_carried p s.there sides.sure.to_there near.0
            a.came.sent g.here_carried in
        let new_here =
          one_arriving u l own_entry link_entry sides.net here there sides.net.to_here bar_frame
            (l.sent s.there.ganglia.link) s.there_carried q p sides.sure.to_here far.1 b.came.sent
            g.there_carried in
        record {
          sent = p;
          sends = a.ends;
          state = s3;
          sleeps =
              meanwhile_eq u l own_entry link_entry sides.net here there s1 s2 s3
                (carry_there_eq u l own_entry link_entry sides.net here there foo_frame s1 q
                  new_there b.ends)
                (carry_here_eq u l own_entry link_entry sides.net here there bar_frame s2 z new_here
                  e.ends);
          good = record {
            here_steady = e.steady;
            here_foo = e.came.moved.tied foo [] (a.came.moved.tied foo [] g.here_foo);
            here_bar =
                e.came.moved.tied bar (bar_reaction ∷ [])
                  (a.came.moved.tied bar (bar_reaction ∷ []) g.here_bar);
            there_steady = b.steady;
            there_foo = b.came.moved.tied foo (foo_reaction ∷ []) g.there_foo;
            there_bar = b.came.moved.tied bar [] g.there_bar;
            here_carried = sym (ap length e.came.sent);
            there_carried = refl;
          };
          there_received =
              foo_gains v w x s.there.ganglia.received q.ganglia.received b.came.received;
          here_received =
              bar_gains v w y s.here.ganglia.received p.ganglia.received z.ganglia.received
                a.came.received e.came.received;
        }
