-- ===== src/Examples/Exchange/Rounds.antt =====
-- Some rounds of a program that sends, with the replies of another.
use pyplexo.Base.{ℕ, zero, suc, ◌+◌, ◌≡◌, refl, sym, ap, ◌∙◌, List, [], ◌∷◌, ◌++◌, ℕ_key, arith}
use mathlib.Core.List.{append-nil, append_assoc}
use pyplexo.Codec.{Utf8}
use pyplexo.Exceptions.{Action, ok}
use pyplexo.Neuron.{Neuron}
use pyplexo.Schema.{Value}
use pyplexo.Plexus.{Plexus}
use pyplexo.Plexus.Bridge
use pyplexo.Plexus.Bridge.{Link, Joint, bridge}
use pyplexo.Examples.Exchange.{Two, Handler, most_calls, on_here, meanwhile, paced}
use pyplexo.Examples.Exchange.Good.{Coded, Sides, Good, Handlers, round}
use pyplexo.Examples.Received.{received_by}
use pyplexo.Examples.Rounds.{values}

one_more :
    (xs ys zs ws : List Value) (v : Value) → ys ≡ xs ++ v ∷ [] → zs ≡ ys ++ ws → zs ≡ xs ++ v ∷ ws
one_more xs ys zs ws v e k = k ∙ ap (λ x. x ++ ws) e ∙ append_assoc xs (v ∷ []) ws

module _ {S F : Type 0} (u : Utf8) (l : Link S F) (own_entry link_entry : ℕ)
    (sides : Sides u l link_entry) (here there : Handler S) (foo bar : Neuron)
    (foo_reaction bar_reaction : ℕ) (message reply : ℕ → Value)
    (h : Handlers u l own_entry link_entry sides here there foo bar foo_reaction bar_reaction
      message reply) where
  abbrev pub IsGood : Two S → Type 0
  IsGood = Good u l own_entry link_entry sides here there foo bar foo_reaction bar_reaction

  -- What the program here sends, and what happens while it sleeps.
  abbrev pub send : Value → Action (Two S) (Unit {0})
  send v =
      on_here u l own_entry link_entry
        (Bridge.transmit u l own_entry link_entry here most_calls v foo)

  abbrev pub sleep : Action (Two S) (Unit {0})
  sleep = meanwhile u l own_entry link_entry sides.net here there

  -- What some rounds come to.
  pub record Paced (k i : ℕ) (s : Two S) : Type 0 where
    pub state : Two S
    pub ends : paced send sleep message k i s ≡ (ok tt, state)
    pub there_received :
        received_by foo_reaction state.there.ganglia.received
        ≡ received_by foo_reaction s.there.ganglia.received ++ values message k i
    pub here_received :
        received_by bar_reaction state.here.ganglia.received
        ≡ received_by bar_reaction s.here.ganglia.received ++ values reply k i

  paced_step :
      (k i : ℕ) (s t : Two S) (p : Plexus (Joint S))
      → Bridge.transmit u l own_entry link_entry here most_calls (message i) foo s.here ≡ (ok tt, p)
      → meanwhile u l own_entry link_entry sides.net here there (record s { here = p }) ≡ (ok tt, t)
      → paced send sleep message (suc k) i s ≡ paced send sleep message k (i + 1) t
  unfolding paced
  paced_step k i s t p e m = ground (arith, e, m)

  pub Paced-all :
      (k i : ℕ) (s : Two S)
      → IsGood s
      → ((j : ℕ) → Coded u foo (message j))
      → ((j : ℕ) → Coded u bar (reply j))
      → Paced k i s
  unfolding paced values
  Paced-all zero i s g c d = record {
    state = s;
    ends = refl;
    there_received = sym (append-nil (received_by foo_reaction s.there.ganglia.received));
    here_received = sym (append-nil (received_by bar_reaction s.here.ganglia.received));
  }
  Paced-all (suc k) i s g c d =
      let r =
        round u l own_entry link_entry sides here there foo bar foo_reaction bar_reaction message
          reply h i s g (c i) (d i) in
      let rest = Paced-all k (i + 1) r.state r.good c d in
      record {
        state = rest.state;
        ends = paced_step k i s r.state r.sent r.sends r.sleeps ∙ rest.ends;
        there_received =
            one_more (received_by foo_reaction s.there.ganglia.received)
              (received_by foo_reaction r.state.there.ganglia.received)
              (received_by foo_reaction rest.state.there.ganglia.received)
              (values message k (i + 1)) (message i) r.there_received rest.there_received;
        here_received =
            one_more (received_by bar_reaction s.here.ganglia.received)
              (received_by bar_reaction r.state.here.ganglia.received)
              (received_by bar_reaction rest.state.here.ganglia.received) (values reply k (i + 1))
              (reply i) r.here_received rest.here_received;
      }
