-- ===== src/Examples/Exchange/Whole.antt =====
-- Two programs that exchange messages, from the start of both.
use pyplexo.Base.{ℕ, ◌≡◌, ◌≢◌, refl, sym, ap, ◌∙◌, true, List, [], ◌∷◌, ◌++◌, length, ℕ_key, arith}
use pyplexo.Codec.{Utf8}
use pyplexo.Exceptions.{Action, Result, ok, lift, ◌>>◌}
use pyplexo.Neuron.{Neuron, name}
use pyplexo.Schema.{Value}
use pyplexo.Plexus
use pyplexo.Plexus.{Plexus}
use pyplexo.Plexus.Bridge
use pyplexo.Plexus.Bridge.{Link, Joint, bridge}
use pyplexo.Plexus.Bridge.Laws.{View}
use pyplexo.Plexus.Bridge.Steady.{Steady, Tied, init-Steady, init-Unmet}
use pyplexo.Plexus.Bridge.Adapted.{adapt-Met, adapt_reactant-Met}
use pyplexo.Examples.Exchange.{Two, Handler, on_here, on_there, paced}
use pyplexo.Examples.Exchange.Good.{Coded, Sides, Handlers}
use pyplexo.Examples.Exchange.Rounds.{send, sleep, Paced-all}
use pyplexo.Examples.Received.{received_by}
use pyplexo.Examples.Rounds.{values}

-- Ganglia that are made without an exception do not matter to what follows.
pub both_made :
    {W : Type 0} (q r : Result (Unit {0})) (f g h : Action W (Unit {0})) (s : W)
    → q ≡ ok tt
    → r ≡ ok tt
    → (do (do lift q; f); (do lift r; (do g; h))) s ≡ (do f; g; h) s
both_made q r f g h s e k = ground (arith, e, k)

-- A new link that handles a neuron.
pub record Fit {S : Type 0} (view : View S) (n : Neuron) (s : S) : Type 0 where
  pub new : view.IsNew n s
  pub able : view.able n s ≡ true

module _ {S F : Type 0} (u : Utf8) (l : Link S F) (own_entry link_entry : ℕ)
    (sides : Sides u l link_entry) (here there : Handler S) (foo bar : Neuron)
    (foo_reaction bar_reaction : ℕ) (message reply : ℕ → Value)
    (h : Handlers u l own_entry link_entry sides here there foo bar foo_reaction bar_reaction
      message reply) where
  -- What the two programs do with their plexus before anything is sent.
  abbrev pub start_here : Action (Plexus (Joint S)) (Unit {0})
  start_here = do
    Plexus.adapt (bridge u l own_entry link_entry) foo []
    Plexus.adapt (bridge u l own_entry link_entry) bar (bar_reaction ∷ [])

  abbrev pub start_there : Action (Plexus (Joint S)) (Unit {0})
  start_there = do
    Plexus.adapt (bridge u l own_entry link_entry) foo (foo_reaction ∷ [])
    Plexus.adapt (bridge u l own_entry link_entry) bar []

  -- A plexus that knows both neurons.
  record Started (view : View S) (f : Action (Plexus (Joint S)) (Unit {0}))
      (foo_reactants bar_reactants : List ℕ) (s : S) : Type 0 where
    state : Plexus (Joint S)
    ends : f (Bridge.init u l own_entry link_entry s) ≡ (ok tt, state)
    steady : Steady view state
    tied_foo : Tied view own_entry foo foo_reactants state
    tied_bar : Tied view own_entry bar bar_reactants state
    sent : l.sent state.ganglia.link ≡ l.sent s
    received : state.ganglia.received ≡ []

  then_eq :
      (f g : Action (Plexus (Joint S)) (Unit {0})) (p q t : Plexus (Joint S))
      → f p ≡ (ok tt, q)
      → g q ≡ (ok tt, t)
      → (f >> g) p ≡ (ok tt, t)
  then_eq f g p q t e k = ground (arith, e, k)

  init-received : (s : S) → (Bridge.init u l own_entry link_entry s).ganglia.received ≡ []
  unfolding Bridge.init
  init-received s = refl

  init-sent : (s : S) → (Bridge.init u l own_entry link_entry s).ganglia.link ≡ s
  unfolding Bridge.init
  init-sent s = refl

  started_here :
      (s : S)
      → name foo ≢ name bar
      → sides.view_here.IsSound s
      → Fit sides.view_here foo s
      → Fit sides.view_here bar s
      → Started sides.view_here start_here [] (bar_reaction ∷ []) s
  started_here s apart sound f b =
      let p = Bridge.init u l own_entry link_entry s in
      let one =
        adapt-Met u l own_entry link_entry sides.view_here sides.frame sides.law_here foo p
          (init-Steady u l own_entry link_entry sides.view_here s sound)
          (init-Unmet u l own_entry link_entry sides.view_here s foo f.new f.able) in
      let two =
        adapt_reactant-Met u l own_entry link_entry sides.view_here sides.frame sides.law_here bar
          bar_reaction one.state h.bar_own one.steady
          (one.unmet_others bar apart
            (init-Unmet u l own_entry link_entry sides.view_here s bar b.new b.able)) in
      record {
        state = two.state;
        ends =
            then_eq (Plexus.adapt (bridge u l own_entry link_entry) foo [])
              (Plexus.adapt (bridge u l own_entry link_entry) bar (bar_reaction ∷ [])) p one.state
              two.state one.ends two.ends;
        steady = two.steady;
        tied_foo = two.tied_others foo [] (λ e. apart (sym e)) one.tied;
        tied_bar = two.tied;
        sent = two.sent ∙ one.sent ∙ ap l.sent (init-sent s);
        received = two.received ∙ one.received ∙ init-received s;
      }

  started_there :
      (s : S)
      → name foo ≢ name bar
      → sides.view_there.IsSound s
      → Fit sides.view_there foo s
      → Fit sides.view_there bar s
      → Started sides.view_there start_there (foo_reaction ∷ []) [] s
  started_there s apart sound f b =
      let p = Bridge.init u l own_entry link_entry s in
      let one =
        adapt_reactant-Met u l own_entry link_entry sides.view_there sides.frame sides.law_there foo
          foo_reaction p h.foo_own (init-Steady u l own_entry link_entry sides.view_there s sound)
          (init-Unmet u l own_entry link_entry sides.view_there s foo f.new f.able) in
      let two =
        adapt-Met u l own_entry link_entry sides.view_there sides.frame sides.law_there bar
          one.state one.steady
          (one.unmet_others bar apart
            (init-Unmet u l own_entry link_entry sides.view_there s bar b.new b.able)) in
      record {
        state = two.state;
        ends =
            then_eq (Plexus.adapt (bridge u l own_entry link_entry) foo (foo_reaction ∷ []))
              (Plexus.adapt (bridge u l own_entry link_entry) bar []) p one.state two.state one.ends
              two.ends;
        steady = two.steady;
        tied_foo = two.tied_others foo (foo_reaction ∷ []) (λ e. apart (sym e)) one.tied;
        tied_bar = two.tied;
        sent = two.sent ∙ one.sent ∙ ap l.sent (init-sent s);
        received = two.received ∙ one.received ∙ init-received s;
      }

  -- The two processes with new plexus over these links.
  abbrev pub both_new : (here there : S) → Two S
  both_new s t = record {
    here = Bridge.init u l own_entry link_entry s;
    there = Bridge.init u l own_entry link_entry t;
    here_carried = 0;
    there_carried = 0;
  }

  -- One program starts, and the other then starts and sends some messages.
  abbrev pub together : ℕ → Action (Two S) (Unit {0})
  together k = do
    on_there u l own_entry link_entry start_there
    on_here u l own_entry link_entry start_here
    paced
        (send u l own_entry link_entry sides here there foo bar foo_reaction bar_reaction message
          reply h)
        (sleep u l own_entry link_entry sides here there foo bar foo_reaction bar_reaction message
          reply h)
        message k 1

  together_eq :
      (k : ℕ) (s v : Two S) (p q : Plexus (Joint S))
      → start_there s.there ≡ (ok tt, q)
      → start_here s.here ≡ (ok tt, p)
      → paced
          (send u l own_entry link_entry sides here there foo bar foo_reaction bar_reaction message
            reply h)
          (sleep u l own_entry link_entry sides here there foo bar foo_reaction bar_reaction message
            reply h)
          message
          k
          1
          (record s { here = p; there = q })
        ≡ (ok tt, v)
      → together k s ≡ (ok tt, v)
  unfolding paced
  together_eq k s v p q e m n = ground (arith, e, m, n)

  -- Where the links are new and handle both neurons, the neurons have different names, and their codecs
  -- decode what they encode of the messages and the replies, both programs start, and however many
  -- messages are sent, no exception is met, the reactant there is called with each message once and in
  -- order, and the reactant here with each reply once and in order.
  pub together-result :
      (s t : S) (k : ℕ)
      → name foo ≢ name bar
      → sides.view_here.IsSound s
      → sides.view_there.IsSound t
      → Fit sides.view_here foo s
      → Fit sides.view_here bar s
      → Fit sides.view_there foo t
      → Fit sides.view_there bar t
      → l.sent s ≡ []
      → l.sent t ≡ []
      → ((j : ℕ) → Coded u foo (message j))
      → ((j : ℕ) → Coded u bar (reply j))
      → let (r, w) = together k (both_new s t) in
        (r ≡ ok tt)
        × (received_by foo_reaction w.there.ganglia.received ≡ values message k 1)
        × (received_by bar_reaction w.here.ganglia.received ≡ values reply k 1)
  unfolding received_by
  together-result s t k apart ss st fs bs ft bt es et c d =
      let a = started_here s apart ss fs bs in
      let b = started_there t apart st ft bt in
      let w : Two S = record (both_new s t) { here = a.state; there = b.state } in
      let r =
        Paced-all u l own_entry link_entry sides here there foo bar foo_reaction bar_reaction
          message reply h k 1 w
          (record {
            here_steady = a.steady;
            here_foo = a.tied_foo;
            here_bar = a.tied_bar;
            there_steady = b.steady;
            there_foo = b.tied_foo;
            there_bar = b.tied_bar;
            here_carried = sym (ap length (a.sent ∙ es));
            there_carried = sym (ap length (b.sent ∙ et));
          })
          c d in
      let e = together_eq k (both_new s t) r.state a.state b.state b.ends a.ends r.ends in
      (
        ap (λ x. x.0) e,
        ap (λ x. received_by foo_reaction x.1.there.ganglia.received) e
            ∙ r.there_received
            ∙ ap (λ x. received_by foo_reaction x ++ values message k 1) b.received,
        ap (λ x. received_by bar_reaction x.1.here.ganglia.received) e
            ∙ r.here_received
            ∙ ap (λ x. received_by bar_reaction x ++ values reply k 1) a.received,
      )
