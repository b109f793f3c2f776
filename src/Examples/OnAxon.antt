-- ===== src/Examples/OnAxon.antt =====
-- An axon on a plexus that has no other ganglia, from its first reactant on.
use pyplexo.Base.{ℕ, ◌≡◌, ◌≢◌, refl, ap, ◌∙◌, true, none, List, [], ◌∷◌, ◌++◌, ℕ_key, arith}
use pyplexo.Axon
use pyplexo.Axon.{Axon}
use pyplexo.Codec.{Utf8}
use pyplexo.Exceptions.{Result, ok, ◌>>◌}
use pyplexo.Neuron.{Neuron}
use pyplexo.Plexus.{Plexus}
use pyplexo.Plexus.Own
use pyplexo.Plexus.Own.{Own, own, methods}
use pyplexo.Plexus.Own.Served.{Served, Started, started, transmit-Served, calls_of}
use pyplexo.Schema.{Value}
use pyplexo.Examples.Received.{received_by, received_by-append}
use pyplexo.Examples.Rounds.{Sent, rounds, values, rounds-Rounded}

module _ (u : Utf8) (entry r : ℕ) (apart : r ≢ entry) where
  received_both :
      (v : Value) (n : Neuron) → received_by r (calls_of (entry ∷ r ∷ []) v n none) ≡ v ∷ []
  unfolding received_by
  received_both v n = ground (arith, apart)

  -- The axon is ready, its reactant and the plexus's own get its data, and nothing has been asked for.
  pub record Ready (n : Neuron) (a : Axon (Plexus Own)) : Type 0 where
    pub neuron : a.neuron ≡ n
    pub done : a.startup_done ≡ true
    pub served : Served n (entry ∷ r ∷ []) a.ganglion
    pub none_asked : a.ganglion.ganglia.asked ≡ []

  -- What the reactant has received.
  abbrev pub seen : Axon (Plexus Own) → List Value
  seen a = received_by r a.ganglion.ganglia.received

  transmit_eq :
      (n : Neuron) (v : Value) (a : Axon (Plexus Own)) (t : Plexus Own)
      → Ready n a
      → Own.transmit u entry v n none a.ganglion ≡ (ok tt, t)
      → Axon.transmit (methods u entry) v a ≡ (ok tt, record a { ganglion = t })
  unfolding Axon.transmit
  transmit_eq n v a t g h = ground (arith, g.neuron, g.done, h)

  pub transmit-Sent :
      (n : Neuron) (v : Value) (a : Axon (Plexus Own))
      → Ready n a
      → Sent (Axon.transmit (methods u entry)) (Ready n) seen v a
  transmit-Sent n v a g =
      let (t, h, s, got, same) =
        transmit-Served u entry n (entry ∷ r ∷ []) v none a.ganglion g.served in
      record {
        state = record a { ganglion = t };
        sends = transmit_eq n v a t g h;
        still = record {
          neuron = g.neuron;
          done = g.done;
          served = s;
          none_asked = same ∙ g.none_asked;
        };
        more =
            ap (received_by r) got
            ∙ received_by-append r a.ganglion.ganglia.received (calls_of (entry ∷ r ∷ []) v n none)
            ∙ ap (λ l. seen a ++ l) (received_both v n);
      }

  -- How the first `react` of a new axon on a new plexus ends.
  pub record Reacted (n : Neuron) : Type 0 where
    pub state : Axon (Plexus Own)
    pub ends :
        Axon.react (methods u entry) (r ∷ []) (Axon.init n (Own.init u entry)) ≡ (ok tt, state)
    pub ready : Ready n state
    pub nothing : seen state ≡ []

  react_eq :
      (n : Neuron) (s : Started u entry n r)
      → Axon.react (methods u entry) (r ∷ []) (Axon.init n (Own.init u entry))
        ≡ (ok tt, record { neuron = n; ganglion = s.state; startup_done = true })
  unfolding Axon.react Axon.adapt Axon.init
  react_eq n s = ground (arith, s.adapts, s.reacts)

  pub reacted : (n : Neuron) → Reacted n
  unfolding received_by
  reacted n =
      let s = started u entry n r apart in
      record {
        state = record { neuron = n; ganglion = s.state; startup_done = true };
        ends = react_eq n s;
        ready = record { neuron = refl; done = refl; served = s.served; none_asked = s.none_asked };
        nothing = ap (received_by r) s.none_received;
      }

  -- Such an axon with its reactant has received the values of some rounds, each once and in order.
  record Received (n : Neuron) (message : ℕ → Result Value) (vs : List Value) (k : ℕ) : Type 0 where
    state : Axon (Plexus Own)
    ends :
        (do
          Axon.react (methods u entry) (r ∷ [])
          rounds (Axon.transmit (methods u entry)) message k 1)
          (Axon.init n (Own.init u entry))
        ≡ (ok tt, state)
    pub values_seen : seen state ≡ vs
    pub none_asked : state.ganglion.ganglia.asked ≡ []

  react_then :
      (n : Neuron) (message : ℕ → Result Value) (k : ℕ) (t v : Axon (Plexus Own))
      → Axon.react (methods u entry) (r ∷ []) (Axon.init n (Own.init u entry)) ≡ (ok tt, t)
      → rounds (Axon.transmit (methods u entry)) message k 1 t ≡ (ok tt, v)
      → (do
        Axon.react (methods u entry) (r ∷ [])
        rounds (Axon.transmit (methods u entry)) message k 1)
          (Axon.init n (Own.init u entry))
        ≡ (ok tt, v)
  react_then n message k t v h e = ground (arith, h, e)

  run-Received :
      (n : Neuron) (message : ℕ → Result Value) (f : ℕ → Value) (k : ℕ)
      → ((j : ℕ) → message j ≡ ok (f j))
      → Received n message (values f k 1) k
  run-Received n message f k makes =
      let s = reacted n in
      let t =
        rounds-Rounded (Axon.transmit (methods u entry)) (Ready n) seen message f k 1 s.state
          (transmit-Sent n) makes s.ready in
      record {
        state = t.state;
        ends = react_then n message k s.state t.state s.ends t.ends;
        values_seen = t.more ∙ ap (λ l. l ++ values f k 1) s.nothing;
        none_asked = t.still.none_asked;
      }

  -- What a program gets that starts so.
  pub run-result :
      (n : Neuron) (message : ℕ → Result Value) (f : ℕ → Value) (k : ℕ)
      → ((j : ℕ) → message j ≡ ok (f j))
      → let (q, a) =
          (do
            Axon.react (methods u entry) (r ∷ [])
            rounds (Axon.transmit (methods u entry)) message k 1)
            (Axon.init n (Own.init u entry)) in
        (q ≡ ok tt)
        × (received_by r a.ganglion.ganglia.received ≡ values f k 1)
        × (a.ganglion.ganglia.asked ≡ [])
  run-result n message f k makes =
      let g = run-Received n message f k makes in
      (
        ap (λ x. x.0) g.ends,
        ap (λ x. seen x.1) g.ends ∙ g.values_seen,
        ap (λ x. x.1.ganglion.ganglia.asked) g.ends ∙ g.none_asked,
      )
