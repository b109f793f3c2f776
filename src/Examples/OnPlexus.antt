-- ===== src/Examples/OnPlexus.antt =====
-- A plexus that has no other ganglia, from the adaptation to a neuron with a reactant on.
use pyplexo.Base.{ℕ, ◌≡◌, ◌≢◌, ap, ◌∙◌, none, List, [], ◌∷◌, ◌++◌, ℕ_key, arith}
use pyplexo.Codec.{Utf8}
use pyplexo.Exceptions.{Action, Result, ok, ◌>>◌}
use pyplexo.Neuron.{Neuron}
use pyplexo.Plexus
use pyplexo.Plexus.{Plexus}
use pyplexo.Plexus.Own
use pyplexo.Plexus.Own.{Own, own}
use pyplexo.Plexus.Own.Adapted.{adapted}
use pyplexo.Plexus.Own.Served.{Served, transmit-Served, calls_of}
use pyplexo.Schema.{Value}
use pyplexo.Examples.Received.{received_by, received_by-append}
use pyplexo.Examples.Rounds.{Sent, rounds, values, rounds-Rounded}

module _ (u : Utf8) (entry r : ℕ) (apart : r ≢ entry) where
  received_both :
      (v : Value) (n : Neuron) → received_by r (calls_of (r ∷ entry ∷ []) v n none) ≡ v ∷ []
  unfolding received_by
  received_both v n = ground (arith, apart)

  -- The program's reactant and the plexus's own get data of the neuron, and nothing has been asked for.
  abbrev Ready : Neuron → Plexus Own → Type 0
  Ready n p = Served n (r ∷ entry ∷ []) p × (p.ganglia.asked ≡ [])

  abbrev seen : Plexus Own → List Value
  seen p = received_by r p.ganglia.received

  abbrev send : Neuron → Value → Action (Plexus Own) (Unit {0})
  send n v = Own.transmit u entry v n none

  transmit-Sent :
      (n : Neuron) (v : Value) (p : Plexus Own) → Ready n p → Sent (send n) (Ready n) seen v p
  transmit-Sent n v p (served, quiet) =
      let (t, h, s, got, same) = transmit-Served u entry n (r ∷ entry ∷ []) v none p served in
      record {
        state = t;
        sends = h;
        still = (s, same ∙ quiet);
        more =
            ap (received_by r) got
            ∙ received_by-append r p.ganglia.received (calls_of (r ∷ entry ∷ []) v n none)
            ∙ ap (λ l. seen p ++ l) (received_both v n);
      }

  -- The plexus's adaptation with the reactant, and some rounds.
  abbrev adapt_and_send : Neuron → (ℕ → Result Value) → ℕ → Action (Plexus Own) (Unit {0})
  adapt_and_send n message k = do Plexus.adapt (own u entry) n (r ∷ []); rounds (send n) message k 1

  -- The reactant has received the values of some rounds, each once and in order.
  pub record Received (n : Neuron) (message : ℕ → Result Value) (vs : List Value) (k : ℕ)
      : Type 0 where
    pub state : Plexus Own
    pub ends : adapt_and_send n message k (Own.init u entry) ≡ (ok tt, state)
    pub values_seen : seen state ≡ vs
    pub none_asked : state.ganglia.asked ≡ []

  adapt_then :
      (n : Neuron) (message : ℕ → Result Value) (k : ℕ) (t v : Plexus Own)
      → Plexus.adapt (own u entry) n (r ∷ []) (Own.init u entry) ≡ (ok tt, t)
      → rounds (send n) message k 1 t ≡ (ok tt, v)
      → adapt_and_send n message k (Own.init u entry) ≡ (ok tt, v)
  adapt_then n message k t v h e = ground (arith, h, e)

  pub run-Received :
      (n : Neuron) (message : ℕ → Result Value) (f : ℕ → Value) (k : ℕ)
      → ((j : ℕ) → message j ≡ ok (f j))
      → Received n message (values f k 1) k
  unfolding received_by
  run-Received n message f k makes =
      let a = adapted u entry n r apart in
      let t =
        rounds-Rounded (send n) (Ready n) seen message f k 1 a.state (transmit-Sent n) makes
          (a.served, a.none_asked) in
      record {
        state = t.state;
        ends = adapt_then n message k a.state t.state a.adapts t.ends;
        values_seen = t.more ∙ ap (λ l. l ++ values f k 1) (ap (received_by r) a.none_received);
        none_asked = t.still.1;
      }

  -- What a program gets that starts so.
  pub run-result :
      (n : Neuron) (message : ℕ → Result Value) (f : ℕ → Value) (k : ℕ)
      → ((j : ℕ) → message j ≡ ok (f j))
      → let (q, p) = adapt_and_send n message k (Own.init u entry) in
        (q ≡ ok tt) × (received_by r p.ganglia.received ≡ values f k 1) × (p.ganglia.asked ≡ [])
  run-result n message f k makes =
      let g = run-Received n message f k makes in
      (
        ap (λ x. x.0) g.ends,
        ap (λ x. seen x.1) g.ends ∙ g.values_seen,
        ap (λ x. x.1.ganglia.asked) g.ends ∙ g.none_asked,
      )
