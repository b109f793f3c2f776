-- ===== src/Axon.antt =====
-- src/plexo/axon.py: `Axon`, one neuron on one ganglion. What the ganglion does is an argument, over its
-- states `G`.
use pyplexo.Base.{ℕ, suc, ◌≡◌, refl, Bool, true, false, List, [], ◌∷◌, if◌then◌else◌, arith}
use pyplexo.Exceptions.{Action, ok, pure, gets, modify, ◌>>=◌, ◌>>◌}
use pyplexo.Neuron.{Neuron}
use pyplexo.Schema.{Value}

-- The methods of the ganglion that an axon calls.
pub record Methods (G : Type 0) : Type 0 where
  pub adapt : Neuron → Action G (Unit {0})
  pub react : Neuron → List ℕ → Action G (Unit {0})
  pub transmit : Value → Neuron → Action G (Unit {0})

pub record Axon (G : Type 0) : Type 0 where
  pub neuron : Neuron
  pub ganglion : G
  pub startup_done : Bool

-- `Axon(neuron, ganglion)`
unfoldable pub init : {G : Type 0} → Neuron → G → Axon G
init n g = record { neuron = n; ganglion = g; startup_done = false }

-- What a program does with an axon.
pub data Use : Type 0 where
  reacts : List ℕ → Use
  transmits : Value → Use

module _ {G : Type 0} (h : Methods G) where
  -- A method of the ganglion, with the axon's neuron.
  abbrev on_ganglion : (Neuron → Action G (Unit {0})) → Action (Axon G) (Unit {0})
  on_ganglion f a = let (r, g) = f a.neuron a.ganglion in (r, record a { ganglion = g })

  unfoldable pub adapt : Action (Axon G) (Unit {0})
  adapt = do on_ganglion h.adapt; modify (λ a. record a { startup_done = true })

  adapt_if_needed : Action (Axon G) (Unit {0})
  adapt_if_needed = do ready ← gets (λ a. a.startup_done); if ready then pure tt else adapt

  unfoldable pub react : List ℕ → Action (Axon G) (Unit {0})
  unfolding adapt_if_needed
  react rs = do adapt_if_needed; on_ganglion (λ n. h.react n rs)

  unfoldable pub transmit : Value → Action (Axon G) (Unit {0})
  unfolding adapt_if_needed
  transmit v = do adapt_if_needed; on_ganglion (λ n. h.transmit v n)

  unfoldable pub use_axon : Use → Action (Axon G) (Unit {0})
  use_axon (reacts rs) = react rs
  use_axon (transmits v) = transmit v

  -- The uses one after another, whatever they raise.
  unfoldable pub run : List Use → Axon G → Axon G
  run [] a = a
  run (x ∷ xs) a = run xs (use_axon x a).1

  -- A count of adaptations: to adapt succeeds and adds one, and the other methods add none.
  pub record IsCount (count : G → ℕ) : Type 0 where
    pub adapts :
        (n : Neuron) (g : G) → ((h.adapt n g).0 ≡ ok tt) × (count (h.adapt n g).1 ≡ suc (count g))
    pub keeps_react : (n : Neuron) (rs : List ℕ) (g : G) → count (h.react n rs g).1 ≡ count g
    pub keeps_transmit : (v : Value) (n : Neuron) (g : G) → count (h.transmit v n g).1 ≡ count g

  module _ (count : G → ℕ) (is_count : IsCount count) where
    use_axon-once :
        (x : Use) (a : Axon G)
        → ((use_axon x a).1.startup_done ≡ true)
          × (count (use_axon x a).1.ganglion
              ≡ (if a.startup_done then count a.ganglion else suc (count a.ganglion)))
    unfolding use_axon react transmit adapt
    use_axon-once (reacts rs) a = ground (
      arith,
      is_count.adapts a.neuron a.ganglion,
      is_count.keeps_react a.neuron rs a.ganglion,
      is_count.keeps_react a.neuron rs (h.adapt a.neuron a.ganglion).1,
    )
    use_axon-once (transmits v) a = ground (
      arith,
      is_count.adapts a.neuron a.ganglion,
      is_count.keeps_transmit v a.neuron a.ganglion,
      is_count.keeps_transmit v a.neuron (h.adapt a.neuron a.ganglion).1,
    )

    run_ready :
        (xs : List Use) (a : Axon G)
        → a.startup_done ≡ true
        → count (run xs a).ganglion ≡ count a.ganglion
    unfolding run
    run_ready [] a e = refl
    run_ready (x ∷ xs) a e = ground (arith, use_axon-once x a, run_ready xs (use_axon x a).1)

    -- Where adapting the ganglion succeeds, a new axon that is used adapts it exactly once, however many
    -- uses there are and whatever they raise.
    pub run-once :
        (x : Use) (xs : List Use) (n : Neuron) (g : G)
        → count (run (x ∷ xs) (init n g)).ganglion ≡ suc (count g)
    unfolding run init
    run-once x xs n g =
        ground (arith, use_axon-once x (init n g), run_ready xs (use_axon x (init n g)).1)
