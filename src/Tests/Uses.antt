-- ===== src/Tests/Uses.antt =====
-- Runs of the theorem on axons.
use pyplexo.Base.{ℕ, suc, ◌≡◌, refl, [], ◌∷◌}
use pyplexo.Axon
use pyplexo.Axon.{Methods, IsCount, reacts, transmits, run-once}
use pyplexo.Exceptions.{ok, raise, transmitter_not_found}
use pyplexo.Schema.{text}
use pyplexo.Tests.Setting.{note}

-- A ganglion that counts how often it adapts.
abbrev counter : Methods ℕ
counter = record {
  adapt = λ n g. (ok tt, suc g);
  react = λ n rs g. (ok tt, g);
  transmit = λ v n g. (raise transmitter_not_found, g);
}

abbrev the_count : ℕ → ℕ
the_count g = g

counter-IsCount : IsCount counter the_count
counter-IsCount = record {
  adapts = λ n g. (refl, refl);
  keeps_react = λ n rs g. refl;
  keeps_transmit = λ v n g. refl;
}

run-once_example :
    (Axon.run counter (transmits (text "hello") ∷ reacts (1 ∷ []) ∷ []) (Axon.init note 0)).ganglion
    ≡ 1
run-once_example =
    run-once counter the_count counter-IsCount (transmits (text "hello")) (reacts (1 ∷ []) ∷ [])
      note 0
