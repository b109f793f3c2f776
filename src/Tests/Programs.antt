-- ===== src/Tests/Programs.antt =====
-- Runs of the theorems on the programs under examples.
use pyplexo.Base.{ℕ, ◌≡◌, ◌≢◌, refl, String, [], ◌∷◌, ite, ℕ_discrete, arith}
use pyplexo.Codec.{Serialiser}
use pyplexo.Exceptions.{ok, raise, value_error}
use pyplexo.Examples.AxonStr
use pyplexo.Examples.AxonStr.{run-hello}
use pyplexo.Examples.PlexusJson
use pyplexo.Examples.PlexusJson.{run-plexus_foo_json}
use pyplexo.Examples.Received.{received_by}
use pyplexo.Examples.Rounds.{values}
use pyplexo.Tests.Coding.{coding}

abbrev decimal : ℕ → String
decimal i = ite (ℕ_discrete i 1) "1" "2"

one_not_zero : ◌≢◌ {A = ℕ} 1 0
one_not_zero h = absurd (omega (arith, h))

run-hello_example :
    let (r, a) = AxonStr.run coding decimal 0 1 2 in
    (r ≡ ok tt)
    × (received_by 1 a.ganglion.ganglia.received ≡ values (AxonStr.message coding decimal 0 1) 2 1)
    × (a.ganglion.ganglia.asked ≡ [])
run-hello_example = run-hello coding decimal 0 1 one_not_zero 2

abbrev foo_class : Serialiser
foo_class = record { dumps = λ _. ok (7 ∷ []); loads = λ _. raise value_error }

run-plexus_foo_json_example :
    let (r, p) = PlexusJson.run coding foo_class decimal 0 1 2 in
    (r ≡ ok tt)
    × (received_by 1 p.ganglia.received
        ≡ values (PlexusJson.message coding foo_class decimal 0 1) 2 1)
    × (p.ganglia.asked ≡ [])
run-plexus_foo_json_example =
    run-plexus_foo_json coding foo_class decimal 0 1 one_not_zero (λ j. (7 ∷ [], refl)) 2
