-- ===== src/Examples/Received.antt =====
-- What a reactant of a program has received.
use pyplexo.Base.{ℕ, ◌≡◌, refl, List, [], ◌∷◌, ◌++◌, contains, ℕ_key, if◌then◌else◌, arith}
use pyplexo.Dendrite.{Call, reacts, reacts_raw}
use pyplexo.Schema.{Value}

-- The values that a reactant has been called with, in order.
unfoldable pub received_by : ℕ → List Call → List Value
received_by r [] = []
received_by r (reacts x v n rid ∷ cs) =
    let rest = received_by r cs in if contains r (x ∷ []) then v ∷ rest else rest
received_by r (reacts_raw x e n rid ∷ cs) = received_by r cs

pub received_by-append :
    (r : ℕ) (cs ds : List Call) → received_by r (cs ++ ds) ≡ received_by r cs ++ received_by r ds
unfolding received_by
received_by-append r [] ds = refl
received_by-append r (reacts x v n rid ∷ cs) ds = ground (arith, received_by-append r cs ds)
received_by-append r (reacts_raw x e n rid ∷ cs) ds = received_by-append r cs ds
