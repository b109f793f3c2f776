-- ===== src/Plexus/Left.antt =====
-- How many ganglia of a list have not reacted.
use pyplexo.Base.{
  ℕ, ◌+◌, ◌<◌, ◌≤◌, ◌≡◌, true, false, List, [], ◌∷◌, contains, add, ℕ_key, if◌then◌else◌, arith,
  contains-add,
}

-- How many of the ganglia have not reacted.
abbrev pub left : List ℕ → List ℕ → ℕ
left r [] = 0
left r (g ∷ gs) = (if contains g r then 0 else 1) + left r gs

left-add : (g : ℕ) (r gs : List ℕ) → left (add g r) gs ≤ left r gs
left-add g r [] = omega arith
left-add g r (x ∷ gs) = ground (arith, left-add g r gs, contains-add x g r)

pub left-less :
    (g : ℕ) (r gs : List ℕ)
    → contains g gs ≡ true
    → contains g r ≡ false
    → left (add g r) gs < left r gs
left-less g r [] h k = absurd (ground arith)
left-less g r (x ∷ gs) h k =
    ground (arith, left-less g r gs, left-add g r gs, contains-add x g r, contains-add g g r)
