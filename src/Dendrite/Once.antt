-- ===== src/Dendrite/Once.antt =====
-- However often a reactant is added, a dendrite calls it once.
use pyplexo.Base.{
  ℕ, ◌≡◌, ◌+◌, refl, true, false, Option, List, [], ◌∷◌, map, contains, add, discard, ite,
  if◌then◌else◌, arith, ℕ_discrete, ℕ_key, contains-add, contains-discard,
}
use pyplexo.Dendrite.{
  Call, reacts, reacts_raw, Dendrite, update, pset, difference, add_reactants, remove_reactants,
  transduce,
}
use pyplexo.Neuron.{Neuron}
use pyplexo.Schema.{Value}

-- How often a reactant stands in a list.
abbrev pub occurrences : ℕ → List ℕ → ℕ
occurrences r [] = 0
occurrences r (x ∷ xs) = ite (ℕ_discrete r x) 1 0 + occurrences r xs

-- A list that holds nothing twice.
abbrev pub IsOnce : List ℕ → Type 0
IsOnce xs = (r : ℕ) → occurrences r xs ≡ (if contains r xs then 1 else 0)

add-occurrences :
    (r a : ℕ) (xs : List ℕ)
    → occurrences r (add a xs)
      ≡ occurrences r xs + ite (ℕ_discrete a r) (if contains a xs then 0 else 1) 0
add-occurrences r a [] = ground arith
add-occurrences r a (x ∷ xs) = ground (arith, add-occurrences r a xs)

add-IsOnce : (a : ℕ) (xs : List ℕ) → IsOnce xs → IsOnce (add a xs)
add-IsOnce a xs h r = ground (arith, h r, add-occurrences r a xs, contains-add r a xs)

discard-occurrences :
    (r a : ℕ) (xs : List ℕ)
    → occurrences r (discard a xs) ≡ ite (ℕ_discrete a r) 0 (occurrences r xs)
discard-occurrences r a [] = ground arith
discard-occurrences r a (x ∷ xs) = ground (arith, discard-occurrences r a xs)

discard-IsOnce : (a : ℕ) (xs : List ℕ) → IsOnce xs → IsOnce (discard a xs)
discard-IsOnce a xs h r = ground (arith, h r, discard-occurrences r a xs, contains-discard r a xs)

pub update-IsOnce : (old new : List ℕ) → IsOnce old → IsOnce (update old new)
unfolding update
update-IsOnce old [] h = h
update-IsOnce old (r ∷ rs) h = update-IsOnce (add r old) rs (add-IsOnce r old h)

pub difference-IsOnce : (old gone : List ℕ) → IsOnce old → IsOnce (difference old gone)
unfolding difference
difference-IsOnce old [] h = h
difference-IsOnce old (r ∷ rs) h = difference-IsOnce (discard r old) rs (discard-IsOnce r old h)

pub contains-update :
    (r : ℕ) (old new : List ℕ)
    → contains r (update old new) ≡ (if contains r old then true else contains r new)
unfolding update
contains-update r old [] = ground arith
contains-update r old (x ∷ xs) =
    ground (arith, contains-update r (add x old) xs, contains-add r x old)

pub contains-difference :
    (r : ℕ) (old gone : List ℕ)
    → contains r (difference old gone) ≡ (if contains r gone then false else contains r old)
unfolding difference
contains-difference r old [] = ground arith
contains-difference r old (x ∷ xs) =
    ground (arith, contains-difference r (discard x old) xs, contains-discard r x old)

pub pset-IsOnce : (xs : List ℕ) → IsOnce (pset xs)
unfolding pset
pset-IsOnce xs = update-IsOnce [] xs (λ r. refl)

pub contains-pset : (r : ℕ) (xs : List ℕ) → contains r (pset xs) ≡ contains r xs
unfolding pset
contains-pset r xs = contains-update r [] xs

-- The reactant of a call.
abbrev pub caller : Call → ℕ
caller (reacts r _ _ _) = r
caller (reacts_raw r _ _ _) = r

pub map-caller :
    (v : Value) (n : Neuron) (rid : Option ℕ) (rs : List ℕ)
    → map caller (map (λ r. reacts r v n rid) rs) ≡ rs
map-caller v n rid [] = refl
map-caller v n rid (r ∷ rs) = rw (map-caller v n rid rs)

-- After reactants are added, data is given once to each reactant that was there or is new, and to
-- no other, however often one is listed.
pub transduce-add_reactants :
    (d : Dendrite) (new : List ℕ) (v : Value) (rid : Option ℕ) (r : ℕ)
    → occurrences r (map caller (transduce (add_reactants d new) v rid))
      ≡ (if contains r d.reactants then 1 else if contains r new then 1 else 0)
unfolding transduce add_reactants
transduce-add_reactants d new v rid r =
    rw
      (
        map-caller v d.neuron rid (update (pset d.reactants) new),
        update-IsOnce (pset d.reactants) new (pset-IsOnce d.reactants) r,
      )
      (ground (arith, contains-update r (pset d.reactants) new, contains-pset r d.reactants))

-- After reactants are removed, data is given once to each that was there and is not removed.
pub transduce-remove_reactants :
    (d : Dendrite) (gone : List ℕ) (v : Value) (rid : Option ℕ) (r : ℕ)
    → occurrences r (map caller (transduce (remove_reactants d gone) v rid))
      ≡ (if contains r gone then 0 else if contains r d.reactants then 1 else 0)
unfolding transduce remove_reactants
transduce-remove_reactants d gone v rid r =
    rw
      (
        map-caller v d.neuron rid (difference (pset d.reactants) gone),
        difference-IsOnce (pset d.reactants) gone (pset-IsOnce d.reactants) r,
      )
      (ground (arith, contains-difference r (pset d.reactants) gone, contains-pset r d.reactants))
