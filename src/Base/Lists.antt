-- ===== src/Base/Lists.antt =====
-- Lists measured by native numbers, and membership as a Boolean test.
use Prim.Native.Nat.{ℕ, zero, suc, ◌+◌}
use mathlib.Core.Path.{ap, refl, ◌≡◌}
use mathlib.Core.Logic.{ite}
use mathlib.Core.Bool.{Bool, true, false}
use mathlib.Core.List.{List, [], ◌∷◌, ◌++◌}
use mathlib.Core.Option.{Option, none, some}
use native.Mathlib.Omega.{arith}
use pyplexo.Base.Tests.{Key}

module _ {ℓ} {A : Type ℓ} where
  abbrev pub length : List A → ℕ
  length [] = 0
  length (x ∷ xs) = suc (length xs)

  abbrev pub get_elem? : List A → ℕ → Option A
  get_elem? [] i = none
  get_elem? (x ∷ xs) zero = some x
  get_elem? (x ∷ xs) (suc i) = get_elem? xs i

  abbrev pub take : ℕ → List A → List A
  take zero xs = []
  take (suc n) [] = []
  take (suc n) (x ∷ xs) = x ∷ take n xs

  abbrev pub drop : ℕ → List A → List A
  drop zero xs = xs
  drop (suc n) [] = []
  drop (suc n) (x ∷ xs) = drop n xs

  pub take-append : (xs ys : List A) → take (length xs) (xs ++ ys) ≡ xs
  take-append [] ys = refl
  take-append (x ∷ xs) ys = ap (λ l. x ∷ l) (take-append xs ys)

  pub drop-append : (xs ys : List A) → drop (length xs) (xs ++ ys) ≡ ys
  drop-append [] ys = refl
  drop-append (x ∷ xs) ys = drop-append xs ys

  pub length-append : (xs ys : List A) → length (xs ++ ys) ≡ length xs + length ys
  length-append [] ys = omega arith
  length-append (x ∷ xs) ys = omega (arith, length-append xs ys)

module _ {A : Type 0} ⦃k : Key A⦄ where
  -- `x in xs`
  abbrev pub contains : A → List A → Bool
  contains a [] = false
  contains a (x ∷ xs) = ite (k.dec a x) true (contains a xs)

  -- Nothing stands twice in a list.
  abbrev pub IsDistinct : List A → Type 0
  IsDistinct [] = Unit
  IsDistinct (x ∷ xs) = (contains x xs ≡ false) × IsDistinct xs

  -- `xs.discard(x)`, of a set
  abbrev pub discard : A → List A → List A
  discard a [] = []
  discard a (x ∷ xs) = ite (k.dec a x) (discard a xs) (x ∷ discard a xs)

  -- `xs.add(x)`, of a set
  abbrev pub add : A → List A → List A
  add a [] = a ∷ []
  add a (x ∷ xs) = ite (k.dec a x) (x ∷ xs) (x ∷ add a xs)

  pub contains-discard :
      (a b : A) (xs : List A) → contains a (discard b xs) ≡ ite (k.dec b a) false (contains a xs)
  contains-discard a b [] = ground arith
  contains-discard a b (x ∷ xs) = ground (arith, contains-discard a b xs)

  pub contains-add :
      (a b : A) (xs : List A) → contains a (add b xs) ≡ ite (k.dec b a) true (contains a xs)
  contains-add a b [] = ground arith
  contains-add a b (x ∷ xs) = ground (arith, contains-add a b xs)
