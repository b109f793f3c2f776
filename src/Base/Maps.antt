-- ===== src/Base/Maps.antt =====
-- A persistent map as an association list that holds a key at most once.
use mathlib.Core.Path.{◌≡◌}
use mathlib.Core.Logic.{ite}
use mathlib.Core.List.{List, [], ◌∷◌}
use mathlib.Core.Option.{Option, none, some}
use native.Mathlib.Omega.{arith}
use pyplexo.Base.Tests.{Key}

abbrev pub Map : Type 0 → Type 0 → Type 0
Map K V = List (K × V)

module _ {K V : Type 0} ⦃k : Key K⦄ where
  abbrev pub lookup : K → Map K V → Option V
  lookup a [] = none
  lookup a ((b, v) ∷ m) = ite (k.dec a b) (some v) (lookup a m)

  -- `m.set(key, value)`
  abbrev pub insert : K → V → Map K V → Map K V
  insert a v [] = (a, v) ∷ []
  insert a v ((b, w) ∷ m) = ite (k.dec a b) ((a, v) ∷ m) ((b, w) ∷ insert a v m)

  -- `m.discard(key)`
  abbrev pub erase : K → Map K V → Map K V
  erase a [] = []
  erase a ((b, w) ∷ m) = ite (k.dec a b) (erase a m) ((b, w) ∷ erase a m)

  pub lookup-insert :
      (a b : K) (v : V) (m : Map K V)
      → lookup a (insert b v m) ≡ ite (k.dec b a) (some v) (lookup a m)
  lookup-insert a b v [] = ground arith
  lookup-insert a b v (e ∷ m) = ground (arith, lookup-insert a b v m)

  pub lookup-erase :
      (a b : K) (m : Map K V) → lookup a (erase b m) ≡ ite (k.dec b a) none (lookup a m)
  lookup-erase a b [] = ground arith
  lookup-erase a b (e ∷ m) = ground (arith, lookup-erase a b m)

  -- A second value for a key replaces the first.
  pub insert-insert : (a : K) (v w : V) (m : Map K V) → insert a v (insert a w m) ≡ insert a v m
  insert-insert a v w [] = ground arith
  insert-insert a v w (e ∷ m) = ground (arith, insert-insert a v w m)
