-- ===== src/Exceptions/Keeps.antt =====
-- Rules for what an action leaves as it was, and for an invariant that it maintains.
use pyplexo.Base.{◌≡◌, refl, sym, ◌∙◌, arith}
use pyplexo.Exceptions.{Action, Result, ok, raise, pending, ◌>>=◌}

-- The part of the state that `f` reads is the same afterwards, however the action ends.
abbrev pub Keeps : {S A V : Type 0} → (S → V) → Action S A → Type 0
Keeps {S} f m = (s : S) → f (m s).1 ≡ f s

-- If the state satisfies `I` before the action, it does afterwards, however the action ends.
abbrev pub Maintains : {S A : Type 0} → (S → Type 0) → Action S A → Type 0
Maintains {S} I m = (s : S) → I s → I (m s).1

module _ {S A B : Type 0} where
  continued : Result A × S → (A → Action S B) → Result B × S
  continued (ok a, u) k = k a u
  continued (raise e, u) k = (raise e, u)
  continued (pending, u) k = (pending, u)

  -- The state after a bind.
  bound : Result A → (A → Action S B) → S → S
  bound (ok a) k t = (k a t).1
  bound (raise e) k t = t
  bound pending k t = t

  bound-eq :
      (m : Action S A) (k : A → Action S B) (s : S) → ((m >>= k) s).1 ≡ bound (m s).0 k (m s).1
  unfolding bound
  bound-eq m k s = ground arith

  Maintains-bound :
      (I : S → Type 0) (r : Result A) (k : A → Action S B) (t : S)
      → ((a : A) → Maintains I (k a))
      → I t
      → I (bound r k t)
  unfolding bound
  Maintains-bound I (ok a) k t h i = h a t i
  Maintains-bound I (raise e) k t h i = i
  Maintains-bound I pending k t h i = i

  pub Maintains->>= :
      (I : S → Type 0) (m : Action S A) (k : A → Action S B)
      → Maintains I m
      → ((a : A) → Maintains I (k a))
      → Maintains I (m >>= k)
  Maintains->>= I m k hm hk s i =
      rw (bound-eq m k s) (Maintains-bound I (m s).0 k (m s).1 hk (hm s i))

  pub Keeps->>= :
      {V : Type 0} (f : S → V) (m : Action S A) (k : A → Action S B)
      → Keeps f m
      → ((a : A) → Keeps f (k a))
      → Keeps f (m >>= k)
  Keeps->>= f m k hm hk s =
      Maintains->>= (λ t. f t ≡ f s) m k (λ t e. hm t ∙ e) (λ a t e. hk a t ∙ e) s refl

  continued-eq : (m : Action S A) (k : A → Action S B) (s : S) → (m >>= k) s ≡ continued (m s) k
  unfolding continued
  continued-eq m k s = ground arith

  continued-ok :
      (r : Result A × S) (k : A → Action S B) (b : B) (t : S)
      → continued r k ≡ (ok b, t)
      → (a : A) × (u : S) × (r ≡ (ok a, u)) × (k a u ≡ (ok b, t))
  unfolding continued
  continued-ok (ok a, u) k b t h = (a, u, refl, h)
  continued-ok (raise e, u) k b t h = absurd (ground arith)
  continued-ok (pending, u) k b t h = absurd (ground arith)

  -- A bind that succeeds is two actions that do.
  pub >>=-eq-ok :
      (m : Action S A) (k : A → Action S B) (s : S) {b : B} {t : S}
      → (m >>= k) s ≡ (ok b, t)
      → (a : A) × (u : S) × (m s ≡ (ok a, u)) × (k a u ≡ (ok b, t))
  >>=-eq-ok m k s {b} {t} h = continued-ok (m s) k b t (sym (continued-eq m k s) ∙ h)
