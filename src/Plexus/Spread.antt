-- ===== src/Plexus/Spread.antt =====
-- src/plexo/plexus.py, `_internal_reaction`: how data spreads over the ganglia of a plexus. Some ganglia
-- that are given data call the reactant that the plexus adapted them with, and others send it away.
use pyplexo.Base.{
  ℕ, ◌≡◌, refl, sym, ap, ◌∙◌, subst, Bool, true, false, not, ◌&&◌, ◌||◌, Option, List, [], ◌∷◌,
  ◌++◌, map, contains, add, ℕ_key, ite, if◌then◌else◌, arith, lookup-insert, contains-add,
  ℕ_discrete,
}
use pyplexo.Dendrite.{difference}
use pyplexo.Dendrite.Once.{contains-difference}
use pyplexo.Exceptions.{Result, ok}
use pyplexo.Plexus.{
  Plexus, Delivery, transmit, transmit_encoded, reacted, identity, note, internal_reaction,
}

-- Whether data is given to a ganglion as an object.
abbrev pub sent_to : ℕ → List Delivery → Bool
sent_to x [] = false
sent_to x (transmit g ∷ ds) = if contains x (g ∷ []) then true else sent_to x ds
sent_to x (transmit_encoded g ∷ ds) = sent_to x ds

pub sent_to-append :
    (x : ℕ) (ds es : List Delivery) → sent_to x (ds ++ es) ≡ (sent_to x ds || sent_to x es)
sent_to-append x [] es = refl
sent_to-append x (transmit g ∷ ds) es = ground (arith, sent_to-append x ds es)
sent_to-append x (transmit_encoded g ∷ ds) es = sent_to-append x ds es

sent_to-map : (x : ℕ) (gs : List ℕ) → sent_to x (map transmit gs) ≡ contains x gs
sent_to-map x [] = refl
sent_to-map x (g ∷ gs) = ground (arith, sent_to-map x gs)

module _ {G : Type 0} where
  -- The state once a ganglion has reacted.
  abbrev pub noted : ℕ → ℕ → Plexus G → Plexus G
  noted current rid s = (note current rid s).1

  abbrev pub targets : ℕ → ℕ → Plexus G → List Delivery
  targets current rid s =
      let t = noted current rid s in
      map transmit (difference t.internal_ganglia (reacted rid t))
      ++ map transmit (difference t.external_ganglia (reacted rid t))

  pub reaction_eq :
      (fresh current : ℕ) (o : Option ℕ) (s : Plexus G)
      → internal_reaction fresh current o s ≡ (
        ok (identity fresh o, targets current (identity fresh o) s),
        noted current (identity fresh o) s,
      )
  unfolding internal_reaction
  reaction_eq fresh current o s = ground arith

  pub reacted-noted :
      (x current rid : ℕ) (s : Plexus G)
      → contains x (reacted rid (noted current rid s))
        ≡ ite (ℕ_discrete current x) true (contains x (reacted rid s))
  unfolding note reacted
  reacted-noted x current rid s = ground (
    arith,
    lookup-insert rid rid (add current (reacted rid s)) s.reactions,
    contains-add x current (reacted rid s),
  )

  pub sent_to-targets :
      (x current rid : ℕ) (s : Plexus G)
      → sent_to x (targets current rid s) ≡ (
          (contains x s.internal_ganglia || contains x s.external_ganglia)
          && not (contains x (reacted rid (noted current rid s))))
  unfolding note
  sent_to-targets x current rid s =
      let t = noted current rid s in
      sent_to-append x (map transmit (difference t.internal_ganglia (reacted rid t)))
        (map transmit (difference t.external_ganglia (reacted rid t)))
      ∙ ground (
        arith,
        sent_to-map x (difference t.internal_ganglia (reacted rid t)),
        sent_to-map x (difference t.external_ganglia (reacted rid t)),
        contains-difference x t.internal_ganglia (reacted rid t),
        contains-difference x t.external_ganglia (reacted rid t),
      )

  -- Whether a ganglion that is given data calls the reactant of the plexus with it. `reacting` says
  -- which ones do so, as the plexus's own `GanglionInproc` does where it is adapted; a ganglion over TCP
  -- is among the internal ones too and sends the data away, and an incapable one raises.
  abbrev pub responds : (ℕ → Bool) → ℕ → Plexus G → Bool
  responds reacting g s = contains g s.internal_ganglia && reacting g

  -- What one delivery of a reaction can lead to: a ganglion that responds reacts, and its deliveries are
  -- pending too; any other sends the data away or raises, which stops no other call of the `gather`.
  pub data Delivers (reacting : ℕ → Bool) (rid : ℕ)
      : Plexus G → List Delivery → Plexus G → List Delivery → Type 0 where
    reacts :
        (ds es : List Delivery) (g : ℕ) (s : Plexus G)
        → responds reacting g s ≡ true
        → Delivers reacting rid s
            (ds ++ transmit g ∷ es)
            (noted g rid s)
            (ds ++ es ++ targets g rid s)
    leaves :
        (ds es : List Delivery) (g : ℕ) (s : Plexus G)
        → responds reacting g s ≡ false
        → Delivers reacting rid s (ds ++ transmit g ∷ es) s (ds ++ es)
    leaves_encoded :
        (ds es : List Delivery) (g : ℕ) (s : Plexus G)
        → Delivers reacting rid s (ds ++ transmit_encoded g ∷ es) s (ds ++ es)

  -- Deliveries in any order.
  pub data Spreads (reacting : ℕ → Bool) (rid : ℕ)
      : Plexus G → List Delivery → Plexus G → List Delivery → Type 0 where
    done : (s : Plexus G) (ds : List Delivery) → Spreads reacting rid s ds s ds
    next :
        (s t v : Plexus G) (ds es fs : List Delivery)
        → Delivers reacting rid s ds t es
        → Spreads reacting rid t es v fs
        → Spreads reacting rid s ds v fs

  -- Each ganglion that responds has reacted, or is to be given the data.
  abbrev pub IsCovered : (ℕ → Bool) → ℕ → Plexus G → List Delivery → Type 0
  IsCovered reacting rid s ds =
      (x : ℕ) → responds reacting x s ≡ true → (contains x (reacted rid s) || sent_to x ds) ≡ true

  pub noted_internal :
      (current rid : ℕ) (s : Plexus G) → (noted current rid s).internal_ganglia ≡ s.internal_ganglia
  unfolding note
  noted_internal current rid s = refl

  pub targets-IsCovered :
      (reacting : ℕ → Bool) (current rid : ℕ) (s : Plexus G)
      → IsCovered reacting rid (noted current rid s) (targets current rid s)
  targets-IsCovered reacting current rid s x h =
      ground
        (arith, sent_to-targets x current rid s, ap (contains x) (noted_internal current rid s))

  pub Delivers-IsCovered :
      (reacting : ℕ → Bool) (rid : ℕ) (s t : Plexus G) (ds es : List Delivery)
      → Delivers reacting rid s ds t es
      → IsCovered reacting rid s ds
      → IsCovered reacting rid t es × (t.internal_ganglia ≡ s.internal_ganglia)
  unfolding note
  Delivers-IsCovered reacting rid _ _ _ _ (reacts ds es g s h) c = (
    λ x k. ground (
      arith,
      c x k,
      reacted-noted x g rid s,
      sent_to-append x ds (transmit g ∷ es),
      sent_to-append x (ds ++ es) (targets g rid s),
      sent_to-append x ds es,
      sent_to-append x ds (es ++ targets g rid s),
      sent_to-append x es (targets g rid s),
    ),
    noted_internal g rid s,
  )
  Delivers-IsCovered reacting rid _ _ _ _ (leaves ds es g s h) c = (
    λ x k. ground (arith, c x k, sent_to-append x ds (transmit g ∷ es), sent_to-append x ds es),
    refl,
  )
  Delivers-IsCovered reacting rid _ _ _ _ (leaves_encoded ds es g s) c = (
    λ x k.
        ground
          (arith, c x k, sent_to-append x ds (transmit_encoded g ∷ es), sent_to-append x ds es),
    refl,
  )

  pub Spreads-IsCovered :
      (reacting : ℕ → Bool) (rid : ℕ) (s t : Plexus G) (ds es : List Delivery)
      → Spreads reacting rid s ds t es
      → IsCovered reacting rid s ds
      → IsCovered reacting rid t es × (t.internal_ganglia ≡ s.internal_ganglia)
  Spreads-IsCovered reacting rid _ _ _ _ (done s ds) c = (c, refl)
  Spreads-IsCovered reacting rid s v ds fs (next _ t _ _ es _ d p) c =
      let (covered, same) = Delivers-IsCovered reacting rid s t ds es d c in
      let (all, kept) = Spreads-IsCovered reacting rid t v es fs p covered in (all, kept ∙ same)

  -- Which ganglia the deliveries that are carried out go to, as an object.
  abbrev pub given :
      {reacting : ℕ → Bool} {rid : ℕ} {s t : Plexus G} {ds es : List Delivery}
      → Spreads reacting rid s ds t es
      → List ℕ
  given (done _ _) = []
  given (next _ _ _ _ _ _ (reacts _ _ g _ _) p) = g ∷ given p
  given (next _ _ _ _ _ _ (leaves _ _ g _ _) p) = g ∷ given p
  given (next _ _ _ _ _ _ (leaves_encoded _ _ _ _) p) = given p

  -- What was pending is carried out or pending still.
  Spreads-given :
      (x : ℕ) (reacting : ℕ → Bool) (rid : ℕ) (s t : Plexus G) (ds es : List Delivery)
      → (p : Spreads reacting rid s ds t es) → sent_to x ds ≡ true
      → (contains x (given p) || sent_to x es) ≡ true
  Spreads-given x reacting rid _ _ _ _ (done s ds) h = ground arith
  Spreads-given x reacting rid _ v _ fs (next _ _ _ _ _ _ (reacts ds es g s k) p) h = ground (
    arith,
    Spreads-given x reacting rid (noted g rid s) v (ds ++ es ++ targets g rid s) fs p,
    sent_to-append x ds (transmit g ∷ es),
    sent_to-append x (ds ++ es) (targets g rid s),
    sent_to-append x ds es,
  )
  Spreads-given x reacting rid _ v _ fs (next _ _ _ _ _ _ (leaves ds es g s k) p) h = ground (
    arith,
    Spreads-given x reacting rid s v (ds ++ es) fs p,
    sent_to-append x ds (transmit g ∷ es),
    sent_to-append x ds es,
  )
  Spreads-given x reacting rid _ v _ fs (next _ _ _ _ _ _ (leaves_encoded ds es g s) p) h = ground (
    arith,
    Spreads-given x reacting rid s v (ds ++ es) fs p,
    sent_to-append x ds (transmit_encoded g ∷ es),
    sent_to-append x ds es,
  )

  -- What a reaction that ends well leaves.
  abbrev pub IsBegun : (ℕ → Bool) → Plexus G → Result (ℕ × List Delivery) × Plexus G → Type 0
  IsBegun reacting s (ok (rid, ds), t) =
      IsCovered reacting rid t ds
      × (t.internal_ganglia ≡ s.internal_ganglia)
      × ((y : ℕ)
          → (contains y s.internal_ganglia || contains y s.external_ganglia) ≡ true
          → (contains y (reacted rid t) || sent_to y ds) ≡ true)
  IsBegun _ _ _ = Unit

  pub begun :
      (reacting : ℕ → Bool) (current rid : ℕ) (s : Plexus G)
      → IsBegun reacting s (ok (rid, targets current rid s), noted current rid s)
  begun reacting current rid s = (
    targets-IsCovered reacting current rid s,
    noted_internal current rid s,
    λ y k. ground (arith, sent_to-targets y current rid s),
  )

  -- Once a ganglion reacts to data, and the deliveries that this leads to are carried out in whatever
  -- order until none is pending, every internal ganglion of the plexus that responds to data given to it
  -- by calling the plexus's reactant has reacted, and every ganglion of the plexus, internal or external,
  -- has been given the data unless it had reacted already.
  pub internal_reaction-Spreads :
      (reacting : ℕ → Bool) (fresh current rid : ℕ) (o : Option ℕ) (s t v : Plexus G)
      (ds : List Delivery) (x : ℕ)
      → internal_reaction fresh current o s ≡ (ok (rid, ds), t)
      → (p : Spreads reacting rid t ds v [])
      → (responds reacting x s ≡ true → contains x (reacted rid v) ≡ true)
        × ((contains x s.internal_ganglia || contains x s.external_ganglia) ≡ true
            → (contains x (reacted rid t) || contains x (given p)) ≡ true)
  internal_reaction-Spreads reacting fresh current rid o s t v ds x h p =
      let i = identity fresh o in
      let (covered, same, meant) =
        subst (IsBegun reacting s) (sym (reaction_eq fresh current o s) ∙ h)
          (begun reacting current i s) in
      let (all, kept) = Spreads-IsCovered reacting rid t v ds [] p covered in
      (
        λ k. ground (arith, all x, ap (contains x) (kept ∙ same)),
        λ k. ground (arith, meant x k, Spreads-given x reacting rid t v ds [] p),
      )

  -- A reaction is given the ganglia that have not reacted to the data, and never the one that reacts.
  pub internal_reaction-targets :
      (fresh current : ℕ) (o : Option ℕ) (s : Plexus G) (x : ℕ)
      → let rid = identity fresh o in
        let t = (internal_reaction fresh current o s).1 in
        (ds : List Delivery) × (internal_reaction fresh current o s ≡ (ok (rid, ds), t))
        × (contains x (reacted rid t)
            ≡ ite (ℕ_discrete current x) true (contains x (reacted rid s)))
        × (sent_to x ds ≡ (
            (contains x s.internal_ganglia || contains x s.external_ganglia)
            && not (contains x (reacted rid t))))
  internal_reaction-targets fresh current o s x = rw (reaction_eq fresh current o s) (
    targets current (identity fresh o) s,
    refl,
    reacted-noted x current (identity fresh o) s,
    sent_to-targets x current (identity fresh o) s,
  )
