-- ===== src/Plexus/Ends.antt =====
-- A spread comes to its end: the deliveries of a reaction can always be carried out until none is left.
use pyplexo.Base.{
  ℕ, zero, suc, ◌<◌, ◌≡◌, ◌∙◌, refl, sym, ap, subst, Bool, true, false, Option, List, [], ◌∷◌, ◌++◌,
  contains, add, ℕ_key, arith, lookup-insert, Bool-cases, ◌⊎◌, inl, inr,
}
use mathlib.Core.List.{append-nil, append_assoc}
use pyplexo.Exceptions.{ok}
use pyplexo.Plexus.{
  Plexus, Delivery, transmit, transmit_encoded, reacted, note, internal_reaction, identity,
}
use pyplexo.Plexus.Left.{left, left-less}
use pyplexo.Plexus.Spread.{
  sent_to, sent_to-append, noted, targets, reacted-noted, sent_to-targets, noted_internal, Delivers,
  reacts, leaves, leaves_encoded, Spreads, done, next, IsCovered, Delivers-IsCovered,
  Spreads-IsCovered, responds, IsBegun, begun, reaction_eq,
}

module _ {G : Type 0} (reacting : ℕ → Bool) (rid : ℕ) where
  -- Every ganglion that responds has reacted.
  abbrev IsSettled : Plexus G → Type 0
  IsSettled s = (x : ℕ) → responds reacting x s ≡ true → contains x (reacted rid s) ≡ true

  -- No delivery goes to a ganglion that responds.
  abbrev IsOutside : Plexus G → List Delivery → Type 0
  IsOutside s ds = (x : ℕ) → sent_to x ds ≡ true → responds reacting x s ≡ false

  outside_ends :
      (ds : List Delivery) (s : Plexus G) → IsOutside s ds → Spreads reacting rid s ds s []
  outside_ends [] s out = done s []
  outside_ends (transmit g ∷ ds) s out =
      next s s s (transmit g ∷ ds) ds [] (leaves [] ds g s (out g (ground arith)))
        (outside_ends ds s (λ x h. out x (ground arith)))
  outside_ends (transmit_encoded g ∷ ds) s out =
      next s s s (transmit_encoded g ∷ ds) ds [] (leaves_encoded [] ds g s) (outside_ends ds s out)

  noted-IsSettled : (g : ℕ) (s : Plexus G) → IsSettled s → IsSettled (noted g rid s)
  noted-IsSettled g s h x k =
      ground (arith, h x, reacted-noted x g rid s, ap (contains x) (noted_internal g rid s))

  targets-IsOutside :
      (g : ℕ) (s : Plexus G) (ds : List Delivery)
      → IsSettled s
      → IsOutside s ds
      → IsOutside (noted g rid s) (ds ++ targets g rid s)
  targets-IsOutside g s ds h out x k = ground (
    arith,
    h x,
    out x,
    reacted-noted x g rid s,
    ap (contains x) (noted_internal g rid s),
    sent_to-append x ds (targets g rid s),
    sent_to-targets x g rid s,
    Bool-cases (responds reacting x s),
  )

  -- After all have reacted, what is pending can be carried out, with deliveries to the outside behind.
  settled_ends :
      (ds outer : List Delivery) (s : Plexus G)
      → IsSettled s
      → IsOutside s outer
      → (v : Plexus G) × Spreads reacting rid s (ds ++ outer) v []
  settled_ends [] outer s h out = (s, outside_ends outer s out)
  settled_ends (transmit g ∷ ds) outer s h out = elim (Bool-cases (responds reacting g s)) [
    | inl inside ↦
        let t = noted g rid s in
        let (v, p) =
          settled_ends ds (outer ++ targets g rid s) t (noted-IsSettled g s h)
            (targets-IsOutside g s outer h out) in
        (
          v,
          next s t v (transmit g ∷ ds ++ outer) ((ds ++ outer) ++ targets g rid s) []
              (reacts [] (ds ++ outer) g s inside)
              (subst (λ l. Spreads reacting rid t l v [])
                (sym (append_assoc ds outer (targets g rid s))) p),
        )
    | inr outside ↦
        let (v, p) = settled_ends ds outer s h out in
        (
          v,
          next s s v (transmit g ∷ ds ++ outer) (ds ++ outer) []
              (leaves [] (ds ++ outer) g s outside) p,
        )
  ]
  settled_ends (transmit_encoded g ∷ ds) outer s h out =
      let (v, p) = settled_ends ds outer s h out in
      (
        v,
        next s s v (transmit_encoded g ∷ ds ++ outer) (ds ++ outer) []
            (leaves_encoded [] (ds ++ outer) g s) p,
      )

  -- A pending delivery to a ganglion that responds and has not reacted.
  record Fresh (s : Plexus G) (ds : List Delivery) : Type 0 where
    before : List Delivery
    ganglion : ℕ
    after : List Delivery
    split : ds ≡ before ++ transmit ganglion ∷ after
    inside : responds reacting ganglion s ≡ true
    unreacted : contains ganglion (reacted rid s) ≡ false

  abbrev IsStale : Plexus G → List Delivery → Type 0
  IsStale s ds =
      (x : ℕ)
      → sent_to x ds ≡ true
      → responds reacting x s ≡ true
      → contains x (reacted rid s) ≡ true

  Fresh-later : (s : Plexus G) (d : Delivery) (ds : List Delivery) → Fresh s ds → Fresh s (d ∷ ds)
  Fresh-later s d ds f = record {
    before = d ∷ f.before;
    ganglion = f.ganglion;
    after = f.after;
    split = ap (λ l. d ∷ l) f.split;
    inside = f.inside;
    unreacted = f.unreacted;
  }

  classify :
      (s : Plexus G) (g : ℕ) (ds : List Delivery)
      → IsStale s ds
      → (a b : Bool) → responds reacting g s ≡ a
      → contains g (reacted rid s) ≡ b
      → Fresh s (transmit g ∷ ds) ⊎ IsStale s (transmit g ∷ ds)
  classify s g ds st true false h k =
      inl
        (record { before = []; ganglion = g; after = ds; split = refl; inside = h; unreacted = k })
  classify s g ds st false b h k = inr (λ x m n. ground (arith, st x))
  classify s g ds st true true h k = inr (λ x m n. ground (arith, st x))

  find : (s : Plexus G) (ds : List Delivery) → Fresh s ds ⊎ IsStale s ds
  find s [] = inr (λ x h. absurd (ground arith))
  find s (transmit_encoded g ∷ ds) = elim (find s ds) [
    | inl f ↦ inl (Fresh-later s (transmit_encoded g) ds f)
    | inr st ↦ inr st
  ]
  find s (transmit g ∷ ds) = elim (find s ds) [
    | inl f ↦ inl (Fresh-later s (transmit g) ds f)
    | inr st ↦ classify s g ds st (responds reacting g s) (contains g (reacted rid s)) refl refl
  ]

  -- How many internal ganglia have not reacted.
  abbrev unreacted_num : Plexus G → ℕ
  unreacted_num s = left (reacted rid s) s.internal_ganglia

  pub reacted-noted-eq :
      (g : ℕ) (s : Plexus G) → reacted rid (noted g rid s) ≡ add g (reacted rid s)
  unfolding note reacted
  reacted-noted-eq g s = ground (arith, lookup-insert rid rid (add g (reacted rid s)) s.reactions)

  fewer :
      (g : ℕ) (s : Plexus G)
      → responds reacting g s ≡ true
      → contains g (reacted rid s) ≡ false
      → unreacted_num (noted g rid s) < unreacted_num s
  fewer g s h k =
      rw (reacted-noted-eq g s, noted_internal g rid s)
        (left-less g (reacted rid s) s.internal_ganglia (ground arith) k)

  ends :
      (n : ℕ) (s : Plexus G) (ds : List Delivery)
      → unreacted_num s < n
      → IsCovered reacting rid s ds
      → (v : Plexus G) × Spreads reacting rid s ds v []
  ends zero s ds few c = absurd (omega arith)
  ends (suc n) s ds few c = elim (find s ds) [
    | inl f ↦
        let g = f.ganglion in
        let t = noted g rid s in
        let es = f.before ++ f.after ++ targets g rid s in
        let step : Delivers reacting rid s ds t es =
          subst (λ l. Delivers reacting rid s l t es) (sym f.split)
            (reacts f.before f.after g s f.inside) in
        let (covered, same) = Delivers-IsCovered reacting rid s t ds es step c in
        let less = fewer g s f.inside f.unreacted in
        let (v, p) = ends n t es (omega (arith, less, few)) covered in
        (v, next s t v ds es [] step p)
    | inr st ↦
        let (v, p) =
          settled_ends ds [] s (λ x h. ground (arith, c x h, st x))
            (λ x h. absurd (ground arith)) in
        (v, subst (λ l. Spreads reacting rid s l v []) (append-nil ds) p)
  ]

-- Whatever ganglion reacts to data, and whichever of the deliveries that this leads to have been carried
-- out, in whatever order, the rest can be carried out until none is pending, and every internal ganglion
-- that responds to data given to it by calling the plexus's reactant has then reacted.
pub internal_reaction-ends :
    {G : Type 0} (reacting : ℕ → Bool) (fresh current rid : ℕ) (o : Option ℕ) (s t v : Plexus G)
    (ds es : List Delivery)
    → internal_reaction fresh current o s ≡ (ok (rid, ds), t)
    → Spreads reacting rid t ds v es
    → (w : Plexus G) × Spreads reacting rid v es w []
      × ((x : ℕ) → responds reacting x s ≡ true → contains x (reacted rid w) ≡ true)
internal_reaction-ends reacting fresh current rid o s t v ds es h p =
    let i = identity fresh o in
    let (covered, same, _) =
      subst (IsBegun reacting s) (sym (reaction_eq fresh current o s) ∙ h)
        (begun reacting current i s) in
    let (still, kept) = Spreads-IsCovered reacting rid t v ds es p covered in
    let (w, q) = ends reacting rid (suc (unreacted_num reacting rid v)) v es (omega arith) still in
    let (all, also) = Spreads-IsCovered reacting rid v w es [] q still in
    (w, q, λ x k. ground (arith, all x, ap (contains x) (also ∙ kept ∙ same)))
