-- ===== src/Plexus/Bound.antt =====
-- How many deliveries data can lead to, in whatever order they are carried out.
use pyplexo.Base.{
  ℕ, suc, ◌+◌, Bool, ◌<◌, ◌≤◌, ◌≡◌, sym, ap, ◌∙◌, subst, true, Option, List, ◌∷◌, ◌++◌, map,
  contains, add, length, ℕ_key, arith, Bool-cases, inl, inr,
}
use pyplexo.Dendrite.{difference}
use pyplexo.Exceptions.{Result, ok}
use pyplexo.Plexus.{
  Plexus, Delivery, transmit, transmit_encoded, reacted, note, internal_reaction, identity,
}
use pyplexo.Plexus.Ends.{reacted-noted-eq}
use pyplexo.Plexus.Left.{left, left-less}
use pyplexo.Plexus.Spread.{
  noted, targets, Delivers, reacts, leaves, leaves_encoded, Spreads, done, next, reaction_eq,
}
use pyplexo.Plexus.Rate.{
  times, rate, cost, times-add, times-le, times_mono, rate_mono, cost-append, cost-map,
  length-difference, left-length, left-same, difference-fresh, again, first,
}

module _ {G : Type 0} (reacting : ℕ → Bool) (rid : ℕ) where
  abbrev unreacted_num : Plexus G → ℕ
  unreacted_num s = left (reacted rid s) s.internal_ganglia

  -- What is pending in a state can lead to.
  abbrev pub total : Plexus G → List Delivery → ℕ
  total s ds = cost (length s.external_ganglia) (unreacted_num s) (reacted rid s) ds

  -- The deliveries of a reaction cost what one to each ganglion that has not reacted does.
  cost-targets :
      (g k : ℕ) (s : Plexus G)
      → let r = reacted rid (noted g rid s) in
        cost (length s.external_ganglia) k r (targets g rid s)
        ≤ times
            (left r s.internal_ganglia + length s.external_ganglia)
            (rate (length s.external_ganglia) k)
  unfolding note
  cost-targets g k s =
      let t = noted g rid s in
      let r = reacted rid t in
      let i = difference s.internal_ganglia r in
      let o = difference s.external_ganglia r in
      let e = length s.external_ganglia in
      let m = rate e k in
      omega (
        arith,
        cost-append e k r (map transmit i) (map transmit o),
        cost-map e k r i (difference-fresh s.internal_ganglia r),
        cost-map e k r o (difference-fresh s.external_ganglia r),
        ap (λ n. times n m) (length-difference r s.internal_ganglia),
        times-le (length o) e m (
            subst (λ n. n ≤ e) (sym (length-difference r s.external_ganglia))
              (left-length r s.external_ganglia)),
        times-add (left r s.internal_ganglia) e m,
      )

  total-noted :
      (g : ℕ) (s : Plexus G) (ds : List Delivery)
      → let q = add g (reacted rid s) in
        total (noted g rid s) ds ≡ cost (length s.external_ganglia) (left q s.internal_ganglia) q ds
  unfolding note
  total-noted g s ds =
      ap (λ q. cost (length s.external_ganglia) (left q s.internal_ganglia) q ds)
        (reacted-noted-eq reacting rid g s)

  targets-cost :
      (g : ℕ) (s : Plexus G)
      → let e = length s.external_ganglia in
        let q = add g (reacted rid s) in
        let j = left q s.internal_ganglia in cost e j q (targets g rid s) ≤ times (j + e) (rate e j)
  targets-cost g s =
      subst
        (λ q.
          cost (length s.external_ganglia) (left q s.internal_ganglia) q (targets g rid s)
          ≤ times (left q s.internal_ganglia + length s.external_ganglia)
              (rate (length s.external_ganglia) (left q s.internal_ganglia)))
        (reacted-noted-eq reacting rid g s)
        (cost-targets g (left (reacted rid (noted g rid s)) s.internal_ganglia) s)

  reacts-cost :
      (g : ℕ) (s : Plexus G) (ds es ts : List Delivery)
      → let e = length s.external_ganglia in
        let r = reacted rid s in
        let j = left (add g r) s.internal_ganglia in
        contains g s.internal_ganglia ≡ true
        → cost e j (add g r) ts ≤ times (j + e) (rate e j)
        → cost e j (add g r) (ds ++ es ++ ts) < total s (ds ++ transmit g ∷ es)
  reacts-cost g s ds es ts inside few =
      let e = length s.external_ganglia in
      let r = reacted rid s in
      let i = s.internal_ganglia in
      elim (Bool-cases (contains g r)) [
        | inl there ↦
            let same = left-same g r i there in
            rw same (again e (left r i) g r ds es ts there (rw same at few))
        | inr absent ↦
            first e (left (add g r) i) (left r i) g r ds es ts absent
              (left-less g r i inside absent) few
      ]

  -- The deliveries after a step cost less than those before.
  Delivers-total :
      (s t : Plexus G) (ds es : List Delivery)
      → Delivers reacting rid s ds t es
      → total t es < total s ds
  Delivers-total _ _ _ _ (leaves ds es g s h) =
      let e = length s.external_ganglia in
      let k = unreacted_num s in
      ground (
        arith,
        cost-append e k (reacted rid s) ds (transmit g ∷ es),
        cost-append e k (reacted rid s) ds es,
        rate_mono e 0 k (omega arith),
      )
  Delivers-total _ _ _ _ (leaves_encoded ds es g s) =
      let e = length s.external_ganglia in
      omega (
        arith,
        cost-append e (unreacted_num s) (reacted rid s) ds (transmit_encoded g ∷ es),
        cost-append e (unreacted_num s) (reacted rid s) ds es,
      )
  Delivers-total _ _ _ _ (reacts ds es g s h) =
      subst (λ n. n < total s (ds ++ transmit g ∷ es))
        (sym (total-noted g s (ds ++ es ++ targets g rid s)))
        (reacts-cost g s ds es (targets g rid s) (ground arith) (targets-cost g s))

  -- How many deliveries are carried out.
  abbrev pub steps : {s t : Plexus G} {ds es : List Delivery} → Spreads reacting rid s ds t es → ℕ
  steps (done _ _) = 0
  steps (next _ _ _ _ _ _ _ p) = suc (steps p)

  steps-total :
      (s t : Plexus G) (ds es : List Delivery) (p : Spreads reacting rid s ds t es)
      → steps p ≤ total s ds
  steps-total _ _ _ _ (done s ds) = omega arith
  steps-total s v ds fs (next _ t _ _ es _ d p) =
      omega (arith, steps-total t v es fs p, Delivers-total s t ds es d)

-- What the deliveries of a reaction that ends well cost.
abbrev IsFew : {G : Type 0} → (ℕ → Bool) → Plexus G → Result (ℕ × List Delivery) × Plexus G → Type 0
IsFew reacting s (ok (rid, ds), t) =
    total reacting rid t ds < rate (length s.external_ganglia) (suc (length s.internal_ganglia))
IsFew _ _ _ = Unit

targets-IsFew :
    {G : Type 0} (reacting : ℕ → Bool) (current rid : ℕ) (s : Plexus G)
    → IsFew reacting s (ok (rid, targets current rid s), noted current rid s)
targets-IsFew reacting current rid s =
    let e = length s.external_ganglia in
    let q = add current (reacted rid s) in
    let j = left q s.internal_ganglia in
    let l = length s.internal_ganglia in
    let less = left-length q s.internal_ganglia in
    omega (
      arith,
      total-noted reacting rid current s (targets current rid s),
      targets-cost reacting rid current s,
      times_mono (j + e) (rate e j) (rate e l) (rate_mono e j l less),
      times-le (j + e) (l + e) (rate e l) (omega (arith, less)),
    )

-- However the deliveries that a reaction leads to are ordered, and whichever internal ganglia respond to
-- data given to them by calling the plexus's reactant, fewer deliveries are carried out than `rate` says
-- for the numbers of external and internal ganglia: the spread of data ends.
pub internal_reaction-steps :
    {G : Type 0} (reacting : ℕ → Bool) (fresh current rid : ℕ) (o : Option ℕ) (s t v : Plexus G)
    (ds es : List Delivery)
    → internal_reaction fresh current o s ≡ (ok (rid, ds), t)
    → (p : Spreads reacting rid t ds v es)
    → steps reacting rid p < rate (length s.external_ganglia) (suc (length s.internal_ganglia))
internal_reaction-steps reacting fresh current rid o s t v ds es h p =
    let few =
      subst (IsFew reacting s) (sym (reaction_eq fresh current o s) ∙ h)
        (targets-IsFew reacting current (identity fresh o) s) in
    omega (arith, few, steps-total reacting rid t v ds es p)
