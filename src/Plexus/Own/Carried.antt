-- ===== src/Plexus/Own/Carried.antt =====
-- How a plexus with no ganglia but its own carries out calls of reactants.
use pyplexo.Base.{
  ℕ, suc, ◌≡◌, refl, sym, ap, ◌∙◌, true, Option, List, [], ◌∷◌, ◌++◌, map, contains, Bool-cases,
  inl, inr, ℕ_key, string_key, arith,
}
use mathlib.Core.List.{append-nil, append_assoc}
use pyplexo.Codec.{Utf8}
use pyplexo.Dendrite.{Call, reacts, reacts_raw, difference}
use pyplexo.Exceptions.{ok}
use pyplexo.Plexus
use pyplexo.Plexus.{Plexus, Delivery, identity, reacted, note}
use pyplexo.Plexus.Spread.{noted, targets, reaction_eq, reacted-noted}
use pyplexo.Plexus.Own.{Own, me, own_reaction, call, carry_out}

difference-nil : (xs : List ℕ) → difference [] xs ≡ []
unfolding difference
difference-nil [] = refl
difference-nil (x ∷ xs) = difference-nil xs

difference-one : (x : ℕ) (xs : List ℕ) → contains x xs ≡ true → difference (x ∷ []) xs ≡ []
unfolding difference
difference-one x [] h = absurd (ground arith)
difference-one x (y ∷ ys) h = ground (arith, difference-nil ys, difference-one x ys)

-- The plexus has no ganglia but its own.
pub record Alone (p : Plexus Own) : Type 0 where
  pub internal : p.internal_ganglia ≡ me ∷ []
  pub external : p.external_ganglia ≡ []

-- What carrying out some calls leaves.
pub record Carried (cs : List Call) (p t : Plexus Own) : Type 0 where
  pub alone : Alone t
  pub same : t.ganglia.inproc ≡ p.ganglia.inproc
  pub still : t.ganglia.waiting ≡ p.ganglia.waiting
  pub received : t.ganglia.received ≡ p.ganglia.received ++ cs
  pub asked : t.ganglia.asked ≡ p.ganglia.asked

-- The state once `uuid4()` has been called.
abbrev counted : Plexus Own → Plexus Own
counted p = record p { ganglia = record p.ganglia { next_id = suc p.ganglia.next_id } }

none_left :
    (is es xs : List ℕ)
    → is ≡ me ∷ []
    → es ≡ []
    → contains me xs ≡ true
    → map Plexus.transmit (difference is xs) ++ map Plexus.transmit (difference es xs) ≡ []
none_left is es xs i e h = rw (i, e, difference-one me xs h, difference-nil xs) refl

targets-none : (rid : ℕ) (p : Plexus Own) → Alone p → targets me rid p ≡ []
unfolding note
targets-none rid p a =
    let q = noted me rid p in
    none_left q.internal_ganglia q.external_ganglia (reacted rid q) a.internal a.external
      (ground (arith, reacted-noted me me rid p))

-- The state once deliveries have been asked for.
abbrev asking : List Delivery → Plexus Own → Plexus Own
asking ds q = record q { ganglia = record q.ganglia { asked = q.ganglia.asked ++ ds } }

nothing-Carried :
    (rid : ℕ) (p : Plexus Own) → Alone p → Carried [] p (asking [] (noted me rid (counted p)))
unfolding note
nothing-Carried rid p a = record {
  alone = record { internal = a.internal; external = a.external };
  same = refl;
  still = refl;
  received = sym (append-nil p.ganglia.received);
  asked = append-nil p.ganglia.asked;
}

module _ (u : Utf8) (entry : ℕ) where
  own_reaction_eq :
      (rid : Option ℕ) (p : Plexus Own)
      → let id = identity p.ganglia.next_id rid in
        own_reaction u entry rid p
        ≡ (ok tt, asking (targets me id (counted p)) (noted me id (counted p)))
  unfolding own_reaction
  own_reaction_eq rid p = ground (arith, reaction_eq p.ganglia.next_id me rid (counted p))

  -- The plexus's own reactant asks for nothing.
  own_reaction-Carried :
      (rid : Option ℕ) (p : Plexus Own)
      → Alone p
      → (t : Plexus Own) × (own_reaction u entry rid p ≡ (ok tt, t)) × Carried [] p t
  own_reaction-Carried rid p a =
      let id = identity p.ganglia.next_id rid in
      let alone : Alone (counted p) = record { internal = a.internal; external = a.external } in
      let none_asked =
        ap (λ ds. (ok tt, asking ds (noted me id (counted p))))
          (targets-none id (counted p) alone) in
      (
        asking [] (noted me id (counted p)),
        own_reaction_eq rid p ∙ none_asked,
        nothing-Carried id p a,
      )

  nothing : (p : Plexus Own) → Alone p → Carried [] p p
  nothing p a = record {
    alone = a;
    same = refl;
    still = refl;
    received = sym (append-nil p.ganglia.received);
    asked = refl;
  }

  call-Carried :
      (c : Call) (p : Plexus Own)
      → Alone p
      → (t : Plexus Own) × (call u entry c p ≡ (ok tt, t)) × Carried [] p t
  unfolding call
  call-Carried (reacts r v n rid) p a = elim (Bool-cases (contains r (entry ∷ []))) [
    | inl e ↦ let (t, h, c) = own_reaction-Carried rid p a in (t, ground (arith, h), c)
    | inr e ↦ (p, ground arith, nothing p a)
  ]
  call-Carried (reacts_raw r e n rid) p a = (p, refl, nothing p a)

  abbrev receiving : Call → Plexus Own → Plexus Own
  receiving c t = record t {
    ganglia = record t.ganglia { received = t.ganglia.received ++ c ∷ [] };
  }

  carry_out_step :
      (c : Call) (cs : List Call) (p t : Plexus Own)
      → call u entry c p ≡ (ok tt, t)
      → carry_out u entry (c ∷ cs) p ≡ carry_out u entry cs (receiving c t)
  unfolding carry_out
  carry_out_step c cs p t h = ground arith

  then_Carried :
      (c : Call) (cs : List Call) (p t v : Plexus Own)
      → Carried [] p t
      → Carried cs (receiving c t) v
      → Carried (c ∷ cs) p v
  then_Carried c cs p t v a b = record {
    alone = b.alone;
    same = b.same ∙ a.same;
    still = b.still ∙ a.still;
    received =
        b.received
        ∙ ap (λ l. (l ++ c ∷ []) ++ cs) (a.received ∙ append-nil p.ganglia.received)
        ∙ append_assoc p.ganglia.received (c ∷ []) cs;
    asked = b.asked ∙ a.asked;
  }

  pub carry_out-Carried :
      (cs : List Call) (p : Plexus Own)
      → Alone p
      → (t : Plexus Own) × (carry_out u entry cs p ≡ (ok tt, t)) × Carried cs p t
  unfolding carry_out
  carry_out-Carried [] p a = (p, refl, nothing p a)
  carry_out-Carried (c ∷ cs) p a =
      let (t, h, one) = call-Carried c p a in
      let (v, k, rest) =
        carry_out-Carried cs (receiving c t)
          (record { internal = one.alone.internal; external = one.alone.external }) in
      (v, carry_out_step c cs p t h ∙ k, then_Carried c cs p t v one rest)
