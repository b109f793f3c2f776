-- ===== src/Ganglion/Multicast/Owners/Move.antt =====
-- To move a synapse to another address keeps the ganglion owned, where every bind succeeds.
use pyplexo.Base.{
  ℕ, ◌≡◌, ◌≢◌, refl, sym, ap, ◌∙◌, subst, String, true, none, some, lookup, ℕ_key, string_key,
  ℕ_discrete, arith, Option-cases, inl, inr,
}
use pyplexo.Exceptions.{Result, ok, raise, pending, Error}
use pyplexo.Neuron.{Neuron}
use pyplexo.Synapse.Epgm.{Epgm}
use pyplexo.Ganglion.External.State.{Synapse}
use pyplexo.Ganglion.Multicast.Addresses.{
  try_lease_address, move_synapse, update_synapse_with_address,
  create_or_update_synapse_with_address,
}
use pyplexo.Ganglion.Multicast.State.{Ganglion, Env}
use pyplexo.Ganglion.Multicast.Owners.{Owned, Tried, try_lease_address-Tried, Tried-Owned}
use pyplexo.Ganglion.Multicast.Owners.Create.{create-Owned}
use pyplexo.Ganglion.Multicast.Owners.Moved.{move-Owned}

Owned-apart :
    {s : Ganglion}
    → Owned s
    → (k j : String) (r q : ℕ) (o p : Synapse Epgm) → k ≢ j
    → lookup k s.synapses ≡ some r
    → lookup j s.synapses ≡ some q
    → lookup r s.objects ≡ some o
    → lookup q s.objects ≡ some p
    → o.channel.multicast_address ≢ p.channel.multicast_address
Owned-apart v k j r q o p apart kr jq ro qp e =
    apart (ground (arith, v.owns k r o kr ro, v.owns j q p jq qp, v.distinct k j r))

module _ (env : Env) (binds : (c : String) → env.net.bind c ≡ true) where
  update_tried :
      (key : String) (ref a : ℕ) (o : Synapse Epgm) (s t : Ganglion)
      → lookup key s.synapses ≡ some ref
      → lookup ref s.objects ≡ some o
      → (a ≡ o.channel.multicast_address → ⊥)
      → try_lease_address a s ≡ (ok tt, t)
      → (update_synapse_with_address env key a s).1
        ≡ (move_synapse env ref o.channel.multicast_address a t).1
  unfolding update_synapse_with_address
  update_tried key ref a o s t hk ho apart e = ground arith

  update_refused :
      (key : String) (ref a : ℕ) (o : Synapse Epgm) (s t : Ganglion) (x : Error)
      → lookup key s.synapses ≡ some ref
      → lookup ref s.objects ≡ some o
      → (a ≡ o.channel.multicast_address → ⊥)
      → try_lease_address a s ≡ (raise x, t)
      → (update_synapse_with_address env key a s).1 ≡ t
  unfolding update_synapse_with_address
  update_refused key ref a o s t x hk ho apart e = ground arith

  update_same :
      (key : String) (ref : ℕ) (o : Synapse Epgm) (s : Ganglion)
      → lookup key s.synapses ≡ some ref
      → lookup ref s.objects ≡ some o
      → (update_synapse_with_address env key o.channel.multicast_address s).1 ≡ s
  unfolding update_synapse_with_address
  update_same key ref o s hk ho = ground arith

  update_absent :
      (key : String) (a : ℕ) (s : Ganglion)
      → lookup key s.synapses ≡ none
      → (update_synapse_with_address env key a s).1 ≡ s
  unfolding update_synapse_with_address
  update_absent key a s hk = ground arith

  update_dangling :
      (key : String) (ref a : ℕ) (s : Ganglion)
      → lookup key s.synapses ≡ some ref
      → lookup ref s.objects ≡ none
      → (update_synapse_with_address env key a s).1 ≡ s
  unfolding update_synapse_with_address
  update_dangling key ref a s hk ho = ground arith

  update_from :
      (key : String) (ref a : ℕ) (o : Synapse Epgm) (s : Ganglion)
      → Owned s
      → lookup key s.synapses ≡ some ref
      → lookup ref s.objects ≡ some o
      → (a ≡ o.channel.multicast_address → ⊥)
      → (r : Result (Unit {0}) × Ganglion) → try_lease_address a s ≡ r
      → Tried a s r
      → Owned (update_synapse_with_address env key a s).1
  update_from key ref a o s v hk ho apart (ok tt, t) e d =
      let (owned, free, held) = Tried-Owned a s t v d in
      subst Owned (sym (update_tried key ref a o s t hk ho apart e)) (
        move-Owned env binds key ref a o t owned free held
          (ap (λ x. lookup key x.synapses) d.1 ∙ hk) (ap (λ x. lookup ref x.objects) d.1 ∙ ho)
          apart)
  update_from key ref a o s v hk ho apart (raise x, t) e d =
      subst Owned (sym (update_refused key ref a o s t x hk ho apart e ∙ d)) v
  update_from key ref a o s v hk ho apart (pending, t) e d = absurd d

  update_known :
      (key : String) (ref a : ℕ) (o : Synapse Epgm) (s : Ganglion)
      → Owned s
      → lookup key s.synapses ≡ some ref
      → lookup ref s.objects ≡ some o
      → Owned (update_synapse_with_address env key a s).1
  update_known key ref a o s v hk ho = elim (ℕ_discrete a o.channel.multicast_address) [
    | yes e ↦
        subst Owned
          (sym (
            ap (λ x. (update_synapse_with_address env key x s).1) e
            ∙ update_same key ref o s hk ho))
          v
    | no apart ↦
        update_from key ref a o s v hk ho apart (try_lease_address a s) refl
          (try_lease_address-Tried a s (v.leased a))
  ]

  pub update-Owned :
      (key : String) (a : ℕ) (s : Ganglion)
      → Owned s
      → Owned (update_synapse_with_address env key a s).1
  update-Owned key a s v = elim (Option-cases (lookup key s.synapses)) [
    | inl hk ↦ subst Owned (sym (update_absent key a s hk)) v
    | inr (ref, hk) ↦ elim (Option-cases (lookup ref s.objects)) [
      | inl ho ↦ subst Owned (sym (update_dangling key ref a s hk ho)) v
      | inr (o, ho) ↦ update_known key ref a o s v hk ho
    ]
  ]

  -- Where binding a socket never fails, `create_or_update_synapse_with_address` keeps the ganglion
  -- owned, whether it creates a synapse, moves one, or raises: the address of each synapse leads back to
  -- it and is leased, and no two names share a synapse.
  pub create_or_update-Owned :
      (n : Neuron) (key : String) (a : ℕ) (s : Ganglion)
      → Owned s
      → Owned (create_or_update_synapse_with_address env n key a s).1
  unfolding create_or_update_synapse_with_address
  create_or_update-Owned n key a s v =
      ground (arith, update-Owned key a s v, create-Owned env n key a s v)

  -- Where binding a socket never fails and the ganglion is owned, the synapses of two names are at
  -- different multicast groups after `create_or_update_synapse_with_address`, however it ends.
  pub groups_apart :
      (n : Neuron) (key : String) (a : ℕ) (s : Ganglion) (k j : String) (r q : ℕ)
      (o p : Synapse Epgm)
      → Owned s
      → k ≢ j
      → let t = (create_or_update_synapse_with_address env n key a s).1 in
        lookup k t.synapses ≡ some r
        → lookup j t.synapses ≡ some q
        → lookup r t.objects ≡ some o
        → lookup q t.objects ≡ some p
        → o.channel.multicast_address ≢ p.channel.multicast_address
  groups_apart n key a s k j r q o p v apart kr jq ro qp e =
      Owned-apart (create_or_update-Owned n key a s v) k j r q o p apart kr jq ro qp e
