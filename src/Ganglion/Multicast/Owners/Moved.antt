-- ===== src/Ganglion/Multicast/Owners/Moved.antt =====
-- A synapse that has moved to another address, or stayed at its own, owns it.
use pyplexo.Base.{
  ℕ, ◌≡◌, refl, sym, subst, String, true, false, none, some, lookup, insert, erase, ℕ_key,
  string_key, lookup-insert, lookup-erase, arith, inl, inr,
}
use pyplexo.Exceptions.{ok, Result-cases}
use pyplexo.IpLease
use pyplexo.Synapse.Epgm
use pyplexo.Synapse.Epgm.{Net, Epgm}
use pyplexo.Ganglion.External.State.{Synapse}
use pyplexo.Ganglion.Multicast.Addresses.{move_synapse}
use pyplexo.Ganglion.Multicast.State.{Ganglion, Env}
use pyplexo.Ganglion.Multicast.Owners.{leases, owner, Owned}

-- The lease of any other address is left alone by a release.
release-others :
    (a b : ℕ) (m : IpLease.IpLeaseManager)
    → (a ≡ b → ⊥)
    → lookup b (IpLease.release_address a m).1.ip_lease_map ≡ lookup b m.ip_lease_map
unfolding IpLease.release_address
release-others a b m h = ground (arith, lookup-insert b a false m.ip_lease_map)

-- The state after a move that succeeds.
abbrev moved : ℕ → ℕ → ℕ → Synapse Epgm → Ganglion → Ganglion
moved ref current a o s = record s {
  objects = insert ref o s.objects;
  extra = record s.extra {
    synapses_by_address = erase current (insert a ref s.extra.synapses_by_address);
    ip_lease_manager = (IpLease.release_address current s.extra.ip_lease_manager).1;
  };
}

moved-Owned :
    (key : String) (ref current a : ℕ) (o p : Synapse Epgm) (s : Ganglion)
    → Owned s
    → owner a s ≡ none
    → lookup a (leases s) ≡ some true
    → lookup key s.synapses ≡ some ref
    → lookup ref s.objects ≡ some o
    → o.channel.multicast_address ≡ current
    → (a ≡ current → ⊥)
    → p.channel.multicast_address ≡ a
    → Owned (moved ref current a p s)
moved-Owned key ref current a o p s v free held hk ho here apart now = record {
  owns = λ k r q kr rq. ground (
    arith,
    lookup-insert r ref p s.objects,
    lookup-erase q.channel.multicast_address current (insert a ref s.extra.synapses_by_address),
    lookup-insert q.channel.multicast_address a ref s.extra.synapses_by_address,
    v.owns k r q,
    v.owns key ref o hk ho,
  );
  distinct = λ k j r kr jr. v.distinct k j r kr jr;
  older = λ k r kr. v.older k r kr;
  leased = λ b r hb. ground (
    arith,
    lookup-erase b current (insert a ref s.extra.synapses_by_address),
    lookup-insert b a ref s.extra.synapses_by_address,
    release-others current b s.extra.ip_lease_manager,
    v.leased b r,
  );
}

-- A synapse that is replaced by one at the same address.
replaced-Owned :
    (ref : ℕ) (o p : Synapse Epgm) (s : Ganglion)
    → Owned s
    → lookup ref s.objects ≡ some o
    → p.channel.multicast_address ≡ o.channel.multicast_address
    → Owned (record s { objects = insert ref p s.objects })
replaced-Owned ref o p s v ho same = record {
  owns = λ k r q kr rq. ground (arith, lookup-insert r ref p s.objects, v.owns k r q, v.owns k r o);
  distinct = λ k j r kr jr. v.distinct k j r kr jr;
  older = λ k r kr. v.older k r kr;
  leased = λ b r hb. v.leased b r hb;
}

module _ (env : Env) (binds : (c : String) → env.net.bind c ≡ true) where
  update-address :
      (a : ℕ) (o : Synapse Epgm)
      → (Epgm.update env.net a o).0 ≡ ok tt
      → (Epgm.update env.net a o).1.channel.multicast_address ≡ a
  unfolding Epgm.update
  update-address a o h = ground arith

  update-keeps :
      (a : ℕ) (o : Synapse Epgm)
      → ((Epgm.update env.net a o).0 ≡ ok tt → ⊥)
      → (Epgm.update env.net a o).1.channel.multicast_address ≡ o.channel.multicast_address
  unfolding Epgm.update Epgm.connection
  update-keeps a o h = ground (arith, binds (Epgm.connection env.net o.channel a))

  move_ok :
      (ref current a : ℕ) (o : Synapse Epgm) (s : Ganglion)
      → lookup ref s.objects ≡ some o
      → (Epgm.update env.net a o).0 ≡ ok tt
      → (move_synapse env ref current a s).1 ≡ moved ref current a (Epgm.update env.net a o).1 s
  unfolding move_synapse
  move_ok ref current a o s ho h = ground arith

  move_fails :
      (ref current a : ℕ) (o : Synapse Epgm) (s : Ganglion)
      → lookup ref s.objects ≡ some o
      → ((Epgm.update env.net a o).0 ≡ ok tt → ⊥)
      → (move_synapse env ref current a s).1
        ≡ record s { objects = insert ref (Epgm.update env.net a o).1 s.objects }
  unfolding move_synapse
  move_fails ref current a o s ho h = ground arith

  pub move-Owned :
      (key : String) (ref a : ℕ) (o : Synapse Epgm) (s : Ganglion)
      → Owned s
      → owner a s ≡ none
      → lookup a (leases s) ≡ some true
      → lookup key s.synapses ≡ some ref
      → lookup ref s.objects ≡ some o
      → (a ≡ o.channel.multicast_address → ⊥)
      → Owned (move_synapse env ref o.channel.multicast_address a s).1
  move-Owned key ref a o s v free held hk ho apart =
      let current = o.channel.multicast_address in
      let new = Epgm.update env.net a o in
      elim (Result-cases new.0) [
        | inl (u, e) ↦ subst Owned (sym (move_ok ref current a o s ho e)) (
            moved-Owned key ref current a o new.1 s v free held hk ho refl apart
              (update-address a o e))
        | inr (inl (x, e)) ↦
            subst Owned (sym (move_fails ref current a o s ho (λ p. ground arith)))
              (replaced-Owned ref o new.1 s v ho (update-keeps a o (λ p. ground arith)))
        | inr (inr e) ↦
            subst Owned (sym (move_fails ref current a o s ho (λ p. ground arith)))
              (replaced-Owned ref o new.1 s v ho (update-keeps a o (λ p. ground arith)))
      ]
