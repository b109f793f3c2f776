-- ===== src/Ganglion/Multicast/Owners/Create.antt =====
-- To create a synapse keeps the ganglion owned.
use pyplexo.Base.{
  ℕ, ◌≡◌, refl, sym, ◌∙◌, subst, String, true, false, Option, none, some, lookup, ℕ_key, string_key,
  lookup-insert, arith, inl, inr, Bool-cases,
}
use pyplexo.Exceptions.{Result, ok, raise, pending, Error, Result-cases}
use pyplexo.Neuron.{Neuron}
use pyplexo.Synapse.Epgm
use pyplexo.Synapse.Epgm.{Net, Epgm}
use pyplexo.Ganglion.External.State.{Synapse, has}
use pyplexo.Ganglion.Multicast.Addresses.{
  try_lease_address, create_synapse_with_address, put_synapse, install,
}
use pyplexo.Ganglion.Multicast.State.{Ganglion, Env}
use pyplexo.Ganglion.Multicast.Owners.{
  leases, owner, Owned, Tried, try_lease_address-Tried, Tried-Owned,
}

module _ (env : Env) where
  -- A synapse that is put at an address with no owner owns it.
  put-Owned :
      (key : String) (a : ℕ) (o : Synapse Epgm) (s : Ganglion)
      → Owned s
      → owner a s ≡ none
      → lookup a (leases s) ≡ some true
      → o.channel.multicast_address ≡ a
      → Owned (put_synapse key a o s)
  unfolding put_synapse
  put-Owned key a o s v free held e = record {
    owns = λ k r p hk hr. ground (
      arith,
      lookup-insert k key s.next_object s.synapses,
      lookup-insert r s.next_object o s.objects,
      lookup-insert p.channel.multicast_address a s.next_object s.extra.synapses_by_address,
      v.owns k r p,
      v.older k r,
    );
    distinct = λ k j r hk hj. ground (
      arith,
      lookup-insert k key s.next_object s.synapses,
      lookup-insert j key s.next_object s.synapses,
      v.distinct k j r,
      v.older k r,
      v.older j r,
    );
    older = λ k r hk. ground (arith, lookup-insert k key s.next_object s.synapses, v.older k r);
    leased = λ b r hb.
        ground (arith, lookup-insert b a s.next_object s.extra.synapses_by_address, v.leased b r);
  }

  pub init-address :
      (n : Neuron) (a : ℕ) (i : Option String) (port : ℕ)
      → (Epgm.init env.net n a i port).1.channel.multicast_address ≡ a
  unfolding Epgm.init
  init-address n a i port = ground arith

  pub install_ok :
      (n : Neuron) (key : String) (a : ℕ) (s : Ganglion)
      → (Epgm.init env.net n a s.extra.bind_interface s.extra.port).0 ≡ ok tt
      → (install env n key a s).1
        ≡ put_synapse key a (Epgm.init env.net n a s.extra.bind_interface s.extra.port).1 s
  unfolding install
  install_ok n key a s h = ground arith

  install_fails :
      (n : Neuron) (key : String) (a : ℕ) (s : Ganglion)
      → ((Epgm.init env.net n a s.extra.bind_interface s.extra.port).0 ≡ ok tt → ⊥)
      → (install env n key a s).1 ≡ s
  unfolding install
  install_fails n key a s h = ground arith

  install-Owned :
      (n : Neuron) (key : String) (a : ℕ) (s : Ganglion)
      → Owned s
      → owner a s ≡ none
      → lookup a (leases s) ≡ some true
      → Owned (install env n key a s).1
  install-Owned n key a s v free held =
      let made = Epgm.init env.net n a s.extra.bind_interface s.extra.port in
      elim (Result-cases made.0) [
        | inl (u, e) ↦
            subst Owned (sym (install_ok n key a s e))
              (put-Owned key a made.1 s v free held (init-address n a _ _))
        | inr (inl (x, e)) ↦ subst Owned (sym (install_fails n key a s (λ p. ground arith))) v
        | inr (inr e) ↦ subst Owned (sym (install_fails n key a s (λ p. ground arith))) v
      ]

  create_exists :
      (n : Neuron) (key : String) (a : ℕ) (s : Ganglion)
      → has key s.synapses ≡ true
      → (create_synapse_with_address env n key a s).1 ≡ s
  unfolding create_synapse_with_address
  create_exists n key a s h = ground arith

  pub create_tried :
      (n : Neuron) (key : String) (a : ℕ) (s t : Ganglion)
      → has key s.synapses ≡ false
      → try_lease_address a s ≡ (ok tt, t)
      → (create_synapse_with_address env n key a s).1 ≡ (install env n key a t).1
  unfolding create_synapse_with_address
  create_tried n key a s t h e = ground arith

  create_refused :
      (n : Neuron) (key : String) (a : ℕ) (s t : Ganglion) (x : Error)
      → has key s.synapses ≡ false
      → try_lease_address a s ≡ (raise x, t)
      → (create_synapse_with_address env n key a s).1 ≡ t
  unfolding create_synapse_with_address
  create_refused n key a s t x h e = ground arith

  create_from :
      (n : Neuron) (key : String) (a : ℕ) (s : Ganglion)
      → Owned s
      → has key s.synapses ≡ false
      → (r : Result (Unit {0}) × Ganglion) → try_lease_address a s ≡ r
      → Tried a s r
      → Owned (create_synapse_with_address env n key a s).1
  create_from n key a s v absent (ok tt, t) e d =
      let (owned, free, held) = Tried-Owned a s t v d in
      subst Owned (sym (create_tried n key a s t absent e))
        (install-Owned n key a t owned free held)
  create_from n key a s v absent (raise x, t) e d =
      subst Owned (sym (create_refused n key a s t x absent e ∙ d)) v
  create_from n key a s v absent (pending, t) e d = absurd d

  -- To create a synapse at an address keeps the ganglion owned, also where it raises.
  pub create-Owned :
      (n : Neuron) (key : String) (a : ℕ) (s : Ganglion)
      → Owned s
      → Owned (create_synapse_with_address env n key a s).1
  create-Owned n key a s v = elim (Bool-cases (has key s.synapses)) [
    | inl there ↦ subst Owned (sym (create_exists n key a s there)) v
    | inr absent ↦
        create_from n key a s v absent (try_lease_address a s) refl
          (try_lease_address-Tried a s (v.leased a))
  ]
