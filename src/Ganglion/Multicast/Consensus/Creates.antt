-- ===== src/Ganglion/Multicast/Consensus/Creates.antt =====
-- A ganglion with no peers makes the synapse of a new type at the address that it gets.
use pyplexo.Base.{
  ℕ, ◌≡◌, ap, ◌∙◌, subst, String, true, false, none, some, List, ◌∷◌, lookup, ℕ_key, string_key,
  bytes_key, ballot_key, arith, lookup-insert, Option-cases, inl, inr,
}
use pyplexo.Exceptions.{ok}
use pyplexo.IpLease.{IpLeaseManager}
use pyplexo.IpLease.Valid.{IsValid, Picks}
use pyplexo.Neuron.{Neuron}
use pyplexo.Synapse.Epgm
use pyplexo.Synapse.Epgm.{Epgm}
use pyplexo.Ganglion.External.State.{Synapse, has}
use pyplexo.Ganglion.Multicast.Addresses.{create_synapse_with_address, install, put_synapse}
use pyplexo.Ganglion.Multicast.Consensus.{
  Round, get_address_from_consensus, acquire_address_for_type,
}
use pyplexo.Ganglion.Multicast.Consensus.Alone.{quiet}
use pyplexo.Ganglion.Multicast.Owners.{Owned, leases, owner, try_idle, relabelled}
use pyplexo.Ganglion.Multicast.Owners.Create.{create-Owned, init-address}
use pyplexo.Ganglion.Multicast.Startup.{create_synapse_by_name}
use pyplexo.Ganglion.Multicast.State.{Ganglion, Env}
use pyplexo.Ganglion.Multicast.Consensus.Settled.{Solo, give, Same, Decides, decides}

module _ (env : Env) where
  settled-Owned :
      (m : IpLeaseManager) (s t : Ganglion)
      → Owned s
      → Same env m s t
      → ((a ref : ℕ) → owner a s ≡ some ref → lookup a m.ip_lease_map ≡ some true)
      → Owned t
  settled-Owned m s t v e k =
      relabelled s t v e.synapses e.objects e.next_object e.by_address
        (λ a ref h. ap (λ l. lookup a l.ip_lease_map) e.manager ∙ k a ref h)

  no_owner : (a : ℕ) (s : Ganglion) → Owned s → lookup a (leases s) ≡ some false → owner a s ≡ none
  no_owner a s v free = elim (Option-cases (owner a s)) [
    | inl e ↦ e
    | inr (ref, e) ↦ absurd (ground (arith, v.leased a ref e))
  ]

  -- What a synapse's creation comes to.
  pub record Creates (n : Neuron) (key : String) (rounds : List Round) (s : Ganglion) : Type 0 where
    pub address : ℕ
    pub state : Ganglion
    pub object : Synapse Epgm
    pub ends : create_synapse_by_name env rounds n key s ≡ (ok s.next_object, state)
    pub was_free : lookup address (leases s) ≡ some false
    pub now_leased : lookup address (leases state) ≡ some true
    pub bound : lookup key state.synapses ≡ some s.next_object
    pub there : lookup s.next_object state.objects ≡ some object
    pub at : object.channel.multicast_address ≡ address
    pub owned : Owned state

  acquire_eq :
      (key : String) (r : Round) (rs : List Round) (s t : Ganglion) (a : ℕ)
      → has key s.synapses ≡ false
      → get_address_from_consensus env key r s ≡ (ok a, t)
      → acquire_address_for_type env key (r ∷ rs) s ≡ (ok a, t)
  unfolding acquire_address_for_type
  acquire_eq key r rs s t a absent h = ground (arith, h)

  create_idle :
      (n : Neuron) (key : String) (a : ℕ) (s : Ganglion)
      → has key s.synapses ≡ false
      → lookup a (leases s) ≡ some true
      → owner a s ≡ none
      → (Epgm.init env.net n a s.extra.bind_interface s.extra.port).0 ≡ ok tt
      → create_synapse_with_address env n key a s ≡ (
        ok s.next_object,
        put_synapse key a (Epgm.init env.net n a s.extra.bind_interface s.extra.port).1 s,
      )
  unfolding create_synapse_with_address install
  create_idle n key a s absent held free made = ground (arith, try_idle a s held free, made)

  by_name_eq :
      (n : Neuron) (key : String) (rounds : List Round) (s t : Ganglion) (a : ℕ)
      → acquire_address_for_type env key rounds s ≡ (ok a, t)
      → create_synapse_by_name env rounds n key s ≡ create_synapse_with_address env n key a t
  unfolding create_synapse_by_name
  by_name_eq n key rounds s t a h = ground (arith, h)

  created :
      (n : Neuron) (key : String) (now : ℕ) (rs : List Round) (s : Ganglion)
      → Owned s
      → has key s.synapses ≡ false
      → ((a : ℕ) → (Epgm.init env.net n a s.extra.bind_interface s.extra.port).0 ≡ ok tt)
      → Decides env key now s
      → Creates n key (quiet now ∷ rs) s
  unfolding put_synapse
  created n key now rs s owned absent binds d =
      let a = d.given.address in
      let t = d.state in
      let made = Epgm.init env.net n a t.extra.bind_interface t.extra.port in
      let held : lookup a (leases t) ≡ some true =
        ap (λ l. lookup a l.ip_lease_map) d.same.manager ∙ d.given.entries a ∙ ground arith in
      let o =
        settled-Owned d.given.manager s t owned d.same
          (λ b ref h. d.given.entries b ∙ ground (arith, owned.leased b ref h)) in
      let missing : has key t.synapses ≡ false = ap (λ m. has key m) d.same.synapses ∙ absent in
      let nobody : owner a t ≡ none =
        ap (lookup a) d.same.by_address ∙ no_owner a s owned d.given.free in
      let fine : made.0 ≡ ok tt = rw (d.same.bind_interface, d.same.port) (binds a) in
      let idle = create_idle n key a t missing held nobody fine in
      let steps =
        by_name_eq n key (quiet now ∷ rs) s t a (acquire_eq key (quiet now) rs s t a absent d.ends)
        ∙ idle in
      record {
        address = a;
        state = put_synapse key a made.1 t;
        object = made.1;
        ends = steps ∙ ap (λ x. (ok x, put_synapse key a made.1 t)) d.same.next_object;
        was_free = d.given.free;
        now_leased = held;
        bound = ground (arith, lookup-insert key key t.next_object t.synapses, d.same.next_object);
        there =
            ground (
              arith,
              lookup-insert s.next_object t.next_object made.1 t.objects,
              d.same.next_object,
            );
        at = init-address env n a t.extra.bind_interface t.extra.port;
        owned = subst Owned (ap (λ x. x.1) idle) (create-Owned env n key a t o);
      }

  -- A ganglion that is started and owned, has no peers, and has no synapse, promise or rejection of a type
  -- creates the type's synapse if no message is handled in its first round: at an address that was free
  -- and is leased now, under the type's name, and the ganglion stays owned. The other conditions are a
  -- valid manager with an available address, from which the choice picks, working transmitters for
  -- preparations and proposals, and a network that takes every address.
  pub create_synapse_by_name-Creates :
      (n : Neuron) (key : String) (now x : ℕ) (xs : List ℕ) (rs : List Round) (s : Ganglion)
      → Solo env (env.net.utf8.encode key) s
      → Owned s
      → has key s.synapses ≡ false
      → Picks env.choose
      → IsValid s.extra.ip_lease_manager
      → s.extra.ip_lease_manager.available_ips ≡ x ∷ xs
      → ((a : ℕ) → (Epgm.init env.net n a s.extra.bind_interface s.extra.port).0 ≡ ok tt)
      → Creates n key (quiet now ∷ rs) s
  create_synapse_by_name-Creates n key now x xs rs s solo owned absent picks valid available binds =
      created n key now rs s owned absent binds (
        decides env key now s solo
          (give env.choose s.extra.ip_lease_manager x xs picks valid available))
