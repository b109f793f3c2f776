-- ===== src/Ganglion/Multicast/Addresses.antt =====
-- src/plexo/ganglion/plexo_multicast.py: leases, and the synapses that hold the addresses.
pub mod Steady
use pyplexo.Base.{
  ℕ, ◌+◌, String, Bool, true, false, not, Option, none, some, List, [], ◌∷◌, lookup, insert, erase,
  get_elem?, Map, ℕ_key, string_key, if◌then◌else◌, ◌==◌,
}
use pyplexo.Exceptions.{
  Action, Result, Error, pure, throw, throw_if, gets, modify, lift, or_throw, catch, ◌>>=◌, ◌>>◌,
  ip_lease_exists, synapse_exists, synapse_does_not_exist, index_error, key_error,
}
use pyplexo.IpLease
use pyplexo.Neuron.{Neuron, name}
use pyplexo.Synapse.Epgm
use pyplexo.Synapse.Epgm.{Epgm}
use pyplexo.Ganglion.External.State.{Synapse, has, deref, store, put_new}
use pyplexo.Ganglion.Multicast.State.{Multicast, Ganglion, Env, asks, change}

-- `key in map`, of a map keyed by addresses
abbrev pub holds : ℕ → Map ℕ ℕ → Bool
holds a m = elim (lookup a m) [ none ↦ false | some _ ↦ true ]

-- A method of `self._ip_lease_manager`.
abbrev pub leasing : {A : Type 0} → Action IpLease.IpLeaseManager A → Action Ganglion A
leasing f s =
    let (r, m) = f s.extra.ip_lease_manager in
    (r, record s { extra = record s.extra { ip_lease_manager = m } })

-- A method of a synapse that this ganglion holds.
abbrev pub on_synapse : ℕ → Action (Synapse Epgm) (Unit {0}) → Action Ganglion (Unit {0})
on_synapse ref f = do o ← deref ref; modify (λ s. store ref (f o).1 s); lift (f o).0

-- `except IpLeaseExists`: raised again if a known synapse has the address
unless_held : ℕ → Error → Action Ganglion (Unit {0})
unless_held a ip_lease_exists = do
  held ← asks (λ m. holds a m.synapses_by_address)
  throw_if held ip_lease_exists
unless_held a e = throw e

unfoldable pub try_lease_address : ℕ → Action Ganglion (Unit {0})
unfolding unless_held IpLease.lease_address
try_lease_address a = catch (do _ ← leasing (IpLease.lease_address a); pure tt) (unless_held a)

-- `ReservedMulticastAddress`
pub data ReservedMulticastAddress : Type 0 where
  heartbeat preparation promise rejection proposal approval : ReservedMulticastAddress

abbrev pub value : ReservedMulticastAddress → ℕ
value heartbeat = 0
value preparation = 1
value promise = 2
value rejection = 3
value proposal = 4
value approval = 5

-- The new object goes into both maps.
unfoldable pub put_synapse : String → ℕ → Synapse Epgm → Ganglion → Ganglion
unfolding put_new
put_synapse key a o s =
    let t = put_new key o s in
    record t {
      extra = record t.extra {
        synapses_by_address = insert a s.next_object t.extra.synapses_by_address;
      };
    }

module _ (env : Env) where
  -- The new synapse, once its address is leased.
  unfoldable pub install : Neuron → String → ℕ → Action Ganglion ℕ
  install n key a = do
    made ← gets (λ s. Epgm.init env.net n a s.extra.bind_interface s.extra.port)
    lift made.0
    ref ← gets (λ s. s.next_object)
    modify (put_synapse key a made.1)
    pure ref

  unfoldable pub create_synapse_with_address : Neuron → String → ℕ → Action Ganglion ℕ
  create_synapse_with_address n key a = do
    exists ← gets (λ s. has key s.synapses)
    throw_if exists synapse_exists
    try_lease_address a
    install n key a

  -- The move of a synapse from one address to another, once the new one is leased.
  unfoldable pub move_synapse : ℕ → ℕ → ℕ → Action Ganglion ℕ
  move_synapse ref current a = do
    on_synapse ref (Epgm.update env.net a)
    change (λ m. record m { synapses_by_address = insert a ref m.synapses_by_address })
    change (λ m. record m { synapses_by_address = erase current m.synapses_by_address })
    _ ← leasing (IpLease.release_address current)
    pure ref

  unfoldable pub update_synapse_with_address : String → ℕ → Action Ganglion ℕ
  update_synapse_with_address key a = do
    exists ← gets (λ s. has key s.synapses)
    throw_if (not exists) synapse_does_not_exist
    ref ← or_throw (← gets (λ s. lookup key s.synapses)) key_error
    o ← deref ref
    if o.channel.multicast_address == a
        then pure ref
        else (do try_lease_address a; move_synapse ref o.channel.multicast_address a)

  unfoldable pub create_or_update_synapse_with_address : Neuron → String → ℕ → Action Ganglion ℕ
  create_or_update_synapse_with_address n key a = do
    exists ← gets (λ s. has key s.synapses)
    if exists then update_synapse_with_address key a else create_synapse_with_address n key a

  unfoldable pub create_synapse_with_reserved_address_by_name :
      Neuron → String → ReservedMulticastAddress → Action Ganglion ℕ
  create_synapse_with_reserved_address_by_name n key r = do
    a ← or_throw (← asks (λ m. get_elem? m.reserved_addresses (value r))) index_error
    create_synapse_with_address n key a

  unfoldable pub create_synapse_with_reserved_address :
      Neuron → ReservedMulticastAddress → Action Ganglion ℕ
  unfolding create_synapse_with_reserved_address_by_name name
  create_synapse_with_reserved_address n r =
      create_synapse_with_reserved_address_by_name n (name n) r
