-- ===== src/Ganglion/Multicast/Owners.antt =====
-- Each synapse of the ganglion owns its multicast group: `_synapses_by_address` leads from the address
-- of a synapse back to it, and each address there is leased.
pub mod Create
pub mod Moved
pub mod Move
use pyplexo.Base.{
  ℕ, ◌≡◌, ◌≢◌, ◌<◌, ◌+◌, refl, sym, ap, ◌∙◌, subst, String, Bool, true, false, Option, none, some,
  Map, lookup, insert, erase, discard, ite, ℕ_key, string_key, ℕ_discrete, lookup-insert,
  lookup-erase, arith, Option-cases, ◌⊎◌, inl, inr, Bool-cases, string_discrete,
}
use pyplexo.Exceptions.{
  Result, ok, raise, pending, Error, Result-cases, ip_not_found, ip_lease_exists,
}
use pyplexo.IpLease
use pyplexo.Neuron.{Neuron}
use pyplexo.Synapse.Epgm
use pyplexo.Synapse.Epgm.{Net, Epgm}
use pyplexo.Ganglion.External.State.{Synapse, has}
use pyplexo.Ganglion.Multicast.Addresses.{
  try_lease_address, create_synapse_with_address, move_synapse, put_synapse, install,
  update_synapse_with_address, create_or_update_synapse_with_address,
}
use pyplexo.Ganglion.Multicast.State.{Multicast, Ganglion, Env}

abbrev pub leases : Ganglion → Map ℕ Bool
leases s = s.extra.ip_lease_manager.ip_lease_map

abbrev pub owner : ℕ → Ganglion → Option ℕ
owner a s = lookup a s.extra.synapses_by_address

pub record Owned (s : Ganglion) : Type 0 where
  -- the address of a synapse leads back to it
  pub owns :
      (key : String) (ref : ℕ) (o : Synapse Epgm)
      → lookup key s.synapses ≡ some ref
      → lookup ref s.objects ≡ some o
      → owner o.channel.multicast_address s ≡ some ref
  -- two names have two synapses
  pub distinct :
      (k j : String) (ref : ℕ)
      → lookup k s.synapses ≡ some ref
      → lookup j s.synapses ≡ some ref
      → k ≡ j
  -- the references in use are older than the next one
  pub older : (key : String) (ref : ℕ) → lookup key s.synapses ≡ some ref → ref < s.next_object
  -- an address that leads to a synapse is leased
  pub leased : (a ref : ℕ) → owner a s ≡ some ref → lookup a (leases s) ≡ some true

-- What `try_lease_address` does: it raises and changes nothing, or the address has no owner, and is
-- leased afterwards, as the only change.
abbrev pub Tried : ℕ → Ganglion → Result (Unit {0}) × Ganglion → Type 0
Tried a s (ok _, t) =
    (owner a s ≡ none)
    × (t ≡ record s { extra = record s.extra { ip_lease_manager = t.extra.ip_lease_manager } })
    × ((b : ℕ) → lookup b (leases t) ≡ ite (ℕ_discrete a b) (some true) (lookup b (leases s)))
Tried a s (raise e, t) = t ≡ s
Tried a s (pending, t) = ⊥

try_missing :
    (a : ℕ) (s : Ganglion)
    → lookup a (leases s) ≡ none
    → try_lease_address a s ≡ (raise ip_not_found, s)
unfolding try_lease_address
try_missing a s e = ground arith

try_held :
    (a : ℕ) (s : Ganglion) (r : ℕ)
    → lookup a (leases s) ≡ some true
    → owner a s ≡ some r
    → try_lease_address a s ≡ (raise ip_lease_exists, s)
unfolding try_lease_address
try_held a s r e n = ground arith

pub try_idle :
    (a : ℕ) (s : Ganglion)
    → lookup a (leases s) ≡ some true
    → owner a s ≡ none
    → try_lease_address a s ≡ (ok tt, s)
unfolding try_lease_address
try_idle a s e n = ground arith

-- The state once an address is leased.
abbrev leasing_of : ℕ → Ganglion → Ganglion
leasing_of a s = record s {
  extra = record s.extra {
    ip_lease_manager = record {
      ip_lease_map = insert a true (leases s);
      available_ips = discard a s.extra.ip_lease_manager.available_ips;
    };
  };
}

try_free :
    (a : ℕ) (s : Ganglion)
    → lookup a (leases s) ≡ some false
    → try_lease_address a s ≡ (ok tt, leasing_of a s)
unfolding try_lease_address
try_free a s e = ground arith

same_leases :
    (a b : ℕ) (m : Map ℕ Bool)
    → lookup a m ≡ some true
    → lookup b m ≡ ite (ℕ_discrete a b) (some true) (lookup b m)
same_leases a b m e = ground arith

pub try_lease_address-Tried :
    (a : ℕ) (s : Ganglion)
    → ((ref : ℕ) → owner a s ≡ some ref → lookup a (leases s) ≡ some true)
    → Tried a s (try_lease_address a s)
try_lease_address-Tried a s h = elim (Option-cases (lookup a (leases s))) [
  | inl e ↦ subst (Tried a s) (sym (try_missing a s e)) refl
  | inr (true, e) ↦ elim (Option-cases (owner a s)) [
    | inl n ↦
        subst (Tried a s) (sym (try_idle a s e n)) (n, refl, λ b. same_leases a b (leases s) e)
    | inr (r, n) ↦ subst (Tried a s) (sym (try_held a s r e n)) refl
  ]
  | inr (false, e) ↦ elim (Option-cases (owner a s)) [
    | inl n ↦
        subst (Tried a s) (sym (try_free a s e)) (n, refl, λ b. lookup-insert b a true (leases s))
    | inr (r, n) ↦ absurd (ground (arith, h r n))
  ]
]

-- A state that agrees on the synapses, and leases at least what has an owner, is owned too.
pub relabelled :
    (s t : Ganglion)
    → Owned s
    → t.synapses ≡ s.synapses
    → t.objects ≡ s.objects
    → t.next_object ≡ s.next_object
    → t.extra.synapses_by_address ≡ s.extra.synapses_by_address
    → ((a ref : ℕ) → owner a s ≡ some ref → lookup a (leases t) ≡ some true)
    → Owned t
relabelled s t v e f g h k = record {
  owns = λ key ref o hk hr. ground (arith, v.owns key ref o);
  older = λ key ref hk. ground (arith, v.older key ref);
  distinct = λ i j ref hi hj. ground (arith, v.distinct i j ref);
  leased = λ a ref ha. ground (arith, k a ref);
}

-- Once an address is leased, the ganglion is owned as before, and nobody owns the address.
pub Tried-Owned :
    (a : ℕ) (s t : Ganglion)
    → Owned s
    → Tried a s (ok tt, t)
    → Owned t × (owner a t ≡ none) × (lookup a (leases t) ≡ some true)
Tried-Owned a s t v (free, same, now) = (
  relabelled s t v (ap (λ x. x.synapses) same) (ap (λ x. x.objects) same)
      (ap (λ x. x.next_object) same) (ap (λ x. x.extra.synapses_by_address) same)
      (λ b ref h. ground (arith, now b, v.leased b ref h)),
  ap (λ x. owner a x) same ∙ free,
  ground (arith, now a),
)
