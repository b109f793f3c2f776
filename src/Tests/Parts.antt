-- ===== src/Tests/Parts.antt =====
-- Runs of the theorems on leases, reactants and codecs.
use pyplexo.Base.{
  ℕ, ◌≡◌, ◌<◌, ◌≤◌, refl, true, false, none, some, [], ◌∷◌, map, contains, lookup, ℕ_key,
  ℕ_discrete, arith, if◌then◌else◌,
}
use pyplexo.Dendrite.{Dendrite, add_reactants, transduce}
use pyplexo.Dendrite.Once.{occurrences, caller, transduce-add_reactants}
use pyplexo.Exceptions.{ok, raise, ip_lease_exists, ips_exhausted}
use pyplexo.IpLease
use pyplexo.IpLease.Exhaust.{get_addresses, get_addresses-length, GaveAll}
use pyplexo.IpLease.Valid.{
  IsValid, Picks, Gets, init-IsValid, lease_address-IsValid, release_address-IsValid,
  get_address-Gets, release-lease,
}
use pyplexo.Schema.{text}
use pyplexo.Tests.Setting.{first, note}

abbrev manager : IpLease.IpLeaseManager
manager = record { ip_lease_map = (40, false) ∷ (41, true) ∷ []; available_ips = 40 ∷ [] }

manager-IsValid : IsValid manager
unfolding ℕ_discrete
manager-IsValid a = ground arith

first-Picks : Picks first
first-Picks a rest = ground arith

init-IsValid_example :
    IsValid (IpLease.init (40 ∷ 41 ∷ []))
    × ((a : ℕ)
        → lookup a (IpLease.init (40 ∷ 41 ∷ [])).ip_lease_map
          ≡ (if contains a (40 ∷ 41 ∷ []) then some false else none))
init-IsValid_example = init-IsValid (40 ∷ 41 ∷ [])

lease_address-IsValid_example : IsValid (IpLease.lease_address 40 manager).1
lease_address-IsValid_example = lease_address-IsValid 40 manager manager-IsValid

release_address-IsValid_example : IsValid (IpLease.release_address 41 manager).1
release_address-IsValid_example = release_address-IsValid 41 manager manager-IsValid

get_address-Gets_example : Gets manager (IpLease.get_address first manager)
get_address-Gets_example = get_address-Gets first first-Picks manager manager-IsValid

release-lease_example :
    let t = (IpLease.lease_address 40 manager).1 in
    (IpLease.lease_address 40 t ≡ (raise ip_lease_exists, t))
    × ((IpLease.release_address 40 t).0 ≡ ok 40)
    × (lookup 41 (IpLease.release_address 40 t).1.ip_lease_map ≡ lookup 41 manager.ip_lease_map)
unfolding IpLease.lease_address ℕ_discrete
release-lease_example = release-lease 40 41 manager (IpLease.lease_address 40 manager).1 refl

abbrev dendrite : Dendrite
dendrite = record { neuron = note; reactants = 1 ∷ 2 ∷ [] }

transduce-add_reactants_example :
    occurrences 2
      (map caller (transduce (add_reactants dendrite (2 ∷ 3 ∷ 2 ∷ [])) (text "hello") none))
    ≡ 1
unfolding ℕ_discrete
transduce-add_reactants_example =
    transduce-add_reactants dendrite (2 ∷ 3 ∷ 2 ∷ []) (text "hello") none 2

get_addresses-length_example :
    (2 ≤ 1 → GaveAll first first-Picks 2 manager)
    × (1 < 2 → (get_addresses first 2 manager).0 ≡ raise ips_exhausted)
get_addresses-length_example =
    get_addresses-length first first-Picks 2 manager manager-IsValid (refl, tt)
