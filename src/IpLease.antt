-- ===== src/IpLease.antt =====
-- src/plexo/ip_lease.py: `IpLeaseManager`. An address is the number that it stands for, and a
-- network is the list of its addresses.
pub mod Valid
pub mod Exhaust
use pyplexo.Base.{
  ℕ, Bool, true, false, not, Option, none, some, List, [], ◌∷◌, Map, lookup, insert, discard, add,
  ℕ_key,
}
use pyplexo.Exceptions.{
  Action, throw, throw_if, or_throw, gets, modify, pure, ◌>>=◌, ◌>>◌, ip_not_found, ip_lease_exists,
  ip_not_leased, ips_exhausted,
}

pub record IpLeaseManager : Type 0 where
  pub ip_lease_map : Map ℕ Bool
  pub available_ips : List ℕ

-- Which element `set.pop()` takes from a set that is not empty. The code relies on this alone: it is
-- an element.
abbrev pub Choice : Type 0
Choice = ℕ → List ℕ → ℕ

-- `{ip_address: False for ip_address in ip_cidr}`
unfoldable pub free_map : List ℕ → Map ℕ Bool
free_map [] = []
free_map (a ∷ cidr) = insert a false (free_map cidr)

abbrev pub keys : Map ℕ Bool → List ℕ
keys [] = []
keys (e ∷ m) = e.0 ∷ keys m

-- `IpLeaseManager(ip_cidr)`
unfoldable pub init : List ℕ → IpLeaseManager
unfolding free_map
init cidr = record { ip_lease_map = free_map cidr; available_ips = keys (free_map cidr) }

-- `address_is_leased`
unfoldable pub address_is_leased : ℕ → Action IpLeaseManager Bool
address_is_leased a = do or_throw (← gets (λ m. lookup a m.ip_lease_map)) ip_not_found

unfoldable pub lease_address : ℕ → Action IpLeaseManager ℕ
lease_address a = do
  leased ← or_throw (← gets (λ m. lookup a m.ip_lease_map)) ip_not_found
  throw_if leased ip_lease_exists
  modify (λ m. record m { ip_lease_map = insert a true m.ip_lease_map })
  modify (λ m. record m { available_ips = discard a m.available_ips })
  pure a

unfoldable pub release_address : ℕ → Action IpLeaseManager ℕ
release_address a = do
  leased ← or_throw (← gets (λ m. lookup a m.ip_lease_map)) ip_not_found
  throw_if (not leased) ip_not_leased
  modify (λ m. record m { ip_lease_map = insert a false m.ip_lease_map })
  modify (λ m. record m { available_ips = add a m.available_ips })
  pure a

-- `self._available_ips.pop()`
unfoldable pub pop_available : Choice → Action IpLeaseManager ℕ
pop_available choose m = elim m.available_ips [
  | [] ↦ throw ips_exhausted m
  | a ∷ rest ↦
      pure (choose a rest) (record m { available_ips = discard (choose a rest) (a ∷ rest) })
]

unfoldable pub get_address : Choice → Action IpLeaseManager ℕ
unfolding pop_available lease_address
get_address choose = do a ← pop_available choose; lease_address a
