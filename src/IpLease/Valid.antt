-- ===== src/IpLease/Valid.antt =====
-- What `IpLeaseManager` promises: its set of available addresses is that of the addresses that are
-- not leased, every method keeps it so, and a method that raises changes nothing.
use pyplexo.Base.{
  ℕ, ◌≡◌, sym, ap, ◌∙◌, refl, Bool, true, false, Option, none, some, List, [], ◌∷◌, lookup, insert,
  contains, discard, ite, arith, Map, if◌then◌else◌, ℕ_discrete, ℕ_key, lookup-insert,
  contains-discard, contains-add, inl, inr, List-cases,
}
use pyplexo.Exceptions.{Result, ok, raise, ip_lease_exists, ips_exhausted}
use pyplexo.IpLease.{
  IpLeaseManager, Choice, init, lease_address, release_address, get_address, free_map, keys,
}

-- The entry of an address that belongs to the network and is not leased.
abbrev pub is_free : Option Bool → Bool
is_free (some false) = true
is_free _ = false

abbrev pub IsValid : IpLeaseManager → Type 0
IsValid m = (a : ℕ) → contains a m.available_ips ≡ is_free (lookup a m.ip_lease_map)

-- The choice is an element of the set.
abbrev pub Picks : Choice → Type 0
Picks choose = (a : ℕ) (rest : List ℕ) → contains (choose a rest) (a ∷ rest) ≡ true

contains-keys :
    (a : ℕ) (m : Map ℕ Bool)
    → contains a (keys m) ≡ elim (lookup a m) [ none ↦ false | some _ ↦ true ]
contains-keys a [] = refl
contains-keys a (e ∷ m) = ground (arith, contains-keys a m)

lookup-free_map :
    (a : ℕ) (cidr : List ℕ)
    → lookup a (free_map cidr) ≡ (if contains a cidr then some false else none)
unfolding free_map
lookup-free_map a [] = refl
lookup-free_map a (x ∷ cidr) =
    ground (arith, lookup-insert a x false (free_map cidr), lookup-free_map a cidr)

-- A new manager is valid, and holds the addresses of its network, none of them leased.
pub init-IsValid :
    (cidr : List ℕ)
    → IsValid (init cidr)
      × ((a : ℕ)
          → lookup a (init cidr).ip_lease_map ≡ (if contains a cidr then some false else none))
unfolding init
init-IsValid cidr = (
  λ a. ground (arith, contains-keys a (free_map cidr), lookup-free_map a cidr),
  λ a. lookup-free_map a cidr,
)

-- `lease_address` keeps a valid manager valid, whether it succeeds or raises.
pub lease_address-IsValid : (a : ℕ) (m : IpLeaseManager) → IsValid m → IsValid (lease_address a m).1
unfolding lease_address
lease_address-IsValid a m v b =
    ground (arith, v b, lookup-insert b a true m.ip_lease_map, contains-discard b a m.available_ips)

-- `release_address` keeps a valid manager valid, whether it succeeds or raises.
pub release_address-IsValid :
    (a : ℕ) (m : IpLeaseManager) → IsValid m → IsValid (release_address a m).1
unfolding release_address
release_address-IsValid a m v b =
    ground (arith, v b, lookup-insert b a false m.ip_lease_map, contains-add b a m.available_ips)

-- How `get_address` ends: it raises and changes nothing, every address being taken, or returns one that
-- was free, leased now as the only change, and the manager is valid.
abbrev pub Gets : IpLeaseManager → Result ℕ × IpLeaseManager → Type 0
Gets m (ok a, t) =
    (lookup a m.ip_lease_map ≡ some false)
    × ((b : ℕ)
        → lookup b t.ip_lease_map ≡ ite (ℕ_discrete a b) (some true) (lookup b m.ip_lease_map))
    × IsValid t
Gets m (raise e, t) =
    (e ≡ ips_exhausted) × (t ≡ m) × ((a : ℕ) → is_free (lookup a m.ip_lease_map) ≡ false)
Gets m (Result.pending, t) = ⊥

free-eq : (o : Option Bool) → is_free o ≡ true → o ≡ some false
free-eq o h = ground arith

pub lease_free :
    (a : ℕ) (m : IpLeaseManager)
    → lookup a m.ip_lease_map ≡ some false
    → lease_address a m ≡ (
      ok a,
      record {
        ip_lease_map = insert a true m.ip_lease_map;
        available_ips = discard a m.available_ips;
      },
    )
unfolding lease_address
lease_free a m h = rw h

pub get_address_empty :
    (choose : Choice) (m : IpLeaseManager)
    → m.available_ips ≡ []
    → get_address choose m ≡ (raise ips_exhausted, m)
unfolding get_address
get_address_empty choose m e = ground arith

pub get_address_some :
    (choose : Choice) (m : IpLeaseManager) (x : ℕ) (xs : List ℕ)
    → m.available_ips ≡ x ∷ xs
    → get_address choose m
      ≡ lease_address
          (choose x xs)
          (record m { available_ips = discard (choose x xs) m.available_ips })
unfolding get_address
get_address_some choose m x xs e = ground arith

module _ (choose : Choice) (picks : Picks choose) where
  pub chosen_free :
      (m : IpLeaseManager) (x : ℕ) (xs : List ℕ)
      → IsValid m
      → m.available_ips ≡ x ∷ xs
      → lookup (choose x xs) m.ip_lease_map ≡ some false
  chosen_free m x xs v e =
      free-eq _ (sym (v (choose x xs)) ∙ ap (contains (choose x xs)) e ∙ picks x xs)

  -- On a valid manager, and with a choice that picks an element, `get_address` either finds every
  -- address taken, raises IpsExhausted and changes nothing, or returns an address that was free,
  -- which is then leased, as the only change, and the manager stays valid.
  pub get_address-Gets : (m : IpLeaseManager) → IsValid m → Gets m (get_address choose m)
  get_address-Gets m v = elim (List-cases m.available_ips) [
    | inl e ↦ rw (get_address_empty choose m e) (refl, refl, λ a. sym (v a) ∙ ap (contains a) e)
    | inr (x, xs, e) ↦
        let a = choose x xs in
        let free = chosen_free m x xs v e in
        rw
          (
            get_address_some choose m x xs e,
            lease_free a (record m { available_ips = discard a m.available_ips }) free,
          )
          (
            free,
            λ b. lookup-insert b a true m.ip_lease_map,
            λ b. ground (
              arith,
              v b,
              lookup-insert b a true m.ip_lease_map,
              contains-discard b a (discard a m.available_ips),
              contains-discard b a m.available_ips,
            ),
          )
  ]

released_again :
    (a b : ℕ) (t : IpLeaseManager) (old : Map ℕ Bool)
    → lookup a old ≡ some false
    → t.ip_lease_map ≡ insert a true old
    → (lease_address a t ≡ (raise ip_lease_exists, t))
      × ((release_address a t).0 ≡ ok a)
      × (lookup b (release_address a t).1.ip_lease_map ≡ lookup b old)
unfolding lease_address release_address
released_again a b t old free e = ground (
  arith,
  lookup-insert a a true old,
  lookup-insert b a true old,
  lookup-insert b a false t.ip_lease_map,
)

lease-inversion :
    (a : ℕ) (m t : IpLeaseManager)
    → lease_address a m ≡ (ok a, t)
    → (lookup a m.ip_lease_map ≡ some false) × (t.ip_lease_map ≡ insert a true m.ip_lease_map)
unfolding lease_address
lease-inversion a m t h = ground arith

-- After an address is leased, leasing it again raises IpLeaseExists and changes nothing, and releasing
-- it succeeds and makes the entry of every address what it was before the lease.
pub release-lease :
    (a b : ℕ) (m t : IpLeaseManager)
    → lease_address a m ≡ (ok a, t)
    → (lease_address a t ≡ (raise ip_lease_exists, t))
      × ((release_address a t).0 ≡ ok a)
      × (lookup b (release_address a t).1.ip_lease_map ≡ lookup b m.ip_lease_map)
release-lease a b m t h =
    let (free, now) = lease-inversion a m t h in released_again a b t m.ip_lease_map free now
