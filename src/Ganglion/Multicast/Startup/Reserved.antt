-- ===== src/Ganglion/Multicast/Startup/Reserved.antt =====
-- What `__init__` reserves.
use pyplexo.Base.{
  ℕ, zero, suc, ◌≡◌, refl, sym, subst, String, true, false, Option, none, some, List, [], ◌∷◌, take,
  contains, IsDistinct, lookup, ite, ℕ_key, string_key, ℕ_discrete, if◌then◌else◌, arith,
  lookup-insert,
}
use pyplexo.Codec.{CodecClass}
use pyplexo.Exceptions.{Result, ok}
use pyplexo.IpLease
use pyplexo.IpLease.{IpLeaseManager}
use pyplexo.IpLease.Valid.{IsValid, init-IsValid, lease_address-IsValid, lease_free}
use pyplexo.Ganglion.External.State
use pyplexo.Ganglion.Multicast.Owners.{Owned, leases}
use pyplexo.Ganglion.Multicast.Startup.{lease_all, init}

contains-take : (a n : ℕ) (xs : List ℕ) → contains a (take n xs) ≡ true → contains a xs ≡ true
contains-take a zero xs h = absurd (ground arith)
contains-take a (suc n) [] h = h
contains-take a (suc n) (x ∷ xs) h = ground (arith, contains-take a n xs)

take-IsDistinct : (n : ℕ) (xs : List ℕ) → IsDistinct xs → IsDistinct (take n xs)
take-IsDistinct zero xs h = tt
take-IsDistinct (suc n) [] h = tt
take-IsDistinct (suc n) (x ∷ xs) (apart, h) =
    (ground (arith, contains-take x n xs), take-IsDistinct n xs h)

-- What leasing all of a list leaves.
record Leased (rs : List ℕ) (m : IpLeaseManager) (r : Result (Unit {0}) × IpLeaseManager)
    : Type 0 where
  succeeds : r.0 ≡ ok tt
  valid : IsValid r.1
  entries :
      (b : ℕ)
      → lookup b r.1.ip_lease_map ≡ (if contains b rs then some true else lookup b m.ip_lease_map)

lease_all_step :
    (a : ℕ) (rest : List ℕ) (m : IpLeaseManager)
    → lookup a m.ip_lease_map ≡ some false
    → lease_all (a ∷ rest) m ≡ lease_all rest (IpLease.lease_address a m).1
unfolding lease_all
lease_all_step a rest m h = ground (arith, lease_free a m h)

leased-entry :
    (a b : ℕ) (m : IpLeaseManager)
    → lookup a m.ip_lease_map ≡ some false
    → lookup b (IpLease.lease_address a m).1.ip_lease_map
      ≡ ite (ℕ_discrete a b) (some true) (lookup b m.ip_lease_map)
leased-entry a b m h = rw (lease_free a m h) (lookup-insert b a true m.ip_lease_map)

lease_all-Leased :
    (rs : List ℕ) (m : IpLeaseManager)
    → IsDistinct rs
    → IsValid m
    → ((a : ℕ) → contains a rs ≡ true → lookup a m.ip_lease_map ≡ some false)
    → Leased rs m (lease_all rs m)
unfolding lease_all
lease_all-Leased [] m d v free = record { succeeds = refl; valid = v; entries = λ b. refl }
lease_all-Leased (a ∷ rest) m (apart, d) v free =
    let here = free a (ground arith) in
    let t = (IpLease.lease_address a m).1 in
    let l =
      lease_all-Leased rest t d (lease_address-IsValid a m v)
        (λ b h. ground (arith, free b, leased-entry a b m here)) in
    subst (Leased (a ∷ rest) m) (sym (lease_all_step a rest m here)) (record {
      succeeds = l.succeeds;
      valid = l.valid;
      entries = λ b. ground (arith, l.entries b, leased-entry a b m here);
    })

-- A new ganglion over the distinct addresses of a network is made without an exception; its lease
-- manager is valid and holds just these addresses, of which the first 32 are leased and the others
-- free; and it is owned: the address of a synapse leads back to it, two names have two synapses, whose
-- references are older than the next one, and an address that leads to a synapse is leased.
pub init-Owned :
    (interface : Option String) (cidr : List ℕ) (port heartbeat_interval proposal_timeout me : ℕ)
    (relevant ignored : List String) (allowed : List CodecClass)
    → IsDistinct cidr
    → let r =
        init interface cidr port heartbeat_interval proposal_timeout me relevant ignored allowed in
      (r.0 ≡ ok tt)
      × Owned r.1
      × IsValid r.1.extra.ip_lease_manager
      × ((a : ℕ)
          → lookup a (leases r.1) ≡ (
              if contains a (take 32 cidr)
              then some true
              else if contains a cidr
              then some false
              else none))
unfolding init State.init
init-Owned interface cidr port heartbeat_interval proposal_timeout me relevant ignored allowed d =
    let (valid, entries) = init-IsValid cidr in
    let l =
      lease_all-Leased (take 32 cidr) (IpLease.init cidr) (take-IsDistinct 32 cidr d) valid
        (λ a h. ground (arith, entries a, contains-take a 32 cidr)) in
    (
      l.succeeds,
      record {
        owns = λ key ref o h k. absurd (ground arith);
        distinct = λ k j ref h e. absurd (ground arith);
        older = λ key ref h. absurd (ground arith);
        leased = λ a ref h. absurd (ground arith);
      },
      l.valid,
      λ a. ground (arith, l.entries a, entries a),
    )
