-- ===== src/IpLease/Exhaust.antt =====
-- How many addresses a manager has to give.
use pyplexo.Base.{
  ℕ, zero, suc, ◌+◌, ◌≡◌, ◌≤◌, ◌<◌, refl, ap, ◌∙◌, true, false, some, List, [], ◌∷◌, contains,
  IsDistinct, lookup, insert, discard, length, ite, ℕ_key, ℕ_discrete, arith, lookup-insert,
  contains-discard, List-cases, inl, inr,
}
use pyplexo.Exceptions.{ok, raise, Action, pure, ◌>>=◌, ips_exhausted}
use pyplexo.IpLease.{IpLeaseManager, Choice, get_address}
use pyplexo.IpLease.Valid.{
  IsValid, Picks, get_address_empty, get_address_some, lease_free, chosen_free,
}

discard-absent : (a : ℕ) (xs : List ℕ) → contains a xs ≡ false → discard a xs ≡ xs
discard-absent a [] h = refl
discard-absent a (x ∷ xs) h = ground (arith, discard-absent a xs)

length-discard :
    (a : ℕ) (xs : List ℕ)
    → IsDistinct xs
    → contains a xs ≡ true
    → suc (length (discard a xs)) ≡ length xs
length-discard a [] d h = absurd (ground arith)
length-discard a (x ∷ xs) (apart, d) h =
    ground (arith, length-discard a xs d, discard-absent a xs, apart)

discard-IsDistinct : (a : ℕ) (xs : List ℕ) → IsDistinct xs → IsDistinct (discard a xs)
discard-IsDistinct a [] d = tt
discard-IsDistinct a (x ∷ xs) (apart, d) =
    ground (arith, discard-IsDistinct a xs d, contains-discard x a xs, apart)

-- `n` calls of `get_address`
pub get_addresses : Choice → ℕ → Action IpLeaseManager (List ℕ)
get_addresses choose zero = pure []
get_addresses choose (suc n) = do
  a ← get_address choose
  rest ← get_addresses choose n
  pure (a ∷ rest)

module _ (choose : Choice) (picks : Picks choose) where
  -- What one call leaves, where an address is available.
  record Gave (m : IpLeaseManager) : Type 0 where
    address : ℕ
    state : IpLeaseManager
    gives : get_address choose m ≡ (ok address, state)
    free : lookup address m.ip_lease_map ≡ some false
    entries :
        (b : ℕ)
        → lookup b state.ip_lease_map
          ≡ ite (ℕ_discrete address b) (some true) (lookup b m.ip_lease_map)
    valid : IsValid state
    distinct : IsDistinct state.available_ips
    fewer : suc (length state.available_ips) ≡ length m.available_ips

  give :
      (m : IpLeaseManager) (x : ℕ) (xs : List ℕ)
      → IsValid m
      → IsDistinct m.available_ips
      → m.available_ips ≡ x ∷ xs
      → Gave m
  give m x xs v d e =
      let a = choose x xs in
      let once = discard a m.available_ips in
      let free = chosen_free choose picks m x xs v e in
      let in_it : contains a m.available_ips ≡ true = ap (contains a) e ∙ picks x xs in
      let gone : contains a once ≡ false = ground (arith, contains-discard a a m.available_ips) in
      record {
        address = a;
        state = record {
          ip_lease_map = insert a true m.ip_lease_map;
          available_ips = discard a once;
        };
        gives =
            get_address_some choose m x xs e
            ∙ lease_free a (record m { available_ips = once }) free;
        free = free;
        entries = λ b. lookup-insert b a true m.ip_lease_map;
        valid = λ b. ground (
          arith,
          v b,
          lookup-insert b a true m.ip_lease_map,
          contains-discard b a once,
          contains-discard b a m.available_ips,
        );
        distinct = discard-IsDistinct a once (discard-IsDistinct a m.available_ips d);
        fewer =
            ap (λ l. suc (length l)) (discard-absent a once gone)
            ∙ length-discard a m.available_ips d in_it;
      }

  -- What `n` calls come to.
  pub record GaveAll (n : ℕ) (m : IpLeaseManager) : Type 0 where
    pub addresses : List ℕ
    pub state : IpLeaseManager
    pub gives : get_addresses choose n m ≡ (ok addresses, state)
    pub as_many : length addresses ≡ n
    pub distinct : IsDistinct addresses
    pub free : (a : ℕ) → contains a addresses ≡ true → lookup a m.ip_lease_map ≡ some false
    pub left : length state.available_ips + n ≡ length m.available_ips

  more : (n : ℕ) (m : IpLeaseManager) (g : Gave m) → GaveAll n g.state → GaveAll (suc n) m
  unfolding get_addresses
  more n m g r = record {
    addresses = g.address ∷ r.addresses;
    state = r.state;
    gives = ground (arith, g.gives, r.gives);
    as_many = ap suc r.as_many;
    distinct = (ground (arith, r.free g.address, g.entries g.address), r.distinct);
    free = λ a h. ground (arith, g.free, r.free a, g.entries a);
    left = omega (arith, g.fewer, r.left);
  }

  -- On a valid manager whose available addresses are distinct, `n` calls of `get_address` succeed if
  -- there are `n` available: they give `n` distinct addresses that were free, and leave so many fewer.
  -- If there are fewer than `n`, one of the calls raises IpsExhausted.
  pub get_addresses-length :
      (n : ℕ) (m : IpLeaseManager)
      → IsValid m
      → IsDistinct m.available_ips
      → (n ≤ length m.available_ips → GaveAll n m)
        × (length m.available_ips < n → (get_addresses choose n m).0 ≡ raise ips_exhausted)
  unfolding get_addresses
  get_addresses-length zero m v d = (
    λ h. record {
      addresses = [];
      state = m;
      gives = refl;
      as_many = refl;
      distinct = tt;
      free = λ a k. absurd (ground arith);
      left = omega arith;
    },
    λ h. absurd (omega arith),
  )
  get_addresses-length (suc n) m v d = elim (List-cases m.available_ips) [
    | inl e ↦ (
      λ h. absurd (ground (arith, ap length e)),
      λ h. ground (arith, get_address_empty choose m e),
    )
    | inr (x, xs, e) ↦
        let g = give m x xs v d e in
        let (enough, short) = get_addresses-length n g.state g.valid g.distinct in
        (
          λ h. more n m g (enough (omega (arith, g.fewer, h))),
          λ h. ground (arith, g.gives, short (omega (arith, g.fewer, h))),
        )
  ]
