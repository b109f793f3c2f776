-- ===== src/Tests/Groups.antt =====
-- Runs of the theorems on multicast groups.
use pyplexo.Base.{
  ℕ, ◌≢◌, refl, some, ℕ, ℕ_key, ◌≡◌, take, contains, lookup, if◌then◌else◌, [], ◌∷◌, none, true,
  false, string_key, ℕ_discrete, string_discrete, arith, different,
}
use pyplexo.IpLease
use pyplexo.Synapse.Epgm
use pyplexo.Synapse.Epgm.{Epgm}
use pyplexo.Ganglion.External.State.{Synapse}
use pyplexo.Ganglion.Multicast.Addresses.{
  create_or_update_synapse_with_address, create_synapse_with_address, try_lease_address, install,
  put_synapse,
}
use pyplexo.Ganglion.Multicast.Owners.{Owned, leases}
use pyplexo.Ganglion.Multicast.Owners.Move.{create_or_update-Owned, groups_apart}
use pyplexo.Ganglion.Multicast.Startup.{init}
use pyplexo.Ganglion.Multicast.Startup.Reserved.{init-Owned}
use pyplexo.Ganglion.Multicast.State.{Ganglion}
use pyplexo.IpLease.Valid.{IsValid}
use pyplexo.Exceptions.{ok}
use pyplexo.Tests.Setting.{env, idle, note}

idle-Owned : Owned idle
idle-Owned = record {
  owns = λ key ref o h k. ground arith;
  distinct = λ k j ref h e. ground arith;
  older = λ key ref h. ground arith;
  leased = λ a ref h. ground arith;
}

-- The ganglion with one synapse.
abbrev with_one : Ganglion
with_one = (create_or_update_synapse_with_address env note "one" 40 idle).1

create_or_update-Owned_example : Owned with_one
create_or_update-Owned_example =
    create_or_update-Owned env (λ x. refl) note "one" 40 idle idle-Owned

abbrev made : ℕ → Synapse Epgm
made a = (Epgm.init env.net note a (some "eth0") 5560).1

groups_apart_example : (made 40).channel.multicast_address ≢ (made 41).channel.multicast_address
unfolding create_or_update_synapse_with_address create_synapse_with_address try_lease_address
    install put_synapse IpLease.lease_address Epgm.init ℕ_discrete string_discrete
groups_apart_example =
    groups_apart env (λ x. refl) note "two" 41 with_one "one" "two" 0 1 (made 40) (made 41)
      (create_or_update-Owned env (λ x. refl) note "one" 40 idle idle-Owned)
      (different "one" "two" refl) refl refl refl refl

init-Owned_example :
    let r = init none (40 ∷ 41 ∷ []) 5560 30 5 11 [] [] [] in
    (r.0 ≡ ok tt)
    × Owned r.1
    × IsValid r.1.extra.ip_lease_manager
    × ((a : ℕ)
        → lookup a (leases r.1) ≡ (
            if contains a (take 32 (40 ∷ 41 ∷ []))
            then some true
            else if contains a (40 ∷ 41 ∷ [])
            then some false
            else none))
unfolding ℕ_discrete
init-Owned_example = init-Owned none (40 ∷ 41 ∷ []) 5560 30 5 11 [] [] [] (refl, (refl, tt))
