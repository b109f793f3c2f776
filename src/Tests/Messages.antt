-- ===== src/Tests/Messages.antt =====
-- Runs of the protocol's theorems.
use pyplexo.Base.{
  ℕ, ◌≡◌, ◌⊎◌, ◌↔◌, ◌≤◌, ◌*◌, refl, true, false, none, some, [], ◌∷◌, lookup, bytes_key, ballot_key,
  bytes_discrete, arith, ℕ_discrete, string_discrete, ballot_key_discrete,
}
use pyplexo.Exceptions.{ok, pending}
use pyplexo.Schema.{Bytes, PlexoPromise, PlexoProposal}
use pyplexo.Synapse.Epgm
use pyplexo.Ganglion.External
use pyplexo.Ganglion.Multicast.Transport.{transmit}
use pyplexo.Ganglion.Multicast.Addresses.{
  ReservedMulticastAddress, create_synapse_with_reserved_address,
}
use pyplexo.Ganglion.Multicast.Ballot.{
  of_preparation, of_proposal, proposal_is_newer, proposal_is_equal, reduce_newest,
}
use pyplexo.Ganglion.Multicast.Ballot.Order.{ballot_order, reduce_newest_lem, Among, NoneNewer}
use pyplexo.Ganglion.Multicast.Consensus.{
  Round, with_data, elect, choose_address, collect_promises, collect_approvals, send_proposal,
  get_address_from_consensus, send_preparation, await_promises, await_approvals, propose, conclude,
}
use pyplexo.Ganglion.Multicast.Consensus.Quorum.{
  elect_value, collected, send_proposal_displaces, consensus_approved,
}
use pyplexo.Ganglion.Multicast.Reactions.{
  on_preparation, on_proposal, on_approval, on_promise, on_heartbeat, on_peers_tick, run_events,
  react_to, preparation_reaction, promise_for, known_ip, address_of, or_zero, supersedes,
  promise_reaction, approval_reaction,
}
use pyplexo.Ganglion.Multicast.Reactions.Acceptor.{
  NotOlder, known, Takes, run_events-NotOlder, proposal_reaction-Takes, promised_as_accepted,
}
use pyplexo.Ganglion.Multicast.Reactions.Peers.{heartbeat_counts_once}
use pyplexo.Ganglion.Multicast.Startup.{startup}
use pyplexo.Ganglion.Multicast.Startup.Stuck.{startup_never_done}
use pyplexo.Ganglion.Multicast.State.{
  Ganglion, heartbeat_neuron, preparation_neuron, proposal_neuron,
}
use pyplexo.Tests.Setting.{
  env, idle, running, preparation, next_preparation, own_preparation, proposal, promise,
  newer_promise, approval, heartbeat,
}

-- A ganglion that has promised the ballot of `preparation`.
abbrev promised : Ganglion
promised = record running { extra = record running.extra { proposals = (5 ∷ [], proposal) ∷ [] } }

abbrev note_bytes : Bytes
note_bytes = 78 ∷ 111 ∷ 116 ∷ 101 ∷ []

abbrev round : Round
round = record {
  now = 99;
  during_preparation = on_promise (record promise { type_name = note_bytes }) ∷ [];
  during_proposal = on_approval (record approval { type_name = note_bytes }) ∷ [];
}

run_events-NotOlder_example : NotOlder (known (5 ∷ []) promised) (
    known
      (5 ∷ [])
      (run_events env (on_preparation next_preparation ∷ on_proposal proposal ∷ []) promised))
run_events-NotOlder_example =
    run_events-NotOlder env (on_preparation next_preparation ∷ on_proposal proposal ∷ []) (5 ∷ [])
      promised

proposal_reaction-Takes_example : Takes env proposal promised (known (5 ∷ []) promised)
proposal_reaction-Takes_example = proposal_reaction-Takes env proposal promised

promised_as_accepted_example :
    (c : PlexoProposal) × (known (5 ∷ []) (preparation_reaction env next_preparation promised).1
      ≡ some c)
    × ((promise_for next_preparation (some c)).accepted_proposal_id ≡ 101)
    × ((promise_for next_preparation (some c)).accepted_instance_id ≡ 13)
    × ((promise_for next_preparation (some c)).multicast_ip ≡ known_ip (known (5 ∷ []) promised))
unfolding supersedes bytes_discrete ℕ_discrete
promised_as_accepted_example =
    promised_as_accepted env next_preparation next_preparation promised refl refl refl

heartbeat_counts_once_example :
    ((run_events env
        (on_heartbeat heartbeat 3 ∷ on_heartbeat heartbeat 5 ∷ on_peers_tick 9 ∷ [])
        running).extra.num_peers
      ≡ (run_events env (on_heartbeat heartbeat 5 ∷ on_peers_tick 9 ∷ []) running).extra.num_peers)
    × (1
        ≤ (run_events env
            (on_heartbeat heartbeat 5 ∷ on_peers_tick 9 ∷ [])
            running).extra.num_peers)
heartbeat_counts_once_example = heartbeat_counts_once env heartbeat 3 5 9 running (ground arith)

reduce_newest_lem_example :
    Among (reduce_newest promise (newer_promise ∷ [])) (promise ∷ newer_promise ∷ [])
    × NoneNewer (reduce_newest promise (newer_promise ∷ [])) (promise ∷ newer_promise ∷ [])
reduce_newest_lem_example = reduce_newest_lem promise (newer_promise ∷ [])

elect_value_example :
    (r : PlexoPromise) × Among r (with_data (promise ∷ newer_promise ∷ []))
    × NoneNewer r (with_data (promise ∷ newer_promise ∷ []))
    × (address_of env r.multicast_ip running ≡ (ok 40, running))
    × (1 ≤ 2 * 2)
    × (2 * 0 ≤ 1)
unfolding elect choose_address with_data address_of reduce_newest
elect_value_example =
    elect_value env (promise ∷ newer_promise ∷ []) 0 running running 40 promise (newer_promise ∷ [])
      refl refl

collected_example :
    let t = (collect_promises env (5 ∷ []) running).1.extra in
    let u = (collect_approvals env proposal running).1.extra in
    (lookup (5 ∷ []) t.preparation_promises ≡ none)
    × (lookup (5 ∷ []) t.preparation_rejections ≡ none)
    × (lookup (5 ∷ [], 100, 12) u.proposal_approvals
        ≡ lookup (5 ∷ [], 100, 12) running.extra.proposal_approvals)
collected_example = collected env (5 ∷ []) proposal running

send_proposal_displaces_example :
    ¬ NotOlder
      (known (5 ∷ []) promised)
      (known (5 ∷ []) (send_proposal env own_preparation 41 promised).1)
unfolding proposal_is_newer bytes_discrete ℕ_discrete
send_proposal_displaces_example =
    send_proposal_displaces env own_preparation 41 promised proposal refl refl

consensus_approved_example :
    (get_address_from_consensus env "Note" round running).1.extra.num_peers
    ≤ 2
      * or_zero (
          lookup
            (env.net.utf8.encode "Note", 99, 11)
            (get_address_from_consensus env "Note" round running).1.extra.proposal_approvals)
unfolding get_address_from_consensus send_preparation transmit string_discrete preparation_neuron
    proposal_neuron Epgm.transmit await_promises collect_promises elect run_events react_to
    promise_reaction approval_reaction bytes_discrete ballot_key_discrete ℕ_discrete choose_address
    with_data address_of reduce_newest propose send_proposal await_approvals collect_approvals
    conclude
consensus_approved_example =
    consensus_approved env "Note" round running
      (get_address_from_consensus env "Note" round running).1 41 refl

ballot_order_example :
    (let a = of_preparation preparation in
      let b = of_preparation next_preparation in
      let c = of_proposal proposal in
      ((proposal_is_newer a b ≡ true) ⊎ ((a ≡ b) ⊎ (proposal_is_newer b a ≡ true)))
      × (proposal_is_newer a b ≡ true → proposal_is_newer b a ≡ false)
      × (proposal_is_newer a b ≡ true → proposal_is_newer b c ≡ true → proposal_is_newer a c ≡ true)
      × ((proposal_is_equal a b ≡ true) ↔ (a ≡ b)))
ballot_order_example =
    ballot_order (of_preparation preparation) (of_preparation next_preparation)
      (of_proposal proposal)

startup_never_done_example :
    ((startup env (round ∷ []) idle).1.extra.startup_done ≡ false)
    × ((ref : ℕ)
        → (create_synapse_with_reserved_address env
            (heartbeat_neuron env)
            ReservedMulticastAddress.heartbeat
            idle).0
          ≡ ok ref
        → startup env (round ∷ []) idle ≡ (
          pending,
          (create_synapse_with_reserved_address env
              (heartbeat_neuron env)
              ReservedMulticastAddress.heartbeat
              idle).1,
        ))
unfolding External.capable
startup_never_done_example = startup_never_done env (round ∷ []) idle refl refl
