-- ===== src/Ganglion/Multicast/Reactions.antt =====
-- src/plexo/ganglion/plexo_multicast.py: what the ganglion does with each message of the protocol,
-- and with the clock. A handler runs to its end before the next event.
pub mod Acceptor
pub mod Peers
pub mod Nameless
use pyplexo.Base.{
  ℕ, suc, ◌+◌, ◌*◌, String, Bool, true, false, not, Option, none, some, List, [], ◌∷◌, ◌++◌, lookup,
  insert, erase, Map, ℕ_key, string_key, bytes_key, ballot_key, if◌then◌else◌, ◌==◌, ltb, leb,
  length,
}
use pyplexo.Exceptions.{
  Action, Result, pure, throw, throw_if, gets, modify, or_throw, ◌>>=◌, ◌>>◌,
  proposal_promise_not_made, proposal_not_latest, value_error,
}
use pyplexo.Neuron.{Neuron}
use pyplexo.Schema.{
  Bytes, Value, PlexoApproval, PlexoHeartbeat, PlexoPreparation, PlexoPromise, PlexoProposal,
  PlexoRejection,
}
use pyplexo.Timer
use pyplexo.Timer.{Timer}
use pyplexo.Ganglion.External
use pyplexo.Ganglion.Multicast.Addresses.{create_or_update_synapse_with_address}
use pyplexo.Ganglion.Multicast.Ballot.{
  of_preparation, of_proposal, proposal_is_newer, proposal_is_equal,
}
use pyplexo.Ganglion.Multicast.State.{
  Multicast, Ganglion, Env, asks, change, proposal_neuron, rejection_neuron, approval_neuron,
}
use pyplexo.Ganglion.Multicast.Transport.{transmit, heartbeat_loop_round}
unfoldable pub use pyplexo.Ganglion.Multicast.Replies.{
  promise_for, supersedes, known_ip, promised, know, cancel_timer, or_empty, or_zero, approval_key,
  approval_of,
}

-- `_heartbeat_reaction`, at the time `now` of the timer
unfoldable pub heartbeat_reaction : PlexoHeartbeat → ℕ → Action Ganglion (Unit {0})
heartbeat_reaction h now =
    change (λ m. record m { heartbeats = insert h.instance_id now m.heartbeats })

-- `ilen(filter(…, self._heartbeats.values()))`: `current_time - heartbeat_time <= interval`
unfoldable pub recent : ℕ → ℕ → Map ℕ ℕ → ℕ
recent now interval [] = 0
recent now interval (e ∷ m) = (if leb now (e.1 + interval) then 1 else 0) + recent now interval m

-- One round of `_num_peers_loop`.
unfoldable pub num_peers_loop : ℕ → Action Ganglion (Unit {0})
unfolding recent
num_peers_loop now =
    change (λ m. record m { num_peers = recent now m.heartbeat_interval_seconds m.heartbeats })

-- `_promise_reaction`
unfoldable pub promise_reaction : PlexoPromise → Action Ganglion (Unit {0})
unfolding cancel_timer
promise_reaction p = do
  me ← asks (λ m. m.instance_id)
  if not (p.instance_id == me) then pure tt else do
    current ← asks (λ m. or_empty (lookup p.type_name m.preparation_promises))
    let promises = current ++ p ∷ []
    change (λ m. record m {
      preparation_promises = insert p.type_name promises m.preparation_promises;
    })
    peers ← asks (λ m. m.num_peers)
    if leb peers (length promises)
        then change
            (λ m. record m { preparation_timers = cancel_timer p.type_name m.preparation_timers })
        else pure tt

-- `_rejection_reaction`
unfoldable pub rejection_reaction : PlexoRejection → Action Ganglion (Unit {0})
unfolding cancel_timer
rejection_reaction r = do
  me ← asks (λ m. m.instance_id)
  if not (r.instance_id == me) then pure tt else do
    current ← asks (λ m. or_zero (lookup r.type_name m.preparation_rejections))
    change (λ m. record m {
      preparation_rejections = insert r.type_name (current + 1) m.preparation_rejections;
    })
    peers ← asks (λ m. m.num_peers)
    if ltb peers (2 * (current + 1))
        then change
            (λ m. record m { preparation_timers = cancel_timer r.type_name m.preparation_timers })
        else pure tt

-- What reaches the ganglion: a message on one of its reserved groups, or a tick of the loop that
-- counts peers.
pub data Event : Type 0 where
  on_heartbeat : PlexoHeartbeat → ℕ → Event
  on_preparation : PlexoPreparation → Event
  on_promise : PlexoPromise → Event
  on_rejection : PlexoRejection → Event
  on_proposal : PlexoProposal → Event
  on_approval : PlexoApproval → Event
  on_peers_tick : ℕ → Event
  on_heartbeat_tick : Event

module _ (env : Env) where
  -- The ballot is promised: it becomes the known proposal, with the known value.
  unfoldable pub make_promise : PlexoPreparation → Option PlexoProposal → Action Ganglion (Unit {0})
  unfolding promise_for
  make_promise p current = do
    change (know (promised p current))
    transmit env (Value.promise (promise_for p current)) (proposal_neuron env) none

  unfoldable pub send_rejection : PlexoPreparation → Action Ganglion (Unit {0})
  send_rejection p =
      transmit env
        (Value.rejection (record {
          instance_id = p.instance_id;
          proposal_id = p.proposal_id;
          type_name = p.type_name;
        }))
        (rejection_neuron env) none

  -- `_preparation_reaction`. The promise goes out by `proposal_neuron`, as the source has it.
  unfoldable pub preparation_reaction : PlexoPreparation → Action Ganglion (Unit {0})
  unfolding supersedes
  preparation_reaction p = do
    me ← asks (λ m. m.instance_id)
    if p.instance_id == me then pure tt else do
      current ← asks (λ m. lookup p.type_name m.proposals)
      if supersedes current p then make_promise p current else send_rejection p

  -- `name_bytes.decode("UTF-8")`; a failure is a `UnicodeDecodeError`, which is a `ValueError`
  name_of : Bytes → Action Ganglion String
  name_of b = or_throw (env.net.utf8.decode b) value_error

  -- `ipaddress.ip_address(multicast_ip)`; `None` and bytes of a wrong length are a `ValueError`
  unfoldable pub address_of : Option Bytes → Action Ganglion ℕ
  address_of none = throw value_error
  address_of (some b) = or_throw (env.net.ip_address b) value_error

  -- The `else` of `_approval_reaction`: commit the value that the majority approved.
  unfoldable pub commit : PlexoApproval → Action Ganglion (Unit {0})
  unfolding name_of address_of External.get_neuron_by_name
  commit a = do
    name ← name_of a.type_name
    n ← External.get_neuron_by_name name
    address ← address_of a.multicast_ip
    _ ← create_or_update_synapse_with_address env n name address
    change (λ m. record m { proposal_approvals = erase (approval_key a) m.proposal_approvals })

  -- What follows the count of an approval: nothing, without a majority.
  unfoldable pub after_approval :
      PlexoApproval → (approvals peers me : ℕ) → Action Ganglion (Unit {0})
  unfolding cancel_timer
  after_approval a approvals peers me =
      if not (ltb peers (2 * approvals))
      then pure tt
      else if a.instance_id == me
      then change (λ m. record m { proposal_timers = cancel_timer a.type_name m.proposal_timers })
      else commit a

  -- `_approval_reaction`
  unfoldable pub approval_reaction : PlexoApproval → Action Ganglion (Unit {0})
  unfolding after_approval
  approval_reaction a = do
    current ← asks (λ m. or_zero (lookup (approval_key a) m.proposal_approvals))
    change (λ m. record m {
      proposal_approvals = insert (approval_key a) (current + 1) m.proposal_approvals;
    })
    peers ← asks (λ m. m.num_peers)
    me ← asks (λ m. m.instance_id)
    after_approval a (current + 1) peers me

  -- The approval goes to the network, and is counted here.
  unfoldable pub announce : PlexoProposal → Action Ganglion (Unit {0})
  unfolding approval_of
  announce p = do
    transmit env (Value.approval (approval_of p)) (approval_neuron env) none
    approval_reaction (approval_of p)

  -- The proposal is accepted: it becomes the known one, and is approved.
  unfoldable pub accept : PlexoProposal → Action Ganglion (Unit {0})
  accept p = do change (know p); announce p

  -- `_proposal_reaction`
  unfoldable pub proposal_reaction : PlexoProposal → Action Ganglion (Unit {0})
  proposal_reaction p = do
    c ← or_throw (← asks (λ m. lookup p.type_name m.proposals)) proposal_promise_not_made
    throw_if (not (proposal_is_equal (of_proposal c) (of_proposal p))) proposal_not_latest
    accept p

  unfoldable pub react_to : Event → Action Ganglion (Unit {0})
  react_to (on_heartbeat h now) = heartbeat_reaction h now
  react_to (on_preparation p) = preparation_reaction p
  react_to (on_promise p) = promise_reaction p
  react_to (on_rejection r) = rejection_reaction r
  react_to (on_proposal p) = proposal_reaction p
  react_to (on_approval a) = approval_reaction a
  react_to (on_peers_tick now) = num_peers_loop now
  react_to on_heartbeat_tick = heartbeat_loop_round env

  -- The receiving loops log an exception of a handler and go on.
  unfoldable pub run_events : List Event → Ganglion → Ganglion
  run_events [] s = s
  run_events (e ∷ es) s = run_events es (react_to e s).1
