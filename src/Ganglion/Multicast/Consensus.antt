-- ===== src/Ganglion/Multicast/Consensus.antt =====
-- src/plexo/ganglion/plexo_multicast.py: the proposer's side of the protocol. While a coroutine waits
-- for a timer, the events of the round are handled.
pub mod Quorum
pub mod Unordered
pub mod Alone
pub mod Settled
pub mod Creates
use pyplexo.Base.{
  ℕ, ◌*◌, String, Bool, true, false, ◌||◌, Option, none, some, List, [], ◌∷◌, lookup, insert, erase,
  bytes_key, ballot_key, if◌then◌else◌, ltb, leb, length,
}
use pyplexo.Exceptions.{
  Action, Result, ok, raise, pending, Error, pure, throw, throw_if, modify, lift, ◌>>=◌, ◌>>◌, gets,
  preparation_rejection, consensus_not_reached, synapse_exists,
}
use pyplexo.IpLease
use pyplexo.Schema.{Bytes, Value, PlexoPreparation, PlexoPromise, PlexoProposal}
use pyplexo.Timer
use pyplexo.Ganglion.External.State.{has}
use pyplexo.Ganglion.Multicast.Addresses.{leasing}
use pyplexo.Ganglion.Multicast.Ballot.{reduce_newest}
use pyplexo.Ganglion.Multicast.Reactions.{Event, run_events, or_empty, or_zero, address_of, know}
use pyplexo.Ganglion.Multicast.State.{
  Multicast, Ganglion, Env, asks, change, preparation_neuron, proposal_neuron,
}
use pyplexo.Ganglion.Multicast.Transport.{transmit}

-- One attempt: `current_timestamp_nanoseconds()` at its start, and what is handled during the two
-- waits.
pub record Round : Type 0 where
  pub now : ℕ
  pub during_preparation : List Event
  pub during_proposal : List Event

-- `promise for promise in promises if promise.multicast_ip is not None`
unfoldable pub with_data : List PlexoPromise → List PlexoPromise
with_data [] = []
with_data (p ∷ ps) = elim p.multicast_ip [ none ↦ with_data ps | some _ ↦ p ∷ with_data ps ]

-- `Timer(proposal_timeout_seconds)`, started
abbrev pub started : ℕ → Timer.Timer
started timeout = Timer.start (Timer.init timeout)

module _ (env : Env) where
  -- `_send_preparation`
  unfoldable pub send_preparation : Bytes → ℕ → Action Ganglion PlexoPreparation
  send_preparation name_bytes now = do
    me ← asks (λ m. m.instance_id)
    let p : PlexoPreparation = record {
      instance_id = me;
      proposal_id = now;
      type_name = name_bytes;
    }
    transmit env (Value.preparation p) (preparation_neuron env) none
    pure p

  -- `_send_proposal`
  unfoldable pub send_proposal : PlexoPreparation → ℕ → Action Ganglion PlexoProposal
  send_proposal p a = do
    let proposal : PlexoProposal = record {
      instance_id = p.instance_id;
      proposal_id = p.proposal_id;
      type_name = p.type_name;
      multicast_ip = some (env.net.packed a);
    }
    change (know proposal)
    transmit env (Value.proposal proposal) (proposal_neuron env) none
    pure proposal

  -- The wait for the preparation's timer.
  unfoldable pub await_promises : Bytes → List Event → Action Ganglion (Unit {0})
  await_promises b es = do
    change (λ m. record m {
      preparation_timers = insert b (started m.proposal_timeout_seconds) m.preparation_timers;
    })
    modify (run_events env es)
    change (λ m. record m { preparation_timers = erase b m.preparation_timers })

  -- The promises and the number of rejections, which are taken out of the state.
  unfoldable pub collect_promises : Bytes → Action Ganglion (List PlexoPromise × ℕ)
  collect_promises b = do
    promises ← asks (λ m. or_empty (lookup b m.preparation_promises))
    change (λ m. record m { preparation_promises = erase b m.preparation_promises })
    rejections ← asks (λ m. or_zero (lookup b m.preparation_rejections))
    change (λ m. record m { preparation_rejections = erase b m.preparation_rejections })
    pure (promises, rejections)

  -- The value of the newest accepted proposal, or else a new address.
  unfoldable pub choose_address : List PlexoPromise → Action Ganglion ℕ
  choose_address [] = leasing (IpLease.get_address env.choose)
  choose_address (p ∷ ps) = address_of env (reduce_newest p ps).multicast_ip

  -- `len(promises) < half_num_peers or rejections_num > half_num_peers`
  unfoldable pub elect : List PlexoPromise × ℕ → Action Ganglion ℕ
  elect (promises, rejections) = do
    peers ← asks (λ m. m.num_peers)
    throw_if (ltb (2 * length promises) peers || ltb peers (2 * rejections)) preparation_rejection
    choose_address (with_data promises)

  -- The wait for the proposal's timer.
  unfoldable pub await_approvals : Bytes → List Event → Action Ganglion (Unit {0})
  await_approvals b es = do
    change (λ m. record m {
      proposal_timers = insert b (started m.proposal_timeout_seconds) m.proposal_timers;
    })
    modify (run_events env es)
    change (λ m. record m { proposal_timers = erase b m.proposal_timers })

  -- The number of approvals. Only a key that is not there is discarded.
  unfoldable pub collect_approvals : PlexoProposal → Action Ganglion ℕ
  collect_approvals p = do
    let key : Bytes × ℕ × ℕ = (p.type_name, p.proposal_id, p.instance_id)
    found ← asks (λ m. lookup key m.proposal_approvals)
    change (λ m. record m {
      proposal_approvals = elim found [
        | none ↦ erase key m.proposal_approvals
        | some _ ↦ m.proposal_approvals
      ];
    })
    pure (or_zero found)

  -- `approvals_num >= half_num_peers`
  unfoldable pub conclude : ℕ → ℕ → Action Ganglion ℕ
  conclude a approvals = do
    peers ← asks (λ m. m.num_peers)
    if leb peers (2 * approvals) then pure a else throw consensus_not_reached

  -- `_get_address_from_consensus`, once an address is elected
  unfoldable pub propose : Bytes → Round → PlexoPreparation → ℕ → Action Ganglion ℕ
  propose b r preparation a = do
    proposal ← send_proposal preparation a
    await_approvals b r.during_proposal
    approvals ← collect_approvals proposal
    conclude a approvals

  -- `_get_address_from_consensus`
  unfoldable pub get_address_from_consensus : String → Round → Action Ganglion ℕ
  get_address_from_consensus name r = do
    let b = env.net.utf8.encode name
    preparation ← send_preparation b r.now
    await_promises b r.during_preparation
    collected ← collect_promises b
    a ← elect collected
    propose b r preparation a

  -- How the loop of `acquire_address_for_type` goes on after an attempt: it tries again after a
  -- rejection or a lack of approvals, and passes any other exception on.
  unfoldable pub after_attempt : Action Ganglion ℕ → Result ℕ → Action Ganglion ℕ
  after_attempt again (ok a) = pure a
  after_attempt again (raise preparation_rejection) = again
  after_attempt again (raise consensus_not_reached) = again
  after_attempt again (raise e) = throw e
  after_attempt again pending = lift pending

  -- `acquire_address_for_type`, over the rounds that are to come; past them it is still trying.
  unfoldable pub acquire_address_for_type : String → List Round → Action Ganglion ℕ
  unfolding after_attempt
  acquire_address_for_type name [] s = (pending, s)
  acquire_address_for_type name (r ∷ rs) s =
      let again = acquire_address_for_type name rs in
      if has name s.synapses
      then (raise synapse_exists, s)
      else let (attempt, t) = get_address_from_consensus name r s in after_attempt again attempt t
