-- ===== src/Ganglion/Multicast/Replies.antt =====
-- src/plexo/ganglion/plexo_multicast.py: what is answered to a message, and kept of it.
use pyplexo.Base.{
  ℕ, Bool, true, Option, none, some, List, [], lookup, insert, Map, ℕ_key, string_key, bytes_key,
  ballot_key,
}
use pyplexo.Schema.{Bytes, PlexoApproval, PlexoPreparation, PlexoPromise, PlexoProposal}
use pyplexo.Timer
use pyplexo.Timer.{Timer}
use pyplexo.Ganglion.Multicast.Ballot.{of_preparation, of_proposal, proposal_is_newer}
use pyplexo.Ganglion.Multicast.State.{Multicast}

-- `current if current else 0` and the like, over the known proposal
unfoldable pub promise_for : PlexoPreparation → Option PlexoProposal → PlexoPromise
promise_for p none = record {
  instance_id = p.instance_id;
  proposal_id = p.proposal_id;
  type_name = p.type_name;
  accepted_instance_id = 0;
  accepted_proposal_id = 0;
  multicast_ip = none;
}
promise_for p (some c) = record {
  instance_id = p.instance_id;
  proposal_id = p.proposal_id;
  type_name = p.type_name;
  accepted_instance_id = c.instance_id;
  accepted_proposal_id = c.proposal_id;
  multicast_ip = c.multicast_ip;
}

-- `not current_proposal or proposal_is_newer(current_proposal, preparation)`
unfoldable pub supersedes : Option PlexoProposal → PlexoPreparation → Bool
unfolding proposal_is_newer
supersedes none p = true
supersedes (some c) p = proposal_is_newer (of_proposal c) (of_preparation p)

unfoldable pub known_ip : Option PlexoProposal → Option Bytes
known_ip none = none
known_ip (some c) = c.multicast_ip

-- The proposal that is known once a preparation is promised.
unfoldable pub promised : PlexoPreparation → Option PlexoProposal → PlexoProposal
unfolding known_ip
promised p c = record {
  instance_id = p.instance_id;
  proposal_id = p.proposal_id;
  type_name = p.type_name;
  multicast_ip = known_ip c;
}

-- `self._proposals.set(proposal.type_name, proposal)`
abbrev pub know : PlexoProposal → Multicast → Multicast
know p m = record m { proposals = insert p.type_name p m.proposals }

-- `self._preparation_timers[name_bytes].cancel()`, where a missing timer is passed over
unfoldable pub cancel_timer : Bytes → Map Bytes Timer → Map Bytes Timer
unfolding Timer.cancel
cancel_timer key m = elim (lookup key m) [ none ↦ m | some t ↦ insert key (Timer.cancel t) m ]

abbrev pub or_empty : {A : Type 0} → Option (List A) → List A
or_empty none = []
or_empty (some l) = l

abbrev pub or_zero : Option ℕ → ℕ
or_zero none = 0
or_zero (some n) = n

abbrev pub approval_key : PlexoApproval → Bytes × ℕ × ℕ
approval_key a = (a.type_name, a.proposal_id, a.instance_id)

unfoldable pub approval_of : PlexoProposal → PlexoApproval
approval_of p = record {
  instance_id = p.instance_id;
  proposal_id = p.proposal_id;
  type_name = p.type_name;
  multicast_ip = p.multicast_ip;
}
