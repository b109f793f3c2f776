-- ===== src/Ganglion/Multicast/Ballot.antt =====
-- src/plexo/ganglion/plexo_multicast.py, the functions at its top: ballots and their order.
pub mod Order
use pyplexo.Base.{ℕ, Bool, ◌&&◌, ◌||◌, ltb, ◌==◌, if◌then◌else◌, List, [], ◌∷◌}
use pyplexo.Schema.{PlexoPreparation, PlexoProposal, PlexoPromise}

-- What the comparisons read of a preparation, a proposal or a promise.
pub record Ballot : Type 0 where
  pub proposal_id : ℕ
  pub instance_id : ℕ

abbrev pub of_preparation : PlexoPreparation → Ballot
of_preparation p = record { proposal_id = p.proposal_id; instance_id = p.instance_id }

abbrev pub of_proposal : PlexoProposal → Ballot
of_proposal p = record { proposal_id = p.proposal_id; instance_id = p.instance_id }

abbrev pub of_accepted : PlexoPromise → Ballot
of_accepted p = record {
  proposal_id = p.accepted_proposal_id;
  instance_id = p.accepted_instance_id;
}

-- `(a, b) < (c, d)` of two tuples
unfoldable pub proposal_is_newer : Ballot → Ballot → Bool
proposal_is_newer old new =
    ltb old.proposal_id new.proposal_id
    || (old.proposal_id == new.proposal_id && ltb old.instance_id new.instance_id)

unfoldable pub proposal_is_equal : Ballot → Ballot → Bool
proposal_is_equal old new = old.proposal_id == new.proposal_id && old.instance_id == new.instance_id

unfoldable pub newest_accepted_proposal : PlexoPromise → PlexoPromise → PlexoPromise
unfolding proposal_is_newer
newest_accepted_proposal p1 p2 =
    if proposal_is_newer (of_accepted p2) (of_accepted p1) then p1 else p2

-- `reduce(newest_accepted_proposal, promises)` of a sequence that is not empty
unfoldable pub reduce_newest : PlexoPromise → List PlexoPromise → PlexoPromise
unfolding newest_accepted_proposal
reduce_newest p [] = p
reduce_newest p (q ∷ qs) = reduce_newest (newest_accepted_proposal p q) qs
