-- ===== src/Ganglion/Multicast/Reactions/Acceptor.antt =====
-- The acceptor's side of the protocol: what is promised, accepted and refused.
use pyplexo.Base.{
  ℕ, ◌≡◌, ap, ◌∙◌, sym, subst, inl, inr, Bool-cases, ◌==◌, refl, true, false, Option, none, some,
  List, [], ◌∷◌, lookup, ite, arith, bytes_discrete, bytes_key, lookup-insert, if◌then◌else◌,
}
use pyplexo.Exceptions.{raise, proposal_promise_not_made, proposal_not_latest}
use pyplexo.Exceptions.Keeps.{Keeps, Keeps->>=}
use pyplexo.Neuron.{Neuron}
use pyplexo.Schema.{Bytes, Value, PlexoProposal, PlexoPreparation, PlexoApproval}
use pyplexo.Ganglion.Multicast.Addresses.Steady.{protocol, create_or_update-steady}
use pyplexo.Ganglion.Multicast.Ballot.{
  of_proposal, of_preparation, proposal_is_newer, proposal_is_equal,
}
use pyplexo.Ganglion.Multicast.Ballot.Order.{newer_irrefl, newer_asymm, not_older_trans}
use pyplexo.Ganglion.Multicast.Reactions.{
  Event, on_heartbeat, on_preparation, on_promise, on_rejection, on_proposal, on_approval,
  on_peers_tick, on_heartbeat_tick, react_to, run_events, commit, after_approval, approval_of,
  supersedes, make_promise, send_rejection, accept, promised, know, known_ip, announce, promise_for,
  approval_reaction, preparation_reaction, proposal_reaction, promise_reaction, rejection_reaction,
  heartbeat_reaction, num_peers_loop,
}
use pyplexo.Ganglion.Multicast.State.{Ganglion, Env, proposal_neuron, approval_neuron}
use pyplexo.Ganglion.Multicast.Transport.{transmit, transmit-keeps, heartbeat_loop_round-keeps}

-- The second known proposal is not older than the first.
abbrev pub NotOlder : Option PlexoProposal → Option PlexoProposal → Type 0
NotOlder none d = Unit
NotOlder (some c) none = ⊥
NotOlder (some c) (some d) = proposal_is_newer (of_proposal d) (of_proposal c) ≡ false

abbrev pub known : Bytes → Ganglion → Option PlexoProposal
known t s = lookup t s.extra.proposals

NotOlder-refl : (c : Option PlexoProposal) → NotOlder c c
NotOlder-refl none = tt
NotOlder-refl (some c) = newer_irrefl (of_proposal c)

NotOlder-trans : (a b c : Option PlexoProposal) → NotOlder a b → NotOlder b c → NotOlder a c
NotOlder-trans none b c h k = tt
NotOlder-trans (some a) none c h k = absurd h
NotOlder-trans (some a) (some b) none h k = absurd k
NotOlder-trans (some a) (some b) (some c) h k =
    not_older_trans (of_proposal a) (of_proposal b) (of_proposal c) h k

supersedes-NotOlder :
    (p : PlexoPreparation) (c : Option PlexoProposal)
    → supersedes c p ≡ true
    → NotOlder c (some (promised p c))
unfolding supersedes promised
supersedes-NotOlder p none h = tt
supersedes-NotOlder p (some c) h = newer_asymm (of_proposal c) (of_preparation p) h

equal-NotOlder :
    (p : PlexoProposal) (c : Option PlexoProposal)
    → (c ≡ none → ⊥)
    → ((d : PlexoProposal) → c ≡ some d → proposal_is_equal (of_proposal d) (of_proposal p) ≡ true)
    → NotOlder c (some p)
unfolding proposal_is_equal proposal_is_newer
equal-NotOlder p none h k = tt
equal-NotOlder p (some c) h k = ground (arith, k c refl)

module _ (env : Env) where
  commit-steady : (a : PlexoApproval) → Keeps protocol (commit env a)
  unfolding commit
  commit-steady a s = grind (arith, create_or_update-steady)

  after_approval-steady :
      (a : PlexoApproval) (approvals peers me : ℕ)
      → Keeps protocol (after_approval env a approvals peers me)
  unfolding after_approval
  after_approval-steady a approvals peers me s = ground (arith, commit-steady a s)

  pub approval-steady : (a : PlexoApproval) → Keeps protocol (approval_reaction env a)
  unfolding approval_reaction
  approval-steady a s = after_approval-steady a _ _ _ _

  pub transmit-steady :
      (v : Value) (n : Neuron) (rid : Option ℕ) → Keeps protocol (transmit env v n rid)
  transmit-steady v n rid s = ap protocol (transmit-keeps env v n rid s)

  -- The state once a proposal is known.
  abbrev knowing : PlexoProposal → Ganglion → Ganglion
  knowing p s = record s { extra = know p s.extra }

  announce-steady : (p : PlexoProposal) → Keeps protocol (announce env p)
  unfolding announce
  announce-steady p =
      Keeps->>= protocol (transmit env (Value.approval (approval_of p)) (approval_neuron env) none)
        (λ _. approval_reaction env (approval_of p))
        (transmit-steady (Value.approval (approval_of p)) (approval_neuron env) none)
        (λ _. approval-steady (approval_of p))

  promise-known :
      (p : PlexoPreparation) (c : Option PlexoProposal) (t : Bytes) (s : Ganglion)
      → known t (make_promise env p c s).1
        ≡ ite (bytes_discrete p.type_name t) (some (promised p c)) (known t s)
  unfolding make_promise promised
  promise-known p c t s =
      ap (λ x. lookup t x.proposals)
        (transmit-steady (Value.promise (promise_for p c)) (proposal_neuron env) none
          (knowing (promised p c) s))
      ∙ lookup-insert t p.type_name (promised p c) s.extra.proposals

  rejection-known :
      (p : PlexoPreparation) (t : Bytes) (s : Ganglion)
      → known t (send_rejection env p s).1 ≡ known t s
  unfolding send_rejection
  rejection-known p t s = ap (λ x. lookup t x.proposals) (transmit-steady _ _ _ s)

  accept-known :
      (p : PlexoProposal) (t : Bytes) (s : Ganglion)
      → known t (accept env p s).1 ≡ ite (bytes_discrete p.type_name t) (some p) (known t s)
  unfolding accept
  accept-known p t s =
      ap (λ x. lookup t x.proposals) (announce-steady p (knowing p s))
      ∙ lookup-insert t p.type_name p s.extra.proposals

  preparation-NotOlder :
      (p : PlexoPreparation) (t : Bytes) (s : Ganglion)
      → NotOlder (known t s) (known t (preparation_reaction env p s).1)
  unfolding preparation_reaction
  preparation-NotOlder p t s = ground (
    arith,
    NotOlder-refl (known t s),
    promise-known p (known p.type_name s) t s,
    rejection-known p t s,
    supersedes-NotOlder p (known p.type_name s),
  )

  proposal-NotOlder :
      (p : PlexoProposal) (t : Bytes) (s : Ganglion)
      → NotOlder (known t s) (known t (proposal_reaction env p s).1)
  unfolding proposal_reaction
  proposal-NotOlder p t s =
      ground (
        arith,
        NotOlder-refl (known t s),
        accept-known p t s,
        equal-NotOlder p (known p.type_name s),
      )

  -- Whatever reaches the ganglion, the ballot that is known for a type never becomes an older one.
  pub react_to-NotOlder :
      (e : Event) (t : Bytes) (s : Ganglion) → NotOlder (known t s) (known t (react_to env e s).1)
  unfolding react_to heartbeat_reaction promise_reaction rejection_reaction num_peers_loop
  react_to-NotOlder (on_heartbeat h now) t s = NotOlder-refl (known t s)
  react_to-NotOlder (on_preparation p) t s = preparation-NotOlder p t s
  react_to-NotOlder (on_promise p) t s = ground (arith, NotOlder-refl (known t s))
  react_to-NotOlder (on_rejection r) t s = ground (arith, NotOlder-refl (known t s))
  react_to-NotOlder (on_proposal p) t s = proposal-NotOlder p t s
  react_to-NotOlder (on_approval a) t s =
      subst (NotOlder (known t s)) (sym (ap (λ x. lookup t x.proposals) (approval-steady a s)))
        (NotOlder-refl (known t s))
  react_to-NotOlder (on_peers_tick now) t s = NotOlder-refl (known t s)
  react_to-NotOlder on_heartbeat_tick t s =
      subst (NotOlder (known t s)) (sym (ap (λ x. known t x) (heartbeat_loop_round-keeps env s)))
        (NotOlder-refl (known t s))

  -- Over any sequence of events, the ballot that is known for a type never becomes an older one.
  pub run_events-NotOlder :
      (es : List Event) (t : Bytes) (s : Ganglion)
      → NotOlder (known t s) (known t (run_events env es s))
  unfolding run_events
  run_events-NotOlder [] t s = NotOlder-refl (known t s)
  run_events-NotOlder (e ∷ es) t s =
      NotOlder-trans (known t s) (known t (react_to env e s).1)
        (known t (run_events env es (react_to env e s).1)) (react_to-NotOlder e t s)
        (run_events-NotOlder es t (react_to env e s).1)

  -- How a proposal is taken: without a promise, or with one for another ballot, it is refused and
  -- nothing changes; otherwise it becomes the known proposal of its type, and of no other.
  abbrev pub Takes : PlexoProposal → Ganglion → Option PlexoProposal → Type 0
  Takes p s none = proposal_reaction env p s ≡ (raise proposal_promise_not_made, s)
  Takes p s (some c) =
      if proposal_is_equal (of_proposal c) (of_proposal p)
      then ((t : Bytes)
          → known t (proposal_reaction env p s).1
            ≡ ite (bytes_discrete p.type_name t) (some p) (known t s))
      else proposal_reaction env p s ≡ (raise proposal_not_latest, s)

  takes :
      (p : PlexoProposal) (s : Ganglion) (c : Option PlexoProposal)
      → known p.type_name s ≡ c
      → Takes p s c
  unfolding proposal_reaction
  takes p s none h = ground arith
  takes p s (some c) h = elim (Bool-cases (proposal_is_equal (of_proposal c) (of_proposal p))) [
    | inl e ↦ rw e (λ t. ground (arith, accept-known p t s))
    | inr e ↦ rw e (ground arith)
  ]

  -- A proposal for whose type nothing was promised is refused with ProposalPromiseNotMade, and one
  -- whose ballot is not the known one with ProposalNotLatest, and nothing changes; otherwise it becomes
  -- the known proposal of its type, and of no other.
  pub proposal_reaction-Takes : (p : PlexoProposal) (s : Ganglion) → Takes p s (known p.type_name s)
  proposal_reaction-Takes p s = takes p s (known p.type_name s) refl

  -- Once the preparation of another process supersedes what is known and is promised, the promise for
  -- any later preparation of the type reports that preparation's ballot as the accepted one, with the
  -- value that was known before it.
  pub promised_as_accepted :
      (p q : PlexoPreparation) (s : Ganglion)
      → p.type_name ≡ q.type_name
      → (p.instance_id == s.extra.instance_id) ≡ false
      → supersedes (known p.type_name s) p ≡ true
      → (c : PlexoProposal) × (known q.type_name (preparation_reaction env p s).1 ≡ some c)
        × ((promise_for q (some c)).accepted_proposal_id ≡ p.proposal_id)
        × ((promise_for q (some c)).accepted_instance_id ≡ p.instance_id)
        × ((promise_for q (some c)).multicast_ip ≡ known_ip (known p.type_name s))
  unfolding preparation_reaction promise_for
  promised_as_accepted p q s same other newer = (
    promised p (known p.type_name s),
    ground (arith, promise-known p (known p.type_name s) q.type_name s),
    unfold promised in refl,
    unfold promised in refl,
    unfold promised in refl,
  )
