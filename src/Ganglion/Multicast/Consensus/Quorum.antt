-- ===== src/Ganglion/Multicast/Consensus/Quorum.antt =====
-- What an attempt to agree on an address rests on.
use pyplexo.Base.{
  ℕ, ◌≡◌, ◌≤◌, ◌*◌, refl, sym, ap, subst, if_pos, ◌∙◌, String, true, none, some, List, ◌∷◌, lookup,
  bytes_discrete, bytes_key, ballot_key, arith, length, lookup-insert, lookup-erase,
}
use pyplexo.Exceptions.{ok, Action, pure, ◌>>=◌, ◌>>◌}
use pyplexo.Exceptions.Keeps.{>>=-eq-ok, Keeps->>=}
use pyplexo.Schema.{Bytes, Value, PlexoPreparation, PlexoPromise, PlexoProposal}
use pyplexo.Ganglion.Multicast.Ballot.{
  reduce_newest, of_preparation, of_proposal, proposal_is_newer,
}
use pyplexo.Ganglion.Multicast.Ballot.Order.{Among, NoneNewer, reduce_newest_lem}
use pyplexo.Ganglion.Multicast.Consensus.{
  Round, with_data, send_preparation, send_proposal, await_promises, collect_promises,
  choose_address, elect, await_approvals, collect_approvals, conclude, propose,
  get_address_from_consensus,
}
use pyplexo.Ganglion.Multicast.Reactions.{address_of, or_zero, know}
use pyplexo.Ganglion.Multicast.Reactions.Acceptor.{known, NotOlder, transmit-steady}
use pyplexo.Ganglion.Multicast.Addresses.Steady.{protocol}
use pyplexo.Ganglion.Multicast.Transport.{transmit}
use pyplexo.Ganglion.Multicast.State.{Ganglion, Env, preparation_neuron, proposal_neuron}

module _ (env : Env) where
  elect-quorum :
      (ps : List PlexoPromise) (n : ℕ) (s t : Ganglion) (a : ℕ)
      → elect env (ps, n) s ≡ (ok a, t)
      → (s.extra.num_peers ≤ 2 * length ps)
        × (2 * n ≤ s.extra.num_peers)
        × (choose_address env (with_data ps) s ≡ (ok a, t))
  unfolding elect
  elect-quorum ps n s t a h = ground arith

  -- If an election succeeds and some promise has a value, there were promises of at least half of the
  -- peers and rejections of at most half, and the address is the value of a promise such that none with
  -- a value has a newer accepted ballot.
  pub elect_value :
      (ps : List PlexoPromise) (n : ℕ) (s t : Ganglion) (a : ℕ) (q : PlexoPromise)
      (qs : List PlexoPromise)
      → elect env (ps, n) s ≡ (ok a, t)
      → with_data ps ≡ q ∷ qs
      → (r : PlexoPromise) × Among r (with_data ps)
        × NoneNewer r (with_data ps)
        × (address_of env r.multicast_ip s ≡ (ok a, t))
        × (s.extra.num_peers ≤ 2 * length ps)
        × (2 * n ≤ s.extra.num_peers)
  unfolding choose_address
  elect_value ps n s t a q qs h e =
      let (enough, few, chosen) = elect-quorum ps n s t a h in
      let (among, newest) = reduce_newest_lem q qs in
      (
        reduce_newest q qs,
        subst (Among (reduce_newest q qs)) (sym e) among,
        subst (NoneNewer (reduce_newest q qs)) (sym e) newest,
        sym (ap (λ l. choose_address env l s) e) ∙ chosen,
        enough,
        few,
      )

  -- Collecting the promises and rejections for a type removes both; collecting the approvals of a
  -- proposal leaves its count as it was.
  pub collected :
      (b : Bytes) (p : PlexoProposal) (s : Ganglion)
      → let t = (collect_promises env b s).1.extra in
        let u = (collect_approvals env p s).1.extra in
        (lookup b t.preparation_promises ≡ none)
        × (lookup b t.preparation_rejections ≡ none)
        × (lookup (p.type_name, p.proposal_id, p.instance_id) u.proposal_approvals
            ≡ lookup (p.type_name, p.proposal_id, p.instance_id) s.extra.proposal_approvals)
  unfolding collect_promises collect_approvals
  collected b p s = (
    ground (arith, lookup-erase b b s.extra.preparation_promises),
    ground (arith, lookup-erase b b s.extra.preparation_rejections),
    ground (
      arith,
      lookup-erase (p.type_name, p.proposal_id, p.instance_id)
          (p.type_name, p.proposal_id, p.instance_id) s.extra.proposal_approvals,
    ),
  )

  -- The proposal that `_send_proposal` makes of a preparation and an address.
  abbrev pub proposal_for : PlexoPreparation → ℕ → PlexoProposal
  proposal_for p a = record {
    instance_id = p.instance_id;
    proposal_id = p.proposal_id;
    type_name = p.type_name;
    multicast_ip = some (env.net.packed a);
  }

  send_proposal-known :
      (p : PlexoPreparation) (a : ℕ) (s : Ganglion)
      → known p.type_name (send_proposal env p a s).1 ≡ some (proposal_for p a)
  unfolding send_proposal
  send_proposal-known p a s =
      ap (λ x. lookup p.type_name x.proposals)
        (Keeps->>= protocol
          (transmit env (Value.proposal (proposal_for p a)) (proposal_neuron env) none)
          (λ _. pure (proposal_for p a))
          (transmit-steady env (Value.proposal (proposal_for p a)) (proposal_neuron env) none)
          (λ _ u. refl) (record s { extra = know (proposal_for p a) s.extra }))
      ∙ lookup-insert p.type_name p.type_name (proposal_for p a) s.extra.proposals
      ∙ if_pos (bytes_discrete p.type_name p.type_name) refl _ _

  -- If the known ballot of the type is newer than the preparation's, sending a proposal for the
  -- preparation makes the known ballot an older one.
  pub send_proposal_displaces :
      (p : PlexoPreparation) (a : ℕ) (s : Ganglion) (c : PlexoProposal)
      → known p.type_name s ≡ some c
      → proposal_is_newer (of_preparation p) (of_proposal c) ≡ true
      → ¬ NotOlder (known p.type_name s) (known p.type_name (send_proposal env p a s).1)
  send_proposal_displaces p a s c before newer h = ground (
    arith,
    subst (NotOlder (some c)) (send_proposal-known p a s)
        (subst (λ x. NotOlder x (known p.type_name (send_proposal env p a s).1)) before h),
  )

  abbrev preparation_for : Bytes → ℕ → Ganglion → PlexoPreparation
  preparation_for b now s = record {
    instance_id = s.extra.instance_id;
    proposal_id = now;
    type_name = b;
  }

  send_preparation-value :
      (b : Bytes) (now : ℕ) (s t : Ganglion) (p : PlexoPreparation)
      → send_preparation env b now s ≡ (ok p, t)
      → p ≡ preparation_for b now s
  unfolding send_preparation
  send_preparation-value b now s t p h =
      let (u, v, sent, e) =
        >>=-eq-ok
          (transmit env (Value.preparation (preparation_for b now s)) (preparation_neuron env) none)
          (λ _. pure (preparation_for b now s)) s h in
      ground arith

  send_proposal-value :
      (p : PlexoPreparation) (a : ℕ) (s t : Ganglion) (q : PlexoProposal)
      → send_proposal env p a s ≡ (ok q, t)
      → q ≡ proposal_for p a
  unfolding send_proposal
  send_proposal-value p a s t q h =
      let (u, v, sent, e) =
        >>=-eq-ok (transmit env (Value.proposal (proposal_for p a)) (proposal_neuron env) none)
          (λ _. pure (proposal_for p a)) (record s { extra = know (proposal_for p a) s.extra }) h in
      ground arith

  concluded :
      (q : PlexoProposal) (a n : ℕ) (s t u : Ganglion) (b : ℕ)
      → collect_approvals env q s ≡ (ok n, t)
      → conclude env a n t ≡ (ok b, u)
      → u.extra.num_peers
        ≤ 2
          * or_zero (lookup (q.type_name, q.proposal_id, q.instance_id) u.extra.proposal_approvals)
  unfolding collect_approvals conclude
  concluded q a n s t u b h k = ground (
    arith,
    lookup-erase (q.type_name, q.proposal_id, q.instance_id)
        (q.type_name, q.proposal_id, q.instance_id) s.extra.proposal_approvals,
  )

  propose-approved :
      (b : Bytes) (r : Round) (p : PlexoPreparation) (a : ℕ) (s t : Ganglion) (c : ℕ)
      → propose env b r p a s ≡ (ok c, t)
      → t.extra.num_peers
        ≤ 2
          * or_zero (lookup (p.type_name, p.proposal_id, p.instance_id) t.extra.proposal_approvals)
  unfolding propose
  propose-approved b r p a s t c h =
      let (q, s1, h1, r1) =
        >>=-eq-ok (send_proposal env p a)
          (λ q.
            await_approvals env b r.during_proposal >> (collect_approvals env q >>= conclude env a))
          s h in
      let (_, s2, h2, r2) =
        >>=-eq-ok (await_approvals env b r.during_proposal)
          (λ _. collect_approvals env q >>= conclude env a) s1 r1 in
      let (n, s3, h3, r3) = >>=-eq-ok (collect_approvals env q) (conclude env a) s2 r2 in
      subst
        (λ x.
          t.extra.num_peers
          ≤ 2
            * or_zero
                (lookup (x.type_name, x.proposal_id, x.instance_id) t.extra.proposal_approvals))
        (send_proposal-value p a s s1 q h1) (concluded q a n s2 s3 t c h3 r3)

  -- When an attempt returns an address, the approvals that the state left by it counts, for the type
  -- and this ballot, are at least half of the peers.
  pub consensus_approved :
      (name : String) (r : Round) (s t : Ganglion) (a : ℕ)
      → get_address_from_consensus env name r s ≡ (ok a, t)
      → t.extra.num_peers
        ≤ 2
          * or_zero (
              lookup
                (env.net.utf8.encode name, r.now, s.extra.instance_id)
                t.extra.proposal_approvals)
  unfolding get_address_from_consensus
  consensus_approved name r s t a h =
      let b = env.net.utf8.encode name in
      let rest : PlexoPreparation → List PlexoPromise × ℕ → Action Ganglion ℕ =
        λ p c. elect env c >>= propose env b r p in
      let (p, s1, h1, r1) =
        >>=-eq-ok (send_preparation env b r.now)
          (λ p. await_promises env b r.during_preparation >> (collect_promises env b >>= rest p)) s
          h in
      let (_, s2, h2, r2) =
        >>=-eq-ok (await_promises env b r.during_preparation)
          (λ _. collect_promises env b >>= rest p) s1 r1 in
      let (c, s3, h3, r3) = >>=-eq-ok (collect_promises env b) (rest p) s2 r2 in
      let (d, s4, h4, r4) = >>=-eq-ok (elect env c) (propose env b r p) s3 r3 in
      subst
        (λ x.
          t.extra.num_peers
          ≤ 2
            * or_zero
                (lookup (x.type_name, x.proposal_id, x.instance_id) t.extra.proposal_approvals))
        (send_preparation-value b r.now s s1 p h1) (propose-approved b r p d s4 t a r4)
