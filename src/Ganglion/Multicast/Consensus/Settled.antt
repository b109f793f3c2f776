-- ===== src/Ganglion/Multicast/Consensus/Settled.antt =====
-- A ganglion with no peers gets an address for a new type.
use pyplexo.Base.{
  ℕ, ◌≡◌, refl, ◌∙◌, String, true, false, none, some, List, ◌∷◌, Map, lookup, insert, ite, ℕ_key,
  string_key, bytes_key, ballot_key, ℕ_discrete, arith, lookup-insert, discard,
}
use pyplexo.Exceptions.{ok}
use pyplexo.IpLease
use pyplexo.IpLease.{IpLeaseManager, Choice}
use pyplexo.IpLease.Valid.{IsValid, Picks, get_address_some, chosen_free, lease_free}
use pyplexo.Schema.{Bytes, Value, PlexoPreparation, PlexoProposal}
use pyplexo.Ganglion.Multicast.Consensus.{collect_approvals, propose, get_address_from_consensus}
use pyplexo.Ganglion.Multicast.Consensus.Alone.{
  Speaks, quiet, with_sent, send_preparation_ok, proposed, knowing, send_proposal_ok, waited,
  await_promises_eq, waited_again, await_approvals_eq, cleared, collect_none, elect_alone,
  conclude_alone,
}
use pyplexo.Ganglion.Multicast.Reactions.{or_zero}
use pyplexo.Ganglion.Multicast.State.{Ganglion, Env, preparation_neuron, proposal_neuron}

-- What the manager gives.
pub record Given (choose : Choice) (m : IpLeaseManager) : Type 0 where
  pub address : ℕ
  pub manager : IpLeaseManager
  pub gives : IpLease.get_address choose m ≡ (ok address, manager)
  pub free : lookup address m.ip_lease_map ≡ some false
  pub entries :
      (b : ℕ)
      → lookup b manager.ip_lease_map
        ≡ ite (ℕ_discrete address b) (some true) (lookup b m.ip_lease_map)

pub give :
    (choose : Choice) (m : IpLeaseManager) (x : ℕ) (xs : List ℕ)
    → Picks choose
    → IsValid m
    → m.available_ips ≡ x ∷ xs
    → Given choose m
give choose m x xs picks v e =
    let a = choose x xs in
    let once = discard a m.available_ips in
    let free = chosen_free choose picks m x xs v e in
    record {
      address = a;
      manager = record {
        ip_lease_map = insert a true m.ip_lease_map;
        available_ips = discard a once;
      };
      gives =
          get_address_some choose m x xs e ∙ lease_free a (record m { available_ips = once }) free;
      free = free;
      entries = λ b. lookup-insert b a true m.ip_lease_map;
    }

abbrev managing : IpLeaseManager → Ganglion → Ganglion
managing m s = record s { extra = record s.extra { ip_lease_manager = m } }

-- A started ganglion without peers, in which nothing is known of the type with these bytes, and whose
-- transmitters for preparations and proposals work.
pub record Solo (env : Env) (b : Bytes) (s : Ganglion) : Type 0 where
  pub running : s.extra.startup_done ≡ true
  pub peers : s.extra.num_peers ≡ 0
  pub prepares : Speaks (preparation_neuron env) Value.preparation s.transmitters s.objects
  pub proposes : Speaks (proposal_neuron env) Value.proposal s.transmitters s.objects
  pub no_promises : lookup b s.extra.preparation_promises ≡ none
  pub no_rejections : lookup b s.extra.preparation_rejections ≡ none

module _ (env : Env) where
  -- The state without what only the protocol's bookkeeping is about.
  pub record Same (m : IpLeaseManager) (s t : Ganglion) : Type 0 where
    pub synapses : t.synapses ≡ s.synapses
    pub objects : t.objects ≡ s.objects
    pub next_object : t.next_object ≡ s.next_object
    pub by_address : t.extra.synapses_by_address ≡ s.extra.synapses_by_address
    pub bind_interface : t.extra.bind_interface ≡ s.extra.bind_interface
    pub port : t.extra.port ≡ s.extra.port
    pub manager : t.extra.ip_lease_manager ≡ m

  pub record Proposes (b : Bytes) (now : ℕ) (p : PlexoPreparation) (a : ℕ) (s : Ganglion)
      : Type 0 where
    pub state : Ganglion
    pub ends : propose env b (quiet now) p a s ≡ (ok a, state)
    pub same : Same s.extra.ip_lease_manager s state

  collected :
      (q : PlexoProposal) (s : Ganglion)
      → (n : ℕ) × (m : Map (Bytes × ℕ × ℕ) ℕ) × (collect_approvals env q s
          ≡ (ok n, record s { extra = record s.extra { proposal_approvals = m } }))
  unfolding collect_approvals
  collected q s = (
    or_zero (lookup (q.type_name, q.proposal_id, q.instance_id) s.extra.proposal_approvals),
    (collect_approvals env q s).1.extra.proposal_approvals,
    refl,
  )

  propose_ok :
      (b : Bytes) (now : ℕ) (p : PlexoPreparation) (a : ℕ) (s : Ganglion)
      → Speaks (proposal_neuron env) Value.proposal s.transmitters s.objects
      → s.extra.startup_done ≡ true
      → s.extra.num_peers ≡ 0
      → Proposes b now p a s
  unfolding propose
  propose_ok b now p a s k h e =
      let (fs, sent) = send_proposal_ok env p a s k h in
      let t = with_sent fs (knowing env (proposed env p a) s) in
      let (n, m, counted) = collected (proposed env p a) (waited_again env b t) in
      let v : Ganglion = record (waited_again env b t) {
        extra = record (waited_again env b t).extra { proposal_approvals = m };
      } in
      record {
        state = v;
        ends =
            ground (arith, sent, await_approvals_eq env b t, counted, conclude_alone env a n v e);
        same = record {
          synapses = refl;
          objects = refl;
          next_object = refl;
          by_address = refl;
          bind_interface = refl;
          port = refl;
          manager = refl;
        };
      }

  -- How an attempt ends.
  pub record Decides (key : String) (now : ℕ) (s : Ganglion) : Type 0 where
    pub given : Given env.choose s.extra.ip_lease_manager
    pub state : Ganglion
    pub ends : get_address_from_consensus env key (quiet now) s ≡ (ok given.address, state)
    pub same : Same given.manager s state

  pub decides :
      (key : String) (now : ℕ) (s : Ganglion)
      → Solo env (env.net.utf8.encode key) s
      → Given env.choose s.extra.ip_lease_manager
      → Decides key now s
  unfolding get_address_from_consensus
  decides key now s o g =
      let b = env.net.utf8.encode key in
      let (fs, sent) = send_preparation_ok env b now s o.prepares o.running in
      let p : PlexoPreparation = record {
        instance_id = s.extra.instance_id;
        proposal_id = now;
        type_name = b;
      } in
      let t = waited env b (with_sent fs s) in
      let v = cleared env b t in
      let w = managing g.manager v in
      let r = propose_ok b now p g.address w o.proposes o.running o.peers in
      record {
        given = g;
        state = r.state;
        ends = ground (
          arith,
          sent,
          await_promises_eq env b (with_sent fs s),
          collect_none env b t o.no_promises o.no_rejections,
          elect_alone env v o.peers,
          g.gives,
          r.ends,
        );
        same = record {
          synapses = r.same.synapses;
          objects = r.same.objects;
          next_object = r.same.next_object;
          by_address = r.same.by_address;
          bind_interface = r.same.bind_interface;
          port = r.same.port;
          manager = r.same.manager;
        };
      }
