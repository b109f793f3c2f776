-- ===== src/Ganglion/Multicast/Reactions/Nameless.antt =====
-- What the commit of an approval needs: the neuron of a name.
use pyplexo.Base.{
  ℕ, ◌≡◌, refl, ap, ◌∙◌, String, Option, none, List, [], ◌∷◌, Map, lookup, ℕ_key, string_key,
  bytes_key, arith,
}
use pyplexo.Exceptions.{Result, ok, raise, pending}
use pyplexo.Neuron.{Neuron}
use pyplexo.Schema.{Value, PlexoApproval, PlexoProposal, PlexoPreparation}
use pyplexo.Synapse.Epgm.{Epgm}
use pyplexo.Ganglion.External
use pyplexo.Ganglion.External.State.{Synapse}
use pyplexo.Ganglion.Multicast.Reactions.{
  Event, on_heartbeat, on_preparation, on_promise, on_rejection, on_proposal, on_approval,
  on_peers_tick, on_heartbeat_tick, react_to, run_events, commit, after_approval, approval_reaction,
  make_promise, send_rejection, accept, announce, preparation_reaction, proposal_reaction,
  promise_reaction, rejection_reaction, heartbeat_reaction, num_peers_loop, know, name_of,
  approval_of,
}
use pyplexo.Ganglion.Multicast.State.{Ganglion, Env, approval_neuron}
use pyplexo.Ganglion.Multicast.Transport.{transmit, transmit-keeps, heartbeat_loop_round-keeps}

-- The synapses of a ganglion and where they are.
pub record Groups : Type 0 where
  pub synapses : Map String ℕ
  pub objects : Map ℕ (Synapse Epgm)
  pub by_address : Map ℕ ℕ
  pub names : Map String Neuron

abbrev pub groups : Ganglion → Groups
groups s = record {
  synapses = s.synapses;
  objects = s.objects;
  by_address = s.extra.synapses_by_address;
  names = s.name_neurons;
}

module _ (env : Env) where
  -- In a ganglion that knows no neuron by its name, this leaves the synapses alone.
  abbrev Still : {A : Type 0} → (Ganglion → A × Ganglion) → Type 0
  Still m = (s : Ganglion) → s.name_neurons ≡ [] → groups (m s).1 ≡ groups s

  commit-Still : (a : PlexoApproval) → Still (commit env a)
  unfolding commit name_of External.get_neuron_by_name
  commit-Still a s e = ground arith

  after_approval-Still :
      (a : PlexoApproval) (approvals peers me : ℕ) → Still (after_approval env a approvals peers me)
  unfolding after_approval
  after_approval-Still a approvals peers me s e = ground (arith, commit-Still a s e)

  approval-Still : (a : PlexoApproval) → Still (approval_reaction env a)
  unfolding approval_reaction
  approval-Still a s e = after_approval-Still a _ _ _ _ e

  transmit-Still : (v : Value) (n : Neuron) (rid : Option ℕ) → Still (transmit env v n rid)
  transmit-Still v n rid s e = ap groups (transmit-keeps env v n rid s)

  promise-Still : (p : PlexoPreparation) (c : Option PlexoProposal) → Still (make_promise env p c)
  unfolding make_promise
  promise-Still p c s e = transmit-Still _ _ none _ e

  rejection-Still : (p : PlexoPreparation) → Still (send_rejection env p)
  unfolding send_rejection
  rejection-Still p s e = transmit-Still _ _ none _ e

  preparation-Still : (p : PlexoPreparation) → Still (preparation_reaction env p)
  unfolding preparation_reaction
  preparation-Still p s e =
      ground
        (arith, promise-Still p (lookup p.type_name s.extra.proposals) s e, rejection-Still p s e)

  announced :
      (p : PlexoProposal) (s : Ganglion) (r : Result (Unit {0}) × Ganglion)
      → transmit env (Value.approval (approval_of p)) (approval_neuron env) none s ≡ r
      → groups r.1 ≡ groups s
      → s.name_neurons ≡ []
      → groups (announce env p s).1 ≡ groups s
  unfolding announce
  announced p s (ok tt, t) h k e =
      ground (arith, k, approval-Still (approval_of p) t (ap (λ g. g.names) k ∙ e))
  announced p s (raise x, t) h k e = ground (arith, k)
  announced p s (pending, t) h k e = ground (arith, k)

  announce-Still : (p : PlexoProposal) → Still (announce env p)
  announce-Still p s e =
      announced p s (transmit env (Value.approval (approval_of p)) (approval_neuron env) none s)
        refl (transmit-Still (Value.approval (approval_of p)) (approval_neuron env) none s e) e

  accept-Still : (p : PlexoProposal) → Still (accept env p)
  unfolding accept
  accept-Still p s e = announce-Still p (record s { extra = know p s.extra }) e

  proposal-Still : (p : PlexoProposal) → Still (proposal_reaction env p)
  unfolding proposal_reaction
  proposal-Still p s e = ground (arith, accept-Still p s e)

  react_to-Still : (v : Event) → Still (react_to env v)
  unfolding react_to heartbeat_reaction promise_reaction rejection_reaction num_peers_loop
  react_to-Still (on_heartbeat h now) s e = refl
  react_to-Still (on_preparation p) s e = preparation-Still p s e
  react_to-Still (on_promise p) s e = ground arith
  react_to-Still (on_rejection r) s e = ground arith
  react_to-Still (on_proposal p) s e = proposal-Still p s e
  react_to-Still (on_approval a) s e = approval-Still a s e
  react_to-Still (on_peers_tick now) s e = refl
  react_to-Still on_heartbeat_tick s e = ap groups (heartbeat_loop_round-keeps env s)

  -- In a ganglion that knows no neuron by its name, no sequence of events creates or moves a synapse.
  pub run_events-still :
      (es : List Event) (s : Ganglion)
      → s.name_neurons ≡ []
      → groups (run_events env es s) ≡ groups s
  unfolding run_events
  run_events-still [] s e = refl
  run_events-still (v ∷ es) s e =
      let here = react_to-Still v s e in
      run_events-still es (react_to env v s).1 (ap (λ g. g.names) here ∙ e) ∙ here
