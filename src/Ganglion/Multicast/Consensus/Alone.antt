-- ===== src/Ganglion/Multicast/Consensus/Alone.antt =====
-- What the proposer comes to where nobody takes part: with no peers it elects and decides alone.
use pyplexo.Base.{
  ℕ, ◌≡◌, refl, String, true, none, some, List, [], Map, lookup, insert, erase, ℕ_key, string_key,
  bytes_key, ballot_key, arith,
}
use pyplexo.Codec.{Encoded}
use pyplexo.Exceptions.{ok}
use pyplexo.IpLease
use pyplexo.IpLease.{IpLeaseManager, Choice}
use pyplexo.Neuron.{Neuron, name}
use pyplexo.Schema.{Bytes, Value, PlexoPreparation, PlexoProposal}
use pyplexo.Synapse.Epgm.{Epgm, Frame}
use pyplexo.Ganglion.External.State.{Synapse, EncoderTransmitter}
use pyplexo.Ganglion.Multicast.Addresses.{leasing}
use pyplexo.Ganglion.Multicast.Consensus.{
  Round, send_preparation, send_proposal, await_promises, await_approvals, collect_promises,
  choose_address, elect, conclude, with_data, started,
}
use pyplexo.Ganglion.Multicast.Reactions.{run_events, know}
use pyplexo.Ganglion.Multicast.State.{Ganglion, Env, preparation_neuron, proposal_neuron}
use pyplexo.Ganglion.Multicast.Transport.{transmit}

-- The transmitter of a neuron, which can encode messages of a kind, with its synapse.
pub record Speaks {A : Type 0} (n : Neuron) (wrap : A → Value)
    (transmitters : Map String EncoderTransmitter) (objects : Map ℕ (Synapse Epgm)) : Type 0 where
  pub transmitter : EncoderTransmitter
  pub found : lookup (name n) transmitters ≡ some transmitter
  pub object : Synapse Epgm
  pub there : lookup transmitter.synapse objects ≡ some object
  pub encodes : (a : A) → (e : Encoded) × (transmitter.encoder (wrap a) ≡ ok e)

-- A round in which no message is handled.
abbrev pub quiet : ℕ → Round
quiet now = record { now = now; during_preparation = []; during_proposal = [] }

-- The state with other frames on the sockets.
abbrev pub with_sent : List Frame → Ganglion → Ganglion
with_sent fs s = record s { extra = record s.extra { sent = fs } }

module _ (env : Env) where
  transmit-Speaks :
      {A : Type 0} (n : Neuron) (wrap : A → Value) (a : A) (s : Ganglion)
      → Speaks n wrap s.transmitters s.objects
      → s.extra.startup_done ≡ true
      → (fs : List Frame) × (transmit env (wrap a) n none s ≡ (ok tt, with_sent fs s))
  unfolding transmit
  transmit-Speaks n wrap a s k h =
      let (e, enc) = k.encodes a in
      ((transmit env (wrap a) n none s).1.extra.sent, ground (arith, k.found, k.there, enc))

  pub send_preparation_ok :
      (b : Bytes) (now : ℕ) (s : Ganglion)
      → Speaks (preparation_neuron env) Value.preparation s.transmitters s.objects
      → s.extra.startup_done ≡ true
      → let p : PlexoPreparation = record {
        instance_id = s.extra.instance_id;
        proposal_id = now;
        type_name = b;
      } in
        (fs : List Frame) × (send_preparation env b now s ≡ (ok p, with_sent fs s))
  unfolding send_preparation
  send_preparation_ok b now s k h =
      let p : PlexoPreparation = record {
        instance_id = s.extra.instance_id;
        proposal_id = now;
        type_name = b;
      } in
      let (fs, e) = transmit-Speaks (preparation_neuron env) Value.preparation p s k h in
      (fs, ground (arith, e))

  -- What is proposed for a preparation, at an address.
  abbrev pub proposed : PlexoPreparation → ℕ → PlexoProposal
  proposed p a = record {
    instance_id = p.instance_id;
    proposal_id = p.proposal_id;
    type_name = p.type_name;
    multicast_ip = some (env.net.packed a);
  }

  abbrev pub knowing : PlexoProposal → Ganglion → Ganglion
  knowing q s = record s { extra = know q s.extra }

  pub send_proposal_ok :
      (p : PlexoPreparation) (a : ℕ) (s : Ganglion)
      → Speaks (proposal_neuron env) Value.proposal s.transmitters s.objects
      → s.extra.startup_done ≡ true
      → (fs : List Frame) × (send_proposal env p a s
          ≡ (ok (proposed p a), with_sent fs (knowing (proposed p a) s)))
  unfolding send_proposal
  send_proposal_ok p a s k h =
      let (fs, e) =
        transmit-Speaks (proposal_neuron env) Value.proposal (proposed p a)
          (knowing (proposed p a) s) k h in
      (fs, ground (arith, e))

  -- The wait for promises, with nothing handled in it.
  abbrev pub waited : Bytes → Ganglion → Ganglion
  waited b s = record s {
    extra = record s.extra {
      preparation_timers =
          erase b (insert b (started s.extra.proposal_timeout_seconds) s.extra.preparation_timers);
    };
  }

  pub await_promises_eq :
      (b : Bytes) (s : Ganglion) → await_promises env b [] s ≡ (ok tt, waited b s)
  unfolding await_promises run_events
  await_promises_eq b s = refl

  abbrev pub waited_again : Bytes → Ganglion → Ganglion
  waited_again b s = record s {
    extra = record s.extra {
      proposal_timers =
          erase b (insert b (started s.extra.proposal_timeout_seconds) s.extra.proposal_timers);
    };
  }

  pub await_approvals_eq :
      (b : Bytes) (s : Ganglion) → await_approvals env b [] s ≡ (ok tt, waited_again b s)
  unfolding await_approvals run_events
  await_approvals_eq b s = refl

  abbrev pub cleared : Bytes → Ganglion → Ganglion
  cleared b s = record s {
    extra = record s.extra {
      preparation_promises = erase b s.extra.preparation_promises;
      preparation_rejections = erase b s.extra.preparation_rejections;
    };
  }

  pub collect_none :
      (b : Bytes) (s : Ganglion)
      → lookup b s.extra.preparation_promises ≡ none
      → lookup b s.extra.preparation_rejections ≡ none
      → collect_promises env b s ≡ (ok ([], 0), cleared b s)
  unfolding collect_promises
  collect_none b s h k = ground arith

  pub elect_alone :
      (s : Ganglion)
      → s.extra.num_peers ≡ 0
      → elect env ([], 0) s ≡ leasing (IpLease.get_address env.choose) s
  unfolding elect choose_address with_data
  elect_alone s h = ground arith

  pub conclude_alone :
      (a n : ℕ) (s : Ganglion) → s.extra.num_peers ≡ 0 → conclude env a n s ≡ (ok a, s)
  unfolding conclude
  conclude_alone a n s h = ground arith
