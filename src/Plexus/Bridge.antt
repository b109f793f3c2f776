-- ===== src/Plexus/Bridge.antt =====
-- A plexus over its own `GanglionInproc` and one other ganglion, its link, as `Plexus(ganglia=(link,))`
-- makes it, and the calls of reactants that wait to be carried out. The link is an argument. The
-- reactants that the plexus gives to its ganglia are known by the numbers `own_entry` and `link_entry`,
-- and the other reactants are the program's.
pub mod Laws
pub mod Pairing
pub mod Steady
pub mod Adapted
pub mod Calls
pub mod Moved
pub mod Traffic
pub mod Journeys
pub mod Arrivals
use pyplexo.Base.{
  ℕ, zero, suc, ◌+◌, Bool, true, false, Option, none, some, List, [], ◌∷◌, ◌++◌, map, contains,
  ℕ_key, if◌then◌else◌, String, string_key, ◌||◌,
}
use pyplexo.Codec.{Utf8}
use pyplexo.Dendrite.{Call, reacts, reacts_raw}
use pyplexo.Exceptions.{
  Action, Result, ok, raise, pending, pure, gets, modify, lift, catch, ◌>>=◌, ◌>>◌,
}
use pyplexo.Neuron.{Neuron}
use pyplexo.Schema.{Value}
use pyplexo.Typing.{GanglionExternal}
use pyplexo.Ganglion.Internal
use pyplexo.Ganglion.Internal.{Internal}
use pyplexo.Plexus
use pyplexo.Plexus.{
  Plexus, Ganglia, Delivery, internal_reaction, gather, pass_value_error, on_ganglia,
}

-- What a plexus and its program use of the other ganglion, over its states and what it sends: `receive`
-- is a round of its receiving loop, with the calls of reactants that it makes.
pub record Link (S F : Type 0) : Type 0 where
  pub adapt : Neuron → List ℕ → Action S (Unit {0})
  pub transmit : Value → Neuron → Option ℕ → Action S (Unit {0})
  pub receive : F → Action S (List Call)
  pub close : Action S (Unit {0})
  -- what it has sent, the latest first
  pub sent : S → List F
  -- whether the addresses of the sockets lead from the first to the second, and what the first becomes
  -- once its socket is up with the second
  pub reaches : S → S → Bool
  pub met : S → S → S

-- Whether one of some addresses is among others.
abbrev pub shares : List String → List String → Bool
shares [] bound = false
shares (a ∷ rest) bound = contains a bound || shares rest bound

-- An external ganglion is a link: the plexus takes it for one that is not external.
abbrev pub link_of :
    {S F : Type 0}
    → GanglionExternal S
    → (F → Action S (List Call))
    → (S → List F)
    → (S → S → Bool)
    → (S → S → S)
    → Link S F
link_of g receive sent reaches met = record {
  adapt = g.ganglion.adapt;
  transmit = g.ganglion.transmit;
  receive = receive;
  close = g.ganglion.close;
  sent = sent;
  reaches = reaches;
  met = met;
}

-- The two ganglia, the calls that wait, those that have been carried out, and the next new identity of
-- a reaction, `uuid4()`.
pub record Joint (S : Type 0) : Type 0 where
  pub inproc : Internal
  pub link : S
  pub waiting : List Call
  pub received : List Call
  pub next_id : ℕ

-- The identities of the plexus's own ganglion, and of its link.
abbrev pub me : ℕ
me = 0

abbrev pub other : ℕ
other = 1

module _ {S : Type 0} where
  abbrev pub on_inproc : {A : Type 0} → Action Internal A → Action (Joint S) A
  on_inproc f s = let (r, t) = f s.inproc in (r, record s { inproc = t })

  abbrev pub on_link : {A : Type 0} → Action S A → Action (Joint S) A
  on_link f s = let (r, t) = f s.link in (r, record s { link = t })

  -- Calls wait for the event loop.
  abbrev pub wait : List Call → Action (Joint S) (Unit {0})
  wait calls = modify (λ s. record s { waiting = s.waiting ++ calls })

-- How two calls end that run together: with the first exception.
abbrev pub both : Result (Unit {0}) → Result (Unit {0}) → Result (Unit {0})
both (ok _) r = r
both (raise e) r = raise e
both pending r = pending

module _ {S F : Type 0} (u : Utf8) (l : Link S F) (own_entry link_entry : ℕ) where
  -- The plexus's own ganglion transmits to its reactants.
  unfoldable pub transmit_inproc : Value → Neuron → Option ℕ → Action (Joint S) (Unit {0})
  unfolding Internal.transmit
  transmit_inproc v n rid = do calls ← on_inproc (Internal.transmit u v n rid); wait calls

  unfoldable pub adapt_ganglion : ℕ → Neuron → Action (Joint S) (Unit {0})
  unfolding Internal.adapt
  adapt_ganglion g n =
      if contains g (me ∷ [])
      then on_inproc (Internal.adapt u n (own_entry ∷ []))
      else on_link (l.adapt n (link_entry ∷ []))

  unfoldable pub close_ganglion : ℕ → Action (Joint S) (Unit {0})
  unfolding Internal.close
  close_ganglion g = if contains g (me ∷ []) then on_inproc Internal.close else on_link l.close

  abbrev pub bridge : Ganglia (Joint S)
  bridge = record {
    is_external = λ _. false;
    adapt = λ g n r. adapt_ganglion g n;
    update_transmitter = λ n. on_inproc (Internal.update_transmitter u n);
    react = λ n rs. on_inproc (Internal.react u n rs);
    transmit = transmit_inproc;
    close = close_ganglion;
  }

  -- `Plexus(ganglia=(link,))`
  unfoldable pub init : S → Plexus (Joint S)
  unfolding Plexus.init Internal.init
  init s = Plexus.init bridge me (other ∷ []) [] [] (record {
    inproc = Internal.init [] [] [];
    link = s;
    waiting = [];
    received = [];
    next_id = 0;
  })

  -- `ganglion.transmit(data, neuron, reaction_id)`. No reaction of the ganglia here asks for encoded data.
  unfoldable pub deliver : Value → Neuron → ℕ → Delivery → Action (Plexus (Joint S)) (Unit {0})
  unfolding transmit_inproc
  deliver v n rid (Delivery.transmit g) =
      if contains g (me ∷ [])
      then on_ganglia (transmit_inproc v n (some rid))
      else on_ganglia (on_link (l.transmit v n (some rid)))
  deliver v n rid (Delivery.transmit_encoded g) = pure tt

  -- `partial(self._internal_reaction, ganglion)`, with its deliveries
  unfoldable pub entry_reaction :
      ℕ → Value → Neuron → Option ℕ → Action (Plexus (Joint S)) (Unit {0})
  unfolding internal_reaction deliver gather pass_value_error
  entry_reaction current v n reaction_id = do
    fresh ← gets (λ s. s.ganglia.next_id)
    modify (λ s. record s { ganglia = record s.ganglia { next_id = suc fresh } })
    (rid, deliveries) ← internal_reaction fresh current reaction_id
    catch (gather (map (deliver v n rid) deliveries)) pass_value_error

  module _ (handle : ℕ → Value → Neuron → Option ℕ → Action (Plexus (Joint S)) (Unit {0})) where
    -- A call of a reactant: the plexus's own two, and those of the program.
    unfoldable pub call : Call → Action (Plexus (Joint S)) (Unit {0})
    unfolding entry_reaction
    call (reacts r v n rid) =
        if contains r (own_entry ∷ [])
        then entry_reaction me v n rid
        else if contains r (link_entry ∷ [])
        then entry_reaction other v n rid
        else handle r v n rid
    call (reacts_raw r e n rid) = pure tt

    -- The event loop: the calls that wait are carried out in the order in which they were made, up to so
    -- many. All of them run, and the first exception is what the awaiting code gets.
    unfoldable pub loop : ℕ → Action (Plexus (Joint S)) (Unit {0})
    unfolding call
    loop zero s = (elim s.ganglia.waiting [ [] ↦ ok tt | _ ∷ _ ↦ pending ], s)
    loop (suc k) s = elim s.ganglia.waiting [
      | [] ↦ (ok tt, s)
      | c ∷ cs ↦
          let (r, t) = call c (record s {
            ganglia = record s.ganglia { waiting = cs; received = s.ganglia.received ++ c ∷ [] };
          }) in
          let (q, w) = loop k t in (both r q, w)
    ]

    -- `plexus.transmit(data, neuron)`, awaited
    unfoldable pub transmit : ℕ → Value → Neuron → Action (Plexus (Joint S)) (Unit {0})
    unfolding loop Plexus.transmit_data
    transmit fuel v n = do Plexus.transmit_data bridge v n none; loop fuel

    -- What the link receives, and the calls that this leads to. An exception of a reactant is returned
    -- here; the receiving loop would hand it to its handlers.
    unfoldable pub receive : ℕ → F → Action (Plexus (Joint S)) (Unit {0})
    unfolding loop
    receive fuel frame = do
      calls ← (λ s.
          let (r, t) = l.receive frame s.ganglia.link in
          (r, record s { ganglia = record s.ganglia { link = t } }))
      on_ganglia (wait calls)
      loop fuel
