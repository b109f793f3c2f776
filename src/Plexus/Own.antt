-- ===== src/Plexus/Own.antt =====
-- A plexus with no ganglia but its own `GanglionInproc`, as `Plexus()` makes it, and the calls of reactants
-- that its transmissions lead to. The reactant that the plexus adds is known by the number `entry`.
pub mod Connected
pub mod Carried
pub mod Served
pub mod Adapted
use pyplexo.Base.{
  ℕ, suc, ◌+◌, Bool, true, false, Option, none, some, List, [], ◌∷◌, ◌++◌, contains, ℕ_key,
  if◌then◌else◌,
}
use pyplexo.Axon.{Methods}
use pyplexo.Codec.{Utf8}
use pyplexo.Dendrite.{Call, reacts, reacts_raw}
use pyplexo.Exceptions.{Action, ok, pure, gets, modify, ◌>>=◌, ◌>>◌}
use pyplexo.Neuron.{Neuron}
use pyplexo.Schema.{Value}
use pyplexo.Ganglion.Internal
use pyplexo.Ganglion.Internal.{Internal}
use pyplexo.Plexus
use pyplexo.Plexus.{Plexus, Ganglia, Delivery, internal_reaction}

-- The ganglion, the calls that are to be carried out, those that have been, the deliveries that the
-- plexus's own reactants have asked for, and the next new identity of a reaction, `uuid4()`.
pub record Own : Type 0 where
  pub inproc : Internal
  pub waiting : List Call
  pub received : List Call
  pub asked : List Delivery
  pub next_id : ℕ

-- The identity of the ganglion.
abbrev pub me : ℕ
me = 0

abbrev pub on_inproc : {A : Type 0} → Action Internal A → Action Own A
on_inproc f s = let (r, t) = f s.inproc in (r, record s { inproc = t })

module _ (u : Utf8) (entry : ℕ) where
  abbrev pub own : Ganglia Own
  own = record {
    is_external = λ _. false;
    adapt = λ g n r. on_inproc (Internal.adapt u n (entry ∷ []));
    update_transmitter = λ n. on_inproc (Internal.update_transmitter u n);
    react = λ n rs. on_inproc (Internal.react u n rs);
    close = λ g. on_inproc Internal.close;
    transmit = λ v n rid. (do
      calls ← on_inproc (Internal.transmit u v n rid)
      modify (λ s. record s { waiting = s.waiting ++ calls }));
  }

  -- `Plexus()`
  unfoldable pub init : Plexus Own
  unfolding Plexus.init Internal.init
  init = Plexus.init own me [] [] [] (record {
    inproc = Internal.init [] [] [];
    waiting = [];
    received = [];
    asked = [];
    next_id = 0;
  })

  -- The plexus's own reactant, `partial(self._internal_reaction, ganglion)`
  unfoldable pub own_reaction : Option ℕ → Action (Plexus Own) (Unit {0})
  unfolding internal_reaction
  own_reaction rid = do
    fresh ← gets (λ s. s.ganglia.next_id)
    modify (λ s. record s { ganglia = record s.ganglia { next_id = suc fresh } })
    (_, deliveries) ← internal_reaction fresh me rid
    modify (λ s. record s { ganglia = record s.ganglia { asked = s.ganglia.asked ++ deliveries } })

  -- One call of a reactant. Those of the program do nothing to the plexus.
  unfoldable pub call : Call → Action (Plexus Own) (Unit {0})
  unfolding own_reaction
  call (reacts r v n rid) = if contains r (entry ∷ []) then own_reaction rid else pure tt
  call (reacts_raw r e n rid) = pure tt

  -- The calls in turn.
  unfoldable pub carry_out : List Call → Action (Plexus Own) (Unit {0})
  unfolding call
  carry_out [] = pure tt
  carry_out (c ∷ cs) = do
    call c
    modify
        (λ s. record s { ganglia = record s.ganglia { received = s.ganglia.received ++ c ∷ [] } })
    carry_out cs

  -- `transmit`, which waits for the calls that it leads to
  unfoldable pub transmit : Value → Neuron → Option ℕ → Action (Plexus Own) (Unit {0})
  unfolding carry_out Plexus.transmit_data
  transmit v n rid = do
    Plexus.transmit_data own v n rid
    calls ← gets (λ s. s.ganglia.waiting)
    modify (λ s. record s { ganglia = record s.ganglia { waiting = [] } })
    carry_out calls

  -- What an axon on the plexus calls.
  abbrev pub methods : Methods (Plexus Own)
  methods = record {
    adapt = λ n. Plexus.adapt own n [];
    react = λ n rs. Plexus.react own n rs;
    transmit = λ v n. transmit v n none;
  }
