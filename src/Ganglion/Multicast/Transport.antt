-- ===== src/Ganglion/Multicast/Transport.antt =====
-- src/plexo/ganglion/plexo_multicast.py: the methods that first wait for the startup, and those that
-- do not.
use pyplexo.Base.{
  ℕ, ◌≡◌, sym, subst, inl, inr, Option, none, some, ◌∷◌, ℕ_key, if◌then◌else◌, arith,
}
use pyplexo.Codec.{Encoded}
use pyplexo.Exceptions.{
  Action, Result, Error, pure, throw, catch, ◌>>=◌, ◌>>◌, pending, cancelled_error, Result-cases,
}
use pyplexo.Neuron.{Neuron}
use pyplexo.Schema.{Value}
use pyplexo.Synapse.Epgm
use pyplexo.Synapse.Epgm.{Frame}
use pyplexo.Ganglion.External
use pyplexo.Ganglion.External.State.{deref}
use pyplexo.Ganglion.Multicast.State.{Ganglion, Env, asks, change, heartbeat_neuron}

-- `while not self._startup_done: await asyncio.sleep(…)`
unfoldable pub wait_startup : Action Ganglion (Unit {0})
wait_startup s = (if s.extra.startup_done then Result.ok tt else pending, s)

send_frame : Option Frame → Action Ganglion (Unit {0})
send_frame none = pure tt
send_frame (some f) = change (λ m. record m { sent = f ∷ m.sent })

module _ (env : Env) where
  -- The method `transmit` of the synapse with this reference.
  unfoldable pub send : ℕ → Encoded → Option ℕ → Action Ganglion (Unit {0})
  unfolding send_frame
  send ref e rid = do o ← deref ref; send_frame (Epgm.transmit env.net o e)

  unfoldable pub transmit_ignore_startup : Value → Neuron → Option ℕ → Action Ganglion (Unit {0})
  unfolding send External.transmit
  transmit_ignore_startup v n rid = External.transmit send v n rid

  unfoldable pub transmit : Value → Neuron → Option ℕ → Action Ganglion (Unit {0})
  unfolding wait_startup transmit_ignore_startup
  transmit v n rid = do wait_startup; transmit_ignore_startup v n rid

  unfoldable pub transmit_encoded_ignore_startup :
      Encoded → Neuron → Option ℕ → Action Ganglion (Unit {0})
  unfolding send External.transmit_encoded
  transmit_encoded_ignore_startup e n rid = External.transmit_encoded send e n rid

  unfoldable pub transmit_encoded : Encoded → Neuron → Option ℕ → Action Ganglion (Unit {0})
  unfolding wait_startup transmit_encoded_ignore_startup
  transmit_encoded e n rid = do wait_startup; transmit_encoded_ignore_startup e n rid

  -- `except Exception`: logged. A cancellation is no Exception, and goes on.
  log_any : Error → Action Ganglion (Unit {0})
  log_any cancelled_error = throw cancelled_error
  log_any e = pure tt

  -- One round of `_heartbeat_loop`; how long it sleeps is not modelled.
  unfoldable pub heartbeat_loop_round : Action Ganglion (Unit {0})
  unfolding log_any
  heartbeat_loop_round = do
    me ← asks (λ m. m.instance_id)
    catch
        (transmit_ignore_startup (Value.heartbeat (record { instance_id = me }))
          (heartbeat_neuron env) none)
        log_any

  -- A transmission touches nothing but what has been sent.
  pub transmit_ignore_startup-keeps :
      (v : Value) (n : Neuron) (rid : Option ℕ) (s : Ganglion)
      → (transmit_ignore_startup v n rid s).1 ≡ record s {
        extra = record s.extra { sent = (transmit_ignore_startup v n rid s).1.extra.sent };
      }
  unfolding transmit_ignore_startup
  transmit_ignore_startup-keeps v n rid s = ground arith

  pub transmit-keeps :
      (v : Value) (n : Neuron) (rid : Option ℕ) (s : Ganglion)
      → (transmit v n rid s).1
        ≡ record s { extra = record s.extra { sent = (transmit v n rid s).1.extra.sent } }
  unfolding transmit
  transmit-keeps v n rid s = ground arith

  log_any-keeps : (e : Error) (s : Ganglion) → (log_any e s).1 ≡ s
  unfolding log_any
  log_any-keeps e s = ground arith

  logged_round : (m : Action Ganglion (Unit {0})) (s : Ganglion) → (catch m log_any s).1 ≡ (m s).1
  logged_round m s = elim (Result-cases (m s).0) [
    | inl (u, e) ↦ ground (arith, e)
    | inr (inl (x, e)) ↦ ground (arith, e, log_any-keeps x (m s).1)
    | inr (inr e) ↦ ground (arith, e)
  ]

  pub heartbeat_loop_round-keeps :
      (s : Ganglion)
      → (heartbeat_loop_round s).1
        ≡ record s { extra = record s.extra { sent = (heartbeat_loop_round s).1.extra.sent } }
  unfolding heartbeat_loop_round
  heartbeat_loop_round-keeps s =
      let v = Value.heartbeat (record { instance_id = s.extra.instance_id }) in
      let n = heartbeat_neuron env in
      let m : Action Ganglion (Unit {0}) = transmit_ignore_startup v n none in
      subst (λ t. t ≡ record s { extra = record s.extra { sent = t.extra.sent } })
        (sym (logged_round m s)) (transmit_ignore_startup-keeps v n none s)
