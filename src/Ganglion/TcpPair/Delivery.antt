-- ===== src/Ganglion/TcpPair/Delivery.antt =====
-- What one side of a pair sends reaches the synapse of the same name on the other side.
use pyplexo.Base.{
  ℕ, ◌≡◌, refl, String, true, false, Option, none, some, List, ◌∷◌, lookup, ℕ_key, string_key,
  arith, ◌⊎◌,
}
use pyplexo.Codec.{Encoded, bytes}
use pyplexo.Dendrite.{Call}
use pyplexo.Dendrite.Decoder
use pyplexo.Exceptions.{Result, ok, raise, pending, Error, attribute_error, cancelled_error, catch}
use pyplexo.Neuron.{Neuron, name}
use pyplexo.Schema.{Bytes, Value, PlexoMessage}
use pyplexo.Ganglion.External.State.{Synapse, EncoderTransmitter, to_payload}
use pyplexo.Ganglion.TcpPair.{Library, Ganglion, transmit, receive, outcome, ended, recv_loop_round}

module _ (lib : Library) where
  abbrev pub message : Neuron → Encoded → PlexoMessage
  message n e = record { type_name = lib.utf8.encode (name n); payload = to_payload lib.utf8 e }

  pub transmitted :
      (v : Value) (n : Neuron) (rid : Option ℕ) (a : Ganglion) (t : EncoderTransmitter)
      (o : Synapse (Unit {0})) (e : Encoded)
      → lookup (name n) a.transmitters ≡ some t
      → t.encoder v ≡ ok e
      → lookup t.synapse a.objects ≡ some o
      → o.topic_bytes ≡ lib.utf8.encode (name n)
      → a.extra.closed ≡ false
      → a.extra.peer ≡ true
      → transmit lib v n rid a ≡ (
        ok tt,
        record a { extra = record a.extra { sent = lib.pack (message n e) ∷ a.extra.sent } },
      )
  unfolding transmit
  transmitted v n rid a t o e h k l m still up = ground arith

  pub received :
      (m : PlexoMessage) (key : String) (b : Ganglion) (ref : ℕ) (p : Synapse (Unit {0}))
      → lib.utf8.decode m.type_name ≡ some key
      → lookup key b.synapses ≡ some ref
      → lookup ref b.objects ≡ some p
      → receive lib (lib.pack m) b
        ≡ (outcome lib (Decoder.transduce p.dendrite (bytes m.payload) none), b)
  unfolding receive
  received m key b ref p h k l = ground (arith, lib.unpack-pack m)

  -- If a ganglion whose socket is open and up with its peer has a transmitter for a neuron, whose encoder encodes the data and whose synapse has
  -- the neuron's name as its topic, and the other side has a synapse of that name, then transmitting
  -- sends one message, and receiving it gives the encoded data to the other synapse's dendrite and
  -- changes nothing.
  pub transmit-receive :
      (v : Value) (n : Neuron) (rid : Option ℕ) (a b : Ganglion) (t : EncoderTransmitter)
      (o p : Synapse (Unit {0})) (e : Encoded) (ref : ℕ)
      → lookup (name n) a.transmitters ≡ some t
      → t.encoder v ≡ ok e
      → lookup t.synapse a.objects ≡ some o
      → o.topic_bytes ≡ lib.utf8.encode (name n)
      → a.extra.closed ≡ false
      → a.extra.peer ≡ true
      → lookup (name n) b.synapses ≡ some ref
      → lookup ref b.objects ≡ some p
      → (frame : Bytes) × (transmit lib v n rid a
          ≡ (ok tt, record a { extra = record a.extra { sent = frame ∷ a.extra.sent } }))
        × (receive lib frame b
            ≡ (outcome lib (Decoder.transduce p.dendrite (bytes (to_payload lib.utf8 e)) none), b))
  transmit-receive v n rid a b t o p e ref h k l m still up x y = (
    lib.pack (message n e),
    transmitted v n rid a t o e h k l m still up,
    received (message n e) (name n) b ref p (lib.utf8.decode-encode (name n)) x y,
  )

  ended_raise :
      (x : Error) (s : Ganglion) (e : Error)
      → (ended lib x s).0 ≡ raise e
      → ((e ≡ attribute_error) ⊎ (e ≡ cancelled_error))
        × ((ended lib x s).1.extra.recv_loop_running ≡ false)
  unfolding ended
  ended_raise x s e h = ground arith

  caught :
      (frame : Bytes) (s : Ganglion) (e : Error) (r : Result (List Call) × Ganglion)
      → receive lib frame s ≡ r
      → (catch (receive lib frame) (ended lib) s).0 ≡ raise e
      → ((e ≡ attribute_error) ⊎ (e ≡ cancelled_error))
        × ((catch (receive lib frame) (ended lib) s).1.extra.recv_loop_running ≡ false)
  caught frame s e (ok calls, t) k h = absurd (ground arith)
  caught frame s e (raise x, t) k h = ground (arith, ended_raise x t e)
  caught frame s e (pending, t) k h = absurd (ground arith)

  -- Whatever comes, a round of the receiving loop raises nothing but an AttributeError or a
  -- cancellation, and then the ganglion notes that the loop does not run.
  pub recv_loop_round-raise :
      (frame : Bytes) (s : Ganglion) (e : Error)
      → (recv_loop_round lib frame s).0 ≡ raise e
      → ((e ≡ attribute_error) ⊎ (e ≡ cancelled_error))
        × ((recv_loop_round lib frame s).1.extra.recv_loop_running ≡ false)
  unfolding recv_loop_round
  recv_loop_round-raise frame s e h =
      let t : Ganglion = record s { extra = record s.extra { socket = true } } in
      caught frame t e (receive lib frame t) refl h
