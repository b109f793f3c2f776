-- ===== src/Ganglion/TcpPubSub.antt =====
-- src/plexo/ganglion/tcp_pubsub.py, `GanglionZmqTcpPubSub`, with src/plexo/synapse/zeromq_basic_pub.py:
-- all synapses share a publishing and a subscribing socket, and a message is a topic and a payload.
pub mod Joined
pub mod Link
use Prim.Native.String.{◌++◌ as ◌+++◌}
use pyplexo.Base.{
  ℕ, ◌≡◌, String, Bool, true, false, Option, none, some, List, [], ◌∷◌, ◌++◌, ite, lookup, ℕ_key,
  string_key, arith, if◌then◌else◌, ◌||◌,
}
use pyplexo.Codec.{Encoded, bytes, CodecClass}
use pyplexo.Dendrite.{Call}
use pyplexo.Dendrite.Decoder
use pyplexo.Exceptions.{
  Action, Result, Error, ok, pure, throw, catch, attribute_error, cancelled_error, throw_if, gets,
  modify, lift, or_throw, ◌>>=◌, ◌>>◌, synapse_exists, value_error, zmq_error,
}
use pyplexo.Neuron.{Neuron, name}
use pyplexo.Schema.{Bytes, Value}
use pyplexo.Ganglion.External
use pyplexo.Ganglion.External.State
use pyplexo.Ganglion.External.State.{
  External, Synapse, EncoderTransmitter, Hooks, recv_loop, has, deref, new_synapse, put_new,
  to_payload,
}
use pyplexo.Ganglion.TcpPair.{Library, outcome}

pub record PubSub : Type 0 where
  pub bind_interface : String
  pub port_pub : ℕ
  pub connection_string_pub : String
  pub socket_pub : Bool
  pub socket_sub : Bool
  -- the addresses that the one is bound to, and the other is connected to
  pub bound : List String
  pub connected : List String
  pub recv_loop_running : Bool
  -- whether `close` has closed the sockets
  pub pub_closed : Bool
  pub sub_closed : Bool
  -- the topics and payloads that have left, the latest first
  pub sent : List (Bytes × Bytes)

abbrev pub Ganglion : Type 0
Ganglion = External PubSub (Unit {0})

abbrev change : (PubSub → PubSub) → Action Ganglion (Unit {0})
change f = modify (λ s. record s { extra = f s.extra })

module _ (lib : Library) where
  unfoldable pub create_socket_pub : Action Ganglion (Unit {0})
  create_socket_pub = do
    change (λ p. record p { socket_pub = true })
    address ← gets (λ s. s.extra.connection_string_pub)
    throw_if (if lib.bind address then false else true) zmq_error
    change (λ p. record p { bound = p.bound ++ address ∷ [] })

  -- The property `socket_sub`, which makes the socket when it is first read, and a connection of it.
  unfoldable pub connect_to_peer : ℕ × ℕ → Action Ganglion (Unit {0})
  connect_to_peer (address, port) = change (λ p. record p {
    socket_sub = true;
    connected =
        p.connected ++ ("tcp://" +++ (lib.compressed address +++ (":" +++ lib.decimal port))) ∷ [];
  })

  unfoldable pub connect_to_peers : List (ℕ × ℕ) → Action Ganglion (Unit {0})
  unfolding connect_to_peer
  connect_to_peers [] = pure tt
  connect_to_peers (p ∷ ps) = do connect_to_peer p; connect_to_peers ps

  interface_or : Option String → String
  interface_or none = lib.primary_ip
  interface_or (some i) = ite (string_key.dec i "") lib.primary_ip i

  -- `GanglionZmqTcpPubSub(…)`
  unfoldable pub init :
      Option String
      → ℕ
      → List (ℕ × ℕ)
      → List String
      → List String
      → List CodecClass
      → Result (Unit {0}) × Ganglion
  unfolding create_socket_pub connect_to_peers interface_or State.init
  init interface port peers relevant ignored allowed =
      let i = interface_or interface in
      (create_socket_pub >> connect_to_peers peers) (
        State.init relevant ignored allowed (record {
          bind_interface = i;
          port_pub = port;
          connection_string_pub = "tcp://" +++ (i +++ (":" +++ lib.decimal port));
          socket_pub = false;
          socket_sub = false;
          bound = [];
          connected = [];
          recv_loop_running = false;
          pub_closed = false;
          sub_closed = false;
          sent = [];
        }))

  -- `close`, over that of the base class
  unfoldable pub close : Action Ganglion (Unit {0})
  unfolding External.close
  close = do
    External.close
    change (λ p. record p {
      sub_closed = p.socket_sub || p.sub_closed;
      pub_closed = p.socket_pub || p.pub_closed;
    })

  -- `SynapseZmqBasicPub.transmit`: a closed socket raises, and one without a subscriber drops the data.
  unfoldable pub send : ℕ → Encoded → Option ℕ → Action Ganglion (Unit {0})
  send ref e rid = do
    o ← deref ref
    throw_if (← gets (λ s. s.extra.pub_closed)) zmq_error
    change (λ p. record p { sent = (o.topic_bytes, to_payload lib.utf8 e) ∷ p.sent })

  -- The publishing socket is there since `__init__`.
  unfoldable pub create_synapse_by_name : Neuron → String → Action Ganglion ℕ
  unfolding new_synapse put_new
  create_synapse_by_name n key = do
    exists ← gets (λ s. has key s.synapses)
    throw_if exists synapse_exists
    ref ← gets (λ s. s.next_object)
    modify (put_new key (new_synapse lib.utf8 n tt))
    pure ref

  abbrev pub hooks : Hooks PubSub (Unit {0})
  hooks = record {
    create_synapse_by_name = create_synapse_by_name;
    add_reactants = State.add_reactants;
    add_raw_reactants = State.add_raw_reactants;
  }

  unfoldable pub transmit : Value → Neuron → Option ℕ → Action Ganglion (Unit {0})
  unfolding External.transmit send
  transmit v n rid = External.transmit send v n rid

  unfoldable pub start_recv_loop_if_needed : Action Ganglion (Unit {0})
  start_recv_loop_if_needed = modify (λ s.
      if s.extra.recv_loop_running then s else elim s.synapses [
        | [] ↦ s
        | _ ∷ _ ↦ record s {
          tasks = s.tasks ++ recv_loop ∷ [];
          extra = record s.extra { recv_loop_running = true };
        }
      ])

  -- `adapt`, over that of the base class
  unfoldable pub adapt : Neuron → List ℕ → List ℕ → Action Ganglion (Unit {0})
  unfolding External.adapt External.react External.react_raw start_recv_loop_if_needed
  adapt n rs raws = do
    External.adapt hooks (External.react hooks) (External.react_raw hooks) n rs raws
    start_recv_loop_if_needed

  -- What `_recv_loop` does with a topic and data that came, in its `try`.
  unfoldable pub receive : Bytes × Bytes → Action Ganglion (List Call)
  unfolding External.get_synapse_by_name Decoder.transduce
  receive (topic, data_in) = do
    key ← or_throw (lib.utf8.decode topic) value_error
    ref ← External.get_synapse_by_name hooks key none
    o ← deref ref
    lift (outcome lib (Decoder.transduce o.dendrite (bytes data_in) none))

  -- Its handlers: an AttributeError or a cancellation ends the loop, any other exception is logged.
  unfoldable pub ended : Error → Action Ganglion (List Call)
  ended attribute_error = do
    change (λ p. record p { recv_loop_running = false })
    throw attribute_error
  ended cancelled_error = do
    change (λ p. record p { recv_loop_running = false })
    throw cancelled_error
  ended e = pure []

  -- One round of `_recv_loop`.
  unfoldable pub recv_loop_round : Bytes × Bytes → Action Ganglion (List Call)
  recv_loop_round data_in = do
    change (λ p. record p { socket_sub = true })
    catch (receive data_in) ended

  pub published :
      (v : Value) (n : Neuron) (rid : Option ℕ) (a : Ganglion) (t : EncoderTransmitter)
      (o : Synapse (Unit {0})) (e : Encoded)
      → lookup (name n) a.transmitters ≡ some t
      → t.encoder v ≡ ok e
      → lookup t.synapse a.objects ≡ some o
      → o.topic_bytes ≡ lib.utf8.encode (name n)
      → a.extra.pub_closed ≡ false
      → transmit v n rid a ≡ (
        ok tt,
        record a {
          extra = record a.extra {
            sent = (lib.utf8.encode (name n), to_payload lib.utf8 e) ∷ a.extra.sent;
          };
        },
      )
  unfolding transmit
  published v n rid a t o e h k l m still = ground arith

  pub received :
      (topic payload : Bytes) (key : String) (b : Ganglion) (ref : ℕ) (p : Synapse (Unit {0}))
      → lib.utf8.decode topic ≡ some key
      → lookup key b.synapses ≡ some ref
      → lookup ref b.objects ≡ some p
      → receive (topic, payload) b
        ≡ (outcome lib (Decoder.transduce p.dendrite (bytes payload) none), b)
  unfolding receive
  received topic payload key b ref p h k l = ground arith

  -- If a ganglion that is not closed has a transmitter for a neuron, whose encoder encodes the data and whose synapse has
  -- the neuron's name as its topic, and a subscriber has a synapse of that name, then transmitting
  -- publishes one message, and receiving it gives the encoded data to the subscriber's dendrite and
  -- changes nothing.
  pub publish-receive :
      (v : Value) (n : Neuron) (rid : Option ℕ) (a b : Ganglion) (t : EncoderTransmitter)
      (o p : Synapse (Unit {0})) (e : Encoded) (ref : ℕ)
      → lookup (name n) a.transmitters ≡ some t
      → t.encoder v ≡ ok e
      → lookup t.synapse a.objects ≡ some o
      → o.topic_bytes ≡ lib.utf8.encode (name n)
      → a.extra.pub_closed ≡ false
      → lookup (name n) b.synapses ≡ some ref
      → lookup ref b.objects ≡ some p
      → (frame : Bytes × Bytes) × (transmit v n rid a
          ≡ (ok tt, record a { extra = record a.extra { sent = frame ∷ a.extra.sent } }))
        × (receive frame b
            ≡ (outcome lib (Decoder.transduce p.dendrite (bytes (to_payload lib.utf8 e)) none), b))
  publish-receive v n rid a b t o p e ref h k l m still x y = (
    (lib.utf8.encode (name n), to_payload lib.utf8 e),
    published v n rid a t o e h k l m still,
    received (lib.utf8.encode (name n)) (to_payload lib.utf8 e) (name n) b ref p
        (lib.utf8.decode-encode (name n)) x y,
  )
