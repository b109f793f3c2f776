-- ===== src/Ganglion/TcpPair.antt =====
-- src/plexo/ganglion/tcp_pair.py, `GanglionZmqTcpPair`, with src/plexo/synapse/zeromq_basic.py: all
-- synapses share one pair socket, and a message carries the name of its neuron.
pub mod Delivery
pub mod Joined
pub mod Link
use Prim.Native.String.{◌++◌ as ◌+++◌}
use pyplexo.Base.{
  ℕ, ◌≡◌, String, Bool, true, false, Option, none, some, List, [], ◌∷◌, ◌++◌, ite, string_key,
  if◌then◌else◌, ◌||◌,
}
use pyplexo.Codec.{Encoded, bytes, CodecClass, Utf8}
use pyplexo.Dendrite.{Call}
use pyplexo.Dendrite.Decoder
use pyplexo.Exceptions.{
  Action, Result, ok, raise, pending, Error, pure, throw, throw_if, gets, modify, lift, or_throw,
  catch, ◌>>=◌, ◌>>◌, synapse_exists, value_error, attribute_error, cancelled_error, zmq_error,
}
use pyplexo.Neuron.{Neuron, name}
use pyplexo.Schema.{Bytes, Value, PlexoMessage}
use pyplexo.Ganglion.External
use pyplexo.Ganglion.External.State
use pyplexo.Ganglion.External.State.{
  External, Synapse, Hooks, Task, recv_loop, has, deref, new_synapse, put_new, to_payload,
}

-- What the code uses of ZeroMQ, `ipaddress`, the host and the generated envelope.
pub record Library : Type 0 where
  pub utf8 : Utf8
  pub pack : PlexoMessage → Bytes
  pub unpack : Bytes → Result PlexoMessage
  pub unpack-pack : (m : PlexoMessage) → unpack (pack m) ≡ ok m
  pub bind : String → Bool
  pub compressed : ℕ → String
  pub decimal : ℕ → String
  pub primary_ip : String

pub record Pair : Type 0 where
  pub bind_interface : Option String
  pub port : Option ℕ
  pub connection_string : Option String
  pub socket : Bool
  -- the addresses that the socket is bound and connected to
  pub bound : List String
  pub connected : List String
  -- whether the socket is up with a peer that takes what it sends, which is the network's doing
  pub peer : Bool
  pub recv_loop_running : Bool
  -- whether `close` has closed the socket
  pub closed : Bool
  -- what has left on the socket, the latest first
  pub sent : List Bytes

abbrev pub Ganglion : Type 0
Ganglion = External Pair (Unit {0})

abbrev change : (Pair → Pair) → Action Ganglion (Unit {0})
change f = modify (λ s. record s { extra = f s.extra })

module _ (lib : Library) where
  -- The property `socket`, which makes the socket when it is first read.
  unfoldable pub socket : Action Ganglion (Unit {0})
  socket = change (λ p. record p { socket = true })

  unfoldable pub bind_to_socket : String → Action Ganglion (Unit {0})
  bind_to_socket address = do
    socket
    throw_if (if lib.bind address then false else true) zmq_error
    change (λ p. record p { bound = p.bound ++ address ∷ [] })

  unfoldable pub connect_to_peer : ℕ → ℕ → Action Ganglion (Unit {0})
  connect_to_peer address port = do
    socket
    change (λ p. record p {
      connected =
          p.connected
          ++ ("tcp://" +++ (lib.compressed address +++ (":" +++ lib.decimal port))) ∷ [];
    })

  interface_or : Option String → String
  interface_or none = lib.primary_ip
  interface_or (some i) = ite (string_key.dec i "") lib.primary_ip i

  -- What `__init__` does with its peer: the socket is bound, or connected to the peer.
  unfoldable pub open_socket : Option String → ℕ → Option (ℕ × ℕ) → Action Ganglion (Unit {0})
  unfolding interface_or bind_to_socket connect_to_peer
  open_socket interface port none = do
    let i = interface_or interface
    let address = "tcp://" +++ (i +++ (":" +++ lib.decimal port))
    change (λ p. record p {
      bind_interface = some i;
      port = some port;
      connection_string = some address;
    })
    bind_to_socket address
  open_socket interface port (some (a, p)) = connect_to_peer a p

  -- `GanglionZmqTcpPair(…)`
  unfoldable pub init :
      Option String
      → ℕ
      → Option (ℕ × ℕ)
      → List String
      → List String
      → List CodecClass
      → Result (Unit {0}) × Ganglion
  unfolding open_socket State.init
  init interface port peer relevant ignored allowed = open_socket interface port peer (
      State.init relevant ignored allowed (record {
        bind_interface = none;
        port = none;
        connection_string = none;
        socket = false;
        bound = [];
        connected = [];
        peer = false;
        recv_loop_running = false;
        closed = false;
        sent = [];
      }))

  -- `close`, over that of the base class
  unfoldable pub close : Action Ganglion (Unit {0})
  unfolding External.close
  close = do External.close; change (λ p. record p { closed = p.socket || p.closed })

  -- `Socket.send`, as ZeroMQ documents it: a closed socket raises, and a pair socket that has no peer,
  -- for which nothing is queued where IMMEDIATE is set, waits for one.
  abbrev send_frame : Bytes → Action Ganglion (Unit {0})
  send_frame frame s =
      if s.extra.closed
      then (raise zmq_error, s)
      else if s.extra.peer
      then (ok tt, record s { extra = record s.extra { sent = frame ∷ s.extra.sent } })
      else (pending, s)

  -- `SynapseZmqBasic.transmit`
  unfoldable pub send : ℕ → Encoded → Option ℕ → Action Ganglion (Unit {0})
  unfolding to_payload
  send ref e rid = do
    o ← deref ref
    let m : PlexoMessage = record { type_name = o.topic_bytes; payload = to_payload lib.utf8 e }
    send_frame (lib.pack m)

  unfoldable pub create_synapse_by_name : Neuron → String → Action Ganglion ℕ
  unfolding new_synapse put_new
  create_synapse_by_name n key = do
    exists ← gets (λ s. has key s.synapses)
    throw_if exists synapse_exists
    socket
    ref ← gets (λ s. s.next_object)
    modify (put_new key (new_synapse lib.utf8 n tt))
    pure ref

  abbrev pub hooks : Hooks Pair (Unit {0})
  hooks = record {
    create_synapse_by_name = create_synapse_by_name;
    add_reactants = State.add_reactants;
    add_raw_reactants = State.add_raw_reactants;
  }

  unfoldable pub transmit : Value → Neuron → Option ℕ → Action Ganglion (Unit {0})
  unfolding External.transmit send
  transmit v n rid = External.transmit send v n rid

  -- `_start_recv_loop_if_needed`
  unfoldable pub start_recv_loop_if_needed : Action Ganglion (Unit {0})
  start_recv_loop_if_needed = modify (λ s.
      if s.extra.recv_loop_running then s else elim s.synapses [
        | [] ↦ s
        | _ ∷ _ ↦ record s {
          tasks = s.tasks ++ recv_loop ∷ [];
          extra = record s.extra { recv_loop_running = true };
        }
      ])

  -- `adapt`, over that of the base class
  unfoldable pub adapt : Neuron → List ℕ → List ℕ → Action Ganglion (Unit {0})
  unfolding External.adapt External.react External.react_raw start_recv_loop_if_needed
  adapt n rs raws = do
    External.adapt hooks (External.react hooks) (External.react_raw hooks) n rs raws
    start_recv_loop_if_needed

  -- The calls of a transduction, or its exception.
  pub outcome : Result (Unit {0}) × List Call → Result (List Call)
  outcome (ok _, calls) = ok calls
  outcome (raise e, calls) = raise e
  outcome (pending, calls) = pending

  -- What `_recv_loop` does with data that came, in its `try`.
  unfoldable pub receive : Bytes → Action Ganglion (List Call)
  unfolding External.get_synapse_by_name outcome Decoder.transduce
  receive data_in = do
    m ← lift (lib.unpack data_in)
    key ← or_throw (lib.utf8.decode m.type_name) value_error
    ref ← External.get_synapse_by_name hooks key none
    o ← deref ref
    lift (outcome (Decoder.transduce o.dendrite (bytes m.payload) none))

  -- Its handlers: an AttributeError or a cancellation ends the loop, any other exception is logged.
  unfoldable pub ended : Error → Action Ganglion (List Call)
  ended attribute_error = do
    change (λ p. record p { recv_loop_running = false })
    throw attribute_error
  ended cancelled_error = do
    change (λ p. record p { recv_loop_running = false })
    throw cancelled_error
  ended e = pure []

  -- One round of `_recv_loop`.
  unfoldable pub recv_loop_round : Bytes → Action Ganglion (List Call)
  recv_loop_round data_in = do
    change (λ p. record p { socket = true })
    catch (receive data_in) ended
