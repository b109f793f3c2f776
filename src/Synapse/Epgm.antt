-- ===== src/Synapse/Epgm.antt =====
-- src/plexo/synapse/zeromq_plexopubsub_epgm.py: a synapse on a multicast group of its own. An address
-- is a number; ZeroMQ, the sockets' library, decides whether a bind succeeds.
pub mod Heard
use Prim.Native.String.{◌++◌}
use pyplexo.Base.{
  ℕ, ◌+◌, ◌≡◌, String, Bool, true, false, not, Option, none, some, List, [], ◌∷◌, get_elem?, length,
  ltb, ite, string_key, if◌then◌else◌,
}
use pyplexo.Codec.{Encoded, Utf8, bytes}
use pyplexo.Dendrite.{Call}
use pyplexo.Exceptions.{
  Action, Result, Error, ok, pure, throw, lift, catch, or_throw, index_error, attribute_error,
  cancelled_error, gets, modify, throw_if, ◌>>=◌, ◌>>◌, ip_address_is_not_multicast, zmq_error,
}
use pyplexo.Neuron.{Neuron}
use pyplexo.Schema.{Bytes}
use pyplexo.Dendrite.Decoder
use pyplexo.Ganglion.External.State.{Synapse, new_synapse, to_payload}

-- What the program uses of `ipaddress`, of ZeroMQ and of the host.
pub record Net : Type 0 where
  pub utf8 : Utf8
  pub is_multicast : ℕ → Bool
  pub compressed : ℕ → String
  pub decimal : ℕ → String
  pub bind : String → Bool
  pub packed : ℕ → Bytes
  pub ip_address : Bytes → Option ℕ
  pub ip_address-packed : (a : ℕ) → ip_address (packed a) ≡ some a
  pub primary_ip : String

pub record Epgm : Type 0 where
  pub bind_interface : String
  pub port : ℕ
  pub startup_done : Bool
  pub multicast_address : ℕ
  pub connection_string : String
  pub socket_pub : Bool
  pub socket_sub : Bool
  pub recv_loops : ℕ

-- What leaves on a socket: the topic and the payload, to a group.
pub record Frame : Type 0 where
  pub address : ℕ
  pub topic : Bytes
  pub payload : Bytes

abbrev set : (Epgm → Epgm) → Action (Synapse Epgm) (Unit {0})
set f = modify (λ o. record o { channel = f o.channel })

module _ (net : Net) where
  -- `"epgm://{};{}:{}".format(bind_interface, multicast_address.compressed, port)`
  unfoldable pub connection : Epgm → ℕ → String
  connection c a =
      "epgm://" ++ (c.bind_interface ++ (";" ++ (net.compressed a ++ (":" ++ net.decimal c.port))))

  -- `_create_socket_pub`
  create_socket_pub : Action (Synapse Epgm) (Unit {0})
  create_socket_pub = do
    set (λ c. record c { socket_pub = true })
    address ← gets (λ o. o.channel.connection_string)
    throw_if (not (net.bind address)) zmq_error

  -- `_start_recv_loop_if_needed`: one more task runs `_recv_loop`.
  unfoldable pub start_recv_loop_if_needed : Action (Synapse Epgm) (Unit {0})
  start_recv_loop_if_needed = modify (λ o.
      if ltb 0 (length o.dendrite.reactants)
      then record o { channel = record o.channel { recv_loops = o.channel.recv_loops + 1 } }
      else o)

  -- `_startup`
  unfoldable pub startup : ℕ → Action (Synapse Epgm) (Unit {0})
  unfolding create_socket_pub start_recv_loop_if_needed connection
  startup a = do
    set (λ c. record c { startup_done = false })
    throw_if (not (net.is_multicast a)) ip_address_is_not_multicast
    set (λ c. record c {
      multicast_address = a;
      socket_pub = false;
      socket_sub = false;
      connection_string = connection c a;
    })
    create_socket_pub
    start_recv_loop_if_needed
    set (λ c. record c { startup_done = true })

  -- `if not bind_interface: bind_interface = get_primary_ip()`
  interface_or : Option String → String
  interface_or none = net.primary_ip
  interface_or (some i) = ite (string_key.dec i "") net.primary_ip i

  -- `SynapseZmqPlexoPubSubEPGM(neuron, multicast_address, bind_interface, port, reactants, raw_reactants)`,
  -- where an event loop runs
  unfoldable pub init_with :
      List ℕ → List ℕ → Neuron → ℕ → Option String → ℕ → Result (Unit {0}) × Synapse Epgm
  unfolding startup interface_or new_synapse Decoder.init
  init_with rs raws n a bind_interface port =
      let o : Synapse Epgm = new_synapse net.utf8 n (record {
        bind_interface = interface_or bind_interface;
        port = port;
        startup_done = false;
        multicast_address = a;
        connection_string = "";
        socket_pub = false;
        socket_sub = false;
        recv_loops = 0;
      }) in
      startup a (record o { dendrite = Decoder.init n rs raws })

  -- The same with no reactants, as the ganglion calls it.
  unfoldable pub init : Neuron → ℕ → Option String → ℕ → Result (Unit {0}) × Synapse Epgm
  unfolding init_with
  init n a bind_interface port = init_with [] [] n a bind_interface port

  -- `close`: the tasks are cancelled and both sockets closed, but not forgotten.
  unfoldable pub close : Action (Synapse Epgm) (Unit {0})
  close = set (λ c. record c { recv_loops = 0 })

  unfoldable pub update : ℕ → Action (Synapse Epgm) (Unit {0})
  unfolding close startup
  update a = do close; startup a

  unfoldable pub add_reactants : List ℕ → Action (Synapse Epgm) (Unit {0})
  unfolding Decoder.add_reactants start_recv_loop_if_needed
  add_reactants rs = do
    modify (λ o. record o { dendrite = Decoder.add_reactants o.dendrite rs })
    start_recv_loop_if_needed

  -- The property `socket_sub`, which makes the socket when it is first read.
  unfoldable pub create_socket_sub : Action (Synapse Epgm) (Unit {0})
  create_socket_sub = set (λ c. record c { socket_sub = true })

  -- `transmit`: what goes out.
  unfoldable pub transmit : Synapse Epgm → Encoded → Option Frame
  unfolding to_payload
  transmit o e =
      if o.channel.socket_pub
      then some (record {
        address = o.channel.multicast_address;
        topic = o.topic_bytes;
        payload = to_payload net.utf8 e;
      })
      else none

  -- What `_recv_loop` does with a message that came, in its `try`: its second part is the data.
  unfoldable pub receive : List Bytes → Action (Synapse Epgm) (List Call)
  unfolding create_socket_sub Decoder.transduce
  receive parts = do
    create_socket_sub
    payload ← or_throw (get_elem? parts 1) index_error
    d ← gets (λ o. o.dendrite)
    let done = Decoder.transduce d (bytes payload) none
    lift done.0
    pure done.1

  -- Its handlers: an AttributeError or a cancellation ends the task, any other exception is logged.
  go_on : Error → Action (Synapse Epgm) (List Call)
  go_on attribute_error = throw attribute_error
  go_on cancelled_error = throw cancelled_error
  go_on e = pure []

  -- One round of `_recv_loop`.
  unfoldable pub recv_loop_round : List Bytes → Action (Synapse Epgm) (List Call)
  unfolding go_on
  recv_loop_round parts = catch (receive parts) go_on
