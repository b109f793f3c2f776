-- ===== src/Examples/TcpPubSub/Send.antt =====
-- examples/plexus/tcp_pubsub/pickle_send_1.py
use pyplexo.Base.{ℕ, String, none, [], ◌∷◌}
use pyplexo.Codec.{pickle, Serialiser}
use pyplexo.Exceptions.{Action, Result, pure, lift, ◌>>◌}
use pyplexo.Namespace
use pyplexo.Neuron
use pyplexo.Neuron.{Neuron, name}
use pyplexo.Schema.{Value, attributes}
use pyplexo.Ganglion.TcpPubSub
use pyplexo.Ganglion.TcpPair.{Library}
use pyplexo.Ganglion.TcpPubSub.{Ganglion}
use pyplexo.Ganglion.TcpPubSub.Link.{link}
use pyplexo.Plexus
use pyplexo.Plexus.{Plexus}
use pyplexo.Plexus.Bridge
use pyplexo.Plexus.Bridge.{Joint, bridge}
use pyplexo.Examples.Exchange.{Handler, most_calls, paced}
use pyplexo.Examples.Exchange.Attributes.{hello}

-- `Foo(message, message_id, message_num, node_id)`
unfoldable pub foo : (message message_id message_num node_id : String) → Value
foo message message_id message_num node_id = attributes "Foo" (
    ("message", message)
    ∷ ("message_id", message_id)
    ∷ ("message_num", message_num)
    ∷ ("node_id", node_id)
    ∷ [])

-- `test_port_pub` and `test_port_sub`
abbrev pub test_port_pub : ℕ
test_port_pub = 5571

abbrev pub test_port_sub : ℕ
test_port_sub = 5572

-- `primary_ip` is the number of `IPv4Address(get_primary_ip())`.
module _ (lib : Library) (pickles : Serialiser) (uuid1 : ℕ → String)
    (primary_ip own_entry link_entry bar_reaction : ℕ) where
  pub namespace : Namespace.Namespace
  unfolding Namespace.init
  namespace = Namespace.init ("dev" ∷ "plexo" ∷ "test" ∷ []) "."

  unfoldable pub foo_neuron : Neuron
  unfolding Neuron.init pickle namespace
  foo_neuron = Neuron.init "Foo" namespace (pickle pickles) none

  unfoldable pub bar_neuron : Neuron
  unfolding Neuron.init pickle namespace
  bar_neuron = Neuron.init "Bar" namespace (pickle pickles) none

  -- The message of a round, with the identity that `uuid.uuid1()` gives it
  unfoldable pub message : ℕ → Value
  unfolding foo hello
  message i =
      foo (hello "Hello, Plexo+TcpPubSub " (lib.decimal i)) (uuid1 i) (lib.decimal i)
        "pickle_send_1.py"

  -- The program's reactants: `_bar_reaction` notes what it gets.
  unfoldable pub reactions : Handler Ganglion
  reactions r v n rid = pure tt

  unfoldable pub tcp_pubsub_ganglion : Result (Unit {0}) × Ganglion
  unfolding TcpPubSub.init name
  tcp_pubsub_ganglion =
      TcpPubSub.init lib none test_port_pub ((primary_ip, test_port_sub) ∷ [])
        (name bar_neuron ∷ name foo_neuron ∷ []) [] []

  -- What the program does with its plexus, wherever that stands, and while it sleeps.
  module _ {W : Type 0}
      (on_plexus : Action (Plexus (Joint Ganglion)) (Unit {0}) → Action W (Unit {0}))
      (sleep : Action W (Unit {0})) where
    unfoldable pub send_foo_hello_str : ℕ → ℕ → Action W (Unit {0})
    unfolding paced Bridge.transmit
    send_foo_hello_str =
        paced
          (λ v. on_plexus (
            Bridge.transmit lib.utf8 (link lib) own_entry link_entry reactions most_calls v
              foo_neuron))
          sleep message

    -- `run_async`, with so many rounds of its loop
    unfoldable pub run_async : ℕ → Action W (Unit {0})
    unfolding send_foo_hello_str Plexus.adapt
    run_async k = do
      on_plexus (do
        Plexus.adapt (bridge lib.utf8 (link lib) own_entry link_entry) foo_neuron []
        Plexus.adapt (bridge lib.utf8 (link lib) own_entry link_entry) bar_neuron
            (bar_reaction ∷ []))
      send_foo_hello_str k 1

    -- `run`, once the ganglion and the plexus over it are made: to make the ganglion may raise.
    unfoldable pub run : ℕ → Action W (Unit {0})
    unfolding run_async tcp_pubsub_ganglion
    run k = do lift tcp_pubsub_ganglion.0; run_async k
