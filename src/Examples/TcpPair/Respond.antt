-- ===== src/Examples/TcpPair/Respond.antt =====
-- examples/plexus/tcp_pair/pickle_respond_1.py
use pyplexo.Base.{ℕ, String, none, some, [], ◌∷◌, contains, ℕ_key, if◌then◌else◌}
use pyplexo.Codec.{pickle, Serialiser, pickle_codec}
use pyplexo.Exceptions.{Action, Result, pure, lift, or_throw, catch, ◌>>◌, ◌>>=◌, attribute_error}
use pyplexo.Namespace
use pyplexo.Neuron
use pyplexo.Neuron.{Neuron}
use pyplexo.Schema.{Value, attributes}
use pyplexo.Ganglion.TcpPair
use pyplexo.Ganglion.TcpPair.{Library, Ganglion}
use pyplexo.Ganglion.TcpPair.Link.{link}
use pyplexo.Plexus
use pyplexo.Plexus.{Plexus}
use pyplexo.Plexus.Bridge.{Joint, bridge}
use pyplexo.Examples.Exchange.{Handler}
use pyplexo.Examples.Exchange.Attributes.{attribute}
use pyplexo.Examples.Rounds.{log_not_found}

-- `Bar(foo_message_id, node_id)`
unfoldable pub bar : (foo_message_id node_id : String) → Value
bar foo_message_id node_id =
    attributes "Bar" (("foo_message_id", foo_message_id) ∷ ("node_id", node_id) ∷ [])

-- `test_port_connect`, and the default of the ganglion's own port
abbrev pub test_port_connect : ℕ
test_port_connect = 5581

abbrev default_port : ℕ
default_port = 5580

-- `primary_ip` is the number of `IPv4Address(get_primary_ip())`.
module _ (lib : Library) (pickles : Serialiser) (primary_ip own_entry link_entry reaction : ℕ) where
  pub namespace : Namespace.Namespace
  unfolding Namespace.init
  namespace = Namespace.init ("dev" ∷ "plexo" ∷ "test" ∷ []) "."

  unfoldable pub foo_neuron : Neuron
  unfolding Neuron.init pickle namespace
  foo_neuron = Neuron.init "Foo" namespace (pickle pickles) none

  unfoldable pub bar_neuron : Neuron
  unfolding Neuron.init pickle namespace
  bar_neuron = Neuron.init "Bar" namespace (pickle pickles) none

  -- `_foo_reaction`, but for its log
  unfoldable pub foo_reaction : Value → Action (Plexus (Joint Ganglion)) (Unit {0})
  unfolding attribute bar log_not_found Plexus.transmit_data
  foo_reaction foo =
      catch
        (do
          message_id ← or_throw (attribute "message_id" foo) attribute_error
          Plexus.transmit_data (bridge lib.utf8 (link lib) own_entry link_entry)
              (bar message_id "pickle_respond_1.py") bar_neuron none)
        log_not_found

  -- The program's reactants.
  unfoldable pub reactions : Handler Ganglion
  unfolding foo_reaction
  reactions r v n rid = if contains r (reaction ∷ []) then foo_reaction v else pure tt

  unfoldable pub tcp_pair_ganglion : Result (Unit {0}) × Ganglion
  unfolding TcpPair.init
  tcp_pair_ganglion =
      TcpPair.init lib none default_port (some (primary_ip, test_port_connect)) [] []
        (pickle_codec ∷ [])

  module _ {W : Type 0}
      (on_plexus : Action (Plexus (Joint Ganglion)) (Unit {0}) → Action W (Unit {0})) where
    -- `run_async`, up to `wait_until_cancelled`, which only sleeps
    unfoldable pub run_async : Action W (Unit {0})
    unfolding Plexus.adapt
    run_async = on_plexus (do
      Plexus.adapt (bridge lib.utf8 (link lib) own_entry link_entry) foo_neuron (reaction ∷ [])
      Plexus.adapt (bridge lib.utf8 (link lib) own_entry link_entry) bar_neuron [])

    -- `run`, once the ganglion and the plexus over it are made
    unfoldable pub run : Action W (Unit {0})
    unfolding run_async tcp_pair_ganglion
    run = do lift tcp_pair_ganglion.0; run_async
