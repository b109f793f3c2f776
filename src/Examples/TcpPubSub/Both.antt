-- ===== src/Examples/TcpPubSub/Both.antt =====
-- The two programs of examples/plexus/tcp_pubsub, connected.
use pyplexo.Base.{ℕ, ◌≡◌, String, true, [], ◌∷◌, ℕ_key, string_key, arith}
use pyplexo.Codec.{Serialiser}
use pyplexo.Exceptions.{Result, ◌>>◌}
use pyplexo.Neuron
use pyplexo.Neuron.{Neuron}
use pyplexo.Schema.{Value}
use pyplexo.Ganglion.External
use pyplexo.Ganglion.TcpPubSub
use pyplexo.Ganglion.TcpPair.{Library}
use pyplexo.Ganglion.TcpPubSub.{Ganglion}
use pyplexo.Ganglion.TcpPubSub.Link.{link, view, frame, hub-Lawful}
use pyplexo.Plexus
use pyplexo.Plexus.{Plexus}
use pyplexo.Plexus.Bridge
use pyplexo.Plexus.Bridge.{Joint}
use Prim.Native.String.{◌++◌ as ◌+++◌}
use pyplexo.Plexus.Bridge.Laws.{View}
use pyplexo.Examples.Exchange.{Two, Handler, on_here, on_there, meanwhile, Network, IsReliable}
use pyplexo.Examples.Exchange.Good.{Sides}
use pyplexo.Examples.TcpPubSub.Send
use pyplexo.Examples.TcpPubSub.Respond

module _ (lib : Library) (pickles : Serialiser) (uuid1 : ℕ → String) (primary_ip : ℕ)
    (own_entry link_entry foo_reaction bar_reaction : ℕ) where
  abbrev foo : Neuron
  foo = Send.foo_neuron lib pickles uuid1 primary_ip own_entry link_entry bar_reaction

  abbrev bar : Neuron
  bar = Send.bar_neuron lib pickles uuid1 primary_ip own_entry link_entry bar_reaction

  abbrev pub message : ℕ → Value
  message = Send.message lib pickles uuid1 primary_ip own_entry link_entry bar_reaction

  -- The reply to a message, with the message's identity
  abbrev pub reply : ℕ → Value
  reply i = Respond.bar (uuid1 i) "pickle_respond_1.py"

  abbrev here_reactions : Handler Ganglion
  here_reactions = Send.reactions lib pickles uuid1 primary_ip own_entry link_entry bar_reaction

  abbrev there_reactions : Handler Ganglion
  there_reactions = Respond.reactions lib pickles primary_ip own_entry link_entry foo_reaction

  abbrev pub here_ganglion : Result (Unit {0}) × Ganglion
  here_ganglion =
      Send.tcp_pubsub_ganglion lib pickles uuid1 primary_ip own_entry link_entry bar_reaction

  abbrev pub there_ganglion : Result (Unit {0}) × Ganglion
  there_ganglion =
      Respond.tcp_pubsub_ganglion lib pickles primary_ip own_entry link_entry foo_reaction

  -- The ganglia once their sockets are up, as far as their addresses lead to each other.
  abbrev here_met : Ganglion
  here_met = (link lib).met here_ganglion.1 there_ganglion.1

  abbrev there_met : Ganglion
  there_met = (link lib).met there_ganglion.1 here_ganglion.1

  -- Both programs run, so many rounds of the one that sends, and the network carries what they send.
  unfoldable pub exchange : Network → ℕ → Result (Unit {0}) × Two Ganglion
  unfolding Send.run Respond.run Bridge.init
  exchange net k =
      (do
        Respond.run lib pickles primary_ip own_entry link_entry foo_reaction
            (on_there lib.utf8 (link lib) own_entry link_entry)
        Send.run lib pickles uuid1 primary_ip own_entry link_entry bar_reaction
            (on_here lib.utf8 (link lib) own_entry link_entry)
            (meanwhile lib.utf8 (link lib) own_entry link_entry net here_reactions there_reactions)
            k)
        (record {
          here = Bridge.init lib.utf8 (link lib) own_entry link_entry here_met;
          there = Bridge.init lib.utf8 (link lib) own_entry link_entry there_met;
          here_carried = 0;
          there_carried = 0;
        })

  -- The addresses that the programs bind, and those that they connect to.
  abbrev here_bound : String
  here_bound = "tcp://" +++ (lib.primary_ip +++ (":" +++ lib.decimal Send.test_port_pub))

  abbrev here_peer : String
  here_peer = "tcp://" +++ (lib.compressed primary_ip +++ (":" +++ lib.decimal Send.test_port_sub))

  abbrev there_bound : String
  there_bound = "tcp://" +++ (lib.primary_ip +++ (":" +++ lib.decimal Respond.test_port_pub))

  abbrev there_peer : String
  there_peer =
      "tcp://" +++ (lib.compressed primary_ip +++ (":" +++ lib.decimal Respond.test_port_sub))

  abbrev view_here : View Ganglion
  view_here = view lib (here_bound ∷ []) (here_peer ∷ []) link_entry

  abbrev view_there : View Ganglion
  view_there = view lib (there_bound ∷ []) (there_peer ∷ []) link_entry

  -- A socket with those addresses is connected to one with these.
  meets :
      lib.compressed primary_ip ≡ lib.primary_ip
      → (s t : Ganglion) → view_here.IsSound s
      → view_there.IsSound t
      → ((link lib).reaches s t ≡ true) × ((link lib).reaches t s ≡ true)
  meets same s t a b =
      rw
        (
          a.publishes, a.subscribes, b.publishes, b.subscribes, a.binds, a.connects, b.binds,
          b.connects, same,
        )
        (ground arith, ground arith)

  abbrev sides :
      (net : Network)
      → IsReliable net
      → lib.compressed primary_ip ≡ lib.primary_ip
      → Sides lib.utf8 (link lib) link_entry
  sides net sure same = record {
    net = net;
    sure = sure;
    frame = frame lib;
    view_here = view_here;
    view_there = view_there;
    law_here = hub-Lawful lib (here_bound ∷ []) (here_peer ∷ []) link_entry;
    law_there = hub-Lawful lib (there_bound ∷ []) (there_peer ∷ []) link_entry;
    meets = meets same;
  }
