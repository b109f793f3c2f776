-- ===== src/Tests/Exchanges.antt =====
-- Runs of the theorems on programs that exchange messages.
use pyplexo.Base.{ℕ, true, String, List, [], ◌∷◌, contains, string_key, ℕ_key, if◌then◌else◌}
use pyplexo.Codec.{Serialiser, bytes, str}
use pyplexo.Exceptions.{Result, ok, raise, value_error}
use pyplexo.Schema.{Bytes, Value, attributes}
use pyplexo.Examples.Exchange.{Network}
use pyplexo.Examples.TcpPair.Both
use pyplexo.Examples.TcpPair.Send
use pyplexo.Examples.TcpPair.Respond
use pyplexo.Examples.TcpPubSub.Both as Hubs
use pyplexo.Examples.TcpPubSub.Send as HubSend
use pyplexo.Examples.TcpPubSub.Respond as HubRespond
use pyplexo.Ganglion.TcpPair
use pyplexo.Ganglion.TcpPair.Link.{link, view, frame, link-Lawful}
use pyplexo.Plexus.Bridge.Laws.{Lawful}
use pyplexo.Tests.Coding.{coding}
use pyplexo.Tests.Tcp.{library}

abbrev uuid1 : ℕ → String
uuid1 i = "2d1f"

abbrev foo_of : String → Value
foo_of message = attributes "Foo" (
    ("message", message)
    ∷ ("message_id", "2d1f")
    ∷ ("message_num", "5580")
    ∷ ("node_id", "pickle_send_1.py")
    ∷ [])

abbrev bar : Value
bar = attributes "Bar" (("foo_message_id", "2d1f") ∷ ("node_id", "pickle_respond_1.py") ∷ [])

-- A value is pickled as the number of its class.
abbrev dumped : Value → Result Bytes
dumped (attributes class fields) = if contains class ("Foo" ∷ []) then ok (1 ∷ []) else ok (2 ∷ [])
dumped _ = raise value_error

abbrev loaded : String → List ℕ → Result Value
loaded message [] = raise value_error
loaded message (n ∷ _) = if contains n (1 ∷ []) then ok (foo_of message) else ok bar

abbrev pickles : String → Serialiser
pickles message = record {
  dumps = dumped;
  loads = λ e. elim e [ bytes b ↦ loaded message b | str s ↦ raise value_error ];
}

abbrev pair_pickles : Serialiser
pair_pickles = pickles "Hello, Plexo+TcpPair 5580"

abbrev hub_pickles : Serialiser
hub_pickles = pickles "Hello, Plexo+TcpPubSub 5580"

-- A network that delivers every frame.
abbrev all_carried : Network
all_carried = record { to_there = λ _. true; to_here = λ _. true }

link-Lawful_example :
    Lawful coding (link library) 1 (view library ("tcp://192.0.2.1:5581" ∷ []) [] 1) (frame library)
link-Lawful_example = link-Lawful library ("tcp://192.0.2.1:5581" ∷ []) [] 1
