-- ===== src/Tests/Tcp.antt =====
-- Runs of the theorems on ganglia over TCP.
use pyplexo.Base.{
  ℕ, ◌≡◌, refl, true, false, none, take, length, List, [], ◌∷◌, ◌++◌, map, contains, ℕ_key,
  string_key, ℕ_discrete, string_discrete, drop, take-append, drop-append, ◌⊎◌,
}
use pyplexo.Codec.{bytes, string}
use pyplexo.Dendrite.{reacts}
use pyplexo.Dendrite.Decoder
use pyplexo.Exceptions.{Result, ok, raise, value_error, attribute_error, cancelled_error}
use pyplexo.Neuron.{name, encode, decode}
use pyplexo.Schema.{Bytes, text, PlexoMessage}
use pyplexo.Ganglion.External.State.{Synapse, to_payload}
use pyplexo.Ganglion.External
use pyplexo.Ganglion.TcpPair
use pyplexo.Ganglion.TcpPubSub
use pyplexo.Ganglion.TcpPubSub.Joined.{adapt-publish-receive}
use pyplexo.Ganglion.TcpPair.{Library, Pair}
use pyplexo.Ganglion.TcpPair.Joined.{adapt-transmit-receive}
use pyplexo.Ganglion.External.Joined.{IsNew}
use pyplexo.Ganglion.TcpPair.Delivery.{recv_loop_round-raise}
use pyplexo.Tests.Coding.{coding}
use pyplexo.Tests.Setting.{note as note_neuron, sender}

abbrev pub unpacked_message : Bytes → Result PlexoMessage
unpacked_message [] = raise value_error
unpacked_message (n ∷ rest) = ok (record { type_name = take n rest; payload = drop n rest })

pub unpacked-packed :
    (m : PlexoMessage) → unpacked_message (length m.type_name ∷ m.type_name ++ m.payload) ≡ ok m
unpacked-packed m = rw (take-append m.type_name m.payload, drop-append m.type_name m.payload)

-- An envelope with the length of the name in front.
abbrev pub library : Library
library = record {
  utf8 = coding;
  pack = λ m. length m.type_name ∷ m.type_name ++ m.payload;
  unpack = unpacked_message;
  unpack-pack = unpacked-packed;
  bind = λ _. true;
  compressed = λ _. "192.0.2.1";
  decimal = λ _. "5580";
  primary_ip = "192.0.2.1";
}

abbrev object : Synapse (Unit {0})
object = record {
  neuron = note_neuron;
  topic_bytes = coding.encode (name note_neuron);
  dendrite = record { neuron = note_neuron; reactants = 1 ∷ []; raw_reactants = [] };
  channel = tt;
}

abbrev pair : TcpPair.Ganglion
pair = record {
  tasks = [];
  synapses = (name note_neuron, 0) ∷ [];
  objects = (0, object) ∷ [];
  next_object = 1;
  transmitters = (name note_neuron, sender) ∷ [];
  external_transmitters = [];
  name_neurons = [];
  relevant_neurons = [];
  ignored_neurons = [];
  allowed_codecs = [];
  extra = record {
    bind_interface = none;
    port = none;
    connection_string = none;
    socket = true;
    bound = [];
    connected = [];
    peer = true;
    recv_loop_running = true;
    closed = false;
    sent = [];
  };
}

-- A pair whose synapse has a codec that cannot decode.
abbrev broken : Synapse (Unit {0})
broken = record object {
  dendrite = record object.dendrite {
    neuron = record note_neuron {
      codec = record note_neuron.codec { decode = λ _. raise attribute_error };
    };
  };
}

abbrev broken_pair : TcpPair.Ganglion
broken_pair = record pair { objects = (0, broken) ∷ [] }

abbrev frame : Bytes
frame = library.pack (record { type_name = coding.encode (name note_neuron); payload = 7 ∷ [] })

recv_loop_round-raise_example :
    ((attribute_error ≡ attribute_error) ⊎ (attribute_error ≡ cancelled_error))
    × ((TcpPair.recv_loop_round library frame broken_pair).1.extra.recv_loop_running ≡ false)
unfolding name TcpPair.recv_loop_round TcpPair.receive TcpPair.ended External.get_synapse_by_name
    Decoder.transduce ℕ_discrete string_discrete
recv_loop_round-raise_example = recv_loop_round-raise library frame broken_pair attribute_error refl

abbrev hub : TcpPubSub.Ganglion
hub = record {
  tasks = [];
  synapses = (name note_neuron, 0) ∷ [];
  objects = (0, object) ∷ [];
  next_object = 1;
  transmitters = (name note_neuron, sender) ∷ [];
  external_transmitters = [];
  name_neurons = [];
  relevant_neurons = [];
  ignored_neurons = [];
  allowed_codecs = [];
  extra = record {
    bind_interface = "192.0.2.1";
    port_pub = 5570;
    connection_string_pub = "tcp://192.0.2.1:5570";
    socket_pub = true;
    socket_sub = true;
    bound = "tcp://192.0.2.1:5570" ∷ [];
    connected = [];
    recv_loop_running = true;
    pub_closed = false;
    sub_closed = false;
    sent = [];
  };
}

-- A pair with nothing in it.
abbrev blank : TcpPair.Ganglion
blank = record pair {
  synapses = [];
  objects = [];
  next_object = 0;
  transmitters = [];
  extra = record pair.extra { socket = false; recv_loop_running = false };
}

blank-IsNew : IsNew note_neuron blank
blank-IsNew = record { no_synapse = refl; no_transmitter = refl; no_raw_transmitter = refl }

adapt-transmit-receive_example :
    let c = (TcpPair.adapt library note_neuron [] [] blank).1 in
    let d = (TcpPair.adapt library note_neuron (1 ∷ 2 ∷ []) [] blank).1 in
    (frame : Bytes) × (reactants : List ℕ) × (TcpPair.transmit library
        (text "hello")
        note_neuron
        none
        c
      ≡ (ok tt, record c { extra = record c.extra { sent = frame ∷ c.extra.sent } }))
    × (TcpPair.receive library frame d
        ≡ (ok (map (λ r. reacts r (text "hello") note_neuron none) reactants), d))
    × ((r : ℕ) → contains r reactants ≡ contains r (1 ∷ 2 ∷ []))
unfolding External.capable string encode decode to_payload
adapt-transmit-receive_example =
    adapt-transmit-receive library note_neuron (1 ∷ 2 ∷ []) (text "hello") (text "hello") none
      (bytes (coding.encode "hello")) blank blank blank-IsNew blank-IsNew refl refl refl refl refl
      refl

-- A publisher, or a subscriber, with nothing in it.
abbrev blank_hub : TcpPubSub.Ganglion
blank_hub = record hub {
  synapses = [];
  objects = [];
  next_object = 0;
  transmitters = [];
  extra = record hub.extra { recv_loop_running = false };
}

blank_hub-IsNew : IsNew note_neuron blank_hub
blank_hub-IsNew = record { no_synapse = refl; no_transmitter = refl; no_raw_transmitter = refl }

adapt-publish-receive_example :
    let c = (TcpPubSub.adapt library note_neuron [] [] blank_hub).1 in
    let d = (TcpPubSub.adapt library note_neuron (1 ∷ 2 ∷ []) [] blank_hub).1 in
    (frame : Bytes × Bytes) × (reactants : List ℕ) × (TcpPubSub.transmit library
        (text "hello")
        note_neuron
        none
        c
      ≡ (ok tt, record c { extra = record c.extra { sent = frame ∷ c.extra.sent } }))
    × (TcpPubSub.receive library frame d
        ≡ (ok (map (λ r. reacts r (text "hello") note_neuron none) reactants), d))
    × ((r : ℕ) → contains r reactants ≡ contains r (1 ∷ 2 ∷ []))
unfolding External.capable string encode decode to_payload
adapt-publish-receive_example =
    adapt-publish-receive library note_neuron (1 ∷ 2 ∷ []) (text "hello") (text "hello") none
      (bytes (coding.encode "hello")) blank_hub blank_hub blank_hub-IsNew blank_hub-IsNew refl refl
      refl refl refl
