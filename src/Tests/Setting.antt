-- ===== src/Tests/Setting.antt =====
-- A network, generated structures and ganglia for the runs.
use pyplexo.Base.{ℕ, true, false, Option, none, some, [], ◌∷◌, refl}
use pyplexo.Codec.{Serialiser, Utf8, Codec, string}
use pyplexo.Exceptions.{ok, raise, value_error}
use pyplexo.IpLease.{Choice}
use pyplexo.Neuron.{Neuron}
use pyplexo.Schema.{
  Bytes, PlexoPreparation, PlexoPromise, PlexoProposal, PlexoHeartbeat, PlexoApproval,
}
use pyplexo.Synapse.Epgm.{Net, Epgm}
use pyplexo.Ganglion.External.State.{Synapse, EncoderTransmitter}
use pyplexo.Ganglion.Multicast.State.{Multicast, Ganglion, Env}
use pyplexo.Tests.Coding.{coding}

-- An address is packed into one number.
abbrev pub unpacked : Bytes → Option ℕ
unpacked (a ∷ []) = some a
unpacked _ = none

abbrev pub net : Net
net = record {
  utf8 = coding;
  is_multicast = λ _. true;
  compressed = λ _. "239.255.0.9";
  decimal = λ _. "5560";
  bind = λ _. true;
  packed = λ a. a ∷ [];
  ip_address = unpacked;
  ip_address-packed = λ _. refl;
  primary_ip = "192.0.2.1";
}

abbrev pub struct : Serialiser
struct = record { dumps = λ _. ok (7 ∷ []); loads = λ _. raise value_error }

abbrev pub first : Choice
first a rest = a

abbrev pub env : Env
env = record {
  net = net;
  structs = record {
    approval = struct;
    heartbeat = struct;
    preparation = struct;
    promise = struct;
    proposal = struct;
    rejection = struct;
  };
  choose = first;
}

abbrev pub multicast : Multicast
multicast = record {
  bind_interface = some "eth0";
  port = 5560;
  heartbeat_interval_seconds = 30;
  proposal_timeout_seconds = 5;
  ip_lease_manager = record {
    ip_lease_map =
        (0, true)
        ∷ (1, true)
        ∷ (2, true)
        ∷ (3, true)
        ∷ (4, true)
        ∷ (5, true)
        ∷ (40, false)
        ∷ (41, false)
        ∷ [];
    available_ips = 40 ∷ 41 ∷ [];
  };
  reserved_addresses = 0 ∷ 1 ∷ 2 ∷ 3 ∷ 4 ∷ 5 ∷ [];
  synapses_by_address = [];
  instance_id = 11;
  heartbeats = [];
  num_peers = 1;
  proposals = [];
  preparation_timers = [];
  preparation_promises = [];
  preparation_rejections = [];
  proposal_timers = [];
  proposal_approvals = [];
  startup_done = false;
  sent = [];
}

-- A ganglion that holds no synapse yet.
abbrev pub idle : Ganglion
idle = record {
  tasks = [];
  synapses = [];
  objects = [];
  next_object = 0;
  transmitters = [];
  external_transmitters = [];
  name_neurons = [];
  relevant_neurons = [];
  ignored_neurons = [];
  allowed_codecs = [];
  extra = multicast;
}

-- A neuron of the program.
abbrev pub note : Neuron
note = record {
  namespace = record { delimiter = "."; path = "org.example" };
  codec = record {
    class = Codec.class (string coding);
    name = "string_UTF-8";
    encode = Codec.encode (string coding);
    decode = Codec.decode (string coding);
  };
  type_name_alias = "Note";
}

abbrev pub channel : Epgm
channel = record {
  bind_interface = "eth0";
  port = 5560;
  startup_done = true;
  multicast_address = 4;
  connection_string = "epgm://eth0;239.255.0.9:5560";
  socket_pub = true;
  socket_sub = false;
  recv_loops = 0;
}

abbrev pub synapse : Synapse Epgm
synapse = record {
  neuron = note;
  topic_bytes = 5 ∷ [];
  dendrite = record { neuron = note; reactants = []; raw_reactants = [] };
  channel = channel;
}

abbrev pub sender : EncoderTransmitter
sender = record { synapse = 0; encoder = λ _. ok (pyplexo.Codec.bytes (7 ∷ [])) }

-- A ganglion that is started, and sends preparations and proposals on one synapse.
abbrev pub running : Ganglion
running = record {
  tasks = [];
  synapses = [];
  objects = (0, synapse) ∷ [];
  next_object = 1;
  transmitters =
      ("dev.plexo.PlexoPreparation.capnp", sender) ∷ ("dev.plexo.PlexoProposal.capnp", sender) ∷ [];
  external_transmitters = [];
  name_neurons = [];
  relevant_neurons = [];
  ignored_neurons = [];
  allowed_codecs = [];
  extra = record multicast { startup_done = true };
}

-- The messages of another process, 12, and of this one, for the type with the bytes 5.
abbrev pub preparation : PlexoPreparation
preparation = record { instance_id = 12; proposal_id = 100; type_name = 5 ∷ [] }

abbrev pub next_preparation : PlexoPreparation
next_preparation = record { instance_id = 13; proposal_id = 101; type_name = 5 ∷ [] }

abbrev pub own_preparation : PlexoPreparation
own_preparation = record { instance_id = 11; proposal_id = 99; type_name = 5 ∷ [] }

abbrev pub proposal : PlexoProposal
proposal = record {
  instance_id = 12;
  proposal_id = 100;
  type_name = 5 ∷ [];
  multicast_ip = some (40 ∷ []);
}

abbrev pub promise : PlexoPromise
promise = record {
  instance_id = 11;
  proposal_id = 99;
  type_name = 5 ∷ [];
  accepted_instance_id = 12;
  accepted_proposal_id = 90;
  multicast_ip = some (41 ∷ []);
}

abbrev pub newer_promise : PlexoPromise
newer_promise = record {
  instance_id = 11;
  proposal_id = 99;
  type_name = 5 ∷ [];
  accepted_instance_id = 13;
  accepted_proposal_id = 95;
  multicast_ip = some (40 ∷ []);
}

abbrev pub approval : PlexoApproval
approval = record {
  instance_id = 11;
  proposal_id = 99;
  type_name = 5 ∷ [];
  multicast_ip = some (40 ∷ []);
}

abbrev pub heartbeat : PlexoHeartbeat
heartbeat = record { instance_id = 12 }
