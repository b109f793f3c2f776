-- ===== src/Lib.antt =====
-- A model of plexo, a library of typed messages between processes, with the theorems on its core.
--
-- A neuron (src/plexo/neuron/neuron.py) is a type of data with a namespace and a codec. A ganglion holds a
-- synapse for each neuron and adapts to new ones; a synapse gives what it receives to the reactants of
-- its dendrite. The multicast ganglion (src/plexo/ganglion/plexo_multicast.py) gives each neuron
-- a multicast group of its own: processes agree on the group's address by a protocol of preparations,
-- promises, proposals and approvals, and lease it.
--
-- The files, with the code they are about (under src/plexo):
--   Exceptions: exceptions.py. A method is a function from the state of its object to its outcome (a
--     value, an exception, or pending) and the state that is left. Writes before an exception stay.
--   Schema: the messages of schema/plexo_multicast. Codec: codec and typing/codec.py.
--   Namespace, Neuron: namespace and neuron/neuron.py. A neuron is a key by its name.
--   Typing: typing/ganglion.py, the operations of a ganglion. Dendrite, Dendrite.Decoder: dendrite.py.
--   IpLease: ip_lease.py. Timer: timer.py. HostInformation: host_information.py.
--   Synapse.Epgm: synapse/zeromq_plexopubsub_epgm.py. Synapse.Epgm.Heard has two of them in a group.
--   Ganglion.External: ganglion/external.py, with synapse/base.py and transmitter.py. Synapses are
--     shared objects: they stand in a store, and maps and transmitters hold their references.
--     Ganglion.External.Fresh adapts to a new neuron over the laws of a subclass.
--   Ganglion.Internal: ganglion/internal.py and inproc.py, with synapse/inproc.py.
--   Ganglion.TcpPair: ganglion/tcp_pair.py, with synapse/zeromq_basic.py.
--   Ganglion.TcpPubSub: ganglion/tcp_pubsub.py, with synapse/zeromq_basic_pub.py.
--   Plexus: plexus.py, over what its ganglia do. Plexus.Spread has how data spreads over them, as a
--     relation between a delivery and what it leads to, and its sequences in any order; Plexus.Rate
--     and Plexus.Bound measure them. Which of the internal ganglia call the plexus's reactant when they
--     are given data is a parameter there: the plexus's own does, and one over TCP sends the data away.
--     Plexus.Own is a plexus with no ganglia but its own, and carries out the calls of reactants.
--     Plexus.Bridge is a plexus over its own and one other ganglion, its link, whose laws are in
--     Plexus.Bridge.Laws; Ganglion.TcpPair.Link and Ganglion.TcpPubSub.Link have them for the two
--     ganglia over TCP.
--   Axon: axon.py, over the methods of its ganglion.
--   Examples: the programs under examples that run in one process, and the sender of
--     examples/synapse/zmq-epgm, over the files above. A loop that
--     never ends runs for as many rounds as one asks for, so close, which stands after it, is never
--     reached. How Python writes a number is a parameter.
--     Examples.TcpPair and Examples.TcpPubSub are the programs of examples/plexus/tcp_pair and
--     examples/plexus/tcp_pubsub: Examples.Exchange has the two processes, and a network that carries
--     what one has sent to the other while it sleeps, where the addresses that one socket is bound to
--     and the other connected to match. The sockets are up before anything is sent. Which frames the
--     network delivers is a parameter, and the results on the programs suppose one that delivers each.
--   Ganglion.Multicast: ganglion/plexo_multicast.py. Ballot holds the functions at its top, State the
--     attributes, Transport the transmissions, Addresses the leases and synapses, Reactions the
--     handlers of messages, Replies what they answer, Consensus the proposer's attempts, Startup the
--     rest. Owners is about who has which address, Consensus.Alone, Settled and Creates about a ganglion without peers,
--     Consensus.Unordered about the order of promises.
--   Tests: runs at concrete inputs.
--
-- Numbers. A UInt64 of a message is a number, and so is an address; what `ipaddress` does is a field
-- of Net. A comparison with `num_peers / 2` is written with twice the other side. An identity of an
-- object or a reactant is a number.
--
-- Order. A handler runs to its end before the next event, as its locks and single thread have it where
-- it does not wait; while a coroutine waits for a timer, the events of a Round are handled.
-- `acquire_address_for_type` runs over a list of rounds, and past the list it is still pending.
-- The calls of reactants of a Plexus.Bridge wait in a queue, as tasks do in the event loop, and run in
-- the order in which they were made. Its loop carries out a given number of calls and is pending if
-- more wait; in Examples.Exchange the number is 4, since a frame leads to a call of the plexus's
-- reactant for the link, one of the program's, one of the plexus's for its own ganglion, and one of that
-- again for the reply.
--
-- Sockets. A send on a closed socket raises ZMQError, and one on a pair socket without a peer is
-- pending, as ZeroMQ documents them. Whether a pair socket has a peer is in the state of its ganglion,
-- and nothing but the network changes it.
--
-- Parameters. ZeroMQ's bind, `ipaddress`, UTF-8, the structures that capnpy generates, pickle, JSON
-- and the choice of `set.pop()` are arguments. Of UTF-8 the model assumes that decoding undoes
-- encoding, of `ipaddress` that reading undoes packing, of `pop` that it picks an element.
--
-- Not modelled: the sockets themselves, the other interfaces in src/plexo/typing,
-- the examples with axons over TCP or on a multicast ganglion, logging, locks and time.
pub mod Base
pub mod Exceptions
pub mod Schema
pub mod Codec
pub mod Namespace
pub mod Neuron
pub mod Typing
pub mod Dendrite
pub mod IpLease
pub mod Timer
pub mod HostInformation
pub mod Synapse
pub mod Ganglion
pub mod Plexus
pub mod Axon
pub mod Examples
pub mod Tests
