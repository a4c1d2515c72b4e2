-- ===== src/Lib.antt =====
-- The communication core of the central factory hub, the referee box of the LLSF, RoCKIn and @Work
-- competitions: how robots' and controllers' messages get in and out of the hub, and how the hub
-- drives the PLCs of the field.
--
-- Messages. A message on a stream is a frame header, a message header and the bytes that protobuf
-- wrote (src/libs/protobuf_comm/frame_header.h, queue_entry.h: Wire; Wire/Layout has the bytes).
-- The message register (message_register.cpp: Register) knows the message types by component and
-- type number, and by name; it writes headers (serialize) and finds the type to parse a payload
-- with (deserialize). The stream server (server.cpp: Server) keeps a session for each client,
-- reads headers and payloads by completion handlers (Server/Handlers), signals what it receives,
-- and writes (Server/Sending) through an outbound queue per session (Outbound), which allows one
-- write at a time; Server/Events makes it a state machine. libprotobuf is an interface (Protobuf),
-- whose laws are hypotheses; Protobuf/Plain is an instance that has them.
--
-- The other ends. The stream client (client.cpp: Client) holds one session at a time and reads
-- frames with or without a message header; Client/Events makes it a state machine, and
-- Client/Channel takes whole histories of it (Client/Histories) against a receiver. The UDP peer
-- (peer.cpp: Peer) puts a message into one datagram (Peer/Sending), in either header version,
-- encrypted if it has a key, and reads datagrams (Peer/Receiving); Peer/Events makes it a state
-- machine. The encryptor and the decryptor (crypto.cpp: Crypto) call OpenSSL, which is an
-- interface with its laws as hypotheses; Crypto/Plain is an instance that has them.
--
-- The CLIPS communicator (src/libs/protobuf_clips/communicator.cpp: Communicator) gives the rule
-- engine one ID for each server client, client and peer, sends a message to whichever of them an
-- ID stands for (Sending), and asserts what they signal as facts (Handlers). Communicator/Events
-- makes it a state machine; Communicator/Fields gives rules the fields of messages. Servers,
-- clients and peers are an interface there, which Communicator/Stream fills for the stream server.
-- Communicator/Locks has the steps that its functions take on its two mutexes.
--
-- The field. src/libs/llsf_sps/sps_comm.cpp (Sps) sets the signal lights of the machines
-- (Sps/Signals) and reads and writes the RFID tags of pucks (Sps/Readers), in the registers of
-- PLCs behind libmodbus, which is an interface. src/libs/utils/llsf/machines.cpp (Machines) names
-- the machines. The thread for the conveyor belt of RoCKIn
-- (rockin/plugins/triggered_conveyor_belt/triggered_conveyor_belt_thread.cpp: ConveyorBelt) sends
-- each command of the rules until the belt confirms its number (ConveyorBelt/Loop);
-- ConveyorBelt/Events makes it a state machine, over ZeroMQ, protobuf and the clock.
--
-- How the code corresponds. A function of the code is a definition of the same name, less the
-- prefix clips_, and overloads are told apart (send_message, new_message_for_name,
-- set_light_by_name); an object's fields are a record without their trailing underscores; a
-- completion handler or a member function maps the state before to the state after, and what it
-- starts or signals is a list of actions. An exception is an error value, with one constructor for
-- each throw. A pointer to a session is the number of an object in a store, so that a session
-- outlives its entry in the table of the server. A `std::map` is an association list in the order
-- of its keys (Common/Dict). Unsigned integers are natural numbers with their wrap-around written
-- out; bytes are numbers below 256.
--
-- Fuel. Only the loop of `write_rfid` that waits for a PLC has fuel; Sps/Writing shows that as
-- much fuel as the PLC needs reads is enough.
--
-- What the parameters stand for. The outcome of an asynchronous operation is an argument of its
-- completion handler, the query of the local interfaces is a list of addresses, and OpenSSL is
-- seeded by the vector that `RAND_bytes` would give. A datagram is what the receive buffer holds
-- of it, at most 1024 bytes. Where a decryption fails, the bytes that it has already written are
-- not kept: the code does not read them again.
--
-- `next_client_id_`, which no constructor sets, starts from a natural number. The client IDs are
-- natural numbers, so that the test `client_id >= 0` holds of each.
--
-- Not modelled: the mutexes of the register, the streams and the queue, each of which covers a
-- whole operation here; what two threads do to a peer at once, but for the completion of a write
-- in the midst of `setup_crypto` (Peer/States); exceptions of the slots of a signal, and of
-- `remote_endpoint` in `start_session`; the ownership of message pointers; destructors and the I/O
-- threads; the graphical tools, the rule base, the other plugins, logging, configuration, and the
-- parts of the Fawkes core library.
pub mod Common
pub mod Wire
pub mod Protobuf
pub mod Register
pub mod Outbound
pub mod Server
pub mod Sps
pub mod Machines
pub mod Communicator
pub mod Client
pub mod Crypto
pub mod Peer
pub mod ConveyorBelt
