-- ===== src/Server/Examples.antt =====
-- Tests of the stream server, and its theorems at concrete servers.
use at_work_central_factory.Common.{
  ℕ, ◌≤◌, ◌<◌, ◌≡◌, refl, true, false, some, inl, ◌⊎◌, List, [], ◌∷◌, ◌++◌, ok, err, arith, length,
  take, drop, All,
}
use at_work_central_factory.Common.Dict.{find, insert, nat_key}
use at_work_central_factory.Common.Bytes.{htons, htonl, ntohs, ntohl}
use at_work_central_factory.Wire.{
  FrameHeader, MessageHeader, QueueEntry, new_entry, entry_bytes, frame_header_bytes,
  message_header_bytes, read_frame_header, read_message_header, message_header_size,
}
use at_work_central_factory.Protobuf.{Protobuf}
use at_work_central_factory.Protobuf.Plain.{
  Descriptor, Message, plain, plain-ProtobufLaws, beacon, order,
}
use at_work_central_factory.Register.{
  Register, key_type_key, Reason, runtime_error, serialize, deserialize,
}
use at_work_central_factory.Outbound.{enqueue}
use at_work_central_factory.Server.{
  Server, Session, new_session, not_enough_memory, Action, async_read_header, async_read_message,
  sig_rcvd, sig_recv_failed, sig_disconnected, init, start_accept, handle_accept, no_header,
}
use at_work_central_factory.Server.Handlers.{handle_read_header, handle_read_message}
use at_work_central_factory.Server.Sending.{send_to_all, session_send}
use at_work_central_factory.Server.Events.{Event, accept_done, step, run}
use at_work_central_factory.Server.Sessions.{Inv, run-init-Inv, run_ids_distinct}
use at_work_central_factory.Server.Transfer.{receive-send}
use at_work_central_factory.Server.Reading.{
  handle_read_header_fits, handle_read_header_overruns, handle_read_message_total,
}
use at_work_central_factory.Server.Delivery.{send_to_all_delivers, filled_entry, queued, writes_of}

abbrev pb : Protobuf Descriptor Message
pb = plain (beacon ∷ order ∷ [])

abbrev beacons : Register Message
beacons = record {
  has_importer = false;
  by_comp_type = ((2000, 1), record { desc = beacon; bytes = [] }) ∷ [];
  by_typename = ("llsf_msgs.BeaconSignal", record { desc = beacon; bytes = [] }) ∷ [];
  failed_to_load = [];
}

-- Two clients connect.
abbrev arrivals : List (Event Message)
arrivals = accept_done 0 (ok ("10.0.0.1", 4444)) ∷ accept_done 1 (ok ("10.0.0.2", 4445)) ∷ []

abbrev two_clients : Server Message
two_clients = (run pb (init beacons).0 arrivals).0

two_clients_sessions : two_clients.sessions ≡ (1, 0) ∷ (2, 1) ∷ []
unfolding run step init start_accept handle_accept insert new_session
two_clients_sessions = refl

run-init-Inv_example : Inv two_clients
run-init-Inv_example = run-init-Inv pb beacons arrivals

abbrev connected : Session
connected = record (new_session 1) { socket_open = true; remote_endpoint = ("10.0.0.1", 4444) }

run_ids_distinct_example : ◌≡◌ {A = ℕ} 0 0
unfolding run step init start_accept handle_accept insert new_session
run_ids_distinct_example =
    run_ids_distinct pb beacons arrivals 0 0 connected connected (omega arith) refl refl refl

abbrev sent_beacon : Message
sent_beacon = record { desc = beacon; bytes = 8 ∷ 3 ∷ [] }

-- What new memory holds is not known; here it is zero.
abbrev blank : QueueEntry
blank = record {
  serialized_message = [];
  frame_header = no_header;
  frame_header_v1 = record { component_id = 0; msg_type = 0; payload_size = 0 };
  message_header = record { component_id = 0; msg_type = 0 };
}

abbrev beacon_entry : QueueEntry
beacon_entry = record blank {
  serialized_message = 8 ∷ 3 ∷ [];
  frame_header = record no_header { header_version = 2; payload_size = 0x0600_0000 };
  message_header = record { component_id = 0xd007; msg_type = 0x100 };
}

sends_beacon :
    session_send pb blank 2000 1 sent_beacon (new_session 1)
    ≡ ok (
      record (new_session 1) { outbound = record { queue = []; active = true } },
      some beacon_entry,
    )
unfolding session_send serialize enqueue new_entry htons htonl new_session
sends_beacon = refl

on_the_wire :
    entry_bytes beacon_entry ≡ 2 ∷ 0 ∷ 0 ∷ 0 ∷ 0 ∷ 0 ∷ 0 ∷ 6 ∷ 7 ∷ 208 ∷ 0 ∷ 1 ∷ 8 ∷ 3 ∷ []
unfolding entry_bytes frame_header_bytes message_header_bytes
on_the_wire = refl

receive-send_example :
    let r =
      handle_read_header two_clients 0 connected true (ok (take 8 (entry_bytes beacon_entry))) in
    (r.1 ≡ async_read_message 0 (length (drop 8 (entry_bytes beacon_entry))) ∷ [])
    × ((y' : Session) × (s' : Server Message) × (find 0 r.0.objects ≡ some y')
        × (handle_read_message pb r.0 0 y' (ok (drop 8 (entry_bytes beacon_entry)))
            ≡ ok (s', sig_rcvd connected.id 2000 1 sent_beacon ∷ async_read_header 0 ∷ [])))
unfolding run step init start_accept handle_accept insert
receive-send_example =
    receive-send pb (plain-ProtobufLaws (beacon ∷ order ∷ [])) blank beacon_entry 2000 1 sent_beacon
      (record { desc = beacon; bytes = [] }) (new_session 1) _ two_clients 0 connected sends_beacon
      (omega arith) (omega arith) (omega arith) refl refl

-- A header that announces 4096 bytes.
abbrev large : List ℕ
large = 2 ∷ 0 ∷ 0 ∷ 0 ∷ 0 ∷ 0 ∷ 16 ∷ 0 ∷ []

abbrev large_size : ℕ
large_size = ntohl (read_frame_header large).payload_size

large_size_lem : 1024 < large_size
unfolding read_frame_header htonl
large_size_lem = omega arith

handle_read_header_fits_example :
    let r = handle_read_header two_clients 0 connected true (ok large) in
    (y : Session) × (n : ℕ) × (find 0 r.0.objects ≡ some y)
    × (n ≤ y.in_data_size)
    × (r.1 ≡ async_read_message 0 n ∷ [])
handle_read_header_fits_example =
    handle_read_header_fits two_clients 0 connected true large (inl refl)

handle_read_header_overruns_example :
    let r = handle_read_header two_clients 0 connected false (ok large) in
    (y : Session) × (find 0 r.0.objects ≡ some y)
    × (y.in_data_size < large_size)
    × (r.1 ≡ sig_disconnected connected.id not_enough_memory ∷ async_read_message 0 large_size ∷ [])
unfolding new_session
handle_read_header_overruns_example =
    handle_read_header_overruns two_clients 0 connected large large_size_lem

-- A payload of three bytes, which is no message.
abbrev stray : List ℕ
stray = 1 ∷ 2 ∷ 3 ∷ []

handle_read_message_total_example :
    let buffer = stray ++ drop 3 connected.in_data in
    let mh = read_message_header buffer in
    (s' : Server Message) × (signal : Action Message) × (handle_read_message pb two_clients 0
        connected
        (ok stray)
      ≡ ok (s', signal ∷ async_read_header 0 ∷ []))
    × (s'.sessions ≡ two_clients.sessions)
    × (((m : Message) × (deserialize pb two_clients.message_register connected.in_frame_header mh
              (drop message_header_size buffer)
            ≡ ok m)
          × (signal ≡ sig_rcvd connected.id (ntohs mh.component_id) (ntohs mh.msg_type) m))
        ⊎ ((w : Reason) × (deserialize pb two_clients.message_register connected.in_frame_header mh
                (drop message_header_size buffer)
              ≡ err (runtime_error w))
            × (signal
                ≡ sig_recv_failed connected.id (ntohs mh.component_id) (ntohs mh.msg_type) w)))
handle_read_message_total_example = handle_read_message_total pb two_clients 0 connected stray

abbrev parts : FrameHeader × MessageHeader × List ℕ
parts = (beacon_entry.frame_header, beacon_entry.message_header, beacon_entry.serialized_message)

parts_lem : serialize pb 2000 1 sent_beacon (new_entry blank).frame_header ≡ ok parts
unfolding serialize new_entry htons htonl
parts_lem = refl

-- Both sessions are idle, and the entry is written to them, in the order of their IDs.
send_to_all_delivers_example :
    (s' : Server Message) × (send_to_all pb blank two_clients 2000 1 sent_beacon
      ≡ ok (s', writes_of pb (filled_entry pb blank parts) two_clients two_clients.sessions))
    × All
        (λ e.
          (x : Session) × (find e.1 two_clients.objects ≡ some x)
          × (find e.1 s'.objects ≡ some (queued pb (filled_entry pb blank parts) x)))
        two_clients.sessions
    × (s'.sessions ≡ two_clients.sessions)
send_to_all_delivers_example =
    send_to_all_delivers pb blank 2000 1 sent_beacon parts parts_lem two_clients
      (run-init-Inv pb beacons arrivals)
