-- ===== src/Client/Examples.antt =====
-- Tests of the stream client, and its theorems at concrete clients.
use at_work_central_factory.Common.{
  ℕ, ◌≤◌, ◌≡◌, ◌≢◌, refl, true, false, none, some, List, [], ◌∷◌, ok, err, arith,
}
use at_work_central_factory.Common.Bytes.{htons, htonl}
use at_work_central_factory.Wire.{
  QueueEntry, pb_frame_v1, pb_frame_v2, new_entry, entry_bytes_v1, frame_header_v1_bytes,
}
use at_work_central_factory.Protobuf.{Protobuf}
use at_work_central_factory.Protobuf.Plain.{
  Descriptor, Message, plain, plain-ProtobufLaws, beacon, order,
}
use at_work_central_factory.Register.{Register, key_type_key, serialize}
use at_work_central_factory.Outbound.{enqueue}
use at_work_central_factory.Server.{no_header, asio}
use at_work_central_factory.Client.{
  Client, async_connect, init, send, handle_connect, handle_write, buffers, fill_entry, started,
  not_connected, fail, disconnect_nosig, async_write,
}
use at_work_central_factory.Client.Events.{Event, connect_done, call_connect, call_send, step, run}
use at_work_central_factory.Client.Reconnect.{
  writes, Sound, run-handle_write_failed, run-init-Sound,
}
use at_work_central_factory.Client.Transfer.{receive, signals}
use at_work_central_factory.Client.Histories.{History, constructed, sent, other}
use at_work_central_factory.Client.Channel.{concat, History-receive}

abbrev pb : Protobuf Descriptor Message
pb = plain (beacon ∷ order ∷ [])

abbrev beacons : Register Message
beacons = record {
  has_importer = false;
  by_comp_type = ((2000, 1), record { desc = beacon; bytes = [] }) ∷ [];
  by_typename = ("llsf_msgs.BeaconSignal", record { desc = beacon; bytes = [] }) ∷ [];
  failed_to_load = [];
}

abbrev blank : QueueEntry
blank = record {
  serialized_message = [];
  frame_header = no_header;
  frame_header_v1 = record { component_id = 0; msg_type = 0; payload_size = 0 };
  message_header = record { component_id = 0; msg_type = 0 };
}

abbrev hello : Message
hello = record { desc = beacon; bytes = 8 ∷ 3 ∷ [] }

-- A hub that speaks version 1, whose address is its text.
abbrev fresh_client : Client Message
fresh_client = record {
  connected = false;
  socket_open = false;
  outbound = record { queue = []; active = false };
  in_frame_header = [];
  in_data_size = 1024;
  in_data = [];
  message_register = beacons;
  frame_header_version = pb_frame_v1;
}

abbrev up : Client Message
up = record fresh_client { connected = true; socket_open = true }

abbrev v1_frame : List ℕ
v1_frame = 7 ∷ 208 ∷ 0 ∷ 1 ∷ 0 ∷ 0 ∷ 0 ∷ 2 ∷ 8 ∷ 3 ∷ []

init_test : init beacons pb_frame_v1 ≡ fresh_client
unfolding init
init_test = refl

send_down : send {Hosts = ℕ} pb blank fresh_client 2000 1 hello ≡ err not_connected
unfolding send
send_down = refl

sending : Client Message
sending = record up { outbound = record { queue = []; active = true } }

send_v1 : send {Hosts = ℕ} pb blank up 2000 1 hello ≡ ok (sending, async_write v1_frame ∷ [])
unfolding send sending serialize enqueue started buffers entry_bytes_v1 frame_header_v1_bytes htons
    htonl fill_entry new_entry
send_v1 = refl

-- The write fails, the client reconnects and sends, and nothing is written.
abbrev after_failure : List (Event ℕ Message)
after_failure =
    call_connect "hub" 4444 ∷ connect_done false none ∷ call_send blank 2000 1 hello ∷ []

reconnected_queue :
    (run pb (handle_write {Hosts = ℕ} sending (some (asio 32))).0 after_failure).0.outbound.queue
    ≢ []
unfolding run step handle_write handle_connect async_connect send serialize enqueue fail
    disconnect_nosig sending
reconnected_queue = λ e. cc

run-handle_write_failed_example :
    (writes (handle_write {Hosts = ℕ} sending (some (asio 32))).1 ≡ [])
    × (writes (run pb (handle_write {Hosts = ℕ} sending (some (asio 32))).0 after_failure).1 ≡ [])
    × ((run pb
          (handle_write {Hosts = ℕ} sending (some (asio 32))).0
          after_failure).0.outbound.active
        ≡ true)
unfolding sending
run-handle_write_failed_example =
    run-handle_write_failed ℕ pb sending (asio 32) after_failure refl (refl, (refl, (refl, tt)))

run-init-Sound_example : Sound ℕ pb (run pb (init beacons pb_frame_v2) after_failure).0
run-init-Sound_example = run-init-Sound ℕ pb beacons pb_frame_v2 after_failure

-- One message sent on a connection of version 1, before its write completes.
one_sent : History ℕ pb beacons pb_frame_v1 sending ((2000, 1, hello) ∷ []) (v1_frame ∷ []) 1
unfolding sending step handle_connect init
one_sent =
    sent blank 2000 1 hello (async_write v1_frame ∷ [])
      (record {
        component_fits = omega arith;
        type_fits = omega arith;
        bytes_fit = λ bytes e. ground arith;
      })
      send_v1 (other (connect_done false none) refl constructed)

History-receive_example :
    ((y' : Client Message) × (receive {Hosts = ℕ} pb 1 up (concat (v1_frame ∷ []))
        ≡ ok (y', signals ((2000, 1, hello) ∷ []))))
    × (◌≤◌ 1 1)
    × (◌≤◌ 1 1)
    × (◌≡◌ {A = ℕ} 1 0 → ◌≡◌ {A = ℕ} 1 1)
History-receive_example =
    History-receive ℕ pb (plain-ProtobufLaws (beacon ∷ order ∷ [])) up one_sent refl
      ((record { desc = beacon; bytes = [] }, refl, refl), tt)
