-- ===== src/Communicator/Examples.antt =====
-- Tests of the communicator, and its theorems at concrete communicators.
use at_work_central_factory.Common.{
  ℕ, ◌<◌, ◌^◌, ◌≡◌, ◌≢◌, refl, String, false, none, some, List, [], ◌∷◌, ok, arith,
}
use at_work_central_factory.Common.Int.{pos}
use at_work_central_factory.Common.Dict.{find, insert, erase, nat_key}
use at_work_central_factory.Register.{Register}
use at_work_central_factory.Communicator.{
  Communicator, Links, protobuf_msg, stream, ct_server, ct_peer, assert_fact, sig_server_sent,
  Endpoint, init, enable_server, disable_server, client_connect, pb_disconnect,
  peer_create_local_crypto,
}
use at_work_central_factory.Communicator.Sending.{pb_send}
use at_work_central_factory.Communicator.Handlers.{
  new_fact, handle_server_client_connected, handle_server_client_msg, handle_peer_msg,
}
use at_work_central_factory.Communicator.Events.{
  Event, server_enable, connect, peer_create, server_client_in, step, run,
}
use at_work_central_factory.Communicator.Identity.{Identified}
use at_work_central_factory.Communicator.History.{run-init-Identified}
use at_work_central_factory.Communicator.Dispatch.{pb_send-pb_disconnect, reenabled_server_clients}
use at_work_central_factory.Communicator.Reception.{
  pb_send-handle_server_client_msg, handle_peer_msg-peer_create,
}

-- Servers, clients and peers that log what they are given.
abbrev Log : Type 0
Log = List String

abbrev links : Links String Log Log Log
links = record {
  new_server = λ port. ok [];
  server_send = λ s client m. ok (m ∷ s);
  server_disconnect = λ s client. s;
  new_client = [];
  async_connect = λ c host port. host ∷ c;
  client_send = λ c m. ok (m ∷ c);
  new_peer = λ address s r key cipher. ok [];
  setup_crypto = λ p key cipher. ok p;
  peer_send = λ p m. ok (m ∷ p);
}

abbrev nothing : Register String
nothing = record { has_importer = false; by_comp_type = []; by_typename = []; failed_to_load = [] }

-- A server with a client (ID 8), a client (ID 9) and a peer (ID 10).
abbrev history : List (Event String)
history =
    server_enable (pos 4444)
    ∷ server_client_in 1 ("10.0.0.1", 50000)
    ∷ connect "10.0.0.2" (pos 4445)
    ∷ peer_create "10.0.0.255" (pos 4446) (pos 0) "" ""
    ∷ []

abbrev busy : Communicator String Log Log Log
busy = (run links (init nothing 7) history).0

busy_maps :
    (busy.server_clients ≡ (8, 1) ∷ [])
    × (busy.clients ≡ (9, "10.0.0.2" ∷ []) ∷ [])
    × (busy.peers ≡ (10, []) ∷ [])
unfolding run step init enable_server client_connect peer_create_local_crypto
    handle_server_client_connected insert
busy_maps = (refl, refl, refl)

run-init-Identified_example : Identified 7 busy
run-init-Identified_example = run-init-Identified links nothing 7 history

busy_server_client : find 8 busy.server_clients ≡ some 1
unfolding run step init enable_server client_connect peer_create_local_crypto
    handle_server_client_connected insert
busy_server_client = refl

abbrev without_client : Communicator String Log Log Log
without_client = record busy { clients = erase 9 busy.clients }

without_client_disconnected : pb_disconnect links 9 busy ≡ ok without_client
unfolding pb_disconnect run step init enable_server client_connect peer_create_local_crypto
    handle_server_client_connected insert
without_client_disconnected = refl

no_such_peer : find 9 busy.peers ≡ none
unfolding run step init enable_server client_connect peer_create_local_crypto
    handle_server_client_connected insert
no_such_peer = refl

pb_send-pb_disconnect_example :
    pb_send links 9 (some "beacon") without_client ≡ ok (without_client, [])
pb_send-pb_disconnect_example =
    pb_send-pb_disconnect links 7 busy without_client 9 (some "beacon") run-init-Identified_example
      without_client_disconnected no_such_peer

abbrev enabled_again : Communicator String Log Log Log
enabled_again = record busy { server = some [] }

is_enabled_again : enable_server links (pos 4444) (disable_server busy) ≡ ok enabled_again
unfolding disable_server enable_server
is_enabled_again = refl

reenabled_server_clients_example :
    let d = (handle_server_client_connected 1 ("10.0.0.4", 50001) enabled_again).0 in
    (8 ≢ d.next_client_id)
    × (find 8 d.server_clients ≡ some 1)
    × (find d.next_client_id d.server_clients ≡ some 1)
reenabled_server_clients_example =
    reenabled_server_clients links 7 busy enabled_again 8 1 (pos 4444) ("10.0.0.4", 50001)
      run-init-Identified_example busy_server_client is_enabled_again

abbrev with_peer : Communicator String Log Log Log
with_peer = record (init nothing 7) { next_client_id = 8; peers = (8, []) ∷ [] }

peer_created :
    peer_create_local_crypto links "10.0.0.255" (pos 4446) (pos 0) "" "" (init nothing 7)
    ≡ ok (with_peer, 8)
unfolding peer_create_local_crypto init insert
peer_created = refl

handle_peer_msg-peer_create_example :
    (handle_peer_msg (new_fact 0) 8 ("10.0.0.9", 4446) 2000 1 "beacon" with_peer).1
    ≡ assert_fact (protobuf_msg 2000 1 stream ("10.0.0.9", 4446) ct_peer 8 "beacon") ∷ []
unfolding init
handle_peer_msg-peer_create_example =
    handle_peer_msg-peer_create links (init nothing 7) with_peer "10.0.0.255" "" "" (pos 4446)
      (pos 0) 0 8 2000 1 ("10.0.0.9", 4446) "beacon" refl (omega arith) peer_created

busy_rev : find 1 busy.rev_server_clients ≡ some 8
unfolding run step init enable_server client_connect peer_create_local_crypto
    handle_server_client_connected insert
busy_rev = refl

busy_up : busy.server ≡ some []
unfolding run step init enable_server client_connect peer_create_local_crypto
    handle_server_client_connected
busy_up = refl

busy_few : busy.next_client_id < 2 ^ 32
unfolding run step init enable_server client_connect peer_create_local_crypto
    handle_server_client_connected
busy_few = omega arith

pb_send-handle_server_client_msg_example :
    let (c', said) = handle_server_client_msg (new_fact 0) 1 2000 1 "beacon" busy in
    (e : Endpoint) × (find 8 busy.client_endpoints ≡ some e)
    × (said ≡ assert_fact (protobuf_msg 2000 1 stream e ct_server 8 "beacon") ∷ [])
    × (pb_send links 8 (some "seen") c'
        ≡ ok (record c' { server = some ("seen" ∷ []) }, sig_server_sent 1 "seen" ∷ []))
    × ((other : ℕ) → find other busy.rev_server_clients ≡ some 8 → other ≡ 1)
pb_send-handle_server_client_msg_example =
    pb_send-handle_server_client_msg links 7 busy 0 1 8 2000 1 "beacon" "seen" [] ("seen" ∷ [])
      run-init-Identified_example busy_few busy_rev busy_up refl
