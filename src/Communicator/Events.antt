-- ===== src/Communicator/Events.antt =====
-- The communicator of src/libs/protobuf_clips/communicator.cpp as a state machine: calls of the
-- rules and signals of servers, clients and peers, one at a time.
use at_work_central_factory.Common.{ℕ, String, Option, List, [], ◌∷◌, ◌++◌, Result, ok, err}
use at_work_central_factory.Common.Int.{ℤ}
use at_work_central_factory.Communicator.{
  Communicator, Links, Endpoint, Action, enable_server, disable_server, peer_create_local_crypto,
  peer_destroy, peer_setup_crypto, client_connect, pb_disconnect,
}
use at_work_central_factory.Communicator.Sending.{pb_send, pb_broadcast}
use at_work_central_factory.Communicator.Handlers.{
  Assertion, handle_server_client_connected, handle_server_client_disconnected,
  handle_server_client_msg, handle_server_client_fail, handle_peer_msg, handle_client_connected,
  handle_client_disconnected, handle_client_msg, handle_client_receive_fail,
}

pub data Event (Message : Type 0) : Type 0 where
  server_enable : ℤ → Event Message
  server_disable : Event Message
  peer_create : (address : String) (send_port recv_port : ℤ) (key cipher : String) → Event Message
  peer_gone : (id : ℕ) → Event Message
  peer_crypto : (id : ℕ) (key cipher : String) → Event Message
  connect : (host : String) → ℤ → Event Message
  disconnect : (id : ℕ) → Event Message
  send_message : (id : ℕ) → Option Message → Event Message
  broadcast_message : (id : ℕ) → Option Message → Event Message
  server_client_in : (client : ℕ) → Endpoint → Event Message
  server_client_out : (client : ℕ) → Event Message
  server_client_msg : Assertion → (client component_id msg_type : ℕ) → Message → Event Message
  server_client_fail : (client component_id msg_type : ℕ) → String → Event Message
  peer_msg : Assertion → (id : ℕ) → Endpoint → (component_id msg_type : ℕ) → Message → Event Message
  client_in : (id : ℕ) → Event Message
  client_out : (id : ℕ) → Event Message
  client_msg : Assertion → (id component_id msg_type : ℕ) → Message → Event Message
  client_fail : (id component_id msg_type : ℕ) → String → Event Message

module _ {Message Server Client Peer : Type 0} where
  -- A call that throws leaves the communicator as it was.
  abbrev pub after :
      {E : Type 0}
      → Communicator Message Server Client Peer
      → Result E (Communicator Message Server Client Peer × List (Action Message))
      → Communicator Message Server Client Peer × List (Action Message)
  after c (ok r) = r
  after c (err e) = (c, [])

  abbrev pub after_silent :
      {E : Type 0}
      → Communicator Message Server Client Peer
      → Result E (Communicator Message Server Client Peer)
      → Communicator Message Server Client Peer × List (Action Message)
  after_silent c (ok c') = (c', [])
  after_silent c (err e) = (c, [])

  abbrev pub after_id :
      {E : Type 0}
      → Communicator Message Server Client Peer
      → Result E (Communicator Message Server Client Peer × ℕ)
      → Communicator Message Server Client Peer × List (Action Message)
  after_id c (ok r) = (r.0, [])
  after_id c (err e) = (c, [])

module _ {Message Server Client Peer : Type 0} (links : Links Message Server Client Peer) where
  unfoldable pub step :
      Communicator Message Server Client Peer
      → Event Message
      → Communicator Message Server Client Peer × List (Action Message)
  step c (server_enable port) = after_silent c (enable_server links port c)
  step c server_disable = (disable_server c, [])
  step c (peer_create a s r k e) = after_id c (peer_create_local_crypto links a s r k e c)
  step c (peer_gone id) = (peer_destroy id c, [])
  step c (peer_crypto id k e) = after_silent c (peer_setup_crypto links id k e c)
  step c (connect host port) = ((client_connect links host port c).0, [])
  step c (disconnect id) = after_silent c (pb_disconnect links id c)
  step c (send_message id m) = after c (pb_send links id m c)
  step c (broadcast_message id m) = after c (pb_broadcast links id m c)
  step c (server_client_in client e) = handle_server_client_connected client e c
  step c (server_client_out client) = handle_server_client_disconnected client c
  step c (server_client_msg r client k t m) = handle_server_client_msg r client k t m c
  step c (server_client_fail client k t w) = handle_server_client_fail client k t w c
  step c (peer_msg r id e k t m) = handle_peer_msg r id e k t m c
  step c (client_in id) = handle_client_connected id c
  step c (client_out id) = handle_client_disconnected id c
  step c (client_msg r id k t m) = handle_client_msg r id k t m c
  step c (client_fail id k t w) = handle_client_receive_fail id k t w c

  unfoldable pub run :
      Communicator Message Server Client Peer
      → List (Event Message)
      → Communicator Message Server Client Peer × List (Action Message)
  run c [] = (c, [])
  run c (e ∷ es) = let (c', out) = step c e in let (c'', out') = run c' es in (c'', out ++ out')
