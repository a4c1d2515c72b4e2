-- ===== src/Communicator.antt =====
-- src/libs/protobuf_clips/communicator.{h,cpp}: what the rules of the CLIPS engine see of servers,
-- clients and peers. The engine is outside: what is asserted in it is an action.
pub mod Sending
pub mod Types
pub mod Handlers
pub mod Events
pub mod Identity
pub mod History
pub mod Dispatch
pub mod Reception
pub mod Stream
pub mod Fields
pub mod Locks
mod Examples
use at_work_central_factory.Common.{
  ℕ, ◌+◌, ◌-◌, ◌%◌, ◌^◌, ◌==◌, String, Bool, true, false, not, ◌&&◌, Option, none, some, List, [],
  ◌∷◌, is_some, if◌then◌else◌, Result, ok, err, ◌>>=◌,
}
use at_work_central_factory.Common.Int.{ℤ, pos, negsuc}
use at_work_central_factory.Common.Dict.{Dict, nat_key, find, insert, erase}
use at_work_central_factory.Protobuf.{Protobuf}
use at_work_central_factory.Register.{
  Register, Thrown, runtime_error, logic_error, Reason, add_message_type, new_message_for_name,
}

-- `google::protobuf::FatalException`, `std::runtime_error`, and any other exception
pub data Failure : Type 0 where
  fatal_exception runtime_failure other_exception : Failure

-- What the communicator uses of servers, clients and peers. An operation that throws leaves its
-- object as it was.
pub record Links (Message Server Client Peer : Type 0) : Type 0 where
  pub new_server : (port : ℕ) → Result Failure Server
  pub server_send : Server → (client : ℕ) → Message → Result Failure Server
  pub server_disconnect : Server → (client : ℕ) → Server
  pub new_client : Client
  pub async_connect : Client → (host : String) (port : ℕ) → Client
  pub client_send : Client → Message → Result Failure Client
  pub new_peer :
      (address : String) (send_port recv_port : ℕ) (key cipher : String) → Result Failure Peer
  pub setup_crypto : Peer → (key cipher : String) → Result Failure Peer
  pub peer_send : Peer → Message → Result Failure Peer

abbrev pub Endpoint : Type 0
Endpoint = String × ℕ

pub data ClientType : Type 0 where
  ct_server ct_client ct_peer : ClientType

pub data Via : Type 0 where
  stream broadcast : Via

pub data Fact (Message : Type 0) : Type 0 where
  protobuf_msg :
      (comp_id msg_type : ℕ) (rcvd_via : Via) (rcvd_from : Endpoint) (client_type : ClientType)
      (client_id : ℕ)
      → Message
      → Fact Message
  server_client_connected : (client_id : ℕ) → Endpoint → Fact Message
  server_client_disconnected : (client_id : ℕ) → Fact Message
  server_receive_failed :
      (comp_id msg_type client_id : ℕ) (message : String) → Endpoint → Fact Message
  client_connected : (client_id : ℕ) → Fact Message
  client_disconnected : (client_id : ℕ) → Fact Message
  receive_failed : (client_id comp_id msg_type : ℕ) (message : String) → Fact Message

pub data Action (Message : Type 0) : Type 0 where
  assert_fact : Fact Message → Action Message
  run_agenda : Action Message  -- refresh_agenda and run
  sig_server_sent : (client : ℕ) → Message → Action Message
  sig_client_sent : Endpoint → Message → Action Message
  sig_peer_sent : (peer_id : ℕ) → Message → Action Message

-- IDs of the communicator are `long int`, counted up from `next_client_id`; ClientIDs are the
-- server's.
pub record Communicator (Message Server Client Peer : Type 0) : Type 0 where
  pub message_register : Register Message
  pub server : Option Server
  pub next_client_id : ℕ
  pub server_clients : Dict ℕ ℕ
  pub rev_server_clients : Dict ℕ ℕ
  pub clients : Dict ℕ Client
  pub peers : Dict ℕ Peer
  pub client_endpoints : Dict ℕ Endpoint
  pub msg_facts : Dict ℕ (Fact Message)

abbrev pub is_positive : ℤ → Bool
is_positive (pos n) = not (n == 0)
is_positive (negsuc n) = false

-- An `int` as an `unsigned short`
abbrev pub to_port : ℤ → ℕ
to_port (pos n) = n % 2 ^ 16
to_port (negsuc n) = 2 ^ 16 - 1 - n % 2 ^ 16

pub data Fault : Type 0 where
  thrown : Failure → Fault
  null_server : Fault

module _ {Message Server Client Peer : Type 0} where
  -- No constructor sets `next_client_id_`: it is what the memory held.
  unfoldable pub init : Register Message → ℕ → Communicator Message Server Client Peer
  init mr held = record {
    message_register = mr;
    server = none;
    next_client_id = held;
    server_clients = [];
    rev_server_clients = [];
    clients = [];
    peers = [];
    client_endpoints = [];
    msg_facts = [];
  }

  -- `client_endpoints_[id]`, which makes an entry where there is none.
  pub endpoint_of :
      ℕ
      → Communicator Message Server Client Peer
      → Endpoint × Communicator Message Server Client Peer
  endpoint_of id c = elim (find id c.client_endpoints) [
    | none ↦ (("", 0), record c { client_endpoints = insert id ("", 0) c.client_endpoints })
    | some endpoint ↦ (endpoint, c)
  ]

  -- The clients of the server stay in the maps.
  unfoldable pub disable_server :
      Communicator Message Server Client Peer → Communicator Message Server Client Peer
  disable_server c = record c { server = none }

  unfoldable pub peer_destroy :
      ℕ → Communicator Message Server Client Peer → Communicator Message Server Client Peer
  peer_destroy peer_id c = record c { peers = erase peer_id c.peers }

module _ {Message Server Client Peer : Type 0} (links : Links Message Server Client Peer) where
  open links use {
    new_server, server_send, server_disconnect, new_client, async_connect, client_send, new_peer,
    setup_crypto, peer_send,
  }

  unfoldable pub enable_server :
      ℤ
      → Communicator Message Server Client Peer
      → Result Failure (Communicator Message Server Client Peer)
  enable_server port c =
      if is_positive port && not (is_some c.server)
      then (new_server (to_port port) >>= λ s. ok (record c { server = some s }))
      else ok c

  -- Gives the ID of the peer, or 0.
  unfoldable pub peer_create_local_crypto :
      String
      → ℤ
      → ℤ
      → String
      → String
      → Communicator Message Server Client Peer
      → Result Failure (Communicator Message Server Client Peer × ℕ)
  peer_create_local_crypto address send_port recv_port key cipher c =
      let recv_port' = if is_positive recv_port then recv_port else send_port in
      let peer_id = c.next_client_id + 1 in
      if is_positive send_port
      then (new_peer address (to_port send_port) (to_port recv_port') key cipher >>= λ peer.
          ok (record c { next_client_id = peer_id; peers = insert peer_id peer c.peers }, peer_id))
      else ok (c, 0)

  unfoldable pub peer_setup_crypto :
      ℕ
      → String
      → String
      → Communicator Message Server Client Peer
      → Result Failure (Communicator Message Server Client Peer)
  peer_setup_crypto peer_id key cipher c = elim (find peer_id c.peers) [
    | none ↦ ok c
    | some peer ↦ setup_crypto peer key cipher >>= λ peer'.
        ok (record c { peers = insert peer_id peer' c.peers })
  ]

  -- Gives the ID of the client, or 0 (false).
  unfoldable pub client_connect :
      String
      → ℤ
      → Communicator Message Server Client Peer
      → Communicator Message Server Client Peer × ℕ
  client_connect host port c =
      let client_id = c.next_client_id + 1 in
      if is_positive port
      then (
        record c {
          next_client_id = client_id;
          clients = insert client_id (async_connect new_client host (to_port port)) c.clients;
        },
        client_id,
      )
      else (c, 0)

  -- The client of a server that is gone: `server_` is a null pointer.
  disconnect_server_client :
      Option Server
      → ℕ
      → ℕ
      → Communicator Message Server Client Peer
      → Result Fault (Communicator Message Server Client Peer)
  disconnect_server_client none id client c = err null_server
  disconnect_server_client (some server) id client c = ok (record c {
    server = some (server_disconnect server client);
    server_clients = erase id c.server_clients;
    rev_server_clients = erase client c.rev_server_clients;
  })

  unfoldable pub pb_disconnect :
      ℕ
      → Communicator Message Server Client Peer
      → Result Fault (Communicator Message Server Client Peer)
  unfolding disconnect_server_client
  pb_disconnect id c = elim (find id c.server_clients) [
    | some client ↦ disconnect_server_client c.server id client c
    | none ↦ ok (record c { clients = erase id c.clients })
  ]
