-- ===== src/Server.antt =====
-- src/libs/protobuf_comm/server.{h,cpp}: the TCP server for protobuf messages and its sessions.
-- Completion handlers of the I/O service are functions of the server's state; what they start or
-- signal is a list of actions, in order.
pub mod Handlers
pub mod Sending
pub mod Events
pub mod Sessions
pub mod Transfer
pub mod Reading
pub mod Delivery
mod Examples
use at_work_central_factory.Common.{
  ℕ, ◌+◌, ◌%◌, ◌^◌, ◌≡◌, arith, String, Bool, true, false, Option, none, some, List, [], ◌∷◌, ◌++◌,
  length, drop, ltb, if◌then◌else◌, Result, ok, err, ◌>>=◌, or_throw,
}
use at_work_central_factory.Common.Dict.{Dict, nat_key, find, insert, erase}
use at_work_central_factory.Common.Bytes.{ntohs, ntohl}
use at_work_central_factory.Wire.{
  FrameHeader, MessageHeader, QueueEntry, new_entry, message_header_size, read_frame_header,
  read_message_header,
}
use at_work_central_factory.Protobuf.{Protobuf}
use at_work_central_factory.Register.{
  Register, Reason, Thrown, runtime_error, logic_error, KeyType, key_from_desc, serialize,
  deserialize,
}
use at_work_central_factory.Outbound.{Outbound, idle, enqueue, complete}

-- `boost::system::error_code` of a failed operation
pub data ErrorCode : Type 0 where
  asio : ℕ → ErrorCode
  not_enough_memory : ErrorCode

-- address and port
abbrev pub Endpoint : Type 0
Endpoint = String × ℕ

pub record Session : Type 0 where
  pub id : ℕ  -- ClientID
  pub socket_open : Bool
  pub remote_endpoint : Endpoint
  pub in_frame_header : FrameHeader
  pub in_data_size : ℕ
  pub in_data : List ℕ
  pub outbound : Outbound QueueEntry

abbrev pub no_header : FrameHeader
no_header = record {
  header_version = 0;
  cipher = 0;
  reserved_2 = 0;
  reserved_3 = 0;
  payload_size = 0;
}

-- `Session::Session`
unfoldable pub new_session : ℕ → Session
new_session id = record {
  id = id;
  socket_open = false;
  remote_endpoint = ("", 0);
  in_frame_header = no_header;
  in_data_size = 1024;
  in_data = [];
  outbound = idle;
}

pub data ServerError : Type 0 where
  client_does_not_exist : ServerError
  thrown : Thrown → ServerError

abbrev pub lift {ℓ} : {A : Type ℓ} → Result Thrown A → Result ServerError A
lift (ok a) = ok a
lift (err e) = err (thrown e)

pub lift-eq-ok {ℓ} : {A : Type ℓ} (r : Result Thrown A) {a : A} → lift r ≡ ok a → r ≡ ok a
lift-eq-ok (ok a) h = ground arith
lift-eq-ok (err e) h = cc

-- A session is named by the object that its pointer refers to.
pub data Action (Message : Type 0) : Type 0 where
  async_accept : ℕ → Action Message
  async_read_header : ℕ → Action Message
  async_read_message : (object size : ℕ) → Action Message
  async_write : ℕ → QueueEntry → Action Message
  sig_connected : ℕ → Endpoint → Action Message
  sig_disconnected : ℕ → ErrorCode → Action Message
  sig_rcvd : (client component_id msg_type : ℕ) → Message → Action Message
  sig_recv_failed : (client component_id msg_type : ℕ) → Reason → Action Message
  shutdown_and_close : ℕ → Action Message

-- `objects` are the sessions that are alive, by their addresses: a session outlives its entry in
-- `sessions_` for as long as a handler is bound to it.
pub record Server (Message : Type 0) : Type 0 where
  pub message_register : Register Message
  pub objects : Dict ℕ Session
  pub next_object : ℕ
  pub sessions : Dict ℕ ℕ  -- sessions_: the object of each client ID
  pub next_cid : ℕ

module _ {Message : Type 0} where
  -- `next_cid_` is an `atomic<unsigned int>`.
  unfoldable pub start_accept : Server Message → Server Message × List (Action Message)
  start_accept s = (
    record s {
      objects = insert s.next_object (new_session s.next_cid) s.objects;
      next_object = s.next_object + 1;
      next_cid = (s.next_cid + 1) % 2 ^ 32;
    },
    async_accept s.next_object ∷ [],
  )

  -- The constructor, up to the start of the I/O thread.
  unfoldable pub init : Register Message → Server Message × List (Action Message)
  unfolding start_accept
  init mr =
      start_accept (record {
        message_register = mr;
        objects = [];
        next_object = 0;
        sessions = [];
        next_cid = 1;
      })

  abbrev pub set_object : ℕ → Session → Server Message → Server Message
  set_object object session s = record s { objects = insert object session s.objects }

  unfoldable pub disconnected :
      Server Message → Session → ErrorCode → Server Message × List (Action Message)
  disconnected s session error =
      (record s { sessions = erase session.id s.sessions }, sig_disconnected session.id error ∷ [])

  -- `handle_accept`, with the peer's address where there was no error.
  accepted : Server Message → ℕ → Session → Endpoint → Server Message × List (Action Message)
  accepted s object session endpoint = (
    record s {
      objects =
          insert object (record session { socket_open = true; remote_endpoint = endpoint })
            s.objects;
      sessions = insert session.id object s.sessions;
    },
    sig_connected session.id endpoint ∷ async_read_header object ∷ [],
  )

  abbrev pub and_then :
      Server Message × List (Action Message)
      → (Server Message → Server Message × List (Action Message))
      → Server Message × List (Action Message)
  and_then (s, out) k = let (s', out') = k s in (s', out ++ out')

  unfoldable pub handle_accept :
      Server Message
      → ℕ
      → Session
      → Result ErrorCode Endpoint
      → Server Message × List (Action Message)
  unfolding accepted start_accept
  handle_accept s object session (ok endpoint) =
      and_then (accepted s object session endpoint) start_accept
  handle_accept s object session (err error) = start_accept s

  unfoldable pub started : ℕ → Option QueueEntry → List (Action Message)
  started object none = []
  started object (some entry) = async_write object entry ∷ []

  unfoldable pub disconnect : Server Message → ℕ → Server Message × List (Action Message)
  disconnect s client = elim (find client s.sessions) [
    | none ↦ (s, [])
    | some object ↦ elim (find object s.objects) [
      | none ↦ (s, [])
      | some session ↦
          if session.socket_open
          then (
            set_object object (record session { socket_open = false }) s,
            shutdown_and_close object ∷ [],
          )
          else (s, [])
    ]
  ]
