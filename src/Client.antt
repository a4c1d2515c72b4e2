-- ===== src/Client.antt =====
-- src/libs/protobuf_comm/client.{h,cpp}: the TCP client for protobuf messages, in both versions of
-- the frame header. Completion handlers and calls are functions of the client's state; what they
-- start or signal is a list of actions, in order.
pub mod Events
pub mod Reconnect
pub mod Understood
pub mod Transfer
pub mod Histories
pub mod Channel
mod Examples
use at_work_central_factory.Common.{
  ℕ, ◌+◌, ◌-◌, ◌%◌, ◌^◌, String, Bool, true, false, Option, none, some, List, [], ◌∷◌, ◌++◌, length,
  drop, ltb, if◌then◌else◌, Result, ok, err, ◌>>=◌,
}
use at_work_central_factory.Common.Bytes.{ntohs, ntohl, htonl}
use at_work_central_factory.Wire.{
  FrameHeader, MessageHeader, QueueEntry, FrameVersion, pb_frame_v1, pb_frame_v2, encryption_none,
  frame_header_size, message_header_size, read_frame_header, read_frame_header_v1,
  read_message_header, new_entry, entry_bytes, entry_bytes_v1,
}
use at_work_central_factory.Protobuf.{Protobuf}
use at_work_central_factory.Register.{
  Register, Reason, Thrown, runtime_error, logic_error, key_from_desc, serialize, deserialize,
}
use at_work_central_factory.Outbound.{Outbound, idle, enqueue, complete}
use at_work_central_factory.Server.{ErrorCode, not_enough_memory}

-- The frame header's size does not depend on the version: both structs have eight bytes.
pub record Client (Message : Type 0) : Type 0 where
  pub connected : Bool
  pub socket_open : Bool  -- socket_.is_open()
  pub outbound : Outbound QueueEntry
  pub in_frame_header : List ℕ
  pub in_data_size : ℕ
  pub in_data : List ℕ
  pub message_register : Register Message
  pub frame_header_version : FrameVersion

-- `Hosts` are the endpoints that a name is resolved to.
pub data Action (Hosts Message : Type 0) : Type 0 where
  async_resolve : String → ℕ → Action Hosts Message
  async_connect_to : Hosts → Action Hosts Message
  async_read_header : ℕ → Action Hosts Message
  async_read_message : ℕ → Action Hosts Message
  async_write : List ℕ → Action Hosts Message
  sig_connected : Action Hosts Message
  sig_disconnected : Option ErrorCode → Action Hosts Message
  sig_rcvd : (component_id msg_type : ℕ) → Message → Action Hosts Message
  sig_recv_failed : (component_id msg_type : ℕ) → Reason → Action Hosts Message
  shutdown_and_close : Action Hosts Message

pub data ClientError : Type 0 where
  not_connected : ClientError
  thrown : Thrown → ClientError

abbrev pub lift {ℓ} : {A : Type ℓ} → Result Thrown A → Result ClientError A
lift (ok a) = ok a
lift (err e) = err (thrown e)

-- The buffers of an entry, in order.
unfoldable pub buffers : FrameVersion → QueueEntry → List ℕ
buffers pb_frame_v1 e = entry_bytes_v1 e
buffers pb_frame_v2 e = entry_bytes e

-- The payload's size in the frame header that was read.
unfoldable pub announced : FrameVersion → List ℕ → ℕ
announced pb_frame_v1 header = ntohl (read_frame_header_v1 header).payload_size
announced pb_frame_v2 header = ntohl (read_frame_header header).payload_size

-- Both headers, and the data behind them, of a message that was read. In version 1 the size is
-- made one that includes a message header; the reserved bytes are not set, and nothing reads them.
unfoldable pub headers : FrameVersion → List ℕ → List ℕ → FrameHeader × MessageHeader × List ℕ
headers pb_frame_v1 header in_data =
    let v1 = read_frame_header_v1 header in
    (
      record {
        header_version = 1;
        cipher = encryption_none;
        reserved_2 = 0;
        reserved_3 = 0;
        payload_size = htonl ((ntohl v1.payload_size + message_header_size) % 2 ^ 32);
      },
      record { component_id = v1.component_id; msg_type = v1.msg_type },
      in_data,
    )
headers pb_frame_v2 header in_data =
    (read_frame_header header, read_message_header in_data, drop message_header_size in_data)

-- The entry that `send` fills in. A `size_t` difference that `htonl` takes wraps at 32 bits.
unfoldable pub fill_entry :
    FrameVersion → QueueEntry → FrameHeader × MessageHeader × List ℕ → QueueEntry
fill_entry pb_frame_v1 entry (fh, mh, bytes) = record entry {
  frame_header = fh;
  message_header = mh;
  serialized_message = bytes;
  frame_header_v1 = record {
    component_id = mh.component_id;
    msg_type = mh.msg_type;
    payload_size = htonl ((ntohl fh.payload_size + 2 ^ 32 - message_header_size) % 2 ^ 32);
  };
}
fill_entry pb_frame_v2 entry (fh, mh, bytes) = record entry {
  frame_header = fh;
  message_header = mh;
  serialized_message = bytes;
}

-- The constructors, which differ in the register and the version.
pub init : {Message : Type 0} → Register Message → FrameVersion → Client Message
init mr version = record {
  connected = false;
  socket_open = false;
  outbound = idle;
  in_frame_header = [];
  in_data_size = 1024;
  in_data = [];
  message_register = mr;
  frame_header_version = version;
}

module _ {Hosts Message : Type 0} where
  unfoldable pub disconnect_nosig : Client Message → Client Message × List (Action Hosts Message)
  disconnect_nosig c = (
    record c { connected = false; socket_open = false },
    if c.socket_open then shutdown_and_close ∷ [] else [],
  )

  -- `disconnect_nosig` and the signal.
  unfoldable pub fail :
      Client Message → Option ErrorCode → Client Message × List (Action Hosts Message)
  unfolding disconnect_nosig
  fail c error = let (c', out) = disconnect_nosig c in (c', out ++ sig_disconnected error ∷ [])

  unfoldable pub disconnect : Client Message → Client Message × List (Action Hosts Message)
  unfolding fail
  disconnect c = fail c none

  unfoldable pub async_connect :
      Client Message → String → ℕ → Client Message × List (Action Hosts Message)
  async_connect c host port = (c, async_resolve host port ∷ [])

  unfoldable pub handle_resolve :
      Client Message → Result ErrorCode Hosts → Client Message × List (Action Hosts Message)
  unfolding fail
  handle_resolve c (ok hosts) = (c, async_connect_to hosts ∷ [])
  handle_resolve c (err error) = fail c (some error)

  -- A connection that is made has opened the socket; after a failed one, `left_open` says whether
  -- the library has left it open.
  unfoldable pub handle_connect :
      Client Message
      → (left_open : Bool) → Option ErrorCode
      → Client Message × List (Action Hosts Message)
  unfolding fail
  handle_connect c left_open none = (
    record c { connected = true; socket_open = true },
    async_read_header frame_header_size ∷ sig_connected ∷ [],
  )
  handle_connect c left_open (some error) = fail (record c { socket_open = left_open }) (some error)

  -- `realloc` gives the larger buffer, or NULL. A failure is signalled, and the read is set up all
  -- the same.
  unfoldable pub grow :
      Client Message → ℕ → (realloc : Bool) → Client Message × List (Action Hosts Message)
  unfolding fail
  grow c to_read true = (record c { in_data_size = to_read }, [])
  grow c to_read false = fail c (some not_enough_memory)

  unfoldable pub handle_read_header :
      Client Message
      → (realloc : Bool) → Result ErrorCode (List ℕ)
      → Client Message × List (Action Hosts Message)
  unfolding grow fail
  handle_read_header c realloc (ok bytes) =
      let to_read = announced c.frame_header_version bytes in
      let c' = record c { in_frame_header = bytes } in
      let (c'', out) = if ltb c.in_data_size to_read then grow c' to_read realloc else (c', []) in
      (c'', out ++ async_read_message to_read ∷ [])
  handle_read_header c realloc (err error) = fail c (some error)

  -- The action that starts a write of the entry, if there is one.
  unfoldable pub started : FrameVersion → Option QueueEntry → List (Action Hosts Message)
  started version none = []
  started version (some entry) = async_write (buffers version entry) ∷ []

  unfoldable pub handle_write :
      Client Message → Option ErrorCode → Client Message × List (Action Hosts Message)
  unfolding started complete fail
  handle_write c none =
      let (outbound, next) = complete c.outbound in
      (record c { outbound = outbound }, started c.frame_header_version next)
  handle_write c (some error) = fail c (some error)

module _ {Hosts Descriptor Message : Type 0} (pb : Protobuf Descriptor Message) where
  -- What `deserialize` gives or throws becomes a signal; only `std::runtime_error` is caught.
  unfoldable pub received : ℕ → ℕ → Result Thrown Message → Result Thrown (Action Hosts Message)
  received comp_id msg_type (ok m) = ok (sig_rcvd comp_id msg_type m)
  received comp_id msg_type (err (runtime_error what)) = ok (sig_recv_failed comp_id msg_type what)
  received comp_id msg_type (err (logic_error what)) = err (logic_error what)

  -- The payload has arrived in the first bytes of `in_data_`.
  unfoldable pub handle_read_message :
      Client Message
      → Result ErrorCode (List ℕ)
      → Result Thrown (Client Message × List (Action Hosts Message))
  unfolding received fail
  handle_read_message c (ok bytes) = do
    let in_data = bytes ++ drop (length bytes) c.in_data
    let (frame_header, message_header, body) =
        headers c.frame_header_version c.in_frame_header in_data
    let comp_id = ntohs message_header.component_id
    let msg_type = ntohs message_header.msg_type
    signal ←
        received comp_id msg_type
          (deserialize pb c.message_register frame_header message_header body)
    ok (record c { in_data = in_data }, signal ∷ async_read_header frame_header_size ∷ [])
  handle_read_message c (err error) = ok (fail c (some error))

  -- `send(component_id, msg_type, m)`; `fresh` is the memory that the new entry occupies.
  unfoldable pub send :
      QueueEntry
      → Client Message
      → ℕ
      → ℕ
      → Message
      → Result ClientError (Client Message × List (Action Hosts Message))
  unfolding started
  send fresh c component_id msg_type m =
      if c.connected
      then (do
        let entry = new_entry fresh
        written ← lift (serialize pb component_id msg_type m entry.frame_header)
        let pushed = enqueue c.outbound (fill_entry c.frame_header_version entry written)
        ok (record c { outbound = pushed.0 }, started c.frame_header_version pushed.1))
      else err not_connected

  -- `send(m)`: component ID and message type are read off the descriptor.
  unfoldable pub send_message :
      QueueEntry
      → Client Message
      → Message
      → Result ClientError (Client Message × List (Action Hosts Message))
  send_message fresh c m = do
    key ← lift (key_from_desc pb (pb.descriptor m))
    send fresh c key.0 key.1 m
