-- ===== src/Server/Handlers.antt =====
-- The completion handlers of sessions in src/libs/protobuf_comm/server.cpp: writes, and reads of
-- headers and payloads.
use at_work_central_factory.Common.{
  ℕ, Bool, true, false, Option, none, some, List, [], ◌∷◌, ◌++◌, length, drop, ltb, if◌then◌else◌,
  Result, ok, err, ◌>>=◌,
}
use at_work_central_factory.Common.Dict.{nat_key}
use at_work_central_factory.Common.Bytes.{ntohs, ntohl}
use at_work_central_factory.Wire.{message_header_size, read_frame_header, read_message_header}
use at_work_central_factory.Protobuf.{Protobuf}
use at_work_central_factory.Register.{Thrown, runtime_error, logic_error, deserialize}
use at_work_central_factory.Outbound.{complete}
use at_work_central_factory.Server.{
  ErrorCode, not_enough_memory, Session, Action, async_read_header, async_read_message, sig_rcvd,
  sig_recv_failed, Server, set_object, disconnected, and_then, started,
}

module _ {Message : Type 0} where
  unfoldable pub handle_write :
      Server Message → ℕ → Session → Option ErrorCode → Server Message × List (Action Message)
  unfolding started complete disconnected
  handle_write s object session none =
      let (outbound, next) = complete session.outbound in
      (set_object object (record session { outbound = outbound }) s, started object next)
  handle_write s object session (some error) = disconnected s session error

  -- `realloc` gives the larger buffer, or NULL. A failure is signalled, and the read is set up all
  -- the same.
  unfoldable pub grow :
      Server Message
      → ℕ
      → Session
      → (to_read : ℕ) (realloc : Bool) → Server Message × List (Action Message)
  grow s object session to_read true =
      (set_object object (record session { in_data_size = to_read }) s, [])
  grow s object session to_read false =
      and_then (set_object object session s, []) (λ s. disconnected s session not_enough_memory)

  -- The header's eight bytes have arrived in `in_frame_header_`.
  unfoldable pub handle_read_header :
      Server Message
      → ℕ
      → Session
      → (realloc : Bool) → Result ErrorCode (List ℕ)
      → Server Message × List (Action Message)
  unfolding grow disconnected
  handle_read_header s object session realloc (ok bytes) =
      let session' = record session { in_frame_header = read_frame_header bytes } in
      let to_read = ntohl session'.in_frame_header.payload_size in
      and_then
        (if ltb session'.in_data_size to_read
          then grow s object session' to_read realloc
          else (set_object object session' s, []))
        (λ s. (s, async_read_message object to_read ∷ []))
  handle_read_header s object session realloc (err error) = disconnected s session error

module _ {Descriptor Message : Type 0} (pb : Protobuf Descriptor Message) where
  -- What `deserialize` gives or throws becomes a signal; only `std::runtime_error` is caught.
  unfoldable pub received : ℕ → ℕ → ℕ → Result Thrown Message → Result Thrown (Action Message)
  received client comp_id msg_type (ok m) = ok (sig_rcvd client comp_id msg_type m)
  received client comp_id msg_type (err (runtime_error what)) =
      ok (sig_recv_failed client comp_id msg_type what)
  received client comp_id msg_type (err (logic_error what)) = err (logic_error what)

  -- The payload has arrived in the first bytes of `in_data_`.
  unfoldable pub handle_read_message :
      Server Message
      → ℕ
      → Session
      → Result ErrorCode (List ℕ)
      → Result Thrown (Server Message × List (Action Message))
  unfolding received disconnected
  handle_read_message s object session (ok bytes) = do
    let in_data = bytes ++ drop (length bytes) session.in_data
    let message_header = read_message_header in_data
    let comp_id = ntohs message_header.component_id
    let msg_type = ntohs message_header.msg_type
    signal ← received session.id comp_id msg_type (
        deserialize pb s.message_register session.in_frame_header message_header
          (drop message_header_size in_data))
    ok (
      set_object object (record session { in_data = in_data }) s,
      signal ∷ async_read_header object ∷ [],
    )
  handle_read_message s object session (err error) = ok (disconnected s session error)
