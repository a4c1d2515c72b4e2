-- ===== src/Server/Sending.antt =====
-- Sending in src/libs/protobuf_comm/server.cpp: to one client, and to all.
use at_work_central_factory.Common.{ℕ, Option, List, [], ◌∷◌, ◌++◌, Result, ok, ◌>>=◌, or_throw}
use at_work_central_factory.Common.Dict.{Dict, nat_key, find}
use at_work_central_factory.Wire.{QueueEntry, new_entry}
use at_work_central_factory.Protobuf.{Protobuf}
use at_work_central_factory.Register.{Thrown, key_from_desc, serialize}
use at_work_central_factory.Outbound.{enqueue}
use at_work_central_factory.Server.{
  Session, ServerError, client_does_not_exist, lift, Action, Server, set_object, started,
}

module _ {Descriptor Message : Type 0} (pb : Protobuf Descriptor Message) where
  -- `Session::send`; `fresh` is the memory that the new entry occupies.
  unfoldable pub session_send :
      QueueEntry → ℕ → ℕ → Message → Session → Result Thrown (Session × Option QueueEntry)
  session_send fresh component_id msg_type m session = do
    let entry = new_entry fresh
    (frame_header, message_header, bytes) ← serialize pb component_id msg_type m entry.frame_header
    let entry' = record entry {
      frame_header = frame_header;
      message_header = message_header;
      serialized_message = bytes;
    }
    let pushed = enqueue session.outbound entry'
    ok (record session { outbound = pushed.0 }, pushed.1)

  -- `send(client, component_id, msg_type, m)`
  unfoldable pub send :
      QueueEntry
      → Server Message
      → ℕ
      → ℕ
      → ℕ
      → Message
      → Result ServerError (Server Message × List (Action Message))
  unfolding started
  send fresh s client component_id msg_type m = do
    object ← or_throw (find client s.sessions) client_does_not_exist
    session ← or_throw (find object s.objects) client_does_not_exist
    (session', write) ← lift (session_send fresh component_id msg_type m session)
    ok (set_object object session' s, started object write)

  -- `send(client, m)`: component ID and message type are read off the descriptor.
  unfoldable pub send_message :
      QueueEntry
      → Server Message
      → ℕ
      → Message
      → Result ServerError (Server Message × List (Action Message))
  send_message fresh s client m = do
    key ← lift (key_from_desc pb (pb.descriptor m))
    send fresh s client key.0 key.1 m

  unfoldable pub send_each :
      QueueEntry
      → ℕ
      → ℕ
      → Message
      → Dict ℕ ℕ
      → Server Message
      → Result ServerError (Server Message × List (Action Message))
  send_each fresh component_id msg_type m [] s = ok (s, [])
  send_each fresh component_id msg_type m ((client, object) ∷ rest) s =
      send fresh s client component_id msg_type m >>= λ r.
      send_each fresh component_id msg_type m rest r.0 >>= λ r'. ok (r'.0, r.1 ++ r'.1)

  -- `send_to_all(component_id, msg_type, m)`: the sessions in the order of their IDs. An exception
  -- ends the loop.
  unfoldable pub send_to_all :
      QueueEntry
      → Server Message
      → ℕ
      → ℕ
      → Message
      → Result ServerError (Server Message × List (Action Message))
  unfolding send_each
  send_to_all fresh s component_id msg_type m = send_each fresh component_id msg_type m s.sessions s
