-- ===== src/Client/Events.antt =====
-- The client of src/libs/protobuf_comm/client.cpp as a state machine: completions of its I/O
-- service and calls of its users, one at a time.
use at_work_central_factory.Common.{ℕ, String, Bool, Option, List, [], ◌∷◌, ◌++◌, Result, ok, err}
use at_work_central_factory.Wire.{QueueEntry}
use at_work_central_factory.Protobuf.{Protobuf}
use at_work_central_factory.Server.{ErrorCode}
use at_work_central_factory.Client.{
  Client, Action, async_connect, disconnect, handle_resolve, handle_connect, handle_write,
  handle_read_header, handle_read_message, send,
}

pub data Event (Hosts Message : Type 0) : Type 0 where
  resolve_done : Result ErrorCode Hosts → Event Hosts Message
  connect_done : (left_open : Bool) → Option ErrorCode → Event Hosts Message
  write_done : Option ErrorCode → Event Hosts Message
  header_done : (realloc : Bool) → Result ErrorCode (List ℕ) → Event Hosts Message
  message_done : Result ErrorCode (List ℕ) → Event Hosts Message
  call_connect : String → ℕ → Event Hosts Message
  call_disconnect : Event Hosts Message
  call_send : QueueEntry → (component_id msg_type : ℕ) → Message → Event Hosts Message

module _ {Hosts Message : Type 0} where
  -- A call that throws leaves the client as it was.
  abbrev pub after :
      {E : Type 0}
      → Client Message
      → Result E (Client Message × List (Action Hosts Message))
      → Client Message × List (Action Hosts Message)
  after c (ok r) = r
  after c (err e) = (c, [])

module _ {Hosts Descriptor Message : Type 0} (pb : Protobuf Descriptor Message) where
  unfoldable pub step :
      Client Message → Event Hosts Message → Client Message × List (Action Hosts Message)
  step c (resolve_done r) = handle_resolve c r
  step c (connect_done left_open e) = handle_connect c left_open e
  step c (write_done e) = handle_write c e
  step c (header_done realloc r) = handle_read_header c realloc r
  step c (message_done r) = after c (handle_read_message pb c r)
  step c (call_connect host port) = async_connect c host port
  step c call_disconnect = disconnect c
  step c (call_send fresh component_id msg_type m) =
      after c (send pb fresh c component_id msg_type m)

  unfoldable pub run :
      Client Message → List (Event Hosts Message) → Client Message × List (Action Hosts Message)
  run c [] = (c, [])
  run c (e ∷ es) = let (c', out) = step c e in let (c'', out') = run c' es in (c'', out ++ out')
