-- ===== src/Server/Events.antt =====
-- The server of src/libs/protobuf_comm/server.cpp as a state machine: completions of its I/O
-- service and calls of its users, one at a time.
use at_work_central_factory.Common.{
  ℕ, Bool, Option, none, some, List, [], ◌∷◌, ◌++◌, Result, ok, err,
}
use at_work_central_factory.Common.Dict.{nat_key, find}
use at_work_central_factory.Wire.{QueueEntry}
use at_work_central_factory.Protobuf.{Protobuf}
use at_work_central_factory.Server.{
  Server, Session, ErrorCode, Endpoint, Action, handle_accept, disconnect,
}
use at_work_central_factory.Server.Handlers.{handle_write, handle_read_header, handle_read_message}
use at_work_central_factory.Server.Sending.{send}

pub data Event (Message : Type 0) : Type 0 where
  accept_done : (object : ℕ) → Result ErrorCode Endpoint → Event Message
  write_done : (object : ℕ) → Option ErrorCode → Event Message
  header_done : (object : ℕ) (realloc : Bool) → Result ErrorCode (List ℕ) → Event Message
  message_done : (object : ℕ) → Result ErrorCode (List ℕ) → Event Message
  call_disconnect : (client : ℕ) → Event Message
  call_send : QueueEntry → (client component_id msg_type : ℕ) → Message → Event Message

module _ {Message : Type 0} where
  -- A call that throws leaves the server as it was.
  abbrev pub after :
      {E : Type 0}
      → Server Message
      → Result E (Server Message × List (Action Message))
      → Server Message × List (Action Message)
  after s (ok r) = r
  after s (err e) = (s, [])

  -- A handler runs on the session that it is bound to.
  abbrev pub on_object :
      Server Message
      → ℕ
      → (Session → Server Message × List (Action Message))
      → Server Message × List (Action Message)
  on_object s object handler = elim (find object s.objects) [
    | none ↦ (s, [])
    | some session ↦ handler session
  ]

module _ {Descriptor Message : Type 0} (pb : Protobuf Descriptor Message) where
  unfoldable pub step : Server Message → Event Message → Server Message × List (Action Message)
  step s (accept_done object r) = on_object s object (λ session. handle_accept s object session r)
  step s (write_done object e) = on_object s object (λ session. handle_write s object session e)
  step s (header_done object realloc r) =
      on_object s object (λ session. handle_read_header s object session realloc r)
  step s (message_done object r) =
      on_object s object (λ session. after s (handle_read_message pb s object session r))
  step s (call_disconnect client) = disconnect s client
  step s (call_send fresh client component_id msg_type m) =
      after s (send pb fresh s client component_id msg_type m)

  unfoldable pub run :
      Server Message → List (Event Message) → Server Message × List (Action Message)
  run s [] = (s, [])
  run s (e ∷ es) = let (s', out) = step s e in let (s'', out') = run s' es in (s'', out ++ out')
