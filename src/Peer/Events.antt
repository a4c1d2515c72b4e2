-- ===== src/Peer/Events.antt =====
-- The peer of src/libs/protobuf_comm/peer.cpp as a state machine: completions of its I/O service
-- and calls of its users, one at a time.
use at_work_central_factory.Common.{ℕ, ◌+◌, String, Bool, Option, List, [], ◌∷◌, Result, ok, err}
use at_work_central_factory.Wire.{FrameHeader, QueueEntry}
use at_work_central_factory.Protobuf.{Protobuf}
use at_work_central_factory.Server.{Endpoint}
use at_work_central_factory.Crypto.{Openssl}
use at_work_central_factory.Peer.{Peer, Action, Failure, Outcome, set_filter_self, setup_crypto}
use at_work_central_factory.Peer.Sending.{handle_resolve, handle_sent, send, send_raw}
use at_work_central_factory.Peer.Receiving.{handle_recv}

pub data Event (Message : Type 0) : Type 0 where
  resolve_done : Option Endpoint → Event Message
  sent : (error : Bool) → Event Message
  recv_done : Endpoint → Result (Unit {0}) (List ℕ) → Event Message
  call_send : QueueEntry → (component_id msg_type : ℕ) → Message → Event Message
  call_send_raw : QueueEntry → FrameHeader → List ℕ → Event Message
  call_setup_crypto : (key cipher : String) → (random : Option ℕ) → Event Message
  call_set_filter_self : Bool → Event Message
  connect_slot : Event Message  -- to sig_rcvd_

module _ {Message : Type 0} where
  -- A handler that throws is left with the state as it was.
  abbrev pub handled :
      Peer Message → Result Failure (Peer Message × List (Action Message)) → Outcome Message
  handled p (ok (p', out)) = (p', ok out)
  handled p (err what) = (p, err what)

  abbrev pub silent : Peer Message × Result Failure (Unit {0}) → Outcome Message
  silent (p, ok _) = (p, ok [])
  silent (p, err what) = (p, err what)

module _ {Descriptor Message Context : Type 0} (o : Openssl Context)
    (pb : Protobuf Descriptor Message) where
  unfoldable pub step : Peer Message → Event Message → Outcome Message
  step p (resolve_done r) = handle_resolve o p r
  step p (sent error) = handle_sent o p error
  step p (recv_done endpoint r) = handled p (handle_recv o pb p endpoint r)
  step p (call_send fresh c t m) = send o pb fresh p c t m
  step p (call_send_raw fresh fh bytes) = send_raw o fresh p fh bytes
  step p (call_setup_crypto key cipher random) = silent (setup_crypto o p key cipher random)
  step p (call_set_filter_self filter) = (set_filter_self filter p, ok [])
  step p connect_slot = (record p { listeners = p.listeners + 1 }, ok [])

  -- The state after a history; exceptions are those of the caller.
  unfoldable pub run : Peer Message → List (Event Message) → Peer Message
  run p [] = p
  run p (e ∷ es) = run (step p e).0 es
