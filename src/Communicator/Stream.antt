-- ===== src/Communicator/Stream.antt =====
-- The stream server of src/libs/protobuf_comm/server.cpp as the server of the communicator
-- (src/libs/protobuf_clips/communicator.cpp), next to any clients and peers.
use at_work_central_factory.Common.{List, Result, ok, err}
use at_work_central_factory.Wire.{QueueEntry}
use at_work_central_factory.Protobuf.{Protobuf}
use at_work_central_factory.Register.{Register, runtime_error, logic_error}
use at_work_central_factory.Server.{
  Server, Action, ServerError, client_does_not_exist, thrown, init, disconnect,
}
use at_work_central_factory.Server.Sending.{send_message}
use at_work_central_factory.Communicator.{Links, Failure, runtime_failure, other_exception}

abbrev failure : ServerError → Failure
failure client_does_not_exist = runtime_failure
failure (thrown (runtime_error what)) = runtime_failure
failure (thrown (logic_error what)) = other_exception

abbrev sent :
    {Message : Type 0}
    → Result ServerError (Server Message × List (Action Message))
    → Result Failure (Server Message)
sent (ok r) = ok r.0
sent (err e) = err (failure e)

module _ {Descriptor Message Client Peer : Type 0} (pb : Protobuf Descriptor Message)
    (mr : Register Message) (fresh : QueueEntry) where
  -- The port is free.
  abbrev pub with_stream_server :
      Links Message (Server Message) Client Peer → Links Message (Server Message) Client Peer
  with_stream_server links = record links {
    new_server = λ port. ok (init mr).0;
    server_send = λ s client m. sent (send_message pb fresh s client m);
    server_disconnect = λ s client. (disconnect s client).0;
  }
