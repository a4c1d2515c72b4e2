-- ===== src/Communicator/History.antt =====
-- The IDs of src/libs/protobuf_clips/communicator.cpp over the histories of a communicator.
use at_work_central_factory.Common.{ℕ, none, inl, inr, List, [], ◌∷◌, Result-cases}
use at_work_central_factory.Common.Dict.{nat_key}
use at_work_central_factory.Register.{Register}
use at_work_central_factory.Communicator.{
  Communicator, Links, init, enable_server, disable_server, peer_create_local_crypto, peer_destroy,
  peer_setup_crypto, pb_disconnect,
}
use at_work_central_factory.Communicator.Sending.{pb_send, pb_broadcast}
use at_work_central_factory.Communicator.Handlers.{
  handle_peer_msg, handle_client_msg, handle_client_connected, handle_client_disconnected,
  handle_client_receive_fail,
}
use at_work_central_factory.Communicator.Events.{
  Event, step, run, server_enable, server_disable, peer_create, peer_gone, peer_crypto, connect,
  disconnect, send_message, broadcast_message, server_client_in, server_client_out,
  server_client_msg, server_client_fail, peer_msg, client_in, client_out, client_msg, client_fail,
}
use at_work_central_factory.Communicator.Identity.{
  Identified, init-Identified, erase_peer-Identified, connected-Identified,
}
use at_work_central_factory.Communicator.Identity.Signals.{
  assert_message-Identified, disconnected-Identified, server_client_msg-Identified,
  server_client_fail-Identified, set_server-Identified,
}
use at_work_central_factory.Communicator.Identity.Calls.{
  pb_send-Identified, pb_broadcast-Identified, pb_disconnect-Identified, enable_server-Identified,
  peer_create-Identified, peer_setup_crypto-Identified, client_connect-Identified,
}

module _ {Message Server Client Peer : Type 0} (links : Links Message Server Client Peer) where
  step-Identified :
      (held : ℕ) (c : Communicator Message Server Client Peer) (e : Event Message)
      → Identified held c
      → Identified held (step links c e).0
  unfolding step disable_server peer_destroy handle_peer_msg handle_client_msg
      handle_client_connected handle_client_disconnected handle_client_receive_fail
  step-Identified held c (server_enable port) v = elim (Result-cases (enable_server links port c)) [
    | inl (c', h) ↦ rw (h, step) (enable_server-Identified links held c c' port v h)
    | inr (f, h) ↦ rw (h, step) v
  ]
  step-Identified held c server_disable v = set_server-Identified held c none v
  step-Identified held c (peer_create a s r k e) v =
      elim (Result-cases (peer_create_local_crypto links a s r k e c)) [
        | inl ((c', id), h) ↦ rw (h, step) (peer_create-Identified links held c c' a k e s r id v h)
        | inr (f, h) ↦ rw (h, step) v
      ]
  step-Identified held c (peer_gone id) v = erase_peer-Identified held c id v
  step-Identified held c (peer_crypto id k e) v =
      elim (Result-cases (peer_setup_crypto links id k e c)) [
        | inl (c', h) ↦ rw (h, step) (peer_setup_crypto-Identified links held c c' id k e v h)
        | inr (f, h) ↦ rw (h, step) v
      ]
  step-Identified held c (connect host port) v = client_connect-Identified links held c host port v
  step-Identified held c (disconnect id) v = elim (Result-cases (pb_disconnect links id c)) [
    | inl (c', h) ↦ rw (h, step) (pb_disconnect-Identified links held c c' id v h)
    | inr (f, h) ↦ rw (h, step) v
  ]
  step-Identified held c (send_message id m) v = elim (Result-cases (pb_send links id m c)) [
    | inl ((c', out), h) ↦ rw (h, step) (pb_send-Identified links held c c' id m out v h)
    | inr (f, h) ↦ rw (h, step) v
  ]
  step-Identified held c (broadcast_message id m) v =
      elim (Result-cases (pb_broadcast links id m c)) [
        | inl ((c', out), h) ↦ rw (h, step) (pb_broadcast-Identified links held c c' id m out v h)
        | inr (f, h) ↦ rw (h, step) v
      ]
  step-Identified held c (server_client_in client e) v = connected-Identified held c client e v
  step-Identified held c (server_client_out client) v = disconnected-Identified held c client v
  step-Identified held c (server_client_msg r client k t m) v =
      server_client_msg-Identified held c r client k t m v
  step-Identified held c (server_client_fail client k t w) v =
      server_client_fail-Identified held c client k t w v
  step-Identified held c (peer_msg r id e k t m) v =
      assert_message-Identified held c r e k t m _ id v
  step-Identified held c (client_in id) v = v
  step-Identified held c (client_out id) v = v
  step-Identified held c (client_msg r id k t m) v =
      assert_message-Identified held c r _ k t m _ id v
  step-Identified held c (client_fail id k t w) v = v

  run-Identified :
      (held : ℕ) (es : List (Event Message)) (c : Communicator Message Server Client Peer)
      → Identified held c
      → Identified held (run links c es).0
  unfolding run
  run-Identified held [] c v = v
  run-Identified held (e ∷ es) c v =
      run-Identified held es (step links c e).0 (step-Identified held c e v)

  -- After any history of a new communicator, an ID is in at most one of the maps of server clients,
  -- clients and peers; those in use were counted up since the construction; and each ClientID leads
  -- to an ID that leads back to it and has an endpoint. The memory that the ID counter starts from
  -- is taken to hold no negative number.
  pub run-init-Identified :
      (mr : Register Message) (held : ℕ) (es : List (Event Message))
      → Identified held (run links (init mr held) es).0
  run-init-Identified mr held es = run-Identified held es (init mr held) (init-Identified mr held)
