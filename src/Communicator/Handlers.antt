-- ===== src/Communicator/Handlers.antt =====
-- The handlers of src/libs/protobuf_clips/communicator.cpp for what servers, clients and peers signal.
use at_work_central_factory.Common.{
  ℕ, ◌+◌, ◌%◌, ◌^◌, ◌==◌, String, none, some, List, [], ◌∷◌, if◌then◌else◌,
}
use at_work_central_factory.Common.Dict.{nat_key, find, insert, erase}
use at_work_central_factory.Communicator.{
  Communicator, Endpoint, ClientType, ct_server, ct_client, ct_peer, Via, stream, broadcast, Fact,
  protobuf_msg, server_client_connected, server_client_disconnected, server_receive_failed,
  client_connected, client_disconnected, receive_failed, Action, assert_fact, run_agenda,
  endpoint_of,
}

-- What CLIPS makes of an assertion: no such template, no new fact, or a fact with its index.
pub data Assertion : Type 0 where
  no_template no_new_fact : Assertion
  new_fact : ℕ → Assertion

abbrev pub via : ℕ → Via
via client_id = if client_id == 0 then broadcast else stream

module _ {Message Server Client Peer : Type 0} where
  unfoldable pub record_fact :
      Assertion
      → Fact Message
      → Communicator Message Server Client Peer
      → Communicator Message Server Client Peer × List (Action Message)
  record_fact no_template fact c = (c, [])
  record_fact no_new_fact fact c = (c, assert_fact fact ∷ [])
  record_fact (new_fact index) fact c =
      (record c { msg_facts = insert index fact c.msg_facts }, assert_fact fact ∷ [])

  -- `client_id` is an `unsigned int`.
  unfoldable pub assert_message :
      Assertion
      → Endpoint
      → ℕ
      → ℕ
      → Message
      → ClientType
      → ℕ
      → Communicator Message Server Client Peer
      → Communicator Message Server Client Peer × List (Action Message)
  unfolding record_fact
  assert_message reply endpoint comp_id msg_type m ct client_id c =
      let id = client_id % 2 ^ 32 in
      record_fact reply (protobuf_msg comp_id msg_type (via id) endpoint ct id m) c

  unfoldable pub handle_server_client_connected :
      ℕ
      → Endpoint
      → Communicator Message Server Client Peer
      → Communicator Message Server Client Peer × List (Action Message)
  handle_server_client_connected client endpoint c =
      let client_id = c.next_client_id + 1 in
      (
        record c {
          next_client_id = client_id;
          client_endpoints = insert client_id endpoint c.client_endpoints;
          server_clients = insert client_id client c.server_clients;
          rev_server_clients = insert client client_id c.rev_server_clients;
        },
        assert_fact (server_client_connected client_id endpoint) ∷ run_agenda ∷ [],
      )

  unfoldable pub handle_server_client_disconnected :
      ℕ
      → Communicator Message Server Client Peer
      → Communicator Message Server Client Peer × List (Action Message)
  handle_server_client_disconnected client c = elim (find client c.rev_server_clients) [
    | none ↦ (c, [])
    | some client_id ↦ (
      record c {
        rev_server_clients = erase client c.rev_server_clients;
        server_clients = erase client_id c.server_clients;
      },
      assert_fact (server_client_disconnected client_id) ∷ run_agenda ∷ [],
    )
  ]

  unfoldable pub handle_server_client_msg :
      Assertion
      → ℕ
      → ℕ
      → ℕ
      → Message
      → Communicator Message Server Client Peer
      → Communicator Message Server Client Peer × List (Action Message)
  unfolding endpoint_of
  handle_server_client_msg reply client component_id msg_type m c =
      elim (find client c.rev_server_clients) [
        | none ↦ (c, [])
        | some client_id ↦
            let (endpoint, c') = endpoint_of client_id c in
            assert_message reply endpoint component_id msg_type m ct_server client_id c'
      ]

  unfoldable pub handle_server_client_fail :
      ℕ
      → ℕ
      → ℕ
      → String
      → Communicator Message Server Client Peer
      → Communicator Message Server Client Peer × List (Action Message)
  unfolding endpoint_of
  handle_server_client_fail client component_id msg_type what c =
      elim (find client c.rev_server_clients) [
        | none ↦ (c, [])
        | some client_id ↦
            let (endpoint, c') = endpoint_of client_id c in
            (
              c',
              assert_fact (server_receive_failed component_id msg_type client_id what endpoint)
                  ∷ [],
            )
      ]

  unfoldable pub handle_peer_msg :
      Assertion
      → ℕ
      → Endpoint
      → ℕ
      → ℕ
      → Message
      → Communicator Message Server Client Peer
      → Communicator Message Server Client Peer × List (Action Message)
  handle_peer_msg reply peer_id endpoint component_id msg_type m c =
      assert_message reply endpoint component_id msg_type m ct_peer peer_id c

  unfoldable pub handle_client_connected :
      ℕ
      → Communicator Message Server Client Peer
      → Communicator Message Server Client Peer × List (Action Message)
  handle_client_connected client_id c =
      (c, assert_fact (client_connected client_id) ∷ run_agenda ∷ [])

  unfoldable pub handle_client_disconnected :
      ℕ
      → Communicator Message Server Client Peer
      → Communicator Message Server Client Peer × List (Action Message)
  handle_client_disconnected client_id c =
      (c, assert_fact (client_disconnected client_id) ∷ run_agenda ∷ [])

  unfoldable pub handle_client_msg :
      Assertion
      → ℕ
      → ℕ
      → ℕ
      → Message
      → Communicator Message Server Client Peer
      → Communicator Message Server Client Peer × List (Action Message)
  handle_client_msg reply client_id comp_id msg_type m c =
      assert_message reply ("", 0) comp_id msg_type m ct_client client_id c

  unfoldable pub handle_client_receive_fail :
      ℕ
      → ℕ
      → ℕ
      → String
      → Communicator Message Server Client Peer
      → Communicator Message Server Client Peer × List (Action Message)
  handle_client_receive_fail client_id comp_id msg_type what c =
      (c, assert_fact (receive_failed client_id comp_id msg_type what) ∷ [])
