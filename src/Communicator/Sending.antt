-- ===== src/Communicator/Sending.antt =====
-- Sending in src/libs/protobuf_clips/communicator.cpp: `pb-send` and `pb-broadcast`.
use at_work_central_factory.Common.{ℕ, Option, none, some, List, [], ◌∷◌, Result, ok, err, ◌>>=◌}
use at_work_central_factory.Common.Dict.{nat_key, find, insert}
use at_work_central_factory.Communicator.{
  Communicator, Links, Failure, fatal_exception, runtime_failure, other_exception, Action,
  sig_server_sent, sig_client_sent, sig_peer_sent, endpoint_of,
}

-- The server where there is one and the ID names one of its clients.
abbrev pub with_client : {Server : Type 0} → Option Server → Option ℕ → Option (Server × ℕ)
with_client none client = none
with_client (some server) none = none
with_client (some server) (some client) = some (server, client)

module _ {Message Server Client Peer : Type 0} where
  -- What is thrown is caught, but for exceptions of other kinds.
  unfoldable pub caught :
      Communicator Message Server Client Peer
      → Result Failure (Communicator Message Server Client Peer × List (Action Message))
      → Result Failure (Communicator Message Server Client Peer × List (Action Message))
  caught c (ok r) = ok r
  caught c (err fatal_exception) = ok (c, [])
  caught c (err runtime_failure) = ok (c, [])
  caught c (err other_exception) = err other_exception

  -- A fatal exception of protobuf is caught, and the signal is sent all the same.
  unfoldable pub broadcast_by :
      ℕ
      → Message
      → Communicator Message Server Client Peer
      → Result Failure Peer
      → Result Failure (Communicator Message Server Client Peer × List (Action Message))
  broadcast_by id m c (ok peer) =
      ok (record c { peers = insert id peer c.peers }, sig_peer_sent id m ∷ [])
  broadcast_by id m c (err fatal_exception) = ok (c, sig_peer_sent id m ∷ [])
  broadcast_by id m c (err runtime_failure) = err runtime_failure
  broadcast_by id m c (err other_exception) = err other_exception

  abbrev pub server_client : Communicator Message Server Client Peer → ℕ → Option (Server × ℕ)
  server_client c id = with_client c.server (find id c.server_clients)

module _ {Message Server Client Peer : Type 0} (links : Links Message Server Client Peer) where
  open links use {server_send, client_send, peer_send}

  -- The three branches of `send`, each for an ID that is in its map.
  unfoldable pub send_via_server :
      Server
      → ℕ
      → Message
      → Communicator Message Server Client Peer
      → Result Failure (Communicator Message Server Client Peer × List (Action Message))
  send_via_server server client m c = server_send server client m >>= λ server'.
      ok (record c { server = some server' }, sig_server_sent client m ∷ [])

  unfoldable pub send_via_client :
      Client
      → ℕ
      → Message
      → Communicator Message Server Client Peer
      → Result Failure (Communicator Message Server Client Peer × List (Action Message))
  unfolding endpoint_of
  send_via_client client id m c = client_send client m >>= λ client'.
      let (endpoint, c') = endpoint_of id (record c { clients = insert id client' c.clients }) in
      ok (c', sig_client_sent endpoint m ∷ [])

  unfoldable pub send_via_peer :
      Peer
      → ℕ
      → Message
      → Communicator Message Server Client Peer
      → Result Failure (Communicator Message Server Client Peer × List (Action Message))
  send_via_peer peer id m c = peer_send peer m >>= λ peer'.
      ok (record c { peers = insert id peer' c.peers }, sig_peer_sent id m ∷ [])

  unfoldable pub send_to :
      ℕ
      → Message
      → Communicator Message Server Client Peer
      → Result Failure (Communicator Message Server Client Peer × List (Action Message))
  unfolding send_via_server send_via_client send_via_peer
  send_to id m c = elim (server_client c id) [
    | some (server, client) ↦ send_via_server server client m c
    | none ↦ elim (find id c.clients) [
      | some client ↦ send_via_client client id m c
      | none ↦ elim (find id c.peers) [ some peer ↦ send_via_peer peer id m c | none ↦ ok (c, []) ]
    ]
  ]

  -- A message pointer that is null or holds nothing is `none`.
  unfoldable pub pb_send :
      ℕ
      → Option Message
      → Communicator Message Server Client Peer
      → Result Failure (Communicator Message Server Client Peer × List (Action Message))
  unfolding send_to caught
  pb_send id none c = ok (c, [])
  pb_send id (some m) c = caught c (send_to id m c)

  unfoldable pub pb_broadcast :
      ℕ
      → Option Message
      → Communicator Message Server Client Peer
      → Result Failure (Communicator Message Server Client Peer × List (Action Message))
  unfolding broadcast_by
  pb_broadcast id none c = ok (c, [])
  pb_broadcast id (some m) c = elim (find id c.peers) [
    | none ↦ ok (c, [])
    | some peer ↦ broadcast_by id m c (peer_send peer m)
  ]
