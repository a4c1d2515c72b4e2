-- ===== src/Communicator/Reception.antt =====
-- What the rules learn of messages: the facts that the handlers of
-- src/libs/protobuf_clips/communicator.cpp assert.
use at_work_central_factory.Common.{
  ℕ, ◌+◌, ◌%◌, ◌^◌, ◌<◌, ◌≡◌, refl, ap, sym, ◌∙◌, String, true, Option, none, some, [], ◌∷◌, ok,
  arith, >>=-eq-ok,
}
use at_work_central_factory.Common.Int.{ℤ}
use at_work_central_factory.Common.Dict.{nat_key, find, insert, find-erase_self}
use at_work_central_factory.Communicator.{
  Communicator, Links, Endpoint, protobuf_msg, stream, ct_server, ct_peer, assert_fact,
  sig_server_sent, is_positive, to_port, endpoint_of, peer_create_local_crypto,
}
use at_work_central_factory.Communicator.Sending.{pb_send}
use at_work_central_factory.Communicator.Handlers.{
  Assertion, new_fact, via, record_fact, assert_message, handle_server_client_disconnected,
  handle_server_client_msg, handle_peer_msg,
}
use at_work_central_factory.Communicator.Identity.{Identified, names, flag-some, flag-none}
use at_work_central_factory.Communicator.Dispatch.{pb_send_unknown, pb_send_server}

via_a_stream : (n : ℕ) → 0 < n → via n ≡ stream
via_a_stream n h = ground arith

some_inj : (a b : ℕ) → some a ≡ some b → a ≡ b
some_inj a b h = cc

module _ {Message Server Client Peer : Type 0} where
  server_client_msg_lem :
      (c : Communicator Message Server Client Peer) (index client id k t : ℕ) (e : Endpoint)
      (m : Message)
      → find client c.rev_server_clients ≡ some id
      → find id c.client_endpoints ≡ some e
      → 0 < id
      → id < 2 ^ 32
      → let fact = protobuf_msg k t stream e ct_server id m in
        handle_server_client_msg (new_fact index) client k t m c
        ≡ (record c { msg_facts = insert index fact c.msg_facts }, assert_fact fact ∷ [])
  unfolding handle_server_client_msg endpoint_of assert_message record_fact
  server_client_msg_lem c index client id k t e m named at more few =
      let small : id % 2 ^ 32 ≡ id = omega arith in
      rw (named, at, handle_server_client_msg, endpoint_of) (rw (small, via_a_stream id more) refl)

module _ {Message Server Client Peer : Type 0} (links : Links Message Server Client Peer) where
  open links use {new_peer, server_send}

  -- Whatever has happened to a communicator whose IDs are kept apart and have not run past 32 bits: a
  -- message of a server client that it knows is asserted, as one that came by a stream from the
  -- address of the connection, under an ID under which an answer goes to that client and no other,
  -- if the server is up and takes the answer.
  pub pb_send-handle_server_client_msg :
      (held : ℕ) (c : Communicator Message Server Client Peer) (index client id k t : ℕ)
      (m answer : Message) (s s' : Server)
      → Identified held c
      → c.next_client_id < 2 ^ 32
      → find client c.rev_server_clients ≡ some id
      → c.server ≡ some s
      → server_send s client answer ≡ ok s'
      → let (c', said) = handle_server_client_msg (new_fact index) client k t m c in
        (e : Endpoint) × (find id c.client_endpoints ≡ some e)
        × (said ≡ assert_fact (protobuf_msg k t stream e ct_server id m) ∷ [])
        × (pb_send links id (some answer) c'
            ≡ ok (record c' { server = some s' }, sig_server_sent client answer ∷ []))
        × ((other : ℕ) → find other c.rev_server_clients ≡ some id → other ≡ client)
  unfolding names
  pb_send-handle_server_client_msg held c index client id k t m answer s s' v few there up sent =
      let at = v.linked client id there in
      let (e, known) = v.located client id there in
      let inside = v.in_range id in
      let named = flag-some (find id c.server_clients) client at in
      let heard =
        server_client_msg_lem c index client id k t e m there known (omega arith) (omega arith) in
      (
        e,
        known,
        ap (λ r. r.1) heard,
        rw heard (pb_send_server links _ id client answer s s' up at sent),
        λ other h. some_inj other client (sym (v.linked other id h) ∙ at),
      )

  -- A message that a peer has broadcast is asserted as one that came by a stream, for every peer
  -- that was created, if the memory that the ID counter starts from held no negative number and the
  -- IDs have not run past 32 bits.
  pub handle_peer_msg-peer_create :
      (c c' : Communicator Message Server Client Peer) (address key cipher : String)
      (send_port recv_port : ℤ) (index id k t : ℕ) (e : Endpoint) (m : Message)
      → is_positive send_port ≡ true
      → c.next_client_id + 1 < 2 ^ 32
      → peer_create_local_crypto links address send_port recv_port key cipher c ≡ ok (c', id)
      → (handle_peer_msg (new_fact index) id e k t m c').1
        ≡ assert_fact (protobuf_msg k t stream e ct_peer id m) ∷ []
  unfolding peer_create_local_crypto handle_peer_msg assert_message record_fact
  handle_peer_msg-peer_create c c' address key cipher send_port recv_port index id k t e m pos few
        h =
      let (x, made, same) =
        >>=-eq-ok (new_peer address (to_port send_port) _ key cipher) _
          (rw (pos, peer_create_local_crypto) at h) in
      let new : id ≡ c.next_client_id + 1 = ground arith in
      let small : (c.next_client_id + 1) % 2 ^ 32 ≡ c.next_client_id + 1 = omega arith in
      rw (new, small, via_a_stream (c.next_client_id + 1) (omega arith)) refl

  -- Once the server has reported a client as disconnected, neither a message under its ClientID nor
  -- one for its ID has any effect.
  disconnected_client_silent :
      (held : ℕ) (c : Communicator Message Server Client Peer) (reply : Assertion)
      (client id k t : ℕ) (m : Message) (sent : Option Message)
      → Identified held c
      → find client c.rev_server_clients ≡ some id
      → let c' = (handle_server_client_disconnected client c).0 in
        (handle_server_client_msg reply client k t m c' ≡ (c', []))
        × (pb_send links id sent c' ≡ ok (c', []))
  unfolding handle_server_client_disconnected handle_server_client_msg names
  disconnected_client_silent held c reply client id k t m sent v there =
      let at = v.linked client id there in
      let known = flag-some (find id c.server_clients) client at in
      let no_client : find id c.clients ≡ none =
        flag-none (find id c.clients) (omega (arith, v.single id)) in
      let no_peer : find id c.peers ≡ none =
        flag-none (find id c.peers) (omega (arith, v.single id)) in
      rw (there, handle_server_client_disconnected)
        (
          rw (find-erase_self client c.rev_server_clients, handle_server_client_msg) refl,
          pb_send_unknown links _ id sent (find-erase_self id c.server_clients) no_client no_peer,
        )
