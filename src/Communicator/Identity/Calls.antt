-- ===== src/Communicator/Identity/Calls.antt =====
-- The IDs of src/libs/protobuf_clips/communicator.cpp under the calls of the rules.
use at_work_central_factory.Common.{
  ℕ, ◌≡◌, ◌∙◌, subst, String, not, ◌&&◌, Option, none, some, inl, inr, List, is_some, ok, err,
  arith, Option-cases, Bool-cases, Result-cases, >>=-eq-ok,
}
use at_work_central_factory.Common.Int.{ℤ}
use at_work_central_factory.Common.Dict.{nat_key, find, insert}
use at_work_central_factory.Communicator.{
  Communicator, Links, Failure, fatal_exception, runtime_failure, other_exception, Action,
  is_positive, enable_server, peer_create_local_crypto, peer_setup_crypto, client_connect,
  pb_disconnect, disconnect_server_client,
}
use at_work_central_factory.Communicator.Sending.{
  pb_send, pb_broadcast, server_client, send_to, caught, send_via_server, send_via_client,
  send_via_peer, broadcast_by,
}
use at_work_central_factory.Communicator.Identity.{
  Identified, new_client-Identified, new_peer-Identified, set_client-Identified,
  set_peer-Identified, erase_client-Identified, leave-Identified,
}
use at_work_central_factory.Communicator.Identity.Signals.{
  endpoint_of-Identified, set_server-Identified,
}

module _ {Message Server Client Peer : Type 0} where
  -- Where an exception is caught, nothing has changed.
  pub caught_same :
      (f : Failure) (c c' : Communicator Message Server Client Peer) (out : List (Action Message))
      → caught c (err f) ≡ ok (c', out)
      → c ≡ c'
  unfolding caught
  caught_same fatal_exception c c' out h = ground arith
  caught_same runtime_failure c c' out h = ground arith
  caught_same other_exception c c' out h = cc

module _ {Message Server Client Peer : Type 0} (links : Links Message Server Client Peer) where
  open links use {
    new_server, new_peer, setup_crypto, server_send, client_send, peer_send, server_disconnect,
  }

  pub send_via_server-Identified :
      (held : ℕ) (c c' : Communicator Message Server Client Peer) (s : Server) (client : ℕ)
      (m : Message) (out : List (Action Message))
      → Identified held c
      → send_via_server links s client m c ≡ ok (c', out)
      → Identified held c'
  unfolding send_via_server
  send_via_server-Identified held c c' s client m out v h =
      let (s', sent, same) = >>=-eq-ok (server_send s client m) _ h in
      subst (Identified held) (ground arith) (set_server-Identified held c (some s') v)

  pub send_via_client-Identified :
      (held : ℕ) (c c' : Communicator Message Server Client Peer) (x : Client) (id : ℕ)
      (m : Message) (out : List (Action Message))
      → find id c.clients ≡ some x
      → Identified held c
      → send_via_client links x id m c ≡ ok (c', out)
      → Identified held c'
  unfolding send_via_client
  send_via_client-Identified held c c' x id m out there v h =
      let (x', sent, same) = >>=-eq-ok (client_send x m) _ h in
      subst (Identified held) (ground arith) (
        endpoint_of-Identified held (record c { clients = insert id x' c.clients }) id
          (set_client-Identified held c id x x' there v))

  pub send_via_peer-Identified :
      (held : ℕ) (c c' : Communicator Message Server Client Peer) (x : Peer) (id : ℕ) (m : Message)
      (out : List (Action Message))
      → find id c.peers ≡ some x
      → Identified held c
      → send_via_peer links x id m c ≡ ok (c', out)
      → Identified held c'
  unfolding send_via_peer
  send_via_peer-Identified held c c' x id m out there v h =
      let (x', sent, same) = >>=-eq-ok (peer_send x m) _ h in
      subst (Identified held) (ground arith) (set_peer-Identified held c id x x' there v)

  pub send_to-Identified :
      (held : ℕ) (c c' : Communicator Message Server Client Peer) (id : ℕ) (m : Message)
      (out : List (Action Message))
      → Identified held c
      → send_to links id m c ≡ ok (c', out)
      → Identified held c'
  unfolding send_to
  send_to-Identified held c c' id m out v h = elim (Option-cases (server_client c id)) [
    | inr ((s, client), e) ↦
        send_via_server-Identified held c c' s client m out v (rw (e, send_to) at h)
    | inl e ↦ elim (Option-cases (find id c.clients)) [
      | inr (x, f) ↦ send_via_client-Identified held c c' x id m out f v (rw (e, f, send_to) at h)
      | inl f ↦ elim (Option-cases (find id c.peers)) [
        | inr (x, g) ↦
            send_via_peer-Identified held c c' x id m out g v (rw (e, f, g, send_to) at h)
        | inl g ↦ subst (Identified held) (ground arith) v
      ]
    ]
  ]

  pub pb_send-Identified :
      (held : ℕ) (c c' : Communicator Message Server Client Peer) (id : ℕ) (m : Option Message)
      (out : List (Action Message))
      → Identified held c
      → pb_send links id m c ≡ ok (c', out)
      → Identified held c'
  unfolding pb_send caught
  pb_send-Identified held c c' id none out v h = subst (Identified held) (ground arith) v
  pb_send-Identified held c c' id (some m) out v h = elim (Result-cases (send_to links id m c)) [
    | inl (r, e) ↦ send_to-Identified held c c' id m out v (e ∙ (rw (e, caught) at h))
    | inr (f, e) ↦ subst (Identified held) (caught_same f c c' out (rw (e, pb_send) at h)) v
  ]

  pub pb_broadcast-Identified :
      (held : ℕ) (c c' : Communicator Message Server Client Peer) (id : ℕ) (m : Option Message)
      (out : List (Action Message))
      → Identified held c
      → pb_broadcast links id m c ≡ ok (c', out)
      → Identified held c'
  unfolding pb_broadcast broadcast_by
  pb_broadcast-Identified held c c' id none out v h = subst (Identified held) (ground arith) v
  pb_broadcast-Identified held c c' id (some m) out v h = elim (Option-cases (find id c.peers)) [
    | inl f ↦ subst (Identified held) (ground arith) v
    | inr (x, f) ↦ elim (Result-cases (peer_send x m)) [
      | inl (x', e) ↦
          subst (Identified held) (ground arith) (set_peer-Identified held c id x x' f v)
      | inr (fatal_exception, e) ↦ subst (Identified held) (ground arith) v
      | inr (runtime_failure, e) ↦ ground arith
      | inr (other_exception, e) ↦ ground arith
    ]
  ]

  pub pb_disconnect-Identified :
      (held : ℕ) (c c' : Communicator Message Server Client Peer) (id : ℕ)
      → Identified held c
      → pb_disconnect links id c ≡ ok c'
      → Identified held c'
  unfolding pb_disconnect disconnect_server_client
  pb_disconnect-Identified held c c' id v h = elim (Option-cases (find id c.server_clients)) [
    | inl f ↦ subst (Identified held) (ground arith) (erase_client-Identified held c id v)
    | inr (client, f) ↦ elim (Option-cases c.server) [
      | inl e ↦ ground arith
      | inr (s, e) ↦ subst (Identified held) (ground arith) (
          set_server-Identified held _ (some (server_disconnect s client))
            (leave-Identified held c id client f v))
    ]
  ]

  pub enable_server-Identified :
      (held : ℕ) (c c' : Communicator Message Server Client Peer) (port : ℤ)
      → Identified held c
      → enable_server links port c ≡ ok c'
      → Identified held c'
  unfolding enable_server
  enable_server-Identified held c c' port v h =
      elim (Bool-cases (is_positive port && not (is_some c.server))) [
        | inr no_server ↦ subst (Identified held) (ground arith) v
        | inl wanted ↦
            let (s, made, same) = >>=-eq-ok (new_server _) _ (rw (wanted, enable_server) at h) in
            subst (Identified held) (ground arith) (set_server-Identified held c (some s) v)
      ]

  pub peer_create-Identified :
      (held : ℕ) (c c' : Communicator Message Server Client Peer) (a k e : String) (s r : ℤ)
      (id : ℕ)
      → Identified held c
      → peer_create_local_crypto links a s r k e c ≡ ok (c', id)
      → Identified held c'
  unfolding peer_create_local_crypto
  peer_create-Identified held c c' a k e s r id v h = elim (Bool-cases (is_positive s)) [
    | inr none_made ↦ subst (Identified held) (ground arith) v
    | inl wanted ↦
        let (x, made, same) =
          >>=-eq-ok (new_peer a _ _ k e) _ (rw (wanted, peer_create_local_crypto) at h) in
        subst (Identified held) (ground arith) (new_peer-Identified held c x v)
  ]

  pub peer_setup_crypto-Identified :
      (held : ℕ) (c c' : Communicator Message Server Client Peer) (id : ℕ) (k e : String)
      → Identified held c
      → peer_setup_crypto links id k e c ≡ ok c'
      → Identified held c'
  unfolding peer_setup_crypto
  peer_setup_crypto-Identified held c c' id k e v h = elim (Option-cases (find id c.peers)) [
    | inl f ↦ subst (Identified held) (ground arith) v
    | inr (x, f) ↦
        let (x', set_up, same) =
          >>=-eq-ok (setup_crypto x k e) _ (rw (f, peer_setup_crypto) at h) in
        subst (Identified held) (ground arith) (set_peer-Identified held c id x x' f v)
  ]

  pub client_connect-Identified :
      (held : ℕ) (c : Communicator Message Server Client Peer) (host : String) (port : ℤ)
      → Identified held c
      → Identified held (client_connect links host port c).0
  unfolding client_connect
  client_connect-Identified held c host port v = elim (Bool-cases (is_positive port)) [
    | inr f ↦ rw f v
    | inl t ↦ rw t (new_client-Identified held c _ v)
  ]
