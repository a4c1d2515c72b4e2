-- ===== src/Communicator/Dispatch.antt =====
-- Whom `pb-send` of src/libs/protobuf_clips/communicator.cpp reaches under an ID.
use at_work_central_factory.Common.{
  ℕ, ◌+◌, ◌≡◌, ◌≢◌, ◌==◌, refl, ◌∙◌, ap, false, not, ◌&&◌, Option, none, some, inl, inr, [], ◌∷◌,
  is_some, ok, err, arith, Option-cases, Bool-cases, >>=-eq-ok,
}
use at_work_central_factory.Common.Int.{ℤ}
use at_work_central_factory.Common.Dict.{
  nat_key, find, find-insert_self, find-insert_ne, find-erase_self,
}
use at_work_central_factory.Communicator.{
  Communicator, Links, Endpoint, null_server, sig_server_sent, is_positive, to_port, enable_server,
  disable_server, pb_disconnect, disconnect_server_client,
}
use at_work_central_factory.Communicator.Sending.{
  pb_send, with_client, server_client, send_to, caught, send_via_server,
}
use at_work_central_factory.Communicator.Handlers.{handle_server_client_connected}
use at_work_central_factory.Communicator.Identity.{Identified, names, flag-some, flag-none}

nobody : {Server : Type 0} (o : Option Server) → with_client o none ≡ none
nobody none = refl
nobody (some s) = refl

module _ {Message Server Client Peer : Type 0} where
  no_server_client :
      (c : Communicator Message Server Client Peer) (id : ℕ)
      → find id c.server_clients ≡ none
      → server_client c id ≡ none
  no_server_client c id h = ap (with_client c.server) h ∙ nobody c.server

  a_server_client :
      (c : Communicator Message Server Client Peer) (id client : ℕ) (s : Server)
      → c.server ≡ some s
      → find id c.server_clients ≡ some client
      → server_client c id ≡ some (s, client)
  a_server_client c id client s up there =
      ap (λ o. with_client o (find id c.server_clients)) up ∙ ap (with_client (some s)) there

module _ {Message Server Client Peer : Type 0} (links : Links Message Server Client Peer) where
  open links use {new_server, server_send}

  -- What the server has taken under the ClientID of an ID.
  pub pb_send_server :
      (c : Communicator Message Server Client Peer) (id client : ℕ) (m : Message) (s s' : Server)
      → c.server ≡ some s
      → find id c.server_clients ≡ some client
      → server_send s client m ≡ ok s'
      → pb_send links id (some m) c
        ≡ ok (record c { server = some s' }, sig_server_sent client m ∷ [])
  unfolding pb_send send_to send_via_server caught
  pb_send_server c id client m s s' up there sent =
      rw (a_server_client c id client s up there, send_to, sent) refl

  -- Under an ID that is in no map nothing is sent.
  pub pb_send_unknown :
      (c : Communicator Message Server Client Peer) (id : ℕ) (m : Option Message)
      → find id c.server_clients ≡ none
      → find id c.clients ≡ none
      → find id c.peers ≡ none
      → pb_send links id m c ≡ ok (c, [])
  unfolding pb_send send_to caught
  pb_send_unknown c id none h1 h2 h3 = refl
  pb_send_unknown c id (some m) h1 h2 h3 =
      rw (no_server_client c id h1, h2, h3, pb_send, send_to) refl

  -- In a communicator whose IDs are kept apart, what is sent under the ID of a client, or of a client
  -- of the server, that the rules have disconnected changes nothing and signals nothing, if
  -- disconnecting it throws nothing and the ID is not that of a peer.
  pub pb_send-pb_disconnect :
      (held : ℕ) (c c' : Communicator Message Server Client Peer) (id : ℕ) (m : Option Message)
      → Identified held c
      → pb_disconnect links id c ≡ ok c'
      → find id c.peers ≡ none
      → pb_send links id m c' ≡ ok (c', [])
  unfolding pb_disconnect disconnect_server_client names
  pb_send-pb_disconnect held c c' id m v h no_peer =
      elim (Option-cases (find id c.server_clients)) [
        | inl f ↦
            pb_send_unknown c' id m (ground arith) (ground (arith, find-erase_self id c.clients))
              (ground arith)
        | inr (client, f) ↦
            let lone : find id c.clients ≡ none =
              flag-none (find id c.clients)
                (omega (arith, v.single id, flag-some (find id c.server_clients) client f)) in
            elim (Option-cases c.server) [
              | inl e ↦ ground arith
              | inr (s, e) ↦
                  pb_send_unknown c' id m (ground (arith, find-erase_self id c.server_clients))
                    (ground arith) (ground arith)
            ]
      ]

  -- Once the server is disabled, disconnecting one of its clients follows a null pointer.
  pb_disconnect-disable_server :
      (c : Communicator Message Server Client Peer) (id client : ℕ)
      → find id c.server_clients ≡ some client
      → pb_disconnect links id (disable_server c) ≡ err null_server
  unfolding pb_disconnect disable_server disconnect_server_client
  pb_disconnect-disable_server c id client there = rw (there, pb_disconnect) refl

  enabled_same :
      (c c' : Communicator Message Server Client Peer) (port : ℤ)
      → enable_server links port c ≡ ok c'
      → (c'.server_clients ≡ c.server_clients) × (c'.next_client_id ≡ c.next_client_id)
  unfolding enable_server
  enabled_same c c' port h = elim (Bool-cases (is_positive port && not (is_some c.server))) [
    | inr no_server ↦ (ground arith, ground arith)
    | inl wanted ↦
        let (s, made, same) =
          >>=-eq-ok (new_server (to_port port)) _ (rw (wanted, enable_server) at h) in
        (ground arith, ground arith)
  ]

  -- If the server is disabled and enabled again, the ID of an old client names the new client that
  -- gets the same ClientID, beside its own ID.
  pub reenabled_server_clients :
      (held : ℕ) (c c' : Communicator Message Server Client Peer) (id client : ℕ) (port : ℤ)
      (e : Endpoint)
      → Identified held c
      → find id c.server_clients ≡ some client
      → enable_server links port (disable_server c) ≡ ok c'
      → let d = (handle_server_client_connected client e c').0 in
        (id ≢ d.next_client_id)
        × (find id d.server_clients ≡ some client)
        × (find d.next_client_id d.server_clients ≡ some client)
  unfolding enable_server disable_server handle_server_client_connected names
  reenabled_server_clients held c c' id client port e v there h =
      let inside = v.in_range id in
      let known = flag-some (find id c.server_clients) client there in
      let (maps, next) = enabled_same (disable_server c) c' port h in
      let apart : ((c'.next_client_id + 1) == id) ≡ false = ground arith in
      (
        ground arith,
        find-insert_ne (c'.next_client_id + 1) id client c'.server_clients apart
            ∙ ap (find id) maps
            ∙ there,
        find-insert_self (c'.next_client_id + 1) client c'.server_clients,
      )
