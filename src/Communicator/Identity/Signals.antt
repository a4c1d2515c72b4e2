-- ===== src/Communicator/Identity/Signals.antt =====
-- The IDs of src/libs/protobuf_clips/communicator.cpp under the signals that the handlers take.
use at_work_central_factory.Common.{
  ℕ, ◌==◌, ◌∙◌, String, Option, inl, inr, arith, Option-cases, Bool-cases,
}
use at_work_central_factory.Common.Dict.{nat_key, find, find-insert_self, find-insert_ne}
use at_work_central_factory.Communicator.{Communicator, Endpoint, Fact, ClientType, endpoint_of}
use at_work_central_factory.Communicator.Handlers.{
  Assertion, no_template, no_new_fact, new_fact, record_fact, assert_message,
  handle_server_client_disconnected, handle_server_client_msg, handle_server_client_fail,
}
use at_work_central_factory.Communicator.Identity.{Identified, names, leave-Identified}

module _ {Message Server Client Peer : Type 0} where
  pub endpoint_of-Identified :
      (held : ℕ) (c : Communicator Message Server Client Peer) (id : ℕ)
      → Identified held c
      → Identified held (endpoint_of id c).1
  unfolding endpoint_of names
  endpoint_of-Identified held c id v = elim (Option-cases (find id c.client_endpoints)) [
    | inr (e, h) ↦ rw (h, endpoint_of) v
    | inl h ↦
        rw (h, endpoint_of)
          (record {
            counted = v.counted;
            single = v.single;
            in_range = v.in_range;
            linked = v.linked;
            located = λ d i there.
                let (e, at) = v.located d i there in
                elim (Bool-cases (id == i)) [
                  | inl t ↦
                      (("", 0), ground (arith, find-insert_self id ("", 0) c.client_endpoints))
                  | inr f ↦ (e, find-insert_ne id i ("", 0) c.client_endpoints f ∙ at)
                ];
          })
  ]

  pub record_fact-Identified :
      (held : ℕ) (c : Communicator Message Server Client Peer) (reply : Assertion)
      (fact : Fact Message)
      → Identified held c
      → Identified held (record_fact reply fact c).0
  unfolding record_fact names
  record_fact-Identified held c no_template fact v = v
  record_fact-Identified held c no_new_fact fact v = v
  record_fact-Identified held c (new_fact index) fact v = record {
    counted = v.counted;
    single = v.single;
    in_range = v.in_range;
    linked = v.linked;
    located = v.located;
  }

  pub assert_message-Identified :
      (held : ℕ) (c : Communicator Message Server Client Peer) (reply : Assertion) (e : Endpoint)
      (k t : ℕ) (m : Message) (ct : ClientType) (id : ℕ)
      → Identified held c
      → Identified held (assert_message reply e k t m ct id c).0
  unfolding assert_message
  assert_message-Identified held c reply e k t m ct id v = record_fact-Identified held c reply _ v

  pub disconnected-Identified :
      (held : ℕ) (c : Communicator Message Server Client Peer) (client : ℕ)
      → Identified held c
      → Identified held (handle_server_client_disconnected client c).0
  unfolding handle_server_client_disconnected
  disconnected-Identified held c client v = elim (Option-cases (find client c.rev_server_clients)) [
    | inl h ↦ rw (h, handle_server_client_disconnected) v
    | inr (id, h) ↦
        rw (h, handle_server_client_disconnected)
          (leave-Identified held c id client (v.linked client id h) v)
  ]

  pub server_client_msg-Identified :
      (held : ℕ) (c : Communicator Message Server Client Peer) (reply : Assertion) (client k t : ℕ)
      (m : Message)
      → Identified held c
      → Identified held (handle_server_client_msg reply client k t m c).0
  unfolding handle_server_client_msg
  server_client_msg-Identified held c reply client k t m v =
      elim (Option-cases (find client c.rev_server_clients)) [
        | inl h ↦ rw (h, handle_server_client_msg) v
        | inr (id, h) ↦
            rw (h, handle_server_client_msg)
              (assert_message-Identified held (endpoint_of id c).1 reply (endpoint_of id c).0 k t m
                _ id (endpoint_of-Identified held c id v))
      ]

  pub server_client_fail-Identified :
      (held : ℕ) (c : Communicator Message Server Client Peer) (client k t : ℕ) (what : String)
      → Identified held c
      → Identified held (handle_server_client_fail client k t what c).0
  unfolding handle_server_client_fail
  server_client_fail-Identified held c client k t what v =
      elim (Option-cases (find client c.rev_server_clients)) [
        | inl h ↦ rw (h, handle_server_client_fail) v
        | inr (id, h) ↦ rw (h, handle_server_client_fail) (endpoint_of-Identified held c id v)
      ]

  -- A server is made, changed or deleted.
  pub set_server-Identified :
      (held : ℕ) (c : Communicator Message Server Client Peer) (s : Option Server)
      → Identified held c
      → Identified held (record c { server = s })
  unfolding names
  set_server-Identified held c s v = record {
    counted = v.counted;
    single = v.single;
    in_range = v.in_range;
    linked = v.linked;
    located = v.located;
  }
