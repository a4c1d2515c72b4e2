-- ===== src/Communicator/Identity.antt =====
-- Which server client, client or peer an ID of src/libs/protobuf_clips/communicator.cpp names.
pub mod Signals
pub mod Calls
use at_work_central_factory.Common.{
  ℕ, zero, ◌+◌, ◌≤◌, ◌<◌, ◌≡◌, ◌==◌, refl, sym, ◌∙◌, ap, subst, String, Bool, true, false, not,
  ◌&&◌, Option, none, some, inl, inr, ◌⊎◌, List, [], ◌∷◌, ◌++◌, is_some, if◌then◌else◌, Result, ok,
  err, ◌>>=◌, arith, Option-cases, Bool-cases, Result-cases, >>=-eq-ok,
}
use at_work_central_factory.Common.Int.{ℤ}
use at_work_central_factory.Common.Dict.{
  Dict, nat_key, find, insert, erase, find-insert, find-erase, insert_cases, erase_cases,
  find-insert_self, find-insert_ne, find-erase_ne,
}
use at_work_central_factory.Register.{Register}
use at_work_central_factory.Communicator.Handlers.{handle_server_client_connected}
use at_work_central_factory.Communicator.{
  Communicator, Links, Endpoint, Failure, Action, init, endpoint_of,
}

pub flag : {A : Type 0} → Option A → ℕ
flag none = 0
flag (some a) = 1

pub flag-some : {A : Type 0} (o : Option A) (a : A) → o ≡ some a → flag o ≡ 1
unfolding flag
flag-some o a h = rw h refl

pub flag-none : {A : Type 0} (o : Option A) → flag o ≡ 0 → o ≡ none
unfolding flag
flag-none none h = refl
flag-none (some a) h = absurd (omega arith)

flag-insert :
    {A : Type 0} (k j : ℕ) (a : A) (m : Dict ℕ A)
    → flag (find j (insert k a m)) ≡ (if k == j then 1 else flag (find j m))
unfolding flag
flag-insert k j a m = ground (arith, find-insert k j a m)

flag-erase :
    {A : Type 0} (k j : ℕ) (m : Dict ℕ A)
    → flag (find j (erase k m)) ≡ (if k == j then 0 else flag (find j m))
unfolding flag
flag-erase k j m = ground (arith, find-erase k j m)

module _ {Message Server Client Peer : Type 0} where
  -- In how many maps an ID is.
  unfoldable pub names : Communicator Message Server Client Peer → ℕ → ℕ
  unfolding flag
  names c id = flag (find id c.server_clients) + flag (find id c.clients) + flag (find id c.peers)

  -- An ID that is in use was counted up to from what the memory held at first, and names one thing.
  -- A ClientID leads to an ID of its own, and to an endpoint.
  pub record Identified (held : ℕ) (c : Communicator Message Server Client Peer) : Type 0 where
    pub counted : held ≤ c.next_client_id
    pub single : (id : ℕ) → names c id ≤ 1
    pub in_range : (id : ℕ) → (names c id ≡ 0) ⊎ ((held < id) × (id ≤ c.next_client_id))
    pub linked :
        (client id : ℕ)
        → find client c.rev_server_clients ≡ some id
        → find id c.server_clients ≡ some client
    pub located :
        (client id : ℕ)
        → find client c.rev_server_clients ≡ some id
        → (e : Endpoint) × (find id c.client_endpoints ≡ some e)

  pub init-Identified : (mr : Register Message) (held : ℕ) → Identified held (init mr held)
  unfolding init names
  init-Identified mr held = record {
    counted = omega arith;
    single = λ id. omega arith;
    in_range = λ id. inl refl;
    linked = λ client id h. cc;
    located = λ client id h. cc;
  }

  -- A new client or peer.
  pub new_client-Identified :
      (held : ℕ) (c : Communicator Message Server Client Peer) (x : Client)
      → Identified held c
      → Identified held (record c {
        next_client_id = c.next_client_id + 1;
        clients = insert (c.next_client_id + 1) x c.clients;
      })
  unfolding names
  new_client-Identified held c x v = record {
    counted = ground (arith, v.counted);
    single = λ id.
        ground
          (arith, flag-insert (c.next_client_id + 1) id x c.clients, v.single id, v.in_range id);
    in_range = λ id.
        ground (arith, flag-insert (c.next_client_id + 1) id x c.clients, v.counted, v.in_range id);
    linked = v.linked;
    located = v.located;
  }

  pub new_peer-Identified :
      (held : ℕ) (c : Communicator Message Server Client Peer) (x : Peer)
      → Identified held c
      → Identified held (record c {
        next_client_id = c.next_client_id + 1;
        peers = insert (c.next_client_id + 1) x c.peers;
      })
  unfolding names
  new_peer-Identified held c x v = record {
    counted = ground (arith, v.counted);
    single = λ id.
        ground (arith, flag-insert (c.next_client_id + 1) id x c.peers, v.single id, v.in_range id);
    in_range = λ id.
        ground (arith, flag-insert (c.next_client_id + 1) id x c.peers, v.counted, v.in_range id);
    linked = v.linked;
    located = v.located;
  }

  -- A client or peer that is in its map changes its state, or leaves.
  pub set_client-Identified :
      (held : ℕ) (c : Communicator Message Server Client Peer) (id : ℕ) (x y : Client)
      → find id c.clients ≡ some x
      → Identified held c
      → Identified held (record c { clients = insert id y c.clients })
  unfolding names
  set_client-Identified held c id x y there v = record {
    counted = v.counted;
    single = λ i.
        ground
          (arith, flag-insert id i y c.clients, flag-some (find id c.clients) x there, v.single i);
    in_range = λ i.
        ground (
          arith,
          flag-insert id i y c.clients,
          flag-some (find id c.clients) x there,
          v.in_range i,
        );
    linked = v.linked;
    located = v.located;
  }

  pub set_peer-Identified :
      (held : ℕ) (c : Communicator Message Server Client Peer) (id : ℕ) (x y : Peer)
      → find id c.peers ≡ some x
      → Identified held c
      → Identified held (record c { peers = insert id y c.peers })
  unfolding names
  set_peer-Identified held c id x y there v = record {
    counted = v.counted;
    single = λ i.
        ground (arith, flag-insert id i y c.peers, flag-some (find id c.peers) x there, v.single i);
    in_range = λ i.
        ground
          (arith, flag-insert id i y c.peers, flag-some (find id c.peers) x there, v.in_range i);
    linked = v.linked;
    located = v.located;
  }

  pub erase_client-Identified :
      (held : ℕ) (c : Communicator Message Server Client Peer) (id : ℕ)
      → Identified held c
      → Identified held (record c { clients = erase id c.clients })
  unfolding names
  erase_client-Identified held c id v = record {
    counted = v.counted;
    single = λ i. ground (arith, flag-erase id i c.clients, v.single i);
    in_range = λ i. ground (arith, flag-erase id i c.clients, v.in_range i);
    linked = v.linked;
    located = v.located;
  }

  pub erase_peer-Identified :
      (held : ℕ) (c : Communicator Message Server Client Peer) (id : ℕ)
      → Identified held c
      → Identified held (record c { peers = erase id c.peers })
  unfolding names
  erase_peer-Identified held c id v = record {
    counted = v.counted;
    single = λ i. ground (arith, flag-erase id i c.peers, v.single i);
    in_range = λ i. ground (arith, flag-erase id i c.peers, v.in_range i);
    linked = v.linked;
    located = v.located;
  }

  -- A client of the server comes in, and leaves.
  pub connected-Identified :
      (held : ℕ) (c : Communicator Message Server Client Peer) (client : ℕ) (e : Endpoint)
      → Identified held c
      → Identified held (handle_server_client_connected client e c).0
  unfolding names handle_server_client_connected
  connected-Identified held c client e v =
      let new = c.next_client_id + 1 in
      record {
        counted = ground (arith, v.counted);
        single = λ i. ground (
          arith,
          flag-insert (c.next_client_id + 1) i client c.server_clients,
          v.single i,
          v.in_range i,
        );
        in_range = λ i. ground (
          arith,
          flag-insert (c.next_client_id + 1) i client c.server_clients,
          v.counted,
          v.in_range i,
        );
        linked = λ d i h.
            elim (insert_cases client d (c.next_client_id + 1) i c.rev_server_clients h) [
              | inl (cd, ni) ↦
                  rw (← ni)
                    (find-insert_self (c.next_client_id + 1) client c.server_clients ∙ ap some cd)
              | inr (ne, old) ↦
                  let there = v.linked d i old in
                  let apart : ((c.next_client_id + 1) == i) ≡ false =
                    ground (arith, v.in_range i, flag-some (find i c.server_clients) d there) in
                  find-insert_ne (c.next_client_id + 1) i client c.server_clients apart ∙ there
            ];
        located = λ d i h.
            elim (insert_cases client d (c.next_client_id + 1) i c.rev_server_clients h) [
              | inl (cd, ni) ↦
                  (e, rw (← ni) (find-insert_self (c.next_client_id + 1) e c.client_endpoints))
              | inr (ne, old) ↦
                  let there = v.linked d i old in
                  let (e', at) = v.located d i old in
                  let apart : ((c.next_client_id + 1) == i) ≡ false =
                    ground (arith, v.in_range i, flag-some (find i c.server_clients) d there) in
                  (e', find-insert_ne (c.next_client_id + 1) i e c.client_endpoints apart ∙ at)
            ];
      }

  pub leave-Identified :
      (held : ℕ) (c : Communicator Message Server Client Peer) (id client : ℕ)
      → find id c.server_clients ≡ some client
      → Identified held c
      → Identified held (record c {
        server_clients = erase id c.server_clients;
        rev_server_clients = erase client c.rev_server_clients;
      })
  unfolding names
  leave-Identified held c id client there v = record {
    counted = v.counted;
    single = λ i. ground (arith, flag-erase id i c.server_clients, v.single i);
    in_range = λ i. ground (arith, flag-erase id i c.server_clients, v.in_range i);
    linked = λ d i h.
        let (ne, old) = erase_cases client d i c.rev_server_clients h in
        let at = v.linked d i old in
        let apart : (id == i) ≡ false = ground arith in
        find-erase_ne id i c.server_clients apart ∙ at;
    located = λ d i h. v.located d i ((erase_cases client d i c.rev_server_clients h).1);
  }
