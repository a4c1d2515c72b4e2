-- ===== src/Server/Sessions.antt =====
-- Which session a client ID names in src/libs/protobuf_comm/server.cpp.
use at_work_central_factory.Common.{
  ℕ, ◌+◌, ◌%◌, ◌^◌, ◌≤◌, ◌<◌, ◌≡◌, refl, ◌∙◌, subst, Bool, true, false, Option, none, some, inl,
  inr, List, [], ◌∷◌, ◌++◌, length, drop, if◌then◌else◌, ◌==◌, Result, ok, err, arith, Option-cases,
  Bool-cases, Result-cases, >>=-eq-ok, or_throw-eq-ok, or_throw,
}
use at_work_central_factory.Common.Dict.{
  nat_key, find, erase, insert_cases, erase_cases, find-insert_self, find-insert_ne,
}
use at_work_central_factory.Common.Ordered.{IsSorted, insert-IsSorted, erase-IsSorted}
use at_work_central_factory.Wire.{QueueEntry}
use at_work_central_factory.Protobuf.{Protobuf}
use at_work_central_factory.Register.{Register}
use at_work_central_factory.Server.{
  Server, Session, new_session, ErrorCode, Endpoint, Action, init, start_accept, set_object,
  disconnected, accepted, handle_accept, disconnect, lift, lift-eq-ok,
}
use at_work_central_factory.Server.Handlers.{
  handle_write, handle_read_header, grow, handle_read_message,
}
use at_work_central_factory.Server.Sending.{send, session_send}
use at_work_central_factory.Server.Transfer.{session_send-Queued}
use at_work_central_factory.Server.Events.{
  Event, accept_done, write_done, header_done, message_done, call_disconnect, call_send, after,
  on_object, step, run,
}

module _ {Message : Type 0} where
  -- The objects are numbered in step with the client IDs; each client ID in the table names a live
  -- session that carries this ID.
  pub record Inv (s : Server Message) : Type 0 where
    pub lockstep : s.next_cid ≡ (s.next_object + 1) % 2 ^ 32
    pub numbered :
        (o : ℕ) (x : Session)
        → find o s.objects ≡ some x
        → (o < s.next_object) × (x.id ≡ (o + 1) % 2 ^ 32)
    pub named :
        (c o : ℕ)
        → find c s.sessions ≡ some o
        → (x : Session) × (find o s.objects ≡ some x) × (x.id ≡ c)
    pub ordered : IsSorted s.sessions

  pub set_object-Inv :
      (s : Server Message) (o : ℕ) (x y : Session)
      → find o s.objects ≡ some x
      → y.id ≡ x.id
      → Inv s
      → Inv (set_object o y s)
  set_object-Inv s o x y there same v = record {
    lockstep = v.lockstep;
    numbered = λ p z h. elim (insert_cases o p y z s.objects h) [
      | inl (po, yz) ↦ ground (arith, v.numbered o x there)
      | inr (ne, old) ↦ v.numbered p z old
    ];
    named = λ c p h.
        let (z, there', e) = v.named c p h in
        elim (Bool-cases (o == p)) [
          | inl t ↦ (y, ground (arith, find-insert_self o y s.objects), ground arith)
          | inr f ↦ (z, find-insert_ne o p y s.objects f ∙ there', e)
        ];
    ordered = v.ordered;
  }

  erase-Inv :
      (s : Server Message) (c : ℕ) → Inv s → Inv (record s { sessions = erase c s.sessions })
  erase-Inv s c v = record {
    lockstep = v.lockstep;
    numbered = v.numbered;
    named = λ d p h. v.named d p ((erase_cases c d p s.sessions h).1);
    ordered = erase-IsSorted c s.sessions v.ordered;
  }

  start_accept-Inv : (s : Server Message) → Inv s → Inv (start_accept s).0
  unfolding start_accept new_session
  start_accept-Inv s v = record {
    lockstep = ground (arith, v.lockstep);
    numbered = λ p z h. elim (insert_cases s.next_object p _ z s.objects h) [
      | inl (po, yz) ↦ ground (arith, v.lockstep)
      | inr (ne, old) ↦ ground (arith, v.numbered p z old)
    ];
    named = λ c p h.
        let (z, there, e) = v.named c p h in
        (
          z,
          find-insert_ne s.next_object p _ s.objects (ground (arith, v.numbered p z there)) ∙ there,
          e,
        );
    ordered = v.ordered;
  }

  init-Inv : (mr : Register Message) → Inv (init mr).0
  unfolding init
  init-Inv mr =
      start_accept-Inv _
        (record { lockstep = refl; numbered = λ o x h. cc; named = λ c o h. cc; ordered = tt })

  accepted-Inv :
      (s : Server Message) (o : ℕ) (x : Session) (e : Endpoint)
      → find o s.objects ≡ some x
      → Inv s
      → Inv (accepted s o x e).0
  unfolding accepted
  accepted-Inv s o x e there v =
      let w =
        set_object-Inv s o x (record x { socket_open = true; remote_endpoint = e }) there refl v in
      record {
        lockstep = w.lockstep;
        numbered = w.numbered;
        named = λ c p h. elim (insert_cases x.id c o p s.sessions h) [
          | inl (ci, op) ↦ (
            record x { socket_open = true; remote_endpoint = e },
            rw (← op) (find-insert_self o _ s.objects),
            ci,
          )
          | inr (ne, old) ↦ w.named c p old
        ];
        ordered = insert-IsSorted x.id o s.sessions v.ordered;
      }

  handle_accept-Inv :
      (s : Server Message) (o : ℕ) (x : Session) (r : Result ErrorCode Endpoint)
      → find o s.objects ≡ some x
      → Inv s
      → Inv (handle_accept s o x r).0
  unfolding handle_accept
  handle_accept-Inv s o x (ok e) there v = start_accept-Inv _ (accepted-Inv s o x e there v)
  handle_accept-Inv s o x (err e) there v = start_accept-Inv s v

  handle_write-Inv :
      (s : Server Message) (o : ℕ) (x : Session) (e : Option ErrorCode)
      → find o s.objects ≡ some x
      → Inv s
      → Inv (handle_write s o x e).0
  unfolding handle_write
  handle_write-Inv s o x none there v = set_object-Inv s o x _ there refl v
  handle_write-Inv s o x (some e) there v = erase-Inv s x.id v

  if-Inv :
      (b : Bool) (p q : Server Message × List (Action Message))
      → Inv p.0
      → Inv q.0
      → Inv (if b then p else q).0
  if-Inv true p q v w = v
  if-Inv false p q v w = w

  grow-Inv :
      (s : Server Message) (o : ℕ) (x y : Session) (n : ℕ) (realloc : Bool)
      → find o s.objects ≡ some x
      → y.id ≡ x.id
      → Inv s
      → Inv (grow s o y n realloc).0
  unfolding grow disconnected
  grow-Inv s o x y n true there same v = set_object-Inv s o x _ there same v
  grow-Inv s o x y n false there same v = erase-Inv _ y.id (set_object-Inv s o x y there same v)

  handle_read_header-Inv :
      (s : Server Message) (o : ℕ) (x : Session) (realloc : Bool) (r : Result ErrorCode (List ℕ))
      → find o s.objects ≡ some x
      → Inv s
      → Inv (handle_read_header s o x realloc r).0
  unfolding handle_read_header
  handle_read_header-Inv s o x realloc (ok bytes) there v =
      if-Inv _ _ _ (grow-Inv s o x _ _ realloc there refl v) (set_object-Inv s o x _ there refl v)
  handle_read_header-Inv s o x realloc (err e) there v = erase-Inv s x.id v

  disconnect-Inv : (s : Server Message) (c : ℕ) → Inv s → Inv (disconnect s c).0
  unfolding disconnect
  disconnect-Inv s c v = elim (Option-cases (find c s.sessions)) [
    | inl e ↦ rw (e, disconnect) v
    | inr (o, e) ↦ elim (Option-cases (find o s.objects)) [
      | inl f ↦ rw (e, f, disconnect) v
      | inr (x, f) ↦
          rw (e, f, disconnect) (if-Inv x.socket_open _ _ (set_object-Inv s o x _ f refl v) v)
    ]
  ]

module _ {Descriptor Message : Type 0} (pb : Protobuf Descriptor Message) where
  handle_read_message-Inv :
      (s s' : Server Message) (o : ℕ) (x : Session) (r : Result ErrorCode (List ℕ))
      (out : List (Action Message))
      → find o s.objects ≡ some x
      → Inv s
      → handle_read_message pb s o x r ≡ ok (s', out)
      → Inv s'
  unfolding handle_read_message
  handle_read_message-Inv s s' o x (ok bytes) out there v h = subst Inv (ground arith) (
      set_object-Inv s o x (record x { in_data = bytes ++ drop (length bytes) x.in_data }) there
        refl v)
  handle_read_message-Inv s s' o x (err error) out there v h =
      subst Inv (ground arith) (erase-Inv s x.id v)

  send-Inv :
      (fresh : QueueEntry) (s s' : Server Message) (client c t : ℕ) (m : Message)
      (out : List (Action Message))
      → Inv s
      → send pb fresh s client c t m ≡ ok (s', out)
      → Inv s'
  unfolding send
  send-Inv fresh s s' client c t m out v h =
      let (o, a, h1) = >>=-eq-ok (or_throw (find client s.sessions) _) _ h in
      let (x, b, h2) = >>=-eq-ok (or_throw (find o s.objects) _) _ h1 in
      let ((x', w), d, h3) = >>=-eq-ok (lift (session_send pb fresh c t m x)) _ h2 in
      let q = session_send-Queued pb fresh c t m x x' w (lift-eq-ok _ d) in
      subst Inv (ground arith)
        (set_object-Inv s o x x' (or_throw-eq-ok (find o s.objects) _ b) (rw q.session) v)

  -- No event of the I/O service and no call breaks the invariant.
  pub step-Inv : (s : Server Message) (e : Event Message) → Inv s → Inv (step pb s e).0
  unfolding step
  step-Inv s (accept_done o r) v = elim (Option-cases (find o s.objects)) [
    | inl e ↦ rw (e, step, on_object) v
    | inr (x, e) ↦ rw (e, step, on_object) (handle_accept-Inv s o x r e v)
  ]
  step-Inv s (write_done o r) v = elim (Option-cases (find o s.objects)) [
    | inl e ↦ rw (e, step, on_object) v
    | inr (x, e) ↦ rw (e, step, on_object) (handle_write-Inv s o x r e v)
  ]
  step-Inv s (header_done o realloc r) v = elim (Option-cases (find o s.objects)) [
    | inl e ↦ rw (e, step, on_object) v
    | inr (x, e) ↦ rw (e, step, on_object) (handle_read_header-Inv s o x realloc r e v)
  ]
  step-Inv s (message_done o r) v = elim (Option-cases (find o s.objects)) [
    | inl e ↦ rw (e, step, on_object) v
    | inr (x, e) ↦ elim (Result-cases (handle_read_message pb s o x r)) [
      | inl ((s', out), h) ↦
          rw (e, step, on_object) (rw (h, after) (handle_read_message-Inv s s' o x r out e v h))
      | inr (what, h) ↦ rw (e, step, on_object) (rw (h, after) v)
    ]
  ]
  step-Inv s (call_disconnect c) v = disconnect-Inv s c v
  step-Inv s (call_send fresh client c t m) v = elim (Result-cases (send pb fresh s client c t m)) [
    | inl ((s', out), h) ↦ rw (h, step) (send-Inv fresh s s' client c t m out v h)
    | inr (what, h) ↦ rw (h, step) v
  ]

  run-Inv : (es : List (Event Message)) (s : Server Message) → Inv s → Inv (run pb s es).0
  unfolding run
  run-Inv [] s v = v
  run-Inv (e ∷ es) s v = run-Inv es (step pb s e).0 (step-Inv s e v)

  -- After any history of a new server, the client IDs that are in use name each its own session.
  pub run-init-Inv :
      (mr : Register Message) (es : List (Event Message)) → Inv (run pb (init mr).0 es).0
  run-init-Inv mr es = run-Inv es (init mr).0 (init-Inv mr)

  -- The client IDs of the first 2 ^ 32 sessions of a server differ.
  pub run_ids_distinct :
      (mr : Register Message) (es : List (Event Message)) (o p : ℕ) (x y : Session)
      → (run pb (init mr).0 es).0.next_object ≤ 2 ^ 32
      → find o (run pb (init mr).0 es).0.objects ≡ some x
      → find p (run pb (init mr).0 es).0.objects ≡ some y
      → x.id ≡ y.id
      → o ≡ p
  run_ids_distinct mr es o p x y few hx hy same =
      let v = run-init-Inv mr es in omega (arith, v.numbered o x hx, v.numbered p y hy)
