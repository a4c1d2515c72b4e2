-- ===== src/Client/Reconnect.antt =====
-- What is left of the outbound queue of src/libs/protobuf_comm/client.cpp after a write has failed,
-- and what `connected_` says of the socket.
use at_work_central_factory.Common.{
  ℕ, ap, ◌≡◌, refl, ◌∙◌, Bool, true, false, Option, none, some, inl, inr, List, [], ◌∷◌, ◌++◌,
  Result, ok, err, arith, All, Bool-cases, Result-cases,
}
use at_work_central_factory.Wire.{QueueEntry, FrameVersion, new_entry}
use at_work_central_factory.Protobuf.{Protobuf}
use at_work_central_factory.Register.{Register, serialize}
use at_work_central_factory.Outbound.{enqueue, complete}
use at_work_central_factory.Server.{ErrorCode}
use at_work_central_factory.Client.{
  Client, Action, async_write, init, fail, disconnect, async_connect, handle_resolve,
  handle_connect, handle_write, handle_read_header, handle_read_message, send, started,
}
use at_work_central_factory.Client.Events.{
  Event, resolve_done, connect_done, write_done, header_done, message_done, call_connect,
  call_disconnect, call_send, after, step, run,
}

module _ {Hosts Message : Type 0} where
  -- The writes that are started, in order.
  abbrev pub writes : List (Action Hosts Message) → List (List ℕ)
  writes [] = []
  writes (async_write bytes ∷ out) = bytes ∷ writes out
  writes (_ ∷ out) = writes out

  abbrev pub is_write_done : Event Hosts Message → Bool
  is_write_done (write_done e) = true
  is_write_done _ = false

  writes-append : (a b : List (Action Hosts Message)) → writes (a ++ b) ≡ writes a ++ writes b
  writes-append [] b = refl
  writes-append (Action.async_write bytes ∷ a) b = ap (◌∷◌ bytes) (writes-append a b)
  writes-append (Action.async_resolve h p ∷ a) b = writes-append a b
  writes-append (Action.async_connect_to h ∷ a) b = writes-append a b
  writes-append (Action.async_read_header n ∷ a) b = writes-append a b
  writes-append (Action.async_read_message n ∷ a) b = writes-append a b
  writes-append (Action.sig_connected ∷ a) b = writes-append a b
  writes-append (Action.sig_disconnected e ∷ a) b = writes-append a b
  writes-append (Action.sig_rcvd c t m ∷ a) b = writes-append a b
  writes-append (Action.sig_recv_failed c t r ∷ a) b = writes-append a b
  writes-append (Action.shutdown_and_close ∷ a) b = writes-append a b

  -- Nothing is written, and the outbound queue and the version stay as they are.
  abbrev pub IsQuiet : Client Message → Client Message × List (Action Hosts Message) → Type 0
  IsQuiet c r =
      (r.0.outbound ≡ c.outbound)
      × (writes r.1 ≡ [])
      × (r.0.frame_header_version ≡ c.frame_header_version)

module _ (Hosts : Type 0) {Descriptor Message : Type 0} (pb : Protobuf Descriptor Message) where
  pub fail-IsQuiet :
      (c : Client Message) (e : Option ErrorCode) → IsQuiet c (fail {Hosts = Hosts} c e)
  unfolding fail
  fail-IsQuiet c e = (refl, ground arith, refl)

  pub header-IsQuiet :
      (c : Client Message) (realloc : Bool) (r : Result ErrorCode (List ℕ))
      → IsQuiet c (handle_read_header {Hosts = Hosts} c realloc r)
  unfolding handle_read_header
  header-IsQuiet c true (ok bytes) = (ground arith, ground arith, ground arith)
  header-IsQuiet c false (ok bytes) = (ground arith, ground arith, ground arith)
  header-IsQuiet c realloc (err e) = fail-IsQuiet c (some e)

  pub message-IsQuiet :
      (c : Client Message) (r : Result ErrorCode (List ℕ))
      → IsQuiet c (after c (handle_read_message {Hosts = Hosts} pb c r))
  unfolding handle_read_message
  message-IsQuiet c (ok bytes) = (ground arith, ground arith, ground arith)
  message-IsQuiet c (err e) = fail-IsQuiet c (some e)

  pub connect-IsQuiet :
      (c : Client Message) (left_open : Bool) (e : Option ErrorCode)
      → IsQuiet c (handle_connect {Hosts = Hosts} c left_open e)
  unfolding handle_connect
  connect-IsQuiet c left_open none = (refl, refl, refl)
  connect-IsQuiet c left_open (some e) =
      fail-IsQuiet (record c { socket_open = left_open }) (some e)

  send_stalled :
      (fresh : QueueEntry) (k t : ℕ) (m : Message) (c : Client Message)
      → c.outbound.active ≡ true
      → let r = after c (send {Hosts = Hosts} pb fresh c k t m) in
        (r.0.outbound.active ≡ true) × (writes r.1 ≡ [])
  unfolding send enqueue started
  send_stalled fresh k t m c on = elim (Bool-cases c.connected) [
    | inl up ↦ elim (Result-cases (serialize pb k t m (new_entry fresh).frame_header)) [
      | inl (w, e) ↦ rw (up, e, on) (refl, refl)
      | inr (x, e) ↦ rw (up, e) (on, refl)
    ]
    | inr down ↦ rw down (on, refl)
  ]

  step_stalled :
      (c : Client Message) (e : Event Hosts Message)
      → c.outbound.active ≡ true
      → is_write_done e ≡ false
      → ((step pb c e).0.outbound.active ≡ true) × (writes (step pb c e).1 ≡ [])
  unfolding step async_connect disconnect handle_resolve
  step_stalled c (resolve_done (ok hosts)) on h = (on, refl)
  step_stalled c (resolve_done (err e)) on h =
      let q = (fail-IsQuiet c (some e)) in (ap (λ o. o.active) q.0 ∙ on, q.1)
  step_stalled c (connect_done left_open e) on h =
      let q = (connect-IsQuiet c left_open e) in (ap (λ o. o.active) q.0 ∙ on, q.1)
  step_stalled c (write_done e) on h = cc
  step_stalled c (header_done realloc r) on h =
      let q = (header-IsQuiet c realloc r) in (ap (λ o. o.active) q.0 ∙ on, q.1)
  step_stalled c (message_done r) on h =
      let q = (message-IsQuiet c r) in (ap (λ o. o.active) q.0 ∙ on, q.1)
  step_stalled c (call_connect host port) on h = (on, refl)
  step_stalled c call_disconnect on h =
      let q = (fail-IsQuiet c none) in (ap (λ o. o.active) q.0 ∙ on, q.1)
  step_stalled c (call_send fresh k t m) on h = send_stalled fresh k t m c on

  run_stalled :
      (c : Client Message) (es : List (Event Hosts Message))
      → c.outbound.active ≡ true
      → All (λ e. is_write_done e ≡ false) es
      → ((run pb c es).0.outbound.active ≡ true) × (writes (run pb c es).1 ≡ [])
  unfolding run
  run_stalled c [] on h = (on, refl)
  run_stalled c (e ∷ es) on h =
      let (on', quiet) = step_stalled c e on h.0 in
      let (on'', quiet') = run_stalled (step pb c e).0 es on' h.1 in
      (on'', rw (writes-append, quiet) quiet')

  failed_active :
      (c : Client Message) (error : ErrorCode)
      → (handle_write {Hosts = Hosts} c (some error)).0.outbound ≡ c.outbound
  unfolding handle_write
  failed_active c error = (fail-IsQuiet c (some error)).0

  -- Once a write has failed, the client writes nothing ever again: whatever is called, connected or
  -- read then, in any order, no write is started, and the queue still counts one as under way. A
  -- completion of a write is not among these events, since none is under way.
  pub run-handle_write_failed :
      (c : Client Message) (error : ErrorCode) (es : List (Event Hosts Message))
      → c.outbound.active ≡ true
      → All (λ e. is_write_done e ≡ false) es
      → let failed = handle_write {Hosts = Hosts} c (some error) in
        (writes failed.1 ≡ [])
        × (writes (run pb failed.0 es).1 ≡ [])
        × ((run pb failed.0 es).0.outbound.active ≡ true)
  unfolding handle_write
  run-handle_write_failed c error es on h =
      let (same, quiet, _) = fail-IsQuiet c (some error) in
      let r =
        run_stalled (fail {Hosts = Hosts} c (some error)).0 es (ap (λ o. o.active) same ∙ on) h in
      (quiet, r.1, r.0)

  -- `connected_` is set only while the socket is open, and while no write is thought to be under
  -- way no message waits.
  pub record Sound (c : Client Message) : Type 0 where
    pub opened : c.connected ≡ true → c.socket_open ≡ true
    pub waits : c.outbound.active ≡ false → c.outbound.queue ≡ []

  fail-Sound :
      (c : Client Message) (e : Option ErrorCode) → Sound c → Sound (fail {Hosts = Hosts} c e).0
  unfolding fail
  fail-Sound c e v = record { opened = λ h. cc; waits = v.waits }

  header-Sound :
      (c : Client Message) (realloc : Bool) (r : Result ErrorCode (List ℕ))
      → Sound c
      → Sound (handle_read_header {Hosts = Hosts} c realloc r).0
  unfolding handle_read_header
  header-Sound c true (ok bytes) v = ground arith
  header-Sound c false (ok bytes) v = ground arith
  header-Sound c realloc (err e) v = fail-Sound c (some e) v

  message-Sound :
      (c : Client Message) (r : Result ErrorCode (List ℕ))
      → Sound c
      → Sound (after c (handle_read_message {Hosts = Hosts} pb c r)).0
  unfolding handle_read_message
  message-Sound c (ok bytes) v = ground arith
  message-Sound c (err e) v = fail-Sound c (some e) v

  send-Sound :
      (fresh : QueueEntry) (k t : ℕ) (m : Message) (c : Client Message)
      → Sound c
      → Sound (after c (send {Hosts = Hosts} pb fresh c k t m)).0
  unfolding send enqueue
  send-Sound fresh k t m c v = ground arith

  write-Sound :
      (c : Client Message) (e : Option ErrorCode)
      → Sound c
      → Sound (handle_write {Hosts = Hosts} c e).0
  unfolding handle_write complete
  write-Sound c none v = ground arith
  write-Sound c (some e) v = fail-Sound c (some e) v

  step-Sound : (c : Client Message) (e : Event Hosts Message) → Sound c → Sound (step pb c e).0
  unfolding step async_connect disconnect handle_resolve handle_connect
  step-Sound c (resolve_done (ok hosts)) v = v
  step-Sound c (resolve_done (err e)) v = fail-Sound c (some e) v
  step-Sound c (connect_done left_open none) v = record { opened = λ h. refl; waits = v.waits }
  step-Sound c (connect_done left_open (some e)) v = record { opened = λ h. cc; waits = v.waits }
  step-Sound c (write_done e) v = write-Sound c e v
  step-Sound c (header_done realloc r) v = header-Sound c realloc r v
  step-Sound c (message_done r) v = message-Sound c r v
  step-Sound c (call_connect host port) v = v
  step-Sound c call_disconnect v = fail-Sound c none v
  step-Sound c (call_send fresh k t m) v = send-Sound fresh k t m c v

  run-Sound :
      (c : Client Message) (es : List (Event Hosts Message)) → Sound c → Sound (run pb c es).0
  unfolding run
  run-Sound c [] v = v
  run-Sound c (e ∷ es) v = run-Sound (step pb c e).0 es (step-Sound c e v)

  -- After any history of completions and calls of a new client, it counts as connected only while
  -- its socket is open, and a message waits only while a write is thought to be under way.
  pub run-init-Sound :
      (mr : Register Message) (version : FrameVersion) (es : List (Event Hosts Message))
      → Sound (run pb (init mr version) es).0
  unfolding init
  run-init-Sound mr version es =
      run-Sound (init mr version) es (record { opened = λ h. cc; waits = λ h. refl })
