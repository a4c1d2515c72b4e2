-- ===== src/Client/Histories.antt =====
-- Histories of a client of src/libs/protobuf_comm/client.cpp that sends, and what one step of them
-- changes.
use at_work_central_factory.Common.{
  ℕ, zero, suc, ◌+◌, ◌^◌, ◌<◌, ◌≡◌, refl, Bool, true, false, Option, none, some, inl, inr, List, [],
  ◌∷◌, ◌++◌, map, length, take, Result, ok, err, Result-cases, arith,
}
use at_work_central_factory.Wire.{QueueEntry, FrameHeader, MessageHeader, FrameVersion, new_entry}
use at_work_central_factory.Protobuf.{Protobuf}
use at_work_central_factory.Register.{Register, Thrown, serialize}
use at_work_central_factory.Outbound.{enqueue}
use at_work_central_factory.Outbound.Fifo.{Run, count, to_list}
use at_work_central_factory.Client.{
  Client, Action, init, async_connect, disconnect, handle_resolve, send, handle_write, fill_entry,
  buffers, started, lift,
}
use at_work_central_factory.Client.Events.{
  Event, resolve_done, connect_done, write_done, header_done, message_done, call_connect,
  call_disconnect, call_send, step,
}
use at_work_central_factory.Client.Reconnect.{
  writes, fail-IsQuiet, header-IsQuiet, message-IsQuiet, connect-IsQuiet,
}
use at_work_central_factory.Client.Transfer.{AllCarry, AllKnown}
use at_work_central_factory.Client.Understood.{Carries}

-- The messages that were sent, the writes that were started, and how many of these are not
-- completed, over a history of a client. A write completes only once it was started, and none
-- fails; anything else may happen in between.
module _ (Hosts : Type 0) {Descriptor Message : Type 0} (pb : Protobuf Descriptor Message) where
  abbrev pub touches_queue : Event Hosts Message → Bool
  touches_queue (write_done e) = true
  touches_queue (call_send fresh c t m) = true
  touches_queue _ = false

  -- A message whose numbers and bytes fit their fields.
  pub record Fits (c t : ℕ) (m : Message) : Type 0 where
    pub component_fits : c < 2 ^ 16
    pub type_fits : t < 2 ^ 16
    pub bytes_fit : (bytes : List ℕ) → pb.serialize_to_string m ≡ some bytes → length bytes < 2 ^ 31

  pub data History (mr : Register Message) (v : FrameVersion)
      : Client Message → List (ℕ × ℕ × Message) → List (List ℕ) → ℕ → Type 0 where
    constructed : History mr v (init mr v) [] [] 0
    sent :
        {x x' : Client Message} {ms : List (ℕ × ℕ × Message)} {written : List (List ℕ)} {flying : ℕ}
        (fresh : QueueEntry) (c t : ℕ) (m : Message) (out : List (Action Hosts Message))
        → Fits c t m
        → send {Hosts = Hosts} pb fresh x c t m ≡ ok (x', out)
        → History mr v x ms written flying
        → History mr v x'
            (ms ++ (c, t, m) ∷ [])
            (written ++ writes out)
            (flying + length (writes out))
    wrote :
        {x : Client Message} {ms : List (ℕ × ℕ × Message)} {written : List (List ℕ)} {flying : ℕ}
        → History mr v x ms written (suc flying)
        → History mr v
            (handle_write {Hosts = Hosts} x none).0
            ms
            (written ++ writes (handle_write {Hosts = Hosts} x none).1)
            (flying + length (writes (handle_write {Hosts = Hosts} x none).1))
    other :
        {x : Client Message} {ms : List (ℕ × ℕ × Message)} {written : List (List ℕ)} {flying : ℕ}
        (e : Event Hosts Message)
        → touches_queue e ≡ false
        → History mr v x ms written flying
        → History mr v (step pb x e).0 ms written flying

  -- The history of the client's queue behind it.
  pub record Simulated (v : FrameVersion) (x : Client Message) (ms : List (ℕ × ℕ × Message))
      (written : List (List ℕ)) (flying : ℕ) : Type 0 where
    pub entries : List QueueEntry
    pub begun : List QueueEntry
    pub run : Run x.outbound entries begun flying
    pub carry : AllCarry pb v entries ms
    pub bytes : written ≡ map (buffers v) begun
    pub version : x.frame_header_version ≡ v

  pub writes-started :
      (v : FrameVersion) (o : Option QueueEntry)
      → writes (started {Hosts = Hosts} {Message = Message} v o) ≡ map (buffers v) (to_list o)
  unfolding started
  writes-started v none = refl
  writes-started v (some e) = refl

  pub length-started :
      (v : FrameVersion) (o : Option QueueEntry)
      → length (writes (started {Hosts = Hosts} {Message = Message} v o)) ≡ count o
  unfolding started
  length-started v none = refl
  length-started v (some e) = refl

  pub AllCarry-append :
      (v : FrameVersion) (es : List QueueEntry) (ms : List (ℕ × ℕ × Message)) (e : QueueEntry)
      (c t : ℕ) (m : Message)
      → AllCarry pb v es ms
      → Carries pb v e c t m
      → AllCarry pb v (es ++ e ∷ []) (ms ++ (c, t, m) ∷ [])
  AllCarry-append v [] [] e c t m k l = (l, tt)
  AllCarry-append v [] (n ∷ ms) e c t m k l = absurd k
  AllCarry-append v (f ∷ es) [] e c t m k l = absurd k
  AllCarry-append v (f ∷ es) (n ∷ ms) e c t m k l = (k.0, AllCarry-append v es ms e c t m k.1 l)

  pub AllCarry-take :
      (v : FrameVersion) (a b : List QueueEntry) (ms : List (ℕ × ℕ × Message))
      → AllCarry pb v (a ++ b) ms
      → AllCarry pb v a (take (length a) ms)
  AllCarry-take v [] b ms k = tt
  AllCarry-take v (e ∷ a) b [] k = absurd k
  AllCarry-take v (e ∷ a) b (m ∷ ms) k = (k.0, AllCarry-take v a b ms k.1)

  pub AllKnown-take :
      (r : Register Message) (n : ℕ) (ms : List (ℕ × ℕ × Message))
      → AllKnown pb r ms
      → AllKnown pb r (take n ms)
  AllKnown-take r zero ms k = tt
  AllKnown-take r (suc n) [] k = tt
  AllKnown-take r (suc n) (m ∷ ms) k = (k.0, AllKnown-take r n ms k.1)

  -- What a `send` that succeeds leaves.
  pub record Enqueued (v : FrameVersion) (x x' : Client Message) (c t : ℕ) (m : Message)
      (out : List (Action Hosts Message)) : Type 0 where
    pub entry : QueueEntry
    pub carries : Carries pb v entry c t m
    pub outbound : x'.outbound ≡ (enqueue x.outbound entry).0
    pub version : x'.frame_header_version ≡ x.frame_header_version
    pub out_started : out ≡ started v (enqueue x.outbound entry).1

  pub step_keeps :
      (x : Client Message) (e : Event Hosts Message)
      → touches_queue e ≡ false
      → ((step pb x e).0.outbound ≡ x.outbound)
        × ((step pb x e).0.frame_header_version ≡ x.frame_header_version)
  unfolding step async_connect disconnect handle_resolve
  step_keeps x (resolve_done (ok hosts)) h = (refl, refl)
  step_keeps x (resolve_done (err e)) h = let q = fail-IsQuiet Hosts pb x (some e) in (q.0, q.2)
  step_keeps x (connect_done left_open e) h =
      let q = connect-IsQuiet Hosts pb x left_open e in (q.0, q.2)
  step_keeps x (write_done e) h = cc
  step_keeps x (header_done realloc r) h = let q = header-IsQuiet Hosts pb x realloc r in (q.0, q.2)
  step_keeps x (message_done r) h = let q = message-IsQuiet Hosts pb x r in (q.0, q.2)
  step_keeps x (call_connect host port) h = (refl, refl)
  step_keeps x call_disconnect h = let q = fail-IsQuiet Hosts pb x none in (q.0, q.2)
  step_keeps x (call_send fresh c t m) h = cc

  lift-eq-ok {ℓ} : {A : Type ℓ} (r : Result Thrown A) {a : A} → lift r ≡ ok a → r ≡ ok a
  lift-eq-ok (ok a) h = ground arith
  lift-eq-ok (err e) h = cc

  pub send-eq-ok :
      (fresh : QueueEntry) (x x' : Client Message) (c t : ℕ) (m : Message)
      (out : List (Action Hosts Message))
      → send {Hosts = Hosts} pb fresh x c t m ≡ ok (x', out)
      → (w : FrameHeader × MessageHeader × List ℕ) × (serialize pb c t m
            (new_entry fresh).frame_header
          ≡ ok w)
        × (x' ≡ record x {
          outbound = (enqueue x.outbound (fill_entry x.frame_header_version (new_entry fresh) w)).0;
        })
        × (out
            ≡ started x.frame_header_version
                (enqueue x.outbound (fill_entry x.frame_header_version (new_entry fresh) w)).1)
  unfolding send
  send-eq-ok fresh x x' c t m out h =
      elim (Result-cases (serialize pb c t m (new_entry fresh).frame_header)) [
        | inl (w, e) ↦ (w, e, ground arith, ground arith)
        | inr (bad, e) ↦ ground arith
      ]
