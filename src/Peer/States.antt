-- ===== src/Peer/States.antt =====
-- The states that a peer of src/libs/protobuf_comm/peer.cpp can be in: whatever it is about to use
-- is there.
use at_work_central_factory.Common.{
  ℕ, ◌≡◌, ◌≢◌, refl, ◌∙◌, Bool-cases, String, Bool, true, false, ◌&&◌, Option, none, inl, inr, List,
  [], ◌∷◌, length, ltb, if-intro, str_eq, Result, ok, err, arith, Result-cases,
}
use at_work_central_factory.Wire.{FrameHeader, MessageHeader, QueueEntry, FrameVersion, new_entry}
use at_work_central_factory.Protobuf.{Protobuf}
use at_work_central_factory.Register.{Register, Thrown, serialize}
use at_work_central_factory.Server.{Endpoint}
use at_work_central_factory.Crypto.{Openssl}
use at_work_central_factory.Peer.{
  Peer, Failure, null_pointer, crypto_needs_v2, too_big, crypto_failure, thrown, before, Action,
  Outcome, start_recv, ctor, max_packet_length, blank_peer, set_filter_self, keyed, without_keys,
  Packet,
}
use at_work_central_factory.Peer.Sending.{
  send, send_serialized, send_first, send_encrypted, start_send, handle_sent,
}
use at_work_central_factory.Peer.Events.{
  Event, resolve_done, sent, recv_done, call_send, call_send_raw, call_setup_crypto,
  call_set_filter_self, connect_slot, step, run,
}
use at_work_central_factory.Peer.Sound.{
  Sound, SoundOutcome, start_recv-Sound, push_send-Sound, handle_resolve-Sound, handle_sent-Sound,
  SoundCall, silent-Sound, setup_crypto-Sound, send_raw-Sound,
}
use at_work_central_factory.Peer.SoundReceiving.{handle_recv-Sound}

abbrev pub is_waiting : List Packet → Bool
is_waiting [] = false
is_waiting (packet ∷ rest) = true

module _ {Message : Type 0} where
  abbrev pub is_null_pointer : Result Failure (List (Action Message)) → Bool
  is_null_pointer (ok out) = false
  is_null_pointer (err null_pointer) = true
  is_null_pointer (err crypto_needs_v2) = false
  is_null_pointer (err too_big) = false
  is_null_pointer (err (crypto_failure what)) = false
  is_null_pointer (err (thrown what)) = false

module _ {Descriptor Message Context : Type 0} (o : Openssl Context)
    (pb : Protobuf Descriptor Message) where
  serialized-Sound :
      (entry : QueueEntry) (p : Peer Message)
      (r : Result Thrown (FrameHeader × MessageHeader × List ℕ))
      → Sound p
      → SoundOutcome (send_serialized o pb entry p r)
  unfolding send_serialized
  serialized-Sound entry p (err what) s = record { state = s; not_null = λ z. cc }
  serialized-Sound entry p (ok (fh, mh, bytes)) s =
      if-intro (λ (r : Outcome Message). SoundOutcome r) (ltb max_packet_length (length bytes)) _ _
        (λ long. record { state = s; not_null = λ z. cc }) (λ fits. push_send-Sound o p _ s)

  step-Sound : (p : Peer Message) (e : Event Message) → Sound p → SoundOutcome (step o pb p e)
  unfolding step send set_filter_self
  step-Sound p (resolve_done r) s = handle_resolve-Sound o p r s
  step-Sound p (sent error) s = handle_sent-Sound o p error s
  step-Sound p (recv_done endpoint r) s = handle_recv-Sound o pb p endpoint r s
  step-Sound p (call_send fresh c t m) s =
      serialized-Sound (new_entry fresh) p (serialize pb c t m (new_entry fresh).frame_header) s
  step-Sound p (call_send_raw fresh fh bytes) s = send_raw-Sound o fresh p fh bytes s
  step-Sound p (call_setup_crypto key cipher random) s =
      silent-Sound o _ (setup_crypto-Sound o p key cipher random s)
  step-Sound p (call_set_filter_self filter) s = record { state = ground arith; not_null = λ z. cc }
  step-Sound p connect_slot s = record { state = ground arith; not_null = λ z. cc }

  run-Sound : (p : Peer Message) (es : List (Event Message)) → Sound p → Sound (run o pb p es)
  unfolding run
  run-Sound p [] s = s
  run-Sound p (e ∷ es) s = run-Sound (step o pb p e).0 es ((step-Sound p e s).state)

  keyed-Sound :
      (p : Peer Message) (key cipher : String) (random : Option ℕ)
      → Sound p
      → SoundCall o (keyed o p key cipher random)
  unfolding keyed
  keyed-Sound p key cipher random s =
      if-intro (λ (r : Peer Message × Result Failure (Unit {0})). SoundCall o r) (str_eq key "") _ _
        (λ none. record { state = s; not_null = λ z. cc })
        (λ some. setup_crypto-Sound o p key cipher random s)

  blank-Sound :
      (mr : Register Message) (version : FrameVersion) (local : List Endpoint)
      → Sound (blank_peer o mr version local)
  blank-Sound mr version local = record {
    encryptor = λ h. cc;
    decryptor = λ h. cc;
    buffer = λ h. cc;
    pending = λ h. cc;
    version = λ h. cc;
    buf_decryptor = λ h. cc;
    buf_buffer = λ h. cc;
  }

  ctor-Sound :
      (mr : Register Message) (version : FrameVersion) (local : List Endpoint) (address : String)
      (port : ℕ) (key cipher : String) (random : Option ℕ) (p : Peer Message)
      (out : List (Action Message))
      → ctor o mr version local address port key cipher random ≡ ok (p, out)
      → Sound p
  unfolding ctor
  ctor-Sound mr version local address port key cipher random p out h =
      let r = keyed o (blank_peer o mr version local) key cipher random in
      let q =
        keyed-Sound (blank_peer o mr version local) key cipher random
          (blank-Sound mr version local) in
      elim (Result-cases r.1) [
        | inl (u, e) ↦
            let same : p ≡ (start_recv r.0).0 = ground arith in
            rw same (start_recv-Sound r.0 q.state)
        | inr (what, e) ↦ absurd (ground arith)
      ]

  send_first_unkeyed :
      (p : Peer Message) (queue : List Packet)
      → p.crypto_enc ≡ none
      → is_null_pointer (send_first o p queue).1 ≡ p.crypto && is_waiting queue
  unfolding send_first send_encrypted
  send_first_unkeyed p [] off = ground arith
  send_first_unkeyed p (packet ∷ rest) off = elim (Bool-cases p.crypto) [
    | inl on ↦ rw (on, off) refl
    | inr plain ↦ rw plain refl
  ]

  is_null_pointer-before :
      (out : List (Action Message)) (r : Outcome Message)
      → is_null_pointer (before out r).1 ≡ is_null_pointer r.1
  is_null_pointer-before out (p, ok out') = refl
  is_null_pointer-before out (p, err what) = refl

  handle_sent-without_keys :
      (p : Peer Message) (error : Bool)
      → is_null_pointer (handle_sent o (without_keys p) error).1
        ≡ p.crypto && is_waiting p.outbound_queue
  unfolding handle_sent start_send
  handle_sent-without_keys p error =
      is_null_pointer-before _ _
      ∙ send_first_unkeyed (record (without_keys p) { outbound_active = false }) p.outbound_queue
          refl

  -- In any history of a peer that could be constructed, in which calls and handlers run one after
  -- another, none of them follows a null pointer: encryption is on only in version 2 and with an
  -- encryptor, a decryptor and a buffer, and a decryptor and a buffer are there while an encrypted
  -- datagram is looked for, also if the encryption is set up or turned off between two handlers.
  -- But `setup_crypto` takes no mutex: if the completion of a write is handled in the midst of it,
  -- once it has cleared the two pointers, a null pointer is followed just if encryption was on and a
  -- packet waits.
  pub run-ctor-Sound :
      (mr : Register Message) (version : FrameVersion) (local : List Endpoint) (address : String)
      (port : ℕ) (key cipher : String) (random : Option ℕ) (p : Peer Message)
      (out : List (Action Message)) (es : List (Event Message)) (e : Event Message) (error : Bool)
      → ctor o mr version local address port key cipher random ≡ ok (p, out)
      → let r = run o pb p es in
        Sound r
        × ((step o pb r e).1 ≢ err null_pointer)
        × (is_null_pointer (handle_sent o (without_keys r) error).1
            ≡ r.crypto && is_waiting r.outbound_queue)
  run-ctor-Sound mr version local address port key cipher random p out es e error h =
      let s = run-Sound p es (ctor-Sound mr version local address port key cipher random p out h) in
      (s, (step-Sound (run o pb p es) e s).not_null, handle_sent-without_keys (run o pb p es) error)
