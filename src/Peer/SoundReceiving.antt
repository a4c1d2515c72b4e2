-- ===== src/Peer/SoundReceiving.antt =====
-- Receiving keeps a peer of src/libs/protobuf_comm/peer.cpp in a state in which it has what it is
-- about to use.
use at_work_central_factory.Common.{
  ℕ, ◌≡◌, ◌≢◌, refl, sym, ◌∙◌, ap, true, Option, none, some, inl, inr, List, ◌++◌, length, subst,
  is_some, ltb, ◌==◌, ◌>>=◌, or_throw, if-intro, Result, ok, err, arith, Option-cases, Result-cases,
}
use at_work_central_factory.Wire.{FrameVersion, pb_frame_v1, pb_frame_v2, encryption_none}
use at_work_central_factory.Protobuf.{Protobuf}
use at_work_central_factory.Server.{Endpoint}
use at_work_central_factory.Crypto.{Openssl, BufferDecryptor, CryptoError}
use at_work_central_factory.Peer.{Peer, Failure, null_pointer, Action, start_recv}
use at_work_central_factory.Peer.Receiving.{
  Received, received, received_v1, received_v2, check_cipher, decrypt_received, decrypted, deliver,
  expected_min_size, look_at, handle_recv, in_buffer, pending_buffer, set_buffer, overwrite,
}
use at_work_central_factory.Peer.Events.{handled}
use at_work_central_factory.Peer.Sound.{Sound, SoundOutcome, start_recv-Sound}

module _ {Message Context : Type 0} (o : Openssl Context) where
  -- What a datagram has become, in the same terms.
  abbrev pub IsFine : Result Failure (Received Message) → Type 0
  IsFine (ok r) = Sound r.peer
  IsFine (err what) = what ≢ null_pointer

  pub decrypted-Sound :
      (r : Received Message) (endpoint : Endpoint)
      (x : BufferDecryptor × Result CryptoError (List ℕ))
      → Sound r.peer
      → Sound (decrypted o r endpoint x).peer
  unfolding decrypted
  decrypted-Sound r endpoint (d, ok plain) s = ground arith
  decrypted-Sound r endpoint (d, err what) s = ground arith

  pub decrypt_received-IsFine :
      (r : Received Message) (endpoint : Endpoint) (buffer : List ℕ) (d : Option BufferDecryptor)
      → Sound r.peer
      → is_some d ≡ true
      → IsFine (decrypt_received o r endpoint buffer d)
  unfolding decrypt_received
  decrypt_received-IsFine r endpoint buffer none s h = cc
  decrypt_received-IsFine r endpoint buffer (some d) s h =
      decrypted-Sound _ endpoint _ (ground arith)

  pub check_cipher-IsFine :
      (r : Received Message) (endpoint : Endpoint) (buffer : List ℕ)
      → Sound r.peer
      → IsFine (check_cipher o r endpoint buffer)
  unfolding check_cipher
  check_cipher-IsFine r endpoint buffer s =
      let plain = r.frame_header.cipher == encryption_none in
      if-intro (λ (x : Result Failure (Received Message)). IsFine x) r.peer.crypto_buf _ _
        (λ on.
          if-intro (λ (x : Result Failure (Received Message)). IsFine x) plain _ _ (λ _. s)
            (λ _.
              decrypt_received-IsFine r endpoint buffer r.peer.crypto_dec s (s.buf_decryptor on)))
        (λ off.
          if-intro (λ (x : Result Failure (Received Message)). IsFine x) plain _ _ (λ _. s)
            (λ _. s))

  pub received-IsFine :
      (v : FrameVersion) (p : Peer Message) (endpoint : Endpoint) (n : ℕ) (buffer : Option (List ℕ))
      → Sound p
      → is_some buffer ≡ true
      → IsFine (received o v p endpoint n buffer)
  unfolding received received_v1 received_v2
  received-IsFine pb_frame_v1 p endpoint n buffer s h = s
  received-IsFine pb_frame_v2 p endpoint n none s h = cc
  received-IsFine pb_frame_v2 p endpoint n (some buffer) s h =
      if-intro (λ (x : Result Failure (Received Message)). IsFine x) (ltb 0 p.listeners) _ _
        (λ heard. check_cipher-IsFine _ endpoint buffer s) (λ deaf. s)

  pub in_buffer-is_some : (p : Peer Message) → Sound p → is_some (in_buffer p) ≡ true
  in_buffer-is_some p s =
      if-intro (λ (b : Option (List ℕ)). is_some b ≡ true) p.crypto_buf _ _ s.buf_buffer
        (λ off. refl)

  pub pending_buffer-is_some : (p : Peer Message) → Sound p → is_some (pending_buffer p) ≡ true
  pending_buffer-is_some p s =
      if-intro (λ (b : Option (List ℕ)). is_some b ≡ true) p.recv_encrypted _ _ s.pending
        (λ off. refl)

  pub set_buffer-Sound :
      (p : Peer Message) (buffer : List ℕ) → Sound p → Sound (set_buffer p buffer)
  set_buffer-Sound p buffer s =
      if-intro (λ (q : Peer Message). Sound q) p.recv_encrypted _ _ (λ on. ground arith)
        (λ off. ground arith)

module _ {Descriptor Message Context : Type 0} (o : Openssl Context)
    (pb : Protobuf Descriptor Message) where
  pub deliver-ne-null :
      (r : Received Message) (endpoint : Endpoint) → deliver pb r endpoint ≢ err null_pointer
  unfolding deliver
  deliver-ne-null r endpoint h = ground arith

  abbrev pub IsFineAnd : Result Failure (Peer Message × List (Action Message)) → Type 0
  IsFineAnd (ok (p, out)) = Sound p
  IsFineAnd (err what) = what ≢ null_pointer

  pub received_then :
      (r : Result Failure (Received Message)) (endpoint : Endpoint)
      → IsFine o r
      → IsFineAnd (
          r >>= λ (x : Received Message).
          deliver pb x endpoint >>= λ out. ok (x.peer, x.out ++ out))
  received_then (err what) endpoint h = h
  received_then (ok r) endpoint h = elim (Result-cases (deliver pb r endpoint)) [
    | inl (out, e) ↦ rw e h
    | inr (what, e) ↦ rw e (λ z. deliver-ne-null r endpoint (e ∙ ap err z))
  ]

  pub look_at-IsFineAnd :
      (p : Peer Message) (endpoint : Endpoint) (r : Result (Unit {0}) (List ℕ))
      → Sound p
      → IsFineAnd (look_at o pb p endpoint r)
  unfolding look_at
  look_at-IsFineAnd p endpoint (err e) s = s
  look_at-IsFineAnd p endpoint (ok bytes) s =
      if-intro (λ (x : Result Failure (Peer Message × List (Action Message))). IsFineAnd x)
        (ltb (length bytes) (expected_min_size p.frame_header_version)) _ _ (λ short. s)
        (λ long. received_then _ endpoint (
          received-IsFine o p.frame_header_version p endpoint (length bytes) (in_buffer p) s
            (in_buffer-is_some o p s)))

  pub restarted :
      (p : Peer Message) (r : Result Failure (Peer Message × List (Action Message)))
      → Sound p
      → IsFineAnd r
      → SoundOutcome (
          handled p (
            r >>= λ (x : Peer Message × List (Action Message)).
            ok ((start_recv x.0).0, x.1 ++ (start_recv x.0).1)))
  restarted p (ok (p', out)) s h = record { state = start_recv-Sound p' h; not_null = λ z. cc }
  restarted p (err what) s h = record { state = s; not_null = λ z. h (ground arith) }

  pub handle_recv-Sound :
      (p : Peer Message) (endpoint : Endpoint) (r : Result (Unit {0}) (List ℕ))
      → Sound p
      → SoundOutcome (handled p (handle_recv o pb p endpoint r))
  unfolding handle_recv
  handle_recv-Sound p endpoint (err e) s = restarted p _ s (look_at-IsFineAnd p endpoint (err e) s)
  handle_recv-Sound p endpoint (ok bytes) s = elim (Option-cases (pending_buffer p)) [
    | inl missing ↦ let there = pending_buffer-is_some o p s in absurd (cc)
    | inr (buffer, found) ↦
        subst {A = Option (List ℕ)}
          (λ x. SoundOutcome (
            handled p (
              or_throw x null_pointer >>= λ (b : List ℕ).
              look_at o pb (set_buffer p (overwrite 0 bytes b)) endpoint (ok bytes)
              >>= λ (y : Peer Message × List (Action Message)).
                  ok ((start_recv y.0).0, y.1 ++ (start_recv y.0).1))))
          (sym found)
          (restarted p _ s (
            look_at-IsFineAnd _ endpoint (ok bytes)
              (set_buffer-Sound o p (overwrite 0 bytes buffer) s)))
  ]
