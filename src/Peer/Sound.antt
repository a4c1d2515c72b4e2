-- ===== src/Peer/Sound.antt =====
-- The states in which a peer of src/libs/protobuf_comm/peer.cpp has what it is about to use, and that
-- sending and setting up encryption keep to them.
use at_work_central_factory.Common.{
  ℕ, ◌≡◌, ◌≢◌, refl, String, Bool, true, false, not, ◌&&◌, Option, none, some, inl, inr, List, [],
  ◌∷◌, ◌++◌, length, replicate, is_some, if-intro, str_eq, if◌then◌else◌, Result, ok, err, arith,
  Result-cases,
}
use at_work_central_factory.Wire.{FrameHeader, QueueEntry, FrameVersion, pb_frame_v1, pb_frame_v2}
use at_work_central_factory.Server.{Endpoint}
use at_work_central_factory.Crypto.{
  Openssl, BufferEncryptor, CryptoError, new_encryptor, encrypt, encrypted_buffer_size,
}
use at_work_central_factory.Peer.{
  Peer, Packet, Failure, null_pointer, Action, Outcome, before, start_recv, setup_crypto,
  sig_send_error, resolving_failed, sending_failed, with_crypto, setup_crypto_v2, crypto_for,
  allocated, without_crypto,
}
use at_work_central_factory.Peer.Sending.{
  send_encrypted, send_encrypted_sized, send_first, start_send, push_send, handle_resolve,
  handle_sent, send_raw,
}
use at_work_central_factory.Peer.Events.{silent}

pub is_some-allocated : (b : Option (List ℕ)) → is_some (allocated b) ≡ true
is_some-allocated none = refl
is_some-allocated (some b) = refl

module _ {Message : Type 0} where
  -- Encryption comes with what it needs, in version 2 only; and while an encrypted datagram is
  -- awaited, there is a buffer for it and a decryptor.
  pub record Sound (p : Peer Message) : Type 0 where
    pub encryptor : p.crypto ≡ true → is_some p.crypto_enc ≡ true
    pub decryptor : p.crypto ≡ true → is_some p.crypto_dec ≡ true
    pub buffer : p.crypto ≡ true → is_some p.enc_in_data ≡ true
    pub version : p.crypto ≡ true → p.frame_header_version ≡ pb_frame_v2
    pub buf_decryptor : p.crypto_buf ≡ true → is_some p.crypto_dec ≡ true
    pub pending : p.recv_encrypted ≡ true → is_some p.enc_in_data ≡ true
    pub buf_buffer : p.crypto_buf ≡ true → is_some p.enc_in_data ≡ true

  -- A result in such a state, reached without a null pointer.
  pub record SoundOutcome (r : Outcome Message) : Type 0 where
    pub state : Sound r.0
    pub not_null : r.1 ≢ err null_pointer

  pub start_recv-Sound : (p : Peer Message) → Sound p → Sound (start_recv p).0
  unfolding start_recv
  start_recv-Sound p s = ground arith

module _ {Message Context : Type 0} (o : Openssl Context) where
  pub sized-Sound :
      (p : Peer Message) (e : BufferEncryptor) (packet : Packet) (size : ℕ)
      (r : BufferEncryptor × Result CryptoError (List ℕ))
      → Sound p
      → encrypt o e (packet.second ++ packet.third) (replicate size 0) ≡ r
      → SoundOutcome (send_encrypted_sized o p e packet (ok size))
  unfolding send_encrypted_sized
  sized-Sound p e packet size (e', ok out) s h =
      rw (h, send_encrypted_sized) (record { state = ground arith; not_null = λ z. cc })
  sized-Sound p e packet size (e', err what) s h =
      rw (h, send_encrypted_sized) (record { state = ground arith; not_null = λ z. cc })

  pub send_encrypted-Sound :
      (p : Peer Message) (e : Option BufferEncryptor) (packet : Packet)
      → Sound p
      → is_some e ≡ true
      → SoundOutcome (send_encrypted o p e packet)
  unfolding send_encrypted send_encrypted_sized
  send_encrypted-Sound p none packet s h = cc
  send_encrypted-Sound p (some e) packet s h =
      let plain = packet.second ++ packet.third in
      elim (Result-cases (encrypted_buffer_size o e (length plain))) [
        | inl (size, es) ↦ rw es (sized-Sound p e packet size _ s refl)
        | inr (what, es) ↦ rw es (record { state = s; not_null = λ z. cc })
      ]

  pub send_first-Sound :
      (p : Peer Message) (queue : List Packet) → Sound p → SoundOutcome (send_first o p queue)
  unfolding send_first
  send_first-Sound p [] s = record { state = s; not_null = λ z. cc }
  send_first-Sound p (packet ∷ rest) s =
      let p' = record p { outbound_active = true; outbound_queue = rest } in
      if-intro (λ (r : Outcome Message). SoundOutcome r) p.crypto _ _
        (λ on. send_encrypted-Sound p' p.crypto_enc packet (ground arith) (s.encryptor on))
        (λ off. record { state = ground arith; not_null = λ z. cc })

  pub start_send-Sound : (p : Peer Message) → Sound p → SoundOutcome (start_send o p)
  unfolding start_send
  start_send-Sound p s =
      if-intro (λ (r : Outcome Message). SoundOutcome r) p.outbound_active _ _
        (λ busy. record { state = s; not_null = λ z. cc })
        (λ free. send_first-Sound p p.outbound_queue s)

  pub before-Sound :
      (out : List (Action Message)) (r : Outcome Message)
      → SoundOutcome r
      → SoundOutcome (before out r)
  before-Sound out (p, ok out') s = record { state = s.state; not_null = λ z. cc }
  before-Sound out (p, err what) s = s

  pub push_send-Sound :
      (p : Peer Message) (packet : Packet) → Sound p → SoundOutcome (push_send o p packet)
  unfolding push_send
  push_send-Sound p packet s = start_send-Sound _ (ground arith)

  pub handle_resolve-Sound :
      (p : Peer Message) (r : Option Endpoint) → Sound p → SoundOutcome (handle_resolve o p r)
  unfolding handle_resolve
  handle_resolve-Sound p none s =
      before-Sound (sig_send_error resolving_failed ∷ []) (start_send o p) (start_send-Sound p s)
  handle_resolve-Sound p (some endpoint) s = start_send-Sound _ (ground arith)

  pub handle_sent-Sound :
      (p : Peer Message) (error : Bool) → Sound p → SoundOutcome (handle_sent o p error)
  unfolding handle_sent
  handle_sent-Sound p error s =
      let p' = record p { outbound_active = false } in
      before-Sound (if error then sig_send_error sending_failed ∷ [] else []) (start_send o p')
        (start_send-Sound p' (ground arith))

  -- A call without actions, in the same terms.
  pub record SoundCall (r : Peer Message × Result Failure (Unit {0})) : Type 0 where
    pub state : Sound r.0
    pub not_null : r.1 ≢ err null_pointer

  pub silent-Sound :
      (r : Peer Message × Result Failure (Unit {0})) → SoundCall r → SoundOutcome (silent r)
  silent-Sound (p, ok u) s = record { state = s.state; not_null = λ z. cc }
  silent-Sound (p, err what) s = record {
    state = s.state;
    not_null = λ z. s.not_null (ground arith);
  }

  pub without_crypto-Sound : (p : Peer Message) → Sound p → Sound (without_crypto p)
  without_crypto-Sound p s = record {
    pending = s.pending;
    encryptor = λ h. cc;
    decryptor = λ h. cc;
    buffer = λ h. cc;
    version = λ h. cc;
    buf_decryptor = λ h. cc;
    buf_buffer = λ h. cc;
  }

  with_crypto-Sound :
      (p : Peer Message) (key : String) (r : Result CryptoError BufferEncryptor)
      → p.frame_header_version ≡ pb_frame_v2
      → Sound p
      → SoundCall (with_crypto p key r)
  unfolding with_crypto
  with_crypto-Sound p key (ok e) v s = record {
    state = record {
      pending = λ h. is_some-allocated p.enc_in_data;
      encryptor = λ h. refl;
      decryptor = λ h. refl;
      buffer = λ h. is_some-allocated p.enc_in_data;
      version = λ h. v;
      buf_decryptor = λ h. refl;
      buf_buffer = λ h. is_some-allocated p.enc_in_data;
    };
    not_null = λ z. cc;
  }
  with_crypto-Sound p key (err what) v s = record {
    state = without_crypto-Sound p s;
    not_null = λ z. cc;
  }

  crypto_v2-Sound :
      (p : Peer Message) (key cipher : String) (random : Option ℕ)
      → p.frame_header_version ≡ pb_frame_v2
      → Sound p
      → SoundCall (setup_crypto_v2 o p key cipher random)
  unfolding setup_crypto_v2
  crypto_v2-Sound p key cipher random v s =
      if-intro (λ (r : Peer Message × Result Failure (Unit {0})). SoundCall r)
        (not (str_eq key "") && not (str_eq cipher "")) _ _
        (λ keys. with_crypto-Sound p key (new_encryptor o key cipher random) v s)
        (λ empty. record { state = without_crypto-Sound p s; not_null = λ z. cc })

  crypto_for-Sound :
      (v : FrameVersion) (p : Peer Message) (key cipher : String) (random : Option ℕ)
      → p.frame_header_version ≡ v
      → Sound p
      → SoundCall (crypto_for o v p key cipher random)
  unfolding crypto_for
  crypto_for-Sound pb_frame_v1 p key cipher random v s = record { state = s; not_null = λ z. cc }
  crypto_for-Sound pb_frame_v2 p key cipher random v s = crypto_v2-Sound p key cipher random v s

  pub setup_crypto-Sound :
      (p : Peer Message) (key cipher : String) (random : Option ℕ)
      → Sound p
      → SoundCall (setup_crypto o p key cipher random)
  unfolding setup_crypto
  setup_crypto-Sound p key cipher random s =
      crypto_for-Sound p.frame_header_version p key cipher random refl s

  pub send_raw-Sound :
      (fresh : QueueEntry) (p : Peer Message) (fh : FrameHeader) (bytes : List ℕ)
      → Sound p
      → SoundOutcome (send_raw o fresh p fh bytes)
  unfolding send_raw
  send_raw-Sound fresh p fh bytes s = push_send-Sound p _ s
