-- ===== src/Peer/Sealed.antt =====
-- What `send` of src/libs/protobuf_comm/peer.cpp makes of a message where encryption is on.
use at_work_central_factory.Common.{
  ℕ, ◌%◌, ◌^◌, ◌≤◌, ◌<◌, ◌≡◌, refl, ◌∙◌, ap, true, false, Option, some, inl, inr, List, [], ◌∷◌,
  ◌++◌, append-nil, length, replicate, ltb, ok, arith, Bool-cases, Result-cases,
}
use at_work_central_factory.Common.Bytes.{htonl}
use at_work_central_factory.Wire.{
  FrameHeader, MessageHeader, QueueEntry, pb_frame_v2, new_entry, frame_header_bytes,
  message_header_bytes,
}
use at_work_central_factory.Protobuf.{Protobuf}
use at_work_central_factory.Register.{serialize}
use at_work_central_factory.Server.{Endpoint}
use at_work_central_factory.Crypto.{
  Cipher, Openssl, BufferEncryptor, encrypt, next_iv, encrypted_buffer_size, cipher_by_id,
}
use at_work_central_factory.Peer.{
  Peer, Packet, packet_bytes, first_bytes, async_send_to, max_packet_length,
}
use at_work_central_factory.Peer.Sending.{
  send, fill_packet, push_send, start_send, send_first, send_serialized, send_encrypted,
  send_encrypted_sized, encrypted_packet,
}

module _ {Message : Type 0} where
  -- A peer that sends at once what it is given, encrypted.
  pub record SendsEncrypted (a : Peer Message) (e : BufferEncryptor) : Type 0 where
    pub encrypted : a.crypto ≡ true
    pub encryptor : a.crypto_enc ≡ some e
    pub idle : a.outbound_active ≡ false
    pub empty : a.outbound_queue ≡ []

module _ {Context : Type 0} (o : Openssl Context) where
  pub encrypt-cipher_id :
      (e : BufferEncryptor) (plain enc : List ℕ) → (encrypt o e plain enc).0.cipher_id ≡ e.cipher_id
  unfolding encrypt next_iv
  encrypt-cipher_id e plain enc = elim (Result-cases (cipher_by_id e.cipher_id)) [
    | inl (c, h) ↦ elim (Bool-cases (ltb 0 (o.iv_length c))) [
      | inl with_iv ↦ ground arith
      | inr without ↦ ground arith
    ]
    | inr (what, h) ↦ ground arith
  ]

  pub cipher_id_range : (id : ℕ) (c : Cipher) → cipher_by_id id ≡ ok c → (0 < id) × (id < 256)
  unfolding cipher_by_id
  cipher_id_range id c h = (ground arith, ground arith)

-- The frame header of an encrypted datagram.
abbrev pub sealed : FrameHeader → ℕ → List ℕ → FrameHeader
sealed fh id out = record fh { payload_size = htonl (length out % 2 ^ 32); cipher = id % 256 }

module _ {Descriptor Message Context : Type 0} (o : Openssl Context)
    (pb : Protobuf Descriptor Message) where
  -- What the datagram of an encrypted message was made of.
  pub record Sealed (fresh : QueueEntry) (e : BufferEncryptor) (c t : ℕ) (m : Message)
      (datagram : List ℕ) : Type 0 where
    pub frame_header : FrameHeader
    pub message_header : MessageHeader
    pub bytes : List ℕ
    pub buffer : List ℕ
    pub out : List ℕ
    pub written :
        serialize pb c t m (new_entry fresh).frame_header ≡ ok (frame_header, message_header, bytes)
    pub short : length bytes ≤ max_packet_length
    pub encrypted : (encrypt o e (message_header_bytes message_header ++ bytes) buffer).1 ≡ ok out
    pub made : datagram ≡ frame_header_bytes (sealed frame_header e.cipher_id out) ++ out

  pub send_encrypted_out :
      (p : Peer Message) (e : BufferEncryptor) (packet : Packet) (datagram : List ℕ)
      (dest : Option Endpoint)
      → packet.first ≡ pb_frame_v2
      → (send_encrypted o p (some e) packet).1 ≡ ok (async_send_to datagram dest ∷ [])
      → (buffer : List ℕ) × (out : List ℕ) × ((encrypt o e (packet.second ++ packet.third) buffer).1
          ≡ ok out)
        × (datagram
            ≡ frame_header_bytes (sealed packet.entry.frame_header e.cipher_id out) ++ (out ++ []))
  unfolding send_encrypted send_encrypted_sized encrypted_packet packet_bytes first_bytes
  send_encrypted_out p e packet datagram dest v h =
      let plain = packet.second ++ packet.third in
      elim (Result-cases (encrypted_buffer_size o e (length plain))) [
        | inl (size, es) ↦ elim (Result-cases (encrypt o e plain (replicate size 0)).1) [
          | inl (out, eo) ↦
              let id = encrypt-cipher_id o e plain (replicate size 0) in
              (replicate size 0, out, eo, ground arith)
          | inr (what, eo) ↦ absurd (ground arith)
        ]
        | inr (what, es) ↦ absurd (ground arith)
      ]

  pub push_send_encrypted :
      (a : Peer Message) (e : BufferEncryptor) (packet : Packet)
      → SendsEncrypted a e
      → (p : Peer Message) × ((push_send o a packet).1
          ≡ (send_encrypted {Message = Message} o p (some e) packet).1)
  unfolding push_send start_send send_first
  push_send_encrypted a e packet s = (
    record a { outbound_active = true; outbound_queue = [] },
    rw (s.empty, s.idle, s.encrypted, s.encryptor) refl,
  )

  pub send-Sealed :
      (fresh : QueueEntry) (a : Peer Message) (e : BufferEncryptor) (c t : ℕ) (m : Message)
      (datagram : List ℕ) (dest : Option Endpoint)
      → SendsEncrypted a e
      → a.frame_header_version ≡ pb_frame_v2
      → (send o pb fresh a c t m).1 ≡ ok (async_send_to datagram dest ∷ [])
      → Sealed fresh e c t m datagram
  unfolding send send_serialized fill_packet
  send-Sealed fresh a e c t m datagram dest s v h =
      elim (Result-cases (serialize pb c t m (new_entry fresh).frame_header)) [
        | inl ((fh, mh, bytes), w) ↦ elim (Bool-cases (ltb max_packet_length (length bytes))) [
          | inl long ↦ absurd (ground arith)
          | inr fits ↦
              let packet = fill_packet pb_frame_v2 (new_entry fresh) (fh, mh, bytes) in
              let (p, same) = push_send_encrypted a e packet s in
              let sent : (send_encrypted o p (some e) packet).1
                  ≡ ok (async_send_to datagram dest ∷ []) =
                ground (arith, same) in
              let (buffer, out, eo, made) = send_encrypted_out p e packet datagram dest refl sent in
              record {
                frame_header = fh;
                message_header = mh;
                bytes = bytes;
                buffer = buffer;
                out = out;
                written = w;
                short = ground arith;
                encrypted = eo;
                made =
                    made
                    ∙ ap (◌++◌ (frame_header_bytes (sealed fh e.cipher_id out))) (append-nil out);
              }
        ]
        | inr (bad, w) ↦ absurd (ground arith)
      ]
