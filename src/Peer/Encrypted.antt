-- ===== src/Peer/Encrypted.antt =====
-- Encrypted messages from the `send` of one peer to the received signal of another, over
-- src/libs/protobuf_comm/peer.cpp and crypto.cpp.
use at_work_central_factory.Common.{
  ℕ, ◌+◌, ◌-◌, ◌%◌, ◌^◌, ◌≤◌, ◌<◌, ◌≡◌, refl, ◌∙◌, ap, false, Option, some, List, [], ◌∷◌, ◌++◌,
  append_assoc, length, take, drop, ◌==◌, ok, arith, length-append,
}
use at_work_central_factory.Common.Bytes.{htons, htonl, ntohl-htonl, htonl-lt}
use at_work_central_factory.Wire.{
  MessageHeader, QueueEntry, pb_frame_v2, encryption_none, frame_header_size, message_header_size,
  read_frame_header, new_entry, message_header_bytes,
}
use at_work_central_factory.Wire.Layout.{length-payload}
use at_work_central_factory.Protobuf.{Protobuf, ProtobufLaws}
use at_work_central_factory.Register.Codec.{serialize_fields}
use at_work_central_factory.Server.{Endpoint}
use at_work_central_factory.Crypto.{
  Cipher, Openssl, OpensslLaws, BufferEncryptor, BufferDecryptor, decrypt, cipher_by_id,
}
use at_work_central_factory.Crypto.Inverse.{
  KeysMatch, decrypt-encrypt, encrypt-eq-ok, length-encrypt,
}
use at_work_central_factory.Peer.{Peer, async_send_to, sig_rcvd_raw, max_packet_length, start_recv}
use at_work_central_factory.Peer.Sending.{send}
use at_work_central_factory.Peer.Receiving.{
  Received, overwrite, received, handle_recv, expected_min_size, in_buffer,
}
use at_work_central_factory.Peer.Delivery.{Listens, deliver_lem, look_at_lem}
use at_work_central_factory.Peer.Transfer.{heard_as}
use at_work_central_factory.Peer.Sealed.{SendsEncrypted, cipher_id_range, sealed, send-Sealed}
use at_work_central_factory.Peer.Opening.{
  drop-overwrite, copied_length, ExpectsEncrypted, in_buffer_encrypted, opened, received_encrypted,
  SealedFront, sealed_front, handle_recv_encrypted,
}

module _ {Descriptor Message Context : Type 0} (o : Openssl Context)
    (pb : Protobuf Descriptor Message) (laws : ProtobufLaws pb) (openssl : OpensslLaws o) where
  -- The state in which an encrypted message leaves a peer: the plain text stands behind the header
  -- in `in_data_`.
  pub record Heard (b b' : Peer Message) (endpoint : Endpoint) (datagram : List ℕ) (c t : ℕ)
      (m : Message) : Type 0 where
    pub signals :
        handle_recv o pb b endpoint (ok datagram)
        ≡ ok (b', heard_as o pb laws endpoint datagram c t m)
    pub bytes : List ℕ
    pub rest : List ℕ
    pub serialized : pb.serialize_to_string m ≡ some bytes
    pub left :
        drop frame_header_size b'.in_data
        ≡ message_header_bytes (record { component_id = htons c; msg_type = htons t })
          ++ (bytes ++ rest)
    pub same :
        (b'.frame_header_version ≡ b.frame_header_version)
        × (b'.crypto_buf ≡ b.crypto)
        × (b'.recv_encrypted ≡ b.crypto)
        × (b'.listeners ≡ b.listeners)
        × (b'.filter_self ≡ b.filter_self)
        × (b'.local_endpoints ≡ b.local_endpoints)
        × (b'.message_register ≡ b.message_register)
    pub buffer : List ℕ
    pub allocated : b'.enc_in_data ≡ some buffer

  some_cipher : (id : ℕ) → 0 < id → id < 256 → ((id % 256) == encryption_none) ≡ false
  some_cipher id pos small = ground arith

  pub hears :
      (fresh : QueueEntry) (a b : Peer Message) (e : BufferEncryptor) (d : BufferDecryptor)
      (endpoint : Endpoint) (c t : ℕ) (m : Message) (datagram : List ℕ) (dest : Option Endpoint)
      → SendsEncrypted a e
      → a.frame_header_version ≡ pb_frame_v2
      → (send o pb fresh a c t m).1 ≡ ok (async_send_to datagram dest ∷ [])
      → length datagram ≤ max_packet_length
      → ExpectsEncrypted b d
      → KeysMatch o openssl d
      → ((x : Cipher) → cipher_by_id e.cipher_id ≡ ok x → o.bytes_to_key x d.key ≡ some e.key)
      → Listens pb b endpoint c t m
      → (b' : Peer Message) × Heard b b' endpoint datagram c t m
  unfolding start_recv expected_min_size
  hears fresh a b e d endpoint c t m datagram dest s va h fits ex keys key l =
      let k = send-Sealed o pb fresh a e c t m datagram dest s va h in
      let plain = message_header_bytes k.message_header ++ k.bytes in
      let (sz, size, em) =
        serialize_fields pb laws c t m (new_entry fresh).frame_header k.frame_header
          k.message_header k.bytes k.written in
      let (x, iv, hx, hl, w) = encrypt-eq-ok o openssl e plain k.buffer k.out k.encrypted in
      let (id_pos, id_small) = cipher_id_range o e.cipher_id x hx in
      let len : length plain ≡ message_header_size + length k.bytes =
        length-payload k.message_header k.bytes in
      let short : length plain < 2 ^ 31 = omega (arith, k.short) in
      let longer = length-encrypt o openssl e plain k.buffer k.out k.encrypted short in
      let fh = sealed k.frame_header e.cipher_id k.out in
      let rest = drop (0 + length datagram) ex.buffer in
      let f : SealedFront fh datagram k.out rest =
        sealed_front o pb laws openssl fh datagram k.out rest (htonl-lt _) k.made in
      let n : length datagram - frame_header_size ≡ length k.out = omega (arith, f.size) in
      let id : fh.cipher ≡ e.cipher_id = omega arith in
      let small : length k.out < 2 ^ 31 = omega (arith, f.size) in
      let clear : (decrypt o d (read_frame_header (datagram ++ rest)).cipher
            (drop frame_header_size (datagram ++ rest)) (length datagram - frame_header_size)).1
          ≡ ok plain =
        rw (f.fields, id, f.behind, n)
          (decrypt-encrypt o openssl e d plain k.buffer k.out rest keys key k.encrypted short
            small) in
      let not_plain : ((read_frame_header (datagram ++ rest)).cipher == encryption_none) ≡ false =
        rw f.fields (some_cipher e.cipher_id id_pos id_small) in
      let buffer = datagram ++ rest in
      let b1 = record b { enc_in_data = some buffer } in
      let d' =
        (decrypt o d (read_frame_header buffer).cipher (drop frame_header_size buffer)
          (length datagram - frame_header_size)).0 in
      let copied = overwrite 0 (take frame_header_size buffer) b.in_data in
      let p1 = opened b1 buffer plain d' in
      let more = drop (frame_header_size + length plain) copied in
      let left : drop frame_header_size p1.in_data
          ≡ message_header_bytes (record { component_id = htons c; msg_type = htons t })
            ++ (k.bytes ++ more) =
        drop-overwrite frame_header_size plain copied
          (copied_length buffer b.in_data (omega (arith, f.size, length-append datagram rest)))
        ∙ append_assoc (message_header_bytes k.message_header) k.bytes more
        ∙ ap (λ (g : MessageHeader). message_header_bytes g ++ (k.bytes ++ more)) em in
      let got : Received Message = record {
        peer = p1;
        out =
            sig_rcvd_raw endpoint (read_frame_header buffer)
              (take (length datagram - frame_header_size) (drop frame_header_size buffer))
            ∷ [];
        frame_header = record (read_frame_header buffer) {
          payload_size = htonl (length plain % 2 ^ 32);
        };
        bytes_rcvd = length plain + frame_header_size;
      } in
      let taken : received o b1.frame_header_version b1 endpoint (length datagram) (in_buffer b1)
          ≡ ok got =
        ap (received o b1.frame_header_version b1 endpoint (length datagram))
          (in_buffer_encrypted b1 ex.awaits)
        ∙ received_encrypted o pb b1 endpoint (length datagram) buffer plain d ex.version ex.awaits
            ex.decryptor refl l.heard not_plain clear in
      let signal =
        deliver_lem pb laws got endpoint c t m k.bytes more
          (record {
            component_fits = l.component_fits;
            type_fits = l.type_fits;
            heard = l.heard;
            accepts = l.accepts;
            known = l.known;
          })
          ex.version sz (omega (arith, k.short)) (omega arith)
          (ntohl-htonl (length plain % 2 ^ 32) (omega arith) ∙ omega arith) left in
      (
        (start_recv p1).0,
        record {
          signals =
              handle_recv_encrypted o pb laws openssl b endpoint datagram ex.buffer p1 _ ex.into
                ex.allocated
                (look_at_lem o pb b1 endpoint datagram got _ (rw ex.version (omega (arith, f.size)))
                  taken signal)
              ∙ rw (f.fields, f.raw, f.alone, f.payload) refl;
          bytes = k.bytes;
          rest = more;
          serialized = sz;
          left = left;
          same = (refl, refl, refl, refl, refl, refl, refl);
          buffer = buffer;
          allocated = refl;
        },
      )

  -- A datagram that one peer sends encrypted is signalled by another as the same message under the
  -- same component and type, and, before that, with its header and cipher text as they are: if it
  -- fits the other's buffer, and the other awaits an encrypted datagram and has the key, has a
  -- listener, has the type registered under these numbers, which fit 16 bits, and does not filter
  -- the sender as itself. OpenSSL is taken to decrypt what it has encrypted.
  pub handle_recv-send_encrypted :
      (fresh : QueueEntry) (a b : Peer Message) (e : BufferEncryptor) (d : BufferDecryptor)
      (endpoint : Endpoint) (c t : ℕ) (m : Message) (datagram : List ℕ) (dest : Option Endpoint)
      → SendsEncrypted a e
      → a.frame_header_version ≡ pb_frame_v2
      → (send o pb fresh a c t m).1 ≡ ok (async_send_to datagram dest ∷ [])
      → length datagram ≤ max_packet_length
      → ExpectsEncrypted b d
      → KeysMatch o openssl d
      → ((x : Cipher) → cipher_by_id e.cipher_id ≡ ok x → o.bytes_to_key x d.key ≡ some e.key)
      → Listens pb b endpoint c t m
      → (b' : Peer Message) × (handle_recv o pb b endpoint (ok datagram)
          ≡ ok (b', heard_as o pb laws endpoint datagram c t m))
  handle_recv-send_encrypted fresh a b e d endpoint c t m datagram dest s va h fits ex keys key l =
      let (b', q) = hears fresh a b e d endpoint c t m datagram dest s va h fits ex keys key l in
      (b', q.signals)
