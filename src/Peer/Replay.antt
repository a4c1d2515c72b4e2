-- ===== src/Peer/Replay.antt =====
-- Plain text at a peer of src/libs/protobuf_comm/peer.cpp that expects encryption.
use at_work_central_factory.Common.{
  ℕ, ◌+◌, ◌-◌, ◌^◌, ◌<◌, ◌≡◌, refl, ◌∙◌, ap, true, some, List, [], ◌∷◌, ◌++◌, length, take, drop,
  ltb, ok, arith,
}
use at_work_central_factory.Common.Bytes.{ntohl}
use at_work_central_factory.Wire.{
  FrameHeader, pb_frame_v2, encryption_none, frame_header_size, message_header_size,
  read_frame_header,
}
use at_work_central_factory.Protobuf.{Protobuf, ProtobufLaws}
use at_work_central_factory.Server.{Endpoint}
use at_work_central_factory.Crypto.{Openssl, OpensslLaws}
use at_work_central_factory.Peer.{
  Peer, async_receive_from, sig_rcvd_raw, sig_rcvd, sig_recv_error, encryption_enabled,
  max_packet_length, start_recv,
}
use at_work_central_factory.Peer.Receiving.{
  Received, received, received_v2, check_cipher, handle_recv, expected_min_size, in_buffer,
}
use at_work_central_factory.Peer.Delivery.{Listens, deliver_lem, look_at_lem}
use at_work_central_factory.Peer.Refused.{payload_front}
use at_work_central_factory.Peer.Opening.{read_whole, in_buffer_encrypted, handle_recv_encrypted}
use at_work_central_factory.Peer.Encrypted.{Heard}

module _ {Descriptor Message Context : Type 0} (o : Openssl Context)
    (pb : Protobuf Descriptor Message) (laws : ProtobufLaws pb) (openssl : OpensslLaws o) where
  received_unencrypted :
      (p : Peer Message) (endpoint : Endpoint) (n : ℕ) (buffer : List ℕ)
      → p.frame_header_version ≡ pb_frame_v2
      → p.crypto_buf ≡ true
      → 0 < p.listeners
      → (read_frame_header buffer).cipher ≡ encryption_none
      → received o p.frame_header_version p endpoint n (some buffer)
        ≡ ok (record {
          peer = p;
          out =
              sig_rcvd_raw endpoint
                (read_frame_header buffer)
                (take (n - frame_header_size) (drop frame_header_size buffer))
              ∷ sig_recv_error endpoint encryption_enabled
              ∷ [];
          frame_header = read_frame_header buffer;
          bytes_rcvd = n;
        })
  unfolding received received_v2 check_cipher
  received_unencrypted p endpoint n buffer ver on heard plain =
      let h : ltb 0 p.listeners ≡ true = ground arith in simp (ver, on, h, plain)

  -- A peer with encryption that has heard an encrypted message takes any plain text of that size,
  -- from anyone, for this message: it reports that plain text was received, and then signals the
  -- earlier message again as one that came from the sender of the plain text.
  pub plain_replays :
      (b b' : Peer Message) (endpoint other : Endpoint) (datagram intruder : List ℕ) (c t : ℕ)
      (m : Message) (q : Heard o pb laws openssl b b' endpoint datagram c t m)
      → b.frame_header_version ≡ pb_frame_v2
      → b.crypto ≡ true
      → Listens pb b other c t m
      → length q.bytes < 2 ^ 31
      → (read_frame_header intruder).cipher ≡ encryption_none
      → ntohl (read_frame_header intruder).payload_size ≡ message_header_size + length q.bytes
      → length intruder ≡ frame_header_size + (message_header_size + length q.bytes)
      → (b'' : Peer Message) × (handle_recv o pb b' other (ok intruder)
          ≡ ok (
            b'',
            sig_rcvd_raw other (read_frame_header intruder) (drop frame_header_size intruder)
                ∷ sig_recv_error other encryption_enabled
                ∷ sig_rcvd other c t m
                ∷ async_receive_from max_packet_length
                ∷ [],
          ))
  unfolding expected_min_size
  plain_replays b b' endpoint other datagram intruder c t m q vb cb l small plain size n =
      let (ver, on, into, listeners, filter, local, register) = q.same in
      let rest = drop (0 + length intruder) q.buffer in
      let buffer = intruder ++ rest in
      let b1 = record b' { enc_in_data = some buffer } in
      let front : read_frame_header buffer ≡ read_frame_header intruder =
        read_whole intruder rest (omega arith) in
      let got : Received Message = record {
        peer = b1;
        out =
            sig_rcvd_raw other (read_frame_header buffer)
              (take (length intruder - frame_header_size) (drop frame_header_size buffer))
            ∷ sig_recv_error other encryption_enabled
            ∷ [];
        frame_header = read_frame_header buffer;
        bytes_rcvd = length intruder;
      } in
      let taken : received o b1.frame_header_version b1 other (length intruder) (in_buffer b1)
          ≡ ok got =
        ap (received o b1.frame_header_version b1 other (length intruder))
          (in_buffer_encrypted b1 (on ∙ cb))
        ∙ received_unencrypted b1 other (length intruder) buffer (ver ∙ vb) (on ∙ cb)
            (rw listeners l.heard) (ap (λ (h : FrameHeader). h.cipher) front ∙ plain) in
      let signal =
        deliver_lem pb laws got other c t m q.bytes q.rest
          (record {
            component_fits = l.component_fits;
            type_fits = l.type_fits;
            heard = rw listeners l.heard;
            accepts = rw (filter, local) l.accepts;
            known = rw register l.known;
          })
          (ver ∙ vb) q.serialized small n
          (ap (λ (h : FrameHeader). ntohl h.payload_size) front ∙ size) q.left in
      (
        (start_recv b1).0,
        handle_recv_encrypted o pb laws openssl b' other intruder q.buffer b1 _ (into ∙ cb)
              q.allocated
              (look_at_lem o pb b1 other intruder got _ (rw (ver, vb, n) (omega arith)) taken
                signal)
            ∙ rw (front, payload_front intruder rest (omega arith)) refl,
      )
