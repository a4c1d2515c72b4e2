-- ===== src/Peer/Refused.antt =====
-- Datagrams that src/libs/protobuf_comm/peer.cpp sends and does not take, or takes for another.
use at_work_central_factory.Common.{
  some, ℕ, length-take, take-append, ◌+◌, ◌-◌, ◌%◌, ◌^◌, ◌≤◌, ◌<◌, ◌≡◌, refl, sym, ◌∙◌, ap, subst,
  true, false, Option, List, [], ◌∷◌, ◌++◌, append_assoc, length, take, drop, ltb, ◌==◌, ok, arith,
  length-append,
}
use at_work_central_factory.Common.Bytes.{htonl, ntohl, ntohl-htonl, htonl-lt, htons-lt}
use at_work_central_factory.Wire.{
  FrameHeader, FrameHeaderV1, QueueEntry, pb_frame_v1, pb_frame_v2, frame_header_size,
  message_header_size, read_frame_header, read_frame_header_v1, new_entry, frame_header_bytes,
  frame_header_v1_bytes, message_header_bytes,
}
use at_work_central_factory.Wire.Layout.{read_frame_header_v1_bytes}
use at_work_central_factory.Protobuf.{Protobuf, ProtobufLaws}
use at_work_central_factory.Register.Codec.{serialize_fields}
use at_work_central_factory.Server.{Endpoint}
use at_work_central_factory.Crypto.{Openssl}
use at_work_central_factory.Peer.{
  Peer, packet_bytes, first_bytes, async_send_to, async_receive_from, sig_rcvd_raw, sig_recv_error,
  invalid_number_of_bytes, max_packet_length, start_recv,
}
use at_work_central_factory.Peer.Sending.{send, fill_packet}
use at_work_central_factory.Peer.Receiving.{
  Received, received, received_v1, deliver, handle_recv, expected_min_size, in_buffer,
}
use at_work_central_factory.Peer.Delivery.{
  SendsPlain, send-Datagram, look_at_lem, handle_recv_lem, received_plain, serialize-cipher,
}
use at_work_central_factory.Peer.Transfer.{Layout, layout}
use at_work_central_factory.Peer.Short.{send_short, length-send}

read_cut :
    (xs rest : List ℕ)
    → max_packet_length < length xs
    → read_frame_header (take max_packet_length xs ++ rest) ≡ read_frame_header xs
unfolding read_frame_header
read_cut (x0 ∷ x1 ∷ x2 ∷ x3 ∷ x4 ∷ x5 ∷ x6 ∷ x7 ∷ xs) rest h = refl
read_cut xs rest h = absurd (omega arith)

pub payload_front :
    (xs rest : List ℕ)
    → frame_header_size ≤ length xs
    → take (length xs - frame_header_size) (drop frame_header_size (xs ++ rest))
      ≡ drop frame_header_size xs
payload_front (x0 ∷ x1 ∷ x2 ∷ x3 ∷ x4 ∷ x5 ∷ x6 ∷ x7 ∷ xs) rest h =
    let n : length (x0 ∷ x1 ∷ x2 ∷ x3 ∷ x4 ∷ x5 ∷ x6 ∷ x7 ∷ xs) - frame_header_size ≡ length xs =
      omega arith in
    rw n (take-append xs rest)
payload_front xs rest h = absurd (omega arith)

unequal :
    (n : ℕ)
    → max_packet_length < frame_header_size + (message_header_size + n)
    → (max_packet_length == frame_header_size + (message_header_size + n)) ≡ false
unequal n h = ground arith

module _ {Descriptor Message Context : Type 0} (o : Openssl Context)
    (pb : Protobuf Descriptor Message) where
  -- A number of bytes that is not the one that the header announces is reported.
  deliver_refused :
      (r : Received Message) (endpoint : Endpoint)
      → 0 < r.peer.listeners
      → (r.bytes_rcvd == frame_header_size + ntohl r.frame_header.payload_size) ≡ false
      → deliver pb r endpoint ≡ ok (sig_recv_error endpoint invalid_number_of_bytes ∷ [])
  unfolding deliver
  deliver_refused r endpoint heard wrong =
      let h : ltb 0 r.peer.listeners ≡ true = ground arith in rw (h, wrong) refl

  read_v1_front :
      (h : FrameHeaderV1) (rest : List ℕ)
      → read_frame_header_v1 (frame_header_v1_bytes h ++ rest)
        ≡ read_frame_header_v1 (frame_header_v1_bytes h)
  unfolding read_frame_header_v1 frame_header_v1_bytes
  read_v1_front h rest = refl

  length_v1_front : (h : FrameHeaderV1) → length (frame_header_v1_bytes h) ≡ frame_header_size
  unfolding frame_header_v1_bytes
  length_v1_front h = refl

  received_v1_lem :
      (p : Peer Message) (endpoint : Endpoint) (n : ℕ)
      → p.frame_header_version ≡ pb_frame_v1
      → received o p.frame_header_version p endpoint n (in_buffer p) ≡ ok (received_v1 o p n)
  unfolding received
  received_v1_lem p endpoint n v = rw v refl

  v1_mismatch :
      (n total : ℕ)
      → n < 2 ^ 31
      → total ≡ frame_header_size + n
      → (total == frame_header_size + ntohl (htonl ((message_header_size + n) % 2 ^ 32))) ≡ false
  v1_mismatch n total h e =
      rw (e, ntohl-htonl ((message_header_size + n) % 2 ^ 32) (omega arith)) (ground arith)

module _ {Descriptor Message Context : Type 0} (o : Openssl Context)
    (pb : Protobuf Descriptor Message) (laws : ProtobufLaws pb) where
  -- Peers of version 1 never understand one another: whatever one sends is refused by the other,
  -- since the size in its header counts a message header that version 1 does not have.
  pub handle_recv_v1_refused :
      (fresh : QueueEntry) (a b : Peer Message) (endpoint : Endpoint) (c t : ℕ) (m : Message)
      (datagram : List ℕ) (dest : Option Endpoint)
      → SendsPlain a
      → a.frame_header_version ≡ pb_frame_v1
      → (send o pb fresh a c t m).1 ≡ ok (async_send_to datagram dest ∷ [])
      → b.frame_header_version ≡ pb_frame_v1
      → b.crypto_buf ≡ false
      → b.recv_encrypted ≡ false
      → 0 < b.listeners
      → (b' : Peer Message) × (handle_recv o pb b endpoint (ok datagram)
          ≡ ok (
            b',
            sig_recv_error endpoint invalid_number_of_bytes
                ∷ async_receive_from max_packet_length
                ∷ [],
          ))
  unfolding fill_packet packet_bytes first_bytes expected_min_size received_v1
  handle_recv_v1_refused fresh a b endpoint c t m datagram dest s va h vb off into heard =
      let d = send-Datagram o pb fresh a c t m datagram dest s h in
      let (_, size, em) =
        serialize_fields pb laws c t m (new_entry fresh).frame_header d.frame_header
          d.message_header d.bytes d.written in
      let v1 : FrameHeaderV1 = record {
        component_id = d.message_header.component_id;
        msg_type = d.message_header.msg_type;
        payload_size = d.frame_header.payload_size;
      } in
      let made : datagram ≡ frame_header_v1_bytes v1 ++ d.bytes = rw (d.filled, va) refl in
      let back : read_frame_header_v1 (frame_header_v1_bytes v1) ≡ v1 =
        read_frame_header_v1_bytes v1 (rw em (htons-lt c)) (rw em (htons-lt t))
          (rw size (htonl-lt _)) in
      let total : length datagram ≡ frame_header_size + length d.bytes =
        rw made
          (length-append (frame_header_v1_bytes v1) d.bytes ∙ rw (length_v1_front o pb v1) refl) in
      let rest = drop (0 + length datagram) b.in_data in
      let b1 = record b { in_data = datagram ++ rest } in
      let front : (read_frame_header_v1 (datagram ++ rest)).payload_size
          ≡ htonl ((message_header_size + length d.bytes) % 2 ^ 32) =
        ap (λ (g : List ℕ). (read_frame_header_v1 (g ++ rest)).payload_size) made
        ∙ ap (λ (g : List ℕ). (read_frame_header_v1 g).payload_size)
            (append_assoc (frame_header_v1_bytes v1) d.bytes rest)
        ∙ ap (λ (g : FrameHeaderV1). g.payload_size)
            (read_v1_front o pb v1 (d.bytes ++ rest) ∙ back)
        ∙ size in
      let out = deliver_refused o pb (received_v1 o b1 (length datagram)) endpoint heard (
        rw front
          (v1_mismatch o pb (length d.bytes) (length datagram) (omega (arith, d.short)) total)) in
      (
        (start_recv b1).0,
        handle_recv_lem o pb b endpoint datagram b1 _ into (
            look_at_lem o pb b1 endpoint datagram (received_v1 o b1 (length datagram)) _
              (rw (vb, total) (omega arith)) (received_v1_lem o pb b1 endpoint (length datagram) vb)
              out),
      )

  -- What a receive buffer takes of a datagram that is longer is refused.
  cut_refused :
      (fresh : QueueEntry) (a b : Peer Message) (endpoint : Endpoint) (c t : ℕ) (m : Message)
      (datagram : List ℕ) (dest : Option Endpoint)
      → SendsPlain a
      → a.frame_header_version ≡ pb_frame_v2
      → (send o pb fresh a c t m).1 ≡ ok (async_send_to datagram dest ∷ [])
      → max_packet_length < length datagram
      → b.frame_header_version ≡ pb_frame_v2
      → b.crypto_buf ≡ false
      → b.recv_encrypted ≡ false
      → 0 < b.listeners
      → let cut = take max_packet_length datagram in
        (b' : Peer Message) × (handle_recv o pb b endpoint (ok cut)
          ≡ ok (
            b',
            sig_rcvd_raw endpoint (read_frame_header datagram) (drop frame_header_size cut)
                ∷ sig_recv_error endpoint invalid_number_of_bytes
                ∷ async_receive_from max_packet_length
                ∷ [],
          ))
  unfolding fill_packet packet_bytes first_bytes expected_min_size new_entry
  cut_refused fresh a b endpoint c t m datagram dest s va h long vb off into heard =
      let d = send-Datagram o pb fresh a c t m datagram dest s h in
      let fh = d.frame_header in
      let mh = d.message_header in
      let empty = (new_entry fresh).frame_header in
      let (sz, size, em) = serialize_fields pb laws c t m empty fh mh d.bytes d.written in
      let plain = serialize-cipher o pb c t m empty fh mh d.bytes d.written in
      let made : datagram ≡ frame_header_bytes fh ++ (message_header_bytes mh ++ d.bytes) =
        rw (d.filled, va) refl in
      let small : length d.bytes < 2 ^ 31 = omega (arith, d.short) in
      let y : Layout o pb laws datagram [] c t d.bytes =
        subst {A = List ℕ} (λ g. Layout o pb laws g [] c t d.bytes) (sym made)
          (layout o pb laws fh mh d.bytes [] c t plain size em small) in
      let cut = take max_packet_length datagram in
      let n : length cut ≡ max_packet_length =
        length-take max_packet_length datagram (omega arith) in
      let rest = drop (0 + length cut) b.in_data in
      let b1 = record b { in_data = cut ++ rest } in
      let same : read_frame_header (cut ++ rest) ≡ read_frame_header datagram =
        read_cut datagram rest (omega arith) in
      let behind : take (length cut - frame_header_size) (drop frame_header_size (cut ++ rest))
          ≡ drop frame_header_size cut =
        payload_front cut rest (omega arith) in
      let known : read_frame_header datagram ≡ y.header = y.alone in
      let r =
        received_plain o pb b1 endpoint (length cut) vb off
          (ap (λ (h : FrameHeader). h.cipher) (same ∙ known) ∙ y.plain) in
      let got : Received Message = record {
        peer = b1;
        out =
            sig_rcvd_raw endpoint (read_frame_header (cut ++ rest))
              (take (length cut - frame_header_size) (drop frame_header_size (cut ++ rest)))
            ∷ [];
        frame_header = read_frame_header (cut ++ rest);
        bytes_rcvd = length cut;
      } in
      let wrong : (length cut
            == frame_header_size + ntohl (read_frame_header (cut ++ rest)).payload_size)
          ≡ false =
        rw (same, known, n, y.size) (unequal (length d.bytes) (omega (arith, y.total))) in
      (
        (start_recv b1).0,
        handle_recv_lem o pb b endpoint cut b1 _ into (
              look_at_lem o pb b1 endpoint cut got _ (rw (vb, n) (omega arith)) r
                (deliver_refused o pb got endpoint heard wrong))
            ∙ rw (same, behind) refl,
      )

  -- A message whose text has from 1013 to 1024 bytes is sent in version 2 and plain text, in a
  -- datagram that is longer than a receive buffer, and what the buffer of a peer that awaits plain
  -- text takes of it is refused there: the size check of `send` leaves out the two headers.
  pub handle_recv_cut_refused :
      (fresh : QueueEntry) (a b : Peer Message) (endpoint : Endpoint) (c t : ℕ) (m : Message)
      (bytes : List ℕ)
      → SendsPlain a
      → a.frame_header_version ≡ pb_frame_v2
      → pb.serialize_to_string m ≡ some bytes
      → 1013 ≤ length bytes
      → length bytes ≤ 1024
      → b.frame_header_version ≡ pb_frame_v2
      → b.crypto_buf ≡ false
      → b.recv_encrypted ≡ false
      → 0 < b.listeners
      → (datagram : List ℕ) × ((send o pb fresh a c t m).1
          ≡ ok (async_send_to datagram a.outbound_endpoint ∷ []))
        × (max_packet_length < length datagram)
        × (b' : Peer Message) × (handle_recv o pb b endpoint (ok (take max_packet_length datagram))
            ≡ ok (
              b',
              sig_rcvd_raw endpoint
                    (read_frame_header datagram)
                    (drop frame_header_size (take max_packet_length datagram))
                  ∷ sig_recv_error endpoint invalid_number_of_bytes
                  ∷ async_receive_from max_packet_length
                  ∷ [],
            ))
  handle_recv_cut_refused fresh a b endpoint c t m bytes s va text long short vb off into heard =
      let (datagram, sent) = send_short o pb laws fresh a c t m bytes s text short in
      let n =
        length-send o pb laws fresh a c t m bytes datagram a.outbound_endpoint s va text sent in
      let over : max_packet_length < length datagram = omega arith in
      let (b', refused) =
        cut_refused fresh a b endpoint c t m datagram a.outbound_endpoint s va sent over vb off into
          heard in
      (datagram, sent, over, b', refused)
