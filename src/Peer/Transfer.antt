-- ===== src/Peer/Transfer.antt =====
-- A message from the `send` of one peer to the received signal of another, in plain text, over
-- src/libs/protobuf_comm/peer.cpp.
use at_work_central_factory.Common.{
  ℕ, ◌+◌, ◌-◌, ◌%◌, ◌^◌, ◌≤◌, ◌<◌, ◌≡◌, refl, sym, ◌∙◌, ap, subst, false, Option, List, [], ◌∷◌,
  ◌++◌, append_assoc, length, take, drop, ok, arith, take-append, length-append,
}
use at_work_central_factory.Common.Bytes.{htons, htonl, ntohl, htonl-lt}
use at_work_central_factory.Wire.{
  FrameHeader, MessageHeader, QueueEntry, pb_frame_v2, encryption_none, frame_header_size,
  message_header_size, read_frame_header, new_entry, frame_header_bytes, message_header_bytes,
}
use at_work_central_factory.Wire.Layout.{read_frame_header_bytes, announced_size, length-payload}
use at_work_central_factory.Protobuf.{Protobuf, ProtobufLaws}
use at_work_central_factory.Register.{key_type_key}
use at_work_central_factory.Register.Codec.{serialize_fields}
use at_work_central_factory.Server.{Endpoint}
use at_work_central_factory.Crypto.{Openssl}
use at_work_central_factory.Peer.{
  Peer, packet_bytes, first_bytes, Action, async_send_to, async_receive_from, sig_rcvd_raw,
  sig_rcvd, max_packet_length, start_recv,
}
use at_work_central_factory.Peer.Sending.{send, fill_packet}
use at_work_central_factory.Peer.Receiving.{Received, handle_recv, expected_min_size}
use at_work_central_factory.Peer.Delivery.{
  Listens, SendsPlain, deliver_lem, serialize-cipher, send-Datagram, received_plain, look_at_lem,
  handle_recv_lem,
}

module _ {Descriptor Message Context : Type 0} (o : Openssl Context)
    (pb : Protobuf Descriptor Message) (laws : ProtobufLaws pb) where
  -- What a message is signalled as, and that the next datagram is awaited.
  abbrev pub heard_as :
      Endpoint → (datagram : List ℕ) (c t : ℕ) (m : Message) → List (Action Message)
  heard_as endpoint datagram c t m =
      sig_rcvd_raw endpoint (read_frame_header datagram) (drop frame_header_size datagram)
      ∷ sig_rcvd endpoint c t m
      ∷ async_receive_from max_packet_length
      ∷ []

  -- The bytes of a version 2 datagram, in a buffer that holds `rest` behind them.
  pub record Layout (datagram rest : List ℕ) (c t : ℕ) (bytes : List ℕ) : Type 0 where
    pub header : FrameHeader
    pub fields : read_frame_header (datagram ++ rest) ≡ header
    pub alone : read_frame_header datagram ≡ header
    pub plain : header.cipher ≡ encryption_none
    pub size : ntohl header.payload_size ≡ message_header_size + length bytes
    pub total : length datagram ≡ frame_header_size + (message_header_size + length bytes)
    pub body :
        drop frame_header_size (datagram ++ rest)
        ≡ message_header_bytes (record { component_id = htons c; msg_type = htons t })
          ++ (bytes ++ rest)
    pub payload :
        take (length datagram - frame_header_size) (drop frame_header_size (datagram ++ rest))
        ≡ drop frame_header_size datagram

  pub read_front :
      (h : FrameHeader) (rest : List ℕ)
      → read_frame_header (frame_header_bytes h ++ rest) ≡ read_frame_header (frame_header_bytes h)
  unfolding read_frame_header frame_header_bytes
  read_front h rest = refl

  pub drop_front :
      (h : FrameHeader) (rest : List ℕ)
      → drop frame_header_size (frame_header_bytes h ++ rest) ≡ rest
  unfolding frame_header_bytes
  drop_front h rest = refl

  pub length_front : (h : FrameHeader) → length (frame_header_bytes h) ≡ frame_header_size
  unfolding frame_header_bytes
  length_front h = refl

  pub layout :
      (h : FrameHeader) (mh : MessageHeader) (bytes rest : List ℕ) (c t : ℕ)
      → h.cipher ≡ encryption_none
      → h.payload_size ≡ htonl ((message_header_size + length bytes) % 2 ^ 32)
      → mh ≡ record { component_id = htons c; msg_type = htons t }
      → length bytes < 2 ^ 31
      → Layout (frame_header_bytes h ++ (message_header_bytes mh ++ bytes)) rest c t bytes
  layout h mh bytes rest c t plain size em small =
      let payload = message_header_bytes mh ++ bytes in
      let back : read_frame_header (frame_header_bytes h) ≡ h =
        read_frame_header_bytes h (rw size (htonl-lt _)) in
      let assoc = append_assoc (frame_header_bytes h) payload rest in
      let total : length (frame_header_bytes h ++ payload)
          ≡ frame_header_size + (message_header_size + length bytes) =
        rw
          (length-append (frame_header_bytes h) payload, length_front h, length-payload mh bytes) in
      let behind : drop frame_header_size ((frame_header_bytes h ++ payload) ++ rest)
          ≡ payload ++ rest =
        rw (assoc, drop_front h (payload ++ rest)) in
      let n : length (frame_header_bytes h ++ payload) - frame_header_size ≡ length payload =
        rw (total, length-payload mh bytes) (omega arith) in
      record {
        header = h;
        fields = rw assoc (read_front h (payload ++ rest) ∙ back);
        alone = read_front h payload ∙ back;
        plain = plain;
        size = announced_size h (length bytes) size small;
        total = total;
        body = rw behind (rw em (append_assoc _ bytes rest));
        payload = rw (n, behind, drop_front h payload) (take-append payload rest);
      }

  -- A datagram of version 2 that one peer sends in plain text is signalled by another as the same
  -- message under the same component and type, and, before that, with its header and payload as
  -- they are: if it fits the other's buffer, and the other awaits plain text in the buffer for plain
  -- text, has a listener, has the type registered under these numbers, which fit 16 bits, and does
  -- not filter the sender as itself.
  pub handle_recv-send :
      (fresh : QueueEntry) (a b : Peer Message) (endpoint : Endpoint) (c t : ℕ) (m : Message)
      (datagram : List ℕ) (dest : Option Endpoint)
      → SendsPlain a
      → a.frame_header_version ≡ pb_frame_v2
      → (send o pb fresh a c t m).1 ≡ ok (async_send_to datagram dest ∷ [])
      → length datagram ≤ max_packet_length
      → b.frame_header_version ≡ pb_frame_v2
      → b.crypto_buf ≡ false
      → b.recv_encrypted ≡ false
      → Listens pb b endpoint c t m
      → (b' : Peer Message) × (handle_recv o pb b endpoint (ok datagram)
          ≡ ok (b', heard_as endpoint datagram c t m))
  unfolding fill_packet packet_bytes first_bytes new_entry expected_min_size
  handle_recv-send fresh a b endpoint c t m datagram dest s va h fits vb off into l =
      let d = send-Datagram o pb fresh a c t m datagram dest s h in
      let fh = d.frame_header in
      let mh = d.message_header in
      let empty = (new_entry fresh).frame_header in
      let (sz, size, em) = serialize_fields pb laws c t m empty fh mh d.bytes d.written in
      let plain = serialize-cipher o pb c t m empty fh mh d.bytes d.written in
      let made : datagram ≡ frame_header_bytes fh ++ (message_header_bytes mh ++ d.bytes) =
        rw (d.filled, va) refl in
      let small : length d.bytes < 2 ^ 31 = omega (arith, d.short) in
      let rest = drop (0 + length datagram) b.in_data in
      let b1 = record b { in_data = datagram ++ rest } in
      let y : Layout datagram rest c t d.bytes =
        subst {A = List ℕ} (λ g. Layout g rest c t d.bytes) (sym made)
          (layout fh mh d.bytes rest c t plain size em small) in
      let n = length datagram in
      let r =
        received_plain o pb b1 endpoint n vb off
          (ap (λ (h : FrameHeader). h.cipher) y.fields ∙ y.plain) in
      let got : Received Message = record {
        peer = b1;
        out =
            sig_rcvd_raw endpoint (read_frame_header (datagram ++ rest))
              (take (n - frame_header_size) (drop frame_header_size (datagram ++ rest)))
            ∷ [];
        frame_header = read_frame_header (datagram ++ rest);
        bytes_rcvd = n;
      } in
      let out =
        deliver_lem pb laws got endpoint c t m d.bytes rest
          (record {
            component_fits = l.component_fits;
            type_fits = l.type_fits;
            heard = l.heard;
            accepts = l.accepts;
            known = l.known;
          })
          vb sz small y.total (rw y.fields y.size) y.body in
      (
        (start_recv b1).0,
        handle_recv_lem o pb b endpoint datagram b1 _ into
              (look_at_lem o pb b1 endpoint datagram got _ (rw (vb, y.total) (omega arith)) r out)
            ∙ rw (y.fields, y.alone, y.payload) refl,
      )
