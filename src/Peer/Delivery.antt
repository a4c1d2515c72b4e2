-- ===== src/Peer/Delivery.antt =====
-- What the handlers of src/libs/protobuf_comm/peer.cpp do with a datagram of version 2 in plain text,
-- and what `send` makes of a message.
use at_work_central_factory.Common.{
  ℕ, zero, suc, ◌+◌, ◌-◌, ◌^◌, ◌≤◌, ◌<◌, ◌≡◌, refl, sym, ◌∙◌, ap, true, false, ◌||◌, not, Option,
  some, inl, inr, List, [], ◌∷◌, ◌++◌, length, take, drop, ltb, ==_refl, ok, arith, Bool-cases,
  Result-cases,
}
use at_work_central_factory.Common.Dict.{find}
use at_work_central_factory.Common.Bytes.{htons, ntohl, ntohs-htons, htons-lt}
use at_work_central_factory.Wire.{
  FrameHeader, MessageHeader, QueueEntry, pb_frame_v2, encryption_none, frame_header_size,
  message_header_size, read_frame_header, read_message_header, new_entry, message_header_bytes,
}
use at_work_central_factory.Wire.Layout.{read_message_header_bytes, drop-payload}
use at_work_central_factory.Protobuf.{Protobuf, ProtobufLaws}
use at_work_central_factory.Register.{key_type_key, serialize}
use at_work_central_factory.Register.Codec.{deserialize_sized}
use at_work_central_factory.Server.{Endpoint}
use at_work_central_factory.Crypto.{Openssl}
use at_work_central_factory.Peer.{
  Peer, Packet, packet_bytes, Action, async_send_to, async_receive_from, sig_rcvd_raw, sig_rcvd,
  max_packet_length, start_recv,
}
use at_work_central_factory.Peer.Sending.{
  send, fill_packet, push_send, start_send, send_first, send_serialized,
}
use at_work_central_factory.Peer.Receiving.{
  Received, is_local, overwrite, received, received_v2, check_cipher, parts, deliver, look_at,
  handle_recv, expected_min_size, set_buffer, in_buffer, pending_buffer,
}

drop_nil {ℓ} : {A : Type ℓ} (n : ℕ) → drop {A = A} n [] ≡ []
drop_nil zero = refl
drop_nil (suc n) = refl

pub drop-add {ℓ} : {A : Type ℓ} (m n : ℕ) (xs : List A) → drop (m + n) xs ≡ drop n (drop m xs)
drop-add zero n xs = let e : 0 + n ≡ n = omega arith in rw e
drop-add {A} (suc m) n [] = drop_nil {A = A} (suc m + n) ∙ sym (drop_nil {A = A} n)
drop-add (suc m) n (x ∷ xs) =
    let e : suc m + n ≡ suc (m + n) = omega arith in rw e (drop-add m n xs)

module _ {Descriptor Message : Type 0} (pb : Protobuf Descriptor Message) where
  -- A peer that signals a message with these numbers and this type, from this endpoint.
  pub record Listens (b : Peer Message) (endpoint : Endpoint) (c t : ℕ) (m : Message) : Type 0 where
    pub component_fits : c < 2 ^ 16
    pub type_fits : t < 2 ^ 16
    pub heard : 0 < b.listeners
    pub accepts : (not b.filter_self || not (is_local endpoint b.local_endpoints)) ≡ true
    pub known :
        (p : Message) × (find (c, t) b.message_register.by_comp_type ≡ some p)
        × (pb.descriptor p ≡ pb.descriptor m)

module _ {Descriptor Message : Type 0} (pb : Protobuf Descriptor Message)
    (laws : ProtobufLaws pb) where
  pub deliver_lem :
      (r : Received Message) (endpoint : Endpoint) (c t : ℕ) (m : Message) (bytes rest : List ℕ)
      → Listens pb r.peer endpoint c t m
      → r.peer.frame_header_version ≡ pb_frame_v2
      → pb.serialize_to_string m ≡ some bytes
      → length bytes < 2 ^ 31
      → r.bytes_rcvd ≡ frame_header_size + (message_header_size + length bytes)
      → ntohl r.frame_header.payload_size ≡ message_header_size + length bytes
      → drop frame_header_size r.peer.in_data
        ≡ message_header_bytes (record { component_id = htons c; msg_type = htons t })
          ++ (bytes ++ rest)
      → deliver pb r endpoint ≡ ok (sig_rcvd endpoint c t m ∷ [])
  unfolding deliver parts
  deliver_lem r endpoint c t m bytes rest l ver sz small n size body =
      let mh : MessageHeader = record { component_id = htons c; msg_type = htons t } in
      let heard : ltb 0 r.peer.listeners ≡ true = ground (arith, l.heard) in
      let (p, there, same) = l.known in
      let text : drop (frame_header_size + message_header_size) r.peer.in_data ≡ bytes ++ rest =
        drop-add frame_header_size message_header_size r.peer.in_data
        ∙ ap (drop message_header_size) body
        ∙ drop-payload mh (bytes ++ rest) in
      let ids : read_message_header (drop frame_header_size r.peer.in_data) ≡ mh =
        ap read_message_header body
        ∙ read_message_header_bytes mh (bytes ++ rest) (htons-lt c) (htons-lt t) in
      let d =
        deserialize_sized pb laws r.peer.message_register c t p m r.frame_header bytes rest
          l.component_fits l.type_fits there same sz size small in
      rw
        (
          heard,
          n,
          size,
          ==_refl (frame_header_size + (message_header_size + length bytes)),
          l.accepts,
          ver,
        )
        (rw (ids, text, d, ntohs-htons c l.component_fits, ntohs-htons t l.type_fits) refl)

module _ {Message : Type 0} where
  -- A peer that sends at once what it is given, in plain text.
  pub record SendsPlain (a : Peer Message) : Type 0 where
    pub plain : a.crypto ≡ false
    pub idle : a.outbound_active ≡ false
    pub empty : a.outbound_queue ≡ []

  pub in_buffer_plain : (p : Peer Message) → p.crypto_buf ≡ false → in_buffer p ≡ some p.in_data
  in_buffer_plain p off = rw off refl

  pub pending_buffer_plain :
      (p : Peer Message) → p.recv_encrypted ≡ false → pending_buffer p ≡ some p.in_data
  pending_buffer_plain p off = rw off refl

  pub set_buffer_plain :
      (p : Peer Message) (buffer : List ℕ)
      → p.recv_encrypted ≡ false
      → set_buffer p buffer ≡ record p { in_data = buffer }
  set_buffer_plain p buffer off = ground arith

module _ {Descriptor Message Context : Type 0} (o : Openssl Context)
    (pb : Protobuf Descriptor Message) where
  -- What the datagram of a message was made of.
  pub record Datagram (fresh : QueueEntry) (a : Peer Message) (c t : ℕ) (m : Message)
      (datagram : List ℕ) : Type 0 where
    pub frame_header : FrameHeader
    pub message_header : MessageHeader
    pub bytes : List ℕ
    pub written :
        serialize pb c t m (new_entry fresh).frame_header ≡ ok (frame_header, message_header, bytes)
    pub short : length bytes ≤ max_packet_length
    pub filled :
        datagram
        ≡ packet_bytes (
            fill_packet a.frame_header_version
              (new_entry fresh)
              (frame_header, message_header, bytes))

  pub serialize-cipher :
      (c t : ℕ) (m : Message) (h h' : FrameHeader) (mh : MessageHeader) (bytes : List ℕ)
      → serialize pb c t m h ≡ ok (h', mh, bytes)
      → h'.cipher ≡ h.cipher
  unfolding serialize
  serialize-cipher c t m h h' mh bytes e = ground arith

  pub push_send_plain :
      (a : Peer Message) (packet : Packet)
      → SendsPlain a
      → (push_send o a packet).1 ≡ ok (async_send_to (packet_bytes packet) a.outbound_endpoint ∷ [])
  unfolding push_send start_send send_first
  push_send_plain a packet s = rw (s.empty, s.idle, s.plain) refl

  pub send-Datagram :
      (fresh : QueueEntry) (a : Peer Message) (c t : ℕ) (m : Message) (datagram : List ℕ)
      (dest : Option Endpoint)
      → SendsPlain a
      → (send o pb fresh a c t m).1 ≡ ok (async_send_to datagram dest ∷ [])
      → Datagram fresh a c t m datagram
  unfolding send send_serialized
  send-Datagram fresh a c t m datagram dest s h =
      elim (Result-cases (serialize pb c t m (new_entry fresh).frame_header)) [
        | inl ((fh, mh, bytes), e) ↦ elim (Bool-cases (ltb max_packet_length (length bytes))) [
          | inl long ↦ ground arith
          | inr fits ↦
              let packet = fill_packet a.frame_header_version (new_entry fresh) (fh, mh, bytes) in
              let p = push_send_plain a packet s in
              record {
                frame_header = fh;
                message_header = mh;
                bytes = bytes;
                written = e;
                short = ground arith;
                filled = ground (arith, p);
              }
        ]
        | inr (bad, e) ↦ ground arith
      ]

  pub received_plain :
      (p : Peer Message) (endpoint : Endpoint) (n : ℕ)
      → p.frame_header_version ≡ pb_frame_v2
      → p.crypto_buf ≡ false
      → (read_frame_header p.in_data).cipher ≡ encryption_none
      → received o p.frame_header_version p endpoint n (in_buffer p)
        ≡ ok (record {
          peer = p;
          out =
              sig_rcvd_raw endpoint
                (read_frame_header p.in_data)
                (take (n - frame_header_size) (drop frame_header_size p.in_data))
              ∷ [];
          frame_header = read_frame_header p.in_data;
          bytes_rcvd = n;
        })
  unfolding received received_v2 check_cipher
  received_plain p endpoint n ver off none_set = elim (Bool-cases (ltb 0 p.listeners)) [
    | inl heard ↦ simp (ver, off, heard, none_set)
    | inr deaf ↦ simp (ver, off, deaf)
  ]

  pub look_at_lem :
      (p : Peer Message) (endpoint : Endpoint) (bytes : List ℕ) (r : Received Message)
      (out : List (Action Message))
      → expected_min_size p.frame_header_version ≤ length bytes
      → received o p.frame_header_version p endpoint (length bytes) (in_buffer p) ≡ ok r
      → deliver pb r endpoint ≡ ok out
      → look_at o pb p endpoint (ok bytes) ≡ ok (r.peer, r.out ++ out)
  unfolding look_at
  look_at_lem p endpoint bytes r out long e d =
      let min : ltb (length bytes) (expected_min_size p.frame_header_version) ≡ false =
        ground arith in
      rw (min, e, d) refl

  pub handle_recv_lem :
      (p : Peer Message) (endpoint : Endpoint) (bytes : List ℕ) (p' : Peer Message)
      (out : List (Action Message))
      → p.recv_encrypted ≡ false
      → look_at o pb (record p { in_data = overwrite 0 bytes p.in_data }) endpoint (ok bytes)
        ≡ ok (p', out)
      → handle_recv o pb p endpoint (ok bytes)
        ≡ ok ((start_recv p').0, out ++ async_receive_from max_packet_length ∷ [])
  unfolding handle_recv start_recv
  handle_recv_lem p endpoint bytes p' out off e =
      rw (pending_buffer_plain p off, set_buffer_plain p (overwrite 0 bytes p.in_data) off, e) refl
