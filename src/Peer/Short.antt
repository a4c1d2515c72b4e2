-- ===== src/Peer/Short.antt =====
-- What `send` of src/libs/protobuf_comm/peer.cpp does with a message that passes its size check.
use at_work_central_factory.Common.{
  Result-cases, inl, inr, some, ℕ, ◌+◌, ◌≤◌, ◌≡◌, false, Option, List, [], ◌∷◌, length, ltb, ok,
  arith,
}
use at_work_central_factory.Wire.{
  FrameHeader, MessageHeader, QueueEntry, pb_frame_v2, frame_header_size, message_header_size,
  new_entry, frame_header_bytes, message_header_bytes,
}
use at_work_central_factory.Protobuf.{Protobuf, ProtobufLaws}
use at_work_central_factory.Register.{serialize}
use at_work_central_factory.Register.Codec.{serialize_fields}
use at_work_central_factory.Server.{Endpoint}
use at_work_central_factory.Crypto.{Openssl}
use at_work_central_factory.Peer.{Peer, packet_bytes, first_bytes, async_send_to, max_packet_length}
use at_work_central_factory.Peer.Sending.{send, fill_packet, send_serialized}
use at_work_central_factory.Peer.Delivery.{SendsPlain, send-Datagram, push_send_plain}

module _ {Descriptor Message Context : Type 0} (o : Openssl Context)
    (pb : Protobuf Descriptor Message) (laws : ProtobufLaws pb) where
  serialize_goes :
      (c t : ℕ) (m : Message) (h : FrameHeader) (bytes : List ℕ)
      → pb.serialize_to_string m ≡ some bytes
      → (parts : FrameHeader × MessageHeader × List ℕ) × (serialize pb c t m h ≡ ok parts)
  unfolding serialize
  serialize_goes c t m h bytes text = elim (Result-cases (serialize pb c t m h)) [
    | inl r ↦ r
    | inr (what, w) ↦ absurd (ground (arith, text))
  ]

  pub send_short :
      (fresh : QueueEntry) (a : Peer Message) (c t : ℕ) (m : Message) (bytes : List ℕ)
      → SendsPlain a
      → pb.serialize_to_string m ≡ some bytes
      → length bytes ≤ max_packet_length
      → (datagram : List ℕ) × ((send o pb fresh a c t m).1
          ≡ ok (async_send_to datagram a.outbound_endpoint ∷ []))
  unfolding send send_serialized
  send_short fresh a c t m bytes s text short =
      let ((fh, mh, bs), w) = serialize_goes c t m (new_entry fresh).frame_header bytes text in
      let (sz, _, _) = serialize_fields pb laws c t m (new_entry fresh).frame_header fh mh bs w in
      let same : bs ≡ bytes = ground arith in
      let fits : ltb max_packet_length (length bs) ≡ false = rw same (ground arith) in
      let packet = fill_packet a.frame_header_version (new_entry fresh) (fh, mh, bs) in
      (packet_bytes packet, rw (w, fits) (push_send_plain o pb a packet s))

  pub length-send :
      (fresh : QueueEntry) (a : Peer Message) (c t : ℕ) (m : Message) (bytes datagram : List ℕ)
      (dest : Option Endpoint)
      → SendsPlain a
      → a.frame_header_version ≡ pb_frame_v2
      → pb.serialize_to_string m ≡ some bytes
      → (send o pb fresh a c t m).1 ≡ ok (async_send_to datagram dest ∷ [])
      → length datagram ≡ frame_header_size + (message_header_size + length bytes)
  unfolding fill_packet packet_bytes first_bytes frame_header_bytes message_header_bytes
  length-send fresh a c t m bytes datagram dest s va text h =
      let d = send-Datagram o pb fresh a c t m datagram dest s h in
      let (sz, _, _) =
        serialize_fields pb laws c t m (new_entry fresh).frame_header d.frame_header
          d.message_header d.bytes d.written in
      let same : d.bytes ≡ bytes = ground arith in rw (d.filled, va, same) (omega arith)
