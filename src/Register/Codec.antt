-- ===== src/Register/Codec.antt =====
-- What `serialize` writes and `deserialize` reads, of src/libs/protobuf_comm/message_register.cpp.
use at_work_central_factory.Common.{
  ℕ, ◌+◌, ◌-◌, ◌%◌, ◌^◌, ◌<◌, ◌≡◌, ◌∙◌, some, inl, inr, List, ◌++◌, length, ok, arith, Option-cases,
}
use at_work_central_factory.Common.Int.{pos, negsuc}
use at_work_central_factory.Common.Dict.{find}
use at_work_central_factory.Common.Bytes.{htons, htonl, ntohl, ntohs-htons, ntohl-htonl}
use at_work_central_factory.Wire.{FrameHeader, MessageHeader, message_header_size}
use at_work_central_factory.Protobuf.{Protobuf, ProtobufLaws}
use at_work_central_factory.Register.{
  Register, key_type_key, serialize, deserialize, data_size, new_message_for,
}

-- The size that goes to protobuf is the payload's less the message header, as long as that fits
-- an `int`.
pub data_size_fits :
    (h : FrameHeader) (n : ℕ)
    → ntohl h.payload_size ≡ message_header_size + n
    → n < 2 ^ 31
    → data_size h ≡ pos n
unfolding data_size
data_size_fits h n e lt = ground arith

-- A payload that is shorter than a message header wraps, and becomes a negative size.
pub data_size_short :
    (h : FrameHeader)
    → ntohl h.payload_size < message_header_size
    → data_size h ≡ negsuc (3 - ntohl h.payload_size)
unfolding data_size
data_size_short h lt = ground arith

module _ {Descriptor Message : Type 0} (pb : Protobuf Descriptor Message)
    (laws : ProtobufLaws pb) where
  open pb use {descriptor, fresh, serialize_to_string, parse_from_array}

  -- The fields that `serialize` fills in.
  pub serialize_fields :
      (c t : ℕ) (msg : Message) (h h' : FrameHeader) (mh : MessageHeader) (bytes : List ℕ)
      → serialize pb c t msg h ≡ ok (h', mh, bytes)
      → (serialize_to_string msg ≡ some bytes)
        × (h'.payload_size ≡ htonl ((message_header_size + length bytes) % 2 ^ 32))
        × (mh ≡ record { component_id = htons c; msg_type = htons t })
  unfolding serialize
  serialize_fields c t msg h h' mh bytes e = elim (Option-cases (serialize_to_string msg)) [
    | inl e' ↦ ground arith
    | inr (bs, s) ↦ ground arith
  ]

  -- A payload of the announced size is parsed as what was serialized, whatever follows it.
  pub deserialize_sized :
      (r : Register Message) (c t : ℕ) (p msg : Message) (h : FrameHeader) (bytes rest : List ℕ)
      → c < 2 ^ 16
      → t < 2 ^ 16
      → find (c, t) r.by_comp_type ≡ some p
      → descriptor p ≡ descriptor msg
      → serialize_to_string msg ≡ some bytes
      → ntohl h.payload_size ≡ message_header_size + length bytes
      → length bytes < 2 ^ 31
      → deserialize pb r h (record { component_id = htons c; msg_type = htons t }) (bytes ++ rest)
        ≡ ok msg
  unfolding deserialize new_message_for
  deserialize_sized r c t p msg h bytes rest hc ht there same sz size small =
      rw (ntohs-htons c hc, ntohs-htons t ht, there, data_size_fits h (length bytes) size small)
        (rw (laws.parse-serialize (fresh p) msg bytes rest (laws.descriptor-fresh p ∙ same) sz))

  -- A registered type comes back from what `serialize` wrote of it, whatever follows the message in
  -- the buffer.
  pub deserialize-serialize :
      (r : Register Message) (c t : ℕ) (p msg : Message) (h h' : FrameHeader) (mh : MessageHeader)
      (bytes rest : List ℕ)
      → c < 2 ^ 16
      → t < 2 ^ 16
      → find (c, t) r.by_comp_type ≡ some p
      → descriptor p ≡ descriptor msg
      → serialize pb c t msg h ≡ ok (h', mh, bytes)
      → length bytes < 2 ^ 31
      → deserialize pb r h' mh (bytes ++ rest) ≡ ok msg
  deserialize-serialize r c t p msg h h' mh bytes rest hc ht there same s small =
      let (sz, hs, hm) = serialize_fields c t msg h h' mh bytes s in
      rw hm (
        deserialize_sized r c t p msg h' bytes rest hc ht there same sz
          (rw hs (
            ntohl-htonl ((message_header_size + length bytes) % 2 ^ 32) (omega arith)
            ∙ omega arith))
          small)
