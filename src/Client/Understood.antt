-- ===== src/Client/Understood.antt =====
-- What a client of src/libs/protobuf_comm/client.cpp makes of a frame that another has filled in, in
-- both versions of the frame header.
use at_work_central_factory.Common.{
  ℕ, ◌+◌, ◌-◌, ◌%◌, ◌^◌, ◌<◌, ◌≡◌, refl, sym, ◌∙◌, ap, List, ◌++◌, length, take, drop, ok, arith,
  append_assoc,
}
use at_work_central_factory.Common.Bytes.{htons, htonl, ntohl, ntohl-htonl, htonl-lt, htons-lt}
use at_work_central_factory.Wire.{
  FrameHeader, FrameHeaderV1, MessageHeader, QueueEntry, FrameVersion, pb_frame_v1, pb_frame_v2,
  message_header_size, read_frame_header, read_frame_header_v1, read_message_header, new_entry,
  frame_header_bytes, frame_header_v1_bytes, message_header_bytes, entry_bytes, entry_bytes_v1,
}
use at_work_central_factory.Wire.Layout.{
  read_frame_header_bytes, read_frame_header_v1_bytes, read_message_header_bytes, announced_size,
  length-payload, drop-payload,
}
use at_work_central_factory.Protobuf.{Protobuf, ProtobufLaws}
use at_work_central_factory.Register.{key_type_key, serialize}
use at_work_central_factory.Register.Codec.{serialize_fields}
use at_work_central_factory.Client.{buffers, announced, headers, fill_entry}

-- The frame header and the payload that an entry goes out as.
abbrev pub header_of : FrameVersion → QueueEntry → List ℕ
header_of pb_frame_v1 e = frame_header_v1_bytes e.frame_header_v1
header_of pb_frame_v2 e = frame_header_bytes e.frame_header

abbrev pub payload_of : FrameVersion → QueueEntry → List ℕ
payload_of pb_frame_v1 e = e.serialized_message
payload_of pb_frame_v2 e = message_header_bytes e.message_header ++ e.serialized_message

pub take-buffers :
    (v : FrameVersion) (e : QueueEntry) (rest : List ℕ)
    → take 8 (buffers v e ++ rest) ≡ header_of v e
unfolding buffers entry_bytes entry_bytes_v1 frame_header_bytes frame_header_v1_bytes
take-buffers pb_frame_v1 e rest = refl
take-buffers pb_frame_v2 e rest = refl

pub drop-buffers :
    (v : FrameVersion) (e : QueueEntry) (rest : List ℕ)
    → drop 8 (buffers v e ++ rest) ≡ payload_of v e ++ rest
unfolding buffers entry_bytes entry_bytes_v1 frame_header_bytes frame_header_v1_bytes
drop-buffers pb_frame_v1 e rest = refl
drop-buffers pb_frame_v2 e rest = refl

-- What is said about a message that was sent: its numbers fit their fields, and its bytes an `int`.
pub record Carries {Descriptor Message : Type 0} (pb : Protobuf Descriptor Message)
    (v : FrameVersion) (e : QueueEntry) (c t : ℕ) (m : Message) : Type 0 where
  pub fresh : QueueEntry
  pub frame_header : FrameHeader
  pub message_header : MessageHeader
  pub bytes : List ℕ
  pub written :
      serialize pb c t m (new_entry fresh).frame_header ≡ ok (frame_header, message_header, bytes)
  pub filled : e ≡ fill_entry v (new_entry fresh) (frame_header, message_header, bytes)
  pub component_fits : c < 2 ^ 16
  pub type_fits : t < 2 ^ 16
  pub bytes_fit : length bytes < 2 ^ 31

v1_size :
    (n : ℕ)
    → n < 2 ^ 31
    → ((message_header_size + n) % 2 ^ 32 + 2 ^ 32 - message_header_size) % 2 ^ 32 ≡ n
v1_size n h = omega arith

module _ {Descriptor Message : Type 0} (pb : Protobuf Descriptor Message)
    (laws : ProtobufLaws pb) where
  -- What a receiver makes of the header and the payload of an entry.
  pub record Understood (v : FrameVersion) (header payload : List ℕ) (c t : ℕ) (bytes : List ℕ)
      : Type 0 where
    pub announces : announced v header ≡ length payload
    pub size :
        (rest : List ℕ)
        → ntohl (headers v header (payload ++ rest)).0.payload_size
          ≡ message_header_size + length bytes
    pub ids :
        (rest : List ℕ)
        → (headers v header (payload ++ rest)).1
          ≡ record { component_id = htons c; msg_type = htons t }
    pub body : (rest : List ℕ) → (headers v header (payload ++ rest)).2 ≡ bytes ++ rest

  Understood-v1 :
      (h : FrameHeaderV1) (c t : ℕ) (bytes : List ℕ)
      → length bytes < 2 ^ 31
      → h
        ≡ record { component_id = htons c; msg_type = htons t; payload_size = htonl (length bytes) }
      → Understood pb_frame_v1 (frame_header_v1_bytes h) bytes c t bytes
  unfolding announced headers
  Understood-v1 h c t bytes small e =
      let back : read_frame_header_v1 (frame_header_v1_bytes h) ≡ h =
        read_frame_header_v1_bytes h (rw e (htons-lt c)) (rw e (htons-lt t))
          (rw e (htonl-lt (length bytes))) in
      let n : ntohl h.payload_size ≡ length bytes =
        rw e (ntohl-htonl (length bytes) (omega arith)) in
      record {
        announces = rw back n;
        size = λ rest.
            rw (back, n, ntohl-htonl ((length bytes + message_header_size) % 2 ^ 32) (omega arith))
              (omega arith);
        ids = λ rest. rw (back, e) refl;
        body = λ rest. refl;
      }

  Understood-v2 :
      (h : FrameHeader) (mh : MessageHeader) (c t : ℕ) (bytes : List ℕ)
      → length bytes < 2 ^ 31
      → h.payload_size ≡ htonl ((message_header_size + length bytes) % 2 ^ 32)
      → mh ≡ record { component_id = htons c; msg_type = htons t }
      → Understood pb_frame_v2 (frame_header_bytes h) (message_header_bytes mh ++ bytes) c t bytes
  unfolding announced headers
  Understood-v2 h mh c t bytes small e f =
      let back : read_frame_header (frame_header_bytes h) ≡ h =
        read_frame_header_bytes h (rw e (htonl-lt _)) in
      let n = announced_size h (length bytes) e small in
      record {
        announces = rw back (n ∙ sym (length-payload mh bytes));
        size = λ rest. rw back n;
        ids = λ rest.
            ap read_message_header (append_assoc (message_header_bytes mh) bytes rest)
            ∙ read_message_header_bytes mh (bytes ++ rest) (rw f (htons-lt c)) (rw f (htons-lt t))
            ∙ f;
        body = λ rest.
            ap (drop message_header_size) (append_assoc (message_header_bytes mh) bytes rest)
            ∙ drop-payload mh (bytes ++ rest);
      }

  pub Carries-Understood :
      (v : FrameVersion) (e : QueueEntry) (c t : ℕ) (m : Message) (k : Carries pb v e c t m)
      → Understood v (header_of v e) (payload_of v e) c t k.bytes
  unfolding fill_entry
  Carries-Understood pb_frame_v1 e c t m k =
      let (_, size, mh) =
        serialize_fields pb laws c t m _ k.frame_header k.message_header k.bytes k.written in
      let h : e.frame_header_v1 ≡ record {
        component_id = htons c;
        msg_type = htons t;
        payload_size = htonl (length k.bytes);
      } =
        rw
          (
            k.filled,
            mh,
            size,
            ntohl-htonl ((message_header_size + length k.bytes) % 2 ^ 32) (omega arith),
            v1_size (length k.bytes) k.bytes_fit,
          )
          refl in
      let s : e.serialized_message ≡ k.bytes = rw k.filled refl in
      rw s (Understood-v1 e.frame_header_v1 c t k.bytes k.bytes_fit h)
  Carries-Understood pb_frame_v2 e c t m k =
      let (_, size, mh) =
        serialize_fields pb laws c t m _ k.frame_header k.message_header k.bytes k.written in
      let fh : e.frame_header ≡ k.frame_header = rw k.filled refl in
      let h : e.message_header ≡ k.message_header = rw k.filled refl in
      let s : e.serialized_message ≡ k.bytes = rw k.filled refl in
      rw (s, fh, h) (Understood-v2 k.frame_header k.message_header c t k.bytes k.bytes_fit size mh)
