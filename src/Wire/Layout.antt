-- ===== src/Wire/Layout.antt =====
-- The bytes of the headers of src/libs/protobuf_comm/frame_header.h, read back.
use at_work_central_factory.Common.{
  ℕ, ◌+◌, ◌%◌, ◌^◌, ◌<◌, ◌≡◌, refl, ◌∙◌, List, ◌++◌, length, take, drop, arith,
}
use at_work_central_factory.Common.Bytes.{htonl, ntohl, ntohl-htonl}
use at_work_central_factory.Wire.{
  FrameHeader, FrameHeaderV1, MessageHeader, QueueEntry, message_header_size, read_frame_header,
  read_frame_header_v1, read_message_header, frame_header_bytes, frame_header_v1_bytes,
  message_header_bytes, entry_bytes, entry_bytes_v1,
}

-- A header of four bytes and a 32-bit size is read back from its bytes.
pub read_frame_header_bytes :
    (h : FrameHeader) → h.payload_size < 2 ^ 32 → read_frame_header (frame_header_bytes h) ≡ h
unfolding read_frame_header frame_header_bytes
read_frame_header_bytes h lt = ground arith

pub read_message_header_bytes :
    (h : MessageHeader) (rest : List ℕ)
    → h.component_id < 2 ^ 16
    → h.msg_type < 2 ^ 16
    → read_message_header (message_header_bytes h ++ rest) ≡ h
unfolding read_message_header message_header_bytes
read_message_header_bytes h rest lc lt = ground arith

pub read_frame_header_v1_bytes :
    (h : FrameHeaderV1)
    → h.component_id < 2 ^ 16
    → h.msg_type < 2 ^ 16
    → h.payload_size < 2 ^ 32
    → read_frame_header_v1 (frame_header_v1_bytes h) ≡ h
unfolding read_frame_header_v1 frame_header_v1_bytes
read_frame_header_v1_bytes h lc lt lp = ground arith

pub announced_size :
    (h : FrameHeader) (n : ℕ)
    → h.payload_size ≡ htonl ((message_header_size + n) % 2 ^ 32)
    → n < 2 ^ 31
    → ntohl h.payload_size ≡ message_header_size + n
announced_size h n e lt =
    rw e (ntohl-htonl ((message_header_size + n) % 2 ^ 32) (omega arith) ∙ omega arith)

pub take-entry_bytes : (e : QueueEntry) → take 8 (entry_bytes e) ≡ frame_header_bytes e.frame_header
unfolding entry_bytes frame_header_bytes
take-entry_bytes e = refl

pub drop-entry_bytes :
    (e : QueueEntry)
    → drop 8 (entry_bytes e) ≡ message_header_bytes e.message_header ++ e.serialized_message
unfolding entry_bytes frame_header_bytes
drop-entry_bytes e = refl

pub length-payload :
    (h : MessageHeader) (bytes : List ℕ)
    → length (message_header_bytes h ++ bytes) ≡ message_header_size + length bytes
unfolding message_header_bytes
length-payload h bytes = omega arith

pub drop-payload :
    (h : MessageHeader) (bytes : List ℕ)
    → drop message_header_size (message_header_bytes h ++ bytes) ≡ bytes
unfolding message_header_bytes
drop-payload h bytes = refl

pub take-entry_bytes_v1 :
    (e : QueueEntry) → take 8 (entry_bytes_v1 e) ≡ frame_header_v1_bytes e.frame_header_v1
unfolding entry_bytes_v1 frame_header_v1_bytes
take-entry_bytes_v1 e = refl

pub drop-entry_bytes_v1 : (e : QueueEntry) → drop 8 (entry_bytes_v1 e) ≡ e.serialized_message
unfolding entry_bytes_v1 frame_header_v1_bytes
drop-entry_bytes_v1 e = refl
