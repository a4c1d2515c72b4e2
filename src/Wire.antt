-- ===== src/Wire.antt =====
-- src/libs/protobuf_comm/frame_header.h: the headers of a frame, as the fields that a
-- little-endian host holds in memory, and as the bytes that the structs occupy.
pub mod Layout
use at_work_central_factory.Common.{ℕ, ◌+◌, ◌*◌, ◌/◌, ◌%◌, ◌^◌, List, [], ◌∷◌, ◌++◌}

pub record FrameHeader : Type 0 where
  pub header_version : ℕ  -- uint8_t
  pub cipher : ℕ  -- uint8_t
  pub reserved_2 : ℕ
  pub reserved_3 : ℕ
  pub payload_size : ℕ  -- uint32_t, network byte order

pub record MessageHeader : Type 0 where
  pub component_id : ℕ  -- uint16_t, network byte order
  pub msg_type : ℕ  -- uint16_t, network byte order

pub record FrameHeaderV1 : Type 0 where
  pub component_id : ℕ
  pub msg_type : ℕ
  pub payload_size : ℕ

-- `frame_header_version_t`
pub data FrameVersion : Type 0 where
  pb_frame_v1 pb_frame_v2 : FrameVersion

-- `PB_ENCRYPTION_*`
abbrev pub encryption_none : ℕ
encryption_none = 0x00

-- `sizeof` of the structs
abbrev pub frame_header_size : ℕ
frame_header_size = 8

abbrev pub message_header_size : ℕ
message_header_size = 4

-- A field in the host's memory, low byte first.
abbrev pub bytes16 : ℕ → List ℕ
bytes16 x = x % 256 ∷ x / 256 % 256 ∷ []

abbrev pub bytes32 : ℕ → List ℕ
bytes32 x = x % 256 ∷ x / 256 % 256 ∷ x / 2 ^ 16 % 256 ∷ x / 2 ^ 24 % 256 ∷ []

unfoldable pub frame_header_bytes : FrameHeader → List ℕ
frame_header_bytes h =
    h.header_version ∷ h.cipher ∷ h.reserved_2 ∷ h.reserved_3 ∷ bytes32 h.payload_size

unfoldable pub message_header_bytes : MessageHeader → List ℕ
message_header_bytes h = bytes16 h.component_id ++ bytes16 h.msg_type

-- A struct read from a buffer; bytes past the end of the buffer are read as 0.
unfoldable pub read_frame_header : List ℕ → FrameHeader
read_frame_header (v ∷ c ∷ r ∷ s ∷ a ∷ b ∷ d ∷ e ∷ _) = record {
  header_version = v;
  cipher = c;
  reserved_2 = r;
  reserved_3 = s;
  payload_size = a + b * 256 + d * 2 ^ 16 + e * 2 ^ 24;
}
read_frame_header _ = record {
  header_version = 0;
  cipher = 0;
  reserved_2 = 0;
  reserved_3 = 0;
  payload_size = 0;
}

unfoldable pub read_message_header : List ℕ → MessageHeader
read_message_header (a ∷ b ∷ c ∷ d ∷ _) = record {
  component_id = a + b * 256;
  msg_type = c + d * 256;
}
read_message_header _ = record { component_id = 0; msg_type = 0 }

unfoldable pub frame_header_v1_bytes : FrameHeaderV1 → List ℕ
frame_header_v1_bytes h = bytes16 h.component_id ++ (bytes16 h.msg_type ++ bytes32 h.payload_size)

unfoldable pub read_frame_header_v1 : List ℕ → FrameHeaderV1
read_frame_header_v1 (v ∷ c ∷ r ∷ s ∷ a ∷ b ∷ d ∷ e ∷ _) = record {
  component_id = v + c * 256;
  msg_type = r + s * 256;
  payload_size = a + b * 256 + d * 2 ^ 16 + e * 2 ^ 24;
}
read_frame_header_v1 _ = record { component_id = 0; msg_type = 0; payload_size = 0 }

-- src/libs/protobuf_comm/queue_entry.h, without the buffers that point into it and the encrypted
-- copy.
pub record QueueEntry : Type 0 where
  pub serialized_message : List ℕ
  pub frame_header : FrameHeader
  pub frame_header_v1 : FrameHeaderV1
  pub message_header : MessageHeader

-- `new QueueEntry()`: the constructor sets two fields; `rest` stands for what the others hold.
unfoldable pub new_entry : QueueEntry → QueueEntry
new_entry rest = record rest {
  frame_header = record rest.frame_header { header_version = 2; cipher = encryption_none };
}

-- The three buffers that a session writes: frame header, message header, message.
unfoldable pub entry_bytes : QueueEntry → List ℕ
entry_bytes e =
    frame_header_bytes e.frame_header
    ++ (message_header_bytes e.message_header ++ e.serialized_message)

-- The buffers of a client or a peer that speaks version 1: its header and the message.
unfoldable pub entry_bytes_v1 : QueueEntry → List ℕ
entry_bytes_v1 e = frame_header_v1_bytes e.frame_header_v1 ++ e.serialized_message
