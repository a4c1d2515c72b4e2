-- ===== src/Register.antt =====
-- src/libs/protobuf_comm/message_register.{h,cpp}: the register of message types, a table by
-- (component id, message type) and a table by type name, and the codec that goes through it.
pub mod Invariant
pub mod Codec
pub mod Tables
pub mod Loading
mod Examples
use at_work_central_factory.Common.{
  ℕ, ◌+◌, ◌-◌, ◌%◌, ◌^◌, ◌≤◌, ◌<◌, ◌≡◌, ◌↔◌, String, Bool, true, false, ◌&&◌, ◌||◌, Option, none,
  some, List, [], ◌∷◌, ◌++◌, length, ltb, leb, ◌==◌, ==_iff, str_eq, str_eq_iff, if◌then◌else◌,
  Result, ok, err, ◌>>=◌, or_throw, arith, is_some,
}
use at_work_central_factory.Common.Int.{ℤ, pos, negsuc, signed32}
use at_work_central_factory.Common.Dict.{Key, Dict, string_key, find, insert, erase}
use at_work_central_factory.Common.Bytes.{htons, htonl, ntohs, ntohl}
use at_work_central_factory.Wire.{FrameHeader, MessageHeader, message_header_size}
use at_work_central_factory.Protobuf.{CompType, Protobuf}

-- One reason for each `throw` of the file.
pub data Reason : Type 0 where
  no_comp_type no_comp_value invalid_comp_id invalid_msg_type : Reason
  already_registered : ℕ → ℕ → Reason
  unknown_type : Reason
  not_registered : ℕ → ℕ → Reason
  type_not_registered cannot_serialize parse_failed : Reason

pub data Thrown : Type 0 where
  runtime_error : Reason → Thrown
  logic_error : Reason → Thrown

-- `KeyType`, and its order as a pair
abbrev pub KeyType : Type 0
KeyType = ℕ × ℕ

abbrev pub key_eq : KeyType → KeyType → Bool
key_eq a b = a.0 == b.0 && a.1 == b.1

pub key_eq_iff : (a b : KeyType) → (key_eq a b ≡ true) ↔ (a ≡ b)
key_eq_iff a b = ground arith

instance abbrev pub key_type_key : Key KeyType
key_type_key = record {
  beq = key_eq;
  before = λ a b. ltb a.0 b.0 || (a.0 == b.0 && ltb a.1 b.1);
  beq_iff = key_eq_iff;
}

pub record Register (Message : Type 0) : Type 0 where
  pub has_importer : Bool  -- pb_importer_ != NULL
  pub by_comp_type : Dict KeyType Message
  pub by_typename : Dict String Message
  pub failed_to_load : List (String × Reason)

-- The constructor with no proto path.
pub init : {Message : Type 0} → Register Message
init = record { has_importer = false; by_comp_type = []; by_typename = []; failed_to_load = [] }

-- `int` values that fit a `uint16_t`
abbrev pub uint16 : ℤ → Option ℕ
uint16 (pos n) = if leb n 65535 then some n else none
uint16 (negsuc n) = none

-- `size_t data_size`, which wraps, handed over as an `int`.
unfoldable pub data_size : FrameHeader → ℤ
data_size frame_header =
    signed32 ((ntohl frame_header.payload_size + 2 ^ 64 - message_header_size) % 2 ^ 64 % 2 ^ 32)

module _ {Descriptor Message : Type 0} (pb : Protobuf Descriptor Message) where
  open pb use {
    full_name, comp_type, find_generated, find_imported, prototype, descriptor, type_name, fresh,
    serialize_to_string, parse_from_array,
  }

  unfoldable pub key_from_desc : Descriptor → Result Thrown KeyType
  key_from_desc desc = do
    enumdesc ← or_throw (comp_type desc) (logic_error no_comp_type)
    compdesc ← or_throw enumdesc.comp_id (logic_error no_comp_value)
    msgtdesc ← or_throw enumdesc.msg_type (logic_error no_comp_value)
    comp_id ← or_throw (uint16 compdesc) (logic_error invalid_comp_id)
    msg_type ← or_throw (uint16 msgtdesc) (logic_error invalid_msg_type)
    ok (comp_id, msg_type)

  -- `none` is NULL. The generated pool comes first, then that of the proto path.
  create_from_importer : Bool → String → Option Message
  create_from_importer false msg_type = none
  create_from_importer true msg_type = elim (find_imported msg_type) [
    | none ↦ none
    | some cdesc ↦ some (prototype cdesc)
  ]

  unfoldable pub create_msg : Bool → String → Option Message
  unfolding create_from_importer
  create_msg has_importer msg_type = elim (find_generated msg_type) [
    | some desc ↦ some (prototype desc)
    | none ↦ create_from_importer has_importer msg_type
  ]

  -- Both tables get the new message, unless the key is taken.
  register : Register Message → Message → KeyType → Result Thrown (Register Message)
  register r m key =
      if is_some (find key r.by_comp_type)
      then err (runtime_error (already_registered key.0 key.1))
      else ok (record r {
        by_comp_type = insert key m r.by_comp_type;
        by_typename = insert (type_name m) m r.by_typename;
      })

  unfoldable pub add_message_type : Register Message → String → Result Thrown (Register Message)
  unfolding register
  add_message_type r msg_type = do
    m ← or_throw (create_msg r.has_importer msg_type) (runtime_error unknown_type)
    key ← key_from_desc (descriptor m)
    register r m key

  unfoldable pub remove_message_type : Register Message → ℕ → ℕ → Register Message
  remove_message_type r component_id msg_type =
      elim (find (component_id, msg_type) r.by_comp_type) [
        | none ↦ r
        | some m ↦ record r {
          by_comp_type = erase (component_id, msg_type) r.by_comp_type;
          by_typename = erase (full_name (descriptor m)) r.by_typename;
        }
      ]

  unfoldable pub new_message_for : Register Message → ℕ → ℕ → Result Thrown Message
  new_message_for r component_id msg_type = do
    m ←
        or_throw (find (component_id, msg_type) r.by_comp_type)
          (runtime_error (not_registered component_id msg_type))
    ok (fresh m)

  -- A type that is not registered is made from the pools.
  unfoldable pub new_message_for_name : Register Message → String → Result Thrown Message
  new_message_for_name r name = elim (find name r.by_typename) [
    | none ↦ or_throw (create_msg r.has_importer name) (runtime_error type_not_registered)
    | some m ↦ ok (fresh m)
  ]

  -- `frame_header` and `message_header` are out parameters: what they held stays where `serialize`
  -- does not write. The size is assigned to a `uint32_t`.
  unfoldable pub serialize :
      ℕ → ℕ → Message → FrameHeader → Result Thrown (FrameHeader × MessageHeader × List ℕ)
  serialize component_id msg_type msg frame_header = do
    bytes ← or_throw (serialize_to_string msg) (runtime_error cannot_serialize)
    ok (
      record frame_header { payload_size = htonl ((message_header_size + length bytes) % 2 ^ 32) },
      record { component_id = htons component_id; msg_type = htons msg_type },
      bytes,
    )

  unfoldable pub deserialize :
      Register Message → FrameHeader → MessageHeader → List ℕ → Result Thrown Message
  deserialize r frame_header message_header bytes = do
    m ← new_message_for r (ntohs message_header.component_id) (ntohs message_header.msg_type)
    or_throw (parse_from_array m bytes (data_size frame_header)) (runtime_error parse_failed)

  -- The loop of the constructor over the message types of the proto files, in the order in which
  -- the files and their types are read. Types without `CompType` are passed over; a type that
  -- throws `std::logic_error` is recorded; any other exception leaves the constructor.
  unfoldable pub load_type : Register Message → Descriptor → Result Thrown (Register Message)
  load_type r desc = elim (comp_type desc) [
    | none ↦ ok r
    | some _ ↦ elim (add_message_type r (full_name desc)) [
      | ok r' ↦ ok r'
      | err (logic_error what) ↦
          ok (record r { failed_to_load = (full_name desc, what) ∷ r.failed_to_load })
      | err (runtime_error what) ↦ err (runtime_error what)
    ]
  ]

  unfoldable pub load_types : Register Message → List Descriptor → Result Thrown (Register Message)
  load_types r [] = ok r
  load_types r (desc ∷ rest) = load_type r desc >>= λ r'. load_types r' rest

  unfoldable pub init_proto_path : List Descriptor → Result Thrown (Register Message)
  init_proto_path types = load_types (record init { has_importer = true }) types
