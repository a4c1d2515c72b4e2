-- ===== src/Protobuf.antt =====
-- The protobuf library, which the repository links: descriptors, messages and their codecs, as
-- an interface over the types of descriptors and messages, with the documented behaviour that the
-- code relies on.
pub mod Plain
use at_work_central_factory.Common.{ℕ, ◌≡◌, String, Option, some, List, ◌++◌, length}
use at_work_central_factory.Common.Int.{ℤ, pos}

-- The values of the `CompType` enum of a message type, where it declares them.
pub record CompType : Type 0 where
  pub comp_id : Option ℤ
  pub msg_type : Option ℤ

pub record Protobuf (Descriptor Message : Type 0) : Type 0 where
  pub full_name : Descriptor → String
  pub comp_type : Descriptor → Option CompType  -- FindEnumTypeByName("CompType")
  pub find_generated : String → Option Descriptor  -- generated_pool()
  pub find_imported : String → Option Descriptor  -- pb_importer_->pool()
  pub prototype : Descriptor → Message  -- GetPrototype(desc)->New()
  pub descriptor : Message → Descriptor
  pub type_name : Message → String
  pub fresh : Message → Message  -- New()
  pub serialize_to_string : Message → Option (List ℕ)
  pub parse_from_array : Message → List ℕ → ℤ → Option Message

module _ {Descriptor Message : Type 0} (pb : Protobuf Descriptor Message) where
  open pb use {
    full_name, find_generated, find_imported, prototype, descriptor, type_name, fresh,
    serialize_to_string, parse_from_array,
  }

  -- What its documentation says of these.
  pub record ProtobufLaws : Type 0 where
    pub type_name_full : (m : Message) → type_name m ≡ full_name (descriptor m)
    pub generated_name : (n : String) (d : Descriptor) → find_generated n ≡ some d → full_name d ≡ n
    pub imported_name : (n : String) (d : Descriptor) → find_imported n ≡ some d → full_name d ≡ n
    pub descriptor-prototype : (d : Descriptor) → descriptor (prototype d) ≡ d
    pub descriptor-fresh : (m : Message) → descriptor (fresh m) ≡ descriptor m
    -- A message of the same type parses what another one serialized to itself.
    pub parse-serialize :
        (p m : Message) (bytes rest : List ℕ)
        → descriptor p ≡ descriptor m
        → serialize_to_string m ≡ some bytes
        → parse_from_array p (bytes ++ rest) (pos (length bytes)) ≡ some m
