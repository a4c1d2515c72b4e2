-- ===== src/Register/Examples.antt =====
-- Tests of the message register, and its theorems at concrete registers.
use at_work_central_factory.Common.{
  if◌then◌else◌, str_eq, ℕ, ◌+◌, ◌≡◌, ◌≢◌, refl, String, Bool, true, false, Option, none, some, inl,
  inr, List, [], ◌∷◌, ◌++◌, Result, ok, err, arith,
}
use at_work_central_factory.Common.Int.{pos}
use at_work_central_factory.Common.Dict.{insert, string_key}
use at_work_central_factory.Common.Bytes.{htons, htonl}
use at_work_central_factory.Wire.{FrameHeader}
use at_work_central_factory.Protobuf.Plain.{
  Descriptor, Message, plain, plain-ProtobufLaws, pool_find, beacon, order,
}
use at_work_central_factory.Register.{
  Register, key_type_key, Reason, init, key_from_desc, create_msg, add_message_type, register,
  remove_message_type, serialize, deserialize, load_types, load_type,
}
use at_work_central_factory.Register.Invariant.{
  Inv, add_message_type-Inv, remove_message_type-Inv, init-Inv,
}
use at_work_central_factory.Register.Codec.{deserialize-serialize}
use at_work_central_factory.Register.Loading.{Accounted, total, typed, load_types-Accounted}

abbrev pub pb : at_work_central_factory.Protobuf.Protobuf Descriptor Message
pb = plain (beacon ∷ order ∷ [])

abbrev beacon_message : Message
beacon_message = record { desc = beacon; bytes = [] }

abbrev with_beacon : Register Message
with_beacon = record {
  has_importer = false;
  by_comp_type = ((2000, 1), beacon_message) ∷ [];
  by_typename = ("llsf_msgs.BeaconSignal", beacon_message) ∷ [];
  failed_to_load = [];
}

add_beacon : add_message_type pb init "llsf_msgs.BeaconSignal" ≡ ok with_beacon
unfolding add_message_type create_msg key_from_desc register init insert pool_find
add_beacon = refl

with_beacon-Inv : Inv pb (plain-ProtobufLaws _) with_beacon
with_beacon-Inv =
    add_message_type-Inv pb (plain-ProtobufLaws _) init with_beacon _
      (init-Inv pb (plain-ProtobufLaws _)) add_beacon

add_message_type-Inv_example : Inv pb (plain-ProtobufLaws _) with_beacon
add_message_type-Inv_example =
    add_message_type-Inv pb (plain-ProtobufLaws (beacon ∷ order ∷ [])) init with_beacon
      "llsf_msgs.BeaconSignal" (init-Inv pb (plain-ProtobufLaws _)) add_beacon

remove_message_type-Inv_example :
    Inv pb (plain-ProtobufLaws _) (remove_message_type pb with_beacon 2000 1)
remove_message_type-Inv_example =
    remove_message_type-Inv pb (plain-ProtobufLaws (beacon ∷ order ∷ [])) with_beacon 2000 1
      with_beacon-Inv

abbrev sent_beacon : Message
sent_beacon = record { desc = beacon; bytes = 8 ∷ 3 ∷ [] }

abbrev empty_header : FrameHeader
empty_header = record {
  header_version = 2;
  cipher = 0;
  reserved_2 = 0;
  reserved_3 = 0;
  payload_size = 0;
}

abbrev beacon_header : FrameHeader
beacon_header = record empty_header { payload_size = 0x0600_0000 }

serialized :
    serialize pb 2000 1 sent_beacon empty_header
    ≡ ok (beacon_header, record { component_id = 0xd007; msg_type = 0x100 }, 8 ∷ 3 ∷ [])
unfolding serialize htons htonl
serialized = refl

deserialize-serialize_example :
    deserialize pb with_beacon beacon_header
      (record { component_id = 0xd007; msg_type = 0x100 })
      (8 ∷ 3 ∷ 99 ∷ [])
    ≡ ok sent_beacon
deserialize-serialize_example =
    deserialize-serialize pb (plain-ProtobufLaws (beacon ∷ order ∷ [])) with_beacon 2000 1
      beacon_message sent_beacon empty_header beacon_header
      (record { component_id = 0xd007; msg_type = 0x100 }) (8 ∷ 3 ∷ []) (99 ∷ []) (omega arith)
      (omega arith) refl refl serialized (omega arith)

made_beacon : create_msg pb false "llsf_msgs.BeaconSignal" ≡ some beacon_message
unfolding create_msg pool_find
made_beacon = refl

keyed_beacon : key_from_desc pb beacon ≡ ok (2000, 1)
unfolding key_from_desc
keyed_beacon = refl

abbrev no_type : Descriptor
no_type = record { name = "llsf_msgs.Pose2D"; comp = none }

abbrev bad_type : Descriptor
bad_type = record {
  name = "llsf_msgs.Bad";
  comp = some (record { comp_id = some (pos 70000); msg_type = some (pos 1) });
}

abbrev pb_bad : at_work_central_factory.Protobuf.Protobuf Descriptor Message
pb_bad = plain (beacon ∷ bad_type ∷ [])

abbrev after_load : Register Message
after_load = record with_beacon { failed_to_load = ("llsf_msgs.Bad", Reason.invalid_comp_id) ∷ [] }

loaded : load_types pb_bad init (no_type ∷ bad_type ∷ beacon ∷ []) ≡ ok after_load
unfolding load_types load_type add_message_type create_msg key_from_desc register init insert
    pool_find
loaded = refl

load_types-Accounted_example :
    at_work_central_factory.Common.All
      (Accounted pb_bad after_load)
      (no_type ∷ bad_type ∷ beacon ∷ [])
    × (◌≡◌ {A = ℕ}
        (total pb_bad after_load)
        (total pb_bad init + typed pb_bad (no_type ∷ bad_type ∷ beacon ∷ [])))
load_types-Accounted_example =
    load_types-Accounted pb_bad (no_type ∷ bad_type ∷ beacon ∷ []) init after_load loaded
