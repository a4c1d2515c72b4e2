-- ===== src/Communicator/Fields/Examples.antt =====
-- Tests of the fields of messages, and the copying of one.
use at_work_central_factory.Common.{true, [], ◌∷◌, ◌-◌, ◌^◌, ◌≡◌, refl, some, ok}
use at_work_central_factory.Common.Dict.{string_key}
use at_work_central_factory.Common.Int.{pos, negsuc}
use at_work_central_factory.Communicator.Fields.{
  type_uint64, type_bool, pb_field_value, pb_set_field, value_of,
}
use at_work_central_factory.Communicator.Fields.Lists.{
  pb_field_list, pb_add_list, values_from, value_at,
}
use at_work_central_factory.Communicator.Fields.Extending.{pb_field_list-pb_add_list}
use at_work_central_factory.Communicator.Fields.InMemoryLists.{
  in_memory_lists, in_memory_repeated_laws,
}
use at_work_central_factory.Communicator.Fields.Copying.{
  pb_field_value-pb_set_field, pb_field_value-pb_set_field_bool,
}
use at_work_central_factory.Communicator.Fields.InMemory.{
  in_memory, values, Msg, blank, with_scalar, a_uint64, a_bool, v_integer,
}
use at_work_central_factory.Communicator.Fields.InMemoryLaws.{in_memory_laws}

-- A sequence number above the largest `long int`
abbrev beacon : Msg
beacon = with_scalar "seq" (a_uint64 (2 ^ 64 - 3)) blank

number_read : pb_field_value in_memory values (some beacon) "seq" ≡ ok (v_integer (negsuc 2))
unfolding pb_field_value value_of
number_read = refl

pb_field_value-pb_set_field_example :
    pb_field_value in_memory values
      (pb_set_field in_memory values (some blank) "seq" (v_integer (negsuc 2)))
      "seq"
    ≡ ok (v_integer (negsuc 2))
pb_field_value-pb_set_field_example =
    pb_field_value-pb_set_field in_memory values in_memory_laws blank beacon "seq"
      ("seq", type_uint64) (v_integer (negsuc 2)) refl refl (λ e. cc) (λ e. cc) refl number_read

-- A truth value
abbrev logging : Msg
logging = with_scalar "is_logging" (a_bool true) blank

logging_read : pb_field_value in_memory values (some logging) "is_logging" ≡ ok (v_integer (pos 1))
unfolding pb_field_value value_of
logging_read = refl

pb_field_value-pb_set_field_bool_example :
    pb_field_value in_memory values
      (pb_set_field in_memory values (some blank) "is_logging" (v_integer (pos 1)))
      "is_logging"
    ≡ ok (v_integer (pos 0))
pb_field_value-pb_set_field_bool_example =
    pb_field_value-pb_set_field_bool in_memory values in_memory_laws blank logging "is_logging"
      ("is_logging", type_bool) (v_integer (pos 1)) refl refl refl refl logging_read

-- Two lists of numbers
abbrev one_id : Msg
one_id = with_scalar "ids" (a_uint64 7) blank

abbrev two_ids : Msg
two_ids = with_scalar "ids" (a_uint64 9) (with_scalar "ids" (a_uint64 8) blank)

one_id_list :
    pb_field_list in_memory in_memory_lists values (some one_id) "ids" ≡ ok (v_integer (pos 7) ∷ [])
unfolding pb_field_list values_from value_at
one_id_list = refl

two_ids_list :
    pb_field_list in_memory in_memory_lists values (some two_ids) "ids"
    ≡ ok (v_integer (pos 8) ∷ v_integer (pos 9) ∷ [])
unfolding pb_field_list values_from value_at
two_ids_list = refl

pb_field_list-pb_add_list_example :
    pb_field_list in_memory in_memory_lists values
      (pb_add_list in_memory in_memory_lists values (some one_id) "ids" (v_integer (pos 9)))
      "ids"
    ≡ ok (v_integer (pos 7) ∷ v_integer (pos 9) ∷ [])
pb_field_list-pb_add_list_example =
    pb_field_list-pb_add_list in_memory in_memory_lists values in_memory_laws
      in_memory_repeated_laws one_id two_ids "ids" ("ids", type_uint64) (v_integer (pos 7) ∷ [])
      (v_integer (pos 8) ∷ v_integer (pos 9) ∷ []) 1 (v_integer (pos 9)) refl refl refl (λ e. cc)
      (λ e. cc) one_id_list two_ids_list refl
