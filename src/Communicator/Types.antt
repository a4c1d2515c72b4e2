-- ===== src/Communicator/Types.antt =====
-- Message types for the rules: `pb-register-type` and `pb-create` of
-- src/libs/protobuf_clips/communicator.cpp.
use at_work_central_factory.Common.{String, Bool, true, false, Option, none, some, Result, ok, err}
use at_work_central_factory.Protobuf.{Protobuf}
use at_work_central_factory.Register.{
  Register, Thrown, runtime_error, logic_error, add_message_type, new_message_for_name,
}
use at_work_central_factory.Communicator.{Communicator}

-- A pointer to nothing is `none`.
created : {Message : Type 0} → Result Thrown Message → Result Thrown (Option Message)
created (ok m) = ok (some m)
created (err (runtime_error what)) = ok none
created (err (logic_error what)) = err (logic_error what)

module _ {Descriptor Message Server Client Peer : Type 0} (pb : Protobuf Descriptor Message) where
  -- `std::runtime_error` is caught; a type without its numbers throws `std::logic_error`.
  registered :
      Communicator Message Server Client Peer
      → Result Thrown (Register Message)
      → Result Thrown (Communicator Message Server Client Peer × Bool)
  registered c (ok mr) = ok (record c { message_register = mr }, true)
  registered c (err (runtime_error what)) = ok (c, false)
  registered c (err (logic_error what)) = err (logic_error what)

  unfoldable pub pb_register_type :
      String
      → Communicator Message Server Client Peer
      → Result Thrown (Communicator Message Server Client Peer × Bool)
  unfolding registered
  pb_register_type full_name c = registered c (add_message_type pb c.message_register full_name)

  unfoldable pub pb_create :
      String → Communicator Message Server Client Peer → Result Thrown (Option Message)
  unfolding created
  pb_create full_name c = created (new_message_for_name pb c.message_register full_name)
