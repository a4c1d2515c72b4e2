-- ===== src/Communicator/Fields/Lists.antt =====
-- Repeated fields for the rules: `pb-field-list` and `pb-add-list` of
-- src/libs/protobuf_clips/communicator.cpp.
use at_work_central_factory.Common.{
  ℕ, zero, suc, ◌+◌, ◌≡◌, String, true, Option, none, some, List, [], ◌∷◌, length, if◌then◌else◌,
  Result, ok, err, ◌>>=◌, >>=-eq-ok, arith,
}
use at_work_central_factory.Common.Int.{pos}
use at_work_central_factory.Communicator.Fields.{
  int_of_bool, Types, Accessor, double, float, int64, uint64, int32, uint32, bool, string, message,
  enum, Accessed, Reflection, Clips, FieldType, type_double, type_float, type_int64, type_uint64,
  type_int32, type_fixed64, type_fixed32, type_bool, type_string, type_message, type_bytes,
  type_uint32, type_enum, type_sfixed32, type_sfixed64, type_sint32, type_sint64, type_group,
  FieldError, unknown_field_type, signed64, wrapped, to_int32, is_repeated, convert, enum_of,
  with_field, pb_field_value,
}

-- `GetRepeatedDouble`, `AddDouble` and so on
pub record Repeated (ty : Types) : Type 0 where
  pub get_at : (a : Accessor) → ty.Message → ty.Field → ℕ → Accessed ty a
  pub add : (a : Accessor) → ty.Message → ty.Field → Accessed ty a → ty.Message

module _ {ty : Types} (refl_of : Reflection ty) (rep : Repeated ty) (clips : Clips ty) where
  open refl_of use {find_field, field_type, field_label, field_size, enum_name}
  open rep use {get_at, add}
  open clips use {
    of_double, of_float, of_integer, of_string, of_symbol, of_address, as_double, as_float,
    as_integer, as_string, as_address, is_text,
  }

  -- The `switch` of `field_list`, for entry `i`
  unfoldable pub value_at : FieldType → ty.Message → ty.Field → ℕ → Result FieldError ty.Value
  value_at type_double m f i = ok (of_double (get_at double m f i))
  value_at type_float m f i = ok (of_float (get_at float m f i))
  value_at type_uint64 m f i = ok (of_integer (signed64 (get_at uint64 m f i)))
  value_at type_fixed64 m f i = ok (of_integer (signed64 (get_at uint64 m f i)))
  value_at type_uint32 m f i = ok (of_integer (pos (get_at uint32 m f i)))
  value_at type_fixed32 m f i = ok (of_integer (pos (get_at uint32 m f i)))
  value_at type_bool m f i = ok (of_integer (int_of_bool (get_at bool m f i)))
  value_at type_string m f i = ok (of_string (get_at string m f i))
  value_at type_message m f i = ok (of_address (get_at message m f i))
  value_at type_bytes m f i = ok (of_symbol "BYTES")
  value_at type_enum m f i = ok (of_symbol (enum_name (get_at enum m f i)))
  value_at type_sfixed32 m f i = ok (of_integer (get_at int32 m f i))
  value_at type_int32 m f i = ok (of_integer (get_at int32 m f i))
  value_at type_sint32 m f i = ok (of_integer (get_at int32 m f i))
  value_at type_sfixed64 m f i = ok (of_integer (get_at int64 m f i))
  value_at type_sint64 m f i = ok (of_integer (get_at int64 m f i))
  value_at type_int64 m f i = ok (of_integer (get_at int64 m f i))
  value_at type_group m f i = err unknown_field_type

  unfoldable pub values_from : ty.Message → ty.Field → ℕ → ℕ → Result FieldError (List ty.Value)
  values_from m f i zero = ok []
  values_from m f i (suc n) =
      let rest = values_from m f (i + 1) n in
      value_at (field_type f) m f i >>= λ v. rest >>= λ vs. ok (v ∷ vs)

  -- A field that is not repeated gives the one value of `field_value`.
  unfoldable pub pb_field_list : Option ty.Message → String → Result FieldError (List ty.Value)
  unfolding values_from
  pb_field_list ptr field_name =
      with_field refl_of clips (λ v. ok (v ∷ [])) ptr field_name
        (λ m f.
          if is_repeated (field_label f)
          then values_from m f 0 (field_size m f)
          else (pb_field_value refl_of clips ptr field_name >>= λ v. ok (v ∷ [])))

  abbrev pub add_if : (a : Accessor) → ty.Message → ty.Field → Option (Accessed ty a) → ty.Message
  add_if a m f none = m
  add_if a m f (some x) = add a m f x

  -- The `switch` of `add_list`
  unfoldable pub add_value : FieldType → ty.Message → ty.Field → ty.Value → ty.Message
  add_value type_double m f v = add_if double m f (as_double v)
  add_value type_float m f v = add_if float m f (as_float v)
  add_value type_sfixed64 m f v = add_if int64 m f (as_integer v)
  add_value type_sint64 m f v = add_if int64 m f (as_integer v)
  add_value type_int64 m f v = add_if int64 m f (as_integer v)
  add_value type_fixed64 m f v =
      add_if uint64 m f (convert refl_of clips (wrapped 64) (as_integer v))
  add_value type_uint64 m f v =
      add_if uint64 m f (convert refl_of clips (wrapped 64) (as_integer v))
  add_value type_sfixed32 m f v = add_if int32 m f (convert refl_of clips to_int32 (as_integer v))
  add_value type_sint32 m f v = add_if int32 m f (convert refl_of clips to_int32 (as_integer v))
  add_value type_int32 m f v = add_if int32 m f (convert refl_of clips to_int32 (as_integer v))
  add_value type_bool m f v = add bool m f (is_text v "TRUE")
  add_value type_string m f v = add_if string m f (as_string v)
  add_value type_message m f v = add_if message m f (as_address v)
  add_value type_bytes m f v = m
  add_value type_fixed32 m f v =
      add_if uint32 m f (convert refl_of clips (wrapped 32) (as_integer v))
  add_value type_uint32 m f v =
      add_if uint32 m f (convert refl_of clips (wrapped 32) (as_integer v))
  add_value type_enum m f v = add_if enum m f (enum_of refl_of clips f (as_string v))
  add_value type_group m f v = m

  unfoldable pub pb_add_list : Option ty.Message → String → ty.Value → Option ty.Message
  pb_add_list none field_name v = none
  pb_add_list (some m) field_name v = elim (find_field m field_name) [
    | none ↦ some m
    | some f ↦ some (add_value (field_type f) m f v)
  ]

  length-values_from :
      (m : ty.Message) (f : ty.Field) (i n : ℕ) (vs : List ty.Value)
      → values_from m f i n ≡ ok vs
      → length vs ≡ n
  unfolding values_from
  length-values_from m f i zero vs h = ground arith
  length-values_from m f i (suc n) vs h =
      let (v, here, h1) = >>=-eq-ok (value_at (field_type f) m f i) _ h in
      let (ws, later, h2) = >>=-eq-ok (values_from m f (i + 1) n) _ h1 in
      ground (arith, length-values_from m f (i + 1) n ws later)

  -- The list of a repeated field has one value for each of its entries.
  pub length-pb_field_list :
      (m : ty.Message) (field_name : String) (f : ty.Field) (vs : List ty.Value)
      → find_field m field_name ≡ some f
      → is_repeated (field_label f) ≡ true
      → pb_field_list (some m) field_name ≡ ok vs
      → length vs ≡ field_size m f
  unfolding pb_field_list
  length-pb_field_list m field_name f vs there many h =
      length-values_from m f 0 (field_size m f) vs
        (rw (there, many, pb_field_list, with_field) at h)
