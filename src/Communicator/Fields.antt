-- ===== src/Communicator/Fields.antt =====
-- Fields of messages for the rules: `pb-field-names`, `pb-field-type`, `pb-has-field`,
-- `pb-field-label`, `pb-field-value`, `pb-set-field` and `pb-field-is-list` of
-- src/libs/protobuf_clips/communicator.cpp. The reflection of protobuf and the values of CLIPS are
-- interfaces.
pub mod Copying
pub mod Lists
pub mod Appending
pub mod Extending
mod InMemory
mod InMemoryLaws
mod InMemoryLists
mod Examples
use at_work_central_factory.Common.{
  ℕ, zero, ◌-◌, ◌+◌, ◌%◌, ◌^◌, ltb, String, Bool, true, false, not, ◌&&◌, Option, none, some, List,
  [], ◌∷◌, map, if◌then◌else◌, Result, ok, err, ◌>>=◌, is_some,
}
use at_work_central_factory.Common.Int.{ℤ, pos, negsuc}

pub data FieldType : Type 0 where
  type_double type_float type_int64 type_uint64 type_int32 type_fixed64 type_fixed32 : FieldType
  type_bool type_string type_message type_bytes type_uint32 type_enum type_sfixed32 : FieldType
  type_sfixed64 type_sint32 type_sint64 type_group : FieldType

pub data Label : Type 0 where
  label_optional label_required label_repeated : Label

-- The types of the accessors of protobuf's `Reflection`
pub data Accessor : Type 0 where
  double float int64 uint64 int32 uint32 bool string message enum : Accessor

-- What is known of the numbers and the objects of the C++ side
pub record Types : Type 1 where
  pub Message : Type 0
  pub Field : Type 0
  pub EnumValue : Type 0
  pub Double : Type 0
  pub Float : Type 0
  pub Value : Type 0  -- CLIPS::Value

abbrev pub Accessed : Types → Accessor → Type 0
Accessed ty double = ty.Double
Accessed ty float = ty.Float
Accessed ty int64 = ℤ
Accessed ty uint64 = ℕ
Accessed ty int32 = ℤ
Accessed ty uint32 = ℕ
Accessed ty bool = Bool
Accessed ty string = String
Accessed ty message = ty.Message
Accessed ty enum = ty.EnumValue

-- Descriptors, and `GetDouble`, `SetDouble` and so on
pub record Reflection (ty : Types) : Type 0 where
  pub fields : ty.Message → List ty.Field
  pub name : ty.Field → String
  pub find_field : ty.Message → String → Option ty.Field
  pub field_type : ty.Field → FieldType
  pub field_label : ty.Field → Label
  pub has : ty.Message → ty.Field → Bool
  pub field_size : ty.Message → ty.Field → ℕ
  pub get : (a : Accessor) → ty.Message → ty.Field → Accessed ty a
  pub put : (a : Accessor) → ty.Message → ty.Field → Accessed ty a → ty.Message
  pub find_enum : ty.Field → String → Option ty.EnumValue
  pub enum_name : ty.EnumValue → String

-- Values of CLIPS. A conversion that throws `std::logic_error` is `none`.
pub record Clips (ty : Types) : Type 0 where
  pub of_double : ty.Double → ty.Value
  pub of_float : ty.Float → ty.Value
  pub of_integer : ℤ → ty.Value
  pub of_string : String → ty.Value
  pub of_symbol : String → ty.Value
  pub of_address : ty.Message → ty.Value
  pub as_double : ty.Value → Option ty.Double
  pub as_float : ty.Value → Option ty.Float
  pub as_integer : ty.Value → Option ℤ
  pub as_string : ty.Value → Option String
  pub as_address : ty.Value → Option ty.Message
  pub is_text : ty.Value → String → Bool  -- operator==

-- CLIPS has no truth values: the one that `CLIPS::Value` is given is taken for an `int`.
abbrev pub int_of_bool : Bool → ℤ
int_of_bool true = pos 1
int_of_bool false = pos 0

-- Conversions between integers: of a `uint64_t` to a `long int`, and of a `long int` to a `uint64_t`,
-- to a `uint32_t` and to an `int`.
abbrev pub signed64 : ℕ → ℤ
signed64 n = if ltb n (2 ^ 63) then pos n else negsuc (2 ^ 64 - 1 - n)

abbrev pub wrapped : ℕ → ℤ → ℕ
wrapped w (pos n) = n % 2 ^ w
wrapped w (negsuc n) = 2 ^ w - 1 - n % 2 ^ w

abbrev pub to_int32 : ℤ → ℤ
to_int32 z = at_work_central_factory.Common.Int.signed32 (wrapped 32 z)

abbrev pub type_symbol : FieldType → String
type_symbol type_double = "DOUBLE"
type_symbol type_float = "FLOAT"
type_symbol type_int64 = "INT64"
type_symbol type_uint64 = "UINT64"
type_symbol type_int32 = "INT32"
type_symbol type_fixed64 = "FIXED64"
type_symbol type_fixed32 = "FIXED32"
type_symbol type_bool = "BOOL"
type_symbol type_string = "STRING"
type_symbol type_message = "MESSAGE"
type_symbol type_bytes = "BYTES"
type_symbol type_uint32 = "UINT32"
type_symbol type_enum = "ENUM"
type_symbol type_sfixed32 = "SFIXED32"
type_symbol type_sfixed64 = "SFIXED64"
type_symbol type_sint32 = "SINT32"
type_symbol type_sint64 = "SINT64"
type_symbol type_group = "UNKNOWN"

abbrev pub label_symbol : Label → String
label_symbol label_optional = "OPTIONAL"
label_symbol label_required = "REQUIRED"
label_symbol label_repeated = "REPEATED"

abbrev pub is_message : FieldType → Bool
is_message type_message = true
is_message _ = false

abbrev pub is_repeated : Label → Bool
is_repeated label_repeated = true
is_repeated _ = false

-- `std::logic_error` for a field type without a case
pub data FieldError : Type 0 where
  unknown_field_type : FieldError

module _ {ty : Types} (refl_of : Reflection ty) (clips : Clips ty) where
  open refl_of use {
    fields, name, find_field, field_type, field_label, has, field_size, get, put, find_enum,
    enum_name,
  }
  open clips use {
    of_double, of_float, of_integer, of_string, of_symbol, of_address, as_double, as_float,
    as_integer, as_string, as_address, is_text,
  }

  -- A message pointer that is null or holds nothing is `none`.
  unfoldable pub pb_field_names : Option ty.Message → List ty.Value
  pb_field_names none = []
  pb_field_names (some m) = map (λ f. of_symbol (name f)) (fields m)

  -- The field of that name, or the symbol that says why there is none.
  abbrev pub with_field {ℓ} :
      {A : Type ℓ} → (ty.Value → A) → Option ty.Message → String → (ty.Message → ty.Field → A) → A
  with_field failed none field_name k = failed (of_symbol "INVALID-MESSAGE")
  with_field failed (some m) field_name k = elim (find_field m field_name) [
    | none ↦ failed (of_symbol "DOES-NOT-EXIST")
    | some f ↦ k m f
  ]

  unfoldable pub pb_field_type : Option ty.Message → String → ty.Value
  pb_field_type ptr field_name =
      with_field (λ v. v) ptr field_name (λ m f. of_symbol (type_symbol (field_type f)))

  unfoldable pub pb_has_field : Option ty.Message → String → Bool
  pb_has_field ptr field_name =
      with_field (λ v. false) ptr field_name
        (λ m f. if is_repeated (field_label f) then ltb 0 (field_size m f) else has m f)

  unfoldable pub pb_field_label : Option ty.Message → String → ty.Value
  pb_field_label ptr field_name =
      with_field (λ v. v) ptr field_name (λ m f. of_symbol (label_symbol (field_label f)))

  unfoldable pub pb_field_is_list : Option ty.Message → String → Bool
  pb_field_is_list ptr field_name =
      with_field (λ v. false) ptr field_name (λ m f. is_repeated (field_label f))

  -- The `switch` of `field_value`
  unfoldable pub value_of : FieldType → ty.Message → ty.Field → Result FieldError ty.Value
  value_of type_double m f = ok (of_double (get double m f))
  value_of type_float m f = ok (of_float (get float m f))
  value_of type_int64 m f = ok (of_integer (get int64 m f))
  value_of type_uint64 m f = ok (of_integer (signed64 (get uint64 m f)))
  value_of type_int32 m f = ok (of_integer (get int32 m f))
  value_of type_fixed64 m f = ok (of_integer (signed64 (get uint64 m f)))
  value_of type_fixed32 m f = ok (of_integer (pos (get uint32 m f)))
  value_of type_bool m f = ok (of_integer (int_of_bool (get bool m f)))
  value_of type_string m f = ok (of_string (get string m f))
  value_of type_message m f = ok (of_address (get message m f))
  value_of type_bytes m f = ok (of_string "bytes")
  value_of type_uint32 m f = ok (of_integer (pos (get uint32 m f)))
  value_of type_enum m f = ok (of_symbol (enum_name (get enum m f)))
  value_of type_sfixed32 m f = ok (of_integer (get int32 m f))
  value_of type_sfixed64 m f = ok (of_integer (get int64 m f))
  value_of type_sint32 m f = ok (of_integer (get int32 m f))
  value_of type_sint64 m f = ok (of_integer (get int64 m f))
  value_of type_group m f = err unknown_field_type

  unfoldable pub pb_field_value : Option ty.Message → String → Result FieldError ty.Value
  pb_field_value ptr field_name = with_field ok ptr field_name (λ m f.
      if not (is_message (field_type f)) && not (has m f)
      then ok (of_symbol "NOT-SET")
      else value_of (field_type f) m f)

  -- A value that does not convert throws, and leaves the message as it is.
  abbrev pub put_if : (a : Accessor) → ty.Message → ty.Field → Option (Accessed ty a) → ty.Message
  put_if a m f none = m
  put_if a m f (some x) = put a m f x

  abbrev pub convert {ℓ κ} : {A : Type ℓ} {B : Type κ} → (A → B) → Option A → Option B
  convert g none = none
  convert g (some a) = some (g a)

  abbrev pub enum_of : ty.Field → Option String → Option ty.EnumValue
  enum_of f none = none
  enum_of f (some n) = find_enum f n

  -- The `switch` of `set_field`; a field type without a case throws inside the `try`.
  unfoldable pub put_value : FieldType → ty.Message → ty.Field → ty.Value → ty.Message
  put_value type_double m f v = put_if double m f (as_double v)
  put_value type_float m f v = put_if float m f (as_float v)
  put_value type_sfixed64 m f v = put_if int64 m f (as_integer v)
  put_value type_sint64 m f v = put_if int64 m f (as_integer v)
  put_value type_int64 m f v = put_if int64 m f (as_integer v)
  put_value type_fixed64 m f v = put_if uint64 m f (convert (wrapped 64) (as_integer v))
  put_value type_uint64 m f v = put_if uint64 m f (convert (wrapped 64) (as_integer v))
  put_value type_sfixed32 m f v = put_if int32 m f (convert to_int32 (as_integer v))
  put_value type_sint32 m f v = put_if int32 m f (convert to_int32 (as_integer v))
  put_value type_int32 m f v = put_if int32 m f (convert to_int32 (as_integer v))
  put_value type_bool m f v = put bool m f (is_text v "TRUE")
  put_value type_string m f v = put_if string m f (as_string v)
  put_value type_message m f v = put_if message m f (as_address v)
  put_value type_bytes m f v = m
  put_value type_fixed32 m f v = put_if uint32 m f (convert (wrapped 32) (as_integer v))
  put_value type_uint32 m f v = put_if uint32 m f (convert (wrapped 32) (as_integer v))
  put_value type_enum m f v = put_if enum m f (enum_of f (as_string v))
  put_value type_group m f v = m

  -- The message that the pointer then holds.
  unfoldable pub pb_set_field : Option ty.Message → String → ty.Value → Option ty.Message
  pb_set_field none field_name v = none
  pb_set_field (some m) field_name v = elim (find_field m field_name) [
    | none ↦ some m
    | some f ↦ some (put_value (field_type f) m f v)
  ]
