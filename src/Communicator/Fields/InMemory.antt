-- ===== src/Communicator/Fields/InMemory.antt =====
-- A reflection of messages with three fields, and values, that keep in memory what they are given: an
-- instance of the interfaces of the fields of src/libs/protobuf_clips/communicator.cpp.
use at_work_central_factory.Common.{
  ◌++◌, length, if◌then◌else◌, ℕ, ◌%◌, ◌^◌, String, Bool, true, false, Option, none, some, List, [],
  ◌∷◌, str_eq,
}
use at_work_central_factory.Common.Dict.{string_key}
use at_work_central_factory.Common.Int.{ℤ, pos}
use at_work_central_factory.Communicator.Fields.{
  Types, Accessor, double, float, int64, uint64, int32, uint32, bool, string, message, enum,
  Accessed, Reflection, Clips, FieldType, type_uint64, type_bool, type_message, label_optional,
  label_repeated, to_int32, wrapped, signed64,
}

pub data Light : Type 0 where
  red green : Light

pub data Scalar : Type 0 where
  a_double a_float a_uint64 a_uint32 : ℕ → Scalar
  an_int64 an_int32 : ℤ → Scalar
  a_bool : Bool → Scalar
  a_string : String → Scalar
  an_enum : Light → Scalar

-- The values put in a message, the last one first.
pub data Msg : Type 0 where
  blank : Msg
  with_scalar : String → Scalar → Msg → Msg
  with_message : String → Msg → Msg → Msg

abbrev pub scalar : String → Msg → Option Scalar
scalar n blank = none
scalar n (with_scalar k s m) = if str_eq k n then some s else scalar n m
scalar n (with_message k x m) = if str_eq k n then none else scalar n m

abbrev pub inner : String → Msg → Msg
inner n blank = blank
inner n (with_scalar k s m) = if str_eq k n then blank else inner n m
inner n (with_message k x m) = if str_eq k n then x else inner n m

abbrev pub is_set : String → Msg → Bool
is_set n blank = false
is_set n (with_scalar k s m) = if str_eq k n then true else is_set n m
is_set n (with_message k x m) = if str_eq k n then true else is_set n m

pub data Value : Type 0 where
  v_double v_float : ℕ → Value
  v_integer : ℤ → Value
  v_string v_symbol : String → Value
  v_address : Msg → Value

abbrev pub ty : Types
ty = record {
  Message = Msg;
  Field = String × FieldType;
  EnumValue = Light;
  Double = ℕ;
  Float = ℕ;
  Value = Value;
}

abbrev pub double_of : Option Scalar → ℕ
double_of (some (a_double x)) = x
double_of _ = 0

abbrev pub float_of : Option Scalar → ℕ
float_of (some (a_float x)) = x
float_of _ = 0

abbrev pub int64_of : Option Scalar → ℤ
int64_of (some (an_int64 x)) = signed64 (wrapped 64 x)
int64_of _ = pos 0

abbrev pub uint64_of : Option Scalar → ℕ
uint64_of (some (a_uint64 x)) = x % 2 ^ 64
uint64_of _ = 0

abbrev pub int32_of : Option Scalar → ℤ
int32_of (some (an_int32 x)) = to_int32 x
int32_of _ = pos 0

abbrev pub uint32_of : Option Scalar → ℕ
uint32_of (some (a_uint32 x)) = x % 2 ^ 32
uint32_of _ = 0

abbrev pub bool_of : Option Scalar → Bool
bool_of (some (a_bool x)) = x
bool_of _ = false

abbrev pub string_of : Option Scalar → String
string_of (some (a_string x)) = x
string_of _ = ""

abbrev pub light_of : Option Scalar → Light
light_of (some (an_enum x)) = x
light_of _ = red

abbrev pub getting : (a : Accessor) → Msg → String × FieldType → Accessed ty a
getting double m f = double_of (scalar f.0 m)
getting float m f = float_of (scalar f.0 m)
getting int64 m f = int64_of (scalar f.0 m)
getting uint64 m f = uint64_of (scalar f.0 m)
getting int32 m f = int32_of (scalar f.0 m)
getting uint32 m f = uint32_of (scalar f.0 m)
getting bool m f = bool_of (scalar f.0 m)
getting string m f = string_of (scalar f.0 m)
getting message m f = inner f.0 m
getting enum m f = light_of (scalar f.0 m)

abbrev pub putting : (a : Accessor) → Msg → String × FieldType → Accessed ty a → Msg
putting double m f x = with_scalar f.0 (a_double x) m
putting float m f x = with_scalar f.0 (a_float x) m
putting int64 m f x = with_scalar f.0 (an_int64 x) m
putting uint64 m f x = with_scalar f.0 (a_uint64 x) m
putting int32 m f x = with_scalar f.0 (an_int32 x) m
putting uint32 m f x = with_scalar f.0 (a_uint32 x) m
putting bool m f x = with_scalar f.0 (a_bool x) m
putting string m f x = with_scalar f.0 (a_string x) m
putting message m f x = with_message f.0 x m
putting enum m f x = with_scalar f.0 (an_enum x) m

-- The entries of a field in the order in which they were put.
pub data Entry : Type 0 where
  of_scalar : Scalar → Entry
  of_message : Msg → Entry

abbrev pub entries : String → Msg → List Entry
entries n blank = []
entries n (with_scalar k s m) =
    let rest = entries n m in if str_eq k n then rest ++ of_scalar s ∷ [] else rest
entries n (with_message k x m) =
    let rest = entries n m in if str_eq k n then rest ++ of_message x ∷ [] else rest

abbrev pub schema : List (String × FieldType)
schema =
    ("seq", type_uint64)
    ∷ ("pose", type_message)
    ∷ ("ids", type_uint64)
    ∷ ("is_logging", type_bool)
    ∷ []

abbrev pub field_named : String → List (String × FieldType) → Option (String × FieldType)
field_named n [] = none
field_named n (f ∷ fs) = if str_eq f.0 n then some f else field_named n fs

abbrev pub light_name : Light → String
light_name red = "RED"
light_name green = "GREEN"

abbrev pub light_named : String → Option Light
light_named n = if str_eq n "RED" then some red else if str_eq n "GREEN" then some green else none

abbrev pub in_memory : Reflection ty
in_memory = record {
  fields = λ m. schema;
  name = λ f. f.0;
  find_field = λ m n. field_named n schema;
  field_type = λ f. f.1;
  field_label = λ f. if str_eq f.0 "ids" then label_repeated else label_optional;
  has = λ m f. is_set f.0 m;
  field_size = λ m f. length (entries f.0 m);
  get = getting;
  put = putting;
  find_enum = λ f n. light_named n;
  enum_name = light_name;
}

abbrev pub to_double : Value → Option ℕ
to_double (v_double x) = some x
to_double _ = none

abbrev pub to_float : Value → Option ℕ
to_float (v_float x) = some x
to_float _ = none

abbrev pub to_integer : Value → Option ℤ
to_integer (v_integer z) = some z
to_integer _ = none

abbrev pub to_text : Value → Option String
to_text (v_string s) = some s
to_text (v_symbol s) = some s
to_text _ = none

abbrev pub to_address : Value → Option Msg
to_address (v_address m) = some m
to_address _ = none

abbrev pub same_text : Option String → String → Bool
same_text none t = false
same_text (some s) t = str_eq s t

abbrev pub values : Clips ty
values = record {
  of_double = v_double;
  of_float = v_float;
  of_integer = v_integer;
  of_string = v_string;
  of_symbol = v_symbol;
  of_address = v_address;
  as_double = to_double;
  as_float = to_float;
  as_integer = to_integer;
  as_string = to_text;
  as_address = to_address;
  is_text = λ v t. same_text (to_text v) t;
}
