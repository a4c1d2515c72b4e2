-- ===== src/Communicator/Fields/InMemoryLaws.antt =====
-- The laws that the reflection in memory has, which the interfaces of the fields of
-- src/libs/protobuf_clips/communicator.cpp ask for.
use at_work_central_factory.Common.{
  ◌^◌, ◌<◌, ◌≡◌, refl, ◌∙◌, ap, String, true, Option, none, some, arith,
}
use at_work_central_factory.Common.Dict.{string_key, beq_refl}
use at_work_central_factory.Common.Int.{ℤ, pos, negsuc}
use at_work_central_factory.Communicator.Fields.{
  Accessor, double, float, int64, uint64, int32, uint32, bool, string, message, enum, Accessed,
  FieldType, to_int32, wrapped, signed64,
}
use at_work_central_factory.Communicator.Fields.Copying.{Fits, FieldLaws}
use at_work_central_factory.Communicator.Fields.InMemory.{
  red, green, a_double, a_float, an_int64, a_uint64, an_int32, a_uint32, Light, Scalar, a_bool,
  a_string, an_enum, Msg, with_scalar, scalar, is_set, ty, double_of, float_of, int64_of, uint64_of,
  int32_of, uint32_of, bool_of, string_of, light_of, getting, putting, light_name, light_named,
  in_memory, values,
}

scalar_self : (n : String) (s : Scalar) (m : Msg) → scalar n (with_scalar n s m) ≡ some s
scalar_self n s m = rw (beq_refl n) refl

getting-putting :
    (a : Accessor) (m : Msg) (f : String × FieldType) (x : Accessed ty a)
    → Fits ty a x
    → getting a (putting a m f x) f ≡ x
getting-putting double m f x h = ap double_of (scalar_self f.0 (a_double x) m)
getting-putting float m f x h = ap float_of (scalar_self f.0 (a_float x) m)
getting-putting int64 m f x h = ap int64_of (scalar_self f.0 (an_int64 x) m) ∙ h
getting-putting uint64 m f x h = ap uint64_of (scalar_self f.0 (a_uint64 x) m) ∙ omega arith
getting-putting int32 m f x h = ap int32_of (scalar_self f.0 (an_int32 x) m) ∙ h
getting-putting uint32 m f x h = ap uint32_of (scalar_self f.0 (a_uint32 x) m) ∙ omega arith
getting-putting bool m f x h = ap bool_of (scalar_self f.0 (a_bool x) m)
getting-putting string m f x h = ap string_of (scalar_self f.0 (a_string x) m)
getting-putting message m f x h = rw (beq_refl f.0) refl
getting-putting enum m f x h = ap light_of (scalar_self f.0 (an_enum x) m)

signed64_again : (z : ℤ) → signed64 (wrapped 64 (signed64 (wrapped 64 z))) ≡ signed64 (wrapped 64 z)
signed64_again (pos n) = ground arith
signed64_again (negsuc n) = ground arith

to_int32_again : (z : ℤ) → to_int32 (to_int32 z) ≡ to_int32 z
to_int32_again (pos n) = ground arith
to_int32_again (negsuc n) = ground arith

pub int64_range : (o : Option Scalar) → signed64 (wrapped 64 (int64_of o)) ≡ int64_of o
int64_range none = refl
int64_range (some (a_double x)) = refl
int64_range (some (a_float x)) = refl
int64_range (some (a_uint64 x)) = refl
int64_range (some (a_uint32 x)) = refl
int64_range (some (an_int64 x)) = signed64_again x
int64_range (some (an_int32 x)) = refl
int64_range (some (a_bool x)) = refl
int64_range (some (a_string x)) = refl
int64_range (some (an_enum x)) = refl

pub int32_range : (o : Option Scalar) → to_int32 (int32_of o) ≡ int32_of o
int32_range none = refl
int32_range (some (a_double x)) = refl
int32_range (some (a_float x)) = refl
int32_range (some (a_uint64 x)) = refl
int32_range (some (a_uint32 x)) = refl
int32_range (some (an_int64 x)) = refl
int32_range (some (an_int32 x)) = to_int32_again x
int32_range (some (a_bool x)) = refl
int32_range (some (a_string x)) = refl
int32_range (some (an_enum x)) = refl

pub uint64_range : (o : Option Scalar) → uint64_of o < 2 ^ 64
uint64_range none = omega arith
uint64_range (some (a_double x)) = omega arith
uint64_range (some (a_float x)) = omega arith
uint64_range (some (a_uint64 x)) = omega arith
uint64_range (some (a_uint32 x)) = omega arith
uint64_range (some (an_int64 x)) = omega arith
uint64_range (some (an_int32 x)) = omega arith
uint64_range (some (a_bool x)) = omega arith
uint64_range (some (a_string x)) = omega arith
uint64_range (some (an_enum x)) = omega arith

pub uint32_range : (o : Option Scalar) → uint32_of o < 2 ^ 32
uint32_range none = omega arith
uint32_range (some (a_double x)) = omega arith
uint32_range (some (a_float x)) = omega arith
uint32_range (some (a_uint64 x)) = omega arith
uint32_range (some (a_uint32 x)) = omega arith
uint32_range (some (an_int64 x)) = omega arith
uint32_range (some (an_int32 x)) = omega arith
uint32_range (some (a_bool x)) = omega arith
uint32_range (some (a_string x)) = omega arith
uint32_range (some (an_enum x)) = omega arith

getting-Fits : (a : Accessor) (m : Msg) (f : String × FieldType) → Fits ty a (getting a m f)
getting-Fits double m f = tt
getting-Fits float m f = tt
getting-Fits int64 m f = int64_range (scalar f.0 m)
getting-Fits uint64 m f = uint64_range (scalar f.0 m)
getting-Fits int32 m f = int32_range (scalar f.0 m)
getting-Fits uint32 m f = uint32_range (scalar f.0 m)
getting-Fits bool m f = tt
getting-Fits string m f = tt
getting-Fits message m f = tt
getting-Fits enum m f = tt

set-putting :
    (a : Accessor) (m : Msg) (f : String × FieldType) (x : Accessed ty a)
    → is_set f.0 (putting a m f x) ≡ true
set-putting double m f x = rw (beq_refl f.0) refl
set-putting float m f x = rw (beq_refl f.0) refl
set-putting int64 m f x = rw (beq_refl f.0) refl
set-putting uint64 m f x = rw (beq_refl f.0) refl
set-putting int32 m f x = rw (beq_refl f.0) refl
set-putting uint32 m f x = rw (beq_refl f.0) refl
set-putting bool m f x = rw (beq_refl f.0) refl
set-putting string m f x = rw (beq_refl f.0) refl
set-putting message m f x = rw (beq_refl f.0) refl
set-putting enum m f x = rw (beq_refl f.0) refl

pub named_light : (x : Light) → light_named (light_name x) ≡ some x
named_light red = refl
named_light green = refl

pub in_memory_laws : FieldLaws in_memory values
in_memory_laws = record {
  get-put = getting-putting;
  range = getting-Fits;
  has-put = set-putting;
  find_field-put = λ a m f x n. refl;
  find_enum-enum_name = λ m f. named_light (light_of (scalar f.0 m));
  as_double-of_double = λ x. refl;
  as_float-of_float = λ x. refl;
  as_integer-of_integer = λ z h. refl;
  as_string-of_string = λ s. refl;
  as_string-of_symbol = λ s. refl;
  as_address-of_address = λ m. refl;
  is_text-of_integer = λ z s. refl;
}
