-- ===== src/Communicator/Fields/InMemoryLists.antt =====
-- The repeated fields of messages in memory: an instance of the interface of the lists of
-- src/libs/protobuf_clips/communicator.cpp.
use at_work_central_factory.Common.{
  ◌≡◌, refl, ◌∙◌, ap, String, Option, none, some, [], ◌∷◌, ◌++◌, length, get_elem?, length-append,
  get_elem?-append_left, get_elem?-append_right, arith,
}
use at_work_central_factory.Common.Dict.{string_key, beq_refl}
use at_work_central_factory.Communicator.Fields.{
  Accessor, double, float, int64, uint64, int32, uint32, bool, string, message, enum, Accessed,
  FieldType,
}
use at_work_central_factory.Communicator.Fields.Lists.{Repeated}
use at_work_central_factory.Communicator.Fields.Copying.{Fits}
use at_work_central_factory.Communicator.Fields.Appending.{RepeatedLaws}
use at_work_central_factory.Communicator.Fields.InMemory.{
  ty, in_memory, values, Msg, blank, Scalar, a_double, a_float, a_uint64, a_uint32, an_int64,
  an_int32, a_bool, a_string, an_enum, Entry, of_scalar, of_message, entries, putting, double_of,
  float_of, int64_of, uint64_of, int32_of, uint32_of, bool_of, string_of, light_of,
}
use at_work_central_factory.Communicator.Fields.InMemoryLaws.{
  int64_range, uint64_range, int32_range, uint32_range, named_light,
}

abbrev pub scalar_of : Option Entry → Option Scalar
scalar_of (some (of_scalar s)) = some s
scalar_of _ = none

abbrev pub message_of : Option Entry → Msg
message_of (some (of_message m)) = m
message_of _ = blank

abbrev pub as_accessed : (a : Accessor) → Option Entry → Accessed ty a
as_accessed double o = double_of (scalar_of o)
as_accessed float o = float_of (scalar_of o)
as_accessed int64 o = int64_of (scalar_of o)
as_accessed uint64 o = uint64_of (scalar_of o)
as_accessed int32 o = int32_of (scalar_of o)
as_accessed uint32 o = uint32_of (scalar_of o)
as_accessed bool o = bool_of (scalar_of o)
as_accessed string o = string_of (scalar_of o)
as_accessed message o = message_of o
as_accessed enum o = light_of (scalar_of o)

abbrev pub in_memory_lists : Repeated ty
in_memory_lists = record {
  get_at = λ a m f i. as_accessed a (get_elem? (entries f.0 m) i);
  add = putting;
}

abbrev as_entry : (a : Accessor) → Accessed ty a → Entry
as_entry double x = of_scalar (a_double x)
as_entry float x = of_scalar (a_float x)
as_entry int64 x = of_scalar (an_int64 x)
as_entry uint64 x = of_scalar (a_uint64 x)
as_entry int32 x = of_scalar (an_int32 x)
as_entry uint32 x = of_scalar (a_uint32 x)
as_entry bool x = of_scalar (a_bool x)
as_entry string x = of_scalar (a_string x)
as_entry message x = of_message x
as_entry enum x = of_scalar (an_enum x)

entries-putting :
    (a : Accessor) (m : Msg) (f : String × FieldType) (x : Accessed ty a)
    → entries f.0 (putting a m f x) ≡ entries f.0 m ++ as_entry a x ∷ []
entries-putting double m f x = rw (beq_refl f.0) refl
entries-putting float m f x = rw (beq_refl f.0) refl
entries-putting int64 m f x = rw (beq_refl f.0) refl
entries-putting uint64 m f x = rw (beq_refl f.0) refl
entries-putting int32 m f x = rw (beq_refl f.0) refl
entries-putting uint32 m f x = rw (beq_refl f.0) refl
entries-putting bool m f x = rw (beq_refl f.0) refl
entries-putting string m f x = rw (beq_refl f.0) refl
entries-putting message m f x = rw (beq_refl f.0) refl
entries-putting enum m f x = rw (beq_refl f.0) refl

accessed-entry :
    (a : Accessor) (x : Accessed ty a) → Fits ty a x → as_accessed a (some (as_entry a x)) ≡ x
accessed-entry double x h = refl
accessed-entry float x h = refl
accessed-entry int64 x h = h
accessed-entry uint64 x h = omega arith
accessed-entry int32 x h = h
accessed-entry uint32 x h = omega arith
accessed-entry bool x h = refl
accessed-entry string x h = refl
accessed-entry message x h = refl
accessed-entry enum x h = refl

accessed-Fits : (a : Accessor) (o : Option Entry) → Fits ty a (as_accessed a o)
accessed-Fits double o = tt
accessed-Fits float o = tt
accessed-Fits int64 o = int64_range (scalar_of o)
accessed-Fits uint64 o = uint64_range (scalar_of o)
accessed-Fits int32 o = int32_range (scalar_of o)
accessed-Fits uint32 o = uint32_range (scalar_of o)
accessed-Fits bool o = tt
accessed-Fits string o = tt
accessed-Fits message o = tt
accessed-Fits enum o = tt

pub in_memory_repeated_laws : RepeatedLaws in_memory in_memory_lists values
in_memory_repeated_laws = record {
  field_size-add = λ a m f x.
      ap length (entries-putting a m f x) ∙ length-append (entries f.0 m) (as_entry a x ∷ []);
  last = λ a m f x h.
      ap (λ l. as_accessed a (get_elem? l (length (entries f.0 m)))) (entries-putting a m f x)
      ∙ ap (as_accessed a) (
          get_elem?-append_right (entries f.0 m) (as_entry a x ∷ []) 0 (length (entries f.0 m))
            (omega arith))
      ∙ accessed-entry a x h;
  others = λ a m f x i lt.
      ap (λ l. as_accessed a (get_elem? l i)) (entries-putting a m f x)
      ∙ ap (as_accessed a) (get_elem?-append_left (entries f.0 m) (as_entry a x ∷ []) i lt);
  find_field-add = λ a m f x n. refl;
  find_enum-entry_name = λ m f i. named_light (light_of (scalar_of (get_elem? (entries f.0 m) i)));
  range_at = λ a m f i. accessed-Fits a (get_elem? (entries f.0 m) i);
}
