-- ===== src/Communicator/Fields/Appending.antt =====
-- Appending to a repeated field what the rules read from another: `pb-field-list` and `pb-add-list` of
-- src/libs/protobuf_clips/communicator.cpp.
use at_work_central_factory.Common.{
  ℕ, ◌+◌, ◌<◌, ◌≡◌, ◌≢◌, refl, sym, ◌∙◌, ap, String, Option, some, Result, ok,
}
use at_work_central_factory.Common.Int.{ℤ, pos}
use at_work_central_factory.Communicator.Fields.{
  Types, Accessor, double, float, int64, uint64, int32, uint32, string, message, enum, Accessed,
  Reflection, Clips, FieldType, type_double, type_float, type_int64, type_uint64, type_int32,
  type_fixed64, type_fixed32, type_bool, type_string, type_message, type_bytes, type_uint32,
  type_enum, type_sfixed32, type_sfixed64, type_sint32, type_sint64, type_group, FieldError,
  signed64, wrapped, to_int32, convert, enum_of,
}
use at_work_central_factory.Communicator.Fields.Lists.{Repeated, value_at, add_if, add_value}
use at_work_central_factory.Communicator.Fields.Copying.{
  Fits, FieldLaws, wrapped-signed64, wrapped-pos, int32-int64, uint32-int64, ok_inj,
}

module _ {ty : Types} (refl_of : Reflection ty) (rep : Repeated ty) (clips : Clips ty) where
  open refl_of use {find_field, field_type, field_label, field_size, find_enum, enum_name}
  open rep use {get_at, add}
  open clips use {
    of_double, of_float, of_integer, of_string, of_symbol, of_address, as_double, as_float,
    as_integer, as_string, as_address, is_text,
  }

  -- An entry is added behind the others, which stay; entries are in the ranges of their types.
  pub record RepeatedLaws : Type 0 where
    pub field_size-add :
        (a : Accessor) (m : ty.Message) (f : ty.Field) (x : Accessed ty a)
        → field_size (add a m f x) f ≡ field_size m f + 1
    pub last :
        (a : Accessor) (m : ty.Message) (f : ty.Field) (x : Accessed ty a)
        → Fits ty a x
        → get_at a (add a m f x) f (field_size m f) ≡ x
    pub others :
        (a : Accessor) (m : ty.Message) (f : ty.Field) (x : Accessed ty a) (i : ℕ)
        → i < field_size m f
        → get_at a (add a m f x) f i ≡ get_at a m f i
    pub find_field-add :
        (a : Accessor) (m : ty.Message) (f : ty.Field) (x : Accessed ty a) (n : String)
        → find_field (add a m f x) n ≡ find_field m n
    pub find_enum-entry_name :
        (m : ty.Message) (f : ty.Field) (i : ℕ)
        → find_enum f (enum_name (get_at enum m f i)) ≡ some (get_at enum m f i)
    pub range_at :
        (a : Accessor) (m : ty.Message) (f : ty.Field) (i : ℕ) → Fits ty a (get_at a m f i)

  module _ (laws : FieldLaws refl_of clips) (more : RepeatedLaws) (m m' : ty.Message) (f : ty.Field)
      (j : ℕ) where
    -- What a message is after a value was added to a field.
    pub record Appended (t : FieldType) (after : ty.Message) (v : ty.Value) : Type 0 where
      pub value : value_at refl_of rep clips t after f (field_size m f) ≡ ok v
      pub before :
          (i : ℕ)
          → i < field_size m f
          → value_at refl_of rep clips t after f i ≡ value_at refl_of rep clips t m f i
      pub sized : field_size after f ≡ field_size m f + 1
      pub same : (n : String) → find_field after n ≡ find_field m n

    -- By way of an accessor: `shown` is what CLIPS is given of an entry.
    add_if-Appended :
        (t : FieldType) (a : Accessor) (shown : Accessed ty a → ty.Value) (v : ty.Value)
        (o : Option (Accessed ty a))
        → ((y : ty.Message) (i : ℕ)
            → value_at refl_of rep clips t y f i ≡ ok (shown (get_at a y f i)))
        → o ≡ some (get_at a m' f j)
        → ◌≡◌ {A = Result FieldError ty.Value} (ok (shown (get_at a m' f j))) (ok v)
        → Appended t (add_if refl_of rep clips a m f o) v
    add_if-Appended t a shown v o reads e h = rw e (record {
      value =
          reads (add a m f (get_at a m' f j)) (field_size m f)
          ∙ ap (λ x. ok (shown x)) (more.last a m f (get_at a m' f j) (more.range_at a m' f j))
          ∙ h;
      before = λ i lt.
          reads (add a m f (get_at a m' f j)) i
          ∙ ap (λ x. ok (shown x)) (more.others a m f (get_at a m' f j) i lt)
          ∙ sym (reads m i);
      sized = more.field_size-add a m f (get_at a m' f j);
      same = λ n. more.find_field-add a m f (get_at a m' f j) n;
    })

    entry_integer :
        (z : ℤ) (v : ty.Value) → Fits ty int64 z → of_integer z ≡ v → as_integer v ≡ some z
    entry_integer z v fits e = ap as_integer (sym e) ∙ laws.as_integer-of_integer z fits

    narrowed :
        (a : Accessor) (to : Accessed ty a → ℤ) (back : ℤ → Accessed ty a) (v : ty.Value)
        → Fits ty int64 (to (get_at a m' f j))
        → back (to (get_at a m' f j)) ≡ get_at a m' f j
        → ◌≡◌ {A = Result FieldError ty.Value} (ok (of_integer (to (get_at a m' f j)))) (ok v)
        → convert refl_of clips back (as_integer v) ≡ some (get_at a m' f j)
    narrowed a to back v long round h =
        ap (convert refl_of clips back) (entry_integer (to (get_at a m' f j)) v long (ok_inj _ _ h))
        ∙ ap some round

    pub add_value-Appended :
        (t : FieldType) (v : ty.Value)
        → t ≢ type_bytes
        → t ≢ type_bool
        → value_at refl_of rep clips t m' f j ≡ ok v
        → Appended t (add_value refl_of rep clips t m f v) v
    unfolding value_at add_value
    add_value-Appended type_double v nb nt h =
        add_if-Appended type_double double of_double v (as_double v) (λ y i. refl)
          (ap as_double (sym (ok_inj _ _ h)) ∙ laws.as_double-of_double (get_at double m' f j)) h
    add_value-Appended type_float v nb nt h =
        add_if-Appended type_float float of_float v (as_float v) (λ y i. refl)
          (ap as_float (sym (ok_inj _ _ h)) ∙ laws.as_float-of_float (get_at float m' f j)) h
    add_value-Appended type_string v nb nt h =
        add_if-Appended type_string string of_string v (as_string v) (λ y i. refl)
          (ap as_string (sym (ok_inj _ _ h)) ∙ laws.as_string-of_string (get_at string m' f j)) h
    add_value-Appended type_message v nb nt h =
        add_if-Appended type_message message of_address v (as_address v) (λ y i. refl)
          (ap as_address (sym (ok_inj _ _ h)) ∙ laws.as_address-of_address (get_at message m' f j))
          h
    add_value-Appended type_enum v nb nt h =
        add_if-Appended type_enum enum (λ x. of_symbol (enum_name x)) v
          (enum_of refl_of clips f (as_string v)) (λ y i. refl)
          (ap (λ o. enum_of refl_of clips f o)
              (ap as_string (sym (ok_inj _ _ h))
                ∙ laws.as_string-of_symbol (enum_name (get_at enum m' f j)))
            ∙ more.find_enum-entry_name m' f j)
          h
    add_value-Appended type_bool v nb nt h = absurd (nt refl)
    add_value-Appended type_int64 v nb nt h =
        add_if-Appended type_int64 int64 of_integer v (as_integer v) (λ y i. refl)
          (entry_integer (get_at int64 m' f j) v (more.range_at int64 m' f j) (ok_inj _ _ h)) h
    add_value-Appended type_sfixed64 v nb nt h =
        add_if-Appended type_sfixed64 int64 of_integer v (as_integer v) (λ y i. refl)
          (entry_integer (get_at int64 m' f j) v (more.range_at int64 m' f j) (ok_inj _ _ h)) h
    add_value-Appended type_sint64 v nb nt h =
        add_if-Appended type_sint64 int64 of_integer v (as_integer v) (λ y i. refl)
          (entry_integer (get_at int64 m' f j) v (more.range_at int64 m' f j) (ok_inj _ _ h)) h
    add_value-Appended type_uint64 v nb nt h =
        add_if-Appended type_uint64 uint64 (λ x. of_integer (signed64 x)) v
          (convert refl_of clips (wrapped 64) (as_integer v)) (λ y i. refl)
          (narrowed uint64 signed64 (wrapped 64) v
            (ap signed64 (wrapped-signed64 (get_at uint64 m' f j) (more.range_at uint64 m' f j)))
            (wrapped-signed64 (get_at uint64 m' f j) (more.range_at uint64 m' f j)) h)
          h
    add_value-Appended type_fixed64 v nb nt h =
        add_if-Appended type_fixed64 uint64 (λ x. of_integer (signed64 x)) v
          (convert refl_of clips (wrapped 64) (as_integer v)) (λ y i. refl)
          (narrowed uint64 signed64 (wrapped 64) v
            (ap signed64 (wrapped-signed64 (get_at uint64 m' f j) (more.range_at uint64 m' f j)))
            (wrapped-signed64 (get_at uint64 m' f j) (more.range_at uint64 m' f j)) h)
          h
    add_value-Appended type_int32 v nb nt h =
        add_if-Appended type_int32 int32 of_integer v
          (convert refl_of clips to_int32 (as_integer v)) (λ y i. refl)
          (narrowed int32 (λ z. z) to_int32 v
            (int32-int64 (get_at int32 m' f j) (more.range_at int32 m' f j))
            (more.range_at int32 m' f j) h)
          h
    add_value-Appended type_sfixed32 v nb nt h =
        add_if-Appended type_sfixed32 int32 of_integer v
          (convert refl_of clips to_int32 (as_integer v)) (λ y i. refl)
          (narrowed int32 (λ z. z) to_int32 v
            (int32-int64 (get_at int32 m' f j) (more.range_at int32 m' f j))
            (more.range_at int32 m' f j) h)
          h
    add_value-Appended type_sint32 v nb nt h =
        add_if-Appended type_sint32 int32 of_integer v
          (convert refl_of clips to_int32 (as_integer v)) (λ y i. refl)
          (narrowed int32 (λ z. z) to_int32 v
            (int32-int64 (get_at int32 m' f j) (more.range_at int32 m' f j))
            (more.range_at int32 m' f j) h)
          h
    add_value-Appended type_uint32 v nb nt h =
        add_if-Appended type_uint32 uint32 (λ x. of_integer (pos x)) v
          (convert refl_of clips (wrapped 32) (as_integer v)) (λ y i. refl)
          (narrowed uint32 pos (wrapped 32) v
            (uint32-int64 (get_at uint32 m' f j) (more.range_at uint32 m' f j))
            (wrapped-pos (get_at uint32 m' f j) (more.range_at uint32 m' f j)) h)
          h
    add_value-Appended type_fixed32 v nb nt h =
        add_if-Appended type_fixed32 uint32 (λ x. of_integer (pos x)) v
          (convert refl_of clips (wrapped 32) (as_integer v)) (λ y i. refl)
          (narrowed uint32 pos (wrapped 32) v
            (uint32-int64 (get_at uint32 m' f j) (more.range_at uint32 m' f j))
            (wrapped-pos (get_at uint32 m' f j) (more.range_at uint32 m' f j)) h)
          h
    add_value-Appended type_bytes v nb nt h = absurd (nb refl)
    add_value-Appended type_group v nb nt h = cc
