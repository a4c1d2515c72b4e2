-- ===== src/Communicator/Fields/Copying.antt =====
-- A field that the rules copy from one message to another, by `pb-field-value` and `pb-set-field` of
-- src/libs/protobuf_clips/communicator.cpp.
use at_work_central_factory.Common.{
  ℕ, ◌^◌, ◌<◌, ◌≡◌, ◌≢◌, refl, sym, ◌∙◌, ap, String, Bool, true, false, not, ◌&&◌, Option, some,
  Result, ok, arith,
}
use at_work_central_factory.Common.Int.{ℤ, pos, negsuc}
use at_work_central_factory.Communicator.Fields.{
  int_of_bool, Types, Accessor, double, float, int64, uint64, int32, uint32, bool, string, message,
  enum, Accessed, Reflection, Clips, FieldType, type_double, type_float, type_int64, type_uint64,
  type_int32, type_fixed64, type_fixed32, type_bool, type_string, type_message, type_bytes,
  type_uint32, type_enum, type_sfixed32, type_sfixed64, type_sint32, type_sint64, type_group,
  FieldError, signed64, wrapped, to_int32, is_message, with_field, put_if, convert, enum_of,
  value_of, put_value, pb_field_value, pb_set_field,
}

-- A `uint64_t` survives the `long int` that CLIPS makes of it.
pub wrapped-signed64 : (n : ℕ) → n < 2 ^ 64 → wrapped 64 (signed64 n) ≡ n
wrapped-signed64 n h = ground arith

pub wrapped-pos : (n : ℕ) → n < 2 ^ 32 → wrapped 32 (pos n) ≡ n
wrapped-pos n h = omega arith

not_set : (b : Bool) → (b && not true) ≡ false
not_set true = refl
not_set false = refl

pub ok_inj : {A : Type 0} (a b : A) → ◌≡◌ {A = Result FieldError A} (ok a) (ok b) → a ≡ b
ok_inj a b h = cc

-- The numbers that fit the C++ type of an accessor
abbrev pub Fits : (ty : Types) (a : Accessor) → Accessed ty a → Type 0
Fits ty double x = Unit {0}
Fits ty float x = Unit {0}
Fits ty int64 z = signed64 (wrapped 64 z) ≡ z
Fits ty uint64 n = n < 2 ^ 64
Fits ty int32 z = to_int32 z ≡ z
Fits ty uint32 n = n < 2 ^ 32
Fits ty bool x = Unit {0}
Fits ty string x = Unit {0}
Fits ty message x = Unit {0}
Fits ty enum x = Unit {0}

-- An `int` and a `uint32_t` fit a `long int`.
pub int32-int64 : (z : ℤ) → to_int32 z ≡ z → signed64 (wrapped 64 z) ≡ z
int32-int64 (pos n) h = ground arith
int32-int64 (negsuc n) h = ground arith

pub uint32-int64 : (n : ℕ) → n < 2 ^ 32 → signed64 (wrapped 64 (pos n)) ≡ pos n
uint32-int64 n h = ground arith

module _ {ty : Types} (refl_of : Reflection ty) (clips : Clips ty) where
  open refl_of use {find_field, field_type, has, get, put, find_enum, enum_name}
  open clips use {
    of_double, of_float, of_integer, of_string, of_symbol, of_address, as_double, as_float,
    as_integer, as_string, as_address, is_text,
  }

  -- A field is read as it was set, and numbers are in the ranges of their types; CLIPS gives back
  -- what it was given.
  pub record FieldLaws : Type 0 where
    pub get-put :
        (a : Accessor) (m : ty.Message) (f : ty.Field) (x : Accessed ty a)
        → Fits ty a x
        → get a (put a m f x) f ≡ x
    pub range : (a : Accessor) (m : ty.Message) (f : ty.Field) → Fits ty a (get a m f)
    pub has-put :
        (a : Accessor) (m : ty.Message) (f : ty.Field) (x : Accessed ty a)
        → has (put a m f x) f ≡ true
    pub find_field-put :
        (a : Accessor) (m : ty.Message) (f : ty.Field) (x : Accessed ty a) (n : String)
        → find_field (put a m f x) n ≡ find_field m n
    pub find_enum-enum_name :
        (m : ty.Message) (f : ty.Field)
        → find_enum f (enum_name (get enum m f)) ≡ some (get enum m f)
    pub as_double-of_double : (x : ty.Double) → as_double (of_double x) ≡ some x
    pub as_float-of_float : (x : ty.Float) → as_float (of_float x) ≡ some x
    pub as_integer-of_integer : (z : ℤ) → Fits ty int64 z → as_integer (of_integer z) ≡ some z
    pub as_string-of_string : (s : String) → as_string (of_string s) ≡ some s
    pub as_string-of_symbol : (s : String) → as_string (of_symbol s) ≡ some s
    pub as_address-of_address : (m : ty.Message) → as_address (of_address m) ≡ some m
    pub is_text-of_integer : (z : ℤ) (s : String) → is_text (of_integer z) s ≡ false

  module _ (laws : FieldLaws) (m m' : ty.Message) (f : ty.Field) where
    -- What a message is after a value was put in a field.
    record Stored (t : FieldType) (after : ty.Message) (v : ty.Value) : Type 0 where
      pub value : value_of refl_of clips t after f ≡ ok v
      pub present : has after f ≡ true
      pub same : (n : String) → find_field after n ≡ find_field m n

    put_if-Stored :
        (t : FieldType) (a : Accessor) (x : Accessed ty a) (v : ty.Value)
        (o : Option (Accessed ty a))
        → o ≡ some x
        → value_of refl_of clips t (put a m f x) f ≡ ok v
        → Stored t (put_if refl_of clips a m f o) v
    put_if-Stored t a x v o e h = rw e (record {
      value = h;
      present = laws.has-put a m f x;
      same = λ n. laws.find_field-put a m f x n;
    })

    integer : (z : ℤ) (v : ty.Value) → Fits ty int64 z → of_integer z ≡ v → as_integer v ≡ some z
    integer z v fits e = ap as_integer (sym e) ∙ laws.as_integer-of_integer z fits

    -- An integer that CLIPS holds as a `long int`, by way of `to`, and that is narrowed again.
    integer-Stored :
        (t : FieldType) (a : Accessor) (x : Accessed ty a) (to : Accessed ty a → ℤ)
        (back : ℤ → Accessed ty a) (v : ty.Value)
        → Fits ty a x
        → Fits ty int64 (to x)
        → back (to x) ≡ x
        → ((y : ty.Message) → value_of refl_of clips t y f ≡ ok (of_integer (to (get a y f))))
        → ◌≡◌ {A = Result FieldError ty.Value} (ok (of_integer (to x))) (ok v)
        → Stored t (put_if refl_of clips a m f (convert refl_of clips back (as_integer v))) v
    integer-Stored t a x to back v fits long round reads h =
        put_if-Stored t a x v (convert refl_of clips back (as_integer v))
          (ap (convert refl_of clips back) (integer (to x) v long (ok_inj _ _ h)) ∙ ap some round)
          (reads (put a m f x) ∙ ap (λ y. ok (of_integer (to y))) (laws.get-put a m f x fits) ∙ h)

    put_value-Stored :
        (t : FieldType) (v : ty.Value)
        → t ≢ type_bytes
        → t ≢ type_bool
        → value_of refl_of clips t m' f ≡ ok v
        → Stored t (put_value refl_of clips t m f v) v
    unfolding value_of put_value
    put_value-Stored type_double v nb nt h =
        put_if-Stored type_double double (get double m' f) v (as_double v)
          (ap as_double (sym (ok_inj _ _ h)) ∙ laws.as_double-of_double (get double m' f))
          (ap (λ x. ok (of_double x))
              (laws.get-put double m f (get double m' f) (laws.range double m' f))
            ∙ h)
    put_value-Stored type_float v nb nt h =
        put_if-Stored type_float float (get float m' f) v (as_float v)
          (ap as_float (sym (ok_inj _ _ h)) ∙ laws.as_float-of_float (get float m' f))
          (ap (λ x. ok (of_float x))
              (laws.get-put float m f (get float m' f) (laws.range float m' f))
            ∙ h)
    put_value-Stored type_string v nb nt h =
        put_if-Stored type_string string (get string m' f) v (as_string v)
          (ap as_string (sym (ok_inj _ _ h)) ∙ laws.as_string-of_string (get string m' f))
          (ap (λ x. ok (of_string x))
              (laws.get-put string m f (get string m' f) (laws.range string m' f))
            ∙ h)
    put_value-Stored type_message v nb nt h =
        put_if-Stored type_message message (get message m' f) v (as_address v)
          (ap as_address (sym (ok_inj _ _ h)) ∙ laws.as_address-of_address (get message m' f))
          (ap (λ x. ok (of_address x))
              (laws.get-put message m f (get message m' f) (laws.range message m' f))
            ∙ h)
    put_value-Stored type_enum v nb nt h =
        put_if-Stored type_enum enum (get enum m' f) v (enum_of refl_of clips f (as_string v))
          (ap (λ o. enum_of refl_of clips f o)
              (ap as_string (sym (ok_inj _ _ h))
                ∙ laws.as_string-of_symbol (enum_name (get enum m' f)))
            ∙ laws.find_enum-enum_name m' f)
          (ap (λ x. ok (of_symbol (enum_name x)))
              (laws.get-put enum m f (get enum m' f) (laws.range enum m' f))
            ∙ h)
    put_value-Stored type_bool v nb nt h = absurd (nt refl)
    put_value-Stored type_int64 v nb nt h =
        put_if-Stored type_int64 int64 (get int64 m' f) v (as_integer v)
          (integer (get int64 m' f) v (laws.range int64 m' f) (ok_inj _ _ h))
          (ap (λ x. ok (of_integer x))
              (laws.get-put int64 m f (get int64 m' f) (laws.range int64 m' f))
            ∙ h)
    put_value-Stored type_sfixed64 v nb nt h =
        put_if-Stored type_sfixed64 int64 (get int64 m' f) v (as_integer v)
          (integer (get int64 m' f) v (laws.range int64 m' f) (ok_inj _ _ h))
          (ap (λ x. ok (of_integer x))
              (laws.get-put int64 m f (get int64 m' f) (laws.range int64 m' f))
            ∙ h)
    put_value-Stored type_sint64 v nb nt h =
        put_if-Stored type_sint64 int64 (get int64 m' f) v (as_integer v)
          (integer (get int64 m' f) v (laws.range int64 m' f) (ok_inj _ _ h))
          (ap (λ x. ok (of_integer x))
              (laws.get-put int64 m f (get int64 m' f) (laws.range int64 m' f))
            ∙ h)
    put_value-Stored type_uint64 v nb nt h =
        integer-Stored type_uint64 uint64 (get uint64 m' f) signed64 (wrapped 64) v
          (laws.range uint64 m' f)
          (ap signed64 (wrapped-signed64 (get uint64 m' f) (laws.range uint64 m' f)))
          (wrapped-signed64 (get uint64 m' f) (laws.range uint64 m' f)) (λ y. refl) h
    put_value-Stored type_fixed64 v nb nt h =
        integer-Stored type_fixed64 uint64 (get uint64 m' f) signed64 (wrapped 64) v
          (laws.range uint64 m' f)
          (ap signed64 (wrapped-signed64 (get uint64 m' f) (laws.range uint64 m' f)))
          (wrapped-signed64 (get uint64 m' f) (laws.range uint64 m' f)) (λ y. refl) h
    put_value-Stored type_int32 v nb nt h =
        integer-Stored type_int32 int32 (get int32 m' f) (λ z. z) to_int32 v (laws.range int32 m' f)
          (int32-int64 (get int32 m' f) (laws.range int32 m' f)) (laws.range int32 m' f) (λ y. refl)
          h
    put_value-Stored type_sfixed32 v nb nt h =
        integer-Stored type_sfixed32 int32 (get int32 m' f) (λ z. z) to_int32 v
          (laws.range int32 m' f) (int32-int64 (get int32 m' f) (laws.range int32 m' f))
          (laws.range int32 m' f) (λ y. refl) h
    put_value-Stored type_sint32 v nb nt h =
        integer-Stored type_sint32 int32 (get int32 m' f) (λ z. z) to_int32 v
          (laws.range int32 m' f) (int32-int64 (get int32 m' f) (laws.range int32 m' f))
          (laws.range int32 m' f) (λ y. refl) h
    put_value-Stored type_uint32 v nb nt h =
        integer-Stored type_uint32 uint32 (get uint32 m' f) pos (wrapped 32) v
          (laws.range uint32 m' f) (uint32-int64 (get uint32 m' f) (laws.range uint32 m' f))
          (wrapped-pos (get uint32 m' f) (laws.range uint32 m' f)) (λ y. refl) h
    put_value-Stored type_fixed32 v nb nt h =
        integer-Stored type_fixed32 uint32 (get uint32 m' f) pos (wrapped 32) v
          (laws.range uint32 m' f) (uint32-int64 (get uint32 m' f) (laws.range uint32 m' f))
          (wrapped-pos (get uint32 m' f) (laws.range uint32 m' f)) (λ y. refl) h
    put_value-Stored type_bytes v nb nt h = absurd (nb refl)
    put_value-Stored type_group v nb nt h = cc

  read_present :
      (m : ty.Message) (n : String) (f : ty.Field)
      → find_field m n ≡ some f
      → has m f ≡ true
      → pb_field_value refl_of clips (some m) n ≡ value_of refl_of clips (field_type f) m f
  unfolding pb_field_value
  read_present m n f there set =
      rw (there, set, not_set (not (is_message (field_type f))), pb_field_value, with_field) refl

  set_present :
      (m : ty.Message) (n : String) (f : ty.Field) (v : ty.Value)
      → find_field m n ≡ some f
      → pb_set_field refl_of clips (some m) n v
        ≡ some (put_value refl_of clips (field_type f) m f v)
  unfolding pb_set_field
  set_present m n f v there = rw (there, pb_set_field) refl

  -- Whatever kind of value a field has, but for bytes and truth values: what is read from the field of
  -- one message where it is set, and set in the same field of another, is what is read there
  -- afterwards.
  pub pb_field_value-pb_set_field :
      (laws : FieldLaws) (m m' : ty.Message) (n : String) (f : ty.Field) (v : ty.Value)
      → find_field m n ≡ some f
      → find_field m' n ≡ some f
      → field_type f ≢ type_bytes
      → field_type f ≢ type_bool
      → has m' f ≡ true
      → pb_field_value refl_of clips (some m') n ≡ ok v
      → pb_field_value refl_of clips (pb_set_field refl_of clips (some m) n v) n ≡ ok v
  pb_field_value-pb_set_field laws m m' n f v here there nb nt set h =
      let read = sym (read_present m' n f there set) ∙ h in
      let after = put_value-Stored laws m m' f (field_type f) v nb nt read in
      ap (λ p. pb_field_value refl_of clips p n) (set_present m n f v here)
      ∙ read_present (put_value refl_of clips (field_type f) m f v) n f (after.same n ∙ here)
          after.present
      ∙ after.value

  put_value_bool :
      (laws : FieldLaws) (m m' : ty.Message) (f : ty.Field) (v : ty.Value)
      → value_of refl_of clips type_bool m' f ≡ ok v
      → put_value refl_of clips type_bool m f v ≡ put bool m f false
  unfolding value_of put_value
  put_value_bool laws m m' f v h = ap (put bool m f) (
      ap (λ w. is_text w "TRUE") (sym (ok_inj _ _ h))
      ∙ laws.is_text-of_integer (int_of_bool (get bool m' f)) "TRUE")

  -- A truth value is lost: what is read from a field of truth values, where it is set, is an integer,
  -- and set in the same field of another message it makes that false, whatever it was.
  pub pb_field_value-pb_set_field_bool :
      (laws : FieldLaws) (m m' : ty.Message) (n : String) (f : ty.Field) (v : ty.Value)
      → find_field m n ≡ some f
      → find_field m' n ≡ some f
      → field_type f ≡ type_bool
      → has m' f ≡ true
      → pb_field_value refl_of clips (some m') n ≡ ok v
      → pb_field_value refl_of clips (pb_set_field refl_of clips (some m) n v) n
        ≡ ok (of_integer (pos 0))
  unfolding value_of
  pb_field_value-pb_set_field_bool laws m m' n f v here there t set h =
      let read : value_of refl_of clips type_bool m' f ≡ ok v =
        ap (λ k. value_of refl_of clips k m' f) (sym t) ∙ sym (read_present m' n f there set) ∙ h in
      let stored : put_value refl_of clips (field_type f) m f v ≡ put bool m f false =
        ap (λ k. put_value refl_of clips k m f v) t ∙ put_value_bool laws m m' f v read in
      ap (λ p. pb_field_value refl_of clips p n) (set_present m n f v here ∙ ap some stored)
      ∙ read_present (put bool m f false) n f (laws.find_field-put bool m f false n ∙ here)
          (laws.has-put bool m f false)
      ∙ ap (λ k. value_of refl_of clips k (put bool m f false) f) t
      ∙ ap (λ b. ok (of_integer (int_of_bool b))) (laws.get-put bool m f false tt)
