-- ===== src/Communicator/Fields/Extending.antt =====
-- Lists that the rules extend with entries of other lists, by `pb-field-list` and `pb-add-list` of
-- src/libs/protobuf_clips/communicator.cpp.
use at_work_central_factory.Common.{
  ℕ, zero, suc, ◌+◌, ◌<◌, ◌≡◌, ◌≢◌, refl, sym, ◌∙◌, ap, String, true, some, List, [], ◌∷◌, ◌++◌,
  get_elem?, ok, >>=-eq-ok, arith,
}
use at_work_central_factory.Communicator.Fields.{
  type_bool, Types, Reflection, Clips, type_bytes, is_repeated, with_field,
}
use at_work_central_factory.Communicator.Fields.Lists.{
  Repeated, value_at, values_from, pb_field_list, add_value, pb_add_list,
}
use at_work_central_factory.Communicator.Fields.Copying.{FieldLaws, ok_inj}
use at_work_central_factory.Communicator.Fields.Appending.{RepeatedLaws, add_value-Appended}

module _ {ty : Types} (refl_of : Reflection ty) (rep : Repeated ty) (clips : Clips ty) where
  open refl_of use {find_field, field_type, field_label, field_size}

  values_from-suc :
      (m : ty.Message) (f : ty.Field) (i n : ℕ) (vs : List ty.Value)
      → values_from refl_of rep clips m f i (suc n) ≡ ok vs
      → (x : ty.Value) × (ws : List ty.Value) × (value_at refl_of rep clips (field_type f) m f i
          ≡ ok x)
        × (values_from refl_of rep clips m f (i + 1) n ≡ ok ws)
        × (x ∷ ws ≡ vs)
  unfolding values_from
  values_from-suc m f i n vs h =
      let (x, here, h1) = >>=-eq-ok (value_at refl_of rep clips (field_type f) m f i) _ h in
      let (ws, later, h2) = >>=-eq-ok (values_from refl_of rep clips m f (i + 1) n) _ h1 in
      (x, ws, here, later, ok_inj (x ∷ ws) vs h2)

  -- Reading one entry more.
  values_from_snoc :
      (after m : ty.Message) (f : ty.Field) (v : ty.Value) (i n : ℕ) (vs : List ty.Value)
      → ((k : ℕ)
          → k < i + n
          → value_at refl_of rep clips (field_type f) after f k
            ≡ value_at refl_of rep clips (field_type f) m f k)
      → value_at refl_of rep clips (field_type f) after f (i + n) ≡ ok v
      → values_from refl_of rep clips m f i n ≡ ok vs
      → values_from refl_of rep clips after f i (suc n) ≡ ok (vs ++ v ∷ [])
  unfolding values_from
  values_from_snoc after m f v i zero vs old new h =
      let none_before : [] ≡ vs = ok_inj [] vs h in
      let here : value_at refl_of rep clips (field_type f) after f i ≡ ok v =
        ap (value_at refl_of rep clips (field_type f) after f) (omega arith) ∙ new in
      rw (here, ← none_before) refl
  values_from_snoc after m f v i (suc n) vs old new h =
      let (x, ws, here, later, same) = values_from-suc m f i n vs h in
      let first = old i (omega arith) ∙ here in
      let end : value_at refl_of rep clips (field_type f) after f (i + 1 + n) ≡ ok v =
        ap (value_at refl_of rep clips (field_type f) after f) (omega arith) ∙ new in
      let rest =
        values_from_snoc after m f v (i + 1) n ws (λ k lt. old k (omega arith)) end later in
      rw (first, rest, ← same) refl

  no_entry : (j : ℕ) (v : ty.Value) → get_elem? [] j ≢ some v
  no_entry j v h = cc

  entry_or_later :
      (m : ty.Message) (f : ty.Field) (i j : ℕ) (x : ty.Value) (ws : List ty.Value) (v : ty.Value)
      → value_at refl_of rep clips (field_type f) m f i ≡ ok x
      → ((k : ℕ)
          → get_elem? ws k ≡ some v
          → value_at refl_of rep clips (field_type f) m f (i + 1 + k) ≡ ok v)
      → get_elem? (x ∷ ws) j ≡ some v
      → value_at refl_of rep clips (field_type f) m f (i + j) ≡ ok v
  entry_or_later m f i zero x ws v here later there =
      ap (value_at refl_of rep clips (field_type f) m f) (omega arith) ∙ here ∙ ground arith
  entry_or_later m f i (suc k) x ws v here later there =
      ap (value_at refl_of rep clips (field_type f) m f) (omega arith) ∙ later k there

  list_read :
      (m : ty.Message) (n : String) (f : ty.Field)
      → find_field m n ≡ some f
      → is_repeated (field_label f) ≡ true
      → pb_field_list refl_of rep clips (some m) n
        ≡ values_from refl_of rep clips m f 0 (field_size m f)
  unfolding pb_field_list
  list_read m n f there many = rw (there, many, pb_field_list, with_field) refl

  list_added :
      (m : ty.Message) (n : String) (f : ty.Field) (v : ty.Value)
      → find_field m n ≡ some f
      → pb_add_list refl_of rep clips (some m) n v
        ≡ some (add_value refl_of rep clips (field_type f) m f v)
  unfolding pb_add_list
  list_added m n f v there = rw (there, pb_add_list) refl

  value_at-get_elem? :
      (m : ty.Message) (f : ty.Field) (i n j : ℕ) (vs : List ty.Value) (v : ty.Value)
      → values_from refl_of rep clips m f i n ≡ ok vs
      → get_elem? vs j ≡ some v
      → value_at refl_of rep clips (field_type f) m f (i + j) ≡ ok v
  unfolding values_from
  value_at-get_elem? m f i zero j vs v h there =
      absurd (no_entry j v (rw (← ok_inj [] vs h) at there))
  value_at-get_elem? m f i (suc n) j vs v h there =
      let (x, ws, here, later, same) = values_from-suc m f i n vs h in
      entry_or_later m f i j x ws v here (λ k e. value_at-get_elem? m f (i + 1) n k ws v later e)
        (ap (λ l. get_elem? l j) same ∙ there)

  -- Whatever kind of value a repeated field has, but for bytes and truth values: adding an entry of
  -- the list of one message to that of another puts it behind the entries there.
  pub pb_field_list-pb_add_list :
      (laws : FieldLaws refl_of clips) (more : RepeatedLaws refl_of rep clips) (m m' : ty.Message)
      (n : String) (f : ty.Field) (vs ws : List ty.Value) (j : ℕ) (v : ty.Value)
      → find_field m n ≡ some f
      → find_field m' n ≡ some f
      → is_repeated (field_label f) ≡ true
      → field_type f ≢ type_bytes
      → field_type f ≢ type_bool
      → pb_field_list refl_of rep clips (some m) n ≡ ok vs
      → pb_field_list refl_of rep clips (some m') n ≡ ok ws
      → get_elem? ws j ≡ some v
      → pb_field_list refl_of rep clips (pb_add_list refl_of rep clips (some m) n v) n
        ≡ ok (vs ++ v ∷ [])
  pb_field_list-pb_add_list laws more m m' n f vs ws j v here there many nb nt h h' entry =
      let read =
        value_at-get_elem? m' f 0 (field_size m' f) j ws v (sym (list_read m' n f there many) ∙ h')
          entry in
      let at_j : value_at refl_of rep clips (field_type f) m' f j ≡ ok v =
        ap (value_at refl_of rep clips (field_type f) m' f) (omega arith) ∙ read in
      let a = add_value-Appended refl_of rep clips laws more m m' f j (field_type f) v nb nt at_j in
      let after = add_value refl_of rep clips (field_type f) m f v in
      ap (λ p. pb_field_list refl_of rep clips p n) (list_added m n f v here)
      ∙ list_read after n f (a.same n ∙ here) many
      ∙ ap (values_from refl_of rep clips after f 0) (a.sized ∙ omega arith)
      ∙ values_from_snoc after m f v 0 (field_size m f) vs (λ k lt. a.before k (omega arith))
          (ap (value_at refl_of rep clips (field_type f) after f) (omega arith) ∙ a.value)
          (sym (list_read m n f here many) ∙ h)
