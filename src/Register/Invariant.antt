-- ===== src/Register/Invariant.antt =====
-- The two tables of the register of src/libs/protobuf_comm/message_register.cpp, as indices of one
-- another whose entries are what `create_msg` makes of their names.
use at_work_central_factory.Common.{
  ℕ, ◌≡◌, refl, ◌∙◌, String, Bool, true, false, none, some, inl, inr, str_eq, str_eq_iff, ok,
  or_throw, arith, Option-cases, >>=-eq-ok, or_throw-eq-ok, subst, Bool-cases,
}
use at_work_central_factory.Common.Dict.{
  string_key, find, insert, erase, find-insert, insert_cases, erase_cases, find-insert_self,
  find-insert_ne, find-erase_ne,
}
use at_work_central_factory.Protobuf.{Protobuf, ProtobufLaws}
use at_work_central_factory.Register.{
  Register, KeyType, key_type_key, key_eq_iff, init, key_from_desc, create_msg,
  create_from_importer, add_message_type, remove_message_type, register,
}

module _ {Descriptor Message : Type 0} (pb : Protobuf Descriptor Message)
    (laws : ProtobufLaws pb) where
  open pb use {full_name, find_generated, find_imported, descriptor, type_name}

  pub record Inv (r : Register Message) : Type 0 where
    pub typed :
        (k : KeyType) (m : Message)
        → find k r.by_comp_type ≡ some m
        → (key_from_desc pb (descriptor m) ≡ ok k) × (find (type_name m) r.by_typename ≡ some m)
    pub named :
        (n : String) (m : Message)
        → find n r.by_typename ≡ some m
        → (create_msg pb r.has_importer n ≡ some m)
          × (type_name m ≡ n)
          × ((k : KeyType) × (key_from_desc pb (descriptor m) ≡ ok k)
              × (find k r.by_comp_type ≡ some m))

  pub init-Inv : Inv init
  unfolding init
  init-Inv = record { typed = λ k m h. cc; named = λ n m h. cc }

  create_from_importer_name :
      (b : Bool) (n : String) (m : Message) → create_from_importer pb b n ≡ some m → type_name m ≡ n
  unfolding create_from_importer
  create_from_importer_name false n m h = cc
  create_from_importer_name true n m h = elim (Option-cases (find_imported n)) [
    | inl e ↦ ground arith
    | inr (d, e) ↦
        ground (arith, laws.type_name_full m, laws.descriptor-prototype d, laws.imported_name n d e)
  ]

  -- A message that `create_msg` makes has the type whose name it was given.
  pub create_msg_name :
      (b : Bool) (n : String) (m : Message) → create_msg pb b n ≡ some m → type_name m ≡ n
  unfolding create_msg
  create_msg_name b n m h = elim (Option-cases (find_generated n)) [
    | inl e ↦ create_from_importer_name b n m (ground arith)
    | inr (d, e) ↦
        ground
          (arith, laws.type_name_full m, laws.descriptor-prototype d, laws.generated_name n d e)
  ]

  module _ (r : Register Message) (v : Inv r) (m : Message) (key : KeyType) where
    register-Inv :
        create_msg pb r.has_importer (type_name m) ≡ some m
        → key_from_desc pb (descriptor m) ≡ ok key
        → find key r.by_comp_type ≡ none
        → Inv (record r {
          by_comp_type = insert key m r.by_comp_type;
          by_typename = insert (type_name m) m r.by_typename;
        })
    register-Inv made keyed free = record {
      typed = λ k m' h. elim (insert_cases key k m m' r.by_comp_type h) [
        | inl (ke, me) ↦ rw (← ke, ← me) (keyed, find-insert_self (type_name m) m r.by_typename)
        | inr (kn, old) ↦
            let (t, i) = v.typed k m' old in
            elim (Bool-cases (str_eq (type_name m) (type_name m'))) [
              | inl same ↦ (
                t,
                ground (
                  arith,
                  find-insert (type_name m) (type_name m') m r.by_typename,
                  str_eq_iff (type_name m) (type_name m'),
                  v.named (type_name m') m' i,
                ),
              )
              | inr other ↦
                  (t, find-insert_ne (type_name m) (type_name m') m r.by_typename other ∙ i)
            ]
      ];
      named = λ n m' h. elim (insert_cases (type_name m) n m m' r.by_typename h) [
        | inl (ne, me) ↦
            rw (← ne, ← me) (made, refl, (key, keyed, find-insert_self key m r.by_comp_type))
        | inr (nn, old) ↦
            let (c, t, (k, kd, i)) = v.named n m' old in
            (c, t, (k, kd, find-insert key k m r.by_comp_type ∙ ground (arith, key_eq_iff key k)))
      ];
    }

    remove-Inv :
        find key r.by_comp_type ≡ some m
        → Inv (record r {
          by_comp_type = erase key r.by_comp_type;
          by_typename = erase (type_name m) r.by_typename;
        })
    remove-Inv there = record {
      typed = λ k m' h.
          let (kn, old) = erase_cases key k m' r.by_comp_type h in
          let (t, i) = v.typed k m' old in
          let (t', i') = v.typed key m there in
          (
            t,
            elim (Bool-cases (str_eq (type_name m) (type_name m'))) [
              | inl same ↦ ground (arith, str_eq_iff (type_name m) (type_name m'), key_eq_iff key k)
              | inr other ↦ find-erase_ne (type_name m) (type_name m') r.by_typename other ∙ i
            ],
          );
      named = λ n m' h.
          let (nn, old) = erase_cases (type_name m) n m' r.by_typename h in
          let (c, t, (k, kd, i)) = v.named n m' old in
          (
            c,
            t,
            (
              k,
              kd,
              elim (Bool-cases (key_type_key.beq key k)) [
                | inl same ↦ ground (arith, key_eq_iff key k, str_eq_iff (type_name m) n)
                | inr other ↦ find-erase_ne key k r.by_comp_type other ∙ i
              ],
            ),
          );
    }

  register-cases :
      (r r' : Register Message) (v : Inv r) (m : Message) (key : KeyType)
      → create_msg pb r.has_importer (type_name m) ≡ some m
      → key_from_desc pb (descriptor m) ≡ ok key
      → register pb r m key ≡ ok r'
      → Inv r'
  unfolding register
  register-cases r r' v m key made keyed h = elim (Option-cases (find key r.by_comp_type)) [
    | inl free ↦ subst Inv (ground arith) (register-Inv r v m key made keyed free)
    | inr (old, taken) ↦ ground arith
  ]

  -- Whatever the names that are added, the two tables go on indexing one another.
  pub add_message_type-Inv :
      (r r' : Register Message) (n : String) → Inv r → add_message_type pb r n ≡ ok r' → Inv r'
  unfolding add_message_type
  add_message_type-Inv r r' n v h =
      let (m, made, h1) = >>=-eq-ok (or_throw (create_msg pb r.has_importer n) _) _ h in
      let (key, keyed, h2) = >>=-eq-ok (key_from_desc pb (descriptor m)) _ h1 in
      let some_m = or_throw-eq-ok (create_msg pb r.has_importer n) _ made in
      register-cases r r' v m key (rw (create_msg_name r.has_importer n m some_m) some_m) keyed h2

  -- Removing a message type, registered or not, leaves the two tables indexing one another.
  pub remove_message_type-Inv :
      (r : Register Message) (c t : ℕ) → Inv r → Inv (remove_message_type pb r c t)
  unfolding remove_message_type
  remove_message_type-Inv r c t v = elim (Option-cases (find (c, t) r.by_comp_type)) [
    | inl e ↦ rw (e, remove_message_type) v
    | inr (m, e) ↦ rw (e, remove_message_type, ← laws.type_name_full m) (remove-Inv r v m (c, t) e)
  ]
