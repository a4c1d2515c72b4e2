-- ===== src/Register/Tables.antt =====
-- What adding and removing a type does to the lookups of src/libs/protobuf_comm/message_register.cpp.
use at_work_central_factory.Common.{
  if◌then◌else◌, str_eq, ℕ, ◌≡◌, String, true, none, some, inl, inr, ok, err, or_throw, ◌>>=◌,
  arith, Option-cases, >>=-eq-ok, or_throw-eq-ok, is_some, str_eq_iff,
}
use at_work_central_factory.Common.Dict.{
  string_key, find, insert, find-insert, find-erase, find-insert_self,
}
use at_work_central_factory.Protobuf.{Protobuf, ProtobufLaws}
use at_work_central_factory.Register.{
  Register, KeyType, key_type_key, key_eq, key_eq_iff, runtime_error, already_registered,
  key_from_desc, create_msg, add_message_type, remove_message_type, register, new_message_for,
  new_message_for_name,
}
use at_work_central_factory.Register.Invariant.{Inv, create_msg_name}

module _ {Descriptor Message : Type 0} (pb : Protobuf Descriptor Message) where
  open pb use {full_name, descriptor, type_name, fresh}

  -- What a successful `add_message_type` found and did.
  pub record Added (r : Register Message) (n : String) (r' : Register Message) : Type 0 where
    pub m : Message
    pub key : KeyType
    pub made : create_msg pb r.has_importer n ≡ some m
    pub keyed : key_from_desc pb (descriptor m) ≡ ok key
    pub free : find key r.by_comp_type ≡ none
    pub result : r' ≡ record r {
      by_comp_type = insert key m r.by_comp_type;
      by_typename = insert (type_name m) m r.by_typename;
    }

  register-Added :
      (r r' : Register Message) (n : String) (m : Message) (key : KeyType)
      → create_msg pb r.has_importer n ≡ some m
      → key_from_desc pb (descriptor m) ≡ ok key
      → register pb r m key ≡ ok r'
      → Added r n r'
  unfolding register
  register-Added r r' n m key made keyed h = elim (Option-cases (find key r.by_comp_type)) [
    | inl free ↦ record {
      m = m;
      key = key;
      made = made;
      keyed = keyed;
      free = free;
      result = ground arith;
    }
    | inr (old, taken) ↦ ground arith
  ]

  pub add_message_type-Added :
      (r r' : Register Message) (n : String) → add_message_type pb r n ≡ ok r' → Added r n r'
  unfolding add_message_type
  add_message_type-Added r r' n h =
      let (m, made, h1) = >>=-eq-ok (or_throw (create_msg pb r.has_importer n) _) _ h in
      let (key, keyed, h2) = >>=-eq-ok (key_from_desc pb (descriptor m)) _ h1 in
      register-Added r r' n m key (or_throw-eq-ok (create_msg pb r.has_importer n) _ made) keyed h2

  -- A name whose message type the register already holds.
  pub record Taken (r : Register Message) (n : String) : Type 0 where
    pub m : Message
    pub key : KeyType
    pub made : create_msg pb r.has_importer n ≡ some m
    pub keyed : key_from_desc pb (descriptor m) ≡ ok key
    pub held : is_some (find key r.by_comp_type) ≡ true

  -- Such a name is refused, and the refusal names the key.
  pub add_message_type-Taken :
      (r : Register Message) (n : String) (t : Taken r n)
      → add_message_type pb r n ≡ err (runtime_error (already_registered t.key.0 t.key.1))
  unfolding add_message_type register
  add_message_type-Taken r n t = rw (t.made, ◌>>=◌, t.keyed, t.held)

  pub Added-Taken : (r r' : Register Message) (n : String) → Added r n r' → Taken r' n
  Added-Taken r r' n a = rw a.result (record {
    m = a.m;
    key = a.key;
    made = a.made;
    keyed = a.keyed;
    held = rw (find-insert_self a.key a.m r.by_comp_type);
  })

  pub Taken-Added : (r r' : Register Message) (n k : String) → Added r n r' → Taken r k → Taken r' k
  Taken-Added r r' n k a t = rw a.result (record {
    m = t.m;
    key = t.key;
    made = t.made;
    keyed = t.keyed;
    held = ground (arith, find-insert a.key t.key a.m r.by_comp_type, t.held);
  })

  -- A name that was added is refused the second time, with the key of its type.
  pub add-add :
      (r r' : Register Message) (n : String)
      → add_message_type pb r n ≡ ok r'
      → (key : KeyType) × (add_message_type pb r' n
          ≡ err (runtime_error (already_registered key.0 key.1)))
  add-add r r' n h =
      let t = Added-Taken r r' n (add_message_type-Added r r' n h) in
      (t.key, add_message_type-Taken r' n t)

  module _ (laws : ProtobufLaws pb) where
    -- After adding a name, both lookups give a new message of the type that `create_msg` knows by
    -- that name, and every other key or name what it gave before.
    new_message_for-add :
        (r r' : Register Message) (n : String)
        → add_message_type pb r n ≡ ok r'
        → (m : Message) × (key : KeyType) × (create_msg pb r.has_importer n ≡ some m)
          × (key_from_desc pb (descriptor m) ≡ ok key)
          × ((c t : ℕ)
              → new_message_for pb r' c t
                ≡ (if key_eq key (c, t) then ok (fresh m) else new_message_for pb r c t))
          × ((k : String)
              → new_message_for_name pb r' k
                ≡ (if str_eq n k then ok (fresh m) else new_message_for_name pb r k))
    unfolding new_message_for new_message_for_name
    new_message_for-add r r' n h =
        let a = add_message_type-Added r r' n h in
        let name = create_msg_name pb laws r.has_importer n a.m a.made in
        (
          a.m,
          a.key,
          a.made,
          a.keyed,
          (λ c t. ground (arith, a.result, find-insert a.key (c, t) a.m r.by_comp_type)),
          (λ k. ground (arith, a.result, name, find-insert (type_name a.m) k a.m r.by_typename)),
        )

    -- A name that is not held is in neither table.
    free-name :
        (r : Register Message) (n : String) (m : Message) (key : KeyType)
        → Inv pb laws r
        → create_msg pb r.has_importer n ≡ some m
        → key_from_desc pb (descriptor m) ≡ ok key
        → find key r.by_comp_type ≡ none
        → find n r.by_typename ≡ none
    free-name r n m key v made keyed free = elim (Option-cases (find n r.by_typename)) [
      | inl e ↦ e
      | inr (m', e) ↦ let (c, t, (k, kd, i)) = v.named n m' e in ground arith
    ]

    -- Removing the key of a type that was just added gives back every lookup.
    remove-add :
        (r r' : Register Message) (n : String)
        → Inv pb laws r
        → add_message_type pb r n ≡ ok r'
        → (key : KeyType) × ((k : KeyType)
            → find k (remove_message_type pb r' key.0 key.1).by_comp_type ≡ find k r.by_comp_type)
          × ((k : String)
              → find k (remove_message_type pb r' key.0 key.1).by_typename ≡ find k r.by_typename)
    unfolding remove_message_type
    remove-add r r' n v h =
        let a = add_message_type-Added r r' n h in
        let name = create_msg_name pb laws r.has_importer n a.m a.made in
        let full = laws.type_name_full a.m in
        let free = free-name r n a.m a.key v a.made a.keyed a.free in
        let there = find-insert_self a.key a.m r.by_comp_type in
        (
          a.key,
          (λ k.
              rw (a.result, remove_message_type, there)
                (ground (
                  arith,
                  a.free,
                  find-erase a.key k (insert a.key a.m r.by_comp_type),
                  find-insert a.key k a.m r.by_comp_type,
                  key_eq_iff a.key k,
                ))),
          (λ k.
              rw (a.result, remove_message_type, there, ← full)
                (ground (
                  arith,
                  free,
                  name,
                  find-erase (type_name a.m) k (insert (type_name a.m) a.m r.by_typename),
                  find-insert (type_name a.m) k a.m r.by_typename,
                  str_eq_iff (type_name a.m) k,
                ))),
        )
