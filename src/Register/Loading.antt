-- ===== src/Register/Loading.antt =====
-- The proto path constructor of src/libs/protobuf_comm/message_register.cpp: what becomes of each
-- message type that it reads.
use at_work_central_factory.Common.{
  ℕ, ◌+◌, length, is_some, if◌then◌else◌, if-intro, Bool-cases, ◌≡◌, subst, String, Bool, true,
  false, none, some, inl, inr, List, [], ◌∷◌, ◌++◌, ok, err, arith, Option-cases, >>=-eq-ok,
  Result-cases, str_eq, str_eq_iff, ◌≢◌, ◌⊎◌, ◌||◌, All,
}
use at_work_central_factory.Common.Dict.{Key, Dict, find, insert}
use at_work_central_factory.Protobuf.{Protobuf, CompType}
use at_work_central_factory.Register.{
  key_type_key, Register, Reason, runtime_error, logic_error, add_message_type, create_msg,
  key_from_desc, register, KeyType, load_type, load_types,
}
use at_work_central_factory.Register.Tables.{
  Taken, Added, add_message_type-Added, add_message_type-Taken, Added-Taken, Taken-Added,
}

module _ {ℓ κ} {K : Type ℓ} {V : Type κ} ⦃e : Key K⦄ where
  -- A new key makes a map longer by one.
  length-insert :
      (k : K) (v : V) (m : Dict K V) → find k m ≡ none → length (insert k v m) ≡ length m + 1
  unfolding insert
  length-insert k v [] free = omega arith
  length-insert k v ((j, w) ∷ m) free = elim (Bool-cases (e.beq j k)) [
    | inl same ↦ absurd (ground arith)
    | inr other ↦
        let rest = length-insert k v m (ground arith) in
        rw other (
          if-intro (λ (l : Dict K V). length l ≡ length ((j, w) ∷ m) + 1) (e.before k j) _ _
            (λ _. omega arith) (λ _. omega arith))
  ]

-- The type name has an entry in `failed_to_load_types_`.
abbrev pub recorded : String → List (String × Reason) → Bool
recorded n [] = false
recorded n ((k, what) ∷ rest) = str_eq k n || recorded n rest

module _ {Descriptor Message : Type 0} (pb : Protobuf Descriptor Message) where
  open pb use {full_name, comp_type}

  -- A type that was read is passed over for want of `CompType`, registered, or recorded.
  abbrev pub Accounted : Register Message → Descriptor → Type 0
  Accounted r d =
      (comp_type d ≡ none)
      ⊎ Taken pb r (full_name d)
      ⊎ (recorded (full_name d) r.failed_to_load ≡ true)

  -- The ways in which `load_type` succeeds.
  data Loaded (r : Register Message) (d : Descriptor) (r' : Register Message) : Type 0 where
    passed : comp_type d ≡ none → r' ≡ r → Loaded r d r'
    added : Added pb r (full_name d) r' → Loaded r d r'
    failed :
        (what : Reason)
        → add_message_type pb r (full_name d) ≡ err (logic_error what)
        → r' ≡ record r { failed_to_load = (full_name d, what) ∷ r.failed_to_load }
        → Loaded r d r'

  load_type-Loaded :
      (r r' : Register Message) (d : Descriptor) → load_type pb r d ≡ ok r' → Loaded r d r'
  unfolding load_type
  load_type-Loaded r r' d h = elim (Option-cases (comp_type d)) [
    | inl e ↦ passed e (ground arith)
    | inr (ct, e) ↦ elim (Result-cases (add_message_type pb r (full_name d))) [
      | inl (s, a) ↦ added (
          subst (Added pb r (full_name d)) (ground arith)
            (add_message_type-Added pb r s (full_name d) a))
      | inr (runtime_error what, a) ↦ ground arith
      | inr (logic_error what, a) ↦ failed what a (ground arith)
    ]
  ]

  Loaded-Accounted : (r r' : Register Message) (d : Descriptor) → Loaded r d r' → Accounted r' d
  Loaded-Accounted r r' d (passed e s) = inl e
  Loaded-Accounted r r' d (added a) = inr (inl (Added-Taken pb r r' (full_name d) a))
  Loaded-Accounted r r' d (failed what _ s) =
      inr (inr (rw s (ground (arith, str_eq_iff (full_name d) (full_name d)))))

  Loaded-Taken :
      (r r' : Register Message) (d : Descriptor) (n : String)
      → Loaded r d r'
      → Taken pb r n
      → Taken pb r' n
  Loaded-Taken r r' d n (passed e s) t = rw s t
  Loaded-Taken r r' d n (added a) t = Taken-Added pb r r' (full_name d) n a t
  Loaded-Taken r r' d n (failed what _ s) t =
      rw s (record { m = t.m; key = t.key; made = t.made; keyed = t.keyed; held = t.held })

  Loaded-keeps :
      (r r' : Register Message) (d e : Descriptor) → Loaded r d r' → Accounted r e → Accounted r' e
  Loaded-keeps r r' d e l (inl p) = inl p
  Loaded-keeps r r' d e l (inr (inl t)) = inr (inl (Loaded-Taken r r' d (full_name e) l t))
  Loaded-keeps r r' d e (passed p s) (inr (inr t)) = inr (inr (rw s t))
  Loaded-keeps r r' d e (added a) (inr (inr t)) = inr (inr (rw a.result t))
  Loaded-keeps r r' d e (failed what _ s) (inr (inr t)) = inr (inr (rw s (ground arith)))

  load_types-keeps :
      (l : List Descriptor) (r r' : Register Message) (e : Descriptor)
      → load_types pb r l ≡ ok r'
      → Accounted r e
      → Accounted r' e
  unfolding load_types
  load_types-keeps [] r r' e h a = subst (λ s. Accounted s e) (ground arith) a
  load_types-keeps (d ∷ l) r r' e h a =
      let (s, p, q) = >>=-eq-ok (load_type pb r d) (λ s. load_types pb s l) h in
      load_types-keeps l s r' e q (Loaded-keeps r s d e (load_type-Loaded r s d p) a)

  -- The types that have `CompType`.
  abbrev pub typed : List Descriptor → ℕ
  typed [] = 0
  typed (d ∷ l) = (if is_some (comp_type d) then 1 else 0) + typed l

  -- The types that are registered, and those that are recorded.
  abbrev pub total : Register Message → ℕ
  total r = length r.by_comp_type + length r.failed_to_load

  Loaded-total :
      (r r' : Register Message) (d : Descriptor) (ct : CompType)
      → comp_type d ≡ some ct
      → Loaded r d r'
      → total r' ≡ total r + 1
  Loaded-total r r' d ct t (passed e s) = absurd (cc)
  Loaded-total r r' d ct t (added a) =
      rw a.result (omega (arith, length-insert a.key a.m r.by_comp_type a.free))
  Loaded-total r r' d ct t (failed what _ s) = rw s (omega arith)

  load_type-total :
      (r r' : Register Message) (d : Descriptor)
      → load_type pb r d ≡ ok r'
      → total r' ≡ total r + typed (d ∷ [])
  unfolding load_type
  load_type-total r r' d h = elim (Option-cases (comp_type d)) [
    | inl none_there ↦ let same : r ≡ r' = ground arith in rw (none_there, ← same) (omega arith)
    | inr (ct, t) ↦
        let one = Loaded-total r r' d ct t (load_type-Loaded r r' d h) in rw t (omega arith)
  ]

  -- A construction that succeeds has accounted for every type that it read: the type has no
  -- `CompType`, or it is registered, or it is recorded as one that could not be loaded. No type with
  -- `CompType` is dropped: the types registered and those recorded have become more by as many as
  -- were read, each of them counted as often as it was read.
  pub load_types-Accounted :
      (l : List Descriptor) (r r' : Register Message)
      → load_types pb r l ≡ ok r'
      → All (Accounted r') l × (total r' ≡ total r + typed l)
  unfolding load_types
  load_types-Accounted [] r r' h =
      let same : r ≡ r' = ground arith in (tt, rw (← same) (omega arith))
  load_types-Accounted (d ∷ l) r r' h =
      let (s, p, q) = >>=-eq-ok (load_type pb r d) (λ s. load_types pb s l) h in
      let (rest, sum) = load_types-Accounted l s r' q in
      (
        (load_types-keeps l s r' d q (Loaded-Accounted r s d (load_type-Loaded r s d p)), rest),
        omega (arith, load_type-total r s d p),
      )

  load_types-Taken :
      (l : List Descriptor) (r r' : Register Message) (n : String)
      → load_types pb r l ≡ ok r'
      → Taken pb r n
      → Taken pb r' n
  unfolding load_types
  load_types-Taken [] r r' n h a = subst (λ s. Taken pb s n) (ground arith) a
  load_types-Taken (d ∷ l) r r' n h a =
      let (s, p, q) = >>=-eq-ok (load_type pb r d) (λ s. load_types pb s l) h in
      load_types-Taken l s r' n q (Loaded-Taken r s d n (load_type-Loaded r s d p) a)

  -- A type that is held already and is read again ends the construction.
  pub load_types-Taken_fails :
      (l rest : List Descriptor) (r r' : Register Message) (d : Descriptor) (ct : CompType)
      → comp_type d ≡ some ct
      → Taken pb r (full_name d)
      → load_types pb r (l ++ d ∷ rest) ≢ ok r'
  unfolding load_types load_type
  load_types-Taken_fails [] rest r r' d ct e t h =
      let q = add_message_type-Taken pb r (full_name d) t in ground (arith, q)
  load_types-Taken_fails (x ∷ l) rest r r' d ct e t h =
      let (s, p, q) = >>=-eq-ok (load_type pb r x) (λ s. load_types pb s (l ++ d ∷ rest)) h in
      load_types-Taken_fails l rest s r' d ct e
        (Loaded-Taken r s x (full_name d) (load_type-Loaded r s x p) t) q

  -- The name of the type is known to the pools, and its message type has a key.
  pub record Loadable (imp : Bool) (d : Descriptor) : Type 0 where
    pub enum : CompType
    pub m : Message
    pub key : KeyType
    pub has_enum : comp_type d ≡ some enum
    pub made : create_msg pb imp (full_name d) ≡ some m
    pub keyed : key_from_desc pb (pb.descriptor m) ≡ ok key

  add_message_type-Loadable :
      (r : Register Message) (d : Descriptor) (what : Reason)
      → Loadable r.has_importer d
      → add_message_type pb r (full_name d) ≢ err (logic_error what)
  unfolding add_message_type register
  add_message_type-Loadable r d what l h = ground (arith, l.made, l.keyed)

  Loadable-Taken :
      (r r' : Register Message) (d : Descriptor)
      → Loadable r.has_importer d
      → Loaded r d r'
      → Taken pb r' (full_name d)
  Loadable-Taken r r' d l (passed e s) = ground (arith, l.has_enum)
  Loadable-Taken r r' d l (added a) = Added-Taken pb r r' (full_name d) a
  Loadable-Taken r r' d l (failed what h s) = absurd (add_message_type-Loadable r d what l h)

  Loaded-has_importer :
      (r r' : Register Message) (d : Descriptor) → Loaded r d r' → r.has_importer ≡ r'.has_importer
  Loaded-has_importer r r' d (passed e s) = rw s
  Loaded-has_importer r r' d (added a) = rw a.result
  Loaded-has_importer r r' d (failed what h s) = rw s

  -- The constructor fails if one loadable type is read twice, wherever the two stand.
  pub load_types_twice :
      (xs ys zs : List Descriptor) (r r' : Register Message) (d : Descriptor)
      → Loadable r.has_importer d
      → load_types pb r (xs ++ d ∷ (ys ++ d ∷ zs)) ≢ ok r'
  unfolding load_types
  load_types_twice [] ys zs r r' d l h =
      let (s, p, q) = >>=-eq-ok (load_type pb r d) (λ s. load_types pb s (ys ++ d ∷ zs)) h in
      load_types-Taken_fails ys zs s r' d l.enum l.has_enum
        (Loadable-Taken r s d l (load_type-Loaded r s d p)) q
  load_types_twice (x ∷ xs) ys zs r r' d l h =
      let (s, p, q) =
        >>=-eq-ok (load_type pb r x) (λ s. load_types pb s (xs ++ d ∷ (ys ++ d ∷ zs))) h in
      load_types_twice xs ys zs s r' d
        (subst (λ b. Loadable b d) (Loaded-has_importer r s x (load_type-Loaded r s x p)) l) q
