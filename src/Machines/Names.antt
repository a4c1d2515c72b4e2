-- ===== src/Machines/Names.antt =====
-- Names against numbers of machines in src/libs/utils/llsf/machines.cpp.
use at_work_central_factory.Common.{
  ℕ, ◌≡◌, refl, ap, String, Bool, true, false, ◌&&◌, Option, none, some, [], ◌∷◌, Result, ok, err,
  or_throw, or_throw-eq-ok, inl, inr, ◌↔◌, Bool-cases, arith, ltb,
}
use at_work_central_factory.Common.Dict.{Dict, Key, string_key, nat_key, find}
use at_work_central_factory.Machines.{
  MachineAssignment, assignment_2013, assignment_2014, assignment_other, machines_2013,
  machines_2014, names_2013, names_2014, MachineError, unknown_machine_number, unknown_machine_type,
  to_machine, to_string,
}

module _ {V : Type 0} ⦃f : Key V⦄ where
  is_found : V → Option V → Bool
  is_found v none = false
  is_found v (some w) = f.beq w v

  is_found-eq : (v : V) (o : Option V) → is_found v o ≡ true → o ≡ some v
  unfolding is_found
  is_found-eq v none h = cc
  is_found-eq v (some w) h = ap some ((f.beq_iff w v).0 h)

module _ {K V : Type 0} ⦃e : Key K⦄ ⦃f : Key V⦄ where
  -- Each entry of the first table is found in the second, the other way round.
  unfoldable inverted_in : Dict V K → Dict K V → Bool
  unfolding is_found
  inverted_in [] m = true
  inverted_in ((v, k) ∷ r) m = is_found v (find k m) && inverted_in r m

  find-inverted :
      (r : Dict V K) (m : Dict K V) (k : K) (v : V)
      → inverted_in r m ≡ true
      → find v r ≡ some k
      → find k m ≡ some v
  unfolding inverted_in is_found
  find-inverted [] m k v h there = cc
  find-inverted ((w, j) ∷ r) m k v h there = elim (Bool-cases (f.beq w v)) [
    | inl t ↦ ground (arith, is_found-eq w (find j m), (f.beq_iff w v).0 t)
    | inr n ↦ ground (arith, find-inverted r m k v)
  ]

inverted_2013 :
    (inverted_in machines_2013 names_2013 ≡ true) × (inverted_in names_2013 machines_2013 ≡ true)
unfolding inverted_in is_found
inverted_2013 = (refl, refl)

inverted_2014 :
    (inverted_in machines_2014 names_2014 ≡ true) × (inverted_in names_2014 machines_2014 ≡ true)
unfolding inverted_in is_found
inverted_2014 = (refl, refl)

-- A name stands for a number where, and only where, the number prints as the name, for each
-- assignment.
pub to_machine-to_string :
    (a : MachineAssignment) (name : String) (machine : ℕ)
    → (to_machine name a ≡ ok machine) ↔ (to_string machine a ≡ ok name)
unfolding to_machine to_string
to_machine-to_string assignment_2013 name machine = (
  λ h.
      ap (λ o. or_throw o (unknown_machine_number machine))
        (find-inverted machines_2013 names_2013 machine name inverted_2013.0
          (or_throw-eq-ok (find name machines_2013) _ h)),
  λ h.
      ap (λ o. or_throw o (unknown_machine_type name))
        (find-inverted names_2013 machines_2013 name machine inverted_2013.1
          (or_throw-eq-ok (find machine names_2013) _ h)),
)
to_machine-to_string assignment_2014 name machine = (
  λ h.
      ap (λ o. or_throw o (unknown_machine_number machine))
        (find-inverted machines_2014 names_2014 machine name inverted_2014.0
          (or_throw-eq-ok (find name machines_2014) _ h)),
  λ h.
      ap (λ o. or_throw o (unknown_machine_type name))
        (find-inverted names_2014 machines_2014 name machine inverted_2014.1
          (or_throw-eq-ok (find machine names_2014) _ h)),
)
to_machine-to_string assignment_other name machine = (λ h. cc, λ h. cc)

abbrev pub number_of_machines : MachineAssignment → ℕ
number_of_machines assignment_2013 = 16
number_of_machines assignment_2014 = 32
number_of_machines assignment_other = 0

abbrev pub is_ok : {A : Type 0} → Result MachineError A → Bool
is_ok (ok a) = true
is_ok (err e) = false

-- The numbers that print are those below the number of machines of the assignment.
pub to_string_range :
    (a : MachineAssignment) (machine : ℕ)
    → is_ok (to_string machine a) ≡ ltb machine (number_of_machines a)
unfolding to_string
to_string_range assignment_2013 machine = ground arith
to_string_range assignment_2014 machine = ground arith
to_string_range assignment_other machine = ground arith
