-- ===== src/Sps/Plc.antt =====
-- Operations on one of the PLCs, and the bounds of src/libs/llsf_sps/sps_comm.cpp.
use at_work_central_factory.Common.{
  ℕ, zero, suc, ◌-◌, ◌*◌, ◌/◌, ◌%◌, ◌≤◌, ◌<◌, ◌≡◌, refl, true, false, some, List, [], ◌∷◌, length,
  get_elem?, set, leb, ok, err, arith,
}
use at_work_central_factory.Sps.{machine_out_of_bounds, on_plc, plc_index, sps_num_machines}

module _ {Device A : Type 0} (op : Device → A × Device) where
  -- In range the operation runs on that PLC and leaves the others alone.
  pub on_plc_lem :
      (plc : ℕ) (mbs : List Device) (d : Device)
      → get_elem? mbs plc ≡ some d
      → on_plc plc op mbs ≡ (ok (op d).0, set mbs plc (op d).1)
  on_plc_lem plc [] d h = cc
  on_plc_lem zero (mb ∷ mbs) d h = ground arith
  on_plc_lem (suc plc) (mb ∷ mbs) d h = rw (on_plc_lem plc mbs d h) refl

module _ {Device : Type 0} where
  pub plc_index_in :
      (m : ℕ) (mbs : List Device)
      → m < sps_num_machines * length mbs
      → plc_index m mbs ≡ (ok (m / 16, m % 16), mbs)
  unfolding plc_index
  plc_index_in m mbs h =
      let there : leb (length mbs) (m / 16) ≡ false = ground arith in
      let rest : m - m / 16 * sps_num_machines ≡ m % 16 = omega arith in rw (there, rest) refl

  pub plc_index_out :
      (m : ℕ) (mbs : List Device)
      → sps_num_machines * length mbs ≤ m
      → plc_index m mbs ≡ (err machine_out_of_bounds, mbs)
  unfolding plc_index
  plc_index_out m mbs h =
      let none_there : leb (length mbs) (m / 16) ≡ true = ground arith in rw none_there refl
