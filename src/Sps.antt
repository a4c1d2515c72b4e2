-- ===== src/Sps.antt =====
-- src/libs/llsf_sps/sps_comm.{h,cpp}: signal lights and RFID readers behind the field's PLCs, over
-- Modbus. libmodbus is an interface over the state of a connection and of the device behind it;
-- `usleep` is left out: time passes for a device between two calls.
pub mod Plc
pub mod Signals
pub mod Readers
pub mod Lights
pub mod Rfid
pub mod Writing
mod Examples
use at_work_central_factory.Common.{
  ℕ, zero, suc, ◌+◌, ◌-◌, ◌*◌, ◌/◌, ◌%◌, ◌^◌, String, Bool, true, false, not, ◌||◌, Option, none,
  some, List, [], ◌∷◌, ◌++◌, map, length, get_elem?, take, drop, replicate, ltb, leb, ◌==◌,
  if◌then◌else◌, Result, ok, err,
}
use at_work_central_factory.Common.Dict.{Dict, string_key, find, insert}

-- Each operation gives the device as it leaves it. `none` and `false` are the result -1; a read
-- gives the registers, a write of several the number of them.
pub record Modbus (Device : Type 0) : Type 0 where
  pub connect : Device → Bool × Device
  pub close : Device → Device
  pub write_register : Device → (address value : ℕ) → Bool × Device
  pub write_registers : Device → (address : ℕ) → List ℕ → Option ℕ × Device
  pub read_registers : Device → (address count : ℕ) → Option (List ℕ) × Device

pub data SpsError : Type 0 where
  failed_to_connect failed_to_reconnect failed_to_reset_register failed_to_set_register : SpsError
  failed_to_read_rfid failed_to_write_rfid : SpsError
  failed_to_reset_rfid : ℕ → SpsError
  light_out_of_bounds machine_out_of_bounds : SpsError
  unknown_light unknown_signal_state : String → SpsError
  -- No exception: `write_rfid` is still waiting for the PLC. And an access past the end of `mbs_`.
  still_waiting no_such_plc : SpsError

abbrev pub sps_num_machines : ℕ
sps_num_machines = 16

abbrev pub out_reg_per_signal : ℕ
out_reg_per_signal = 3

abbrev pub in_reg_per_rfid : ℕ
in_reg_per_rfid = 3

abbrev pub out_reg_per_rfid : ℕ
out_reg_per_rfid = 3

abbrev pub out_reg_start_signal : ℕ
out_reg_start_signal = 0x4400

abbrev pub out_reg_start_rfid : ℕ
out_reg_start_rfid = out_reg_start_signal + out_reg_per_signal * sps_num_machines

abbrev pub in_reg_start_rfid : ℕ
in_reg_start_rfid = 0x4000

-- `& 0x0100` and `& 0x0200`
abbrev pub rfid_has_puck : ℕ → Bool
rfid_has_puck r = r / 0x0100 % 2 == 1

abbrev pub rfid_write_done : ℕ → Bool
rfid_write_done r = r / 0x0200 % 2 == 1

abbrev pub rfid_write_puck_id : ℕ
rfid_write_puck_id = 0x0100

abbrev pub rfid_reset_write : ℕ
rfid_reset_write = 0x0200

-- `enum Light`
abbrev pub light_red : ℕ
light_red = 0

abbrev pub light_yellow : ℕ
light_yellow = 1

abbrev pub light_green : ℕ
light_green = 2

abbrev pub light_end : ℕ
light_end = 3

pub data SignalState : Type 0 where
  signal_off signal_on signal_blink : SignalState

-- `construct_mappings`
unfoldable pub name_to_light : Dict String ℕ
name_to_light =
    insert "GREEN" light_green (insert "YELLOW" light_yellow (insert "RED" light_red []))

unfoldable pub name_to_signal_state : Dict String SignalState
name_to_signal_state =
    insert "BLINK" signal_blink (insert "ON" signal_on (insert "OFF" signal_off []))

-- `mbs_`, threaded through: an exception keeps what was done before it.
abbrev pub Sps : Type 0 → Type 0 → Type 0
Sps Device A = List Device → Result SpsError A × List Device

module _ {Device : Type 0} where
  abbrev pub continue :
      {A B : Type 0}
      → Result SpsError A × List Device
      → (A → Sps Device B)
      → Result SpsError B × List Device
  continue (ok a, mbs) f = f a mbs
  continue (err e, mbs) f = (err e, mbs)

  infixl 5 ◌>>=◌ ◌>>◌
  abbrev pub ◌>>=◌ : {A B : Type 0} → Sps Device A → (A → Sps Device B) → Sps Device B
  ◌>>=◌ m f mbs = continue (m mbs) f

  abbrev pub ◌>>◌ : {B : Type 0} → Sps Device (Unit {0}) → Sps Device B → Sps Device B
  m >> k = m >>= λ _. k

  abbrev pub return : {A : Type 0} → A → Sps Device A
  return a mbs = (ok a, mbs)

  abbrev pub throw : {A : Type 0} → SpsError → Sps Device A
  throw e mbs = (err e, mbs)

  abbrev pub throw_if : Bool → SpsError → Sps Device (Unit {0})
  throw_if true e = throw e
  throw_if false e = return tt

  abbrev pub size : Sps Device ℕ
  size mbs = (ok (length mbs), mbs)

  -- An operation of libmodbus on `mbs_[plc]`.
  abbrev pub on_plc : {A : Type 0} → ℕ → (Device → A × Device) → Sps Device A
  on_plc plc op [] = (err no_such_plc, [])
  on_plc zero op (mb ∷ mbs) = let (a, mb') = op mb in (ok a, mb' ∷ mbs)
  on_plc (suc plc) op (mb ∷ mbs) = let (r, mbs') = on_plc plc op mbs in (r, mb ∷ mbs')

  -- `for (k = 0; k < n; ++k)`
  abbrev pub for_below_from : ℕ → ℕ → (ℕ → Sps Device (Unit {0})) → Sps Device (Unit {0})
  for_below_from k zero body = return tt
  for_below_from k (suc n) body = let rest = for_below_from (k + 1) n body in body k >> rest

  abbrev pub for_below : ℕ → (ℕ → Sps Device (Unit {0})) → Sps Device (Unit {0})
  for_below = for_below_from 0

  -- The PLC of a machine, and the machine's number on that PLC.
  unfoldable pub plc_index : ℕ → Sps Device (ℕ × ℕ)
  plc_index m = do
    let plc_idx = m / 16
    n ← size
    throw_if (leb n plc_idx) machine_out_of_bounds
    return (plc_idx, m - plc_idx * sps_num_machines)

  unfoldable pub to_light : String → Sps Device ℕ
  to_light light = elim (find light name_to_light) [
    | none ↦ throw (unknown_light light)
    | some l ↦ return l
  ]

  unfoldable pub to_signal_state : String → Sps Device SignalState
  to_signal_state name = elim (find name name_to_signal_state) [
    | none ↦ throw (unknown_signal_state name)
    | some s ↦ return s
  ]

module _ {Device : Type 0} (bus : Modbus Device) where
  open bus use {connect, close, write_register, write_registers, read_registers}

  -- The constructor over a list of devices that are not yet connected: one that fails ends it, and
  -- the connections that were made are closed again.
  unfoldable pub connect_all : List Device → List Device → Result SpsError (List Device)
  connect_all mbs [] = ok mbs
  connect_all mbs (mb ∷ hosts) =
      let (connected, mb') = connect mb in
      let rest = connect_all (mbs ++ mb' ∷ []) hosts in
      if connected then rest else err failed_to_connect

  unfoldable pub try_reconnect : Sps Device (Unit {0})
  try_reconnect [] = (ok tt, [])
  try_reconnect (mb ∷ mbs) =
      let (connected, mb') = connect (close mb) in
      let (r, mbs') = try_reconnect mbs in
      if connected then (r, mb' ∷ mbs') else (err failed_to_reconnect, mb' ∷ mbs)

  -- Writes `values` from `address` on, on each PLC in turn.
  pub write_each : ℕ → (ℕ → SpsError) → List ℕ → ℕ → Sps Device (Unit {0})
  write_each address fault values k [] = (ok tt, [])
  write_each address fault values k (mb ∷ mbs) =
      let (written, mb') = write_registers mb address values in
      let (r, mbs') = write_each address fault values (k + 1) mbs in
      elim written [ none ↦ (err (fault k), mb' ∷ mbs) | some n ↦ (r, mb' ∷ mbs') ]
