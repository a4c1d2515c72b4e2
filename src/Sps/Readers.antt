-- ===== src/Sps/Readers.antt =====
-- The RFID readers in src/libs/llsf_sps/sps_comm.cpp.
use at_work_central_factory.Common.{
  ℕ, zero, suc, ◌+◌, ◌*◌, ◌/◌, ◌%◌, ◌^◌, Bool, false, not, Option, none, some, List, [], ◌∷◌, ◌++◌,
  length, replicate, ◌==◌, if◌then◌else◌,
}
use at_work_central_factory.Common.Dict.{string_key}
use at_work_central_factory.Sps.{
  Modbus, failed_to_read_rfid, failed_to_write_rfid, failed_to_reset_rfid, still_waiting,
  sps_num_machines, in_reg_per_rfid, out_reg_per_rfid, out_reg_start_rfid, in_reg_start_rfid,
  rfid_has_puck, rfid_write_done, rfid_write_puck_id, rfid_reset_write, Sps, ◌>>=◌, ◌>>◌, return,
  throw, throw_if, size, on_plc, plc_index, write_each,
}

abbrev pub reg : List ℕ → ℕ → ℕ
reg [] i = 0
reg (r ∷ rs) zero = r
reg (r ∷ rs) (suc i) = reg rs i

abbrev pub map_below_from : {A : Type 0} → ℕ → ℕ → (ℕ → A) → List A
map_below_from k zero f = []
map_below_from k (suc n) f = f k ∷ map_below_from (k + 1) n f

-- A write of three registers that wrote all three.
abbrev pub is_some_three : Option ℕ → Bool
is_some_three none = false
is_some_three (some n) = n == 3

abbrev pub no_puck : ℕ
no_puck = 0xffff_ffff

-- The ID in the last two of three registers.
abbrev pub rfid_id : ℕ → ℕ → ℕ
rfid_id high low = (high * 2 ^ 16 + low) % 2 ^ 32

-- The ID of reader `i` in the block of all readers' registers.
abbrev pub rfid_entry : List ℕ → ℕ → ℕ
rfid_entry regs i =
    if rfid_has_puck (reg regs (i * in_reg_per_rfid))
    then rfid_id (reg regs (i * in_reg_per_rfid + 1)) (reg regs (i * in_reg_per_rfid + 2))
    else no_puck

module _ {Device : Type 0} (bus : Modbus Device) where
  open bus use {write_registers, read_registers}

  unfoldable pub reset_rfids : Sps Device (Unit {0})
  unfolding write_each
  reset_rfids =
      write_each bus out_reg_start_rfid failed_to_reset_rfid
        (replicate (out_reg_per_rfid * sps_num_machines) 0) 0

  -- The three registers of a reader, or an exception.
  unfoldable pub three_registers : Option (List ℕ) → Sps Device (ℕ × ℕ × ℕ)
  three_registers none = throw failed_to_read_rfid
  three_registers (some []) = throw failed_to_read_rfid
  three_registers (some (a ∷ [])) = throw failed_to_read_rfid
  three_registers (some (a ∷ b ∷ [])) = throw failed_to_read_rfid
  three_registers (some (a ∷ b ∷ c ∷ [])) = return (a, b, c)
  three_registers (some (a ∷ b ∷ c ∷ d ∷ rest)) = throw failed_to_read_rfid

  unfoldable pub read_three : ℕ → ℕ → Sps Device (ℕ × ℕ × ℕ)
  unfolding three_registers
  read_three plc_idx addr =
      on_plc plc_idx (λ mb. read_registers mb addr in_reg_per_rfid) >>= three_registers

  -- `none` is the result false, which leaves `id` alone.
  unfoldable pub read_rfid : ℕ → Sps Device (Option ℕ)
  unfolding read_three
  read_rfid m = do
    (plc_idx, m') ← plc_index m
    (status, high, low) ← read_three plc_idx (in_reg_start_rfid + m' * in_reg_per_rfid)
    return (if rfid_has_puck status then some (rfid_id high low) else none)

  unfoldable pub block_registers : Option (List ℕ) → Sps Device (List ℕ)
  block_registers none = throw failed_to_read_rfid
  block_registers (some regs) =
      if length regs == sps_num_machines * in_reg_per_rfid
      then return regs
      else throw failed_to_read_rfid

  unfoldable pub read_rfids_from : ℕ → ℕ → Sps Device (List ℕ)
  unfolding block_registers
  read_rfids_from m zero = return []
  read_rfids_from m (suc n) =
      let rest = read_rfids_from (m + 1) n in
      on_plc m (λ mb. read_registers mb in_reg_start_rfid (sps_num_machines * in_reg_per_rfid))
      >>= block_registers
      >>= λ regs. rest >>= λ rv. return (map_below_from 0 sps_num_machines (rfid_entry regs) ++ rv)

  -- The vector, PLC by PLC.
  unfoldable pub read_rfids : Sps Device (List ℕ)
  unfolding read_rfids_from
  read_rfids = size >>= read_rfids_from 0

  unfoldable pub write_three : ℕ → ℕ → ℕ × ℕ × ℕ → Sps Device (Unit {0})
  write_three plc_idx addr (a, b, c) =
      on_plc plc_idx (λ mb. write_registers mb addr (a ∷ b ∷ c ∷ [])) >>= λ written.
      throw_if (not (is_some_three written)) failed_to_write_rfid

  -- The do-while loop, for at most `fuel` reads.
  unfoldable pub await_write : ℕ → ℕ → ℕ → Sps Device (Unit {0})
  unfolding read_three
  await_write zero plc_idx addr = throw still_waiting
  await_write (suc fuel) plc_idx addr =
      let again = await_write fuel plc_idx addr in
      read_three plc_idx addr >>= λ in_regs. if rfid_write_done in_regs.0 then return tt else again

  unfoldable pub write_rfid : ℕ → ℕ → ℕ → Sps Device (Unit {0})
  unfolding write_three await_write
  write_rfid fuel m id = do
    (plc_idx, m') ← plc_index m
    let out_addr = out_reg_start_rfid + m' * out_reg_per_rfid
    write_three plc_idx out_addr (rfid_write_puck_id, id / 2 ^ 16 % 2 ^ 16, id % 2 ^ 16)
    await_write fuel plc_idx (in_reg_start_rfid + m' * in_reg_per_rfid)
    write_three plc_idx out_addr (rfid_reset_write, 0, 0)
