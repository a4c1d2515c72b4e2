-- ===== src/Sps/Examples.antt =====
-- Tests of the PLC interface, and its theorems at concrete devices.
use at_work_central_factory.Common.{
  ℕ, zero, suc, ◌+◌, ◌*◌, ◌/◌, ◌%◌, ◌^◌, ◌≤◌, ◌≡◌, ◌≢◌, refl, Bool, true, false, Option, none, some,
  inl, inr, ◌⊎◌, List, [], ◌∷◌, length, get_elem?, set, Result, ok, err, arith,
}
use at_work_central_factory.Sps.{
  Modbus, machine_out_of_bounds, signal_on, signal_blink, plc_index, name_to_light,
  name_to_signal_state, to_light, to_signal_state,
}
use at_work_central_factory.Sps.Signals.{set_light, set_light_by_name}
use at_work_central_factory.Sps.Readers.{read_rfid, read_rfids, write_rfid}
use at_work_central_factory.Sps.Lights.{stored, RegisterFile, light, set_light_sets}
use at_work_central_factory.Sps.Rfid.{window, Answering, or_no_puck, read_rfids-read_rfid}
use at_work_central_factory.Sps.Writing.{Acks, acked, waiting, write_rfid_ends}

-- A device that is its registers, and never fails.
abbrev plain : Modbus (ℕ → ℕ)
plain = record {
  connect = λ d. (true, d);
  close = λ d. d;
  write_register = λ d a v. (true, stored (v ∷ []) a d);
  write_registers = λ d a vs. (some (length vs), stored vs a d);
  read_registers = λ d a n. (some (window d a n), d);
}

abbrev plain_file : RegisterFile plain
plain_file = record {
  regs = λ d. d;
  register_stored = λ d a v b h. refl;
  registers_stored = λ d a n b vs h. refl;
}

-- Two PLCs. Under reader 3 of the second lies the puck 0x0002_0007.
abbrev with_puck : ℕ → ℕ
with_puck a = stored (0x0100 ∷ 2 ∷ 7 ∷ []) 0x4009 (λ _. 0) a

abbrev field : List (ℕ → ℕ)
field = (λ _. 5) ∷ with_puck ∷ []

blinking : (set_light_by_name plain 17 "GREEN" "BLINK" field).0 ≡ ok tt
unfolding set_light_by_name set_light plc_index name_to_light name_to_signal_state to_light
    to_signal_state at_work_central_factory.Common.Dict.insert
blinking = refl

no_such_machine : (set_light plain 32 0 signal_on field).0 ≡ err machine_out_of_bounds
unfolding set_light plc_index
no_such_machine = refl

abbrev after_set : List (ℕ → ℕ)
after_set = (set_light plain 17 2 signal_blink field).1

set_light_sets_example :
    (light plain plain_file after_set 17 2 ≡ some (2 * 2 ^ 8))
    × (light plain plain_file after_set 1 2 ≡ light plain plain_file field 1 2)
unfolding set_light plc_index
set_light_sets_example =
    set_light_sets plain plain_file 17 2 1 2 signal_blink field after_set refl (omega arith)
      (inl (omega arith))

field_answers : Answering plain (λ d. d) field
field_answers i d there a n = refl

read_rfids-read_rfid_example :
    (ids : List ℕ) × (o : Option ℕ) × (read_rfids plain field ≡ (ok ids, field))
    × (read_rfid plain 19 field ≡ (ok o, field))
    × (get_elem? ids 19 ≡ some (or_no_puck o))
read_rfids-read_rfid_example =
    read_rfids-read_rfid plain (λ d. d) 19 field field_answers (omega arith)

-- A device whose first reads show a write that is not done.
abbrev slow_read : ℕ × (ℕ → ℕ) → Option (List ℕ) × (ℕ × (ℕ → ℕ))
slow_read (zero, f) = (some (0x0200 ∷ 0 ∷ 0 ∷ []), (0, f))
slow_read (suc k, f) = (some (0x0100 ∷ 0 ∷ 0 ∷ []), (k, f))

abbrev slow : Modbus (ℕ × (ℕ → ℕ))
slow = record {
  connect = λ d. (true, d);
  close = λ d. d;
  write_register = λ d a v. (true, (d.0, stored (v ∷ []) a d.1));
  write_registers = λ d a vs. (some (length vs), (d.0, stored vs a d.1));
  read_registers = λ d a n. slow_read d;
}

abbrev asked : ℕ → ℕ
asked = stored (0x0100 ∷ 2 ∷ 7 ∷ []) 0x4430 (λ _. 0)

abbrev two_reads : Acks slow 0x4000 2 (1, asked) (0, asked)
two_reads = waiting {d' = (0, asked)} 0x0100 0 0 refl refl (acked 0x0200 0 0 refl refl)

write_rfid_ends_example :
    write_rfid slow 10 0 0x0002_0007 ((1, (λ _. 0)) ∷ [])
    ≡ (ok tt, (0, stored (0x0200 ∷ 0 ∷ 0 ∷ []) 0x4430 asked) ∷ [])
write_rfid_ends_example =
    write_rfid_ends slow 10 2 0 0x0002_0007 ((1, (λ _. 0)) ∷ []) (1, (λ _. 0)) (1, asked) (0, asked)
      (0, stored (0x0200 ∷ 0 ∷ 0 ∷ []) 0x4430 asked) refl refl two_reads refl (omega arith)
