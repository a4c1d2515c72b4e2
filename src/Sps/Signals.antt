-- ===== src/Sps/Signals.antt =====
-- The signal lights in src/libs/llsf_sps/sps_comm.cpp.
use at_work_central_factory.Common.{ℕ, ◌+◌, ◌*◌, ◌^◌, String, not, ◌||◌, replicate, ltb}
use at_work_central_factory.Common.Dict.{string_key}
use at_work_central_factory.Sps.{
  Modbus, failed_to_reset_register, failed_to_set_register, light_out_of_bounds,
  machine_out_of_bounds, sps_num_machines, out_reg_per_signal, out_reg_start_signal, light_red,
  light_green, light_end, SignalState, signal_off, signal_on, signal_blink, Sps, ◌>>=◌, ◌>>◌,
  throw_if, size, on_plc, for_below, plc_index, to_light, to_signal_state, write_each,
}

abbrev pub state_value : SignalState → ℕ
state_value signal_off = 0
state_value signal_on = 1
state_value signal_blink = 2

module _ {Device : Type 0} (bus : Modbus Device) where
  open bus use {write_register}

  unfoldable pub reset_lights : Sps Device (Unit {0})
  unfolding write_each
  reset_lights =
      write_each bus out_reg_start_signal (λ k. failed_to_reset_register)
        (replicate (out_reg_per_signal * sps_num_machines) 0) 0

  unfoldable pub set_light : ℕ → ℕ → SignalState → Sps Device (Unit {0})
  set_light m light state = do
    throw_if (ltb light light_red || ltb light_green light) light_out_of_bounds
    (plc_idx, m') ← plc_index m
    throw_if (ltb sps_num_machines m') machine_out_of_bounds
    let value = state_value state * 2 ^ 8
    written ←
        on_plc plc_idx
          (λ mb. write_register mb (out_reg_start_signal + m' * out_reg_per_signal + light) value)
    throw_if (not written) failed_to_set_register

  unfoldable pub set_light_by_name : ℕ → String → String → Sps Device (Unit {0})
  set_light_by_name m light state = do
    l ← to_light light
    s ← to_signal_state state
    set_light m l s

  -- All lights of all machines.
  set_all : ℕ → SignalState → Sps Device (Unit {0})
  set_all num_machines state =
      for_below num_machines (λ m. for_below light_end (λ l. set_light m l state))

  unfoldable pub test_lights : Sps Device (Unit {0})
  unfolding set_all
  test_lights = do
    plcs ← size
    let num_machines = plcs * sps_num_machines
    set_all num_machines signal_blink
    set_all num_machines signal_on
    for_below light_end (λ l. reset_lights >> for_below num_machines (λ m. set_light m l signal_on))
    set_all num_machines signal_off
    for_below sps_num_machines (λ m.
        for_below plcs
          (λ s. for_below light_end (λ l. set_light (s * sps_num_machines + m) l signal_on)))
