-- ===== src/Sps/Writing.antt =====
-- Writing the ID of a puck: `write_rfid` of src/libs/llsf_sps/sps_comm.cpp and the device's replies.
use at_work_central_factory.Common.{
  ℕ, zero, suc, ◌+◌, ◌*◌, ◌/◌, ◌%◌, ◌^◌, ◌≤◌, ◌<◌, ◌≡◌, refl, ◌∙◌, ap, true, false, some, List, [],
  ◌∷◌, get_elem?, set, length-set, get_elem?-set_self, set-set, lt_of_get_elem?, ok, arith,
}
use at_work_central_factory.Sps.{Modbus, rfid_write_done, rfid_write_puck_id, rfid_reset_write}
use at_work_central_factory.Sps.Readers.{
  rfid_id, write_three, await_write, write_rfid, read_three, three_registers,
}
use at_work_central_factory.Sps.Plc.{on_plc_lem, plc_index_in}

-- The two words that `write_rfid` sends are the two that `read_rfid` puts together.
pub rfid_id_words : (id : ℕ) → id < 2 ^ 32 → rfid_id (id / 2 ^ 16 % 2 ^ 16) (id % 2 ^ 16) ≡ id
rfid_id_words id h = omega arith

module _ {Device : Type 0} (bus : Modbus Device) where
  open bus use {write_registers, read_registers}

  -- The device's replies to the reads of a status: none of the first shows that the write is done,
  -- the last one does. Indexed by their number, and by the device before and after.
  pub data Acks (addr : ℕ) : ℕ → Device → Device → Type 0 where
    acked :
        {d d' : Device} (status high low : ℕ)
        → read_registers d addr 3 ≡ (some (status ∷ high ∷ low ∷ []), d')
        → rfid_write_done status ≡ true
        → Acks addr 1 d d'
    waiting :
        {n : ℕ} {d d' d'' : Device} (status high low : ℕ)
        → read_registers d addr 3 ≡ (some (status ∷ high ∷ low ∷ []), d')
        → rfid_write_done status ≡ false
        → Acks addr n d' d''
        → Acks addr (suc n) d d''

  read_three_lem :
      (plc addr : ℕ) (mbs : List Device) (d d' : Device) (a b c : ℕ)
      → get_elem? mbs plc ≡ some d
      → read_registers d addr 3 ≡ (some (a ∷ b ∷ c ∷ []), d')
      → read_three bus plc addr mbs ≡ (ok (a, b, c), set mbs plc d')
  unfolding read_three three_registers
  read_three_lem plc addr mbs d d' a b c there h =
      rw (on_plc_lem (λ mb. read_registers mb addr 3) plc mbs d there, h) refl

  await_write_lem :
      {addr n : ℕ} {d d' : Device} (fuel plc : ℕ) (mbs : List Device)
      → Acks addr n d d'
      → n ≤ fuel
      → get_elem? mbs plc ≡ some d
      → await_write bus fuel plc addr mbs ≡ (ok tt, set mbs plc d')
  unfolding await_write
  await_write_lem zero plc mbs (acked s high low r done) le there = absurd (omega arith)
  await_write_lem {addr = addr} {d = d} {d' = d'} (suc fuel) plc mbs (acked s high low r done) le
        there =
      rw (read_three_lem plc addr mbs d d' s high low there r, done) refl
  await_write_lem zero plc mbs (waiting s high low r done more) le there = absurd (omega arith)
  await_write_lem {addr = addr} {d = d} {d' = d''} (suc fuel) plc mbs
        (waiting {n = n} {d' = d'} s high low r done more) le there =
      rw (read_three_lem plc addr mbs d d' s high low there r, done)
        (await_write_lem {n = n} fuel plc (set mbs plc d') more (omega arith)
            (get_elem?-set_self mbs plc d' (lt_of_get_elem? mbs plc d there))
          ∙ ap (λ l. (ok tt, l)) (set-set mbs plc d' d''))

  write_three_lem :
      (plc addr : ℕ) (mbs : List Device) (d d' : Device) (a b c : ℕ)
      → get_elem? mbs plc ≡ some d
      → write_registers d addr (a ∷ b ∷ c ∷ []) ≡ (some 3, d')
      → write_three bus plc addr (a, b, c) mbs ≡ (ok tt, set mbs plc d')
  unfolding write_three
  write_three_lem plc addr mbs d d' a b c there h =
      rw (on_plc_lem (λ mb. write_registers mb addr (a ∷ b ∷ c ∷ [])) plc mbs d there, h) refl

  -- Where the device of a machine takes the request and the reset in full, and shows after `n`
  -- reads that the write is done, `write_rfid` ends within `n` turns of its loop, with success; no
  -- other device is touched.
  pub write_rfid_ends :
      (fuel n m id : ℕ) (mbs : List Device) (d₀ d₁ d₂ d₃ : Device)
      → get_elem? mbs (m / 16) ≡ some d₀
      → write_registers d₀
          (0x4430 + m % 16 * 3)
          (rfid_write_puck_id ∷ id / 2 ^ 16 % 2 ^ 16 ∷ id % 2 ^ 16 ∷ [])
        ≡ (some 3, d₁)
      → Acks (0x4000 + m % 16 * 3) n d₁ d₂
      → write_registers d₂ (0x4430 + m % 16 * 3) (rfid_reset_write ∷ 0 ∷ 0 ∷ []) ≡ (some 3, d₃)
      → n ≤ fuel
      → write_rfid bus fuel m id mbs ≡ (ok tt, set mbs (m / 16) d₃)
  unfolding write_rfid
  write_rfid_ends fuel n m id mbs d₀ d₁ d₂ d₃ there asked acks reset enough =
      let plc = m / 16 in
      let low = lt_of_get_elem? mbs (m / 16) d₀ there in
      let at₁ = get_elem?-set_self mbs (m / 16) d₁ low in
      let at₂ =
        get_elem?-set_self (set mbs (m / 16) d₁) (m / 16) d₂
          (rw (length-set mbs (m / 16) d₁) low) in
      rw
        (
          plc_index_in m mbs (omega arith),
          write_three_lem (m / 16) (0x4430 + m % 16 * 3) mbs d₀ d₁ 0x0100 (id / 2 ^ 16 % 2 ^ 16)
              (id % 2 ^ 16) there asked,
          await_write_lem {addr = 0x4000 + m % 16 * 3} {n = n} {d = d₁} {d' = d₂} fuel (m / 16)
              (set mbs (m / 16) d₁) acks enough at₁,
          write_three_lem (m / 16) (0x4430 + m % 16 * 3) (set (set mbs (m / 16) d₁) (m / 16) d₂) d₂
              d₃ 0x0200 0 0 at₂ reset,
          set-set mbs (m / 16) d₁ d₂,
          set-set mbs (m / 16) d₂ d₃,
        )
        refl
