-- ===== src/Sps/Lights.antt =====
-- The signal lights of src/libs/llsf_sps/sps_comm.cpp, seen in the registers of the PLCs.
use at_work_central_factory.Common.{
  ltb→lt, ℕ, zero, suc, ◌+◌, ◌*◌, ◌/◌, ◌%◌, ◌^◌, ◌≤◌, ◌<◌, ◌≡◌, ◌≢◌, refl, sym, ◌∙◌, ap, subst,
  Bool, true, false, not, ◌||◌, Option, none, some, List, [], ◌∷◌, length, get_elem?, set,
  get_elem?-set_self, get_elem?-set_ne, get_elem?-some, lt_of_get_elem?, replicate, ltb, ◌==◌,
  if◌then◌else◌, Result, ok, err, arith, Bool-cases, inl, inr, ◌⊎◌, Option-cases, ℕ_discrete,
  get_elem?-none,
}
use at_work_central_factory.Sps.{
  Modbus, SpsError, machine_out_of_bounds, light_out_of_bounds, failed_to_set_register,
  sps_num_machines, SignalState, write_each, out_reg_start_signal, light_green, light_red, throw_if,
  ◌>>◌,
}
use at_work_central_factory.Sps.Signals.{state_value, set_light, reset_lights}
use at_work_central_factory.Sps.Plc.{on_plc_lem, plc_index_in, plc_index_out}

finish :
    {Device : Type 0} (b : Bool) (mbs : List Device)
    → throw_if (not b) failed_to_set_register mbs
      ≡ (if b then (ok tt, mbs) else (err failed_to_set_register, mbs))
finish true mbs = refl
finish false mbs = refl

-- What is stored from address `a` on, over what `f` tells.
abbrev pub stored : List ℕ → ℕ → (ℕ → ℕ) → ℕ → ℕ
stored [] a f b = f b
stored (v ∷ vs) a f b = if a == b then v else stored vs (a + 1) f b

-- Devices that hold registers: a write that succeeds stores what it is given, and nothing else.
pub record RegisterFile {Device : Type 0} (bus : Modbus Device) : Type 0 where
  pub regs : Device → ℕ → ℕ
  pub register_stored :
      (d : Device) (a v b : ℕ)
      → (bus.write_register d a v).0 ≡ true
      → regs (bus.write_register d a v).1 b ≡ stored (v ∷ []) a (regs d) b
  pub registers_stored :
      (d : Device) (a n b : ℕ) (vs : List ℕ)
      → (bus.write_registers d a vs).0 ≡ some n
      → regs (bus.write_registers d a vs).1 b ≡ stored vs a (regs d) b

module _ {Device : Type 0} (bus : Modbus Device) where
  open bus use {write_register}

  -- A machine that exists and a light of an SPS signal go to one write, in the registers of the
  -- machine's PLC.
  pub set_light_in :
      (m l : ℕ) (state : SignalState) (mbs : List Device) (d : Device)
      → l ≤ light_green
      → get_elem? mbs (m / 16) ≡ some d
      → let r = write_register d (0x4400 + 3 * (m % 16) + l) (state_value state * 2 ^ 8) in
        set_light bus m l state mbs ≡ (
          if r.0
          then (ok tt, set mbs (m / 16) r.1)
          else (err failed_to_set_register, set mbs (m / 16) r.1))
  unfolding set_light
  set_light_in m l state mbs d hl there =
      let op = λ (mb : Device).
        write_register mb (0x4400 + 3 * (m % 16) + l) (state_value state * 2 ^ 8) in
      let in_range : (ltb l light_red || ltb light_green l) ≡ false = ground arith in
      let lt = lt_of_get_elem? mbs (m / 16) d there in
      let on_plc_range : ltb sps_num_machines (m % 16) ≡ false = ground arith in
      let address : 0x4400 + m % 16 * 3 + l ≡ 0x4400 + 3 * (m % 16) + l = omega arith in
      rw
        (
          in_range,
          ◌>>◌,
          plc_index_in m mbs (omega arith),
          on_plc_range,
          address,
          on_plc_lem op (m / 16) mbs d there,
        )
        (finish (op d).0 (set mbs (m / 16) (op d).1))

  -- A light or a machine that does not exist is refused before anything is written, the light
  -- first.
  pub set_light_out :
      (m l : ℕ) (state : SignalState) (mbs : List Device)
      → (light_green < l) ⊎ (sps_num_machines * length mbs ≤ m)
      → set_light bus m l state mbs
        ≡ (err (if ltb light_green l then light_out_of_bounds else machine_out_of_bounds), mbs)
  unfolding set_light
  set_light_out m l state mbs h = elim (Bool-cases (ltb light_green l)) [
    | inl out ↦
        let bad : (ltb l light_red || ltb light_green l) ≡ true = ground arith in rw (bad, out) refl
    | inr fits ↦
        let good : (ltb l light_red || ltb light_green l) ≡ false = ground arith in
        rw (good, fits, plc_index_out m mbs (ground arith)) refl
  ]

module _ {Device : Type 0} (bus : Modbus Device) (file : RegisterFile bus) where
  open bus use {write_register, write_registers}
  open file use {regs, register_stored, registers_stored}

  -- The register of light `l` of machine `m`, where there is such a machine.
  abbrev pub register_of : Option Device → ℕ → Option ℕ
  register_of none a = none
  register_of (some d) a = some (regs d a)

  abbrev pub light : List Device → ℕ → ℕ → Option ℕ
  light mbs m l = register_of (get_elem? mbs (m / 16)) (0x4400 + 3 * (m % 16) + l)

  light-some :
      (mbs : List Device) (m l : ℕ) (d : Device)
      → get_elem? mbs (m / 16) ≡ some d
      → light mbs m l ≡ some (regs d (0x4400 + 3 * (m % 16) + l))
  light-some mbs m l d h = rw h refl

  -- Two lights share a register only if they are the same light.
  pub light_registers_differ :
      (m l m' l' : ℕ)
      → l ≤ light_green
      → l' ≤ light_green
      → (m' ≢ m) ⊎ (l' ≢ l)
      → (m / 16 ≡ m' / 16)
      → (0x4400 + 3 * (m % 16) + l) ≢ (0x4400 + 3 * (m' % 16) + l')
  light_registers_differ m l m' l' hl hl' ne same e = ground arith

  written_light :
      (m l v : ℕ) (mbs : List Device) (d d' : Device)
      → l ≤ light_green
      → get_elem? mbs (m / 16) ≡ some d
      → ((b : ℕ) → regs d' b ≡ stored (v ∷ []) (0x4400 + 3 * (m % 16) + l) (regs d) b)
      → (light (set mbs (m / 16) d') m l ≡ some v)
        × ((m' l' : ℕ)
            → l' ≤ light_green
            → (m' ≢ m) ⊎ (l' ≢ l)
            → light (set mbs (m / 16) d') m' l' ≡ light mbs m' l')
  written_light m l v mbs d d' hl there new = (
    light-some _ m l d' (get_elem?-set_self mbs (m / 16) d' (lt_of_get_elem? mbs (m / 16) d there))
        ∙ ap some (new _ ∙ ground arith),
    (λ m' l' hl' ne. elim (ℕ_discrete (m / 16) (m' / 16)) [
      | yes same ↦
          let there' : get_elem? mbs (m' / 16) ≡ some d =
            subst (λ p. get_elem? mbs p ≡ some d) same there in
          let now : get_elem? (set mbs (m / 16) d') (m' / 16) ≡ some d' =
            subst (λ p. get_elem? (set mbs (m / 16) d') p ≡ some d') same
              (get_elem?-set_self mbs (m / 16) d' (lt_of_get_elem? mbs (m / 16) d there)) in
          let ne' = light_registers_differ m l m' l' hl hl' ne same in
          light-some _ m' l' d' now
          ∙ ap some (new _ ∙ ground arith)
          ∙ sym (light-some mbs m' l' d there')
      | no other ↦ rw (get_elem?-set_ne mbs (m / 16) (m' / 16) d' other) refl
    ]),
  )

  light_wrote :
      (m l : ℕ) (state : SignalState) (mbs mbs' : List Device) (d : Device)
      → l ≤ light_green
      → get_elem? mbs (m / 16) ≡ some d
      → let r = write_register d (0x4400 + 3 * (m % 16) + l) (state_value state * 2 ^ 8) in
        ◌≡◌ {A = Result SpsError (Unit {0}) × List Device}
          (if r.0
            then (ok tt, set mbs (m / 16) r.1)
            else (err failed_to_set_register, set mbs (m / 16) r.1))
          (ok tt, mbs')
        → (light mbs' m l ≡ some (state_value state * 2 ^ 8))
          × ((m' l' : ℕ)
              → l' ≤ light_green
              → (m' ≢ m) ⊎ (l' ≢ l)
              → light mbs' m' l' ≡ light mbs m' l')
  light_wrote m l state mbs mbs' d hl there h =
      let a = 0x4400 + 3 * (m % 16) + l in
      let v = state_value state * 2 ^ 8 in
      elim (Bool-cases (write_register d a v).0) [
        | inl done ↦
            subst
              (λ ms.
                (light ms m l ≡ some v)
                × ((m' l' : ℕ)
                    → l' ≤ light_green
                    → (m' ≢ m) ⊎ (l' ≢ l)
                    → light ms m' l' ≡ light mbs m' l'))
              (ground arith)
              (written_light m l v mbs d (write_register d a v).1 hl there
                (λ b. register_stored d a v b done))
        | inr failed ↦ ground arith
      ]

  set_lights :
      (m l : ℕ) (state : SignalState) (mbs mbs' : List Device)
      → set_light bus m l state mbs ≡ (ok tt, mbs')
      → (light mbs' m l ≡ some (state_value state * 2 ^ 8))
        × ((m' l' : ℕ)
            → l' ≤ light_green
            → (m' ≢ m) ⊎ (l' ≢ l)
            → light mbs' m' l' ≡ light mbs m' l')
  set_lights m l state mbs mbs' h = elim (Bool-cases (ltb light_green l)) [
    | inl bad ↦ ground (arith, set_light_out bus m l state mbs (inl (ltb→lt light_green l bad)))
    | inr good ↦ elim (Option-cases (get_elem? mbs (m / 16))) [
      | inl none_there ↦ ground (
        arith,
        set_light_out bus m l state mbs
            (inr (omega (arith, get_elem?-none mbs (m / 16) none_there))),
      )
      | inr (d, there) ↦
          light_wrote m l state mbs mbs' d (ground arith) there
            (sym (set_light_in bus m l state mbs d (ground arith) there) ∙ h)
    ]
  ]

  -- A light that was set shows its state, and the register of any other light of any machine is
  -- what it was.
  pub set_light_sets :
      (m l m' l' : ℕ) (state : SignalState) (mbs mbs' : List Device)
      → set_light bus m l state mbs ≡ (ok tt, mbs')
      → l' ≤ light_green
      → (m' ≢ m) ⊎ (l' ≢ l)
      → (light mbs' m l ≡ some (state_value state * 2 ^ 8)) × (light mbs' m' l' ≡ light mbs m' l')
  set_light_sets m l m' l' state mbs mbs' h hl ne =
      let all = set_lights m l state mbs mbs' h in (all.0, all.1 m' l' hl ne)

-- A run of zeros.
stored_zeros : (n a b : ℕ) (f : ℕ → ℕ) → a ≤ b → b < a + n → stored (replicate n 0) a f b ≡ 0
stored_zeros zero a b f h k = absurd (omega arith)
stored_zeros (suc n) a b f h k = ground (arith, stored_zeros n (a + 1) b f)

module _ {Device : Type 0} (bus : Modbus Device) (file : RegisterFile bus) where
  open bus use {write_registers}
  open file use {regs, registers_stored}

  write_each_cons :
      (a : ℕ) (fault : ℕ → SpsError) (vs : List ℕ) (k : ℕ) (mb : Device) (mbs mbs' : List Device)
      → write_each bus a fault vs k (mb ∷ mbs) ≡ (ok tt, mbs')
      → (n : ℕ) × (rest : List Device) × ((write_registers mb a vs).0 ≡ some n)
        × (write_each bus a fault vs (k + 1) mbs ≡ (ok tt, rest))
        × (mbs' ≡ (write_registers mb a vs).1 ∷ rest)
  unfolding write_each
  write_each_cons a fault vs k mb mbs mbs' h = elim (Option-cases (write_registers mb a vs).0) [
    | inl e ↦ ground arith
    | inr (n, e) ↦ (n, (write_each bus a fault vs (k + 1) mbs).1, e, ground arith, ground arith)
  ]

  write_each-stored :
      (a : ℕ) (fault : ℕ → SpsError) (vs : List ℕ) (k : ℕ) (mbs mbs' : List Device)
      → write_each bus a fault vs k mbs ≡ (ok tt, mbs')
      → (p : ℕ) (d : Device) → get_elem? mbs p ≡ some d
      → (d' : Device) × (get_elem? mbs' p ≡ some d')
        × ((b : ℕ) → regs d' b ≡ stored vs a (regs d) b)
  write_each-stored a fault vs k [] mbs' h p d there = cc
  write_each-stored a fault vs k (mb ∷ mbs) mbs' h zero d there =
      let (n, rest, e, r, same) = write_each_cons a fault vs k mb mbs mbs' h in
      (
        (write_registers mb a vs).1,
        rw same refl,
        (λ b. registers_stored mb a n b vs e ∙ ground arith),
      )
  write_each-stored a fault vs k (mb ∷ mbs) mbs' h (suc p) d there =
      let (n, rest, e, r, same) = write_each_cons a fault vs k mb mbs mbs' h in
      let (d', at, now) = write_each-stored a fault vs (k + 1) mbs rest r p d there in
      (d', rw same at, now)

  -- After a reset every light of every machine is off.
  pub reset_lights_clears :
      (mbs mbs' : List Device)
      → reset_lights bus mbs ≡ (ok tt, mbs')
      → (m l : ℕ) → l ≤ light_green
      → m < sps_num_machines * length mbs
      → light bus file mbs' m l ≡ some 0
  unfolding reset_lights
  reset_lights_clears mbs mbs' h m l hl hm =
      let (d, there) = get_elem?-some mbs (m / 16) (omega arith) in
      let (d', at, now) =
        write_each-stored out_reg_start_signal _ (replicate 48 0) 0 mbs mbs' h (m / 16) d there in
      rw at (
        ap some (
          now (0x4400 + 3 * (m % 16) + l)
          ∙ stored_zeros 48 0x4400 (0x4400 + 3 * (m % 16) + l) (regs d) (omega arith)
              (omega arith)))
