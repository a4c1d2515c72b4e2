-- ===== src/Sps/Rfid.antt =====
-- Reading pucks: `read_rfid` and `read_rfids` of src/libs/llsf_sps/sps_comm.cpp, side by side.
use at_work_central_factory.Common.{
  ℕ, zero, suc, ◌+◌, ◌*◌, ◌/◌, ◌%◌, ◌≤◌, ◌<◌, ◌≡◌, refl, ◌∙◌, ap, Bool, true, false, Option, none,
  some, List, [], ◌∷◌, ◌++◌, length, get_elem?, get_elem?-append_left, get_elem?-append_right,
  set_same, get_elem?-some, lt_of_get_elem?, if◌then◌else◌, ok, arith,
}
use at_work_central_factory.Sps.{Modbus, sps_num_machines, rfid_has_puck}
use at_work_central_factory.Sps.Readers.{
  reg, map_below_from, no_puck, rfid_id, rfid_entry, read_three, three_registers, read_rfid,
  block_registers, read_rfids_from, read_rfids,
}
use at_work_central_factory.Sps.Plc.{on_plc_lem, plc_index_in}

-- `n` registers from address `a` on.
abbrev pub window : (ℕ → ℕ) → ℕ → ℕ → List ℕ
window f a zero = []
window f a (suc n) = f a ∷ window f (a + 1) n

-- Of these devices, each answers every read with what `inputs` says that its registers hold, and is
-- not changed by it.
abbrev pub Answering : {Device : Type 0} → Modbus Device → (Device → ℕ → ℕ) → List Device → Type 0
Answering {Device} bus inputs mbs =
    (i : ℕ) (d : Device)
    → get_elem? mbs i ≡ some d
    → (a n : ℕ) → bus.read_registers d a n ≡ (some (window (inputs d) a n), d)

reg-window : (f : ℕ → ℕ) (a n i : ℕ) → i < n → reg (window f a n) i ≡ f (a + i)
reg-window f a zero i h = absurd (omega arith)
reg-window f a (suc n) zero h = ap f (omega arith)
reg-window f a (suc n) (suc i) h = reg-window f (a + 1) n i (omega arith) ∙ ap f (omega arith)

length-map_below_from : {A : Type 0} (k n : ℕ) (f : ℕ → A) → length (map_below_from k n f) ≡ n
length-map_below_from k zero f = refl
length-map_below_from k (suc n) f = ap suc (length-map_below_from (k + 1) n f)

get_elem?-map_below_from :
    {A : Type 0} (k n i : ℕ) (f : ℕ → A)
    → i < n
    → get_elem? (map_below_from k n f) i ≡ some (f (k + i))
get_elem?-map_below_from k zero i f h = absurd (omega arith)
get_elem?-map_below_from k (suc n) zero f h = ap (λ j. some (f j)) (omega arith)
get_elem?-map_below_from k (suc n) (suc i) f h =
    get_elem?-map_below_from (k + 1) n i f (omega arith) ∙ ap (λ j. some (f j)) (omega arith)

-- The puck at a reader: none, or its ID.
abbrev pub puck : ℕ → ℕ → ℕ → Option ℕ
puck status high low = if rfid_has_puck status then some (rfid_id high low) else none

-- How `read_rfids` writes it.
abbrev pub or_no_puck : Option ℕ → ℕ
or_no_puck none = no_puck
or_no_puck (some id) = id

if-or_no_puck :
    (b : Bool) (id : ℕ) → (if b then id else no_puck) ≡ or_no_puck (if b then some id else none)
if-or_no_puck true id = refl
if-or_no_puck false id = refl

entry_lem :
    (f : ℕ → ℕ) (n i : ℕ)
    → i * 3 + 2 < n
    → rfid_entry (window f 0x4000 n) i
      ≡ or_no_puck (puck (f (0x4000 + i * 3)) (f (0x4000 + (i * 3 + 1))) (f (0x4000 + (i * 3 + 2))))
entry_lem f n i h =
    rw
      (
        reg-window f 0x4000 n (i * 3) (omega arith),
        reg-window f 0x4000 n (i * 3 + 1) (omega arith),
        reg-window f 0x4000 n (i * 3 + 2) (omega arith),
      )
      (if-or_no_puck (rfid_has_puck (f (0x4000 + i * 3)))
        (rfid_id (f (0x4000 + (i * 3 + 1))) (f (0x4000 + (i * 3 + 2)))))

module _ {Device : Type 0} (bus : Modbus Device) (inputs : Device → ℕ → ℕ) where
  open bus use {read_registers}

  -- The puck at reader `i` of a device.
  at_reader : Device → ℕ → Option ℕ
  at_reader d i =
      puck (inputs d (0x4000 + i * 3)) (inputs d (0x4000 + (i * 3 + 1)))
        (inputs d (0x4000 + (i * 3 + 2)))

  read_rfid_lem :
      (m : ℕ) (mbs : List Device) (d : Device)
      → Answering bus inputs mbs
      → get_elem? mbs (m / 16) ≡ some d
      → read_rfid bus m mbs ≡ (ok (at_reader d (m % 16)), mbs)
  unfolding read_rfid read_three three_registers at_reader
  read_rfid_lem m mbs d answers there =
      let low = lt_of_get_elem? mbs (m / 16) d there in
      let second : 0x4000 + m % 16 * 3 + 1 ≡ 0x4000 + (m % 16 * 3 + 1) = omega arith in
      let third : 0x4000 + (m % 16 * 3 + 1) + 1 ≡ 0x4000 + (m % 16 * 3 + 2) = omega arith in
      rw
        (
          plc_index_in m mbs (omega arith),
          on_plc_lem (λ mb. read_registers mb (0x4000 + m % 16 * 3) 3) (m / 16) mbs d there,
          answers (m / 16) d there (0x4000 + m % 16 * 3) 3,
          set_same mbs (m / 16) d there,
          second,
          third,
        )
        refl

  -- What one device adds to the vector.
  block : Device → List ℕ
  block d = map_below_from 0 16 (rfid_entry (window (inputs d) 0x4000 48))

  block_entry :
      (d : Device) (i : ℕ) → i < 16 → get_elem? (block d) i ≡ some (or_no_puck (at_reader d i))
  unfolding block at_reader
  block_entry d i h =
      let from_zero : 0 + i ≡ i = omega arith in
      get_elem?-map_below_from 0 16 i (rfid_entry (window (inputs d) 0x4000 48)) h
      ∙ ap (λ j. some (rfid_entry (window (inputs d) 0x4000 48) j)) from_zero
      ∙ ap some (entry_lem (inputs d) 48 i (omega arith))

  length-block : (d : Device) → length (block d) ≡ 16
  unfolding block
  length-block d = length-map_below_from 0 16 (rfid_entry (window (inputs d) 0x4000 48))

  block_of : Option Device → List ℕ
  block_of none = []
  block_of (some d) = block d

  blocks : List Device → ℕ → ℕ → List ℕ
  blocks mbs m zero = []
  blocks mbs m (suc n) = block_of (get_elem? mbs m) ++ blocks mbs (m + 1) n

  read_rfids_from_lem :
      (m n : ℕ) (mbs : List Device)
      → Answering bus inputs mbs
      → m + n ≤ length mbs
      → read_rfids_from bus m n mbs ≡ (ok (blocks mbs m n), mbs)
  unfolding read_rfids_from blocks block_of block block_registers
  read_rfids_from_lem m zero mbs answers h = refl
  read_rfids_from_lem m (suc n) mbs answers h =
      let (d, there) = get_elem?-some mbs m (omega arith) in
      rw
        (
          on_plc_lem (λ mb. read_registers mb 0x4000 48) m mbs d there,
          answers m d there 0x4000 48,
          set_same mbs m d there,
          read_rfids_from_lem (m + 1) n mbs answers (omega arith),
          there,
          block_of,
        )
        refl

  blocks_entry :
      (mbs : List Device) (m n p i : ℕ) (d : Device)
      → p < n
      → i < 16
      → get_elem? mbs (m + p) ≡ some d
      → m + n ≤ length mbs
      → get_elem? (blocks mbs m n) (16 * p + i) ≡ some (or_no_puck (at_reader d i))
  unfolding blocks block_of
  blocks_entry mbs m zero p i d hp hi there h = absurd (omega arith)
  blocks_entry mbs m (suc n) zero i d hp hi there h =
      let here : get_elem? mbs m ≡ some d = ap (get_elem? mbs) (omega arith) ∙ there in
      ap (λ o. get_elem? (block_of o ++ blocks mbs (m + 1) n) (16 * 0 + i)) here
      ∙ ap (get_elem? (block d ++ blocks mbs (m + 1) n)) (omega arith)
      ∙ get_elem?-append_left (block d) (blocks mbs (m + 1) n) i (rw (length-block d) hi)
      ∙ block_entry d i hi
  blocks_entry mbs m (suc n) (suc p) i d hp hi there h =
      let (d₀, here) = get_elem?-some mbs m (omega arith) in
      let next : get_elem? mbs (m + 1 + p) ≡ some d = ap (get_elem? mbs) (omega arith) ∙ there in
      ap (λ o. get_elem? (block_of o ++ blocks mbs (m + 1) n) (16 * (suc p) + i)) here
      ∙ get_elem?-append_right (block d₀) (blocks mbs (m + 1) n) (16 * p + i) (16 * (suc p) + i)
          (omega (arith, length-block d₀))
      ∙ blocks_entry mbs (m + 1) n p i d (omega arith) hi next (omega arith)

  -- If every PLC answers each read with what its registers hold, and reading changes none: reading all
  -- pucks and reading the puck of one machine throw nothing, and where the one gives no puck for the
  -- machine the other has 0xffffffff, and the same ID else.
  pub read_rfids-read_rfid :
      (m : ℕ) (mbs : List Device)
      → Answering bus inputs mbs
      → m < sps_num_machines * length mbs
      → (ids : List ℕ) × (o : Option ℕ) × (read_rfids bus mbs ≡ (ok ids, mbs))
        × (read_rfid bus m mbs ≡ (ok o, mbs))
        × (get_elem? ids m ≡ some (or_no_puck o))
  unfolding read_rfids
  read_rfids-read_rfid m mbs answers h =
      let (d, there) = get_elem?-some mbs (m / 16) (omega arith) in
      (
        blocks mbs 0 (length mbs),
        at_reader d (m % 16),
        read_rfids_from_lem 0 (length mbs) mbs answers (omega arith),
        read_rfid_lem m mbs d answers there,
        ap (get_elem? (blocks mbs 0 (length mbs))) (omega arith)
            ∙ blocks_entry mbs 0 (length mbs) (m / 16) (m % 16) d (omega arith) (omega arith)
                (ap (get_elem? mbs) (omega arith) ∙ there) (omega arith),
      )
