-- ===== src/ConveyorBelt/Pending.antt =====
-- A request in src/rockin/plugins/triggered_conveyor_belt/triggered_conveyor_belt_thread.cpp that
-- the belt has not confirmed yet: its command is sent again and again.
use at_work_central_factory.Common.{
  not-eq-true, ℕ, ◌≡◌, ◌∙◌, ap, Bool, true, false, not, ◌&&◌, Option, none, some, List, [], ◌∷◌, ok,
  if-intro, if◌then◌else◌, leb, ltb, Bool-cases, inl, inr,
}
use at_work_central_factory.Common.Int.{int_eq, int_ltb, int_eq_comm}
use at_work_central_factory.ConveyorBelt.{
  Belt, RunMode, ConveyorBeltStatus, ConveyorBeltCommand, Libraries, Readings, publish, cycle_of,
  expected_cycle,
}
use at_work_central_factory.ConveyorBelt.Loop.{
  compare_cycle, conveyor_parsed, conveyor_silent, seconds_since, milliseconds_since,
  receive_conveyor, send_requested,
}
use at_work_central_factory.ConveyorBelt.Events.{Event, looped, call_start_belt, call_stop_belt}
use at_work_central_factory.ConveyorBelt.Passes.{SameBelt}

-- A mode is asked for with the command after the `n`th, which the last status does not confirm.
pub record IsPending (mode : RunMode) (n : ℕ) (b : Belt) : Type 0 where
  pub publisher : b.zmq_publisher ≡ true
  pub cycle : b.cycle ≡ n
  pub command : b.send_conveyor_command ≡ true
  pub requested : b.requested_run_mode ≡ mode
  pub unconfirmed : int_eq (cycle_of b.last_conveyor_status_msg) (expected_cycle n) ≡ false

-- The command is the one that is asked for.
pub record IsFor (asked : RunMode) (n : ℕ) (c : ConveyorBeltCommand) : Type 0 where
  pub mode : c.mode ≡ asked
  pub next_cycle : c.next_cycle ≡ expected_cycle n

pub SameBelt-IsPending :
    {mode : RunMode} {n : ℕ} {b b' : Belt}
    → SameBelt b b'
    → IsPending mode n b
    → IsPending mode n b'
SameBelt-IsPending s q = record {
  publisher = s.publisher ∙ q.publisher;
  cycle = s.cycle ∙ q.cycle;
  command = s.command ∙ q.command;
  requested = s.requested ∙ q.requested;
  unconfirmed = rw s.status q.unconfirmed;
}

compare_cycle-IsPending :
    {mode : RunMode} {n : ℕ} (b : Belt) (m : ConveyorBeltStatus)
    → int_eq (cycle_of m) (expected_cycle n) ≡ false
    → IsPending mode n b
    → IsPending mode n (compare_cycle b (cycle_of m))
unfolding compare_cycle
compare_cycle-IsPending {mode} {n} b m other q =
    let other' : int_eq (cycle_of m) (expected_cycle b.cycle) ≡ false = rw q.cycle other in
    rw other' (
      if-intro (IsPending mode n) (int_ltb (expected_cycle b.cycle) (cycle_of m))
        (record b { send_reset_command = true }) b
        (λ _. record {
          publisher = q.publisher;
          cycle = q.cycle;
          command = q.command;
          requested = q.requested;
          unconfirmed = q.unconfirmed;
        })
        (λ _. q))

conveyor_parsed-IsPending :
    {mode : RunMode} {n : ℕ} (b : Belt) (now : ℕ) (r : Bool × ConveyorBeltStatus)
    → int_eq (cycle_of r.1) (expected_cycle n) ≡ false
    → IsPending mode n b
    → IsPending mode n (conveyor_parsed b now r)
unfolding conveyor_parsed
conveyor_parsed-IsPending b now (false, m) other q = record {
  publisher = q.publisher;
  cycle = q.cycle;
  command = q.command;
  requested = q.requested;
  unconfirmed = other;
}
conveyor_parsed-IsPending b now (true, m) other q =
    let q' = compare_cycle-IsPending b m other q in
    record {
      publisher = q'.publisher;
      cycle = q'.cycle;
      command = q'.command;
      requested = q'.requested;
      unconfirmed = other;
    }

module _ (l : Libraries) where
  -- A message that arrives, if one does, does not hold the number of the command.
  abbrev pub is_other : ℕ → Option (List ℕ) → Bool
  is_other n none = true
  is_other n (some bytes) = not (int_eq (cycle_of (l.parse_conveyor bytes).1) (expected_cycle n))

  -- A pass in which the command is not confirmed, and the publisher takes what it is given.
  abbrev pub is_retry : ℕ → Event → Bool
  is_retry n (looped t conveyor camera delivered) = delivered && is_other n conveyor
  is_retry n call_start_belt = false
  is_retry n call_stop_belt = false

  conveyor_silent-IsPending :
      {mode : RunMode} {n : ℕ} (b : Belt) (now : ℕ)
      → IsPending mode n b
      → IsPending mode n (conveyor_silent l b now)
  unfolding conveyor_silent
  conveyor_silent-IsPending b now q =
      elim (Bool-cases (leb 3 (seconds_since l b.prev_conveyor_update_timestamp now))) [
        | inl late ↦ rw late (record {
          publisher = q.publisher;
          cycle = q.cycle;
          command = q.command;
          requested = q.requested;
          unconfirmed = q.unconfirmed;
        })
        | inr soon ↦ rw soon q
      ]

  pub receive_conveyor-IsPending :
      {mode : RunMode} {n : ℕ} (b : Belt) (now : ℕ) (conveyor : Option (List ℕ))
      → is_other n conveyor ≡ true
      → IsPending mode n b
      → IsPending mode n (receive_conveyor l b now conveyor)
  unfolding receive_conveyor
  receive_conveyor-IsPending {mode} {n} b now none other q =
      if-intro (IsPending mode n) b.zmq_conveyor_subscriber (conveyor_silent l b now) b
        (λ _. conveyor_silent-IsPending b now q) (λ _. q)
  receive_conveyor-IsPending {mode} {n} b now (some bytes) other q =
      if-intro (IsPending mode n) b.zmq_conveyor_subscriber
        (conveyor_parsed b now (l.parse_conveyor bytes)) b
        (λ _.
          conveyor_parsed-IsPending b now (l.parse_conveyor bytes)
            (not-eq-true (int_eq (cycle_of (l.parse_conveyor bytes).1) (expected_cycle n)) other) q)
        (λ _. q)

  pub other_status :
      {mode : RunMode} {n : ℕ} (b : Belt)
      → IsPending mode n b
      → int_eq (expected_cycle b.cycle) (cycle_of b.last_conveyor_status_msg) ≡ false
  other_status {mode} {n} b q =
      int_eq_comm (expected_cycle b.cycle) (cycle_of b.last_conveyor_status_msg)
      ∙ ap (λ k. int_eq (cycle_of b.last_conveyor_status_msg) (expected_cycle k)) q.cycle
      ∙ q.unconfirmed

  -- The command that a pass would send.
  abbrev pub due_command : Belt → ConveyorBeltCommand
  due_command b = record {
    mode = b.requested_run_mode;
    reset = if b.send_reset_command then some true else none;
    next_cycle = expected_cycle b.cycle;
  }

  -- A second after the command was sent last it is sent again, and not earlier.
  pub send_due :
      {mode : RunMode} {n : ℕ} (b : Belt) (t : Readings)
      → ltb (milliseconds_since l b.last_sent_command_timestamp t.checked) 1000 ≡ false
      → IsPending mode n b
      → send_requested l b t true
        ≡ ok (record b { last_sent_command_timestamp = some t.sent }, publish (due_command b) ∷ [])
  unfolding send_requested
  send_due b t late q = simp (q.command, other_status b q, late, q.publisher)

  pub send_early :
      {mode : RunMode} {n : ℕ} (b : Belt) (t : Readings) (delivered : Bool)
      → ltb (milliseconds_since l b.last_sent_command_timestamp t.checked) 1000 ≡ true
      → IsPending mode n b
      → send_requested l b t delivered ≡ ok (b, [])
  unfolding send_requested
  send_early b t delivered early q = simp (q.command, other_status b q, early)
