-- ===== src/ConveyorBelt/Loop.antt =====
-- The passes of `loop`, and the initialisation, in
-- src/rockin/plugins/triggered_conveyor_belt/triggered_conveyor_belt_thread.cpp: what the messages
-- of the belt and the camera change, and when a command is sent.
use at_work_central_factory.Common.{
  ℕ, ◌+◌, ◌-◌, ◌/◌, ◌%◌, ◌^◌, Bool, true, false, Option, none, some, List, [], ◌∷◌, ◌++◌, ltb, leb,
  if◌then◌else◌, Result, ok, err, ◌>>=◌,
}
use at_work_central_factory.Common.Int.{ℤ, int_eq, int_ltb}
use at_work_central_factory.ConveyorBelt.{
  ConveyorBeltStatus, RunMode, CameraStatus, Action, publish, assert_fact, BeltError, null_pointer,
  publisher_failed, Libraries, Belt, Readings, stop, unknown_plate, expected_cycle, cycle_of,
  or_no_plate, plate_fact, configured,
}

-- The report of the next cycle confirms the command; one of a later cycle asks for a reset.
unfoldable pub compare_cycle : Belt → ℤ → Belt
compare_cycle b c =
    if int_eq c (expected_cycle b.cycle)
    then record b {
      cycle = (b.cycle + 1) % 2 ^ 32;
      send_conveyor_command = false;
      send_reset_command = false;
    }
    else (if int_ltb (expected_cycle b.cycle) c then record b { send_reset_command = true } else b)

unfoldable pub conveyor_parsed : Belt → ℕ → Bool × ConveyorBeltStatus → Belt
unfolding compare_cycle
conveyor_parsed b now (false, m) = record b { last_conveyor_status_msg = m }
conveyor_parsed b now (true, m) = record (compare_cycle b (cycle_of m)) {
  last_conveyor_status_msg = m;
  prev_conveyor_update_timestamp = some now;
}

unfoldable pub camera_parsed : Belt → ℕ → Bool × CameraStatus → Belt × List Action
camera_parsed b now (false, m) = (record b { last_camera_status_msg = m }, [])
camera_parsed b now (true, m) = (
  record b {
    last_camera_status_msg = m;
    prev_camera_update_timestamp = some now;
    last_state = or_no_plate m.state;
  },
  assert_fact (plate_fact (or_no_plate m.state)) ∷ [],
)

module _ (l : Libraries) where
  abbrev pub milliseconds_since : Option ℕ → ℕ → ℕ
  milliseconds_since none now = l.unset_milliseconds
  milliseconds_since (some t) now = (now - t) / 1000

  abbrev pub seconds_since : Option ℕ → ℕ → ℕ
  seconds_since none now = l.unset_seconds
  seconds_since (some t) now = (now - t) / 1000000

  -- `delivered` is whether the publisher takes the message; if it does not, it throws.
  unfoldable pub set_conveyor_belt_run_mode :
      Belt → RunMode → Readings → (delivered : Bool) → Result BeltError (Belt × List Action)
  set_conveyor_belt_run_mode b mode t delivered =
      if ltb (milliseconds_since b.last_sent_command_timestamp t.checked) 1000
      then ok (b, [])
      else (if b.zmq_publisher
          then (if delivered
              then ok (
                record b { last_sent_command_timestamp = some t.sent },
                publish (record {
                  mode = mode;
                  reset = if b.send_reset_command then some true else none;
                  next_cycle = expected_cycle b.cycle;
                })
                    ∷ [],
              )
              else err publisher_failed)
          else err null_pointer)

  -- A belt that is silent for three seconds counts as disconnected, and stopped.
  unfoldable pub conveyor_silent : Belt → ℕ → Belt
  conveyor_silent b now =
      if leb 3 (seconds_since b.prev_conveyor_update_timestamp now)
      then record b {
        last_conveyor_status_msg = record b.last_conveyor_status_msg {
          is_device_connected = some false;
          mode = some stop;
        };
      }
      else b

  -- `receiveAndBufferConveyorStatusMsg`; the message is what is there to receive.
  unfoldable pub receive_conveyor : Belt → ℕ → Option (List ℕ) → Belt
  unfolding conveyor_silent conveyor_parsed
  receive_conveyor b now none = if b.zmq_conveyor_subscriber then conveyor_silent b now else b
  receive_conveyor b now (some bytes) =
      if b.zmq_conveyor_subscriber then conveyor_parsed b now (l.parse_conveyor bytes) else b

  unfoldable pub camera_silent : Belt → ℕ → Belt
  camera_silent b now =
      if leb 3 (seconds_since b.prev_camera_update_timestamp now)
      then record b {
        last_camera_status_msg = record {
          is_device_connected = some false;
          state = some unknown_plate;
        };
      }
      else b

  -- `receiveAndBufferCameraStatusMsg`
  unfoldable pub receive_camera : Belt → ℕ → Option (List ℕ) → Belt × List Action
  unfolding camera_silent camera_parsed
  receive_camera b now none = if b.zmq_camera_subscriber then (camera_silent b now, []) else (b, [])
  receive_camera b now (some bytes) =
      if b.zmq_camera_subscriber then camera_parsed b now (l.parse_camera bytes) else (b, [])

  -- The part of `loop` under the lock: the command is sent, as long as it is not confirmed.
  unfoldable pub send_requested :
      Belt → Readings → (delivered : Bool) → Result BeltError (Belt × List Action)
  unfolding set_conveyor_belt_run_mode
  send_requested b t delivered =
      if b.send_conveyor_command
      then (if int_eq (expected_cycle b.cycle) (cycle_of b.last_conveyor_status_msg)
          then ok (b, [])
          else set_conveyor_belt_run_mode b b.requested_run_mode t delivered)
      else (if b.send_reset_command
          then set_conveyor_belt_run_mode b b.requested_run_mode t delivered
          else ok (b, []))

  unfoldable pub loop :
      Belt
      → Readings
      → (conveyor camera : Option (List ℕ)) (delivered : Bool)
      → Result BeltError (Belt × List Action)
  unfolding receive_conveyor receive_camera send_requested
  loop b t conveyor camera delivered =
      let (b', facts) = receive_camera (receive_conveyor b t.conveyor conveyor) t.camera camera in
      send_requested b' t delivered >>= λ r. ok (r.0, facts ++ r.1)

  -- `interval` is the configured one, if there is; `sockets` is whether the hosts and ports are
  -- configured and all sockets could be opened.
  unfoldable pub init :
      Belt
      → (interval : Option ℕ) (sockets : Bool) → Readings
      → (delivered : Bool) → Result BeltError (Belt × List Action)
  unfolding set_conveyor_belt_run_mode
  init b interval sockets t delivered =
      let b' = configured b interval sockets in
      set_conveyor_belt_run_mode b' b'.requested_run_mode t delivered
