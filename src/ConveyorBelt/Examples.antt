-- ===== src/ConveyorBelt/Examples.antt =====
-- Runs of src/rockin/plugins/triggered_conveyor_belt/triggered_conveyor_belt_thread.cpp, with a
-- status of two numbers, the cycle and the mode, in place of what protobuf parses.
use at_work_central_factory.Common.{
  ℕ, ◌+◌, ◌≡◌, refl, Bool, true, false, none, some, List, [], ◌∷◌, ok, ◌>>=◌, All, arith, ◌==◌,
  if◌then◌else◌,
}
use at_work_central_factory.Common.Int.{pos}
use at_work_central_factory.ConveyorBelt.{
  Belt, stop, start, no_plate, unknown_plate, ConveyorBeltStatus, ConveyorBeltCommand, Libraries,
  Readings, Action, publish, new_belt, is_belt_running, start_belt, stop_belt,
}
use at_work_central_factory.ConveyorBelt.Loop.{
  init, loop, receive_conveyor, receive_camera, send_requested, set_conveyor_belt_run_mode,
  conveyor_parsed, conveyor_silent, camera_silent, compare_cycle,
}
use at_work_central_factory.ConveyorBelt.Events.{
  Event, looped, call_start_belt, call_stop_belt, step, run,
}
use at_work_central_factory.ConveyorBelt.Passes.{commands}
use at_work_central_factory.ConveyorBelt.Quiet.{IsQuiet, stop_belt-confirmed}
use at_work_central_factory.ConveyorBelt.Pending.{IsPending, IsFor}
use at_work_central_factory.ConveyorBelt.Retry.{run-IsPending, loop-IsPending}
use at_work_central_factory.ConveyorBelt.Spacing.{
  History, began, looped as passed, is_spaced, History-is_spaced,
}

abbrev status : ℕ → ℕ → ConveyorBeltStatus
status cycle mode = record {
  is_device_connected = some true;
  mode = some (if mode == 0 then stop else start);
  cycle = some (pos cycle);
}

abbrev no_status : ConveyorBeltStatus
no_status = record { is_device_connected = none; mode = none; cycle = none }

abbrev two_numbers : List ℕ → Bool × ConveyorBeltStatus
two_numbers [] = (false, no_status)
two_numbers (c ∷ []) = (false, no_status)
two_numbers (c ∷ m ∷ []) = (true, status c m)
two_numbers (c ∷ m ∷ x ∷ xs) = (false, no_status)

abbrev libraries : Libraries
libraries = record {
  parse_conveyor = two_numbers;
  parse_camera = λ bytes. (true, record { is_device_connected = some true; state = none });
  unset_milliseconds = 1000000000000;
  unset_seconds = 1000000000;
}

-- The four readings of a pass.
abbrev at_time : ℕ → Readings
at_time now = record { conveyor = now; camera = now; checked = now; sent = now + 10 }

abbrev reset_command : ConveyorBeltCommand
reset_command = record { mode = stop; reset = some true; next_cycle = pos 1 }

-- After initialisation at 0, and after a second reset command.
abbrev initialised : Belt
initialised = record {
  zmq_publisher = true;
  zmq_camera_subscriber = true;
  zmq_conveyor_subscriber = true;
  cfg_timer_interval = 40;
  cycle = 0;
  send_conveyor_command = false;
  send_reset_command = true;
  last_conveyor_status_msg = no_status;
  requested_run_mode = stop;
  last_camera_status_msg = record { is_device_connected = none; state = none };
  last_state = no_plate;
  prev_conveyor_update_timestamp = none;
  prev_camera_update_timestamp = none;
  last_sent_command_timestamp = some 10;
}

abbrev reset_twice : Belt
reset_twice = record initialised {
  last_sent_command_timestamp = some 2000010;
  last_conveyor_status_msg = status 0 0;
  prev_conveyor_update_timestamp = some 2000000;
  last_camera_status_msg = record { is_device_connected = some false; state = some unknown_plate };
}

init_sends :
    init libraries new_belt none true (at_time 0) true
    ≡ ok (initialised, publish reset_command ∷ [])
unfolding init new_belt set_conveyor_belt_run_mode
init_sends = refl

loop_sends :
    loop libraries initialised (at_time 2000000) (some (0 ∷ 0 ∷ [])) none true
    ≡ ok (reset_twice, publish reset_command ∷ [])
unfolding loop receive_conveyor receive_camera conveyor_parsed compare_cycle camera_silent
    send_requested set_conveyor_belt_run_mode
loop_sends = refl

-- A command of the rules to start, sent at 5 s.
abbrev starting : Belt
starting = record reset_twice {
  send_conveyor_command = true;
  requested_run_mode = start;
  last_sent_command_timestamp = some 5000010;
}

loop_starts :
    run libraries reset_twice
      (call_start_belt ∷ looped (at_time 5000000) (some (0 ∷ 0 ∷ [])) none true ∷ [])
    ≡ ok (
      record starting { prev_conveyor_update_timestamp = some 5000000 },
      publish (record { mode = start; reset = some true; next_cycle = pos 1 }) ∷ [],
    )
unfolding run step start_belt loop receive_conveyor receive_camera conveyor_parsed compare_cycle
    camera_silent send_requested set_conveyor_belt_run_mode
loop_starts = refl

-- The report that the belt runs, and that it still does.
abbrev still_runs : List Event
still_runs = looped (at_time 7000000) (some (1 ∷ 1 ∷ [])) none true ∷ []

stop_belt-confirmed_example :
    (b' : Belt) × (out : List Action) × (run libraries starting
        (call_stop_belt ∷ looped (at_time 5100000) (some (1 ∷ 1 ∷ [])) none true ∷ still_runs)
      ≡ ok (b', out))
    × (IsQuiet stop 1 b' × (commands out ≡ []))
stop_belt-confirmed_example =
    stop_belt-confirmed libraries starting (at_time 5100000) (1 ∷ 1 ∷ []) (status 1 1) none true
      still_runs refl refl refl (refl, tt)

-- The belt goes on.
runs_on :
    run libraries starting
        (call_stop_belt ∷ looped (at_time 5100000) (some (1 ∷ 1 ∷ [])) none true ∷ still_runs)
      >>= (λ r. ok (is_belt_running r.0))
    ≡ ok true
unfolding run step stop_belt loop receive_conveyor receive_camera conveyor_parsed compare_cycle
    conveyor_silent camera_silent send_requested set_conveyor_belt_run_mode is_belt_running
runs_on = refl

starting-IsPending : IsPending start 0 starting
starting-IsPending = record {
  publisher = refl;
  cycle = refl;
  command = refl;
  requested = refl;
  unconfirmed = refl;
}

-- Nothing arrives, and then a status of an earlier cycle.
abbrev unconfirmed : List Event
unconfirmed =
    looped (at_time 5200000) none none true
    ∷ looped (at_time 6500000) (some (0 ∷ 0 ∷ [])) none true
    ∷ []

run-IsPending_example :
    (b' : Belt) × (out : List Action) × (run libraries starting unconfirmed ≡ ok (b', out))
    × (IsPending start 0 b' × All (IsFor start 0) (commands out))
run-IsPending_example =
    run-IsPending libraries starting unconfirmed (refl, (refl, tt)) starting-IsPending

loop-IsPending_example :
    (b' : Belt) × (out : List Action) × (loop libraries starting
        (at_time 6500000)
        (some (0 ∷ 0 ∷ []))
        none
        true
      ≡ ok (b', out))
    × (IsPending start 0 b'
        × (b'.last_sent_command_timestamp ≡ some 6500010)
        × (c : ConveyorBeltCommand) × (commands out ≡ c ∷ [])
        × IsFor start 0 c)
loop-IsPending_example =
    loop-IsPending libraries starting (at_time 6500000) (some (0 ∷ 0 ∷ [])) none refl (omega arith)
      starting-IsPending

two_resets : History libraries reset_twice (2000010 ∷ 10 ∷ [])
two_resets =
    passed (at_time 2000000) (some (0 ∷ 0 ∷ [])) none true (omega arith)
      (began none true (at_time 0) true (omega arith) init_sends) loop_sends

History-is_spaced_example : is_spaced (2000010 ∷ 10 ∷ []) ≡ true
History-is_spaced_example = History-is_spaced libraries two_resets
