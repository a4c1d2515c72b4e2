-- ===== src/ConveyorBelt.antt =====
-- src/rockin/plugins/triggered_conveyor_belt/triggered_conveyor_belt_thread.{h,cpp}: a conveyor
-- belt and the camera at its end. Each command has a number, and is sent until the belt reports
-- that number. The sockets of ZeroMQ, the messages of protobuf and the clock of Boost are given.
pub mod Loop
pub mod Events
pub mod Passes
pub mod Quiet
pub mod Pending
pub mod Retry
pub mod Spacing
mod Examples
use at_work_central_factory.Common.{
  ℕ, ◌+◌, ◌%◌, ◌^◌, String, Bool, true, false, Option, none, some, List,
}
use at_work_central_factory.Common.Int.{ℤ, pos, signed32}

pub data RunMode : Type 0 where
  stop start : RunMode

pub data Plate : Type 0 where
  no_plate unknown_plate faulty_plate unusable_plate : Plate

-- A field of a protobuf message that is not set is `none`.
pub record ConveyorBeltStatus : Type 0 where
  pub is_device_connected : Option Bool
  pub mode : Option RunMode
  pub cycle : Option ℤ

pub record CameraStatus : Type 0 where
  pub is_device_connected : Option Bool
  pub state : Option Plate

pub record ConveyorBeltCommand : Type 0 where
  pub mode : RunMode
  pub reset : Option Bool
  pub next_cycle : ℤ

-- What a thread does to the outside.
pub data Action : Type 0 where
  publish : ConveyorBeltCommand → Action
  assert_fact : String → Action

-- A null publisher is used, or it throws an exception that is none of Fawkes.
pub data BeltError : Type 0 where
  null_pointer publisher_failed : BeltError

-- What the libraries do: `ParseFromArray` gives the message as it leaves it and whether it could
-- parse it; the others are `total_milliseconds` and `total_seconds` of a duration from a time that
-- was never set.
pub record Libraries : Type 0 where
  pub parse_conveyor : List ℕ → Bool × ConveyorBeltStatus
  pub parse_camera : List ℕ → Bool × CameraStatus
  pub unset_milliseconds : ℕ
  pub unset_seconds : ℕ

-- The sockets count as whether they are not NULL. A time is in microseconds; a timestamp that was
-- never set is `none`.
pub record Belt : Type 0 where
  pub zmq_publisher : Bool
  pub zmq_camera_subscriber : Bool
  pub zmq_conveyor_subscriber : Bool
  pub cfg_timer_interval : ℕ
  pub cycle : ℕ
  pub send_conveyor_command : Bool
  pub send_reset_command : Bool
  pub last_conveyor_status_msg : ConveyorBeltStatus
  pub requested_run_mode : RunMode
  pub last_camera_status_msg : CameraStatus
  pub last_state : Plate
  pub prev_conveyor_update_timestamp : Option ℕ
  pub prev_camera_update_timestamp : Option ℕ
  pub last_sent_command_timestamp : Option ℕ

-- What the clock shows at its readings in one pass of `loop`.
pub record Readings : Type 0 where
  pub conveyor : ℕ
  pub camera : ℕ
  pub checked : ℕ
  pub sent : ℕ

-- The constructor
unfoldable pub new_belt : Belt
new_belt = record {
  zmq_publisher = false;
  zmq_camera_subscriber = false;
  zmq_conveyor_subscriber = false;
  cfg_timer_interval = 40;
  cycle = 0;
  send_conveyor_command = false;
  send_reset_command = true;
  last_conveyor_status_msg = record { is_device_connected = none; mode = none; cycle = none };
  requested_run_mode = stop;
  last_camera_status_msg = record { is_device_connected = none; state = none };
  last_state = no_plate;
  prev_conveyor_update_timestamp = none;
  prev_camera_update_timestamp = none;
  last_sent_command_timestamp = none;
}

-- `cycle_ + 1`, as an `int`
abbrev pub expected_cycle : ℕ → ℤ
expected_cycle cycle = signed32 ((cycle + 1) % 2 ^ 32)

-- `cycle()`, which is 0 where the field is not set
abbrev pub or_zero : Option ℤ → ℤ
or_zero none = pos 0
or_zero (some c) = c

abbrev pub cycle_of : ConveyorBeltStatus → ℤ
cycle_of m = or_zero m.cycle

abbrev pub or_no_plate : Option Plate → Plate
or_no_plate none = no_plate
or_no_plate (some plate) = plate

unfoldable pub plate_fact : Plate → String
plate_fact no_plate = "(quality-control-camera-object NO_PLATE)"
plate_fact unknown_plate = "(quality-control-camera-object UNKNOWN_PLATE)"
plate_fact faulty_plate = "(quality-control-camera-object FAULTY_PLATE)"
plate_fact unusable_plate = "(quality-control-camera-object UNUSABLE_PLATE)"

abbrev is_set_true : Option Bool → Bool
is_set_true none = false
is_set_true (some b) = b

abbrev is_start : Option RunMode → Bool
is_start (some start) = true
is_start (some stop) = false
is_start none = false

unfoldable pub is_belt_running : Belt → Bool
is_belt_running b = is_start b.last_conveyor_status_msg.mode

unfoldable pub is_belt_connected : Belt → Bool
is_belt_connected b = is_set_true b.last_conveyor_status_msg.is_device_connected

unfoldable pub is_camera_connected : Belt → Bool
is_camera_connected b = is_set_true b.last_camera_status_msg.is_device_connected

unfoldable pub start_belt : Belt → Belt
start_belt b = record b { requested_run_mode = start; send_conveyor_command = true }

unfoldable pub stop_belt : Belt → Belt
stop_belt b = record b { requested_run_mode = stop; send_conveyor_command = true }

unfoldable pub finalize : Belt → Belt
finalize b = record b {
  zmq_publisher = false;
  zmq_camera_subscriber = false;
  zmq_conveyor_subscriber = false;
}

abbrev pub configured : Belt → (interval : Option ℕ) (sockets : Bool) → Belt
configured b interval sockets = record b {
  cfg_timer_interval = elim interval [ none ↦ b.cfg_timer_interval | some n ↦ n ];
  zmq_publisher = sockets;
  zmq_camera_subscriber = sockets;
  zmq_conveyor_subscriber = sockets;
}
