-- ===== src/ConveyorBelt/Events.antt =====
-- The thread of src/rockin/plugins/triggered_conveyor_belt/triggered_conveyor_belt_thread.cpp as a
-- state machine: passes of its loop, and the calls of the rules between them.
use at_work_central_factory.Common.{ℕ, Bool, Option, List, [], ◌∷◌, ◌++◌, Result, ok, ◌>>=◌}
use at_work_central_factory.ConveyorBelt.{
  Belt, Libraries, Readings, Action, BeltError, start_belt, stop_belt,
}
use at_work_central_factory.ConveyorBelt.Loop.{loop}

pub data Event : Type 0 where
  looped : Readings → (conveyor camera : Option (List ℕ)) (delivered : Bool) → Event
  call_start_belt call_stop_belt : Event

module _ (l : Libraries) where
  unfoldable pub step : Belt → Event → Result BeltError (Belt × List Action)
  step b (looped t conveyor camera delivered) = loop l b t conveyor camera delivered
  step b call_start_belt = ok (start_belt b, [])
  step b call_stop_belt = ok (stop_belt b, [])

  unfoldable pub run : Belt → List Event → Result BeltError (Belt × List Action)
  run b [] = ok (b, [])
  run b (e ∷ es) = step b e >>= λ r. run r.0 es >>= λ r'. ok (r'.0, r.1 ++ r'.1)
