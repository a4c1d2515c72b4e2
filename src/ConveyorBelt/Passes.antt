-- ===== src/ConveyorBelt/Passes.antt =====
-- A pass of `loop` in src/rockin/plugins/triggered_conveyor_belt/triggered_conveyor_belt_thread.cpp
-- taken apart: the camera leaves the belt's side of the state alone, and publishes nothing.
use at_work_central_factory.Common.{
  ℕ, ◌≡◌, refl, ap, Bool, true, false, Option, none, some, List, [], ◌∷◌, ◌++◌, ok, if-intro, arith,
}
use at_work_central_factory.ConveyorBelt.{
  Belt, ConveyorBeltCommand, CameraStatus, Libraries, Readings, Action, publish, assert_fact,
  ConveyorBeltStatus,
}
use at_work_central_factory.ConveyorBelt.Loop.{
  camera_parsed, camera_silent, compare_cycle, conveyor_parsed, conveyor_silent, receive_camera,
  receive_conveyor, send_requested, loop,
}

-- The commands that are published, in order.
abbrev pub commands : List Action → List ConveyorBeltCommand
commands [] = []
commands (publish c ∷ out) = c ∷ commands out
commands (assert_fact s ∷ out) = commands out

pub commands-append : (a b : List Action) → commands (a ++ b) ≡ commands a ++ commands b
commands-append [] b = refl
commands-append (Action.publish c ∷ a) b = ap (◌∷◌ c) (commands-append a b)
commands-append (Action.assert_fact s ∷ a) b = commands-append a b

-- Two states that differ in what concerns the camera at most.
pub record SameBelt (b b' : Belt) : Type 0 where
  pub publisher : b'.zmq_publisher ≡ b.zmq_publisher
  pub subscriber : b'.zmq_conveyor_subscriber ≡ b.zmq_conveyor_subscriber
  pub cycle : b'.cycle ≡ b.cycle
  pub command : b'.send_conveyor_command ≡ b.send_conveyor_command
  pub reset : b'.send_reset_command ≡ b.send_reset_command
  pub status : b'.last_conveyor_status_msg ≡ b.last_conveyor_status_msg
  pub requested : b'.requested_run_mode ≡ b.requested_run_mode
  pub last_sent : b'.last_sent_command_timestamp ≡ b.last_sent_command_timestamp

SameBelt-refl : (b : Belt) → SameBelt b b
SameBelt-refl b = record {
  publisher = refl;
  subscriber = refl;
  cycle = refl;
  command = refl;
  reset = refl;
  status = refl;
  requested = refl;
  last_sent = refl;
}

-- What a step of the camera may do.
abbrev pub IsSilent : Belt → Belt × List Action → Type 0
IsSilent b r = SameBelt b r.0 × (commands r.1 ≡ [])

camera_parsed-IsSilent :
    (b : Belt) (now : ℕ) (r : Bool × CameraStatus) → IsSilent b (camera_parsed b now r)
unfolding camera_parsed
camera_parsed-IsSilent b now (false, m) = (
  record {
    publisher = refl;
    subscriber = refl;
    cycle = refl;
    command = refl;
    reset = refl;
    status = refl;
    requested = refl;
    last_sent = refl;
  },
  refl,
)
camera_parsed-IsSilent b now (true, m) = (
  record {
    publisher = refl;
    subscriber = refl;
    cycle = refl;
    command = refl;
    reset = refl;
    status = refl;
    requested = refl;
    last_sent = refl;
  },
  refl,
)

module _ (l : Libraries) where
  camera_silent-SameBelt : (b : Belt) (now : ℕ) → SameBelt b (camera_silent l b now)
  unfolding camera_silent
  camera_silent-SameBelt b now =
      if-intro (SameBelt b) _ _ _
        (λ _. record {
          publisher = refl;
          subscriber = refl;
          cycle = refl;
          command = refl;
          reset = refl;
          status = refl;
          requested = refl;
          last_sent = refl;
        })
        (λ _. SameBelt-refl b)

  pub receive_camera-IsSilent :
      (b : Belt) (now : ℕ) (camera : Option (List ℕ)) → IsSilent b (receive_camera l b now camera)
  unfolding receive_camera
  receive_camera-IsSilent b now none =
      if-intro (IsSilent b) _ _ _ (λ _. (camera_silent-SameBelt b now, refl))
        (λ _. (SameBelt-refl b, refl))
  receive_camera-IsSilent b now (some bytes) =
      if-intro (IsSilent b) _ _ _ (λ _. camera_parsed-IsSilent b now (l.parse_camera bytes))
        (λ _. (SameBelt-refl b, refl))

  -- A predicate that holds of what is sent, in any state that the camera may leave behind, holds
  -- of the pass.
  pub loop-elim :
      (P : Belt → List ConveyorBeltCommand → Type 0) (b : Belt) (t : Readings)
      (conveyor camera : Option (List ℕ)) (delivered : Bool)
      → ((mid : Belt)
          → SameBelt (receive_conveyor l b t.conveyor conveyor) mid
          → (b' : Belt) × (out : List Action) × (send_requested l mid t delivered ≡ ok (b', out))
            × P b' (commands out))
      → (b' : Belt) × (out : List Action) × (loop l b t conveyor camera delivered ≡ ok (b', out))
        × P b' (commands out)
  unfolding loop
  loop-elim P b t conveyor camera delivered sends =
      let (same, none_sent) =
        receive_camera-IsSilent (receive_conveyor l b t.conveyor conveyor) t.camera camera in
      let (b', out, e, p) =
        sends (receive_camera l (receive_conveyor l b t.conveyor conveyor) t.camera camera).0
          same in
      (
        b',
        (receive_camera l (receive_conveyor l b t.conveyor conveyor) t.camera camera).1 ++ out,
        rw e refl,
        rw
            (
              commands-append
                  (receive_camera l (receive_conveyor l b t.conveyor conveyor) t.camera camera).1
                  out,
              none_sent,
            )
            p,
      )

  conveyor_parsed-last_sent :
      (b : Belt) (now : ℕ) (r : Bool × ConveyorBeltStatus)
      → (conveyor_parsed b now r).last_sent_command_timestamp ≡ b.last_sent_command_timestamp
  unfolding conveyor_parsed compare_cycle
  conveyor_parsed-last_sent b now (false, m) = refl
  conveyor_parsed-last_sent b now (true, m) = ground arith

  -- Receiving a status does not count as sending.
  pub receive_conveyor-last_sent :
      (b : Belt) (now : ℕ) (conveyor : Option (List ℕ))
      → (receive_conveyor l b now conveyor).last_sent_command_timestamp
        ≡ b.last_sent_command_timestamp
  unfolding receive_conveyor conveyor_silent
  receive_conveyor-last_sent b now none = ground arith
  receive_conveyor-last_sent b now (some bytes) =
      if-intro (λ b'. b'.last_sent_command_timestamp ≡ b.last_sent_command_timestamp)
        b.zmq_conveyor_subscriber (conveyor_parsed b now (l.parse_conveyor bytes)) b
        (λ _. conveyor_parsed-last_sent b now (l.parse_conveyor bytes)) (λ _. refl)
