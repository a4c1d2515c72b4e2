-- ===== src/ConveyorBelt/Quiet.antt =====
-- What becomes of a request in
-- src/rockin/plugins/triggered_conveyor_belt/triggered_conveyor_belt_thread.cpp after the belt has
-- confirmed a command.
use at_work_central_factory.Common.{
  not-eq-true, ℕ, ◌+◌, ◌%◌, ◌^◌, ◌≡◌, refl, ◌∙◌, Bool, true, false, not, ◌&&◌, ◌||◌, Option, none,
  some, List, [], ◌∷◌, ◌++◌, ok, if-intro, All, leb, inl, inr, Bool-cases,
}
use at_work_central_factory.Common.Int.{int_eq, int_ltb, int_eq_refl}
use at_work_central_factory.ConveyorBelt.{
  Belt, RunMode, stop, ConveyorBeltStatus, Libraries, Readings, Action, cycle_of, expected_cycle,
  stop_belt,
}
use at_work_central_factory.ConveyorBelt.Loop.{
  compare_cycle, conveyor_parsed, conveyor_silent, seconds_since, receive_conveyor, send_requested,
  loop,
}
use at_work_central_factory.ConveyorBelt.Events.{
  Event, looped, call_start_belt, call_stop_belt, step, run,
}
use at_work_central_factory.ConveyorBelt.Passes.{commands, commands-append, SameBelt, loop-elim}

-- No command is due; `mode` is the one that was asked for last.
pub record IsQuiet (mode : RunMode) (n : ℕ) (b : Belt) : Type 0 where
  pub cycle : b.cycle ≡ n
  pub command : b.send_conveyor_command ≡ false
  pub reset : b.send_reset_command ≡ false
  pub requested : b.requested_run_mode ≡ mode

-- Whether a status is of a cycle after the `n`th.
abbrev pub is_news : ℕ → Bool × ConveyorBeltStatus → Bool
is_news n r =
    r.0 && (int_eq (cycle_of r.1) (expected_cycle n) || int_ltb (expected_cycle n) (cycle_of r.1))

||-eq-false : (a b : Bool) → (a || b) ≡ false → (a ≡ false) × (b ≡ false)
||-eq-false false b h = (refl, h)
||-eq-false true b h = cc

SameBelt-IsQuiet :
    {mode : RunMode} {n : ℕ} {b b' : Belt} → SameBelt b b' → IsQuiet mode n b → IsQuiet mode n b'
SameBelt-IsQuiet s q = record {
  cycle = s.cycle ∙ q.cycle;
  command = s.command ∙ q.command;
  reset = s.reset ∙ q.reset;
  requested = s.requested ∙ q.requested;
}

compare_cycle-IsQuiet :
    {mode : RunMode} {n : ℕ} (b : Belt) (m : ConveyorBeltStatus)
    → is_news n (true, m) ≡ false
    → IsQuiet mode n b
    → IsQuiet mode n (compare_cycle b (cycle_of m))
unfolding compare_cycle
compare_cycle-IsQuiet {mode} {n} b m old q =
    let (other, not_later) =
      ||-eq-false (int_eq (cycle_of m) (expected_cycle b.cycle))
        (int_ltb (expected_cycle b.cycle) (cycle_of m)) (rw q.cycle old) in
    rw (other, not_later) q

conveyor_parsed-IsQuiet :
    {mode : RunMode} {n : ℕ} (b : Belt) (now : ℕ) (r : Bool × ConveyorBeltStatus)
    → is_news n r ≡ false
    → IsQuiet mode n b
    → IsQuiet mode n (conveyor_parsed b now r)
unfolding conveyor_parsed
conveyor_parsed-IsQuiet b now (false, m) old q = record {
  cycle = q.cycle;
  command = q.command;
  reset = q.reset;
  requested = q.requested;
}
conveyor_parsed-IsQuiet b now (true, m) old q =
    let q' = compare_cycle-IsQuiet b m old q in
    record { cycle = q'.cycle; command = q'.command; reset = q'.reset; requested = q'.requested }

module _ (l : Libraries) where
  -- A pass in which no status of a later cycle arrives.
  abbrev pub is_stale : ℕ → Event → Bool
  is_stale n (looped t none camera delivered) = true
  is_stale n (looped t (some bytes) camera delivered) = not (is_news n (l.parse_conveyor bytes))
  is_stale n call_start_belt = false
  is_stale n call_stop_belt = false

  conveyor_silent-IsQuiet :
      {mode : RunMode} {n : ℕ} (b : Belt) (now : ℕ)
      → IsQuiet mode n b
      → IsQuiet mode n (conveyor_silent l b now)
  unfolding conveyor_silent
  conveyor_silent-IsQuiet {mode} {n} b now q =
      elim (Bool-cases (leb 3 (seconds_since l b.prev_conveyor_update_timestamp now))) [
        | inl late ↦ rw late (record {
          cycle = q.cycle;
          command = q.command;
          reset = q.reset;
          requested = q.requested;
        })
        | inr soon ↦ rw soon q
      ]

  loop-IsQuiet :
      {mode : RunMode} {n : ℕ} (b : Belt) (t : Readings) (conveyor camera : Option (List ℕ))
      (delivered : Bool)
      → IsQuiet mode n (receive_conveyor l b t.conveyor conveyor)
      → (b' : Belt) × (out : List Action) × (loop l b t conveyor camera delivered ≡ ok (b', out))
        × (IsQuiet mode n b' × (commands out ≡ []))
  unfolding send_requested
  loop-IsQuiet {mode} {n} b t conveyor camera delivered q =
      loop-elim l (λ b' cs. IsQuiet mode n b' × (cs ≡ [])) b t conveyor camera delivered
        (λ mid same.
          let q' = SameBelt-IsQuiet same q in (mid, [], rw (q'.command, q'.reset) refl, (q', refl)))

  step-IsQuiet :
      {mode : RunMode} {n : ℕ} (b : Belt) (e : Event)
      → is_stale n e ≡ true
      → IsQuiet mode n b
      → (b' : Belt) × (out : List Action) × (step l b e ≡ ok (b', out))
        × (IsQuiet mode n b' × (commands out ≡ []))
  unfolding step receive_conveyor
  step-IsQuiet {mode} {n} b (looped t none camera delivered) old q =
      loop-IsQuiet b t none camera delivered (
        if-intro (IsQuiet mode n) b.zmq_conveyor_subscriber (conveyor_silent l b t.conveyor) b
          (λ _. conveyor_silent-IsQuiet b t.conveyor q) (λ _. q))
  step-IsQuiet {mode} {n} b (looped t (some bytes) camera delivered) old q =
      loop-IsQuiet b t (some bytes) camera delivered (
        if-intro (IsQuiet mode n) b.zmq_conveyor_subscriber
          (conveyor_parsed b t.conveyor (l.parse_conveyor bytes)) b
          (λ _.
            conveyor_parsed-IsQuiet b t.conveyor (l.parse_conveyor bytes)
              (not-eq-true (is_news n (l.parse_conveyor bytes)) old) q)
          (λ _. q))
  step-IsQuiet b call_start_belt old q = cc
  step-IsQuiet b call_stop_belt old q = cc

  run-IsQuiet :
      {mode : RunMode} {n : ℕ} (b : Belt) (es : List Event)
      → All (λ e. is_stale n e ≡ true) es
      → IsQuiet mode n b
      → (b' : Belt) × (out : List Action) × (run l b es ≡ ok (b', out))
        × (IsQuiet mode n b' × (commands out ≡ []))
  unfolding run
  run-IsQuiet b [] old q = (b, [], refl, (q, refl))
  run-IsQuiet b (e ∷ es) (old, olds) q =
      let (b', out, s, (q', silent)) = step-IsQuiet b e old q in
      let (b'', out', r, (q'', silent')) = run-IsQuiet b' es olds q' in
      (b'', out ++ out', rw (s, r) refl, (q'', rw (commands-append out out', silent, silent') refl))

  -- A request to stop the belt is lost if the belt confirms an earlier command in the next pass:
  -- with that report of the expected cycle no command is due any more, and as long as no report of
  -- a later cycle arrives and nothing is asked for, none is published, though the mode that was
  -- asked for last is `stop`.
  pub stop_belt-confirmed :
      (b : Belt) (t : Readings) (bytes : List ℕ) (m : ConveyorBeltStatus) (camera : Option (List ℕ))
      (delivered : Bool) (es : List Event)
      → b.zmq_conveyor_subscriber ≡ true
      → l.parse_conveyor bytes ≡ (true, m)
      → cycle_of m ≡ expected_cycle b.cycle
      → All (λ e. is_stale ((b.cycle + 1) % 2 ^ 32) e ≡ true) es
      → (b' : Belt) × (out : List Action) × (run l b
            (call_stop_belt ∷ looped t (some bytes) camera delivered ∷ es)
          ≡ ok (b', out))
        × (IsQuiet stop ((b.cycle + 1) % 2 ^ 32) b' × (commands out ≡ []))
  unfolding run step receive_conveyor conveyor_parsed compare_cycle stop_belt
  stop_belt-confirmed b t bytes m camera delivered es listening parsed next olds =
      let confirmed : IsQuiet stop ((b.cycle + 1) % 2 ^ 32)
          (receive_conveyor l (stop_belt b) t.conveyor (some bytes)) =
        simp (listening, parsed, next, int_eq_refl (expected_cycle b.cycle))
          (record { cycle = refl; command = refl; reset = refl; requested = refl }) in
      let (b', out, s, (q, silent)) =
        loop-IsQuiet (stop_belt b) t (some bytes) camera delivered confirmed in
      let (b'', out', r, (q', silent')) = run-IsQuiet b' es olds q in
      (b'', out ++ out', rw (s, r) refl, (q', rw (commands-append out out', silent, silent') refl))
