-- ===== src/ConveyorBelt/Retry.antt =====
-- The passes of `loop` in
-- src/rockin/plugins/triggered_conveyor_belt/triggered_conveyor_belt_thread.cpp that send a
-- request until the belt confirms it.
use at_work_central_factory.Common.{
  ℕ, ◌≡◌, ◌≤◌, refl, ◌∙◌, ap, true, false, Option, some, List, [], ◌∷◌, ◌++◌, ok, All, arith,
  All-append, ltb, Bool-cases, inl, inr,
}
use at_work_central_factory.ConveyorBelt.{
  Belt, RunMode, ConveyorBeltCommand, Libraries, Readings, Action, publish, expected_cycle,
}
use at_work_central_factory.ConveyorBelt.Loop.{milliseconds_since, send_requested, loop}
use at_work_central_factory.ConveyorBelt.Events.{
  Event, looped, call_start_belt, call_stop_belt, step, run,
}
use at_work_central_factory.ConveyorBelt.Passes.{
  commands, commands-append, loop-elim, receive_conveyor-last_sent,
}
use at_work_central_factory.ConveyorBelt.Pending.{
  IsPending, IsFor, SameBelt-IsPending, is_other, is_retry, receive_conveyor-IsPending, due_command,
  send_due, send_early,
}

module _ (l : Libraries) where
  -- What a pass may do while the command is not confirmed.
  abbrev IsRetry : RunMode → ℕ → Belt → List ConveyorBeltCommand → Type 0
  IsRetry mode n b cs = IsPending mode n b × All (IsFor mode n) cs

  due_command-IsFor :
      {mode : RunMode} {n : ℕ} (b : Belt) → IsPending mode n b → IsFor mode n (due_command l b)
  due_command-IsFor b q = record { mode = q.requested; next_cycle = ap expected_cycle q.cycle }

  sent_again :
      {mode : RunMode} {n : ℕ} (b : Belt) (now : ℕ)
      → IsPending mode n b
      → IsPending mode n (record b { last_sent_command_timestamp = some now })
  sent_again b now q = record {
    publisher = q.publisher;
    cycle = q.cycle;
    command = q.command;
    requested = q.requested;
    unconfirmed = q.unconfirmed;
  }

  send_requested-IsRetry :
      {mode : RunMode} {n : ℕ} (b : Belt) (t : Readings)
      → IsPending mode n b
      → (b' : Belt) × (out : List Action) × (send_requested l b t true ≡ ok (b', out))
        × IsRetry mode n b' (commands out)
  send_requested-IsRetry b t q =
      elim (Bool-cases (ltb (milliseconds_since l b.last_sent_command_timestamp t.checked) 1000)) [
        | inl early ↦ (b, [], send_early l b t true early q, (q, tt))
        | inr late ↦ (
          record b { last_sent_command_timestamp = some t.sent },
          publish (due_command l b) ∷ [],
          send_due l b t late q,
          (sent_again b t.sent q, (due_command-IsFor b q, tt)),
        )
      ]

  step-IsRetry :
      {mode : RunMode} {n : ℕ} (b : Belt) (e : Event)
      → is_retry l n e ≡ true
      → IsPending mode n b
      → (b' : Belt) × (out : List Action) × (step l b e ≡ ok (b', out))
        × IsRetry mode n b' (commands out)
  unfolding step
  step-IsRetry {mode} {n} b (looped t conveyor camera true) other q =
      loop-elim l (IsRetry mode n) b t conveyor camera true (λ mid same.
        send_requested-IsRetry mid t
          (SameBelt-IsPending same (receive_conveyor-IsPending l b t.conveyor conveyor other q)))
  step-IsRetry b (looped t conveyor camera false) other q = cc
  step-IsRetry b call_start_belt other q = cc
  step-IsRetry b call_stop_belt other q = cc

  -- A request is not given up before the belt confirms it: while a command is due, the last status
  -- and all that arrive are of other cycles than that of the command, and the publisher takes what
  -- it is given, the passes of the loop go through, the command stays due, and each command that
  -- they publish is for the mode asked for and has the number after the `n`th.
  pub run-IsPending :
      {mode : RunMode} {n : ℕ} (b : Belt) (es : List Event)
      → All (λ e. is_retry l n e ≡ true) es
      → IsPending mode n b
      → (b' : Belt) × (out : List Action) × (run l b es ≡ ok (b', out))
        × (IsPending mode n b' × All (IsFor mode n) (commands out))
  unfolding run
  run-IsPending b [] other q = (b, [], refl, (q, tt))
  run-IsPending {mode} {n} b (e ∷ es) (other, others) q =
      let (b', out, s, (q', these)) = step-IsRetry b e other q in
      let (b'', out', r, (q'', those)) = run-IsPending b' es others q' in
      (
        b'',
        out ++ out',
        rw (s, r) refl,
        (
          q'',
          rw (commands-append out out')
              (All-append (IsFor mode n) (commands out) (commands out') these those),
        ),
      )

  -- A request is sent: in a pass that reads the clock a second or more after a command was sent
  -- last, while a command is due that no status confirms, one command is published, for the mode
  -- asked for and with the number after the `n`th, and the command stays due. The publisher is taken
  -- to accept the message.
  pub loop-IsPending :
      {mode : RunMode} {n : ℕ} (b : Belt) (t : Readings) (conveyor camera : Option (List ℕ))
      → is_other l n conveyor ≡ true
      → 1000 ≤ milliseconds_since l b.last_sent_command_timestamp t.checked
      → IsPending mode n b
      → (b' : Belt) × (out : List Action) × (loop l b t conveyor camera true ≡ ok (b', out))
        × (IsPending mode n b'
            × (b'.last_sent_command_timestamp ≡ some t.sent)
            × (c : ConveyorBeltCommand) × (commands out ≡ c ∷ [])
            × IsFor mode n c)
  loop-IsPending {mode} {n} b t conveyor camera other late q =
      loop-elim l
        (λ b' cs.
          IsPending mode n b'
          × (b'.last_sent_command_timestamp ≡ some t.sent)
          × (c : ConveyorBeltCommand) × (cs ≡ c ∷ [])
          × IsFor mode n c)
        b t conveyor camera true
        (λ mid same.
          let q' =
            SameBelt-IsPending same (receive_conveyor-IsPending l b t.conveyor conveyor other q) in
          let same_time = same.last_sent ∙ receive_conveyor-last_sent l b t.conveyor conveyor in
          let late' : ltb (milliseconds_since l mid.last_sent_command_timestamp t.checked) 1000
              ≡ false =
            rw same_time (ground arith) in
          (
            record mid { last_sent_command_timestamp = some t.sent },
            publish (due_command l mid) ∷ [],
            send_due l mid t late' q',
            (sent_again mid t.sent q', refl, due_command l mid, refl, due_command-IsFor mid q'),
          ))
