-- ===== src/ConveyorBelt/Spacing.antt =====
-- How often src/rockin/plugins/triggered_conveyor_belt/triggered_conveyor_belt_thread.cpp sends, and
-- what its initialisation does without a publisher.
use at_work_central_factory.Common.{
  ℕ, ◌+◌, ◌≡◌, ◌≤◌, ◌↔◌, refl, ◌∙◌, subst, Bool, true, false, ◌&&◌, ◌⊎◌, inl, inr, Option, none,
  some, List, [], ◌∷◌, ◌++◌, append-nil, map, Result, ok, err, ◌>>=◌, if-intro, arith, leb, ltb,
}
use at_work_central_factory.ConveyorBelt.{
  Belt, RunMode, stop, configured, ConveyorBeltCommand, Libraries, Readings, Action, BeltError,
  null_pointer, new_belt, start_belt, stop_belt,
}
use at_work_central_factory.ConveyorBelt.Loop.{
  milliseconds_since, receive_camera, receive_conveyor, send_requested, set_conveyor_belt_run_mode,
  loop, init,
}
use at_work_central_factory.ConveyorBelt.Passes.{
  commands, commands-append, receive_camera-IsSilent, receive_conveyor-last_sent,
}

-- The times at which commands were sent, the latest first: each is a second or more after the one
-- before it.
abbrev pub is_spaced : List ℕ → Bool
is_spaced [] = true
is_spaced (s ∷ []) = true
is_spaced (s ∷ s' ∷ sent) = leb (s' + 1000000) s && is_spaced (s' ∷ sent)

abbrev pub newest : List ℕ → Option ℕ
newest [] = none
newest (s ∷ sent) = some s

-- One time for each command.
abbrev pub times : ℕ → List ConveyorBeltCommand → List ℕ
times now cs = map (λ _. now) cs

-- What holds of a result that is no error.
abbrev Holds : (Belt × List Action → Type 0) → Result BeltError (Belt × List Action) → Type 0
Holds P (ok r) = P r
Holds P (err what) = Unit

Holds-ok :
    (P : Belt × List Action → Type 0) (r : Result BeltError (Belt × List Action))
    {x : Belt × List Action}
    → Holds P r
    → r ≡ ok x
    → P x
Holds-ok P r h e = subst (Holds P) e h

module _ (l : Libraries) where
  -- A history of the thread, from its construction on: the state, and the times at which commands
  -- were sent. The clock does not go back between two readings of one pass.
  pub data History : Belt → List ℕ → Type 0 where
    began :
        {b : Belt} {out : List Action} (interval : Option ℕ) (sockets : Bool) (t : Readings)
        (delivered : Bool)
        → t.checked ≤ t.sent
        → init l new_belt interval sockets t delivered ≡ ok (b, out)
        → History b (times t.sent (commands out))
    looped :
        {b b' : Belt} {out : List Action} {sent : List ℕ} (t : Readings)
        (conveyor camera : Option (List ℕ)) (delivered : Bool)
        → t.checked ≤ t.sent
        → History b sent
        → loop l b t conveyor camera delivered ≡ ok (b', out)
        → History b' (times t.sent (commands out) ++ sent)
    started : {b : Belt} {sent : List ℕ} → History b sent → History (start_belt b) sent
    stopped : {b : Belt} {sent : List ℕ} → History b sent → History (stop_belt b) sent

  -- Nothing was sent, or a second or more after `before` one command was.
  abbrev IsPaced : Option ℕ → Readings → Belt × List Action → Type 0
  IsPaced before t r =
      ((r.0.last_sent_command_timestamp ≡ before) × (commands r.1 ≡ []))
      ⊎ ((c : ConveyorBeltCommand) × (r.0.last_sent_command_timestamp ≡ some t.sent)
          × (commands r.1 ≡ c ∷ [])
          × (ltb (milliseconds_since l before t.checked) 1000 ≡ false))

  set_mode-IsPaced :
      (b : Belt) (mode : RunMode) (t : Readings) (delivered : Bool)
      → Holds
          (IsPaced b.last_sent_command_timestamp t)
          (set_conveyor_belt_run_mode l b mode t delivered)
  unfolding set_conveyor_belt_run_mode
  set_mode-IsPaced b mode t delivered =
      let P = Holds (IsPaced b.last_sent_command_timestamp t) in
      if-intro P (ltb (milliseconds_since l b.last_sent_command_timestamp t.checked) 1000) _ _
        (λ _. inl (refl, refl))
        (λ late.
          if-intro P b.zmq_publisher _ _
            (λ _. if-intro P delivered _ _ (λ _. inr (_, refl, refl, late)) (λ _. tt)) (λ _. tt))

  spaced-times :
      (sent : List ℕ) (t : Readings) (r : Belt × List Action)
      → t.checked ≤ t.sent
      → is_spaced sent ≡ true
      → IsPaced (newest sent) t r
      → (r.0.last_sent_command_timestamp ≡ newest (times t.sent (commands r.1) ++ sent))
        × (is_spaced (times t.sent (commands r.1) ++ sent) ≡ true)
  spaced-times sent t r later spaced (inl (same, nothing)) = rw nothing (same, spaced)
  spaced-times [] t r later spaced (inr (c, now, one, late)) = rw one (now, refl)
  spaced-times (s ∷ sent) t r later spaced (inr (c, now, one, late)) = rw one (now, ground arith)

  send_requested-IsPaced :
      (b : Belt) (t : Readings) (delivered : Bool)
      → Holds (IsPaced b.last_sent_command_timestamp t) (send_requested l b t delivered)
  unfolding send_requested
  send_requested-IsPaced b t delivered =
      let P = Holds (IsPaced b.last_sent_command_timestamp t) in
      let sets = set_mode-IsPaced b b.requested_run_mode t delivered in
      if-intro P b.send_conveyor_command _ _
        (λ _.
          if-intro P _ (ok (b, []))
            (set_conveyor_belt_run_mode l b b.requested_run_mode t delivered)
            (λ _. inl (refl, refl)) (λ _. sets))
        (λ _.
          if-intro P b.send_reset_command
            (set_conveyor_belt_run_mode l b b.requested_run_mode t delivered) (ok (b, []))
            (λ _. sets) (λ _. inl (refl, refl)))

  -- Facts are no commands.
  after_facts :
      (before : Option ℕ) (t : Readings) (facts : List Action)
      (r : Result BeltError (Belt × List Action))
      → commands facts ≡ []
      → Holds (IsPaced before t) r
      → Holds (IsPaced before t) (r >>= λ r. ok (r.0, facts ++ r.1))
  after_facts before t facts (err what) none_sent h = tt
  after_facts before t facts (ok (b, out)) none_sent (inl (same, nothing)) =
      inl (same, commands-append facts out ∙ rw (none_sent, nothing) refl)
  after_facts before t facts (ok (b, out)) none_sent (inr (c, now, one, late)) =
      inr (c, now, commands-append facts out ∙ rw (none_sent, one) refl, late)

  loop-IsPaced :
      (b : Belt) (t : Readings) (conveyor camera : Option (List ℕ)) (delivered : Bool)
      → Holds (IsPaced b.last_sent_command_timestamp t) (loop l b t conveyor camera delivered)
  unfolding loop
  loop-IsPaced b t conveyor camera delivered =
      let b₁ = receive_conveyor l b t.conveyor conveyor in
      let (same, none_sent) = receive_camera-IsSilent l b₁ t.camera camera in
      let (b₂, facts) = receive_camera l b₁ t.camera camera in
      let time = same.last_sent ∙ receive_conveyor-last_sent l b t.conveyor conveyor in
      after_facts b.last_sent_command_timestamp t facts (send_requested l b₂ t delivered) none_sent
        (subst (λ o. Holds (IsPaced o t) (send_requested l b₂ t delivered)) time
          (send_requested-IsPaced b₂ t delivered))

  History-Spaced :
      {b : Belt} {sent : List ℕ}
      → History b sent
      → (b.last_sent_command_timestamp ≡ newest sent) × (is_spaced sent ≡ true)
  unfolding init start_belt stop_belt new_belt
  History-Spaced (began {b} {out} interval sockets t delivered later e) =
      let p =
        Holds-ok (IsPaced none t) (init l new_belt interval sockets t delivered)
          (set_mode-IsPaced (configured new_belt interval sockets) stop t delivered) e in
      rw (← append-nil (times t.sent (commands out))) (spaced-times [] t (b, out) later refl p)
  History-Spaced (looped {b} {b'} {out} {sent} t conveyor camera delivered later h e) =
      let (last, spaced) = History-Spaced h in
      spaced-times sent t (b', out) later spaced
        (subst (λ o. IsPaced o t (b', out)) last
          (Holds-ok (IsPaced b.last_sent_command_timestamp t) _
            (loop-IsPaced b t conveyor camera delivered) e))
  History-Spaced (started h) = let p = History-Spaced h in (p.0, p.1)
  History-Spaced (stopped h) = let p = History-Spaced h in (p.0, p.1)

  -- The belt is not flooded: in every history of the thread, of initialisation, passes of the loop
  -- and calls of the rules, any two commands in a row are sent a second or more apart, if the clock
  -- does not go back from the check in a pass to the sending in it.
  pub History-is_spaced : {b : Belt} {sent : List ℕ} → History b sent → is_spaced sent ≡ true
  History-is_spaced h = (History-Spaced h).1

  -- Initialisation uses a null publisher exactly if the sockets are not there, as when the
  -- configuration has no host for the belt, provided that the time since a time that was never set
  -- counts as a second or more, and that a publisher takes what it is given.
  init-null_pointer :
      (interval : Option ℕ) (sockets : Bool) (t : Readings)
      → 1000 ≤ l.unset_milliseconds
      → (init l new_belt interval sockets t true ≡ err null_pointer) ↔ (sockets ≡ false)
  unfolding init new_belt set_conveyor_belt_run_mode
  init-null_pointer interval true t long =
      let late : ltb l.unset_milliseconds 1000 ≡ false = ground arith in rw late (λ e. cc, λ e. cc)
  init-null_pointer interval false t long =
      let late : ltb l.unset_milliseconds 1000 ≡ false = ground arith in
      rw late (λ e. refl, λ e. refl)
