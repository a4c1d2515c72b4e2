-- ===== src/Communicator/Locks/Examples.antt =====
-- Threads of the communicator on its two mutexes: two that can go on, and two that cannot.
use at_work_central_factory.Common.{
  ℕ, ◌≡◌, ◌≢◌, ◌==◌, refl, Option, none, some, List, [], ◌∷◌, if◌then◌else◌, arith, Bool-cases, inl,
  inr,
}
use at_work_central_factory.Communicator.Locks.{
  clips_mutex, map_mutex, Op, job_locks, Function, server_client_connected, server_client_msg,
  server_client_fail, rule_calls, locks, Threads, after, exec, start, Reachable, at_start, by_step,
}
use at_work_central_factory.Communicator.Locks.Progress.{Reachable-progress}

-- Threads 0 and 1 run a function, the others none.
abbrev two : Function → Function → ℕ → Option Function
two f g u = if u == 0 then some f else (if u == 1 then some g else none)

abbrev both : Function → Function → ℕ → List Op
both f g u = job_locks (two f g u)

no_fail_here :
    (u : ℕ) → two server_client_msg (server_client_connected 1) u ≢ some server_client_fail
no_fail_here u e = elim (Bool-cases (u == 0)) [
  | inl a ↦ ground arith
  | inr b ↦ elim (Bool-cases (u == 1)) [ inl a ↦ ground arith | inr c ↦ ground arith ]
]

-- Thread 0 has taken the engine's mutex for a message, thread 1 is about to take that of the maps;
-- the rules that it then runs send a message.
abbrev working : Threads
working =
    after (start (both server_client_msg (server_client_connected 1))) 0
      (Op.lock map_mutex ∷ Op.unlock map_mutex ∷ Op.unlock clips_mutex ∷ []) clips_mutex (some 0)

working_reached : Reachable (both server_client_msg (server_client_connected 1)) working
unfolding locks rule_calls exec
working_reached = by_step 0 at_start refl

work_left : working.left 1 ≢ []
unfolding locks rule_calls
work_left e = cc

Reachable-progress_example : (w : ℕ) × (s' : Threads) × (exec w working ≡ some s')
Reachable-progress_example =
    Reachable-progress (two server_client_msg (server_client_connected 1)) working 1 no_fail_here
      working_reached work_left

-- A message and a failed reception, each of which has taken its first mutex
abbrev stuck : Threads
stuck =
    after
      (after (start (both server_client_msg server_client_fail)) 0
        (Op.lock map_mutex ∷ Op.unlock map_mutex ∷ Op.unlock clips_mutex ∷ []) clips_mutex (some 0))
      1 (Op.lock clips_mutex ∷ Op.unlock clips_mutex ∷ Op.unlock map_mutex ∷ []) map_mutex (some 1)

stuck_reached : Reachable (both server_client_msg server_client_fail) stuck
unfolding locks exec
stuck_reached = by_step 1 (by_step 0 at_start refl) refl

stuck_forever : (exec 0 stuck ≡ none) × (exec 1 stuck ≡ none)
unfolding exec
stuck_forever = (refl, refl)
