-- ===== src/Communicator/Locks.antt =====
-- The order in which src/libs/protobuf_clips/communicator.cpp takes `clips_mutex_` and `map_mutex_`:
-- threads that run its functions, one step on a mutex at a time.
pub mod Progress
mod Examples
use at_work_central_factory.Common.{
  ℕ, zero, suc, ◌≡◌, ◌≢◌, ◌==◌, ==_iff, ==_refl, refl, sym, ◌∙◌, ap, subst, Bool, true, false,
  Option, none, some, inl, inr, List, [], ◌∷◌, if◌then◌else◌, arith, Option-cases, Bool-cases,
}

pub data Mutex : Type 0 where
  clips_mutex map_mutex : Mutex

pub data Op : Type 0 where
  lock unlock : Mutex → Op

-- The functions that take mutexes, a client or peer being known. Four of them run the rules, with
-- the engine's mutex held: their number is how many of the functions `pb_send`, `pb_broadcast`,
-- `client_connect` and `peer_create_local_crypto` the rules call, each of which takes the mutex of
-- the maps. `rules` is any other caller of the rules. What deletes a server, a client or a peer, and
-- so waits for its thread, is not among the functions.
pub data Function : Type 0 where
  server_client_connected server_client_disconnected client_connected : ℕ → Function
  client_disconnected rules : ℕ → Function
  server_client_msg server_client_fail peer_msg client_msg client_fail : Function

-- The calls of the rules, and what comes after them.
unfoldable pub rule_calls : ℕ → List Op → List Op
rule_calls zero rest = rest
rule_calls (suc n) rest = lock map_mutex ∷ unlock map_mutex ∷ rule_calls n rest

unfoldable pub locks : Function → List Op
locks (server_client_connected n) =
    lock map_mutex ∷ unlock map_mutex ∷ lock clips_mutex ∷ rule_calls n (unlock clips_mutex ∷ [])
locks (server_client_disconnected n) =
    lock map_mutex ∷ unlock map_mutex ∷ lock clips_mutex ∷ rule_calls n (unlock clips_mutex ∷ [])
locks server_client_msg =
    lock clips_mutex ∷ lock map_mutex ∷ unlock map_mutex ∷ unlock clips_mutex ∷ []
locks server_client_fail =
    lock map_mutex ∷ lock clips_mutex ∷ unlock clips_mutex ∷ unlock map_mutex ∷ []
locks peer_msg = lock clips_mutex ∷ unlock clips_mutex ∷ []
locks (client_connected n) = lock clips_mutex ∷ rule_calls n (unlock clips_mutex ∷ [])
locks (client_disconnected n) = lock clips_mutex ∷ rule_calls n (unlock clips_mutex ∷ [])
locks client_msg = lock clips_mutex ∷ unlock clips_mutex ∷ []
locks client_fail = lock clips_mutex ∷ unlock clips_mutex ∷ []
locks (rules n) = lock clips_mutex ∷ rule_calls n (unlock clips_mutex ∷ [])

abbrev pub job_locks : Option Function → List Op
job_locks none = []
job_locks (some f) = locks f

-- What each thread has left to do, and which thread holds a mutex.
pub record Threads : Type 0 where
  pub left : ℕ → List Op
  pub holder : Mutex → Option ℕ

abbrev pub held_by : ℕ → Option ℕ → Bool
held_by t none = false
held_by t (some u) = t == u

abbrev pub same : Mutex → Mutex → Bool
same clips_mutex clips_mutex = true
same map_mutex map_mutex = true
same clips_mutex map_mutex = false
same map_mutex clips_mutex = false

abbrev pub after : Threads → ℕ → List Op → Mutex → Option ℕ → Threads
after s t rest m h = record {
  left = λ u. if u == t then rest else s.left u;
  holder = λ k. if same k m then h else s.holder k;
}

-- A thread's next step; a mutex that is held is waited for.
abbrev pub take_lock : Threads → ℕ → List Op → Mutex → Option ℕ → Option Threads
take_lock s t rest m none = some (after s t rest m (some t))
take_lock s t rest m (some u) = none

abbrev pub exec_op : Threads → ℕ → List Op → Option Threads
exec_op s t [] = none
exec_op s t (lock m ∷ rest) = take_lock s t rest m (s.holder m)
exec_op s t (unlock m ∷ rest) = some (after s t rest m none)

unfoldable pub exec : ℕ → Threads → Option Threads
exec t s = exec_op s t (s.left t)

-- The threads start with `work`, and nothing is held.
abbrev pub start : (ℕ → List Op) → Threads
start work = record { left = work; holder = λ m. none }

pub data Reachable (work : ℕ → List Op) : Threads → Type 0 where
  at_start : Reachable work (start work)
  by_step : {s s' : Threads} (t : ℕ) → Reachable work s → exec t s ≡ some s' → Reachable work s'

-- What is left of a function that takes `map_mutex` last and gives it back first, while it holds
-- `clips_mutex` (first) and `map_mutex` (second).
pub data Ordered : Bool → Bool → List Op → Type 0 where
  finished : Ordered false false []
  lock_clips : {p : List Op} → Ordered true false p → Ordered false false (lock clips_mutex ∷ p)
  lock_map : {c : Bool} {p : List Op} → Ordered c true p → Ordered c false (lock map_mutex ∷ p)
  unlock_map : {c : Bool} {p : List Op} → Ordered c false p → Ordered c true (unlock map_mutex ∷ p)
  unlock_clips : {p : List Op} → Ordered false false p → Ordered true false (unlock clips_mutex ∷ p)

abbrev pub InOrder : Threads → Type 0
InOrder s =
    (t : ℕ) → Ordered (held_by t (s.holder clips_mutex)) (held_by t (s.holder map_mutex)) (s.left t)
