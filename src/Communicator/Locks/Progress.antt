-- ===== src/Communicator/Locks/Progress.antt =====
-- Threads that take the mutexes of src/libs/protobuf_clips/communicator.cpp in one order.
use at_work_central_factory.Common.{
  ℕ, zero, suc, ◌≡◌, ◌≢◌, ◌==◌, ==_iff, ==_refl, refl, sym, ◌∙◌, ap, subst, Bool, true, false,
  Option, none, some, inl, inr, List, [], ◌∷◌, Option-cases, Bool-cases,
}
use at_work_central_factory.Communicator.Locks.{
  Mutex, clips_mutex, map_mutex, Op, Threads, held_by, after, take_lock, exec_op, exec, start,
  Reachable, at_start, by_step, Ordered, finished, lock_clips, lock_map, unlock_map, unlock_clips,
  InOrder, Function, server_client_connected, server_client_disconnected, server_client_msg,
  server_client_fail, peer_msg, client_connected, client_disconnected, client_msg, client_fail,
  rules, rule_calls, locks, job_locks,
}

held_by_self : (t : ℕ) (h : Option ℕ) → held_by t h ≡ true → h ≡ some t
held_by_self t none e = cc
held_by_self t (some u) e = ap some (sym ((==_iff t u).0 e))

-- A step that changes what is held by nobody else.
after-InOrder :
    (s : Threads) (t : ℕ) (rest : List Op) (m : Mutex) (h : Option ℕ)
    → InOrder s
    → Ordered
        (held_by t ((after s t rest m h).holder clips_mutex))
        (held_by t ((after s t rest m h).holder map_mutex))
        rest
    → ((u : ℕ) → (u == t) ≡ false → held_by u h ≡ held_by u (s.holder m))
    → InOrder (after s t rest m h)
after-InOrder s t rest clips_mutex h v own others u = elim (Bool-cases (u == t)) [
  | inl e ↦ let it : t ≡ u = sym ((==_iff u t).0 e) in rw (← it, ==_refl t) own
  | inr f ↦ rw (f, others u f) (v u)
]
after-InOrder s t rest map_mutex h v own others u = elim (Bool-cases (u == t)) [
  | inl e ↦ let it : t ≡ u = sym ((==_iff u t).0 e) in rw (← it, ==_refl t) own
  | inr f ↦ rw (f, others u f) (v u)
]

some_inj : (a b : Threads) → some a ≡ some b → a ≡ b
some_inj a b h = cc

-- Taking a mutex that is free, and giving one back.
locked-InOrder :
    (s s' : Threads) (t : ℕ) (rest : List Op) (m : Mutex) (h : Option ℕ)
    → s.holder m ≡ h
    → InOrder s
    → Ordered
        (held_by t ((after s t rest m (some t)).holder clips_mutex))
        (held_by t ((after s t rest m (some t)).holder map_mutex))
        rest
    → take_lock s t rest m h ≡ some s'
    → InOrder s'
locked-InOrder s s' t rest m none free v own e =
    subst InOrder (some_inj (after s t rest m (some t)) s' e)
      (after-InOrder s t rest m (some t) v own (λ u f. f ∙ sym (ap (held_by u) free)))
locked-InOrder s s' t rest m (some w) free v own e = cc

unlocked-InOrder :
    (s s' : Threads) (t : ℕ) (rest : List Op) (m : Mutex)
    → held_by t (s.holder m) ≡ true
    → InOrder s
    → Ordered
        (held_by t ((after s t rest m none).holder clips_mutex))
        (held_by t ((after s t rest m none).holder map_mutex))
        rest
    → some (after s t rest m none) ≡ some s'
    → InOrder s'
unlocked-InOrder s s' t rest m mine v own e =
    subst InOrder (some_inj (after s t rest m none) s' e) (
      after-InOrder s t rest m none v own
        (λ u f. sym (ap (held_by u) (held_by_self t (s.holder m) mine) ∙ f)))

exec_op-InOrder :
    (s s' : Threads) (t : ℕ) (c m : Bool) (p : List Op)
    → held_by t (s.holder clips_mutex) ≡ c
    → held_by t (s.holder map_mutex) ≡ m
    → InOrder s
    → Ordered c m p
    → exec_op s t p ≡ some s'
    → InOrder s'
exec_op-InOrder s s' t c m p hc hm v finished e = cc
exec_op-InOrder s s' t c m p hc hm v (lock_clips {p = rest} o) e =
    locked-InOrder s s' t rest clips_mutex (s.holder clips_mutex) refl v (rw (==_refl t, hm) o) e
exec_op-InOrder s s' t c m p hc hm v (lock_map {p = rest} o) e =
    locked-InOrder s s' t rest map_mutex (s.holder map_mutex) refl v (rw (==_refl t, hc) o) e
exec_op-InOrder s s' t c m p hc hm v (unlock_map {p = rest} o) e =
    unlocked-InOrder s s' t rest map_mutex hm v (rw hc o) e
exec_op-InOrder s s' t c m p hc hm v (unlock_clips {p = rest} o) e =
    unlocked-InOrder s s' t rest clips_mutex hc v (rw hm o) e

Reachable-InOrder :
    (work : ℕ → List Op) (s : Threads) → InOrder (start work) → Reachable work s → InOrder s
unfolding exec
Reachable-InOrder work s v at_start = v
Reachable-InOrder work s v (by_step {s = r} t before e) =
    let w = Reachable-InOrder work r v before in
    exec_op-InOrder r s t (held_by t (r.holder clips_mutex)) (held_by t (r.holder map_mutex))
      (r.left t) refl refl w (w t) e

taken :
    (s : Threads) (t : ℕ) (rest : List Op) (m : Mutex)
    → s.holder m ≡ none
    → take_lock s t rest m (s.holder m) ≡ some (after s t rest m (some t))
taken s t rest m h = ap (take_lock s t rest m) h

-- What a thread in order does next does not wait, by what is free.
map_holder_steps :
    (s : Threads) (t : ℕ) (c m : Bool) (p : List Op)
    → m ≡ true
    → Ordered c m p
    → (s' : Threads) × (exec_op s t p ≡ some s')
map_holder_steps s t c m p e finished = cc
map_holder_steps s t c m p e (lock_clips o) = cc
map_holder_steps s t c m p e (lock_map o) = cc
map_holder_steps s t c m p e (unlock_map {p = rest} o) = (after s t rest map_mutex none, refl)
map_holder_steps s t c m p e (unlock_clips o) = cc

clips_holder_steps :
    (s : Threads) (t : ℕ) (c m : Bool) (p : List Op)
    → s.holder map_mutex ≡ none
    → c ≡ true
    → Ordered c m p
    → (s' : Threads) × (exec_op s t p ≡ some s')
clips_holder_steps s t c m p free e finished = cc
clips_holder_steps s t c m p free e (lock_clips o) = cc
clips_holder_steps s t c m p free e (lock_map {p = rest} o) =
    (after s t rest map_mutex (some t), taken s t rest map_mutex free)
clips_holder_steps s t c m p free e (unlock_map {p = rest} o) =
    (after s t rest map_mutex none, refl)
clips_holder_steps s t c m p free e (unlock_clips {p = rest} o) =
    (after s t rest clips_mutex none, refl)

unhindered_steps :
    (s : Threads) (t : ℕ) (c m : Bool) (p : List Op)
    → s.holder clips_mutex ≡ none
    → s.holder map_mutex ≡ none
    → p ≢ []
    → Ordered c m p
    → (s' : Threads) × (exec_op s t p ≡ some s')
unhindered_steps s t c m p fc fm more finished = absurd (more refl)
unhindered_steps s t c m p fc fm more (lock_clips {p = rest} o) =
    (after s t rest clips_mutex (some t), taken s t rest clips_mutex fc)
unhindered_steps s t c m p fc fm more (lock_map {p = rest} o) =
    (after s t rest map_mutex (some t), taken s t rest map_mutex fm)
unhindered_steps s t c m p fc fm more (unlock_map {p = rest} o) =
    (after s t rest map_mutex none, refl)
unhindered_steps s t c m p fc fm more (unlock_clips {p = rest} o) =
    (after s t rest clips_mutex none, refl)

holds_it : (w : ℕ) (h : Option ℕ) → h ≡ some w → held_by w h ≡ true
holds_it w h e = rw e (==_refl w)

Ordered-progress :
    (work : ℕ → List Op) (s : Threads) (t : ℕ)
    → ((u : ℕ) → Ordered false false (work u))
    → Reachable work s
    → s.left t ≢ []
    → (w : ℕ) × (s' : Threads) × (exec w s ≡ some s')
unfolding exec
Ordered-progress work s t ordered reached more =
    let v = Reachable-InOrder work s ordered reached in
    elim (Option-cases (s.holder map_mutex)) [
      | inr (w, em) ↦
          let (s', e) =
            map_holder_steps s w (held_by w (s.holder clips_mutex)) (held_by w (s.holder map_mutex))
              (s.left w) (holds_it w (s.holder map_mutex) em) (v w) in
          (w, s', e)
      | inl fm ↦ elim (Option-cases (s.holder clips_mutex)) [
        | inr (w, ec) ↦
            let (s', e) =
              clips_holder_steps s w (held_by w (s.holder clips_mutex))
                (held_by w (s.holder map_mutex)) (s.left w) fm
                (holds_it w (s.holder clips_mutex) ec) (v w) in
            (w, s', e)
        | inl fc ↦
            let (s', e) =
              unhindered_steps s t (held_by t (s.holder clips_mutex))
                (held_by t (s.holder map_mutex)) (s.left t) fc fm more (v t) in
            (t, s', e)
      ]
    ]

rule_calls-Ordered :
    (n : ℕ) (p : List Op) → Ordered true false p → Ordered true false (rule_calls n p)
unfolding rule_calls
rule_calls-Ordered zero p o = o
rule_calls-Ordered (suc n) p o = lock_map (unlock_map (rule_calls-Ordered n p o))

-- The rules run, with the engine's mutex held.
run-Ordered : (n : ℕ) → Ordered true false (rule_calls n (Op.unlock clips_mutex ∷ []))
run-Ordered n = rule_calls-Ordered n (Op.unlock clips_mutex ∷ []) (unlock_clips finished)

locks-Ordered : (f : Function) → f ≢ server_client_fail → Ordered false false (locks f)
unfolding locks
locks-Ordered (server_client_connected n) h = lock_map (unlock_map (lock_clips (run-Ordered n)))
locks-Ordered (server_client_disconnected n) h = lock_map (unlock_map (lock_clips (run-Ordered n)))
locks-Ordered server_client_msg h = lock_clips (lock_map (unlock_map (unlock_clips finished)))
locks-Ordered server_client_fail h = absurd (h refl)
locks-Ordered peer_msg h = lock_clips (unlock_clips finished)
locks-Ordered (client_connected n) h = lock_clips (run-Ordered n)
locks-Ordered (client_disconnected n) h = lock_clips (run-Ordered n)
locks-Ordered client_msg h = lock_clips (unlock_clips finished)
locks-Ordered client_fail h = lock_clips (unlock_clips finished)
locks-Ordered (rules n) h = lock_clips (run-Ordered n)

job-Ordered :
    (j : Option Function) → j ≢ some server_client_fail → Ordered false false (job_locks j)
job-Ordered none h = finished
job-Ordered (some f) h = locks-Ordered f (λ e. h (ap some e))

-- Threads that each run one of the handlers of the communicator other than
-- `handle_server_client_fail`, or the rules, or nothing, never block one another for good on its two
-- mutexes: in every state that they reach, while one has work left, one of them can take its next
-- step. The rules may send, broadcast, connect clients and create peers meanwhile, as often as they
-- like; that they disconnect or destroy nothing is a condition.
pub Reachable-progress :
    (jobs : ℕ → Option Function) (s : Threads) (t : ℕ)
    → ((u : ℕ) → jobs u ≢ some server_client_fail)
    → Reachable (λ u. job_locks (jobs u)) s
    → s.left t ≢ []
    → (w : ℕ) × (s' : Threads) × (exec w s ≡ some s')
Reachable-progress jobs s t no_fail reached more =
    Ordered-progress (λ u. job_locks (jobs u)) s t (λ u. job-Ordered (jobs u) (no_fail u)) reached
      more
