-- ===== src/Task/Leak.antt =====
-- A task that is restarted from within its own `Execute`, as `nodeInfoMonitor` of node/task.go and
-- `updateTasks` of node/machine.go do when an interval changes.
use v2b_x_patched_by_haman.Prelude.{
  ℕ, suc, ◌≤◌, ℤ, ◌≡◌, ◌≢◌, refl, sym, ◌∙◌, true, false, some, [], ◌∷◌, ◌++◌, get_elem?, set,
  get_elem?-append, get_elem?-snoc, get_elem?-lt, get_elem?-set_self, get_elem?-set_ne, nat_eq,
  arith, All, length,
}
use v2b_x_patched_by_haman.Task.{
  starting, waiting, working, Task, fresh, Event, start, close, begin, see_stop, finish, Outcome,
  moved, blocked, panicked, is_closed, start_task, close_task, period_of, begin_loop, continue_loop,
  stop_loop, apply, Reach,
}
use v2b_x_patched_by_haman.Task.Safety.{not_closed_of_made, Reach-IsSound, fresh-IsSound}
use v2b_x_patched_by_haman.Task.Restart.{move_at, move-blocked}

-- The events of a schedule, one after the other.
abbrev pub after : Outcome → Event → Outcome
after (moved t) e = apply e t
after blocked e = blocked
after panicked e = panicked

-- The task after `Close` and `Start(false)`, called by the goroutine `i` with this interval.
abbrev pub restarted : Task → ℕ → ℤ → Task
restarted t i period = record t {
  running = true;
  stop = suc t.stop;
  closed = t.stop ∷ t.closed;
  loops =
      set (set (t.loops ++ starting false ∷ []) i (waiting period (suc t.stop))) (length t.loops)
        (waiting (period_of t.interval) (suc t.stop));
}

module _ (t : Task) (i : ℕ) (period : ℤ) (open_stop : is_closed t.stop t.closed ≡ false)
    (on : t.running ≡ true) (at : get_elem? t.loops i ≡ some (working period)) where
  abbrev closed_task : Task
  closed_task = record t { running = false; closed = t.stop ∷ t.closed }

  abbrev started_task : Task
  started_task = record t {
    running = true;
    stop = suc t.stop;
    closed = t.stop ∷ t.closed;
    loops = t.loops ++ starting false ∷ [];
  }

  abbrev resumed_task : Task
  resumed_task = record started_task {
    loops = set (t.loops ++ starting false ∷ []) i (waiting period (suc t.stop));
  }

  close_step : apply close t ≡ moved closed_task
  unfolding apply close_task
  close_step = simp (on, open_stop)

  start_step : apply (start false) closed_task ≡ moved started_task
  unfolding apply start_task
  start_step = refl

  finish_step : apply (finish i true) started_task ≡ moved resumed_task
  unfolding apply continue_loop
  finish_step =
      move_at started_task i (continue_loop started_task) (working period)
        (waiting period (suc t.stop)) (get_elem?-append t.loops _ i at) refl

  other_index : i ≢ length t.loops
  other_index same = absurd (omega (arith, get_elem?-lt t.loops i at))

  begin_step : apply (begin (length t.loops)) resumed_task ≡ moved (restarted t i period)
  unfolding apply begin_loop
  begin_step =
      move_at resumed_task (length t.loops) (begin_loop resumed_task) (starting false)
        (waiting (period_of t.interval) (suc t.stop))
        (get_elem?-set_ne (t.loops ++ starting false ∷ []) i (length t.loops)
            (waiting period (suc t.stop)) other_index
          ∙ get_elem?-snoc t.loops (starting false))
        refl

  restart_events :
      after (after (after (apply close t) (start false)) (finish i true)) (begin (length t.loops))
      ≡ moved (restarted t i period)
  restart_events = rw close_step (rw start_step (rw finish_step begin_step))

  old_loop : get_elem? (restarted t i period).loops i ≡ some (waiting period (suc t.stop))
  old_loop =
      get_elem?-set_ne (set (t.loops ++ starting false ∷ []) i (waiting period (suc t.stop)))
        (length t.loops) i (waiting (period_of t.interval) (suc t.stop))
        (λ same. other_index (sym same))
      ∙ get_elem?-set_self (t.loops ++ starting false ∷ []) i (waiting period (suc t.stop))
          (get_elem?-append t.loops _ i at)

  new_loop :
      get_elem? (restarted t i period).loops (length t.loops)
      ≡ some (waiting (period_of t.interval) (suc t.stop))
  new_loop =
      get_elem?-set_self (set (t.loops ++ starting false ∷ []) i (waiting period (suc t.stop)))
        (length t.loops) (waiting (period_of t.interval) (suc t.stop))
        (get_elem?-set_ne (t.loops ++ starting false ∷ []) i (length t.loops)
            (waiting period (suc t.stop)) other_index
          ∙ get_elem?-snoc t.loops (starting false))

  not_stopped :
      All (λ ch. ch ≤ t.stop) t.closed → apply (see_stop i) (restarted t i period) ≡ blocked
  unfolding apply stop_loop
  not_stopped made =
      let u = restarted t i period in
      move-blocked u i (stop_loop u) (waiting period (suc t.stop)) old_loop
        (rw (not_closed_of_made t.stop (t.stop ∷ t.closed) (omega arith, made)))

-- When a running task is closed and started again by its own goroutine `i`, and then `i` and the
-- new goroutine come to their `select`, both wait on the new stop channel, which is open: the old
-- goroutine, with its old interval, has missed the stop and goes on beside the new one.
pub restart-leaks :
    (interval : ℤ) (t : Task) (i : ℕ) (period : ℤ)
    → Reach (fresh interval) t
    → t.running ≡ true
    → get_elem? t.loops i ≡ some (working period)
    → (u : Task) × (after
          (after (after (apply close t) (start false)) (finish i true))
          (begin (length t.loops))
        ≡ moved u)
      × (i ≢ length t.loops)
      × (get_elem? u.loops i ≡ some (waiting period u.stop))
      × (get_elem? u.loops (length t.loops) ≡ some (waiting (period_of t.interval) u.stop))
      × (apply (see_stop i) u ≡ blocked)
restart-leaks interval t i period r on at =
    let s = Reach-IsSound (fresh-IsSound interval) r in
    let open_stop = s.open_stop on in
    (
      restarted t i period,
      restart_events t i period open_stop on at,
      other_index t i period open_stop on at,
      old_loop t i period open_stop on at,
      new_loop t i period open_stop on at,
      not_stopped t i period open_stop on at s.made,
    )
