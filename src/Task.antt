-- ===== src/Task.antt =====
-- common/task/task.go: a job that runs at an interval, with the goroutines that run it.
-- A schedule is a list of events: a call of a method, or a move of one goroutine.
pub mod Safety
pub mod Restart
pub mod Leak
use v2b_x_patched_by_haman.Prelude.{
  ℕ, suc, ℤ, pos, leb_ℤ, ◌≡◌, Bool, true, false, Option, none, some, List, [], ◌∷◌, ◌++◌, get_elem?,
  set, any, ◌==◌, nat_eq, if◌then◌else◌,
}

-- A goroutine: not scheduled yet, in the first `Execute`, blocked in the `select` on the stop
-- channel that it read when it came there, in a later `Execute`, or ended. The number is the
-- interval of its ticker.
pub data Loop : Type 0 where
  starting : Bool → Loop
  first_run : ℤ → Loop
  waiting : ℤ → ℕ → Loop
  working : ℤ → Loop
  ended : Loop

-- The channels are numbered as they are made; `stop` is the last one, 0 is nil.
pub record Task : Type 0 where
  pub interval : ℤ
  pub running : Bool
  pub stop : ℕ
  pub closed : List ℕ
  pub loops : List Loop

abbrev pub fresh : ℤ → Task
fresh interval = record { interval = interval; running = false; stop = 0; closed = []; loops = [] }

pub data Event : Type 0 where
  start : Bool → Event
  close : Event
  set_interval : ℤ → Event
  begin tick see_stop : ℕ → Event
  finish : ℕ → Bool → Event

-- A move that a goroutine cannot make is `blocked`.
pub data Outcome : Type 0 where
  moved : Task → Outcome
  blocked panicked : Outcome

abbrev pub is_closed : ℕ → List ℕ → Bool
is_closed ch closed = any (λ c. c == ch) closed

unfoldable pub start_task : Bool → Task → Task
start_task first t =
    if t.running
    then t
    else record t { running = true; stop = suc t.stop; loops = t.loops ++ starting first ∷ [] }

-- A channel that is closed twice panics.
unfoldable pub close_task : Task → Outcome
close_task t =
    if t.running
    then (if is_closed t.stop t.closed
        then panicked
        else moved (record t { running = false; closed = t.stop ∷ t.closed }))
    else moved t

abbrev one_second : ℤ
one_second = pos 1_000_000_000

unfoldable pub period_of : ℤ → ℤ
period_of interval = if leb_ℤ interval (pos 0) then one_second else interval

-- `NewTicker` is called when the loop begins.
unfoldable pub begin_loop : Task → Loop → Option Loop
unfolding period_of
begin_loop t (starting true) = some (first_run (period_of t.interval))
begin_loop t (starting false) = some (waiting (period_of t.interval) t.stop)
begin_loop t _ = none

-- After an `Execute` without error the loop comes to its `select` and reads the stop channel.
unfoldable pub continue_loop : Task → Loop → Option Loop
continue_loop t (first_run period) = some (waiting period t.stop)
continue_loop t (working period) = some (waiting period t.stop)
continue_loop t _ = none

-- After an `Execute` with an error the loop ends.
unfoldable pub fail_loop : Loop → Option Loop
fail_loop (first_run period) = some ended
fail_loop (working period) = some ended
fail_loop _ = none

unfoldable pub tick_loop : Loop → Option Loop
tick_loop (waiting period ch) = some (working period)
tick_loop _ = none

unfoldable pub stop_loop : Task → Loop → Option Loop
stop_loop t (waiting period ch) = if is_closed ch t.closed then some ended else none
stop_loop t _ = none

-- The task with a goroutine in a new state.
unfoldable pub move : Task → ℕ → (Loop → Option Loop) → Outcome
move t i f = elim (get_elem? t.loops i) [
  | none ↦ blocked
  | some l ↦ elim (f l) [ none ↦ blocked | some l' ↦ moved (record t { loops = set t.loops i l' }) ]
]

unfoldable pub apply : Event → Task → Outcome
unfolding move
apply (start first) t = moved (start_task first t)
apply close t = close_task t
apply (set_interval d) t = moved (record t { interval = d })
apply (begin i) t = move t i (begin_loop t)
apply (tick i) t = move t i tick_loop
apply (see_stop i) t = move t i (stop_loop t)
apply (finish i true) t = move t i (continue_loop t)
apply (finish i false) t = move (record t { running = false }) i fail_loop

-- The tasks that some schedule leads to.
pub data Reach (s : Task) : Task → Type 0 where
  at_start : Reach s s
  then_on : {t u : Task} → Reach s t → (e : Event) → apply e t ≡ moved u → Reach s u

-- The same, where no `Execute` returns an error.
abbrev pub IsQuiet : Event → Type 0
IsQuiet (finish i ok) = ok ≡ true
IsQuiet _ = Unit

pub data ReachQuiet (s : Task) : Task → Type 0 where
  at_start : ReachQuiet s s
  then_on :
      {t u : Task} → ReachQuiet s t → (e : Event) → IsQuiet e → apply e t ≡ moved u → ReachQuiet s u
