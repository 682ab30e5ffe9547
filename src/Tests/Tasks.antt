-- ===== src/Tests/Tasks.antt =====
-- common/task/task.go: a task that is started, ticks, and is closed or restarted.
use v2b_x_patched_by_haman.Prelude.{
  ℕ, ℤ, pos, ◌≡◌, ◌≢◌, refl, Bool, true, false, some, List, [], ◌∷◌, All, get_elem?,
}
use v2b_x_patched_by_haman.Task.{
  Loop, starting, waiting, working, ended, Task, fresh, start, close, begin, tick, see_stop, finish,
  moved, blocked, panicked, start_task, close_task, begin_loop, tick_loop, period_of, apply, Reach,
  ReachQuiet,
}
use v2b_x_patched_by_haman.Task.Safety.{HasPeriod, Reach-ne-panicked, Reach-HasPeriod}
use v2b_x_patched_by_haman.Task.Restart.{close-stops}
use v2b_x_patched_by_haman.Task.Leak.{after, restart-leaks}

abbrev minute : ℤ
minute = pos 60_000_000_000

abbrev with_loop : Bool → ℕ → List ℕ → Loop → Task
with_loop running stop closed l = record {
  interval = minute;
  running = running;
  stop = stop;
  closed = closed;
  loops = l ∷ [];
}

abbrev started : Task
started = with_loop true 1 [] (starting false)

abbrev idle : Task
idle = with_loop true 1 [] (waiting minute 1)

abbrev busy : Task
busy = with_loop true 1 [] (working minute)

abbrev closed_idle : Task
closed_idle = with_loop false 1 (1 ∷ []) (waiting minute 1)

Reach-started : Reach (fresh minute) started
unfolding apply start_task
Reach-started = Reach.then_on Reach.at_start (start false) refl

ReachQuiet-started : ReachQuiet (fresh minute) started
unfolding apply start_task
ReachQuiet-started = ReachQuiet.then_on ReachQuiet.at_start (start false) tt refl

Reach-idle : Reach (fresh minute) idle
unfolding apply start_task begin_loop
Reach-idle = Reach.then_on Reach-started (begin 0) refl

Reach-busy : Reach (fresh minute) busy
unfolding apply tick_loop
Reach-busy = Reach.then_on Reach-idle (tick 0) refl

ReachQuiet-idle : ReachQuiet (fresh minute) idle
unfolding apply start_task begin_loop
ReachQuiet-idle = ReachQuiet.then_on ReachQuiet-started (begin 0) tt refl

Reach-ne-panicked_example : apply close busy ≢ panicked
Reach-ne-panicked_example = Reach-ne-panicked minute busy Reach-busy close

Reach-HasPeriod_example : All HasPeriod busy.loops
Reach-HasPeriod_example = Reach-HasPeriod minute busy Reach-busy

close-stops_example :
    apply (see_stop 0) closed_idle ≡ moved (record closed_idle { loops = ended ∷ [] })
unfolding apply close_task
close-stops_example = close-stops minute idle closed_idle 0 minute 1 ReachQuiet-idle refl refl

restart-leaks_example :
    (u : Task) × (after (after (after (apply close busy) (start false)) (finish 0 true)) (begin 1)
      ≡ moved u)
    × (let i : ℕ = 0 in i ≢ 1)
    × (get_elem? u.loops 0 ≡ some (waiting minute u.stop))
    × (get_elem? u.loops 1 ≡ some (waiting (period_of minute) u.stop))
    × (apply (see_stop 0) u ≡ blocked)
restart-leaks_example = restart-leaks minute busy 0 minute Reach-busy refl refl
