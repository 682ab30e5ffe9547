-- ===== src/Task/Safety.antt =====
-- No schedule closes a stop channel twice, and no ticker has an interval that is not positive.
use mathlib.Core.Path.{subst}
use v2b_x_patched_by_haman.Prelude.{
  ℕ, suc, ◌≤◌, ℤ, pos, ◌<ℤ◌, ◌≡◌, ◌≢◌, some_inj, sym, ◌∙◌, inl, inr, refl, Bool, true, false,
  Option, some, List, [], ◌∷◌, get_elem?, set, nat_eq, arith, All, All-snoc, All-set, All-get_elem?,
  Bool-cases, Option-cases,
}
use v2b_x_patched_by_haman.Task.{
  Loop, starting, first_run, waiting, working, ended, Task, fresh, Event, start, close,
  set_interval, begin, tick, see_stop, finish, moved, panicked, is_closed, start_task, close_task,
  begin_loop, continue_loop, fail_loop, tick_loop, stop_loop, move, apply, Reach, at_start, then_on,
}

-- The ticker of a loop, if it has one, has a positive interval.
abbrev pub HasPeriod : Loop → Type 0
HasPeriod (first_run period) = pos 0 <ℤ period
HasPeriod (waiting period ch) = pos 0 <ℤ period
HasPeriod (working period) = pos 0 <ℤ period
HasPeriod _ = Unit

-- The open channel of a running task, and channels that were made.
pub record IsSound (t : Task) : Type 0 where
  pub open_stop : t.running ≡ true → is_closed t.stop t.closed ≡ false
  pub made : All (λ ch. ch ≤ t.stop) t.closed
  pub periods : All HasPeriod t.loops

pub not_closed_of_made :
    (ch : ℕ) (closed : List ℕ) → All (λ c. c ≤ ch) closed → is_closed (suc ch) closed ≡ false
not_closed_of_made ch [] h = refl
not_closed_of_made ch (c ∷ cs) h = ground (arith, not_closed_of_made ch cs h.1)

made_suc : (ch : ℕ) (closed : List ℕ) → All (λ c. c ≤ ch) closed → All (λ c. c ≤ suc ch) closed
made_suc ch [] h = tt
made_suc ch (c ∷ cs) h = (omega arith, made_suc ch cs h.1)

pub moved_inj : {t u : Task} → moved t ≡ moved u → t ≡ u
moved_inj e = cc

start_task-IsSound : (first : Bool) (t : Task) → IsSound t → IsSound (start_task first t)
unfolding start_task
start_task-IsSound first t s = elim (Bool-cases t.running) [
  | inl on ↦ simp on s
  | inr off ↦ rw off (record {
    open_stop = λ _. not_closed_of_made t.stop t.closed s.made;
    made = made_suc t.stop t.closed s.made;
    periods = All-snoc HasPeriod t.loops (starting first) s.periods tt;
  })
]

-- Closing a sound task does not panic, and leaves it sound.
close_task-IsSound : (t : Task) → IsSound t → (u : Task) × (close_task t ≡ moved u) × IsSound u
unfolding close_task
close_task-IsSound t s = elim (Bool-cases t.running) [
  | inl on ↦ (
    record t { running = false; closed = t.stop ∷ t.closed },
    rw on (rw (s.open_stop on)),
    record { open_stop = λ h. absurd (cc); made = (omega arith, s.made); periods = s.periods },
  )
  | inr off ↦ (t, rw off, s)
]

-- A goroutine that moves keeps a positive interval, or takes one.
begin_loop-HasPeriod : (t : Task) (l l' : Loop) → begin_loop t l ≡ some l' → HasPeriod l'
unfolding begin_loop
begin_loop-HasPeriod t (starting true) l' e = subst HasPeriod (some_inj e) (ground arith)
begin_loop-HasPeriod t (starting false) l' e = subst HasPeriod (some_inj e) (ground arith)
begin_loop-HasPeriod t l l' e = absurd (cc)

continue_loop-HasPeriod :
    (t : Task) (l l' : Loop) → HasPeriod l → continue_loop t l ≡ some l' → HasPeriod l'
unfolding continue_loop
continue_loop-HasPeriod t (first_run period) l' h e = subst HasPeriod (some_inj e) h
continue_loop-HasPeriod t (working period) l' h e = subst HasPeriod (some_inj e) h
continue_loop-HasPeriod t l l' h e = absurd (cc)

tick_loop-HasPeriod : (l l' : Loop) → HasPeriod l → tick_loop l ≡ some l' → HasPeriod l'
unfolding tick_loop
tick_loop-HasPeriod (waiting period ch) l' h e = subst HasPeriod (some_inj e) h
tick_loop-HasPeriod l l' h e = absurd (cc)

fail_loop-HasPeriod : (l l' : Loop) → HasPeriod l → fail_loop l ≡ some l' → HasPeriod l'
unfolding fail_loop
fail_loop-HasPeriod (first_run period) l' h e = subst HasPeriod (some_inj e) tt
fail_loop-HasPeriod (working period) l' h e = subst HasPeriod (some_inj e) tt
fail_loop-HasPeriod l l' h e = absurd (cc)

stop_loop-HasPeriod : (t : Task) (l l' : Loop) → stop_loop t l ≡ some l' → HasPeriod l'
unfolding stop_loop
stop_loop-HasPeriod t (waiting period ch) l' e =
    let ends : ended ≡ l' = ground arith in subst HasPeriod ends tt
stop_loop-HasPeriod t l l' e = absurd (cc)

module _ (t : Task) (s : IsSound t) (i : ℕ) (f : Loop → Option Loop)
    (keep : (l l' : Loop) → HasPeriod l → f l ≡ some l' → HasPeriod l') where
  move-IsSound : (u : Task) → move t i f ≡ moved u → IsSound u
  unfolding move
  move-IsSound u e = elim (Option-cases (get_elem? t.loops i)) [
    | inl nothing ↦ absurd (ground arith)
    | inr (l, at) ↦ elim (Option-cases (f l)) [
      | inl stuck ↦ absurd (ground arith)
      | inr (l', to) ↦ subst IsSound (ground arith) (
          let next : Task = record t { loops = set t.loops i l' } in
          let sound : IsSound next = record {
            open_stop = s.open_stop;
            made = s.made;
            periods =
                All-set HasPeriod t.loops i l' s.periods
                  (keep l l' (All-get_elem? HasPeriod t.loops i l s.periods at) to);
          } in
          sound)
    ]
  ]

  move-ne-panicked : move t i f ≢ panicked
  unfolding move
  move-ne-panicked = ground arith

apply-IsSound : (e : Event) (t u : Task) → IsSound t → apply e t ≡ moved u → IsSound u
unfolding apply
apply-IsSound (start first) t u s e = subst IsSound (moved_inj e) (start_task-IsSound first t s)
apply-IsSound close t u s e =
    let (v, e', sound) = close_task-IsSound t s in subst IsSound (moved_inj (sym e' ∙ e)) sound
apply-IsSound (set_interval d) t u s e = subst IsSound (moved_inj e) (
    let next : Task = record t { interval = d } in
    let sound : IsSound next = record {
      open_stop = s.open_stop;
      made = s.made;
      periods = s.periods;
    } in
    sound)
apply-IsSound (begin i) t u s e =
    move-IsSound t s i (begin_loop t) (λ l l' h. begin_loop-HasPeriod t l l') u e
apply-IsSound (tick i) t u s e = move-IsSound t s i tick_loop tick_loop-HasPeriod u e
apply-IsSound (see_stop i) t u s e =
    move-IsSound t s i (stop_loop t) (λ l l' h. stop_loop-HasPeriod t l l') u e
apply-IsSound (finish i true) t u s e =
    move-IsSound t s i (continue_loop t) (continue_loop-HasPeriod t) u e
apply-IsSound (finish i false) t u s e =
    let failed : Task = record t { running = false } in
    let sound : IsSound failed = record {
      open_stop = λ h. absurd (cc);
      made = s.made;
      periods = s.periods;
    } in
    move-IsSound failed sound i fail_loop fail_loop-HasPeriod u e

apply-ne-panicked : (e : Event) (t : Task) → IsSound t → apply e t ≢ panicked
unfolding apply
apply-ne-panicked (start first) t s e = cc
apply-ne-panicked close t s e = let (v, e', sound) = close_task-IsSound t s in cc
apply-ne-panicked (set_interval d) t s e = cc
apply-ne-panicked (begin i) t s e =
    move-ne-panicked t s i (begin_loop t) (λ l l' h. begin_loop-HasPeriod t l l') e
apply-ne-panicked (tick i) t s e = move-ne-panicked t s i tick_loop tick_loop-HasPeriod e
apply-ne-panicked (see_stop i) t s e =
    move-ne-panicked t s i (stop_loop t) (λ l l' h. stop_loop-HasPeriod t l l') e
apply-ne-panicked (finish i true) t s e =
    move-ne-panicked t s i (continue_loop t) (continue_loop-HasPeriod t) e
apply-ne-panicked (finish i false) t s e =
    let failed : Task = record t { running = false } in
    let sound : IsSound failed = record {
      open_stop = λ h. absurd (cc);
      made = s.made;
      periods = s.periods;
    } in
    move-ne-panicked failed sound i fail_loop fail_loop-HasPeriod e

pub Reach-IsSound : {s t : Task} → IsSound s → Reach s t → IsSound t
Reach-IsSound h at_start = h
Reach-IsSound h (then_on {t} {u} r e step) = apply-IsSound e t u (Reach-IsSound h r) step

pub fresh-IsSound : (interval : ℤ) → IsSound (fresh interval)
fresh-IsSound interval = record { open_stop = λ h. absurd (cc); made = tt; periods = tt }

-- From a new task, whatever its interval and whatever the schedule, no call of a method and no
-- move of a goroutine panics: no stop channel is closed twice.
pub Reach-ne-panicked :
    (interval : ℤ) (t : Task) → Reach (fresh interval) t → (e : Event) → apply e t ≢ panicked
Reach-ne-panicked interval t r e = apply-ne-panicked e t (Reach-IsSound (fresh-IsSound interval) r)

-- From a new task, whatever its interval and whatever the schedule, every ticker has a positive
-- interval, as `NewTicker` wants.
pub Reach-HasPeriod : (interval : ℤ) (t : Task) → Reach (fresh interval) t → All HasPeriod t.loops
Reach-HasPeriod interval t r = (Reach-IsSound (fresh-IsSound interval) r).periods
