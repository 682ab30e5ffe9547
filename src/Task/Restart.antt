-- ===== src/Task/Restart.antt =====
-- What `Close` and `Start` do to the goroutines of a task.
use mathlib.Core.Path.{subst}
use v2b_x_patched_by_haman.Task.Safety.{moved_inj}
use v2b_x_patched_by_haman.Prelude.{
  ℕ, suc, ℤ, ◌≡◌, ◌⊎◌, refl, sym, inl, inr, some_inj, Bool, true, false, Option, none, some, List,
  [], ◌∷◌, get_elem?, set, nat_eq, arith, All, All-snoc, All-set, All-get_elem?, All-map,
  Bool-cases, Option-cases,
}
use v2b_x_patched_by_haman.Task.{
  Loop, starting, first_run, waiting, working, ended, Task, fresh, Event, start, close,
  set_interval, begin, tick, see_stop, finish, moved, blocked, is_closed, start_task, close_task,
  begin_loop, continue_loop, tick_loop, stop_loop, move, apply, ReachQuiet, at_start, then_on,
  IsQuiet,
}

-- A blocked goroutine can see a stop: its channel is the current one, or closed.
abbrev pub Heeds : ℕ → List ℕ → Loop → Type 0
Heeds stop closed (waiting period ch) = (ch ≡ stop) ⊎ (is_closed ch closed ≡ true)
Heeds stop closed _ = Unit

-- When the task does not run, its last stop channel is closed, unless it never ran.
record IsHeeded (t : Task) : Type 0 where
  pub stopped : t.running ≡ false → (t.loops ≡ []) ⊎ (is_closed t.stop t.closed ≡ true)
  pub heeds : All (Heeds t.stop t.closed) t.loops

Heeds-start :
    (stop : ℕ) (closed : List ℕ) (l : Loop)
    → is_closed stop closed ≡ true
    → Heeds stop closed l
    → Heeds (suc stop) closed l
Heeds-start stop closed (waiting p ch) h (inl same) = inr (rw same h)
Heeds-start stop closed (waiting p ch) h (inr old) = inr old
Heeds-start stop closed (starting f) h _ = tt
Heeds-start stop closed (first_run p) h _ = tt
Heeds-start stop closed (working p) h _ = tt
Heeds-start stop closed ended h _ = tt

Heeds-close :
    (stop : ℕ) (closed : List ℕ) (l : Loop) → Heeds stop closed l → Heeds stop (stop ∷ closed) l
Heeds-close stop closed (waiting p ch) (inl same) = inl same
Heeds-close stop closed (waiting p ch) (inr old) = inr (ground arith)
Heeds-close stop closed (starting f) _ = tt
Heeds-close stop closed (first_run p) _ = tt
Heeds-close stop closed (working p) _ = tt
Heeds-close stop closed ended _ = tt

Heeds-start-All :
    (t : Task)
    → (t.loops ≡ []) ⊎ (is_closed t.stop t.closed ≡ true)
    → All (Heeds t.stop t.closed) t.loops
    → All (Heeds (suc t.stop) t.closed) t.loops
Heeds-start-All t (inl nobody) h = subst (All (Heeds (suc t.stop) t.closed)) (sym nobody) tt
Heeds-start-All t (inr gone) h = All-map (λ l. Heeds-start t.stop t.closed l gone) t.loops h

start_task-IsHeeded : (first : Bool) (t : Task) → IsHeeded t → IsHeeded (start_task first t)
unfolding start_task
start_task-IsHeeded first t h = elim (Bool-cases t.running) [
  | inl on ↦ simp on h
  | inr off ↦ rw off (record {
    stopped = λ e. absurd (cc);
    heeds =
        All-snoc (Heeds (suc t.stop) t.closed) t.loops (starting first)
          (Heeds-start-All t (h.stopped off) h.heeds) tt;
  })
]

close_task-IsHeeded : (t u : Task) → IsHeeded t → close_task t ≡ moved u → IsHeeded u
unfolding close_task
close_task-IsHeeded t u h e = elim (Bool-cases t.running) [
  | inl on ↦ elim (Bool-cases (is_closed t.stop t.closed)) [
    | inl twice ↦ absurd (ground arith)
    | inr once ↦
        let next : Task = record t { running = false; closed = t.stop ∷ t.closed } in
        let heeded : IsHeeded next = record {
          stopped = λ _. inr (ground arith);
          heeds = All-map (Heeds-close t.stop t.closed) t.loops h.heeds;
        } in
        subst IsHeeded (ground arith) heeded
  ]
  | inr off ↦ subst IsHeeded (ground arith) h
]

module _ (t : Task) (h : IsHeeded t) (i : ℕ) (f : Loop → Option Loop)
    (keep : (l l' : Loop)
      → Heeds t.stop t.closed l
      → f l ≡ some l'
      → Heeds t.stop t.closed l') where
  move-IsHeeded : (u : Task) → move t i f ≡ moved u → IsHeeded u
  unfolding move
  move-IsHeeded u e = elim (Option-cases (get_elem? t.loops i)) [
    | inl nothing ↦ absurd (ground arith)
    | inr (l, at) ↦ elim (Option-cases (f l)) [
      | inl stuck ↦ absurd (ground arith)
      | inr (l', to) ↦
          let next : Task = record t { loops = set t.loops i l' } in
          let heeded : IsHeeded next = record {
            stopped =
                λ off. elim (h.stopped off) [ inl nobody ↦ inl (rw nobody) | inr gone ↦ inr gone ];
            heeds =
                All-set (Heeds t.stop t.closed) t.loops i l' h.heeds
                  (keep l l' (All-get_elem? (Heeds t.stop t.closed) t.loops i l h.heeds at) to);
          } in
          subst IsHeeded (ground arith) heeded
    ]
  ]

begin_loop-Heeds : (t : Task) (l l' : Loop) → begin_loop t l ≡ some l' → Heeds t.stop t.closed l'
unfolding begin_loop
begin_loop-Heeds t (starting true) l' e = subst (Heeds t.stop t.closed) (some_inj e) tt
begin_loop-Heeds t (starting false) l' e = subst (Heeds t.stop t.closed) (some_inj e) (inl refl)
begin_loop-Heeds t l l' e = absurd (cc)

continue_loop-Heeds :
    (t : Task) (l l' : Loop) → continue_loop t l ≡ some l' → Heeds t.stop t.closed l'
unfolding continue_loop
continue_loop-Heeds t (first_run p) l' e = subst (Heeds t.stop t.closed) (some_inj e) (inl refl)
continue_loop-Heeds t (working p) l' e = subst (Heeds t.stop t.closed) (some_inj e) (inl refl)
continue_loop-Heeds t l l' e = absurd (cc)

tick_loop-Heeds : (t : Task) (l l' : Loop) → tick_loop l ≡ some l' → Heeds t.stop t.closed l'
unfolding tick_loop
tick_loop-Heeds t (waiting p ch) l' e = subst (Heeds t.stop t.closed) (some_inj e) tt
tick_loop-Heeds t l l' e = absurd (cc)

stop_loop-Heeds : (t : Task) (l l' : Loop) → stop_loop t l ≡ some l' → Heeds t.stop t.closed l'
unfolding stop_loop
stop_loop-Heeds t (waiting p ch) l' e =
    let ends : ended ≡ l' = ground arith in subst (Heeds t.stop t.closed) ends tt
stop_loop-Heeds t l l' e = absurd (cc)

apply-IsHeeded :
    (e : Event) (t u : Task) → IsQuiet e → IsHeeded t → apply e t ≡ moved u → IsHeeded u
unfolding apply
apply-IsHeeded (start first) t u q h e =
    subst IsHeeded (moved_inj e) (start_task-IsHeeded first t h)
apply-IsHeeded close t u q h e = close_task-IsHeeded t u h e
apply-IsHeeded (set_interval d) t u q h e =
    let next : Task = record t { interval = d } in
    let heeded : IsHeeded next = record { stopped = h.stopped; heeds = h.heeds } in
    subst IsHeeded (moved_inj e) heeded
apply-IsHeeded (begin i) t u q h e =
    move-IsHeeded t h i (begin_loop t) (λ l l' _. begin_loop-Heeds t l l') u e
apply-IsHeeded (tick i) t u q h e =
    move-IsHeeded t h i tick_loop (λ l l' _. tick_loop-Heeds t l l') u e
apply-IsHeeded (see_stop i) t u q h e =
    move-IsHeeded t h i (stop_loop t) (λ l l' _. stop_loop-Heeds t l l') u e
apply-IsHeeded (finish i true) t u q h e =
    move-IsHeeded t h i (continue_loop t) (λ l l' _. continue_loop-Heeds t l l') u e
apply-IsHeeded (finish i false) t u q h e = absurd (cc)

ReachQuiet-IsHeeded : {s t : Task} → IsHeeded s → ReachQuiet s t → IsHeeded t
ReachQuiet-IsHeeded h at_start = h
ReachQuiet-IsHeeded h (then_on {t} {u} r e q step) =
    apply-IsHeeded e t u q (ReachQuiet-IsHeeded h r) step

closed_not_running : (t u : Task) → close_task t ≡ moved u → u.running ≡ false
unfolding close_task
closed_not_running t u e = ground arith

-- A goroutine moves as its function says.
pub move_at :
    (t : Task) (i : ℕ) (f : Loop → Option Loop) (l l' : Loop)
    → get_elem? t.loops i ≡ some l
    → f l ≡ some l'
    → move t i f ≡ moved (record t { loops = set t.loops i l' })
unfolding move
move_at t i f l l' at to = rw (at, move) (rw (to, move))

pub move-blocked :
    (t : Task) (i : ℕ) (f : Loop → Option Loop) (l : Loop)
    → get_elem? t.loops i ≡ some l
    → f l ≡ none
    → move t i f ≡ blocked
unfolding move
move-blocked t i f l at to = rw (at, move) (rw (to, move))

fresh-IsHeeded : (interval : ℤ) → IsHeeded (fresh interval)
fresh-IsHeeded interval = record { stopped = λ _. inl refl; heeds = tt }

nobody_at : (ls : List Loop) (i : ℕ) {l : Loop} → ls ≡ [] → get_elem? ls i ≡ some l → ⊥
nobody_at [] i e at = cc
nobody_at (l ∷ ls) i e at = cc

closed_channel :
    (u : Task) (i : ℕ) (period : ℤ) (ch : ℕ)
    → IsHeeded u
    → u.running ≡ false
    → get_elem? u.loops i ≡ some (waiting period ch)
    → is_closed ch u.closed ≡ true
closed_channel u i period ch h off at = elim (h.stopped off) [
  | inl nobody ↦ absurd (nobody_at u.loops i nobody at)
  | inr gone ↦
      elim (All-get_elem? (Heeds u.stop u.closed) u.loops i (waiting period ch) h.heeds at) [
        | inl same ↦ rw same gone
        | inr old ↦ old
      ]
]

-- As long as no `Execute` has failed, once `Close` was called every goroutine that is blocked in
-- its `select` can end: the stop channel that it reads, whichever it is, is closed.
pub close-stops :
    (interval : ℤ) (t u : Task) (i : ℕ) (period : ℤ) (ch : ℕ)
    → ReachQuiet (fresh interval) t
    → apply close t ≡ moved u
    → get_elem? u.loops i ≡ some (waiting period ch)
    → apply (see_stop i) u ≡ moved (record u { loops = set u.loops i ended })
unfolding apply stop_loop
close-stops interval t u i period ch r e at =
    let heeded : IsHeeded u =
      apply-IsHeeded close t u tt (ReachQuiet-IsHeeded (fresh-IsHeeded interval) r) e in
    move_at u i (stop_loop u) (waiting period ch) ended at
      (rw (closed_channel u i period ch heeded (closed_not_running t u e) at))
