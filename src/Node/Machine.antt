-- ===== src/Node/Machine.antt =====
-- node/machine.go: a machine keeps one controller for each node that the panel lists.
pub mod Rollback
pub mod Pruned
pub mod Listed
use v2b_x_patched_by_haman.Prelude.{
  ℕ, ℤ, pos, ltb_ℤ, Bool, true, false, ◌&&◌, Option, none, some, List, [], ◌∷◌, ◌++◌, any, ◌==◌,
  int_eq, Result, ok, err, if◌then◌else◌,
}
use v2b_x_patched_by_haman.Dict.{Dict, get, put, remove}
use v2b_x_patched_by_haman.Panel.Types.{MachineNode}
use v2b_x_patched_by_haman.Task.{Task, fresh, start_task}
use v2b_x_patched_by_haman.Node.Controller.{stop_task}

-- What a machine asks of its controllers: `newController`, which starts one, and `Close`. A panic in
-- them ends the process, and is not an outcome here.
pub record NodeApi (World Controller Error : Type 0) : Type 0 where
  pub new_controller : MachineNode → World → World × Result {0, 0} Error Controller
  pub close_controller : Controller → World → World × Result {0, 0} Error Unit

pub record Machine (World Controller : Type 0) : Type 0 where
  pub controllers : Dict ℤ Controller
  pub world : World
  pub has_status_func : Bool
  pub pull_task : Option Task
  pub status_task : Option Task

-- A method ends well, or with an error, or it panics. The machine is what it leaves.
pub data Ended (M Error : Type 0) : Type 0 where
  synced : M → Ended M Error
  failed : Error → M → Ended M Error
  crashed : Ended M Error

abbrev pub then_end : {M Error : Type 0} → Ended M Error → (M → Ended M Error) → Ended M Error
then_end (synced m) k = k m
then_end (failed e m) k = failed e m
then_end crashed k = crashed

-- The id is one of the nodes'.
abbrev pub is_next : ℤ → List MachineNode → Bool
is_next id nodes = any (λ n. n.id == id) nodes

module _ {World Controller Error : Type 0} (api : NodeApi World Controller Error) where
  -- One controller is closed and forgotten, or its error is handed on.
  abbrev pub drop_closed :
      ℤ
      → Machine World Controller
      → World × Result {0, 0} Error Unit
      → Ended (Machine World Controller) Error
  drop_closed id m (w, err e) = failed e (record m { world = w })
  drop_closed id m (w, ok _) =
      synced (record m { world = w; controllers = remove m.controllers id })

  abbrev pub close_found :
      ℤ → Machine World Controller → Option Controller → Ended (Machine World Controller) Error
  close_found id m none = crashed
  close_found id m (some c) = drop_closed id m (api.close_controller c m.world)

  -- An error while the started controllers are closed is a panic.
  abbrev pub or_crash :
      Ended (Machine World Controller) Error → Ended (Machine World Controller) Error
  or_crash (synced m) = synced m
  or_crash (failed e m) = crashed
  or_crash crashed = crashed

  unfoldable pub close_started :
      List ℤ → Machine World Controller → Ended (Machine World Controller) Error
  close_started [] m = synced m
  close_started (id ∷ ids) m =
      then_end (or_crash (close_found id m (get m.controllers id))) (λ m'. close_started ids m')

  -- The error of the start, after the roll back.
  abbrev pub fail_with :
      Error → Ended (Machine World Controller) Error → Ended (Machine World Controller) Error
  fail_with e (synced m) = failed e m
  fail_with e (failed e' m) = crashed
  fail_with e crashed = crashed

  -- A controller that does not start is passed over, or, when the start is strict, ends the start.
  abbrev pub after_new :
      Bool
      → ℤ
      → List ℤ
      → Machine World Controller
      → (List ℤ → Machine World Controller → Ended (Machine World Controller) Error)
      → World × Result {0, 0} Error Controller
      → Ended (Machine World Controller) Error
  after_new strict id started m k (w, ok c) =
      k (started ++ id ∷ []) (record m { world = w; controllers = put m.controllers id c })
  after_new true id started m k (w, err e) =
      fail_with e (close_started started (record m { world = w }))
  after_new false id started m k (w, err e) = k started (record m { world = w })

  abbrev pub start_missing :
      Bool
      → MachineNode
      → List ℤ
      → Machine World Controller
      → (List ℤ → Machine World Controller → Ended (Machine World Controller) Error)
      → Option Controller
      → Ended (Machine World Controller) Error
  start_missing strict n started m k (some c) = k started m
  start_missing strict n started m k none =
      after_new strict n.id started m k (api.new_controller n m.world)

  -- The loop over the nodes.
  unfoldable pub start_nodes :
      Bool
      → List MachineNode
      → List ℤ
      → Machine World Controller
      → Ended (Machine World Controller) Error
  unfolding close_started
  start_nodes strict [] started m = synced m
  start_nodes strict (n ∷ ns) started m =
      start_missing strict n started m (λ started' m'. start_nodes strict ns started' m')
        (get m.controllers n.id)

  -- The loop over the controllers that are there when it begins.
  unfoldable pub remove_absent :
      List MachineNode
      → Dict ℤ Controller
      → Machine World Controller
      → Ended (Machine World Controller) Error
  remove_absent nodes [] m = synced m
  remove_absent nodes ((id, c) ∷ cs) m =
      then_end
        (if is_next id nodes then synced m else drop_closed id m (api.close_controller c m.world))
        (λ m'. remove_absent nodes cs m')

  unfoldable pub sync_nodes :
      List MachineNode → Bool → Machine World Controller → Ended (Machine World Controller) Error
  unfolding start_nodes remove_absent
  sync_nodes nodes strict m =
      then_end (start_nodes strict nodes [] m) (λ m'. remove_absent nodes m'.controllers m')

-- A task for an interval that the panel gives: it begins, changes or ends; `none` is a panic.
unfoldable pub update_task : ℤ → Bool → Option Task → Option (Option Task)
update_task interval wanted none =
    if wanted then some (some (start_task false (fresh interval))) else some none
update_task interval wanted (some t) =
    if wanted
    then (if t.interval == interval
        then some (some t)
        else elim (stop_task (record t { interval = interval })) [
          | none ↦ none
          | some stopped ↦ some (some (start_task false stopped))
        ])
    else elim (stop_task t) [ none ↦ none | some _ ↦ some none ]

unfoldable pub update_tasks :
    {World Controller : Type 0}
    → ℤ
    → ℤ
    → Machine World Controller
    → Option (Machine World Controller)
unfolding update_task
update_tasks pull push m = elim (update_task pull (ltb_ℤ (pos 0) pull) m.pull_task) [
  | none ↦ none
  | some pull_task ↦
      elim (update_task push (ltb_ℤ (pos 0) push && m.has_status_func) m.status_task) [
        | none ↦ none
        | some status_task ↦ some (record m { pull_task = pull_task; status_task = status_task })
      ]
]
