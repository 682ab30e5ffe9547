-- ===== src/Node/Machine/Rollback.antt =====
-- node/machine.go: the controllers before and after a strict start that fails.
use v2b_x_patched_by_haman.Prelude.{
  ℤ, ◌≡◌, refl, sym, ap, subst, ◌∙◌, Bool, true, false, ◌||◌, Bool-cases, Option, none, some, inl,
  inr, List, [], ◌∷◌, ◌++◌, any, ◌==◌, int_eq, Result, ok, err, arith, if◌then◌else◌,
}
use v2b_x_patched_by_haman.Dict.{get, put, remove}
use v2b_x_patched_by_haman.Dict.Laws.{get-put, get-remove}
use v2b_x_patched_by_haman.Panel.Types.{MachineNode}
use v2b_x_patched_by_haman.Node.Machine.{
  NodeApi, Machine, Ended, synced, failed, crashed, then_end, drop_closed, close_found, or_crash,
  close_started, fail_with, after_new, start_missing, start_nodes,
}

-- What holds of the machine that an error leaves.
abbrev pub OnFailure : {M Error : Type 0} → (M → Type 0) → Ended M Error → Type 0
OnFailure P (synced m) = Unit
OnFailure P (failed e m) = P m
OnFailure P crashed = Unit

abbrev pub OnSuccess : {M Error : Type 0} → (M → Type 0) → Ended M Error → Type 0
OnSuccess P (synced m) = P m
OnSuccess P (failed e m) = Unit
OnSuccess P crashed = Unit

abbrev is_started : ℤ → List ℤ → Bool
is_started id started = any (λ j. j == id) started

is_started-append :
    (id j : ℤ) (started : List ℤ)
    → is_started id (started ++ j ∷ []) ≡ (is_started id started || j == id)
is_started-append id j [] = ground (arith)
is_started-append id j (i ∷ rest) = ground (arith, is_started-append id j rest)

module _ {World Controller Error : Type 0} (api : NodeApi World Controller Error) where
  -- The controllers of the second machine are those of the first, without the started ones.
  abbrev IsRolledBack : List ℤ → Machine World Controller → Machine World Controller → Type 0
  IsRolledBack started m m' =
      (id : ℤ)
      → get m'.controllers id ≡ (if is_started id started then none else get m.controllers id)

  pub then_success :
      (P Q : Machine World Controller → Type 0) (r : Ended (Machine World Controller) Error)
      (k : Machine World Controller → Ended (Machine World Controller) Error)
      → OnSuccess P r
      → ((m : Machine World Controller) → P m → OnSuccess Q (k m))
      → OnSuccess Q (then_end r k)
  then_success P Q (synced m) k p h = h m p
  then_success P Q (failed e m) k p h = tt
  then_success P Q crashed k p h = tt

  -- The controllers without one of them.
  abbrev IsWithout : ℤ → Machine World Controller → Machine World Controller → Type 0
  IsWithout id m m' = m'.controllers ≡ remove m.controllers id

  drop_closed-IsWithout :
      (id : ℤ) (m : Machine World Controller) (r : World × Result {0, 0} Error Unit)
      → OnSuccess (IsWithout id m) (or_crash api (drop_closed api id m r))
  drop_closed-IsWithout id m (w, ok u) = refl
  drop_closed-IsWithout id m (w, err e) = tt

  close_found-IsWithout :
      (id : ℤ) (m : Machine World Controller) (o : Option Controller)
      → OnSuccess (IsWithout id m) (or_crash api (close_found api id m o))
  close_found-IsWithout id m none = tt
  close_found-IsWithout id m (some c) = drop_closed-IsWithout id m (api.close_controller c m.world)

  pub on_success :
      (P Q : Machine World Controller → Type 0) (r : Ended (Machine World Controller) Error)
      → ((m : Machine World Controller) → P m → Q m)
      → OnSuccess P r
      → OnSuccess Q r
  on_success P Q (synced m) h p = h m p
  on_success P Q (failed e m) h p = tt
  on_success P Q crashed h p = tt

  rolled_further :
      (i : ℤ) (rest : List ℤ) (m m' m'' : Machine World Controller)
      → IsWithout i m m'
      → IsRolledBack rest m' m''
      → IsRolledBack (i ∷ rest) m m''
  rolled_further i rest m m' m'' without rolled id =
      rolled id ∙ ground (arith, ap (λ d. get d id) without, get-remove m.controllers i id)

  close_started-IsRolledBack :
      (started : List ℤ) (m : Machine World Controller)
      → OnSuccess (IsRolledBack started m) (close_started api started m)
  unfolding close_started
  close_started-IsRolledBack [] m = λ id. refl
  close_started-IsRolledBack (i ∷ rest) m =
      then_success (IsWithout i m) (IsRolledBack (i ∷ rest) m) _ (λ m'. close_started api rest m')
        (close_found-IsWithout i m (get m.controllers i))
        (λ m' without.
          on_success (IsRolledBack rest m') (IsRolledBack (i ∷ rest) m) (close_started api rest m')
            (λ m'' rolled. rolled_further i rest m m' m'' without rolled)
            (close_started-IsRolledBack rest m'))

  -- The started controllers are new, and the others are those of the first machine.
  abbrev IsAhead : List ℤ → Machine World Controller → Machine World Controller → Type 0
  IsAhead started m0 m =
      (id : ℤ)
      → (is_started id started ≡ true → get m0.controllers id ≡ none)
        × (is_started id started ≡ false → get m.controllers id ≡ get m0.controllers id)

  -- The same controllers, whatever the world.
  abbrev pub HasControllersOf : Machine World Controller → Machine World Controller → Type 0
  HasControllersOf m0 m = (id : ℤ) → get m.controllers id ≡ get m0.controllers id

  module _ (m0 : Machine World Controller) where
    rolled_back :
        (started : List ℤ) (m m' : Machine World Controller)
        → IsAhead started m0 m
        → IsRolledBack started m m'
        → HasControllersOf m0 m'
    rolled_back started m m' ahead rolled id = elim (Bool-cases (is_started id started)) [
      | inl new ↦ rolled id ∙ rw new (sym ((ahead id).0 new))
      | inr old ↦ rolled id ∙ rw old ((ahead id).1 old)
    ]

    fail_with-rolled :
        (started : List ℤ) (m : Machine World Controller) (e : Error)
        (r : Ended (Machine World Controller) Error)
        → IsAhead started m0 m
        → OnSuccess (IsRolledBack started m) r
        → OnFailure (HasControllersOf m0) (fail_with api e r)
    fail_with-rolled started m e (synced m') ahead rolled = rolled_back started m m' ahead rolled
    fail_with-rolled started m e (failed e' m') ahead rolled = tt
    fail_with-rolled started m e crashed ahead rolled = tt

    IsAhead-of_new :
        (i : ℤ) (started : List ℤ) (m : Machine World Controller) (w : World) (c : Controller)
        → get m.controllers i ≡ none
        → IsAhead started m0 m
        → IsAhead
            (started ++ i ∷ [])
            m0
            (record m { world = w; controllers = put m.controllers i c })
    IsAhead-of_new i started m w c missing ahead id = (
      λ h. elim (Bool-cases (is_started id started)) [
        | inl new ↦ (ahead id).0 new
        | inr old ↦
            let same : (i == id) ≡ true = ground (arith, h, old, is_started-append id i started) in
            sym ((ahead id).1 old)
            ∙ ap (λ j. get m.controllers j) (sym ((int_eq.is_key_iff i id).0 same))
            ∙ missing
      ],
      λ h.
          ground
            (arith, h, is_started-append id i started, get-put m.controllers i id c, (ahead id).1),
    )

    after_new-rolled :
        (i : ℤ) (started : List ℤ) (m : Machine World Controller)
        (k : List ℤ → Machine World Controller → Ended (Machine World Controller) Error)
        (r : World × Result {0, 0} Error Controller)
        → get m.controllers i ≡ none
        → IsAhead started m0 m
        → ((started' : List ℤ) (m' : Machine World Controller)
            → IsAhead started' m0 m'
            → OnFailure (HasControllersOf m0) (k started' m'))
        → OnFailure (HasControllersOf m0) (after_new api true i started m k r)
    after_new-rolled i started m k (w, ok c) missing ahead go =
        go (started ++ i ∷ []) (record m { world = w; controllers = put m.controllers i c })
          (IsAhead-of_new i started m w c missing ahead)
    after_new-rolled i started m k (w, err e) missing ahead go =
        fail_with-rolled started (record m { world = w }) e
          (close_started api started (record m { world = w })) ahead
          (close_started-IsRolledBack started (record m { world = w }))

    start_missing-rolled :
        (n : MachineNode) (started : List ℤ) (m : Machine World Controller)
        (k : List ℤ → Machine World Controller → Ended (Machine World Controller) Error)
        (o : Option Controller)
        → get m.controllers n.id ≡ o
        → IsAhead started m0 m
        → ((started' : List ℤ) (m' : Machine World Controller)
            → IsAhead started' m0 m'
            → OnFailure (HasControllersOf m0) (k started' m'))
        → OnFailure (HasControllersOf m0) (start_missing api true n started m k o)
    start_missing-rolled n started m k none missing ahead go =
        after_new-rolled n.id started m k (api.new_controller n m.world) missing ahead go
    start_missing-rolled n started m k (some c) there ahead go = go started m ahead

    start_nodes-rolled :
        (nodes : List MachineNode) (started : List ℤ) (m : Machine World Controller)
        → IsAhead started m0 m
        → OnFailure (HasControllersOf m0) (start_nodes api true nodes started m)
    unfolding start_nodes
    start_nodes-rolled [] started m ahead = tt
    start_nodes-rolled (n ∷ ns) started m ahead =
        start_missing-rolled n started m _ (get m.controllers n.id) refl ahead
          (λ started' m' ahead'. start_nodes-rolled ns started' m' ahead')

  -- When a node of a strict start does not start, the error comes with the controllers of before the
  -- start, under every id: those that the start had made are closed and forgotten. (Closing one of
  -- them without success is a panic.)
  pub start_nodes-get :
      (nodes : List MachineNode) (m m' : Machine World Controller) (e : Error) (id : ℤ)
      → start_nodes api true nodes [] m ≡ failed e m'
      → get m'.controllers id ≡ get m.controllers id
  start_nodes-get nodes m m' e id ended =
      subst (OnFailure (HasControllersOf m)) ended
        (start_nodes-rolled m nodes [] m (λ id'. (λ h. absurd (cc), λ h. refl))) id
