-- ===== src/Node/Machine/Listed.antt =====
-- node/machine.go: the controllers before and after syncNodes.
use v2b_x_patched_by_haman.Prelude.{
  ℤ, ◌≡◌, sym, refl, subst, ◌∙◌, Bool, true, false, Bool-cases, Option, Option-cases, none, some,
  inl, inr, List, [], ◌∷◌, ◌++◌, ◌==◌, int_eq, Result, ok, err, arith,
}
use v2b_x_patched_by_haman.Dict.{get, put}
use v2b_x_patched_by_haman.Dict.Laws.{get-put}
use v2b_x_patched_by_haman.Panel.Types.{MachineNode}
use v2b_x_patched_by_haman.Node.Machine.{
  NodeApi, Machine, Ended, synced, failed, crashed, is_next, close_started, fail_with, after_new,
  start_missing, start_nodes, remove_absent, sync_nodes,
}
use v2b_x_patched_by_haman.Node.Machine.Pruned.{IsPruned, remove_absent-IsPruned}
use v2b_x_patched_by_haman.Node.Machine.Rollback.{OnSuccess, then_success, on_success}

-- The controller of an id before a sync and after it: gone if the id is no node's; else kept if there
-- is one, and started or, unless the sync is strict, refused if there is none.
pub data IsEntry {Controller : Type 0} (strict : Bool)
    : Bool → Option Controller → Option Controller → Type 0 where
  entry_gone : {o : Option Controller} → IsEntry strict false o none
  entry_kept : (c : Controller) → IsEntry strict true (some c) (some c)
  entry_new : (c : Controller) → IsEntry strict true none (some c)
  entry_refused : strict ≡ false → IsEntry strict true none none

module _ {World Controller Error : Type 0} (api : NodeApi World Controller Error) where
  -- A controller that is there stays.
  abbrev IsKept : Machine World Controller → Machine World Controller → Type 0
  IsKept m m' =
      (id : ℤ) (c : Controller) → get m.controllers id ≡ some c → get m'.controllers id ≡ some c

  -- Also, after a strict start every node has a controller.
  abbrev IsGrown :
      Bool → List MachineNode → Machine World Controller → Machine World Controller → Type 0
  IsGrown strict nodes m m' =
      IsKept m m'
      × (strict ≡ true
          → (id : ℤ) → is_next id nodes ≡ true
          → (c : Controller) × (get m'.controllers id ≡ some c))

  IsKept-put :
      (i : ℤ) (m : Machine World Controller) (w : World) (c : Controller)
      → get m.controllers i ≡ none
      → IsKept m (record m { world = w; controllers = put m.controllers i c })
  IsKept-put i m w c missing id c' there =
      ground (arith, get-put m.controllers i id c, there, missing, int_eq.is_key_iff i id)

  fail_with-OnSuccess :
      (P : Machine World Controller → Type 0) (e : Error)
      (r : Ended (Machine World Controller) Error)
      → OnSuccess P (fail_with api e r)
  fail_with-OnSuccess P e (synced m) = tt
  fail_with-OnSuccess P e (failed e' m) = tt
  fail_with-OnSuccess P e crashed = tt

  -- A later machine, where the first node of a strict start has its controller.
  IsGrown-cons :
      (strict : Bool) (n : MachineNode) (ns : List MachineNode)
      (m m' m'' : Machine World Controller)
      → IsKept m m'
      → (strict ≡ true → (c : Controller) × (get m'.controllers n.id ≡ some c))
      → IsGrown strict ns m' m''
      → IsGrown strict (n ∷ ns) m m''
  IsGrown-cons strict n ns m m' m'' kept first (keeps, rest) = (
    λ id c there. keeps id c (kept id c there),
    λ s id h. elim (Bool-cases (n.id == id)) [
      | inl same ↦
          let (c, there) = first s in
          (
            c,
            keeps id c (
                subst (λ i. get m'.controllers i ≡ some c) ((int_eq.is_key_iff n.id id).0 same)
                  there),
          )
      | inr other ↦ rest s id (ground (arith, h, other))
    ],
  )

  after_new-IsGrown :
      (strict : Bool) (n : MachineNode) (ns : List MachineNode) (started : List ℤ)
      (m : Machine World Controller)
      (k : List ℤ → Machine World Controller → Ended (Machine World Controller) Error)
      (r : World × Result {0, 0} Error Controller)
      → get m.controllers n.id ≡ none
      → ((started' : List ℤ) (m' : Machine World Controller)
          → OnSuccess (IsGrown strict ns m') (k started' m'))
      → OnSuccess (IsGrown strict (n ∷ ns) m) (after_new api strict n.id started m k r)
  after_new-IsGrown strict n ns started m k (w, ok c) missing go =
      let m' = record m { world = w; controllers = put m.controllers n.id c } in
      on_success api (IsGrown strict ns m') (IsGrown strict (n ∷ ns) m)
        (k (started ++ n.id ∷ []) m')
        (λ m'' grown.
          IsGrown-cons strict n ns m m' m'' (IsKept-put n.id m w c missing)
            (λ _.
              (c, ground (arith, get-put m.controllers n.id n.id c, int_eq.is_key_iff n.id n.id)))
            grown)
        (go (started ++ n.id ∷ []) m')
  after_new-IsGrown true n ns started m k (w, err e) missing go =
      fail_with-OnSuccess (IsGrown true (n ∷ ns) m) e
        (close_started api started (record m { world = w }))
  after_new-IsGrown false n ns started m k (w, err e) missing go =
      let m' = record m { world = w } in
      on_success api (IsGrown false ns m') (IsGrown false (n ∷ ns) m) (k started m')
        (λ m'' grown.
          IsGrown-cons false n ns m m' m'' (λ id c there. there) (λ s. absurd (cc)) grown)
        (go started m')

  start_missing-IsGrown :
      (strict : Bool) (n : MachineNode) (ns : List MachineNode) (started : List ℤ)
      (m : Machine World Controller)
      (k : List ℤ → Machine World Controller → Ended (Machine World Controller) Error)
      (o : Option Controller)
      → get m.controllers n.id ≡ o
      → ((started' : List ℤ) (m' : Machine World Controller)
          → OnSuccess (IsGrown strict ns m') (k started' m'))
      → OnSuccess (IsGrown strict (n ∷ ns) m) (start_missing api strict n started m k o)
  start_missing-IsGrown strict n ns started m k none missing go =
      after_new-IsGrown strict n ns started m k (api.new_controller n m.world) missing go
  start_missing-IsGrown strict n ns started m k (some c) there go =
      on_success api (IsGrown strict ns m) (IsGrown strict (n ∷ ns) m) (k started m)
        (λ m'' grown. IsGrown-cons strict n ns m m m'' (λ id c' h. h) (λ _. (c, there)) grown)
        (go started m)

  start_nodes-IsGrown :
      (strict : Bool) (nodes : List MachineNode) (started : List ℤ) (m : Machine World Controller)
      → OnSuccess (IsGrown strict nodes m) (start_nodes api strict nodes started m)
  unfolding start_nodes
  start_nodes-IsGrown strict [] started m = (λ id c there. there, λ s id h. absurd (cc))
  start_nodes-IsGrown strict (n ∷ ns) started m =
      start_missing-IsGrown strict n ns started m _ (get m.controllers n.id) refl
        (λ started' m'. start_nodes-IsGrown strict ns started' m')

  -- The controllers are those of the nodes: none for another id, and the old one for a node that had
  -- one; after a strict sync one for every node.
  abbrev IsSynced :
      Bool → List MachineNode → Machine World Controller → Machine World Controller → Type 0
  IsSynced strict nodes m m' =
      (id : ℤ)
      → (is_next id nodes ≡ false → get m'.controllers id ≡ none)
        × (is_next id nodes ≡ true
            → ((c : Controller) → get m.controllers id ≡ some c → get m'.controllers id ≡ some c)
              × (strict ≡ true → (c : Controller) × (get m'.controllers id ≡ some c)))

  IsSynced-of :
      (nodes : List MachineNode) (strict : Bool) (m m1 m2 : Machine World Controller)
      → IsGrown strict nodes m m1
      → IsPruned api nodes m1.controllers m1 m2
      → IsSynced strict nodes m m2
  IsSynced-of nodes strict m m1 m2 (keeps, has) pruned id = (
    λ absent. elim (Option-cases (get m1.controllers id)) [
      | inl missing ↦ ((pruned id).1 absent).0 missing
      | inr (c, there) ↦ ((pruned id).1 absent).1 (λ e. absurd (cc (there, e)))
    ],
    λ next. (
      λ c there. (pruned id).0 next ∙ keeps id c there,
      λ s. let (c, there) = has s id next in (c, (pruned id).0 next ∙ there),
    ),
  )

  sync_nodes-IsSynced :
      (strict : Bool) (nodes : List MachineNode) (m m' : Machine World Controller)
      → sync_nodes api nodes strict m ≡ synced m'
      → IsSynced strict nodes m m'
  unfolding sync_nodes
  sync_nodes-IsSynced strict nodes m m' ended = subst (OnSuccess (IsSynced strict nodes m)) ended (
      then_success api (IsGrown strict nodes m) (IsSynced strict nodes m)
        (start_nodes api strict nodes [] m) (λ m1. remove_absent api nodes m1.controllers m1)
        (start_nodes-IsGrown strict nodes [] m)
        (λ m1 grown.
          on_success api (IsPruned api nodes m1.controllers m1) (IsSynced strict nodes m)
            (remove_absent api nodes m1.controllers m1)
            (λ m2 pruned. IsSynced-of nodes strict m m1 m2 grown pruned)
            (remove_absent-IsPruned api nodes m1.controllers m1)))

  entry :
      (strict next : Bool) (o o' : Option Controller)
      → (next ≡ false → o' ≡ none)
      → (next ≡ true
          → ((c : Controller) → o ≡ some c → o' ≡ some c)
            × (strict ≡ true → (c : Controller) × (o' ≡ some c)))
      → IsEntry strict next o o'
  entry strict false o o' none_then h =
      subst (IsEntry strict false o) (sym (none_then refl)) entry_gone
  entry strict true (some c) o' h next_then =
      subst (IsEntry strict true (some c)) (sym ((next_then refl).0 c refl)) (entry_kept c)
  entry true true none o' h next_then =
      let (c, there) = (next_then refl).1 refl in
      subst (IsEntry true true none) (sym there) (entry_new c)
  entry false true none none h next_then = entry_refused refl
  entry false true none (some c) h next_then = entry_new c

  -- After a sync that ends well an id that is none of the panel's nodes has no controller, and a node
  -- that had a controller has this one; a node that had none has one, or, only if the sync is not
  -- strict, none.
  pub sync_nodes-IsEntry :
      (strict : Bool) (nodes : List MachineNode) (m m' : Machine World Controller) (id : ℤ)
      → sync_nodes api nodes strict m ≡ synced m'
      → IsEntry strict (is_next id nodes) (get m.controllers id) (get m'.controllers id)
  sync_nodes-IsEntry strict nodes m m' id ended =
      let h = sync_nodes-IsSynced strict nodes m m' ended id in
      entry strict (is_next id nodes) (get m.controllers id) (get m'.controllers id) h.0 h.1
