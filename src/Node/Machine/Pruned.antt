-- ===== src/Node/Machine/Pruned.antt =====
-- node/machine.go: the controllers before and after those of absent nodes are closed.
use v2b_x_patched_by_haman.Prelude.{
  ℤ, ◌≡◌, ◌≢◌, refl, ap, ◌∙◌, Bool, true, false, Bool-cases, none, inl, inr, List, [], ◌∷◌, ◌==◌,
  int_eq, Result, ok, err, arith, if◌then◌else◌,
}
use v2b_x_patched_by_haman.Dict.{Dict, get, remove}
use v2b_x_patched_by_haman.Dict.Laws.{get-remove}
use v2b_x_patched_by_haman.Panel.Types.{MachineNode}
use v2b_x_patched_by_haman.Node.Machine.{
  NodeApi, Machine, synced, is_next, drop_closed, remove_absent,
}
use v2b_x_patched_by_haman.Node.Machine.Rollback.{OnSuccess, then_success, on_success}

module _ {World Controller Error : Type 0} (api : NodeApi World Controller Error) where
  -- The controllers of the list whose ids are no node's are gone, the others are as they were.
  abbrev pub IsPruned :
      List MachineNode
      → Dict ℤ Controller
      → Machine World Controller
      → Machine World Controller
      → Type 0
  IsPruned nodes cs m m' =
      (id : ℤ)
      → (is_next id nodes ≡ true → get m'.controllers id ≡ get m.controllers id)
        × (is_next id nodes ≡ false
            → (get m.controllers id ≡ none → get m'.controllers id ≡ none)
              × (get cs id ≢ none → get m'.controllers id ≡ none))

  -- The controllers without one whose id is no node's.
  abbrev IsCut : List MachineNode → ℤ → Machine World Controller → Machine World Controller → Type 0
  IsCut nodes i m m' =
      m'.controllers ≡ (if is_next i nodes then m.controllers else remove m.controllers i)

  drop_closed-removes :
      (i : ℤ) (m : Machine World Controller) (r : World × Result {0, 0} Error Unit)
      → OnSuccess (λ m'. m'.controllers ≡ remove m.controllers i) (drop_closed api i m r)
  drop_closed-removes i m (w, ok u) = refl
  drop_closed-removes i m (w, err e) = tt

  cut_by :
      (b : Bool) (i : ℤ) (m : Machine World Controller) (r : World × Result {0, 0} Error Unit)
      → OnSuccess
          (λ m'. m'.controllers ≡ (if b then m.controllers else remove m.controllers i))
          (if b then synced m else drop_closed api i m r)
  cut_by true i m r = refl
  cut_by false i m r = drop_closed-removes i m r

  module _ (nodes : List MachineNode) (i : ℤ) (c : Controller) (cs : Dict ℤ Controller)
      (m m' m'' : Machine World Controller) (cuts : IsCut nodes i m m') where
    -- What a read of an id sees of the cut.
    cut-get :
        (id : ℤ)
        → get m'.controllers id ≡ (
            if is_next i nodes
            then get m.controllers id
            else (if i == id then none else get m.controllers id))
    cut-get id = elim (Bool-cases (is_next i nodes)) [
      | inl next ↦ ap (λ d. get d id) cuts ∙ rw next
      | inr absent ↦ ap (λ d. get d id) cuts ∙ rw absent (get-remove m.controllers i id)
    ]

    IsPruned-cons : IsPruned nodes cs m' m'' → IsPruned nodes ((i, c) ∷ cs) m m''
    unfolding get
    IsPruned-cons pruned id = elim (Bool-cases (i == id)) [
      | inr apart ↦
          let same : get m'.controllers id ≡ get m.controllers id =
            ground (arith, cut-get id, apart) in
          (
            λ next. (pruned id).0 next ∙ same,
            λ absent. (
              λ missing. ((pruned id).1 absent).0 (same ∙ missing),
              λ there. ((pruned id).1 absent).1 (λ e. there (rw apart e)),
            ),
          )
      | inl one ↦
          let named : is_next i nodes ≡ is_next id nodes =
            ap (λ j. is_next j nodes) ((int_eq.is_key_iff i id).0 one) in
          (
            λ next. (pruned id).0 next ∙ ground (arith, cut-get id, named, next),
            λ absent.
                let gone : get m'.controllers id ≡ none =
                  ground (arith, cut-get id, named, absent, one) in
                (λ missing. ((pruned id).1 absent).0 gone, λ there. ((pruned id).1 absent).0 gone),
          )
    ]

  pub remove_absent-IsPruned :
      (nodes : List MachineNode) (cs : Dict ℤ Controller) (m : Machine World Controller)
      → OnSuccess (IsPruned nodes cs m) (remove_absent api nodes cs m)
  unfolding remove_absent get
  remove_absent-IsPruned nodes [] m =
      λ id. (λ next. refl, λ absent. (λ missing. missing, λ there. absurd (there refl)))
  remove_absent-IsPruned nodes ((i, c) ∷ cs) m =
      then_success api (IsCut nodes i m) (IsPruned nodes ((i, c) ∷ cs) m) _
        (λ m'. remove_absent api nodes cs m')
        (cut_by (is_next i nodes) i m (api.close_controller c m.world))
        (λ m' cuts.
          on_success api (IsPruned nodes cs m') (IsPruned nodes ((i, c) ∷ cs) m)
            (remove_absent api nodes cs m')
            (λ m'' pruned. IsPruned-cons nodes i c cs m m' m'' cuts pruned)
            (remove_absent-IsPruned nodes cs m'))
