-- ===== src/Counter/Storages.antt =====
-- Reads of the storages after each write, and the well-formed counters.
use v2b_x_patched_by_haman.Prelude.{
  ℕ, ◌<◌, String, ◌≡◌, ◌≢◌, sym, ap, subst, ◌∙◌, Option-cases, none, some, inl, inr, [], ◌∷◌, ◌++◌,
  length, get_elem?, set, arith, string_eq, get_elem?-set_self, get_elem?-set_ne, get_elem?_of_lt,
  length-set, length-snoc,
}
use v2b_x_patched_by_haman.Dict.{Dict, get, put, remove}
use v2b_x_patched_by_haman.Dict.Laws.{get-put, get-remove}
use v2b_x_patched_by_haman.Dict.Entries.{IsUnique, put-IsUnique, remove-IsUnique}
use v2b_x_patched_by_haman.Counter.{
  TrafficStorage, TrafficCounter, zero_storage, storage_at, modify, get_counter, delete,
}

pub get_of_remove :
    (m : Dict String ℕ) (uuid k : String) {p : ℕ}
    → get (remove m uuid) k ≡ some p
    → get m k ≡ some p
get_of_remove m uuid k h = ground (arith, get-remove m uuid k)

-- The pointer is not dangling.
abbrev pub IsStored : TrafficCounter → ℕ → Type 0
IsStored c p = p < length c.storages

pub storage_at-some :
    (c : TrafficCounter) (p : ℕ) (s : TrafficStorage)
    → get_elem? c.storages p ≡ some s
    → storage_at c p ≡ s
unfolding storage_at
storage_at-some c p s e = rw (e, storage_at)

storage_at_eq :
    (b c : TrafficCounter) (p : ℕ)
    → get_elem? b.storages p ≡ get_elem? c.storages p
    → storage_at b p ≡ storage_at c p
unfolding storage_at
storage_at_eq b c p e = rw (e, storage_at)

module _ (p : ℕ) (f : TrafficStorage → TrafficStorage) (c : TrafficCounter) where
  modify-some :
      (s : TrafficStorage)
      → get_elem? c.storages p ≡ some s
      → modify p f c ≡ record c { storages = set c.storages p (f s) }
  unfolding modify
  modify-some s e = rw (e, modify)

  modify-none : get_elem? c.storages p ≡ none → modify p f c ≡ c
  unfolding modify
  modify-none e = rw (e, modify)

  pub storage_at-modify : IsStored c p → storage_at (modify p f c) p ≡ f (storage_at c p)
  storage_at-modify h =
      let (s, e) = get_elem?_of_lt c.storages p h in
      ap (λ d. storage_at d p) (modify-some s e)
      ∙ storage_at-some _ p (f s) (get_elem?-set_self c.storages p (f s) e)
      ∙ ap f (sym (storage_at-some c p s e))

  pub storage_at-modify_other : (q : ℕ) → p ≢ q → storage_at (modify p f c) q ≡ storage_at c q
  storage_at-modify_other q h = elim (Option-cases (get_elem? c.storages p)) [
    | inl e ↦ ap (λ d. storage_at d q) (modify-none e)
    | inr (s, e) ↦
        ap (λ d. storage_at d q) (modify-some s e)
        ∙ storage_at_eq _ c q (get_elem?-set_ne c.storages p q (f s) h)
  ]

  pub stored-modify : length (modify p f c).storages ≡ length c.storages
  stored-modify = elim (Option-cases (get_elem? c.storages p)) [
    | inl e ↦ ap (λ d. length d.storages) (modify-none e)
    | inr (s, e) ↦ ap (λ d. length d.storages) (modify-some s e) ∙ length-set c.storages p (f s)
  ]

  pub counters-modify : (modify p f c).counters ≡ c.counters
  counters-modify = elim (Option-cases (get_elem? c.storages p)) [
    | inl e ↦ ap (λ d. d.counters) (modify-none e)
    | inr (s, e) ↦ ap (λ d. d.counters) (modify-some s e)
  ]

-- Each user has a storage of its own.
pub record IsWf (c : TrafficCounter) : Type 0 where
  pub unique : IsUnique c.counters
  pub stored : (k : String) (p : ℕ) → get c.counters k ≡ some p → IsStored c p
  pub own : (j k : String) (p : ℕ) → get c.counters j ≡ some p → get c.counters k ≡ some p → j ≡ k

pub modify-IsWf :
    (p : ℕ) (f : TrafficStorage → TrafficStorage) (c : TrafficCounter)
    → IsWf c
    → IsWf (modify p f c)
modify-IsWf p f c wf = record {
  unique = subst IsUnique (sym (counters-modify p f c)) wf.unique;
  stored = λ k q e.
      subst (λ n. q < n) (sym (stored-modify p f c))
        (wf.stored k q (sym (ap (λ m. get m k) (counters-modify p f c)) ∙ e));
  own =
      subst (λ m. (j k : String) (q : ℕ) → get m j ≡ some q → get m k ≡ some q → j ≡ k)
        (sym (counters-modify p f c)) wf.own;
}

pub delete-IsWf : (uuid : String) (c : TrafficCounter) → IsWf c → IsWf (delete uuid c)
unfolding delete
delete-IsWf uuid c wf = record {
  unique = remove-IsUnique c.counters uuid wf.unique;
  stored = λ k p e. wf.stored k p (get_of_remove c.counters uuid k e);
  own = λ j k p d e.
      wf.own j k p (get_of_remove c.counters uuid j d) (get_of_remove c.counters uuid k e);
}

module _ (uuid : String) (c : TrafficCounter) where
  -- What `get_counter` returns for a user that has a storage, and for a new one.
  pub get_counter-known : (p : ℕ) → get c.counters uuid ≡ some p → get_counter uuid c ≡ (c, p)
  unfolding get_counter
  get_counter-known p e = rw (e, get_counter)

  pub get_counter-new :
      get c.counters uuid ≡ none
      → get_counter uuid c ≡ (
        record c {
          counters = put c.counters uuid (length c.storages);
          storages = c.storages ++ zero_storage ∷ [];
        },
        length c.storages,
      )
  unfolding get_counter
  get_counter-new e = rw (e, get_counter)

  module _ (wf : IsWf c) (is_new : get c.counters uuid ≡ none) where
    abbrev m' : Dict String ℕ
    m' = put c.counters uuid (length c.storages)

    new_stored :
        (k : String) (p : ℕ) → get m' k ≡ some p → p < length (c.storages ++ zero_storage ∷ [])
    new_stored k p h = ground (
      arith,
      get-put c.counters uuid k (length c.storages),
      length-snoc c.storages zero_storage,
      wf.stored k p,
    )

    new_own : (j k : String) (p : ℕ) → get m' j ≡ some p → get m' k ≡ some p → j ≡ k
    new_own j k p g h = ground (
      arith,
      get-put c.counters uuid j (length c.storages),
      get-put c.counters uuid k (length c.storages),
      wf.own j k p,
      wf.stored j p,
      wf.stored k p,
      string_eq.is_key_iff uuid j,
      string_eq.is_key_iff uuid k,
    )

  pub get_counter-IsWf : IsWf c → IsWf (get_counter uuid c).0
  get_counter-IsWf wf = elim (Option-cases (get c.counters uuid)) [
    | inr (p, e) ↦ rw (get_counter-known p e) wf
    | inl e ↦ rw (get_counter-new e) (record {
      unique = put-IsUnique c.counters uuid (length c.storages) wf.unique;
      stored = new_stored wf e;
      own = new_own wf e;
    })
  ]
