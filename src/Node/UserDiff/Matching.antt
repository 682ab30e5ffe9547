-- ===== src/Node/UserDiff/Matching.antt =====
-- The loop of `compareUserList` over the new users.
use v2b_x_patched_by_haman.Prelude.{
  ℕ, String, ◌≡◌, ◌⊎◌, In-append, In-append_left, In-append_right, refl, sym, ◌∙◌, ap, inl, inr,
  true, false, none, some, List, [], ◌∷◌, ◌++◌, string_eq, In, here, there, In-cons, arith,
  Option-cases, if◌then◌else◌, eq_iff,
}
use v2b_x_patched_by_haman.Dict.{Dict, get, remove}
use v2b_x_patched_by_haman.Dict.Laws.{
  get-remove, get-remove_same, get-remove_other, get_same, beq_refl,
}
use v2b_x_patched_by_haman.Dict.Entries.{IsUnique, remove-IsUnique}
use v2b_x_patched_by_haman.Panel.{UserInfo}
use v2b_x_patched_by_haman.Node.UserDiff.{key_of, match_new, has_key}

module _ (u : UserInfo) (us : List UserInfo) (m : Dict String ℕ) (added : List UserInfo) where
  pub match_new_miss :
      get m (key_of u) ≡ none → match_new (u ∷ us) m added ≡ match_new us m (added ++ u ∷ [])
  unfolding match_new
  match_new_miss e = rw (e, match_new)

  pub match_new_hit :
      {i : ℕ}
      → get m (key_of u) ≡ some i
      → match_new (u ∷ us) m added ≡ match_new us (remove m (key_of u)) added
  unfolding match_new
  match_new_hit e = rw (e, match_new)

pub match_new_end : (m : Dict String ℕ) (added : List UserInfo) → match_new [] m added ≡ (m, added)
unfolding match_new
match_new_end m added = refl

pub match_new-IsUnique :
    (us : List UserInfo) (m : Dict String ℕ) (added : List UserInfo)
    → IsUnique m
    → IsUnique (match_new us m added).0
match_new-IsUnique [] m added h = rw (match_new_end m added) h
match_new-IsUnique (u ∷ us) m added h = elim (Option-cases (get m (key_of u))) [
  | inl miss ↦ rw (match_new_miss u us m added miss) (match_new-IsUnique us m (added ++ u ∷ []) h)
  | inr (i, hit) ↦
      rw (match_new_hit u us m added hit)
        (match_new-IsUnique us (remove m (key_of u)) added (remove-IsUnique m (key_of u) h))
]

-- The keys of the new list are gone from the map, and only they.
pub match_new-left :
    (us : List UserInfo) (m : Dict String ℕ) (added : List UserInfo) (key : String)
    → get (match_new us m added).0 key ≡ (if has_key key us then none else get m key)
match_new-left [] m added key = rw (match_new_end m added)
match_new-left (u ∷ us) m added key = elim (Option-cases (get m (key_of u))) [
  | inl miss ↦
      rw (match_new_miss u us m added miss)
        (match_new-left us m (added ++ u ∷ []) key ∙ ground (arith, get_same m (key_of u) key))
  | inr (i, hit) ↦ rw (match_new_hit u us m added hit) (
      match_new-left us (remove m (key_of u)) added key
      ∙ ground (arith, get-remove_same m (key_of u) key, get-remove_other m (key_of u) key))
]

-- A user is added only if it is new.
pub match_new_sound :
    (us : List UserInfo) (m : Dict String ℕ) (added : List UserInfo) (v : UserInfo)
    → In v (match_new us m added).1
    → In v added ⊎ In v us
match_new_sound [] m added v i = inl (rw (match_new_end m added) at i)
match_new_sound (u ∷ us) m added v i = elim (Option-cases (get m (key_of u))) [
  | inl miss ↦
      elim (match_new_sound us m (added ++ u ∷ []) v (rw (match_new_miss u us m added miss) at i)) [
        | inl old ↦ elim (In-append added old) [
          | inl old ↦ inl old
          | inr new ↦ elim (In-cons new) [
            | inl e ↦ inr (here e)
            | inr none_left ↦ elim none_left [ ]
          ]
        ]
        | inr later ↦ inr (there later)
      ]
  | inr (j, hit) ↦
      elim (match_new_sound us (remove m (key_of u)) added v
        (rw (match_new_hit u us m added hit) at i)) [
          | inl old ↦ inl old
          | inr later ↦ inr (there later)
        ]
]

module _ (u : UserInfo) (us : List UserInfo) (m : Dict String ℕ) (added : List UserInfo)
    (v : UserInfo) where
  after_miss :
      In v added ⊎ (In v (u ∷ us) × (get m (key_of v) ≡ none))
      → In v (added ++ u ∷ []) ⊎ (In v us × (get m (key_of v) ≡ none))
  after_miss (inl i) = inl (In-append_left (u ∷ []) i)
  after_miss (inr (here e, miss)) = inl (In-append_right added (here e))
  after_miss (inr (there i, miss)) = inr (i, miss)

  after_hit :
      {j : ℕ}
      → get m (key_of u) ≡ some j
      → In v added ⊎ (In v (u ∷ us) × (get m (key_of v) ≡ none))
      → In v added ⊎ (In v us × (get (remove m (key_of u)) (key_of v) ≡ none))
  after_hit hit (inl i) = inl i
  after_hit hit (inr (here e, miss)) = absurd (cc (ap key_of e))
  after_hit hit (inr (there i, miss)) = inr (i, get-remove m (key_of u) (key_of v) ∙ ground arith)

-- It is added if the map has no entry for its key.
pub match_new_complete :
    (us : List UserInfo) (m : Dict String ℕ) (added : List UserInfo) (v : UserInfo)
    → In v added ⊎ (In v us × (get m (key_of v) ≡ none))
    → In v (match_new us m added).1
match_new_complete [] m added v (inl i) = rw (match_new_end m added) i
match_new_complete [] m added v (inr (i, _)) = elim i [ ]
match_new_complete (u ∷ us) m added v h = elim (Option-cases (get m (key_of u))) [
  | inl miss ↦
      rw (match_new_miss u us m added miss)
        (match_new_complete us m (added ++ u ∷ []) v (after_miss u us m added v h))
  | inr (j, hit) ↦
      rw (match_new_hit u us m added hit)
        (match_new_complete us (remove m (key_of u)) added v (after_hit u us m added v hit h))
]

pub has_key_of_In : (us : List UserInfo) (v : UserInfo) → In v us → has_key (key_of v) us ≡ true
has_key_of_In [] v i = elim i [ ]
has_key_of_In (u ∷ us) v (here e) = rw (← ap key_of e, beq_refl (key_of v))
has_key_of_In (u ∷ us) v (there i) = ground (arith, has_key_of_In us v i)

-- No two users of the list have one key.
abbrev pub HasDistinctKeys : List UserInfo → Type 0
HasDistinctKeys [] = Unit
HasDistinctKeys (u ∷ us) = (has_key (key_of u) us ≡ false) × HasDistinctKeys us

fresh_after_miss :
    (u : UserInfo) (m : Dict String ℕ) (added : List UserInfo) (v : UserInfo)
    → get m (key_of u) ≡ none
    → In v (added ++ u ∷ []) ⊎ (get m (key_of v) ≡ none)
    → In v added ⊎ (get m (key_of v) ≡ none)
fresh_after_miss u m added v miss (inr gone) = inr gone
fresh_after_miss u m added v miss (inl i) = elim (In-append added i) [
  | inl old ↦ inl old
  | inr new ↦ elim (In-cons new) [ inl same ↦ inr (rw same miss) | inr nothing ↦ elim nothing [ ] ]
]

pub match_new-fresh :
    (us : List UserInfo) (m : Dict String ℕ) (added : List UserInfo) (v : UserInfo)
    → HasDistinctKeys us
    → In v (match_new us m added).1
    → In v added ⊎ (get m (key_of v) ≡ none)
match_new-fresh [] m added v d i = inl (rw (match_new_end m added) at i)
match_new-fresh (u ∷ us) m added v d i = elim (Option-cases (get m (key_of u))) [
  | inl miss ↦
      fresh_after_miss u m added v miss
        (match_new-fresh us m (added ++ u ∷ []) v d.1 (rw (match_new_miss u us m added miss) at i))
  | inr (j, hit) ↦
      let i' = rw (match_new_hit u us m added hit) at i in
      elim (match_new_sound us (remove m (key_of u)) added v i') [
        | inl old ↦ inl old
        | inr later ↦ elim (match_new-fresh us (remove m (key_of u)) added v d.1 i') [
          | inl old ↦ inl old
          | inr gone ↦ inr (
              sym (
                get-remove_other m (key_of u) (key_of v)
                  (ground (arith, has_key_of_In us v later, d.0, eq_iff (key_of u) (key_of v))))
              ∙ gone)
        ]
      ]
]
