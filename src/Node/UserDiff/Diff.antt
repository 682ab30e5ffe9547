-- ===== src/Node/UserDiff/Diff.antt =====
-- The result of `compareUserList` against what a difference of two lists is.
use v2b_x_patched_by_haman.Prelude.{
  ℕ, zero, suc, String, ◌≡◌, some_inj, some_unique, ◌⊎◌, sym, ◌∙◌, ap, inl, inr, false, none, some,
  List, [], ◌∷◌, get_elem?, string_eq, In, here, there, arith, Option-cases, if◌then◌else◌, ◌+◌,
  ◌&&◌,
}
use v2b_x_patched_by_haman.Dict.{Dict, get}
use v2b_x_patched_by_haman.Dict.Laws.{get-nil, beq_refl}
use v2b_x_patched_by_haman.Dict.Entries.{IsUnique, get_of_In, In-of_get}
use v2b_x_patched_by_haman.Panel.{UserInfo}
use v2b_x_patched_by_haman.Node.UserDiff.{key_of, index_keys, match_new, compare_user_list, has_key}
use v2b_x_patched_by_haman.Node.UserDiff.Indices.{
  index_keys-get, index_keys-IsUnique, last_index-found, last_index_missing, Names, Collects,
  users_at_lem, index_keys-Names,
}
use v2b_x_patched_by_haman.Node.UserDiff.Counted.{
  one_if, count_key, count_key-match_new, is_indexed-index_keys,
}
use v2b_x_patched_by_haman.Node.UserDiff.Matching.{
  match_new-IsUnique, match_new-left, match_new_sound, match_new_complete,
}

-- The deleted users are old ones, at least one for each key that the new list lacks. The added users are new
-- ones, among them each whose key the old list lacks, and of a key that both lists have one user
-- fewer is added than the new list has, so none where the new list has it once.
pub record IsDiff (old new deleted added : List UserInfo) : Type 0 where
  pub deleted_old : (u : UserInfo) → In u deleted → In u old × (has_key (key_of u) new ≡ false)
  pub deleted_all :
      (u : UserInfo)
      → In u old
      → has_key (key_of u) new ≡ false
      → (v : UserInfo) × In v deleted × (key_of v ≡ key_of u)
  pub added_new : (u : UserInfo) → In u added → In u new
  pub added_all : (u : UserInfo) → In u new → has_key (key_of u) old ≡ false → In u added
  pub added_count :
      (key : String)
      → count_key key added + one_if (has_key key new && has_key key old) ≡ count_key key new

only_new : {u : UserInfo} {us : List UserInfo} → In u [] ⊎ In u us → In u us
only_new (inl nothing) = elim nothing [ ]
only_new (inr listed) = listed

get_elem?-In : (us : List UserInfo) (i : ℕ) (u : UserInfo) → get_elem? us i ≡ some u → In u us
get_elem?-In [] i u h = absurd (cc)
get_elem?-In (v ∷ us) zero u h = here (sym (some_inj h))
get_elem?-In (v ∷ us) (suc i) u h = there (get_elem?-In us i u h)

module _ (old new : List UserInfo) where
  abbrev keys : Dict String ℕ
  keys = index_keys 0 old []

  abbrev left : Dict String ℕ
  left = (match_new new keys []).0

  left-IsUnique : IsUnique left
  left-IsUnique = match_new-IsUnique new keys [] (index_keys-IsUnique 0 old [] tt)

  -- The entries that are left have keys that no new user has.
  left-get :
      (key : String) (i : ℕ)
      → In (key, i) left
      → (has_key key new ≡ false) × (get keys key ≡ some i)
  left-get key i listed =
      let found : (if has_key key new then none else get keys key) ≡ some i =
        sym (match_new-left new keys [] key) ∙ get_of_In left key i left-IsUnique listed in
      ground arith

  left-Names : Names old left
  left-Names key i listed =
      index_keys-Names old key i (In-of_get keys key i (left-get key i listed).1)

  -- A user of the old list has an entry there, unless the new list has its key.
  left_of_In :
      (u : UserInfo) → In u old → has_key (key_of u) new ≡ false → (i : ℕ) × In (key_of u, i) left
  left_of_In u listed missing = elim (Option-cases (get keys (key_of u))) [
    | inl nothing ↦ absurd (
        last_index-found (key_of u) 0 old (get [] (key_of u)) u listed (beq_refl (key_of u))
          (sym (index_keys-get 0 old [] (key_of u)) ∙ nothing))
    | inr (i, found) ↦ (
      i,
      In-of_get left (key_of u) i (match_new-left new keys [] (key_of u) ∙ rw (missing, found)),
    )
  ]

  Collects-old :
      (us : List UserInfo)
      → Collects old left us
      → (u : UserInfo) → In u us
      → In u old × (has_key (key_of u) new ≡ false)
  Collects-old us c u listed =
      let (key, i, inside, at) = c.named u listed in
      let (v, at', same) = left-Names key i inside in
      (get_elem?-In old i u at, rw (ap key_of (some_unique at at'), same) (left-get key i inside).0)

  Collects-all :
      (us : List UserInfo)
      → Collects old left us
      → (u : UserInfo) → In u old
      → has_key (key_of u) new ≡ false
      → (v : UserInfo) × In v us × (key_of v ≡ key_of u)
  Collects-all us c u listed missing =
      let (i, inside) = left_of_In u listed missing in
      let (v, listed', at) = c.covered (key_of u) i inside in
      let (w, at', same) = left-Names (key_of u) i inside in
      (v, listed', ap key_of (some_unique at at') ∙ same)

  keys-missing : (u : UserInfo) → has_key (key_of u) old ≡ false → get keys (key_of u) ≡ none
  keys-missing u missing =
      index_keys-get 0 old [] (key_of u)
      ∙ last_index_missing (key_of u) 0 old (get [] (key_of u)) missing
      ∙ get-nil {K = String} {V = ℕ} (key_of u)

  added_counted :
      (key : String)
      → count_key key (match_new new keys []).1 + one_if (has_key key new && has_key key old)
        ≡ count_key key new
  added_counted key =
      ap (λ b. count_key key (match_new new keys []).1 + one_if (has_key key new && b))
        (sym (is_indexed-index_keys key old))
      ∙ count_key-match_new key new keys []
      ∙ omega arith

  -- `compareUserList` returns, without an index out of range, a difference of the two lists by their
  -- keys: the deleted users are old ones whose key the new list lacks, at least one for each such key;
  -- the added users are new ones, all of those whose key the old list lacks, and for each key that
  -- both lists have exactly one user fewer than the new list has with it.
  pub compare_user_list-IsDiff :
      (deleted : List UserInfo) × (added : List UserInfo) × (compare_user_list old new
        ≡ some (deleted, added))
      × IsDiff old new deleted added
  unfolding compare_user_list
  compare_user_list-IsDiff =
      let (deleted, e, c) = users_at_lem old left left-Names in
      (
        deleted,
        (match_new new keys []).1,
        rw (e, compare_user_list),
        record {
          deleted_old = Collects-old deleted c;
          deleted_all = Collects-all deleted c;
          added_new = λ u listed. only_new (match_new_sound new keys [] u listed);
          added_all = λ u listed missing.
              match_new_complete new keys [] u (inr (listed, keys-missing u missing));
          added_count = added_counted;
        },
      )
