-- ===== src/Node/UserDiff/Counted.antt =====
-- How many users of each key the loop of `compareUserList` over the new users adds.
use v2b_x_patched_by_haman.Prelude.{
  ℕ, ◌+◌, String, ◌≡◌, Bool, true, false, ◌&&◌, inl, inr, Option, none, some, List, [], ◌∷◌, ◌++◌,
  ◌==◌, string_eq, arith, Option-cases, if◌then◌else◌, ap, ◌∙◌, refl, suc, ◌||◌,
}
use v2b_x_patched_by_haman.Dict.{Dict, get, remove}
use v2b_x_patched_by_haman.Dict.Laws.{get-nil, get-remove, get_same}
use v2b_x_patched_by_haman.Panel.{UserInfo}
use v2b_x_patched_by_haman.Node.UserDiff.{key_of, index_keys, match_new, has_key}
use v2b_x_patched_by_haman.Node.UserDiff.Indices.{last_index, index_keys-get}
use v2b_x_patched_by_haman.Node.UserDiff.Matching.{match_new_miss, match_new_hit, match_new_end}

abbrev pub one_if : Bool → ℕ
one_if b = if b then 1 else 0

-- How many users of a list have a key.
abbrev pub count_key : String → List UserInfo → ℕ
count_key key [] = 0
count_key key (u ∷ us) = one_if (key_of u == key) + count_key key us

abbrev pub is_indexed : Option ℕ → Bool
is_indexed none = false
is_indexed (some i) = true

count_key-append :
    (key : String) (us : List UserInfo) (u : UserInfo)
    → count_key key (us ++ u ∷ []) ≡ count_key key us + one_if (key_of u == key)
count_key-append key [] u = ground arith
count_key-append key (v ∷ us) u = ground (arith, count_key-append key us u)

-- Of the users of a key that the map has an entry for, all but one are added.
pub count_key-match_new :
    (key : String) (us : List UserInfo) (m : Dict String ℕ) (added : List UserInfo)
    → count_key key (match_new us m added).1 + one_if (has_key key us && is_indexed (get m key))
      ≡ count_key key added + count_key key us
count_key-match_new key [] m added = rw (match_new_end m added) (ground arith)
count_key-match_new key (u ∷ us) m added = elim (Option-cases (get m (key_of u))) [
  | inl miss ↦ rw (match_new_miss u us m added miss) (
      ground (
        arith,
        count_key-match_new key us m (added ++ u ∷ []),
        count_key-append key added u,
        get_same m (key_of u) key,
      ))
  | inr (i, hit) ↦ rw (match_new_hit u us m added hit) (
      ground (
        arith,
        count_key-match_new key us (remove m (key_of u)) added,
        get-remove m (key_of u) key,
        get_same m (key_of u) key,
      ))
]

is_indexed-last_index :
    (key : String) (i : ℕ) (us : List UserInfo) (before : Option ℕ)
    → is_indexed (last_index key i us before) ≡ (has_key key us || is_indexed before)
is_indexed-last_index key i [] before = refl
is_indexed-last_index key i (u ∷ us) before =
    is_indexed-last_index key (suc i) us (if key_of u == key then some i else before) ∙ ground arith

-- The keys of a list are exactly those that have an entry.
pub is_indexed-index_keys :
    (key : String) (us : List UserInfo) → is_indexed (get (index_keys 0 us []) key) ≡ has_key key us
is_indexed-index_keys key us =
    ap is_indexed (index_keys-get 0 us [] key ∙ ap (last_index key 0 us) (get-nil key))
    ∙ is_indexed-last_index key 0 us none
    ∙ ground arith
