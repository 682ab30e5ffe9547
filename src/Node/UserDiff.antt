-- ===== src/Node/UserDiff.antt =====
-- node/user.go: `compareUserList`, the difference of two lists of users.
pub mod Indices
pub mod Matching
pub mod Counted
pub mod Diff
pub mod Sync
use Prim.Native.String.{◌++◌}
use v2b_x_patched_by_haman.Prelude.{
  ℕ, zero, suc, String, Bool, Option, none, some, List, [], ◌∷◌, ◌++◌ as append, get_elem?, any,
  ◌==◌, string_eq,
}
use v2b_x_patched_by_haman.Dict.{Dict, get, put, remove}
use v2b_x_patched_by_haman.Itoa.{itoa}
use v2b_x_patched_by_haman.Panel.{UserInfo}

unfoldable pub key_of : UserInfo → String
key_of u = u.uuid ++ itoa u.speed_limit

-- `oldMap`: the index of the last user with each key; `i` is the index of the first user left.
unfoldable pub index_keys : ℕ → List UserInfo → Dict String ℕ → Dict String ℕ
index_keys i [] m = m
index_keys i (u ∷ us) m = index_keys (suc i) us (put m (key_of u) i)

-- The loop over the new list: what is left of `oldMap`, and the added users.
unfoldable pub match_new :
    List UserInfo → Dict String ℕ → List UserInfo → Dict String ℕ × List UserInfo
match_new [] m added = (m, added)
match_new (u ∷ us) m added = elim (get m (key_of u)) [
  | none ↦ match_new us m (append added (u ∷ []))
  | some _ ↦ match_new us (remove m (key_of u)) added
]

-- The users at the indices that are left; `none` is a panic on an index out of range.
unfoldable pub users_at : List UserInfo → Dict String ℕ → Option (List UserInfo)
users_at old [] = some []
users_at old ((key, i) ∷ m) = elim (get_elem? old i) [
  | none ↦ none
  | some u ↦ elim (users_at old m) [ none ↦ none | some us ↦ some (u ∷ us) ]
]

-- The deleted users and the added ones.
unfoldable pub compare_user_list :
    List UserInfo → List UserInfo → Option (List UserInfo × List UserInfo)
compare_user_list old new =
    let (left, added) = match_new new (index_keys 0 old []) [] in
    elim (users_at old left) [ none ↦ none | some deleted ↦ some (deleted, added) ]

-- Some user of the list has the key.
abbrev pub has_key : String → List UserInfo → Bool
has_key key us = any (λ u. key_of u == key) us
