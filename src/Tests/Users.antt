-- ===== src/Tests/Users.antt =====
-- node/user.go on two lists: a user leaves, one comes, one gets another limit, one stays.
use Prim.Native.String.{count}
use mathlib.Core.Path.{subst}
use v2b_x_patched_by_haman.Prelude.{
  ℤ, pos, negsuc, String, ◌≡◌, some_unique, refl, sym, ◌∙◌, some, List, [], ◌∷◌, All, In, here,
  there, ap, arith, string_eq,
}
use v2b_x_patched_by_haman.Dict.{get, put, remove}
use v2b_x_patched_by_haman.Panel.{UserInfo}
use v2b_x_patched_by_haman.Itoa.{itoa}
use v2b_x_patched_by_haman.Limiter.State.{Limiter, add_limiter, update_user}
use v2b_x_patched_by_haman.Node.UserDiff.{
  key_of, index_keys, match_new, users_at, compare_user_list,
}
use v2b_x_patched_by_haman.Node.UserDiff.Diff.{IsDiff, compare_user_list-IsDiff}
use v2b_x_patched_by_haman.Node.UserDiff.Sync.{
  Knows, HaveLength, HaveOwnUuids, add_limiter-Knows, update_user-Knows,
}

abbrev user : ℤ → String → ℤ → UserInfo
user id uuid limit = record { id = id; uuid = uuid; speed_limit = limit; device_limit = pos 2 }

abbrev old_list : List UserInfo
old_list =
    user (pos 1) "aaa" (pos 10) ∷ user (pos 2) "bbb" (pos 0) ∷ user (pos 3) "ccc" (pos 5) ∷ []

abbrev new_list : List UserInfo
new_list =
    user (pos 3) "ccc" (pos 5) ∷ user (pos 2) "bbb" (pos 20) ∷ user (pos 4) "ddd" (pos 0) ∷ []

abbrev gone : List UserInfo
gone = user (pos 1) "aaa" (pos 10) ∷ user (pos 2) "bbb" (pos 0) ∷ []

abbrev come : List UserInfo
come = user (pos 2) "bbb" (pos 20) ∷ user (pos 4) "ddd" (pos 0) ∷ []

itoa_runs : (itoa (pos 0) ≡ "0") × (itoa (pos 10) ≡ "10") × (itoa (negsuc 306) ≡ "-307")
unfolding itoa
itoa_runs = (refl, refl, refl)

differ : compare_user_list old_list new_list ≡ some (gone, come)
unfolding compare_user_list index_keys match_new users_at key_of itoa get put remove
differ = refl

abbrev ThreeChars : List UserInfo → Type 0
ThreeChars us = All (λ (u : UserInfo). count u.uuid ≡ 3) us

HaveLength-three : (us : List UserInfo) → ThreeChars us → HaveLength 3 us
HaveLength-three [] h u i = elim i [ ]
HaveLength-three (v ∷ us) h u (here e) = subst (λ (w : UserInfo). count w.uuid ≡ 3) (sym e) h.0
HaveLength-three (v ∷ us) h u (there i) = HaveLength-three us h.1 u i

-- A user of the old list is known by its uuid.
abbrev by_uuid : List (String × UserInfo)
by_uuid =
    ("aaa", user (pos 1) "aaa" (pos 10))
    ∷ ("bbb", user (pos 2) "bbb" (pos 0))
    ∷ ("ccc", user (pos 3) "ccc" (pos 5))
    ∷ []

abbrev IsKnown : UserInfo → Type 0
IsKnown u = get by_uuid u.uuid ≡ some u

old_user : (u : UserInfo) → In u old_list → IsKnown u
unfolding get
old_user u (here e) = subst IsKnown (sym e) refl
old_user u (there (here e)) = subst IsKnown (sym e) refl
old_user u (there (there (here e))) = subst IsKnown (sym e) refl
old_user u (there (there (there i))) = elim i [ ]

HaveOwnUuids-old : HaveOwnUuids old_list
HaveOwnUuids-old u v i j e = some_unique (old_user u i) (ap (get by_uuid) e ∙ old_user v j)

compare_user_list-IsDiff_example :
    (deleted : List UserInfo) × (added : List UserInfo) × (compare_user_list old_list new_list
      ≡ some (deleted, added))
    × IsDiff old_list new_list deleted added
compare_user_list-IsDiff_example = compare_user_list-IsDiff old_list new_list

-- A node that had the old users.
abbrev old_node : Limiter String ℤ
old_node = add_limiter "n" (pos 0) old_list []

old_node-Knows : Knows "n" old_node old_list
old_node-Knows = add_limiter-Knows String ℤ "n" (pos 0) old_list []

update_user-Knows_example : Knows "n" (update_user "n" come gone old_node) new_list
update_user-Knows_example =
    update_user-Knows "n" old_node old_list new_list gone come 3
      (HaveLength-three old_list (omega arith)) (HaveLength-three new_list (omega arith))
      HaveOwnUuids-old differ old_node-Knows
