-- ===== src/Node/UserDiff/Sync.antt =====
-- A round of the user list brings the limiter from the old list to the new one: `compareUserList`
-- of node/user.go and `UpdateUser` of limiter/limiter.go together.
use Prim.Native.String.{count}
use text.Mathlib.TextLemmas.{append_inj}
use mathlib.Core.Path.{subst}
use v2b_x_patched_by_haman.Prelude.{
  ℕ, ℤ, String, ◌≡◌, some_inj, ◌⊎◌, ◌≢◌, ◌↔◌, refl, sym, ◌∙◌, ap, inl, inr, true, false, Option,
  none, some, List, [], ◌∷◌, any-In, any_of_In, ◌==◌, string_eq, In, arith, Bool-cases, eq_iff,
}
use v2b_x_patched_by_haman.Dict.{Dict, get}
use v2b_x_patched_by_haman.Dict.Laws.{beq_refl}
use v2b_x_patched_by_haman.Format.{user_tag}
use v2b_x_patched_by_haman.Panel.{UserInfo}
use v2b_x_patched_by_haman.Limiter.State.{Limiter, add_limiter, update_user}
use v2b_x_patched_by_haman.Limiter.State.Users.{
  last_user, info_after, is_listed, add_limiter-info, update_user-info,
}
use v2b_x_patched_by_haman.Node.UserDiff.{key_of, compare_user_list, has_key}
use v2b_x_patched_by_haman.Node.UserDiff.Diff.{IsDiff, compare_user_list-IsDiff}
use v2b_x_patched_by_haman.Node.UserDiff.Matching.{has_key_of_In}

-- The limiter knows exactly the users of a list.
abbrev pub Knows : {Regex Bucket : Type 0} → String → Limiter Regex Bucket → List UserInfo → Type 0
Knows tag l us =
    (uuid : String)
    → (get l.user_limit_info (user_tag tag uuid) ≢ none) ↔ (is_listed uuid us ≡ true)

-- All uuids have `n` characters.
abbrev pub HaveLength : ℕ → List UserInfo → Type 0
HaveLength n us = (u : UserInfo) → In u us → count u.uuid ≡ n

-- A uuid stands for one user.
abbrev pub HaveOwnUuids : List UserInfo → Type 0
HaveOwnUuids us = (u v : UserInfo) → In u us → In v us → u.uuid ≡ v.uuid → u ≡ v

is_listed_of_In : (us : List UserInfo) (u : UserInfo) → In u us → is_listed u.uuid us ≡ true
is_listed_of_In us u i = any_of_In (λ v. v.uuid == u.uuid) us u i (beq_refl u.uuid)

In-of_is_listed :
    (us : List UserInfo) (uuid : String)
    → is_listed uuid us ≡ true
    → (u : UserInfo) × In u us × (u.uuid ≡ uuid)
In-of_is_listed us uuid h =
    let (u, i, same) = any-In (λ v. v.uuid == uuid) us h in (u, i, (eq_iff u.uuid uuid).0 same)

In-of_has_key :
    (us : List UserInfo) (key : String)
    → has_key key us ≡ true
    → (u : UserInfo) × In u us × (key_of u ≡ key)
In-of_has_key us key h =
    let (u, i, same) = any-In (λ v. key_of v == key) us h in (u, i, (eq_iff (key_of u) key).0 same)

-- The last user with a uuid is there exactly if some user has it.
last_user-listed :
    (us : List UserInfo) (uuid : String) → is_listed uuid us ≡ true → last_user uuid us ≢ none
last_user-listed [] uuid h = absurd (cc)
last_user-listed (u ∷ us) uuid h = ground (arith, last_user-listed us uuid)

pub last_user-unlisted :
    (us : List UserInfo) (uuid : String) → is_listed uuid us ≡ false → last_user uuid us ≡ none
last_user-unlisted [] uuid h = refl
last_user-unlisted (u ∷ us) uuid h = ground (arith, last_user-unlisted us uuid)

-- Uuids of one length are read off the keys.
uuid_of_key :
    (n : ℕ) (u v : UserInfo)
    → count u.uuid ≡ n
    → count v.uuid ≡ n
    → key_of u ≡ key_of v
    → u.uuid ≡ v.uuid
unfolding key_of
uuid_of_key n u v hu hv e = (append_inj e (hu ∙ sym hv)).0

module _ {old new deleted added : List UserInfo} (d : IsDiff old new deleted added) (n : ℕ)
    (old_length : HaveLength n old) (new_length : HaveLength n new) (own : HaveOwnUuids old)
    (uuid : String) where
  listed_at :
      (us : List UserInfo) (u : UserInfo) → In u us → u.uuid ≡ uuid → is_listed uuid us ≡ true
  listed_at us u i e = rw (← e) (is_listed_of_In us u i)

  not_deleted :
      (w v : UserInfo)
      → In w new
      → In v old
      → key_of v ≡ key_of w
      → v.uuid ≡ uuid
      → is_listed uuid deleted ≡ false
  not_deleted w v i j same e = elim (Bool-cases (is_listed uuid deleted)) [
    | inr missing ↦ missing
    | inl listed ↦
        let (u, k, e') = In-of_is_listed deleted uuid listed in
        let (u_old, u_gone) = d.deleted_old u k in
        let key_same = ap key_of (own u v u_old j (e' ∙ sym e)) ∙ same in
        absurd (cc (has_key_of_In new w i, u_gone, key_same))
  ]

  is_deleted :
      (u : UserInfo)
      → In u old
      → u.uuid ≡ uuid
      → is_listed uuid new ≡ false
      → is_listed uuid deleted ≡ true
  is_deleted u i e h = elim (Bool-cases (has_key (key_of u) new)) [
    | inl kept ↦
        let (w, j, same) = In-of_has_key new (key_of u) kept in
        let uuid_same = uuid_of_key n w u (new_length w j) (old_length u i) same in
        absurd (cc (listed_at new w j (uuid_same ∙ e)))
    | inr gone ↦
        let (v, j, same) = d.deleted_all u i gone in
        let uuid_same =
          uuid_of_key n v u (old_length v (d.deleted_old v j).0) (old_length u i) same in
        listed_at deleted v j (uuid_same ∙ e)
  ]

  -- A uuid of the new list is among the added users, or is an old one that is not deleted.
  listed_new :
      is_listed uuid new ≡ true
      → (is_listed uuid added ≡ true)
        ⊎ ((is_listed uuid old ≡ true) × (is_listed uuid deleted ≡ false))
  listed_new h =
      let (w, i, e) = In-of_is_listed new uuid h in
      elim (Bool-cases (has_key (key_of w) old)) [
        | inr fresh ↦ inl (listed_at added w (d.added_all w i fresh) e)
        | inl kept ↦
            let (v, j, same) = In-of_has_key old (key_of w) kept in
            let uuid_same = uuid_of_key n v w (old_length v j) (new_length w i) same in
            inr (listed_at old v j (uuid_same ∙ e), not_deleted w v i j same (uuid_same ∙ e))
      ]

  -- A uuid that the new list lacks is not among the added users, and is deleted if it is old.
  unlisted_new :
      is_listed uuid new ≡ false
      → (is_listed uuid added ≡ false)
        × ((is_listed uuid old ≡ false) ⊎ (is_listed uuid deleted ≡ true))
  unlisted_new h = (
    elim (Bool-cases (is_listed uuid added)) [
      | inr missing ↦ missing
      | inl listed ↦
          let (u, i, e) = In-of_is_listed added uuid listed in
          absurd (cc (listed_at new u (d.added_new u i) e))
    ],
    elim (Bool-cases (is_listed uuid old)) [
      | inr missing ↦ inl missing
      | inl listed ↦ let (u, i, e) = In-of_is_listed old uuid listed in inr (is_deleted u i e h)
    ],
  )

info_after-none : (o : Option UserInfo) → info_after o none ≡ none → o ≡ none
info_after-none o h = ground arith

-- The limiter of a new node knows exactly its users.
pub add_limiter-Knows :
    (Regex Bucket : Type 0) (tag : String) (limit : ℤ) (us : List UserInfo) (alive : Dict ℤ ℤ)
    → Knows tag (add_limiter {Regex = Regex} {Bucket = Bucket} tag limit us alive) us
add_limiter-Knows Regex Bucket tag limit us alive uuid = (
  λ known. elim (Bool-cases (is_listed uuid us)) [
    | inl listed ↦ listed
    | inr missing ↦ absurd (
        known (
          add_limiter-info Regex Bucket tag uuid limit us alive
          ∙ rw (last_user-unlisted us uuid missing)))
  ],
  λ listed gone. last_user-listed us uuid listed (
      info_after-none (last_user uuid us)
        (sym (add_limiter-info Regex Bucket tag uuid limit us alive) ∙ gone)),
)

-- A result of `compareUserList` is a difference.
pub compare_user_list-eq-IsDiff :
    (old new deleted added : List UserInfo)
    → compare_user_list old new ≡ some (deleted, added)
    → IsDiff old new deleted added
compare_user_list-eq-IsDiff old new deleted added e =
    let (d, a, e', diff) = compare_user_list-IsDiff old new in
    subst (λ (r : List UserInfo × List UserInfo). IsDiff old new r.0 r.1) (some_inj (sym e' ∙ e))
      diff

-- When the uuids have one length and each old uuid stands for one user, the limiter that knew
-- exactly the old users knows exactly the new ones after the difference is applied.
pub update_user-Knows :
    {Regex Bucket : Type 0} (tag : String) (l : Limiter Regex Bucket)
    (old new deleted added : List UserInfo) (n : ℕ)
    → HaveLength n old
    → HaveLength n new
    → HaveOwnUuids old
    → compare_user_list old new ≡ some (deleted, added)
    → Knows tag l old
    → Knows tag (update_user tag added deleted l) new
update_user-Knows tag l old new deleted added n old_length new_length own e knows uuid =
    let d = compare_user_list-eq-IsDiff old new deleted added e in
    (
      λ known. elim (Bool-cases (is_listed uuid new)) [
        | inl listed ↦ listed
        | inr missing ↦
            let (not_added, gone) = unlisted_new d n old_length new_length own uuid missing in
            absurd (
              known (
                update_user-info tag uuid added deleted l
                ∙ ground (arith, last_user-unlisted added uuid not_added, knows uuid)))
      ],
      λ listed gone.
          let gone' = sym (update_user-info tag uuid added deleted l) ∙ gone in
          elim (listed_new d n old_length new_length own uuid listed) [
            | inl again ↦ ground (arith, last_user-listed added uuid again)
            | inr (kept, safe) ↦ ground (arith, (knows uuid).1 kept)
          ],
    )
