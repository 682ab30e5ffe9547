-- ===== src/Limiter/State/Users.antt =====
-- What the limiter knows after its users were set or updated.
use v2b_x_patched_by_haman.Prelude.{
  ℤ, String, ◌≡◌, refl, ◌∙◌, Bool, Option, none, some, List, [], ◌∷◌, ◌==◌, string_eq, int_eq,
  if◌then◌else◌, arith, any,
}
use v2b_x_patched_by_haman.Dict.{Dict, get, remove}
use v2b_x_patched_by_haman.Dict.Laws.{
  get-nil, get-put_same, get-put_other, get-remove_same, get-remove_other,
}
use v2b_x_patched_by_haman.Format.{user_tag}
use v2b_x_patched_by_haman.Format.Laws.{user_tag-beq}
use v2b_x_patched_by_haman.Panel.{UserInfo}
use v2b_x_patched_by_haman.Limiter.State.{
  UserLimitInfo, Limiter, new_info, add_user, add_users, add_limiter, delete_user, delete_users,
  update_user,
}

-- The last user of a list with a uuid; the one whose settings are in force.
abbrev pub last_user : String → List UserInfo → Option UserInfo
last_user uuid [] = none
last_user uuid (u ∷ us) = elim (last_user uuid us) [
  | none ↦ if u.uuid == uuid then some u else none
  | some v ↦ some v
]

-- The entry after a list of users is added.
abbrev pub info_after : Option UserInfo → Option UserLimitInfo → Option UserLimitInfo
info_after none before = before
info_after (some u) before = some (new_info u)

abbrev pub is_listed : String → List UserInfo → Bool
is_listed uuid us = any (λ u. u.uuid == uuid) us

module _ (tag uuid : String) where
  -- One more removal under the key of a user.
  forget {ℓ} :
      {V : Type ℓ} (u : UserInfo) (us : List UserInfo) (m : Dict String V)
      → (if is_listed uuid us
          then none
          else get (remove m (user_tag tag u.uuid)) (user_tag tag uuid))
        ≡ (if is_listed uuid (u ∷ us) then none else get m (user_tag tag uuid))
  forget u us m = ground (
    arith,
    user_tag-beq tag u.uuid uuid,
    get-remove_same m (user_tag tag u.uuid) (user_tag tag uuid),
    get-remove_other m (user_tag tag u.uuid) (user_tag tag uuid),
  )

module _ {Regex Bucket : Type 0} (tag uuid : String) where
  add_users-info :
      (us : List UserInfo) (l : Limiter Regex Bucket)
      → get (add_users tag us l).user_limit_info (user_tag tag uuid)
        ≡ info_after (last_user uuid us) (get l.user_limit_info (user_tag tag uuid))
  unfolding add_users add_user
  add_users-info [] l = refl
  add_users-info (u ∷ us) l =
      add_users-info us (add_user tag u l)
      ∙ ground (
        arith,
        user_tag-beq tag u.uuid uuid,
        get-put_same l.user_limit_info (user_tag tag u.uuid) (user_tag tag uuid) (new_info u),
        get-put_other l.user_limit_info (user_tag tag u.uuid) (user_tag tag uuid) (new_info u),
      )

  delete_users-info :
      (us : List UserInfo) (l : Limiter Regex Bucket)
      → get (delete_users tag us l).user_limit_info (user_tag tag uuid)
        ≡ (if is_listed uuid us then none else get l.user_limit_info (user_tag tag uuid))
  unfolding delete_users delete_user
  delete_users-info [] l = refl
  delete_users-info (u ∷ us) l =
      delete_users-info us (delete_user tag u l) ∙ forget tag uuid u us l.user_limit_info

  delete_users-buckets :
      (us : List UserInfo) (l : Limiter Regex Bucket)
      → get (delete_users tag us l).speed_limiter (user_tag tag uuid)
        ≡ (if is_listed uuid us then none else get l.speed_limiter (user_tag tag uuid))
  unfolding delete_users delete_user
  delete_users-buckets [] l = refl
  delete_users-buckets (u ∷ us) l =
      delete_users-buckets us (delete_user tag u l) ∙ forget tag uuid u us l.speed_limiter

  delete_users-online :
      (us : List UserInfo) (l : Limiter Regex Bucket)
      → get (delete_users tag us l).user_online_ip (user_tag tag uuid)
        ≡ (if is_listed uuid us then none else get l.user_online_ip (user_tag tag uuid))
  unfolding delete_users delete_user
  delete_users-online [] l = refl
  delete_users-online (u ∷ us) l =
      delete_users-online us (delete_user tag u l) ∙ forget tag uuid u us l.user_online_ip

  -- Adding users leaves the buckets and the online addresses alone.
  add_users-buckets :
      (us : List UserInfo) (l : Limiter Regex Bucket)
      → (add_users tag us l).speed_limiter ≡ l.speed_limiter
  unfolding add_users add_user
  add_users-buckets [] l = refl
  add_users-buckets (u ∷ us) l = add_users-buckets us (add_user tag u l)

  add_users-online :
      (us : List UserInfo) (l : Limiter Regex Bucket)
      → (add_users tag us l).user_online_ip ≡ l.user_online_ip
  unfolding add_users add_user
  add_users-online [] l = refl
  add_users-online (u ∷ us) l = add_users-online us (add_user tag u l)

  -- After an update a user has the entry of its last place among the added users; a user that is
  -- not added has none if it was deleted, and its old entry otherwise.
  pub update_user-info :
      (added deleted : List UserInfo) (l : Limiter Regex Bucket)
      → get (update_user tag added deleted l).user_limit_info (user_tag tag uuid)
        ≡ info_after
            (last_user uuid added)
            (if is_listed uuid deleted then none else get l.user_limit_info (user_tag tag uuid))
  unfolding update_user
  update_user-info added deleted l =
      add_users-info added (delete_users tag deleted l) ∙ rw (delete_users-info deleted l)

  -- After an update a deleted user has neither a bucket nor an online address, also if it is added
  -- again, and every other user has those that it had.
  pub update_user-clears :
      (added deleted : List UserInfo) (l : Limiter Regex Bucket)
      → (get (update_user tag added deleted l).speed_limiter (user_tag tag uuid)
          ≡ (if is_listed uuid deleted then none else get l.speed_limiter (user_tag tag uuid)))
        × (get (update_user tag added deleted l).user_online_ip (user_tag tag uuid)
            ≡ (if is_listed uuid deleted then none else get l.user_online_ip (user_tag tag uuid)))
  unfolding update_user
  update_user-clears added deleted l = (
    rw (add_users-buckets added (delete_users tag deleted l)) (delete_users-buckets deleted l),
    rw (add_users-online added (delete_users tag deleted l)) (delete_users-online deleted l),
  )

-- A new limiter knows exactly the users of its list, each with the settings of its last place.
pub add_limiter-info :
    (Regex Bucket : Type 0) (tag uuid : String) (limit : ℤ) (us : List UserInfo) (alive : Dict ℤ ℤ)
    → get
        (add_limiter {Regex = Regex} {Bucket = Bucket} tag limit us alive).user_limit_info
        (user_tag tag uuid)
      ≡ info_after (last_user uuid us) none
unfolding add_limiter
add_limiter-info Regex Bucket tag uuid limit us alive =
    add_users-info tag uuid us _ ∙ rw (get-nil {K = String} {V = UserLimitInfo} (user_tag tag uuid))
