-- ===== src/Limiter/Admission.antt =====
-- `CheckLimit` of limiter/limiter.go: the decision on one new connection of a user.
pub mod Reject
pub mod Decide
pub mod Effects
pub mod Rate
pub mod Buckets
use v2b_x_patched_by_haman.Prelude.{
  ℤ, pos, ltb_ℤ, leb_ℤ, ◌*ℤ◌, quot_ℤ, wrap64, String, Bool, true, false, not, ◌&&◌, Option, none,
  some, [], ◌==◌, int_eq, string_eq, if◌then◌else◌,
}
use v2b_x_patched_by_haman.Dict.{Dict, get, put, remove}
use v2b_x_patched_by_haman.Format.{trim_prefix}
use v2b_x_patched_by_haman.Limiter.State.{UserLimitInfo, Limiter, determine_speed_limit, unix}

unfoldable pub is_expired : ℤ → UserLimitInfo → Bool
is_expired now u = ltb_ℤ u.expire_time (unix now) && not (u.expire_time == pos 0)

-- The user's own limit, before that of the node.
unfoldable pub user_speed : ℤ → UserLimitInfo → ℤ
unfolding is_expired determine_speed_limit
user_speed now u =
    if is_expired now u
    then (if u.speed_limit == pos 0 then pos 0 else u.speed_limit)
    else determine_speed_limit u.speed_limit u.dynamic_speed_limit

-- The value of a Go map of integers at a key, 0 where it is missing.
abbrev pub int_of : Option ℤ → ℤ
int_of none = pos 0
int_of (some n) = n

-- A new `sync.Map` with one entry.
abbrev pub single : String → ℤ → Dict String ℤ
single ip uid = put [] ip uid

-- Bytes for each second of a limit in megabits for each second.
unfoldable pub byte_rate : ℤ → ℤ → ℤ
unfolding determine_speed_limit
byte_rate node_limit user_limit =
    quot_ℤ (wrap64 (determine_speed_limit node_limit user_limit *ℤ pos 1_000_000)) 8

module _ {Regex Bucket : Type 0} where
  -- What an expired dynamic limit changes in the entry of its user.
  unfoldable pub expire : ℤ → String → UserLimitInfo → Limiter Regex Bucket → Limiter Regex Bucket
  unfolding is_expired
  expire now taguuid u l =
      if is_expired now u
      then (if u.speed_limit == pos 0
          then record l { user_limit_info = remove l.user_limit_info taguuid }
          else record l {
            user_limit_info =
                put l.user_limit_info taguuid
                  (record u { dynamic_speed_limit = pos 0; expire_time = pos 0 });
          })
      else l

  -- `deviceLimit > 0` and `deviceLimit <= aliveIp`.
  unfoldable pub is_full : ℤ → ℤ → Limiter Regex Bucket → Bool
  is_full uid device_limit l =
      ltb_ℤ (pos 0) device_limit && leb_ℤ device_limit (int_of (get l.alive_list uid))

  abbrev forget_old : ℤ → String → ℤ → Limiter Regex Bucket → Limiter Regex Bucket
  forget_old uid ip owner l =
      if owner == uid then record l { old_user_online = remove l.old_user_online ip } else l

  -- An address that the user's map of online addresses `ips` does not hold yet.
  abbrev add_ip :
      ℤ → ℤ → String → String → Dict String ℤ → Limiter Regex Bucket → Limiter Regex Bucket × Bool
  add_ip uid device_limit taguuid ip ips l =
      let l' = record l { user_online_ip = put l.user_online_ip taguuid (put ips ip uid) } in
      elim (get l.old_user_online ip) [
        | some owner ↦ (forget_old uid ip owner l', false)
        | none ↦
            if is_full uid device_limit l
            then (
              record l' {
                user_online_ip = put l'.user_online_ip taguuid (remove (put ips ip uid) ip);
              },
              true,
            )
            else (l', false)
      ]

  -- The first address of a user that has none online.
  abbrev first_ip : ℤ → ℤ → String → String → Limiter Regex Bucket → Limiter Regex Bucket × Bool
  first_ip uid device_limit taguuid ip l =
      let l' = record l { user_online_ip = put l.user_online_ip taguuid (single ip uid) } in
      elim (get l.old_user_online ip) [
        | some owner ↦ (forget_old uid ip owner l', false)
        | none ↦
            if is_full uid device_limit l
            then (record l' { user_online_ip = remove l'.user_online_ip taguuid }, true)
            else (l', false)
      ]

  -- The block under `if noSSUDP`; `true` rejects.
  unfoldable pub track_device :
      ℤ → ℤ → String → String → Limiter Regex Bucket → Limiter Regex Bucket × Bool
  unfolding is_full
  track_device uid device_limit taguuid ip l = elim (get l.user_online_ip taguuid) [
    | none ↦ first_ip uid device_limit taguuid ip l
    | some ips ↦ elim (get ips ip) [
      | some _ ↦ (l, false)
      | none ↦ add_ip uid device_limit taguuid ip ips l
    ]
  ]

  -- `new_bucket capacity quantum` is `ratelimit.NewBucketWithQuantum(time.Second, …)`.
  module _ (new_bucket : ℤ → ℤ → Bucket) where
    -- The bucket of an admitted connection: the one that the user has, or a new one.
    unfoldable pub take_bucket :
        ℤ → String → Limiter Regex Bucket → Limiter Regex Bucket × Option Bucket
    take_bucket limit taguuid l =
        if ltb_ℤ (pos 0) limit
        then elim (get l.speed_limiter taguuid) [
          | some bucket ↦ (l, some bucket)
          | none ↦ (
            record l { speed_limiter = put l.speed_limiter taguuid (new_bucket limit limit) },
            some (new_bucket limit limit),
          )
        ]
        else (l, none)

    -- The result is the bucket and `Reject`.
    unfoldable pub finish :
        ℤ → String → Limiter Regex Bucket × Bool → Limiter Regex Bucket × (Option Bucket × Bool)
    finish limit taguuid (l, true) = (l, (none, true))
    finish limit taguuid (l, false) =
        let (l', bucket) = take_bucket limit taguuid l in (l', (bucket, false))

    unfoldable pub check_limit :
        ℤ
        → String
        → String
        → Bool
        → Limiter Regex Bucket
        → Limiter Regex Bucket × (Option Bucket × Bool)
    unfolding finish
    check_limit now taguuid address no_ssudp l =
        let ip = trim_prefix address "::ffff:" in
        elim (get l.user_limit_info taguuid) [
          | none ↦ (l, (none, true))
          | some u ↦
              let l' = expire now taguuid u l in
              finish (byte_rate l.speed_limit (user_speed now u)) taguuid
                (if no_ssudp then track_device u.uid u.device_limit taguuid ip l' else (l', false))
        ]
