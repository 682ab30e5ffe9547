-- ===== src/Limiter/Admission/Reject.antt =====
-- When `CheckLimit` rejects a connection, and what it leaves behind.
use v2b_x_patched_by_haman.Prelude.{
  ℤ, pos, ◌≤ℤ◌, ◌<ℤ◌, String, ◌≡◌, inl, inr, true, Option, none, some, int_eq, string_eq, arith,
  Option-cases,
}
use v2b_x_patched_by_haman.Dict.{get, put, remove}
use v2b_x_patched_by_haman.Dict.Laws.{get-put_same, get-put_other, get-remove-put, get_same}
use v2b_x_patched_by_haman.Limiter.State.{Limiter}
use v2b_x_patched_by_haman.Limiter.Admission.{int_of, single, track_device}

module _ {Regex Bucket : Type 0} where
  -- The user that an address is online for, under the key of a user.
  abbrev pub online_at : Limiter Regex Bucket → String → String → Option ℤ
  online_at l taguuid ip = elim (get l.user_online_ip taguuid) [
    | none ↦ none
    | some ips ↦ get ips ip
  ]

  -- A new address of a user whose devices are all in use elsewhere.
  pub record IsBlocked (uid device_limit : ℤ) (taguuid ip : String) (l : Limiter Regex Bucket)
      : Type 0 where
    pub offline : online_at l taguuid ip ≡ none
    pub not_recent : get l.old_user_online ip ≡ none
    pub limited : pos 0 <ℤ device_limit
    pub full : device_limit ≤ℤ int_of (get l.alive_list uid)

  module _ (uid device_limit : ℤ) (taguuid ip : String) (l : Limiter Regex Bucket) where
    pub track_device-rejects :
        IsBlocked uid device_limit taguuid ip l
        → (track_device uid device_limit taguuid ip l).1 ≡ true
    unfolding track_device
    track_device-rejects b = ground arith

    pub track_device-IsBlocked :
        (track_device uid device_limit taguuid ip l).1 ≡ true
        → IsBlocked uid device_limit taguuid ip l
    unfolding track_device
    track_device-IsBlocked h = ground arith

    -- A rejected address is not left in the user's map.
    pub track_device-restores :
        (track_device uid device_limit taguuid ip l).1 ≡ true
        → (key at : String)
        → online_at (track_device uid device_limit taguuid ip l).0 key at ≡ online_at l key at
    unfolding track_device
    track_device-restores h key at = elim (Option-cases (get l.user_online_ip taguuid)) [
      | inl away ↦ ground (arith, get-remove-put l.user_online_ip taguuid key (single ip uid) away)
      | inr (ips, online) ↦ ground (
        arith,
        get-put_same l.user_online_ip taguuid key (remove (put ips ip uid) ip),
        get-put_other l.user_online_ip taguuid key (remove (put ips ip uid) ip),
        get-put_same l.user_online_ip taguuid key (put ips ip uid),
        get-put_other (put l.user_online_ip taguuid (put ips ip uid)) taguuid key
            (remove (put ips ip uid) ip),
        get-put_same (put l.user_online_ip taguuid (put ips ip uid)) taguuid key
            (remove (put ips ip uid) ip),
        get-put_other l.user_online_ip taguuid key (put ips ip uid),
        get-remove-put ips ip at uid,
        get_same l.user_online_ip taguuid key,
      )
    ]
