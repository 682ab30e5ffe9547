-- ===== src/Limiter/Admission/Effects.antt =====
-- What `CheckLimit` changes: the addresses that are online, and the entries of its user.
use v2b_x_patched_by_haman.Prelude.{
  ℤ, String, ◌≡◌, refl, ◌∙◌, inl, inr, Bool, true, false, not, ◌&&◌, Option, none, some, [], ◌==◌,
  string_eq, int_eq, if◌then◌else◌, arith, Option-cases, Bool-cases,
}
use v2b_x_patched_by_haman.Dict.{get, put}
use v2b_x_patched_by_haman.Dict.Laws.{get-nil, get-put_same, get-put_other, get_same}
use v2b_x_patched_by_haman.Format.{trim_prefix}
use v2b_x_patched_by_haman.Limiter.State.{UserLimitInfo, Limiter}
use v2b_x_patched_by_haman.Limiter.Admission.{
  single, byte_rate, user_speed, expire, track_device, take_bucket, finish, check_limit,
}
use v2b_x_patched_by_haman.Limiter.Admission.Decide.{track, check_limit_known, reject-check_limit}
use v2b_x_patched_by_haman.Limiter.Admission.Reject.{online_at, track_device-restores}

-- The user that an address is recorded for: the one it was online for already, or this one.
abbrev pub owner_or : Option ℤ → ℤ → ℤ
owner_or none uid = uid
owner_or (some owner) uid = owner

module _ {Regex Bucket : Type 0} where
  -- An admitted address is online for its user; no other address is touched.
  pub track_device-admits :
      (uid device_limit : ℤ) (taguuid ip : String) (l : Limiter Regex Bucket)
      → (track_device uid device_limit taguuid ip l).1 ≡ false
      → (key at : String)
      → online_at (track_device uid device_limit taguuid ip l).0 key at ≡ (
          if taguuid == key && ip == at
          then some (owner_or (online_at l key at) uid)
          else online_at l key at)
  unfolding track_device
  track_device-admits uid device_limit taguuid ip l h key at =
      elim (Option-cases (get l.user_online_ip taguuid)) [
        | inl away ↦ ground (
          arith,
          get-put_same l.user_online_ip taguuid key (single ip uid),
          get-put_other l.user_online_ip taguuid key (single ip uid),
          get-put_same [] ip at uid,
          get-put_other [] ip at uid,
          get-nil {K = String} {V = ℤ} at,
          get_same l.user_online_ip taguuid key,
        )
        | inr (ips, online) ↦ ground (
          arith,
          get-put_same l.user_online_ip taguuid key (put ips ip uid),
          get-put_other l.user_online_ip taguuid key (put ips ip uid),
          get-put_same ips ip at uid,
          get-put_other ips ip at uid,
          get_same l.user_online_ip taguuid key,
          get_same ips ip at,
        )
      ]

  online-expire :
      (now : ℤ) (taguuid : String) (u : UserLimitInfo) (l : Limiter Regex Bucket) (key at : String)
      → online_at (expire now taguuid u l) key at ≡ online_at l key at
  unfolding expire
  online-expire now taguuid u l key at = ground arith

  -- What the whole check does to the online addresses is done by its block on devices.
  online-track :
      (now : ℤ) (taguuid address : String) (no_ssudp : Bool) (l : Limiter Regex Bucket)
      (u : UserLimitInfo) (key at : String)
      → online_at (track now taguuid address no_ssudp l u).0 key at ≡ (
          if not (track now taguuid address no_ssudp l u).1
            && (no_ssudp && (taguuid == key && trim_prefix address "::ffff:" == at))
          then some (owner_or (online_at l key at) u.uid)
          else online_at l key at)
  online-track now taguuid address false l u key at = online-expire now taguuid u l key at
  online-track now taguuid address true l u key at =
      let ip = trim_prefix address "::ffff:" in
      let l' = expire now taguuid u l in
      elim (Bool-cases (track_device u.uid u.device_limit taguuid ip l').1) [
        | inl rejected ↦ rw rejected (
            track_device-restores u.uid u.device_limit taguuid ip l' rejected key at
            ∙ online-expire now taguuid u l key at)
        | inr admitted ↦ rw admitted (
            track_device-admits u.uid u.device_limit taguuid ip l' admitted key at
            ∙ rw (online-expire now taguuid u l key at))
      ]

  module _ (new_bucket : ℤ → ℤ → Bucket) where
    online-finish :
        (limit : ℤ) (taguuid : String) (r : Limiter Regex Bucket × Bool) (key at : String)
        → online_at (finish new_bucket limit taguuid r).0 key at ≡ online_at r.0 key at
    unfolding finish take_bucket
    online-finish limit taguuid (l, true) key at = refl
    online-finish limit taguuid (l, false) key at = ground arith

    -- After a check of a known user the address of an admitted connection is online for the user
    -- that it was online for before, or else for this one; every other address, and every address
    -- after a rejection or without the block on devices, is online as before.
    pub check_limit-online :
        (now : ℤ) (taguuid address : String) (no_ssudp : Bool) (l : Limiter Regex Bucket)
        (u : UserLimitInfo) (key at : String)
        → get l.user_limit_info taguuid ≡ some u
        → online_at (check_limit new_bucket now taguuid address no_ssudp l).0 key at ≡ (
            if not (check_limit new_bucket now taguuid address no_ssudp l).1.1
              && (no_ssudp && (taguuid == key && trim_prefix address "::ffff:" == at))
            then some (owner_or (online_at l key at) u.uid)
            else online_at l key at)
    check_limit-online now taguuid address no_ssudp l u key at known =
        rw (reject-check_limit new_bucket now taguuid address no_ssudp l u known) (
          rw (check_limit_known new_bucket now taguuid address no_ssudp l u known) (
            online-finish (byte_rate l.speed_limit (user_speed now u)) taguuid
              (track now taguuid address no_ssudp l u) key at
            ∙ online-track now taguuid address no_ssudp l u key at))
