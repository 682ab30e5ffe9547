-- ===== src/Limiter/Admission/Decide.antt =====
-- The decision of `CheckLimit` for every user, address and time.
use v2b_x_patched_by_haman.Prelude.{
  ℤ, String, ◌≡◌, refl, sym, ◌∙◌, ap, ◌↔◌, ◌⊎◌, inl, inr, Bool, true, false, none, some, string_eq,
  int_eq, if◌then◌else◌, arith, Option-cases, Bool-cases,
}
use v2b_x_patched_by_haman.Dict.{get}
use v2b_x_patched_by_haman.Format.{trim_prefix}
use v2b_x_patched_by_haman.Limiter.State.{UserLimitInfo, Limiter}
use v2b_x_patched_by_haman.Limiter.Admission.{
  byte_rate, user_speed, expire, track_device, finish, check_limit,
}
use v2b_x_patched_by_haman.Limiter.Admission.Reject.{
  IsBlocked, track_device-rejects, track_device-IsBlocked,
}

module _ {Regex Bucket : Type 0} where
  -- Why a connection is refused: the user is unknown, or the limit on devices applies to it
  -- (`noSSUDP`), and it comes over a new address while the user's devices are all in use.
  abbrev pub IsRefused : String → String → Bool → Limiter Regex Bucket → Type 0
  IsRefused taguuid ip no_ssudp l =
      (get l.user_limit_info taguuid ≡ none)
      ⊎ ((u : UserLimitInfo) × (get l.user_limit_info taguuid ≡ some u)
          × (no_ssudp ≡ true)
          × IsBlocked u.uid u.device_limit taguuid ip l)

  module _ (now : ℤ) (taguuid : String) where
    -- The clean-up of an expired limit leaves what decides about devices alone.
    IsBlocked-expire :
        (u v : UserLimitInfo) (ip : String) (l : Limiter Regex Bucket)
        → IsBlocked v.uid v.device_limit taguuid ip (expire now taguuid u l)
        → IsBlocked v.uid v.device_limit taguuid ip l
    unfolding expire
    IsBlocked-expire u v ip l b = ground arith

    expire-IsBlocked :
        (u v : UserLimitInfo) (ip : String) (l : Limiter Regex Bucket)
        → IsBlocked v.uid v.device_limit taguuid ip l
        → IsBlocked v.uid v.device_limit taguuid ip (expire now taguuid u l)
    unfolding expire
    expire-IsBlocked u v ip l b = ground arith

  -- The block on devices, for the user whose entry is `u`.
  abbrev pub track :
      ℤ
      → String
      → String
      → Bool
      → Limiter Regex Bucket
      → UserLimitInfo
      → Limiter Regex Bucket × Bool
  track now taguuid address no_ssudp l u =
      let l' = expire now taguuid u l in
      if no_ssudp
      then track_device u.uid u.device_limit taguuid (trim_prefix address "::ffff:") l'
      else (l', false)

  module _ (new_bucket : ℤ → ℤ → Bucket) where
    -- `finish` passes the decision on.
    reject-finish :
        (limit : ℤ) (taguuid : String) (r : Limiter Regex Bucket × Bool)
        → (finish new_bucket limit taguuid r).1.1 ≡ r.1
    unfolding finish
    reject-finish limit taguuid (l, true) = refl
    reject-finish limit taguuid (l, false) = refl

    module _ (now : ℤ) (taguuid address : String) (no_ssudp : Bool) (l : Limiter Regex Bucket) where
      pub check_limit_known :
          (u : UserLimitInfo)
          → get l.user_limit_info taguuid ≡ some u
          → check_limit new_bucket now taguuid address no_ssudp l
            ≡ finish new_bucket
                (byte_rate l.speed_limit (user_speed now u))
                taguuid
                (track now taguuid address no_ssudp l u)
      unfolding check_limit
      check_limit_known u e = rw (e, check_limit)

      -- For a known user the block on devices decides.
      pub reject-check_limit :
          (u : UserLimitInfo)
          → get l.user_limit_info taguuid ≡ some u
          → (check_limit new_bucket now taguuid address no_ssudp l).1.1
            ≡ (track now taguuid address no_ssudp l u).1
      reject-check_limit u e = rw (check_limit_known u e) (
          reject-finish (byte_rate l.speed_limit (user_speed now u)) taguuid
            (track now taguuid address no_ssudp l u))

      pub check_limit_unknown :
          get l.user_limit_info taguuid ≡ none
          → check_limit new_bucket now taguuid address no_ssudp l ≡ (l, (none, true))
      unfolding check_limit
      check_limit_unknown e = rw (e, check_limit)

      track-IsBlocked :
          (u : UserLimitInfo)
          → (track now taguuid address no_ssudp l u).1 ≡ true
          → (no_ssudp ≡ true)
            × IsBlocked u.uid u.device_limit taguuid (trim_prefix address "::ffff:") l
      track-IsBlocked u h = elim (Bool-cases no_ssudp) [
        | inl on ↦ (
          on,
          IsBlocked-expire now taguuid u u (trim_prefix address "::ffff:") l (
              track_device-IsBlocked u.uid u.device_limit taguuid (trim_prefix address "::ffff:")
                (expire now taguuid u l) (rw on at h)),
        )
        | inr off ↦ absurd (ground (arith))
      ]

      -- A connection is rejected only for a reason: its user is unknown, or the limit on devices
      -- applies to it and it comes over a new address while all the user's devices are in use.
      pub check_limit-IsRefused :
          (check_limit new_bucket now taguuid address no_ssudp l).1.1 ≡ true
          → IsRefused taguuid (trim_prefix address "::ffff:") no_ssudp l
      check_limit-IsRefused h = elim (Option-cases (get l.user_limit_info taguuid)) [
        | inl unknown ↦ inl unknown
        | inr (u, known) ↦ inr (
          u,
          known,
          (track-IsBlocked u (sym (reject-check_limit u known) ∙ h)).0,
          (track-IsBlocked u (sym (reject-check_limit u known) ∙ h)).1,
        )
      ]

      pub check_limit-rejects :
          IsRefused taguuid (trim_prefix address "::ffff:") no_ssudp l
          → (check_limit new_bucket now taguuid address no_ssudp l).1.1 ≡ true
      check_limit-rejects (inl unknown) = ap (λ r. r.1.1) (check_limit_unknown unknown)
      check_limit-rejects (inr (u, known, on, blocked)) =
          reject-check_limit u known
          ∙ rw on (
              track_device-rejects u.uid u.device_limit taguuid (trim_prefix address "::ffff:")
                (expire now taguuid u l)
                (expire-IsBlocked now taguuid u u (trim_prefix address "::ffff:") l blocked))

  -- `CheckLimit` rejects a connection exactly when its user is unknown, or when the limit on devices
  -- applies to it (its argument `noSSUDP` is true) and it comes over a new address while all the
  -- user's devices are in use.
  pub check_limit-rejects_iff :
      (new_bucket : ℤ → ℤ → Bucket) (now : ℤ) (taguuid address : String) (no_ssudp : Bool)
      (l : Limiter Regex Bucket)
      → ((check_limit new_bucket now taguuid address no_ssudp l).1.1 ≡ true)
        ↔ IsRefused taguuid (trim_prefix address "::ffff:") no_ssudp l
  check_limit-rejects_iff new_bucket now taguuid address no_ssudp l = (
    check_limit-IsRefused new_bucket now taguuid address no_ssudp l,
    check_limit-rejects new_bucket now taguuid address no_ssudp l,
  )
