-- ===== src/Limiter/Admission/Buckets.antt =====
-- The buckets that `CheckLimit` hands out, and what becomes of the entries of its users.
use v2b_x_patched_by_haman.Prelude.{
  ℤ, pos, ltb_ℤ, String, ◌≡◌, refl, sym, ◌∙◌, ap, inl, inr, Bool, true, false, Option, none, some,
  ◌==◌, string_eq, int_eq, if◌then◌else◌, arith, Option-cases, ℕ, [], ◌∷◌, ◌<◌, ◌^◌,
}
use v2b_x_patched_by_haman.Dict.{get}
use v2b_x_patched_by_haman.Dict.Laws.{
  get-put_same, get-put_other, get-remove_same, get-remove_other, get_same, beq_refl,
}
use v2b_x_patched_by_haman.Limiter.State.{UserLimitInfo, Limiter, update_dynamic_speed_limit}
use v2b_x_patched_by_haman.Limiter.Admission.{
  is_expired, byte_rate, user_speed, expire, track_device, take_bucket, finish, check_limit,
}
use v2b_x_patched_by_haman.Limiter.Admission.Rate.{
  or_bucket, bucket_at, bucket_at_lem, least_limit, still_on, byte_rate-least,
}
use v2b_x_patched_by_haman.Limiter.Admission.Decide.{
  track, reject-check_limit, check_limit_known, check_limit_unknown,
}

-- The entry of a user once an expired dynamic limit is dropped.
abbrev pub cleaned : ℤ → UserLimitInfo → Option UserLimitInfo
cleaned now u =
    if is_expired now u
    then (if u.speed_limit == pos 0
        then none
        else some (record u { dynamic_speed_limit = pos 0; expire_time = pos 0 }))
    else some u

module _ {Regex Bucket : Type 0} where
  get-expire :
      (now : ℤ) (taguuid key : String) (u : UserLimitInfo) (l : Limiter Regex Bucket)
      → get l.user_limit_info taguuid ≡ some u
      → get (expire now taguuid u l).user_limit_info key
        ≡ (if taguuid == key then cleaned now u else get l.user_limit_info key)
  unfolding expire
  get-expire now taguuid key u l known =
      let reset = record u { dynamic_speed_limit = pos 0; expire_time = pos 0 } in
      ground (
        arith,
        get-put_same l.user_limit_info taguuid key reset,
        get-put_other l.user_limit_info taguuid key reset,
        get-remove_same l.user_limit_info taguuid key,
        get-remove_other l.user_limit_info taguuid key,
        get_same l.user_limit_info taguuid key,
      )

  -- The block on devices reads neither the entries of the users nor the buckets.
  info-track :
      (now : ℤ) (taguuid address : String) (no_ssudp : Bool) (l : Limiter Regex Bucket)
      (u : UserLimitInfo)
      → (track now taguuid address no_ssudp l u).0.user_limit_info
        ≡ (expire now taguuid u l).user_limit_info
  unfolding track_device
  info-track now taguuid address no_ssudp l u = ground arith

  buckets-track :
      (now : ℤ) (taguuid address : String) (no_ssudp : Bool) (l : Limiter Regex Bucket)
      (u : UserLimitInfo)
      → (track now taguuid address no_ssudp l u).0.speed_limiter ≡ l.speed_limiter
  unfolding track_device expire
  buckets-track now taguuid address no_ssudp l u = ground arith

  module _ (new_bucket : ℤ → ℤ → Bucket) where
    info-finish :
        (limit : ℤ) (taguuid : String) (r : Limiter Regex Bucket × Bool)
        → (finish new_bucket limit taguuid r).0.user_limit_info ≡ r.0.user_limit_info
    unfolding finish take_bucket
    info-finish limit taguuid (l, true) = refl
    info-finish limit taguuid (l, false) = ground arith

    -- After a check of a known user its entry has lost an expired dynamic limit, and is gone
    -- altogether if there is no other limit on it; every other entry is as before.
    pub check_limit-entries :
        (now : ℤ) (taguuid address : String) (no_ssudp : Bool) (l : Limiter Regex Bucket)
        (u : UserLimitInfo) (key : String)
        → get l.user_limit_info taguuid ≡ some u
        → get (check_limit new_bucket now taguuid address no_ssudp l).0.user_limit_info key
          ≡ (if taguuid == key then cleaned now u else get l.user_limit_info key)
    check_limit-entries now taguuid address no_ssudp l u key known =
        rw (check_limit_known new_bucket now taguuid address no_ssudp l u known) (
          ap (λ m. get m key)
            (info-finish (byte_rate l.speed_limit (user_speed now u)) taguuid
                (track now taguuid address no_ssudp l u)
              ∙ info-track now taguuid address no_ssudp l u)
          ∙ get-expire now taguuid key u l known)

    -- Once the dynamic limit of a user without a speed limit has expired, the first check removes
    -- the user's entry, and any later check rejects the user, whatever the address.
    pub check_limit-locks_out :
        (now later : ℤ) (taguuid address address' : String) (no_ssudp no_ssudp' : Bool)
        (l : Limiter Regex Bucket) (u : UserLimitInfo)
        → get l.user_limit_info taguuid ≡ some u
        → u.speed_limit ≡ pos 0
        → is_expired now u ≡ true
        → (check_limit new_bucket later taguuid address' no_ssudp'
            (check_limit new_bucket now taguuid address no_ssudp l).0).1
          ≡ (none, true)
    check_limit-locks_out now later taguuid address address' no_ssudp no_ssudp' l u known free old =
        let l' = (check_limit new_bucket now taguuid address no_ssudp l).0 in
        let gone : get l'.user_limit_info taguuid ≡ none =
          check_limit-entries now taguuid address no_ssudp l u taguuid known
          ∙ rw (beq_refl taguuid, old, free) in
        ap (λ r. r.1) (check_limit_unknown new_bucket later taguuid address' no_ssudp' l' gone)

    finish-uses_bucket :
        (limit : ℤ) (taguuid : String) (r : Limiter Regex Bucket × Bool) (b b' : Bucket)
        → get r.0.speed_limiter taguuid ≡ some b
        → (finish new_bucket limit taguuid r).1.0 ≡ some b'
        → b' ≡ b
    unfolding finish take_bucket
    finish-uses_bucket limit taguuid (l, true) b b' h e = cc
    finish-uses_bucket limit taguuid (l, false) b b' h e = ground arith

    finish-keeps_bucket :
        (limit : ℤ) (taguuid : String) (r : Limiter Regex Bucket × Bool) (b : Bucket)
        → (finish new_bucket limit taguuid r).1.0 ≡ some b
        → get (finish new_bucket limit taguuid r).0.speed_limiter taguuid ≡ some b
    unfolding finish take_bucket
    finish-keeps_bucket limit taguuid (l, true) b e = cc
    finish-keeps_bucket limit taguuid (l, false) b e = ground (
      arith,
      get-put_same l.speed_limiter taguuid taguuid (new_bucket limit limit) (beq_refl taguuid),
    )

    update-keeps_buckets :
        (tag uuid : String) (limit until : ℤ) (l l' : Limiter Regex Bucket)
        → update_dynamic_speed_limit tag uuid limit until l ≡ some l'
        → l'.speed_limiter ≡ l.speed_limiter
    unfolding update_dynamic_speed_limit
    update-keeps_buckets tag uuid limit until l l' e = ground arith

    bucket-finish :
        (limit : ℤ) (taguuid : String) (r : Limiter Regex Bucket × Bool)
        → r.1 ≡ false
        → (finish new_bucket limit taguuid r).1.0 ≡ (
            if ltb_ℤ (pos 0) limit
            then some (or_bucket (get r.0.speed_limiter taguuid) (new_bucket limit limit))
            else none)
    unfolding finish take_bucket
    bucket-finish limit taguuid (l, true) e = cc
    bucket-finish limit taguuid (l, false) e = ground arith

    module _ (now : ℤ) (taguuid address : String) (no_ssudp : Bool) (l : Limiter Regex Bucket) where
      bucket-check_limit :
          (u : UserLimitInfo)
          → get l.user_limit_info taguuid ≡ some u
          → (check_limit new_bucket now taguuid address no_ssudp l).1.1 ≡ false
          → (check_limit new_bucket now taguuid address no_ssudp l).1.0 ≡ (
              let rate = byte_rate l.speed_limit (user_speed now u) in
              if ltb_ℤ (pos 0) rate
              then some (or_bucket (get l.speed_limiter taguuid) (new_bucket rate rate))
              else none)
      bucket-check_limit u known admitted =
          let admitted' =
            sym (reject-check_limit new_bucket now taguuid address no_ssudp l u known) ∙ admitted in
          rw (check_limit_known new_bucket now taguuid address no_ssudp l u known) (
            bucket-finish (byte_rate l.speed_limit (user_speed now u)) taguuid
              (track now taguuid address no_ssudp l u) admitted'
            ∙ rw (buckets-track now taguuid address no_ssudp l u))

      -- Where the node's limit, the user's limit and the user's dynamic limit are not negative and
      -- under 2^43 megabits, an admitted connection of a known user has a bucket exactly if one of
      -- them is in force, where 0 is no limit and a dynamic limit is in force up to its time, or for
      -- ever if it has no time. It is the bucket that the user has already, or else a new one whose
      -- capacity and quantum are 125,000 bytes for each megabit of the least limit in force.
      pub check_limit-bucket :
          (u : UserLimitInfo) (m s d : ℕ)
          → get l.user_limit_info taguuid ≡ some u
          → l.speed_limit ≡ pos m
          → u.speed_limit ≡ pos s
          → u.dynamic_speed_limit ≡ pos d
          → m < 2 ^ 43
          → s < 2 ^ 43
          → d < 2 ^ 43
          → (check_limit new_bucket now taguuid address no_ssudp l).1.1 ≡ false
          → (check_limit new_bucket now taguuid address no_ssudp l).1.0
            ≡ bucket_at new_bucket
                (get l.speed_limiter taguuid)
                (least_limit (m ∷ s ∷ still_on now u d ∷ []))
      check_limit-bucket u m s d known em es ed hm hs hd admitted =
          bucket-check_limit u known admitted
          ∙ ap
              (λ rate.
                if ltb_ℤ (pos 0) rate
                then some (or_bucket (get l.speed_limiter taguuid) (new_bucket rate rate))
                else none)
              (byte_rate-least now l.speed_limit u m s d em es ed hm hs hd)
          ∙ bucket_at_lem new_bucket (get l.speed_limiter taguuid) (m ∷ s ∷ still_on now u d ∷ [])

      check_limit-uses_bucket :
          (b b' : Bucket)
          → get l.speed_limiter taguuid ≡ some b
          → (check_limit new_bucket now taguuid address no_ssudp l).1.0 ≡ some b'
          → b' ≡ b
      check_limit-uses_bucket b b' h e = elim (Option-cases (get l.user_limit_info taguuid)) [
        | inl unknown ↦
            let e' =
              rw (check_limit_unknown new_bucket now taguuid address no_ssudp l unknown) at e in
            cc
        | inr (u, known) ↦
            finish-uses_bucket (byte_rate l.speed_limit (user_speed now u)) taguuid
              (track now taguuid address no_ssudp l u) b b'
              (rw (buckets-track now taguuid address no_ssudp l u) h)
              (rw (check_limit_known new_bucket now taguuid address no_ssudp l u known) at e)
      ]

      check_limit-keeps_bucket :
          (b : Bucket)
          → (check_limit new_bucket now taguuid address no_ssudp l).1.0 ≡ some b
          → get (check_limit new_bucket now taguuid address no_ssudp l).0.speed_limiter taguuid
            ≡ some b
      check_limit-keeps_bucket b e = elim (Option-cases (get l.user_limit_info taguuid)) [
        | inl unknown ↦
            let e' =
              rw (check_limit_unknown new_bucket now taguuid address no_ssudp l unknown) at e in
            cc
        | inr (u, known) ↦
            rw (check_limit_known new_bucket now taguuid address no_ssudp l u known) (
              finish-keeps_bucket (byte_rate l.speed_limit (user_speed now u)) taguuid
                (track now taguuid address no_ssudp l u) b
                (rw (check_limit_known new_bucket now taguuid address no_ssudp l u known) at e))
      ]

    -- When a check gave a user a bucket, a dynamic limit was then set without error, and the next
    -- check of the user gives a bucket, it is the same bucket, whatever the new limit.
    pub check_limit-same_bucket :
        (now later : ℤ) (taguuid address address' : String) (no_ssudp no_ssudp' : Bool)
        (tag uuid : String) (limit until : ℤ) (l l' : Limiter Regex Bucket) (b b' : Bucket)
        → (check_limit new_bucket now taguuid address no_ssudp l).1.0 ≡ some b
        → update_dynamic_speed_limit tag uuid limit until
            (check_limit new_bucket now taguuid address no_ssudp l).0
          ≡ some l'
        → (check_limit new_bucket later taguuid address' no_ssudp' l').1.0 ≡ some b'
        → b' ≡ b
    check_limit-same_bucket now later taguuid address address' no_ssudp no_ssudp' tag uuid limit
          until l l' b b' first set second =
        check_limit-uses_bucket later taguuid address' no_ssudp' l' b b'
          (rw
            (update-keeps_buckets tag uuid limit until
              (check_limit new_bucket now taguuid address no_ssudp l).0 l' set)
            (check_limit-keeps_bucket now taguuid address no_ssudp l b first))
          second
