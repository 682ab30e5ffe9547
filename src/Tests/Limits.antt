-- ===== src/Tests/Limits.antt =====
-- limiter/ on a node with two users.
use v2b_x_patched_by_haman.Prelude.{
  ℤ, pos, ◌*ℤ◌, wrap64, String, ◌≡◌, ◌↔◌, refl, true, false, none, some, [], ◌∷◌, not, ◌&&◌, ◌==◌,
  string_eq, int_eq, nat_eq, if◌then◌else◌, arith,
}
use v2b_x_patched_by_haman.Dict.{get, put, remove}
use v2b_x_patched_by_haman.Format.{user_tag, trim_prefix}
use v2b_x_patched_by_haman.Panel.{UserInfo}
use v2b_x_patched_by_haman.Limiter.State.{
  UserLimitInfo, Limiter, zero_info, update_user, update_dynamic_speed_limit, determine_speed_limit,
}
use v2b_x_patched_by_haman.Limiter.State.Users.{
  info_after, last_user, is_listed, update_user-info, update_user-clears,
}
use v2b_x_patched_by_haman.Limiter.Admission.{
  check_limit, track_device, expire, take_bucket, is_full, is_expired, user_speed, byte_rate,
}
use v2b_x_patched_by_haman.Limiter.Admission.Decide.{IsRefused, check_limit-rejects_iff}
use v2b_x_patched_by_haman.Limiter.Admission.Effects.{owner_or, check_limit-online}
use v2b_x_patched_by_haman.Limiter.Admission.Reject.{online_at}
use v2b_x_patched_by_haman.Limiter.Admission.Rate.{bucket_at, least_limit, still_on}
use v2b_x_patched_by_haman.Limiter.Admission.Buckets.{
  cleaned, check_limit-bucket, check_limit-entries, check_limit-locks_out, check_limit-same_bucket,
}
use v2b_x_patched_by_haman.Limiter.Online.{get_online_device}
use v2b_x_patched_by_haman.Limiter.Online.Report.{
  all_entries, last_uid, get_online_device-drains, get_online_device-recent,
}
use v2b_x_patched_by_haman.Limiter.Online.Readmit.{check_limit-readmits}

-- A bucket is its capacity, a compiled pattern is the text that it matches.
abbrev bucket_of : ℤ → ℤ → ℤ
bucket_of capacity quantum = capacity

abbrev ann : UserLimitInfo
ann = record zero_info { uid = pos 7; speed_limit = pos 16; device_limit = pos 1 }

-- A user with a dynamic limit only.
abbrev bob : UserLimitInfo
bob = record zero_info { uid = pos 8; dynamic_speed_limit = pos 8; expire_time = pos 50 }

abbrev pub node : Limiter String ℤ
node = record {
  domain_rules = [];
  protocol_rules = [];
  speed_limit = pos 100;
  user_online_ip = ("n|ann", ("10.0.0.1", pos 7) ∷ []) ∷ [];
  old_user_online = [];
  uuid_to_uid = ("ann", pos 7) ∷ ("bob", pos 8) ∷ [];
  user_limit_info = ("n|ann", ann) ∷ ("n|bob", bob) ∷ [];
  speed_limiter = [];
  alive_list = (pos 7, pos 1) ∷ [];
}

abbrev ann_key : String
ann_key = "n|ann"

abbrev bob_key : String
bob_key = "n|bob"

abbrev home : String
home = "10.0.0.1"

abbrev away : String
away = "10.0.0.2"

-- One second and one hundred seconds after the epoch.
abbrev early : ℤ
early = pos 1_000_000_000

abbrev late : ℤ
late = pos 100_000_000_000

-- A second address of `ann` is rejected, the first one is not; both are at 16 Mbit/s.
second_address :
    ((check_limit bucket_of early "n|ann" "10.0.0.2" true node).1 ≡ (none, true))
    × ((check_limit bucket_of early "n|ann" "::ffff:10.0.0.1" true node).1
        ≡ (some (pos 2_000_000), false))
    × ((check_limit bucket_of early "n|cyd" "10.0.0.1" true node).1 ≡ (none, true))
unfolding check_limit track_device expire take_bucket is_full user_speed byte_rate trim_prefix get
    put remove wrap64 ◌*ℤ◌
second_address = (refl, refl, refl)

check_limit-rejects_iff_example :
    ((check_limit bucket_of early ann_key away true node).1.1 ≡ true)
    ↔ IsRefused ann_key (trim_prefix away "::ffff:") true node
check_limit-rejects_iff_example = check_limit-rejects_iff bucket_of early ann_key away true node

check_limit-online_example :
    online_at (check_limit bucket_of early ann_key away true node).0 ann_key home ≡ (
      if not (check_limit bucket_of early ann_key away true node).1.1
        && (true && (ann_key == ann_key && trim_prefix away "::ffff:" == home))
      then some (owner_or (online_at node ann_key home) (pos 7))
      else online_at node ann_key home)
unfolding get
check_limit-online_example =
    check_limit-online bucket_of early ann_key away true node ann ann_key home refl

check_limit-readmits_example :
    (check_limit bucket_of late ann_key home true (get_online_device node).0).1.1 ≡ false
unfolding get trim_prefix
check_limit-readmits_example =
    check_limit-readmits bucket_of late ann_key home true node ann (pos 7) refl refl

check_limit-entries_example :
    get (check_limit bucket_of late bob_key "10.0.0.3" true node).0.user_limit_info ann_key
    ≡ (if bob_key == ann_key then cleaned late bob else get node.user_limit_info ann_key)
unfolding get
check_limit-entries_example =
    check_limit-entries bucket_of late bob_key "10.0.0.3" true node bob ann_key refl

check_limit-locks_out_example :
    (check_limit bucket_of late bob_key "10.0.0.3" true
      (check_limit bucket_of late bob_key "10.0.0.3" true node).0).1
    ≡ (none, true)
unfolding get is_expired
check_limit-locks_out_example =
    check_limit-locks_out bucket_of late late bob_key "10.0.0.3" "10.0.0.3" true true node bob refl
      refl refl

-- The node allows 100 Mbit/s, `bob` has no limit but a dynamic one of 8 Mbit/s that is still on.
check_limit-bucket_example :
    (check_limit bucket_of early bob_key home true node).1.0
    ≡ bucket_at bucket_of
        (get node.speed_limiter bob_key)
        (least_limit (100 ∷ 0 ∷ still_on early bob 8 ∷ []))
unfolding check_limit track_device expire take_bucket is_full user_speed is_expired byte_rate
    trim_prefix get put remove wrap64 ◌*ℤ◌ determine_speed_limit
check_limit-bucket_example =
    check_limit-bucket bucket_of early bob_key home true node bob 100 0 8 refl refl refl refl
      (omega arith) (omega arith) (omega arith) refl

bucket_runs : (check_limit bucket_of early bob_key home true node).1.0 ≡ some (pos 1_000_000)
unfolding check_limit track_device expire take_bucket is_full user_speed is_expired byte_rate
    trim_prefix get put remove wrap64 ◌*ℤ◌ determine_speed_limit
bucket_runs = refl

-- `ann` gets a bucket of 16 Mbit/s, then a dynamic limit of 1 Mbit/s, and keeps the bucket.
abbrev served : Limiter String ℤ
served = (check_limit bucket_of early ann_key home true node).0

abbrev slowed : Limiter String ℤ
slowed = record served {
  user_limit_info =
      put served.user_limit_info ann_key
        (record ann { dynamic_speed_limit = pos 1; expire_time = pos 100 });
}

check_limit-same_bucket_example : ◌≡◌ {A = ℤ} (pos 2_000_000) (pos 2_000_000)
unfolding check_limit update_dynamic_speed_limit track_device expire take_bucket is_full user_speed
    byte_rate trim_prefix get put remove wrap64 ◌*ℤ◌ user_tag
check_limit-same_bucket_example =
    check_limit-same_bucket bucket_of early early ann_key home home true true "n" "ann" (pos 1) late
      node slowed (pos 2_000_000) (pos 2_000_000) refl refl refl

-- The users of an update: `ann` is deleted and added again with another limit, `bob` is deleted.
abbrev ann_16 : UserInfo
ann_16 = record { id = pos 7; uuid = "ann"; speed_limit = pos 16; device_limit = pos 1 }

abbrev ann_32 : UserInfo
ann_32 = record ann_16 { speed_limit = pos 32 }

abbrev bob_0 : UserInfo
bob_0 = record { id = pos 8; uuid = "bob"; speed_limit = pos 0; device_limit = pos 0 }

update_user-info_example :
    get
      (update_user "n" (ann_32 ∷ []) (ann_16 ∷ bob_0 ∷ []) node).user_limit_info
      (user_tag "n" "bob")
    ≡ info_after (last_user "bob" (ann_32 ∷ [])) (
        if is_listed "bob" (ann_16 ∷ bob_0 ∷ [])
        then none
        else get node.user_limit_info (user_tag "n" "bob"))
update_user-info_example = update_user-info "n" "bob" (ann_32 ∷ []) (ann_16 ∷ bob_0 ∷ []) node

update_user-clears_example :
    (get
        (update_user "n" (ann_32 ∷ []) (ann_16 ∷ bob_0 ∷ []) node).speed_limiter
        (user_tag "n" "ann")
      ≡ (if is_listed "ann" (ann_16 ∷ bob_0 ∷ [])
          then none
          else get node.speed_limiter (user_tag "n" "ann")))
    × (get
          (update_user "n" (ann_32 ∷ []) (ann_16 ∷ bob_0 ∷ []) node).user_online_ip
          (user_tag "n" "ann")
        ≡ (if is_listed "ann" (ann_16 ∷ bob_0 ∷ [])
            then none
            else get node.user_online_ip (user_tag "n" "ann")))
update_user-clears_example = update_user-clears "n" "ann" (ann_32 ∷ []) (ann_16 ∷ bob_0 ∷ []) node

get_online_device-drains_example :
    ((get_online_device node).1 ≡ all_entries node.user_online_ip)
    × (get (get_online_device node).0.user_online_ip ann_key ≡ none)
get_online_device-drains_example = get_online_device-drains node ann_key

get_online_device-recent_example :
    get (get_online_device node).0.old_user_online home
    ≡ last_uid home (get_online_device node).1 none
get_online_device-recent_example = get_online_device-recent node home
