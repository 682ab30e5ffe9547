-- ===== src/Limiter/State.antt =====
-- limiter/limiter.go and limiter/dynamic.go: the state of a node's limiter, and the methods that
-- change its users. Each method is a function from the state to the state after the call.
pub mod Speed
pub mod Users
use v2b_x_patched_by_haman.Prelude.{
  ℕ, zero, suc, ◌^◌, ℤ, pos, ltb_ℤ, leb_ℤ, ◌+ℤ◌, ◌*ℤ◌, quot_ℤ, floor_ℤ, wrap64, String, Bool, true,
  false, not, ◌&&◌, ◌||◌, Option, none, some, List, [], ◌∷◌, any, ◌==◌, int_eq, string_eq,
  if◌then◌else◌,
}
use v2b_x_patched_by_haman.Dict.{Dict, get, put, remove}
use v2b_x_patched_by_haman.Format.{user_tag, trim_prefix}
use v2b_x_patched_by_haman.Panel.{UserInfo, OnlineUser, Rules}

pub record UserLimitInfo : Type 0 where
  pub uid : ℤ
  pub speed_limit : ℤ
  pub device_limit : ℤ
  pub dynamic_speed_limit : ℤ
  pub expire_time : ℤ
  pub over_limit : Bool

-- `Regex` is `regexp.Regexp`, `Bucket` is `ratelimit.Bucket`.
pub record Limiter (Regex Bucket : Type 0) : Type 0 where
  pub domain_rules : List Regex
  pub protocol_rules : List String
  pub speed_limit : ℤ
  pub user_online_ip : Dict String (Dict String ℤ)
  pub old_user_online : Dict String ℤ
  pub uuid_to_uid : Dict String ℤ
  pub user_limit_info : Dict String UserLimitInfo
  pub speed_limiter : Dict String Bucket
  pub alive_list : Dict ℤ ℤ

abbrev pub zero_info : UserLimitInfo
zero_info = record {
  uid = pos 0;
  speed_limit = pos 0;
  device_limit = pos 0;
  dynamic_speed_limit = pos 0;
  expire_time = pos 0;
  over_limit = false;
}

abbrev pub or_zero : ℤ → ℤ
or_zero n = if n == pos 0 then pos 0 else n

-- The entry of a user of the panel's list.
unfoldable pub new_info : UserInfo → UserLimitInfo
new_info u = record zero_info {
  uid = u.id;
  speed_limit = or_zero u.speed_limit;
  device_limit = or_zero u.device_limit;
}

-- The minimum of two limits, where 0 stands for none.
unfoldable pub determine_speed_limit : ℤ → ℤ → ℤ
determine_speed_limit limit1 limit2 =
    if limit1 == pos 0 || limit2 == pos 0
    then (if ltb_ℤ limit2 limit1 then limit1 else if ltb_ℤ limit1 limit2 then limit2 else pos 0)
    else if ltb_ℤ limit2 limit1
    then limit2
    else if ltb_ℤ limit1 limit2
    then limit1
    else limit1

-- `Time.Unix`: seconds of a time in nanoseconds.
abbrev pub unix : ℤ → ℤ
unix t = floor_ℤ t 1_000_000_000

-- `Time.Add(time.Duration(n) * time.Second)`.
abbrev pub add_seconds : ℤ → ℤ → ℤ
add_seconds t n = t +ℤ wrap64 (n *ℤ pos 1_000_000_000)

module _ {Regex Bucket : Type 0} where
  -- The loops over the users of a new limiter and over the added users of an old one.
  unfoldable pub add_user : String → UserInfo → Limiter Regex Bucket → Limiter Regex Bucket
  unfolding new_info
  add_user tag u l = record l {
    uuid_to_uid = put l.uuid_to_uid u.uuid u.id;
    user_limit_info = put l.user_limit_info (user_tag tag u.uuid) (new_info u);
  }

  unfoldable pub add_users : String → List UserInfo → Limiter Regex Bucket → Limiter Regex Bucket
  add_users tag [] l = l
  add_users tag (u ∷ us) l = add_users tag us (add_user tag u l)

  unfoldable pub add_limiter : String → ℤ → List UserInfo → Dict ℤ ℤ → Limiter Regex Bucket
  add_limiter tag limit users alive = add_users tag users (record {
    domain_rules = [];
    protocol_rules = [];
    speed_limit = limit;
    user_online_ip = [];
    old_user_online = [];
    uuid_to_uid = [];
    user_limit_info = [];
    speed_limiter = [];
    alive_list = alive;
  })

  -- The loop over the deleted users.
  unfoldable pub delete_user : String → UserInfo → Limiter Regex Bucket → Limiter Regex Bucket
  delete_user tag u l = record l {
    user_limit_info = remove l.user_limit_info (user_tag tag u.uuid);
    user_online_ip = remove l.user_online_ip (user_tag tag u.uuid);
    speed_limiter = remove l.speed_limiter (user_tag tag u.uuid);
    uuid_to_uid = remove l.uuid_to_uid u.uuid;
    alive_list = remove l.alive_list u.id;
  }

  unfoldable pub delete_users : String → List UserInfo → Limiter Regex Bucket → Limiter Regex Bucket
  delete_users tag [] l = l
  delete_users tag (u ∷ us) l = delete_users tag us (delete_user tag u l)

  unfoldable pub update_user :
      String → List UserInfo → List UserInfo → Limiter Regex Bucket → Limiter Regex Bucket
  update_user tag added deleted l = add_users tag added (delete_users tag deleted l)

  -- `none` is the error "not found".
  unfoldable pub update_dynamic_speed_limit :
      String → String → ℤ → ℤ → Limiter Regex Bucket → Option (Limiter Regex Bucket)
  update_dynamic_speed_limit tag uuid limit expire l =
      elim (get l.user_limit_info (user_tag tag uuid)) [
        | none ↦ none
        | some info ↦ some (record l {
          user_limit_info =
              put l.user_limit_info (user_tag tag uuid)
                (record info { dynamic_speed_limit = limit; expire_time = unix expire });
        })
      ]

  unfoldable pub add_dynamic_speed_limit :
      ℤ → String → UserInfo → ℤ → ℤ → Limiter Regex Bucket → Limiter Regex Bucket
  add_dynamic_speed_limit now tag u limit expire l = record l {
    user_limit_info = put l.user_limit_info (user_tag tag u.uuid) (record zero_info {
      dynamic_speed_limit = limit;
      expire_time = unix (add_seconds now expire);
    });
  }
