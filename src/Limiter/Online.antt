-- ===== src/Limiter/Online.antt =====
-- `GetOnlineDevice` of limiter/limiter.go: the addresses that were online since the last report.
pub mod Report
pub mod Readmit
use v2b_x_patched_by_haman.Prelude.{ℤ, String, List, [], ◌∷◌, ◌++◌, string_eq}
use v2b_x_patched_by_haman.Dict.{Dict, put, remove}
use v2b_x_patched_by_haman.Panel.{OnlineUser}
use v2b_x_patched_by_haman.Limiter.State.{Limiter}

module _ {Regex Bucket : Type 0} where
  -- The inner loop, over the addresses of one user.
  unfoldable pub report_ips :
      Dict String ℤ
      → Limiter Regex Bucket × List OnlineUser
      → Limiter Regex Bucket × List OnlineUser
  report_ips [] s = s
  report_ips ((ip, uid) ∷ ips) (l, online) = report_ips ips (
    record l { old_user_online = put l.old_user_online ip uid },
    online ++ record { uid = uid; ip = ip } ∷ [],
  )

  -- The outer loop, over the users that were online when it began.
  unfoldable pub report_users :
      Dict String (Dict String ℤ)
      → Limiter Regex Bucket × List OnlineUser
      → Limiter Regex Bucket × List OnlineUser
  unfolding report_ips
  report_users [] s = s
  report_users ((taguuid, ips) ∷ users) s =
      let (l, online) = report_ips ips s in
      report_users users (record l { user_online_ip = remove l.user_online_ip taguuid }, online)

  unfoldable pub get_online_device : Limiter Regex Bucket → Limiter Regex Bucket × List OnlineUser
  unfolding report_users
  get_online_device l = report_users l.user_online_ip (record l { old_user_online = [] }, [])
