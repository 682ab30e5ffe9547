-- ===== src/Node/Report.antt =====
-- node/user.go: `reportUserTrafficTask`, the traffic and the online devices that a controller reports.
pub mod Alive
use v2b_x_patched_by_haman.Prelude.{
  ℤ, pos, ◌+ℤ◌, ◌*ℤ◌, wrap64, ltb_ℤ, ◌≡◌, ◌↔◌, refl, sym, ap, ◌∙◌, Bool, true, false, Bool-cases,
  Option, none, some, inl, inr, List, [], ◌∷◌, ◌++◌, any, In, here, there, In-cons, ◌==◌, int_eq,
  String, if◌then◌else◌, arith,
}
use v2b_x_patched_by_haman.Dict.{Dict, get, put}
use v2b_x_patched_by_haman.Panel.{OnlineUser, UserTraffic}
use v2b_x_patched_by_haman.Limiter.Online.{get_online_device}
use v2b_x_patched_by_haman.Core.{CoreApi}
use v2b_x_patched_by_haman.Node.Controller.{Controller, with_core}
use v2b_x_patched_by_haman.Node.Monitor.{set_limiter}

-- The upload and download together are under the threshold.
abbrev pub is_light : ℤ → UserTraffic → Bool
is_light least t = ltb_ℤ (wrap64 (t.upload +ℤ t.download)) least

-- The set `nocountUID`.
unfoldable pub nocount_uids : ℤ → List UserTraffic → List ℤ
nocount_uids least [] = []
nocount_uids least (t ∷ ts) =
    let rest = nocount_uids least ts in if is_light least t then t.uid ∷ rest else rest

-- The loop over the online devices.
unfoldable pub counted_online : List ℤ → List OnlineUser → List OnlineUser
counted_online nocount [] = []
counted_online nocount (o ∷ os) =
    let rest = counted_online nocount os in
    if any (λ uid. uid == o.uid) nocount then rest else o ∷ rest

abbrev pub or_no_ips : Option (List String) → List String
or_no_ips none = []
or_no_ips (some ips) = ips

-- The addresses by user id that `ReportNodeOnlineUsers` sends.
unfoldable pub group_ips : List OnlineUser → Dict ℤ (List String) → Dict ℤ (List String)
group_ips [] m = m
group_ips (o ∷ os) m = group_ips os (put m o.uid (or_no_ips (get m o.uid) ++ o.ip ∷ []))

-- The threshold, in bytes.
abbrev pub least_traffic : ℤ → ℤ
least_traffic kilobytes = wrap64 (kilobytes *ℤ pos 1000)

-- What the task sends: the traffic, if there is any, and the devices, if any is online.
pub record Sent : Type 0 where
  pub traffic : List UserTraffic
  pub alive : Option (Dict ℤ (List String))

abbrev pub alive_map : ℤ → List UserTraffic → List OnlineUser → Option (Dict ℤ (List String))
alive_map least ts [] = none
alive_map least ts (o ∷ os) = some (group_ips (counted_online (nocount_uids least ts) (o ∷ os)) [])

unfoldable pub report_user_traffic_task :
    {Float Regex Bucket Core Error : Type 0}
    → CoreApi Float Core Error
    → Controller Float Regex Bucket Core
    → Controller Float Regex Bucket Core × Sent
unfolding nocount_uids counted_online group_ips
report_user_traffic_task api c =
    let (w, ts) = with_core c.world (api.get_user_traffic_slice c.tag true c.world.core) in
    let (l, online) = get_online_device c.limiter in
    (
      set_limiter l (record c { world = w }),
      record {
        traffic = ts;
        alive = alive_map (least_traffic c.options.device_online_min_traffic) ts online;
      },
    )
