-- ===== src/Sing/Instance.antt =====
-- core/sing: the operations that change the core's instance, `AddNode` and `DelNode` of node.go,
-- `AddUsers` and `DelUsers` of user.go.
pub mod Users
use v2b_x_patched_by_haman.Prelude.{
  ℕ, ℤ, pos, ◌*ℤ◌, wrap64, String, Bool, true, false, ◌||◌, Option, none, some, List, [], ◌∷◌, map,
  length, ◌==◌, string_eq, Result, ok, err, ◌>>=◌, or_fail, if◌then◌else◌,
}
use v2b_x_patched_by_haman.Text.{first}
use v2b_x_patched_by_haman.Dict.{Dict, get, put, remove}
use v2b_x_patched_by_haman.Conf.{Options}
use v2b_x_patched_by_haman.Panel.{UserInfo}
use v2b_x_patched_by_haman.Panel.Types.{VAllssNode, ShadowsocksNode, NodeInfo}
use v2b_x_patched_by_haman.Counter.{TrafficCounter, delete}
use v2b_x_patched_by_haman.Sing.{Sing, get_user_traffic_slice}
use v2b_x_patched_by_haman.Sing.Inbound.{
  Inbound, InboundError, nil_dereference, index_out_of_range, Decoding,
}
use v2b_x_patched_by_haman.Core.{CoreApi}
use v2b_x_patched_by_haman.Sing.Inbound.Build.{get_inbound_options}

-- A user as the core's inbounds take it.
pub data BoxUser : Type 0 where
  vless_user : String → String → String → BoxUser
  vmess_user shadowsocks_user trojan_user : String → String → BoxUser
  tuic_user : String → String → String → ℤ → BoxUser
  hysteria_user : String → String → BoxUser
  hysteria2_user : String → String → ℤ → BoxUser
  any_tls_user naive_user : String → String → BoxUser

-- The proxy core, sing-box: the protocol of the inbound that a tag names, and the four operations,
-- each with the error it returns.
pub record BoxApi (Box : Type 0) : Type 0 where
  pub inbound_of : Box → String → Option String
  pub create : Inbound → Box → Box × Option String
  pub remove_inbound : String → Box → Box × Option String
  pub add_box_users : String → List BoxUser → Box → Box × Option String
  pub del_box_users : String → List String → Box → Box × Option String

-- An error, or a panic: of the options, of a failed type assertion, of a nil pointer, of a slice.
pub data CoreError : Type 0 where
  options_error : InboundError → CoreError
  box_error : String → CoreError
  inbound_not_found wrong_inbound nil_node nil_deleter slice_out_of_range : CoreError

pub record Instance (Box : Type 0) : Type 0 where
  pub sing : Sing
  pub box : Box

abbrev pub with_box :
    {Box A : Type 0} → Sing → A → Box × Option String → Instance Box × Result CoreError A
with_box s a (box, none) = (record { sing = s; box = box }, ok a)
with_box s a (box, some e) = (record { sing = s; box = box }, err (box_error e))

-- `uidMap[user.Uuid] = user.Id` for each user.
unfoldable pub map_users : List UserInfo → Dict String ℤ → Dict String ℤ
map_users [] m = m
map_users (u ∷ us) m = map_users us (put m u.uuid u.id)

unfoldable pub unmap_users : List UserInfo → Dict String ℤ → Dict String ℤ
unmap_users [] m = m
unmap_users (u ∷ us) m = unmap_users us (remove m u.uuid)

-- `c.Delete(user.Uuid)` for each user, on the counter of the tag, if it is there.
unfoldable pub forget_users :
    String → List UserInfo → Dict String TrafficCounter → Dict String TrafficCounter
forget_users tag [] cs = cs
forget_users tag (u ∷ us) cs = elim (get cs tag) [
  | none ↦ forget_users tag us cs
  | some c ↦ forget_users tag us (put cs tag (delete u.uuid c))
]

abbrev pub known_type : String → Bool
known_type t =
    t == "vmess"
    || t == "vless"
    || t == "shadowsocks"
    || t == "trojan"
    || t == "tuic"
    || t == "hysteria"
    || t == "hysteria2"
    || t == "anytls"
    || t == "naive"

module _ (base64 : String → String) where
  unfoldable pub shadowsocks_password : String → String → Result CoreError String
  shadowsocks_password cipher uuid =
      if cipher == "2022-blake3-aes-128-gcm"
      then (do p ← or_fail (first 16 uuid) slice_out_of_range; ok (base64 p))
      else if cipher == "2022-blake3-aes-256-gcm"
      then (do p ← or_fail (first 32 uuid) slice_out_of_range; ok (base64 p))
      else ok uuid

  -- The user of a node of one of the known types.
  unfoldable pub box_user : {Float : Type 0} → NodeInfo Float → UserInfo → Result CoreError BoxUser
  unfolding shadowsocks_password
  box_user info u =
      if info.kind == "vless"
      then (do n ← or_fail info.vallss nil_node; ok (vless_user u.uuid n.flow u.uuid))
      else if info.kind == "vmess"
      then ok (vmess_user u.uuid u.uuid)
      else if info.kind == "shadowsocks"
      then (do
        n ← or_fail info.shadowsocks nil_node
        password ← shadowsocks_password n.cipher u.uuid
        ok (shadowsocks_user u.uuid password))
      else if info.kind == "trojan"
      then ok (trojan_user u.uuid u.uuid)
      else if info.kind == "tuic"
      then ok (tuic_user u.uuid u.uuid u.uuid u.id)
      else if info.kind == "hysteria"
      then ok (hysteria_user u.uuid u.uuid)
      else if info.kind == "hysteria2"
      then ok (hysteria2_user u.uuid u.uuid u.id)
      else if info.kind == "anytls"
      then ok (any_tls_user u.uuid u.uuid)
      else ok (naive_user u.uuid u.uuid)

  unfoldable pub box_users :
      {Float : Type 0} → NodeInfo Float → List UserInfo → Result CoreError (List BoxUser)
  box_users info [] = ok []
  box_users info (u ∷ us) = do b ← box_user info u; bs ← box_users info us; ok (b ∷ bs)

module _ {Box : Type 0} (api : BoxApi Box) where
  -- The threshold of the tag is set before the options can fail.
  unfoldable pub add_node :
      {Float : Type 0}
      → Decoding
      → String
      → NodeInfo Float
      → Options
      → Instance Box
      → Instance Box × Result {0, 0} CoreError Unit
  add_node d tag info c b =
      let least = wrap64 (c.report_min_traffic *ℤ pos 1024) in
      let s = record b.sing { min_traffic_bytes = put b.sing.min_traffic_bytes tag least } in
      elim (get_inbound_options d tag info c) [
        | err e ↦ (record b { sing = s }, err (options_error e))
        | ok inbound ↦ with_box s tt (api.create inbound b.box)
      ]

  unfoldable pub del_node : String → Instance Box → Instance Box × Result {0, 0} CoreError Unit
  del_node tag b = with_box b.sing tt (api.remove_inbound tag b.box)

  abbrev pub hand_users :
      Instance Box
      → String
      → String
      → String
      → List UserInfo
      → Result CoreError (List BoxUser)
      → Instance Box × Result CoreError ℕ
  hand_users b tag protocol kind users (err e) = (b, err e)
  hand_users b tag protocol kind users (ok bs) =
      if protocol == kind
      then with_box b.sing (length users) (api.add_box_users tag bs b.box)
      else (b, err wrong_inbound)

  -- The users of a node of an unknown type are mapped, and nothing else is done.
  abbrev pub add_found :
      {Float : Type 0}
      → (String → String)
      → String
      → NodeInfo Float
      → List UserInfo
      → Instance Box
      → Option String
      → Instance Box × Result CoreError ℕ
  add_found base64 tag info users b none = (b, err inbound_not_found)
  add_found base64 tag info users b (some protocol) =
      let b' = record b { sing = record b.sing { uid_map = map_users users b.sing.uid_map } } in
      if known_type info.kind
      then hand_users b' tag protocol info.kind users (box_users base64 info users)
      else (b', ok (length users))

  unfoldable pub add_users :
      {Float : Type 0}
      → (String → String)
      → String
      → NodeInfo Float
      → List UserInfo
      → Instance Box
      → Instance Box × Result CoreError ℕ
  unfolding map_users box_users
  add_users base64 tag info users b = add_found base64 tag info users b (api.inbound_of b.box tag)

  -- The counters and the map lose the users before the inbound is asked to. For a node of an
  -- unknown type the inbound is then nil.
  abbrev pub del_found :
      {Float : Type 0}
      → List UserInfo
      → String
      → NodeInfo Float
      → Instance Box
      → Option String
      → Instance Box × Result {0, 0} CoreError Unit
  del_found users tag info b none = (b, err inbound_not_found)
  del_found users tag info b (some protocol) =
      let s = record b.sing {
        counter = forget_users tag users b.sing.counter;
        uid_map = unmap_users users b.sing.uid_map;
      } in
      if known_type info.kind
      then (if protocol == info.kind
          then with_box s tt (api.del_box_users tag (map (λ u. u.uuid) users) b.box)
          else (b, err wrong_inbound))
      else (record b { sing = s }, err nil_deleter)

  unfoldable pub del_users :
      {Float : Type 0}
      → List UserInfo
      → String
      → NodeInfo Float
      → Instance Box
      → Instance Box × Result {0, 0} CoreError Unit
  unfolding forget_users unmap_users
  del_users users tag info b = del_found users tag info b (api.inbound_of b.box tag)

abbrev pub is_core_panic : CoreError → Bool
is_core_panic (box_error e) = false
is_core_panic inbound_not_found = false
is_core_panic (options_error nil_dereference) = true
is_core_panic (options_error index_out_of_range) = true
is_core_panic (options_error e) = false
is_core_panic _ = true

-- The core of the controllers.
abbrev pub sing_core :
    {Float Box : Type 0} → BoxApi Box → Decoding → CoreApi Float (Instance Box) CoreError
sing_core api d = record {
  add_node = add_node api d;
  del_node = del_node api;
  add_users = add_users api d.base64_std;
  del_users = del_users api;
  get_user_traffic_slice = λ tag resets b.
      let (s, traffic) = get_user_traffic_slice tag resets b.sing in
      (record b { sing = s }, traffic);
  is_panic = is_core_panic;
}
