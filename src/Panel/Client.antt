-- ===== src/Panel/Client.antt =====
-- api/panel/panel.go, user.go, machine.go, utils.go: the client of the panel. A request is its reply:
-- what is sent is an argument of the call or the client's query parameters.
pub mod Remember
pub mod Supported
use v2b_x_patched_by_haman.Prelude.{
  ℕ, ℤ, pos, ltb_ℤ, leb_ℤ, String, Bool, true, false, ◌||◌, ◌&&◌, not, any, Option, none, some,
  List, [], ◌∷◌, ◌==◌, string_eq, int_eq, Result, ok, err, ◌>>=◌, or_fail, if◌then◌else◌,
}
use v2b_x_patched_by_haman.Dict.{Dict, get, put}
use v2b_x_patched_by_haman.Itoa.{itoa}
use v2b_x_patched_by_haman.Text.{trim_space, to_lower}
use v2b_x_patched_by_haman.Conf.{ApiConfig}
use v2b_x_patched_by_haman.Panel.{UserInfo, UserTraffic}
use v2b_x_patched_by_haman.Panel.Types.{NodeInfo, MachineNodesResponse}
use v2b_x_patched_by_haman.Panel.Route.{interval_to_time}
use v2b_x_patched_by_haman.Panel.Decode.{Decoders, DecodeError, decode_node_info}

-- `query_params` are those of the resty client. `UserList` is never read.
pub record Client : Type 0 where
  pub api_host : String
  pub api_send_ip : String
  pub token : String
  pub machine_id : ℤ
  pub node_type : String
  pub node_id : ℤ
  pub node_etag : String
  pub user_etag : String
  pub response_body_hash : String
  pub query_params : Dict String String

pub record Response (Body : Type 0) : Type 0 where
  pub status : ℤ
  pub body : Body
  pub etag : String

-- What a request comes back with: an error, no response, or a response.
pub data Reply (Body : Type 0) : Type 0 where
  failed empty : Reply Body
  answered : Response Body → Reply Body

pub data ClientError : Type 0 where
  request_failed empty_response undecodable no_machine_id : ClientError
  bad_status : ℤ → ClientError
  bad_node : DecodeError → ClientError
  unsupported_node_type : String → ClientError

abbrev pub with_node_id : ℤ → String → Dict String String → Dict String String
with_node_id id kind q =
    if ltb_ℤ (pos 0) id
    then (let q' = put q "node_id" (itoa id) in if kind == "" then q' else put q' "node_type" kind)
    else q

-- `SetQueryParams` sets each parameter of a map and keeps the others.
unfoldable pub set_query_params : String → Client → Client
set_query_params kind c = record c {
  query_params =
      with_node_id c.node_id kind
        (put (put c.query_params "machine_id" (itoa c.machine_id)) "token" c.token);
}

abbrev pub supported_types : List String
supported_types =
    "v2node" ∷ "vmess" ∷ "trojan" ∷ "shadowsocks" ∷ "naive" ∷ "hysteria" ∷ "hysteria2" ∷ "tuic"
    ∷ "anytls" ∷ "vless" ∷ []

-- The `switch` of New; `none` is its default case.
unfoldable pub accepted_type : String → Option String
accepted_type kind =
    if kind == "v2ray"
    then some "vmess"
    else if any (λ k. kind == k) supported_types
    then some kind
    else none

abbrev pub client_of : ApiConfig → String → Client
client_of c kind = record {
  api_host = c.api_host;
  api_send_ip = c.api_send_ip;
  token = c.key;
  machine_id = c.machine_id;
  node_type = kind;
  node_id = c.node_id;
  node_etag = "";
  user_etag = "";
  response_body_hash = "";
  query_params = [];
}

unfoldable pub new_client : ApiConfig → Result ClientError Client
new_client c = do
  kind ←
      or_fail (accepted_type (to_lower (trim_space c.node_type)))
        (unsupported_node_type c.node_type)
  (if leb_ℤ c.machine_id (pos 0)
      then err no_machine_id
      else ok (set_query_params kind (client_of c kind)))

module _ {Body : Type 0} where
  unfoldable pub check_response : Reply Body → Result ClientError (Response Body)
  check_response failed = err request_failed
  check_response empty = err empty_response
  check_response (answered r) = if leb_ℤ (pos 400) r.status then err (bad_status r.status) else ok r

  -- `hash` is the hexadecimal SHA-256 of a body.
  module _ {Float : Type 0} (float_seconds : Float → ℤ) (parse_float : String → Option Float)
      (decoders : Decoders Float Body) (hash : Body → String) where
    -- The end of GetNodeInfo, after decoding.
    unfoldable pub adopt_node :
        Client
        → Result DecodeError (NodeInfo Float)
        → Client × Result ClientError (Option (NodeInfo Float))
    adopt_node c (err e) = (c, err (bad_node e))
    adopt_node c (ok node) = (
      if c.node_type == node.kind
          then c
          else set_query_params node.kind (record c { node_type = node.kind }),
      ok (some node),
    )

    -- `ok none` is the result nil, nil: the node has not changed.
    unfoldable pub read_node_info :
        Client → Response Body → Client × Result ClientError (Option (NodeInfo Float))
    read_node_info c r =
        if r.status == pos 304
        then (c, ok none)
        else if c.response_body_hash == hash r.body
        then (c, ok none)
        else adopt_node (record c { response_body_hash = hash r.body; node_etag = r.etag })
            (decode_node_info float_seconds parse_float decoders r.body c.node_id c.node_type)

    unfoldable pub get_node_info :
        Client → Reply Body → Client × Result ClientError (Option (NodeInfo Float))
    get_node_info c reply = elim (check_response reply) [
      | err e ↦ (c, err e)
      | ok r ↦ read_node_info c r
    ]

  abbrev pub after_decode :
      Client
      → Response Body
      → Option (Option (List UserInfo))
      → Client × Result ClientError (Option (List UserInfo))
  after_decode c r none = (c, err undecodable)
  after_decode c r (some us) = (record c { user_etag = r.etag }, ok us)

  -- `decode_users` decodes a body, in MessagePack or JSON; `none` is an error,
  -- `some none` a list that is nil.
  module _ (decode_users : Body → Option (Option (List UserInfo))) where
    unfoldable pub read_user_list :
        Client → Response Body → Client × Result ClientError (Option (List UserInfo))
    read_user_list c r =
        if r.status == pos 304
        then (c, ok none)
        else if leb_ℤ (pos 400) r.status
        then (c, err (bad_status r.status))
        else after_decode c r (decode_users r.body)

    unfoldable pub get_user_list :
        Client → Reply Body → Client × Result ClientError (Option (List UserInfo))
    get_user_list c failed = (c, err empty_response)
    get_user_list c empty = (c, err empty_response)
    get_user_list c (answered r) = read_user_list c r

  -- `decode_alive` decodes a body: `none` is an error, `some none` a body without the field.
  module _ (decode_alive : Body → Option (Option (Dict ℤ ℤ))) where
    unfoldable pub get_user_alive : Reply Body → Option (Dict ℤ ℤ)
    get_user_alive failed = some []
    get_user_alive empty = some []
    get_user_alive (answered r) =
        if leb_ℤ (pos 399) r.status
        then some []
        else elim (decode_alive r.body) [ none ↦ some [] | some alive ↦ alive ]

-- The map that ReportUserTraffic sends: upload and download by user id.
unfoldable pub traffic_data : List UserTraffic → Dict ℤ (ℤ × ℤ) → Dict ℤ (ℤ × ℤ)
traffic_data [] m = m
traffic_data (t ∷ ts) m = traffic_data ts (put m t.uid (t.upload, t.download))

module _ {Float : Type 0} (float_seconds : Float → ℤ) (parse_float : String → Option Float) where
  unfoldable pub machine_push_interval : Option (MachineNodesResponse Float) → ℤ
  machine_push_interval none = pos 0
  machine_push_interval (some r) = elim r.base_config [
    | none ↦ pos 0
    | some b ↦ interval_to_time float_seconds parse_float b.push_interval
  ]

  unfoldable pub machine_pull_interval : Option (MachineNodesResponse Float) → ℤ
  machine_pull_interval none = pos 0
  machine_pull_interval (some r) = elim r.base_config [
    | none ↦ pos 0
    | some b ↦ interval_to_time float_seconds parse_float b.pull_interval
  ]

  unfoldable pub get_machine_nodes :
      {Body : Type 0}
      → (Body → Option (MachineNodesResponse Float))
      → Reply Body
      → Result ClientError (MachineNodesResponse Float)
  get_machine_nodes decode reply = do r ← check_response reply; or_fail (decode r.body) undecodable
