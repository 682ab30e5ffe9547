-- ===== src/Panel/Decode.antt =====
-- api/panel/node.go: `decodeNodeInfo`, with JSON decoding as a parameter.
pub mod Typed
use v2b_x_patched_by_haman.Prelude.{
  ℕ, ℤ, pos, String, Bool, true, false, not, ◌||◌, Option, none, some, List, [], ◌∷◌, ◌==◌,
  string_eq, int_eq, Result, ok, err, ◌>>=◌, or_fail, if◌then◌else◌,
}
use v2b_x_patched_by_haman.Text.{trim_space, to_lower}
use v2b_x_patched_by_haman.Panel.Types.{
  security_none, security_tls, security_reality, TlsSettings, EchSettings, NodeResponseMeta,
  CommonNode, VAllssNode, ShadowsocksNode, TrojanNode, TuicNode, AnyTlsNode, NaiveNode,
  HysteriaNode, Hysteria2Node, NodeInfo,
}
use v2b_x_patched_by_haman.Panel.Route.{RouteError, finalize_node_info}
use v2b_x_patched_by_haman.Panel.Parts.{
  new_node_info, with_vallss, with_shadowsocks, with_trojan, with_tuic, with_any_tls, with_hysteria,
  with_hysteria2, with_naive,
}

-- `json.Unmarshal` into each type; `none` is its error.
pub record Decoders (Float Body : Type 0) : Type 0 where
  pub meta : Body → Option NodeResponseMeta
  pub vallss : Body → Option (VAllssNode Float)
  pub shadowsocks : Body → Option (ShadowsocksNode Float)
  pub trojan : Body → Option (TrojanNode Float)
  pub tuic : Body → Option (TuicNode Float)
  pub any_tls : Body → Option (AnyTlsNode Float)
  pub naive : Body → Option (NaiveNode Float)
  pub hysteria : Body → Option (HysteriaNode Float)
  pub hysteria2 : Body → Option (Hysteria2Node Float)

pub data DecodeError : Type 0 where
  bad_metadata missing_protocol bad_params : DecodeError
  unsupported_type : String → DecodeError
  bad_route : RouteError → DecodeError

-- The type that the panel names, or the one that was asked for.
abbrev response_type : String → String → String
response_type protocol requested = if protocol == "" then requested else protocol

-- The `switch` on the type.
unfoldable pub canonical_type : String → ℤ → String
canonical_type kind version =
    if kind == "v2ray"
    then "vmess"
    else if kind == "hysteria"
    then (if version == pos 2 then "hysteria2" else kind)
    else if kind == "v2node"
    then ""
    else kind

unfoldable pub normalize_response_node_type : String → NodeResponseMeta → Result DecodeError String
unfolding canonical_type
normalize_response_node_type requested meta =
    let kind =
      canonical_type
        (response_type (to_lower (trim_space meta.protocol)) (to_lower (trim_space requested)))
        meta.version in
    if kind == "" then err missing_protocol else ok kind

module _ {Float : Type 0} where
  abbrev pub part_of :
      {Part : Type 0}
      → (NodeInfo Float → Part → NodeInfo Float × CommonNode Float)
      → NodeInfo Float
      → Option Part
      → Result DecodeError (NodeInfo Float × CommonNode Float)
  part_of f node none = err bad_params
  part_of f node (some rsp) = ok (f node rsp)

  -- The `switch` on the type of the node.
  unfoldable pub decode_part :
      {Body : Type 0}
      → Decoders Float Body
      → Body
      → NodeInfo Float
      → Result DecodeError (NodeInfo Float × CommonNode Float)
  decode_part d body node =
      if node.kind == "vmess" || node.kind == "vless"
      then part_of with_vallss node (d.vallss body)
      else if node.kind == "shadowsocks"
      then part_of with_shadowsocks node (d.shadowsocks body)
      else if node.kind == "trojan"
      then part_of with_trojan node (d.trojan body)
      else if node.kind == "tuic"
      then part_of with_tuic node (d.tuic body)
      else if node.kind == "anytls"
      then part_of with_any_tls node (d.any_tls body)
      else if node.kind == "hysteria"
      then part_of with_hysteria node (d.hysteria body)
      else if node.kind == "hysteria2"
      then part_of with_hysteria2 node (d.hysteria2 body)
      else if node.kind == "naive"
      then part_of with_naive node (d.naive body)
      else err (unsupported_type node.kind)

  abbrev pub routed : Result RouteError (NodeInfo Float) → Result DecodeError (NodeInfo Float)
  routed (ok node) = ok node
  routed (err e) = err (bad_route e)

module _ {Float Body : Type 0} where
  module _ (float_seconds : Float → ℤ) (parse_float : String → Option Float) where
    unfoldable pub decode_node_info_body :
        Decoders Float Body → Body → NodeInfo Float → Result DecodeError (NodeInfo Float)
    decode_node_info_body d body node = do
      (node', cm) ← decode_part d body node
      routed (finalize_node_info float_seconds parse_float node' cm)

    unfoldable pub decode_node_info :
        Decoders Float Body → Body → ℤ → String → Result DecodeError (NodeInfo Float)
    unfolding new_node_info
    decode_node_info d body id requested = do
      meta ← or_fail (d.meta body) bad_metadata
      kind ← normalize_response_node_type requested meta
      decode_node_info_body d body (record (new_node_info id) { kind = kind })
