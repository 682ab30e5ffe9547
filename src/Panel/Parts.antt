-- ===== src/Panel/Parts.antt =====
-- api/panel/node.go: the parts of a node by its type, as `decodeNodeInfoBody` sets them, and `ECH`.
use v2b_x_patched_by_haman.Prelude.{
  ℤ, pos, String, ◌||◌, Option, none, some, [], ◌==◌, string_eq, int_eq, if◌then◌else◌,
}
use v2b_x_patched_by_haman.Panel.Types.{
  security_none, security_tls, security_reality, TlsSettings, EchSettings, CommonNode, VAllssNode,
  ShadowsocksNode, TrojanNode, TuicNode, AnyTlsNode, NaiveNode, HysteriaNode, Hysteria2Node,
  NodeInfo,
}
use v2b_x_patched_by_haman.Panel.Route.{cleared}

abbrev pub or_back : Option TlsSettings → TlsSettings → TlsSettings
or_back none t = t
or_back (some back) t = back

abbrev pub or_text : String → String → String
or_text back s = if back == "" then s else back

abbrev ech_of : {Part : Type 0} → (Part → TlsSettings) → Option Part → Option EchSettings
ech_of f none = none
ech_of f (some part) = (f part).ech

module _ {Float : Type 0} where
  unfoldable pub new_node_info : ℤ → NodeInfo Float
  new_node_info id = record {
    id = id;
    kind = "";
    security = pos 0;
    push_interval = pos 0;
    pull_interval = pos 0;
    raw_dns = record { dns_map = []; dns_json = "" };
    rules = record { regexp = []; protocol = [] };
    vallss = none;
    shadowsocks = none;
    trojan = none;
    tuic = none;
    any_tls = none;
    naive = none;
    hysteria = none;
    hysteria2 = none;
    common = none;
  }

  -- Each part, with the node's security and the part's common settings. `finalizeNodeInfo` clears
  -- these through a pointer into the part, so the part has them cleared.
  unfoldable pub with_vallss : NodeInfo Float → VAllssNode Float → NodeInfo Float × CommonNode Float
  with_vallss node rsp = (
    record node {
      vallss = some (record rsp {
        common = cleared rsp.common;
        network_settings = or_text rsp.network_settings_back rsp.network_settings;
        network_settings_back = "";
        tls_settings = or_back rsp.tls_settings_back rsp.tls_settings;
        tls_settings_back = none;
      });
      security = rsp.tls;
    },
    rsp.common,
  )

  unfoldable pub with_shadowsocks :
      NodeInfo Float → ShadowsocksNode Float → NodeInfo Float × CommonNode Float
  with_shadowsocks node rsp = (
    record node {
      shadowsocks = some (record rsp { common = cleared rsp.common });
      security = security_none;
    },
    rsp.common,
  )

  unfoldable pub with_trojan : NodeInfo Float → TrojanNode Float → NodeInfo Float × CommonNode Float
  with_trojan node rsp = (
    record node {
      trojan = some (record rsp {
        common = cleared rsp.common;
        network_settings = or_text rsp.network_settings_back rsp.network_settings;
        network_settings_back = "";
        tls_settings = or_back rsp.tls_settings_back rsp.tls_settings;
        tls_settings_back = none;
      });
      security = if rsp.tls == security_reality then security_reality else security_tls;
    },
    rsp.common,
  )

  unfoldable pub with_tuic : NodeInfo Float → TuicNode Float → NodeInfo Float × CommonNode Float
  with_tuic node rsp = (
    record node {
      tuic = some (record rsp { common = cleared rsp.common });
      security = security_tls;
    },
    rsp.common,
  )

  unfoldable pub with_any_tls :
      NodeInfo Float → AnyTlsNode Float → NodeInfo Float × CommonNode Float
  with_any_tls node rsp = (
    record node {
      any_tls = some (record rsp { common = cleared rsp.common });
      security = security_tls;
    },
    rsp.common,
  )

  unfoldable pub with_hysteria :
      NodeInfo Float → HysteriaNode Float → NodeInfo Float × CommonNode Float
  with_hysteria node rsp = (
    record node {
      hysteria = some (record rsp { common = cleared rsp.common });
      security = security_tls;
    },
    rsp.common,
  )

  unfoldable pub with_hysteria2 :
      NodeInfo Float → Hysteria2Node Float → NodeInfo Float × CommonNode Float
  with_hysteria2 node rsp = (
    record node {
      hysteria2 = some (record rsp { common = cleared rsp.common });
      security = security_tls;
    },
    rsp.common,
  )

  unfoldable pub with_naive : NodeInfo Float → NaiveNode Float → NodeInfo Float × CommonNode Float
  with_naive node rsp = (
    record node {
      naive = some (record rsp {
        common = cleared rsp.common;
        tls_settings = or_back rsp.tls_settings_back rsp.tls_settings;
        tls_settings_back = none;
      });
      security = rsp.tls;
    },
    rsp.common,
  )

  unfoldable pub ech : NodeInfo Float → Option EchSettings
  ech n =
      if n.kind == "vmess" || n.kind == "vless"
      then ech_of (λ (p : VAllssNode Float). p.tls_settings) n.vallss
      else if n.kind == "trojan"
      then ech_of (λ (p : TrojanNode Float). p.tls_settings) n.trojan
      else if n.kind == "naive"
      then ech_of (λ (p : NaiveNode Float). p.tls_settings) n.naive
      else if n.kind == "tuic"
      then ech_of (λ (p : TuicNode Float). p.tls_settings) n.tuic
      else if n.kind == "anytls"
      then ech_of (λ (p : AnyTlsNode Float). p.tls_settings) n.any_tls
      else if n.kind == "hysteria"
      then ech_of (λ (p : HysteriaNode Float). p.tls_settings) n.hysteria
      else if n.kind == "hysteria2"
      then ech_of (λ (p : Hysteria2Node Float). p.tls_settings) n.hysteria2
      else none
