-- ===== src/Panel/Types.antt =====
-- api/panel/node.go and api/panel/machine.go: the answers of the panel.
use v2b_x_patched_by_haman.Prelude.{ℕ, ℤ, pos, String, Bool, Option, List}
use v2b_x_patched_by_haman.Dict.{Dict}
use v2b_x_patched_by_haman.Conf.{CertConfig, MultiplexConfig}
use v2b_x_patched_by_haman.Panel.{Rules}

-- The constants `None`, `Tls` and `Reality`.
abbrev pub security_none : ℤ
security_none = pos 0

abbrev pub security_tls : ℤ
security_tls = pos 1

abbrev pub security_reality : ℤ
security_reality = pos 2

-- A value of `interface{}`, by the cases that the code tells apart: `integer` is any of Go's
-- integer types, `floating` a float32 or float64.
mutual
  pub data Any (Float : Type 0) : Type 0 where
    nil : Any Float
    text : String → Any Float
    integer : ℤ → Any Float
    floating : Float → Any Float
    texts : List String → Any Float
    items : Anys Float → Any Float
    other : Any Float

  pub data Anys (Float : Type 0) : Type 0 where
    end : Anys Float
    next : Any Float → Anys Float → Anys Float

pub record EchSettings : Type 0 where
  pub enabled : Bool
  pub config : List String
  pub config_path : String
  pub query_server_name : String
  pub key : List String
  pub key_path : String

pub record TlsSettings : Type 0 where
  pub server_name : String
  pub allow_insecure : Bool
  pub ech : Option EchSettings
  pub dest : String
  pub server_port : String
  pub short_id : String
  pub private_key : String
  pub mldsa65_seed : String
  pub xver : ℕ

pub record EncSettings : Type 0 where
  pub mode : String
  pub ticket : String
  pub server_padding : String
  pub private_key : String

pub record RealityConfig : Type 0 where
  pub xver : ℕ
  pub min_client_ver : String
  pub max_client_ver : String
  pub max_time_diff : String

pub record NodeResponseMeta : Type 0 where
  pub protocol : String
  pub version : ℤ

-- An entry of `DNSMap`.
pub record DnsServer : Type 0 where
  pub address : String
  pub domains : List String

pub record RawDns : Type 0 where
  pub dns_map : Dict String DnsServer
  pub dns_json : String

pub record MachineNode : Type 0 where
  pub id : ℤ
  pub kind : String
  pub name : String

module _ (Float : Type 0) where
  pub record Route : Type 0 where
    pub id : ℤ
    pub match : Any Float
    pub action : String
    pub action_value : String

  pub record BaseConfig : Type 0 where
    pub push_interval : Any Float
    pub pull_interval : Any Float

  pub record CommonNode : Type 0 where
    pub protocol : String
    pub listen_ip : String
    pub host : String
    pub server_port : ℤ
    pub server_name : String
    pub routes : List Route
    pub base_config : Option BaseConfig
    pub cert_config : Option CertConfig

  -- A `json.RawMessage` is its text.
  pub record VAllssNode : Type 0 where
    pub common : CommonNode
    pub tls : ℤ
    pub tls_settings : TlsSettings
    pub tls_settings_back : Option TlsSettings
    pub network : String
    pub network_settings : String
    pub network_settings_back : String
    pub encryption : String
    pub encryption_settings : EncSettings
    pub server_name : String
    pub multiplex : Option MultiplexConfig
    pub flow : String
    pub reality_config : RealityConfig

  pub record ShadowsocksNode : Type 0 where
    pub common : CommonNode
    pub cipher : String
    pub server_key : String

  pub record TrojanNode : Type 0 where
    pub common : CommonNode
    pub tls : ℤ
    pub tls_settings : TlsSettings
    pub tls_settings_back : Option TlsSettings
    pub network : String
    pub network_settings : String
    pub network_settings_back : String
    pub multiplex : Option MultiplexConfig

  pub record TuicNode : Type 0 where
    pub common : CommonNode
    pub tls_settings : TlsSettings
    pub congestion_control : String
    pub zero_rtt_handshake : Bool

  pub record AnyTlsNode : Type 0 where
    pub common : CommonNode
    pub tls_settings : TlsSettings
    pub padding_scheme : List String

  pub record NaiveNode : Type 0 where
    pub common : CommonNode
    pub tls : ℤ
    pub tls_settings : TlsSettings
    pub tls_settings_back : Option TlsSettings

  pub record HysteriaNode : Type 0 where
    pub common : CommonNode
    pub tls_settings : TlsSettings
    pub up_mbps : ℤ
    pub down_mbps : ℤ
    pub obfs : String

  pub record Hysteria2Node : Type 0 where
    pub common : CommonNode
    pub tls_settings : TlsSettings
    pub ignore_client_bandwidth : Bool
    pub up_mbps : ℤ
    pub down_mbps : ℤ
    pub obfs_type : String
    pub obfs_password : String

  pub record NodeInfo : Type 0 where
    pub id : ℤ
    pub kind : String
    pub security : ℤ
    pub push_interval : ℤ
    pub pull_interval : ℤ
    pub raw_dns : RawDns
    pub rules : Rules
    pub vallss : Option VAllssNode
    pub shadowsocks : Option ShadowsocksNode
    pub trojan : Option TrojanNode
    pub tuic : Option TuicNode
    pub any_tls : Option AnyTlsNode
    pub naive : Option NaiveNode
    pub hysteria : Option HysteriaNode
    pub hysteria2 : Option Hysteria2Node
    pub common : Option CommonNode

  pub record MachineNodesResponse : Type 0 where
    pub nodes : List MachineNode
    pub base_config : Option BaseConfig
