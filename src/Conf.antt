-- ===== src/Conf.antt =====
-- conf/: the records of the configuration, their defaults.
use v2b_x_patched_by_haman.Prelude.{ℤ, pos, String, Bool, true, false, Option, none, some, List, []}
use v2b_x_patched_by_haman.Dict.{Dict}

-- conf/cert.go
pub record CertConfig : Type 0 where
  pub cert_mode : String
  pub reject_unknown_sni : Bool
  pub cert_domain : String
  pub cert_file : String
  pub key_file : String
  pub provider : String
  pub email : String
  pub dns_env : Dict String String
  pub challenge_address : String
  pub challenge_port : String
  pub certificate : List String
  pub key : List String

-- `&conf.CertConfig{}`
abbrev pub zero_cert_config : CertConfig
zero_cert_config = record {
  cert_mode = "";
  reject_unknown_sni = false;
  cert_domain = "";
  cert_file = "";
  key_file = "";
  provider = "";
  email = "";
  dns_env = [];
  challenge_address = "";
  challenge_port = "";
  certificate = [];
  key = [];
}

abbrev pub new_cert_config : CertConfig
new_cert_config = record zero_cert_config { cert_mode = "none" }

-- conf/sing.go
pub record BrutalOptions : Type 0 where
  pub enabled : Bool
  pub up_mbps : ℤ
  pub down_mbps : ℤ

pub record MultiplexConfig : Type 0 where
  pub enabled : Bool
  pub padding : Bool
  pub brutal : BrutalOptions

pub record FallBack : Type 0 where
  pub server : String
  pub server_port : String

pub record FallBackConfigForSing : Type 0 where
  pub fall_back : FallBack
  pub fall_back_for_alpn : Dict String FallBack

-- `DomainStrategy` is a type of sing-box, and nothing reads the field.
pub record SingOptions : Type 0 where
  pub tcp_fast_open : Bool
  pub sniff_enabled : Bool
  pub sniff_override_destination : Bool
  pub enable_dns : Bool
  pub fall_back_configs : Option FallBackConfigForSing
  pub multiplex : Option MultiplexConfig

abbrev pub new_sing_options : SingOptions
new_sing_options = record {
  tcp_fast_open = false;
  sniff_enabled = true;
  sniff_override_destination = true;
  enable_dns = false;
  fall_back_configs =
      some
        (record { fall_back = record { server = ""; server_port = "" }; fall_back_for_alpn = [] });
  multiplex = some (record {
    enabled = false;
    padding = false;
    brutal = record { enabled = false; up_mbps = pos 0; down_mbps = pos 0 };
  });
}

-- conf/limit.go
pub record RecorderConfig : Type 0 where
  pub url : String
  pub token : String
  pub timeout : ℤ

pub record RedisConfig : Type 0 where
  pub address : String
  pub password : String
  pub db : ℤ
  pub expiry : ℤ

pub record IpReportConfig : Type 0 where
  pub periodic : ℤ
  pub kind : String
  pub recorder_config : Option RecorderConfig
  pub redis_config : Option RedisConfig
  pub enable_ip_sync : Bool

pub record DynamicSpeedLimitConfig : Type 0 where
  pub periodic : ℤ
  pub traffic : ℤ
  pub speed_limit : ℤ
  pub expire_time : ℤ

pub record LimitConfig : Type 0 where
  pub enable_realtime : Bool
  pub speed_limit : ℤ
  pub ip_limit : ℤ
  pub conn_limit : ℤ
  pub enable_ip_recorder : Bool
  pub ip_recorder_config : Option IpReportConfig
  pub enable_dynamic_speed_limit : Bool
  pub dynamic_speed_limit_config : Option DynamicSpeedLimitConfig

abbrev pub zero_limit_config : LimitConfig
zero_limit_config = record {
  enable_realtime = false;
  speed_limit = pos 0;
  ip_limit = pos 0;
  conn_limit = pos 0;
  enable_ip_recorder = false;
  ip_recorder_config = none;
  enable_dynamic_speed_limit = false;
  dynamic_speed_limit_config = none;
}

-- conf/node.go. `SingOptions` is never nil: `defaultOptions` and `UnmarshalJSON` set it.
pub record Options : Type 0 where
  pub name : String
  pub listen_ip : String
  pub send_ip : String
  pub device_online_min_traffic : ℤ
  pub report_min_traffic : ℤ
  pub limit_config : LimitConfig
  pub sing_options : SingOptions
  pub cert_config : Option CertConfig

abbrev pub default_options : Options
default_options = record {
  name = "";
  listen_ip = "::";
  send_ip = "0.0.0.0";
  device_online_min_traffic = pos 200;
  report_min_traffic = pos 0;
  limit_config = zero_limit_config;
  sing_options = new_sing_options;
  cert_config = some new_cert_config;
}

pub record ApiConfig : Type 0 where
  pub api_host : String
  pub api_send_ip : String
  pub machine_id : ℤ
  pub node_id : ℤ
  pub key : String
  pub node_type : String
  pub timeout : ℤ
  pub rule_list_path : String

pub record MachineConfig : Type 0 where
  pub api_config : ApiConfig
  pub options : Options

unfoldable pub runtime_api_config : MachineConfig → ℤ → ApiConfig
runtime_api_config n node_id = record {
  api_host = n.api_config.api_host;
  api_send_ip = n.api_config.api_send_ip;
  machine_id = n.api_config.machine_id;
  node_id = node_id;
  key = n.api_config.key;
  node_type = "v2node";
  timeout = n.api_config.timeout;
  rule_list_path = n.api_config.rule_list_path;
}
