-- ===== src/Sing/Inbound.antt =====
-- core/sing/node.go: the options of a node's inbound, `getInboundOptions`. The records hold the
-- fields of sing-box's option types that the source sets.
pub mod Transport
pub mod Tls
pub mod Build
pub mod Secure
use v2b_x_patched_by_haman.Prelude.{ℕ, ℤ, ◌%◌, ◌^◌, bits64, String, Bool, Option, List}
use v2b_x_patched_by_haman.Dict.{Dict}

-- An error, or one of the two panics.
pub data InboundError : Type 0 where
  no_cert_config incomplete_certificate no_certificate no_ech_key : InboundError
  bad_network_settings bad_request bad_path bad_host : InboundError
  nil_dereference index_out_of_range : InboundError

-- The conversion of an int to uint16 and to uint32.
abbrev pub u16 : ℤ → ℕ
u16 n = bits64 n % 2 ^ 16

abbrev pub u32 : ℤ → ℕ
u32 n = bits64 n % 2 ^ 32

pub record ListenOptions : Type 0 where
  pub listen_port : ℕ
  pub tcp_fast_open : Bool

pub record ServerOptions : Type 0 where
  pub server : String
  pub server_port : ℕ

pub record RealityOptions : Type 0 where
  pub short_id : List String
  pub private_key : String
  pub handshake : ServerOptions
  pub max_time_difference : ℤ

pub record EchOptions : Type 0 where
  pub key : List String
  pub key_path : String

pub record TlsOptions : Type 0 where
  pub enabled : Bool
  pub server_name : String
  pub alpn : List String
  pub certificate : List String
  pub certificate_path : String
  pub key : List String
  pub key_path : String
  pub ech : Option EchOptions
  pub reality : Option RealityOptions

-- The options of a transport that are set beside its type.
pub data TransportDetails : Type 0 where
  no_details quic : TransportDetails
  http : List String → String → String → TransportDetails
  websocket : String → ℕ → Dict String String → TransportDetails
  grpc : String → TransportDetails
  http_upgrade : String → String → TransportDetails

pub record TransportOptions : Type 0 where
  pub kind : String
  pub details : TransportDetails

-- The configuration records of node.go; a `json.RawMessage` is its text.
pub record HttpNetworkConfig : Type 0 where
  pub header_type : String
  pub request : Option String

pub record HttpRequest : Type 0 where
  pub method : String
  pub path : List String
  pub host : List String

pub record WsNetworkConfig : Type 0 where
  pub path : String
  pub headers : Dict String String

pub record GrpcNetworkConfig : Type 0 where
  pub service_name : String

pub record HttpupgradeNetworkConfig : Type 0 where
  pub path : String
  pub host : String

pub record H2NetworkConfig : Type 0 where
  pub host : String
  pub path : String

-- `json.Unmarshal` into each of them, `url.Parse` (the path and the query's "ed"), `strconv.Atoi`
-- (the value, and whether there is no error), `time.ParseDuration`, the i-th `rand.Read` of a call
-- (from 0), into n bytes, and the two base64 encodings.
pub record Decoding : Type 0 where
  pub http_network : String → Option HttpNetworkConfig
  pub http_request : String → Option HttpRequest
  pub ws_network : String → Option WsNetworkConfig
  pub grpc_network : String → Option GrpcNetworkConfig
  pub http_upgrade_network : String → Option HttpupgradeNetworkConfig
  pub h2_network : String → Option H2NetworkConfig
  pub one_host : String → Option String
  pub many_hosts : String → Option (List String)
  pub parse_url : String → Option (String × String)
  pub atoi : String → ℤ × Bool
  pub parse_duration : String → ℤ
  pub random_bytes : ℕ → ℕ → String
  pub base64_std : String → String
  pub base64_raw_url : String → String

pub record Hysteria2Obfs : Type 0 where
  pub kind : String
  pub password : String

-- What the options of one type of inbound have beside the common ones.
pub data Extra : Type 0 where
  plain : Extra
  shadowsocks : String → String → List String → Extra
  trojan : Option ServerOptions → Option (Dict String ServerOptions) → Extra
  naive : String → String → Extra
  tuic : String → Bool → Extra
  any_tls : List String → Extra
  hysteria : ℤ → ℤ → String → Extra
  hysteria2 : ℤ → ℤ → Bool → Option Hysteria2Obfs → Extra

pub record MultiplexOptions : Type 0 where
  pub enabled : Bool
  pub padding : Bool
  pub brutal_enabled : Bool
  pub brutal_up_mbps : ℤ
  pub brutal_down_mbps : ℤ

-- `kind` is empty for a node of an unknown type, as the code leaves it.
pub record Inbound : Type 0 where
  pub tag : String
  pub kind : String
  pub listen : ListenOptions
  pub tls : Option TlsOptions
  pub transport : Option TransportOptions
  pub multiplex : Option MultiplexOptions
  pub extra : Extra
