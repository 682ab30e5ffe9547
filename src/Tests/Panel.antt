-- ===== src/Tests/Panel.antt =====
-- api/panel on a VLESS node with two routes.
use v2b_x_patched_by_haman.Prelude.{
  ℕ, ℤ, pos, String, ◌≡◌, ◌↔◌, refl, Bool, true, false, Option, none, some, [], ◌∷◌, In, ◌==◌,
  string_eq, int_eq, ok,
}
use v2b_x_patched_by_haman.Text.{trim_space, to_lower, split_comma, has_prefix, join}
use v2b_x_patched_by_haman.Format.{trim_prefix}
use v2b_x_patched_by_haman.Conf.{ApiConfig}
use v2b_x_patched_by_haman.Panel.Types.{text, TlsSettings, Route, CommonNode, VAllssNode, NodeInfo}
use v2b_x_patched_by_haman.Panel.Route.{
  non_blank, block, block_all, add_dns, parse_route_match, act, add_routes, set_intervals, cleared,
  finalize_node_info,
}
use v2b_x_patched_by_haman.Panel.Route.Blocks.{names_protocol, protocol_of, pattern_of, blocked}
use v2b_x_patched_by_haman.Panel.Route.Refused.{
  finalize_node_info-protocols, finalize_node_info-domains,
}
use v2b_x_patched_by_haman.Panel.Parts.{new_node_info, with_vallss}
use v2b_x_patched_by_haman.Panel.Decode.{
  Decoders, canonical_type, normalize_response_node_type, decode_part, decode_node_info_body,
  decode_node_info,
}
use v2b_x_patched_by_haman.Panel.Decode.Typed.{has_part, is_some, decode_node_info-has_part}
use v2b_x_patched_by_haman.Panel.Client.{
  Client, client_of, new_client, accepted_type, set_query_params,
}
use v2b_x_patched_by_haman.Panel.Client.Supported.{IsReady, new_client-IsReady}
use v2b_x_patched_by_haman.Limiter.State.{Limiter}
use v2b_x_patched_by_haman.Limiter.Rules.{
  compile_all, update_rule, check_protocol_rule, check_domain_rule,
}
use v2b_x_patched_by_haman.Tests.Limits.{node}

-- A floating number is a natural number of seconds.
abbrev pub seconds : ℕ → ℤ
seconds n = pos n

abbrev pub parse_nothing : String → Option ℕ
parse_nothing s = none

abbrev pub zero_tls_settings : TlsSettings
zero_tls_settings = record {
  server_name = "sni.example";
  allow_insecure = false;
  ech = none;
  dest = "";
  server_port = "443";
  short_id = "";
  private_key = "";
  mldsa65_seed = "";
  xver = 0;
}

abbrev pub common_part : CommonNode ℕ
common_part = record {
  protocol = "vless";
  listen_ip = "::";
  host = "node.example";
  server_port = pos 443;
  server_name = "sni.example";
  routes =
      record {
        id = pos 1;
        match = text "ads.test, protocol:quic";
        action = "block";
        action_value = "";
      }
      ∷ record { id = pos 2; match = text "main,{}"; action = "dns"; action_value = "" }
      ∷ [];
  base_config = none;
  cert_config = none;
}

abbrev pub vless_part : ℤ → VAllssNode ℕ
vless_part security = record {
  common = common_part;
  tls = security;
  tls_settings = zero_tls_settings;
  tls_settings_back = none;
  network = "tcp";
  network_settings = "";
  network_settings_back = "";
  encryption = "";
  encryption_settings = record { mode = ""; ticket = ""; server_padding = ""; private_key = "" };
  server_name = "";
  multiplex = none;
  flow = "";
  reality_config = record {
    xver = 0;
    min_client_ver = "";
    max_client_ver = "";
    max_time_diff = "";
  };
}

-- Every body is that of a VLESS node.
abbrev pub vless_decoders : ℤ → Decoders ℕ String
vless_decoders security = record {
  meta = λ b. some (record { protocol = "vless"; version = pos 0 });
  vallss = λ b. some (vless_part security);
  shadowsocks = λ b. none;
  trojan = λ b. none;
  tuic = λ b. none;
  any_tls = λ b. none;
  naive = λ b. none;
  hysteria = λ b. none;
  hysteria2 = λ b. none;
}

-- The node before its routes are read, and after.
abbrev plain_node : ℤ → NodeInfo ℕ
plain_node security =
    (with_vallss (record (new_node_info {Float = ℕ} (pos 5)) { kind = "vless" })
      (vless_part security)).0

abbrev pub vless_node : ℤ → NodeInfo ℕ
vless_node security = record (plain_node security) {
  rules = record { regexp = "ads.test" ∷ []; protocol = "quic" ∷ [] };
  raw_dns = record { dns_map = []; dns_json = "{}" };
  common = some (cleared common_part);
}

finalize_runs :
    finalize_node_info seconds parse_nothing (plain_node (pos 0)) common_part
    ≡ ok (vless_node (pos 0))
unfolding finalize_node_info add_routes parse_route_match with_vallss set_intervals new_node_info
    non_blank split_comma trim_space act add_dns block_all join block has_prefix trim_prefix
finalize_runs = refl

decode_runs :
    decode_node_info seconds parse_nothing (vless_decoders (pos 0)) "" (pos 5) ""
    ≡ ok (vless_node (pos 0))
unfolding decode_node_info normalize_response_node_type canonical_type to_lower
    decode_node_info_body decode_part finalize_node_info add_routes parse_route_match with_vallss
    set_intervals new_node_info non_blank split_comma trim_space act add_dns block_all join block
    has_prefix trim_prefix
decode_runs = refl

decode_node_info-has_part_example :
    (has_part (vless_node (pos 0)) ≡ true) × (is_some (vless_node (pos 0)).common ≡ true)
decode_node_info-has_part_example =
    decode_node_info-has_part seconds parse_nothing (vless_decoders (pos 0)) "" (pos 5) ""
      (vless_node (pos 0)) decode_runs

-- A compiled pattern is its text.
abbrev matches : String → String → Bool
matches rule destination = rule == destination

abbrev ruled : Limiter String ℤ
ruled = record node { domain_rules = "ads.test" ∷ []; protocol_rules = "quic" ∷ [] }

rules_run : update_rule some (vless_node (pos 0)).rules node ≡ some ruled
unfolding update_rule compile_all
rules_run = refl

no_rules : (plain_node (pos 0)).rules ≡ record { regexp = []; protocol = [] }
unfolding with_vallss new_node_info
no_rules = refl

finalize_node_info-protocols_example : (check_protocol_rule "quic" ruled ≡ true) ↔ (
    (v : String) × ((r : Route ℕ) × In r common_part.routes × In v (blocked r))
    × (names_protocol v ≡ true)
    × (protocol_of v ≡ "quic"))
finalize_node_info-protocols_example =
    finalize_node_info-protocols seconds parse_nothing some (plain_node (pos 0))
      (vless_node (pos 0)) common_part no_rules finalize_runs node ruled rules_run "quic"

finalize_node_info-domains_example : (check_domain_rule matches "ads.test" ruled ≡ true) ↔ (
    (v : String) × ((r : Route ℕ) × In r common_part.routes × In v (blocked r))
    × (names_protocol v ≡ false)
    × ((rule : String) × (some (pattern_of v) ≡ some rule) × (matches rule "ads.test" ≡ true)))
finalize_node_info-domains_example =
    finalize_node_info-domains seconds parse_nothing some (plain_node (pos 0)) (vless_node (pos 0))
      common_part no_rules finalize_runs node ruled rules_run matches "ads.test"

abbrev api_config : ApiConfig
api_config = record {
  api_host = "https://panel.example";
  api_send_ip = "";
  machine_id = pos 3;
  node_id = pos 5;
  key = "token";
  node_type = " V2ray";
  timeout = pos 0;
  rule_list_path = "";
}

abbrev pub client : Client
client = set_query_params "vmess" (client_of api_config "vmess")

client_runs : new_client api_config ≡ ok client
unfolding new_client accepted_type to_lower trim_space
client_runs = refl

new_client-IsReady_example : IsReady api_config client
new_client-IsReady_example = new_client-IsReady api_config client client_runs
