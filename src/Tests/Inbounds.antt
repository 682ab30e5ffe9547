-- ===== src/Tests/Inbounds.antt =====
-- core/sing on a VLESS node with a certificate in two files.
use v2b_x_patched_by_haman.Prelude.{
  ℕ, pos, String, ◌≡◌, refl, subst, arith, eq_iff, true, false, none, some, [], ◌∷◌, string_eq,
  int_eq, ok,
}
use v2b_x_patched_by_haman.Dict.{Dict, get}
use v2b_x_patched_by_haman.Itoa.{itoa}
use v2b_x_patched_by_haman.Conf.{CertConfig, zero_cert_config, Options, default_options}
use v2b_x_patched_by_haman.Panel.{UserInfo}
use v2b_x_patched_by_haman.Panel.Types.{NodeInfo}
use v2b_x_patched_by_haman.Panel.Parts.{ech, with_vallss, new_node_info}
use v2b_x_patched_by_haman.Limiter.State.Users.{last_user, is_listed}
use v2b_x_patched_by_haman.Sing.Inbound.{Inbound, Decoding, plain, no_details}
use v2b_x_patched_by_haman.Sing.Inbound.Tls.{
  zero_tls, certificate_tls, security_options, add_ech, tls_options,
}
use v2b_x_patched_by_haman.Sing.Inbound.Transport.{tcp_transport, v2ray_transport}
use v2b_x_patched_by_haman.Sing.Inbound.Build.{multiplex_options, by_type, get_inbound_options}
use v2b_x_patched_by_haman.Sing.Inbound.Secure.{IsServed, get_inbound_options-IsServed}
use v2b_x_patched_by_haman.Sing.Instance.{BoxApi, Instance, add_users, del_users}
use v2b_x_patched_by_haman.Sing.Instance.Users.{KeepsInbound, id_after, del_users-add_users}
use v2b_x_patched_by_haman.Node.Cert.{
  CertEnv, with_mode, with_domain, ensure_machine_cert_paths, normalize_cert_paths, obtain_cert,
  make_cert, resolve_cert_path, part_name, request_cert,
}
use v2b_x_patched_by_haman.Node.Cert.Usable.{TakesCert, request_cert-usable}
use v2b_x_patched_by_haman.Tests.Panel.{vless_node}

-- Nothing is decoded, and no text is a number.
abbrev decoding : Decoding
decoding = record {
  http_network = λ s. none;
  http_request = λ s. none;
  ws_network = λ s. none;
  grpc_network = λ s. none;
  http_upgrade_network = λ s. none;
  h2_network = λ s. none;
  one_host = λ s. none;
  many_hosts = λ s. none;
  parse_url = λ s. none;
  atoi = λ s. (pos 0, false);
  parse_duration = λ s. pos 0;
  random_bytes = λ i n. "random";
  base64_std = λ s. s;
  base64_raw_url = λ s. s;
}

abbrev two_files : CertConfig
two_files = record zero_cert_config {
  cert_mode = "file";
  cert_file = "/a.pem";
  key_file = "/a.key";
}

abbrev options : Options
options = record default_options { cert_config = some two_files }

abbrev tls_node : NodeInfo ℕ
tls_node = vless_node (pos 1)

abbrev inbound : Inbound
inbound = record {
  tag = "n";
  kind = "vless";
  listen = record { listen_port = 443; tcp_fast_open = false };
  tls = some (record zero_tls { enabled = true; certificate_path = "/a.pem"; key_path = "/a.key" });
  transport = some (record { kind = ""; details = no_details });
  multiplex = multiplex_options options.sing_options.multiplex;
  extra = plain;
}

inbound_runs : get_inbound_options decoding "n" tls_node options ≡ ok inbound
unfolding get_inbound_options tls_options security_options with_vallss certificate_tls add_ech ech
    by_type v2ray_transport tcp_transport
inbound_runs = refl

get_inbound_options-IsServed_example : IsServed decoding tls_node "n" inbound
unfolding with_vallss new_node_info
get_inbound_options-IsServed_example =
    get_inbound_options-IsServed decoding tls_node "n" options inbound refl refl inbound_runs

-- A certificate that is signed here, for the server name of the node.
abbrev cert_env : CertEnv
cert_env = record {
  replace = λ pairs s. s;
  exists = λ path. false;
  create_cert = λ c. false;
  self_sign = λ domain cert key. true;
}

abbrev signed : CertConfig
signed = record zero_cert_config {
  cert_mode = "self";
  cert_domain = "sni.example";
  cert_file = "/etc/V2bX/cert/machine-3/node-5.pem";
  key_file = "/etc/V2bX/cert/machine-3/node-5.key";
}

request_runs : request_cert cert_env (pos 3) (pos 5) tls_node zero_cert_config ≡ (signed, ok tt)
unfolding request_cert normalize_cert_paths resolve_cert_path ensure_machine_cert_paths with_mode
    with_domain part_name itoa obtain_cert make_cert with_vallss new_node_info
request_runs = refl

request_cert-usable_example : TakesCert signed
request_cert-usable_example =
    request_cert-usable cert_env (pos 3) (pos 5) tls_node zero_cert_config signed request_runs

-- The core is the list of its inbounds, and takes everything.
abbrev box_api : BoxApi (Dict String String)
box_api = record {
  inbound_of = λ box tag. get box tag;
  create = λ i box. (box, none);
  remove_inbound = λ tag box. (box, none);
  add_box_users = λ tag users box. (box, none);
  del_box_users = λ tag uuids box. (box, none);
}

abbrev core : Instance (Dict String String)
core = record {
  sing = record { counter = []; uid_map = ("bob", pos 8) ∷ []; min_traffic_bytes = [] };
  box = ("n", "vless") ∷ [];
}

abbrev ann : UserInfo
ann = record { id = pos 7; uuid = "ann"; speed_limit = pos 0; device_limit = pos 0 }

box_keeps : KeepsInbound {Float = ℕ} box_api tls_node "n" (ann ∷ [])
box_keeps users box = refl

ann_fresh : (uuid : String) → is_listed uuid (ann ∷ []) ≡ true → get core.sing.uid_map uuid ≡ none
unfolding get
ann_fresh uuid h =
    subst (λ u. get core.sing.uid_map u ≡ none) ((eq_iff "ann" uuid).0 (ground (arith, h))) refl

del_users-add_users_example :
    let b = (add_users box_api (λ s. s) "n" tls_node (ann ∷ []) core).0 in
    (get b.sing.uid_map "ann" ≡ id_after (last_user "ann" (ann ∷ [])) (get core.sing.uid_map "ann"))
    × (get (del_users box_api (ann ∷ []) "n" tls_node b).0.sing.uid_map "ann"
        ≡ get core.sing.uid_map "ann")
unfolding get with_vallss new_node_info
del_users-add_users_example =
    del_users-add_users box_api tls_node "n" (ann ∷ []) box_keeps (λ s. s) core refl ann_fresh "ann"
