-- ===== src/Tests/Nodes.antt =====
-- node/ on a controller over a core that counts its calls, and a machine over controllers that are their ids.
use v2b_x_patched_by_haman.Prelude.{
  wrap64, ◌+ℤ◌, ◌*ℤ◌, ℕ, suc, ℤ, pos, String, ◌≡◌, refl, sym, subst, true, false, none, some, [],
  ◌∷◌, List, In, In-cons, ◌↔◌, inl, inr, some_inj, ◌∙◌, if◌then◌else◌, ◌==◌, string_eq, int_eq, ok,
  err,
}
use Prim.Native.String.{count}
use v2b_x_patched_by_haman.Dict.{get, put, remove}
use v2b_x_patched_by_haman.Conf.{zero_cert_config, default_options}
use v2b_x_patched_by_haman.Panel.{UserInfo, UserTraffic}
use v2b_x_patched_by_haman.Panel.Types.{MachineNode}
use v2b_x_patched_by_haman.Panel.Client.{
  Client, Response, failed, answered, set_query_params, get_node_info, check_response,
  read_node_info, adopt_node, read_user_list, get_user_list, get_user_alive,
}
use v2b_x_patched_by_haman.Limiter.State.{Limiter, add_limiter}
use v2b_x_patched_by_haman.Task.{fresh, start_task}
use v2b_x_patched_by_haman.Panel.Decode.{
  decode_node_info, normalize_response_node_type, canonical_type, decode_node_info_body,
  decode_part,
}
use v2b_x_patched_by_haman.Text.{to_lower, trim_space, split_comma, has_prefix, join}
use v2b_x_patched_by_haman.Panel.Route.{
  finalize_node_info, add_routes, parse_route_match, set_intervals, non_blank, act, add_dns,
  block_all, block,
}
use v2b_x_patched_by_haman.Panel.Parts.{with_vallss, new_node_info}
use v2b_x_patched_by_haman.Format.{trim_prefix}
use v2b_x_patched_by_haman.Limiter.Rules.{compile_all, update_rule}
use v2b_x_patched_by_haman.Itoa.{itoa}
use v2b_x_patched_by_haman.Core.{CoreApi}
use v2b_x_patched_by_haman.Node.Cert.{
  CertEnv, self_failed, request_cert, normalize_cert_paths, ensure_machine_cert_paths, with_mode,
  with_domain, obtain_cert, make_cert, resolve_cert_path, part_name,
}
use v2b_x_patched_by_haman.Node.Controller.{
  World, Controller, Env, Replies, build_node_tag, check_cert, panel_cert_config, or_no_users,
  renew_task,
}
use v2b_x_patched_by_haman.Node.Start.{start, dynamic_task, start_with}
use v2b_x_patched_by_haman.Node.Start.InStep.{start-rounds}
use v2b_x_patched_by_haman.Node.Monitor.{rounds, reload}
use v2b_x_patched_by_haman.Node.Monitor.Knows.{Holds, IsUserList, IsInStep, DecodesLists}
use v2b_x_patched_by_haman.Node.Monitor.Lost.{HasNodeOf, IsOut, rounds-lost, reload-uncertified}
use v2b_x_patched_by_haman.Node.Report.{report_user_traffic_task}
use v2b_x_patched_by_haman.Node.Report.Alive.{
  device, ips_of, has_light_entry, report_user_traffic_task-alive,
}
use v2b_x_patched_by_haman.Limiter.Online.{get_online_device}
use v2b_x_patched_by_haman.Node.Machine.{
  NodeApi, Machine, synced, failed, start_nodes, remove_absent, close_started, sync_nodes,
}
use v2b_x_patched_by_haman.Node.Machine.Rollback.{start_nodes-get}
use v2b_x_patched_by_haman.Node.Machine.Listed.{IsEntry, sync_nodes-IsEntry}
use v2b_x_patched_by_haman.Tests.Panel.{seconds, parse_nothing, vless_node, vless_decoders, client}

-- A core that takes everything, and counts.
abbrev core_api : CoreApi ℕ ℕ Unit
core_api = record {
  add_node = λ tag n o core. (suc core, ok tt);
  del_node = λ tag core. (suc core, ok tt);
  add_users = λ tag n us core. (suc core, ok 0);
  del_users = λ us tag n core. (suc core, ok tt);
  get_user_traffic_slice = λ tag resets core. (core, []);
  is_panic = λ e. false;
}

abbrev ann : UserInfo
ann = record { id = pos 7; uuid = "ann"; speed_limit = pos 0; device_limit = pos 0 }

-- No certificate can be had.
abbrev cert_env : CertEnv
cert_env = record {
  replace = λ pairs s. s;
  exists = λ path. false;
  create_cert = λ c. false;
  self_sign = λ domain cert key. false;
}

-- A body is a node and one user; its hash is the body.
abbrev env : Env ℕ String String
env = record {
  float_seconds = seconds;
  parse_float = parse_nothing;
  decoders = vless_decoders (pos 0);
  hash = λ b. b;
  decode_users = λ b. some (some (ann ∷ []));
  decode_alive = λ b. some none;
  compile = λ s. some s;
  cert = cert_env;
}

abbrev response : String → Response String
response b = record { status = pos 200; body = b; etag = "" }

abbrev replies : Replies String
replies = record {
  node = answered (response "one");
  users = answered (response "users");
  alive = answered (response "alive");
}

abbrev world : World String ℤ ℕ
world = record { client = client; limiters = []; core = 0 }

abbrev tag : String
tag = "[https://panel.example]-vless:5"

abbrev limiter : Limiter String ℤ
limiter = record (add_limiter tag (pos 0) (ann ∷ []) []) {
  domain_rules = "ads.test" ∷ [];
  protocol_rules = "quic" ∷ [];
}

abbrev client_after : Client
client_after =
    set_query_params "vless" (record client { response_body_hash = "one"; node_type = "vless" })

abbrev world_after : World String ℤ ℕ
world_after = record { client = client_after; limiters = (tag, limiter) ∷ []; core = 2 }

abbrev controller : Controller ℕ String ℤ ℕ
controller = record {
  world = world_after;
  options = record default_options { cert_config = some zero_cert_config };
  tag = tag;
  limiter = limiter;
  traffic = [];
  user_list = ann ∷ [];
  alive_map = [];
  info = vless_node (pos 0);
  node_info_monitor_periodic = start_task false (fresh (pos 0));
  user_report_periodic = start_task false (fresh (pos 0));
  renew_cert_periodic = none;
  dynamic_speed_limit_periodic = none;
}

start_runs :
    start {Error = Unit {0}} core_api env default_options replies world
    ≡ (world_after, ok controller)
unfolding start set_query_params start_task build_node_tag put add_limiter get_node_info
    check_response read_node_info adopt_node read_user_list get_user_list get_user_alive
    decode_node_info normalize_response_node_type canonical_type to_lower trim_space
    decode_node_info_body decode_part finalize_node_info add_routes with_vallss new_node_info
    parse_route_match set_intervals non_blank act add_dns block_all block split_comma has_prefix
    join trim_prefix compile_all update_rule check_cert panel_cert_config renew_task dynamic_task
    start_with itoa
start_runs = refl

is_ann : (u : UserInfo) → In u (ann ∷ []) → u ≡ ann
is_ann u i = elim (In-cons i) [ inl same ↦ same | inr nothing ↦ elim nothing [ ] ]

lists : DecodesLists 3 env.decode_users
lists b us e =
    subst (λ us'. IsUserList 3 (or_no_users us')) (some_inj e)
      (
        λ u i. subst (λ v. count v.uuid ≡ 3) (sym (is_ann u i)) refl,
        λ u v i j same. is_ann u i ∙ sym (is_ann v j),
      )

start-rounds_example :
    Holds (IsInStep 3) (rounds {Error = Unit {0}} core_api env (replies ∷ replies ∷ []) controller)
start-rounds_example =
    start-rounds {Error = Unit {0}} core_api env 3 default_options replies (replies ∷ replies ∷ [])
      world world_after controller lists refl start_runs

rounds-lost_example : Holds (HasNodeOf controller) (
    rounds {Error = Unit {0}} core_api env
      (record { node = answered (response "two"); users = failed; alive = failed }
        ∷ record {
          node = answered (response "two");
          users = answered (response "users");
          alive = failed;
        }
        ∷ [])
      controller)
rounds-lost_example =
    rounds-lost {Error = Unit {0}} core_api env controller (response "two") (response "two") failed
      (answered (response "users")) failed refl refl refl refl refl

-- The node with TLS, whose certificate cannot be signed.
uncertified :
    (check_cert cert_env client_after
      (vless_node (pos 1))
      (panel_cert_config (vless_node (pos 1)))).1
    ≡ err self_failed
unfolding check_cert panel_cert_config set_query_params with_vallss new_node_info request_cert
    normalize_cert_paths ensure_machine_cert_paths with_mode with_domain obtain_cert make_cert
    resolve_cert_path part_name itoa
uncertified = refl

reload-uncertified_example :
    Holds
      (IsOut {Error = Unit {0}} core_api env 3 (vless_node (pos 1)))
      (reload {Error = Unit {0}} core_api env (vless_node (pos 1)) none none controller)
reload-uncertified_example =
    reload-uncertified {Error = Unit {0}} core_api env (vless_node (pos 1)) none none controller 3
      self_failed refl uncertified

-- A controller is the id of its node; the node 9 does not start.
abbrev node_api : NodeApi ℕ ℤ String
node_api = record {
  new_controller = λ n w. (suc w, if n.id == pos 9 then err "refused" else ok n.id);
  close_controller = λ c w. (suc w, ok tt);
}

abbrev listed : ℤ → MachineNode
listed id = record { id = id; kind = "vless"; name = "" }

abbrev machine : Machine ℕ ℤ
machine = record {
  controllers = (pos 1, pos 1) ∷ [];
  world = 0;
  has_status_func = false;
  pull_task = none;
  status_task = none;
}

abbrev synced_machine : Machine ℕ ℤ
synced_machine = record machine { controllers = (pos 2, pos 2) ∷ (pos 3, pos 3) ∷ []; world = 3 }

sync_runs :
    sync_nodes node_api (listed (pos 2) ∷ listed (pos 3) ∷ []) true machine ≡ synced synced_machine
unfolding sync_nodes start_nodes remove_absent get put remove
sync_runs = refl

sync_nodes-IsEntry_example : IsEntry {Controller = ℤ} true false (some (pos 1)) none
unfolding get
sync_nodes-IsEntry_example =
    sync_nodes-IsEntry node_api true (listed (pos 2) ∷ listed (pos 3) ∷ []) machine synced_machine
      (pos 1) sync_runs

abbrev rolled_machine : Machine ℕ ℤ
rolled_machine = record machine { world = 3 }

roll_back_runs :
    start_nodes node_api true (listed (pos 2) ∷ listed (pos 9) ∷ []) [] machine
    ≡ failed "refused" rolled_machine
unfolding start_nodes close_started get put remove
roll_back_runs = refl

start_nodes-get_example : get rolled_machine.controllers (pos 2) ≡ get machine.controllers (pos 2)
start_nodes-get_example =
    start_nodes-get node_api (listed (pos 2) ∷ listed (pos 9) ∷ []) machine rolled_machine "refused"
      (pos 2) roll_back_runs

-- The first user has 10 bytes, the second 400,000, of a threshold of 200 kilobytes; the third has no
-- entry.
abbrev traffic : List UserTraffic
traffic =
    record { uid = pos 1; upload = pos 4; download = pos 6 }
    ∷ record { uid = pos 2; upload = pos 150_000; download = pos 250_000 }
    ∷ []

abbrev report_api : CoreApi ℕ ℕ Unit
report_api = record core_api { get_user_traffic_slice = λ tag resets core. (suc core, traffic) }

abbrev reporter : Controller ℕ String ℤ ℕ
reporter = record controller {
  limiter = record limiter {
    user_online_ip =
        ("n|one", ("10.0.0.1", pos 1) ∷ [])
        ∷ ("n|two", ("10.0.0.2", pos 2) ∷ [])
        ∷ ("n|six", ("10.0.0.3", pos 3) ∷ [])
        ∷ [];
  };
}

report_runs :
    (report_user_traffic_task report_api reporter).1.alive
    ≡ some ((pos 2, "10.0.0.2" ∷ []) ∷ (pos 3, "10.0.0.3" ∷ []) ∷ [])
unfolding report_user_traffic_task get_online_device get put remove wrap64 ◌+ℤ◌ ◌*ℤ◌ add_limiter
report_runs = refl

report_user_traffic_task-alive_example :
    ((report_user_traffic_task report_api reporter).1.traffic ≡ traffic)
    × (In "10.0.0.2" (ips_of (report_user_traffic_task report_api reporter).1.alive (pos 2)) ↔ (
        In (device (pos 2) "10.0.0.2") (get_online_device reporter.limiter).1
        × (has_light_entry (pos 200) traffic (pos 2) ≡ false)))
report_user_traffic_task-alive_example =
    report_user_traffic_task-alive report_api reporter (pos 2) "10.0.0.2"
