-- ===== src/Node/Start.antt =====
-- `Start` of node/controller.go with `startTasks` of node/task.go; each step is a function on the result
-- of the one before.
pub mod InStep
use Prim.Native.String.{◌++◌}
use v2b_x_patched_by_haman.Prelude.{
  ℕ, ℤ, pos, ◌*ℤ◌, wrap64, String, Bool, true, false, ◌||◌, ◌&&◌, Option, none, some, List, [], ◌∷◌,
  ◌==◌, string_eq, int_eq, Result, ok, err, ◌>>=◌, or_fail, if◌then◌else◌,
}
use v2b_x_patched_by_haman.Itoa.{itoa}
use v2b_x_patched_by_haman.Dict.{Dict, put, remove}
use v2b_x_patched_by_haman.Conf.{CertConfig, zero_cert_config, DynamicSpeedLimitConfig, Options}
use v2b_x_patched_by_haman.Panel.{UserInfo}
use v2b_x_patched_by_haman.Panel.Types.{security_tls, CommonNode, NodeInfo}
use v2b_x_patched_by_haman.Panel.Decode.{Decoders}
use v2b_x_patched_by_haman.Panel.Client.{
  Client, ClientError, Reply, get_node_info, get_user_list, get_user_alive,
}
use v2b_x_patched_by_haman.Limiter.State.{Limiter, add_limiter}
use v2b_x_patched_by_haman.Limiter.Rules.{update_rule}
use v2b_x_patched_by_haman.Task.{
  Task, fresh, start_task, Outcome, moved, blocked, panicked, close_task,
}
use v2b_x_patched_by_haman.Sing.Inbound.Tls.{is_empty}
use v2b_x_patched_by_haman.Core.{CoreApi}
use v2b_x_patched_by_haman.Node.Cert.{CertEnv, CertError, request_cert}
use v2b_x_patched_by_haman.Node.Controller.{
  World, Controller, Env, Replies, StartError, client_error, cert_error, core_error, no_users,
  nil_node, bad_rule, no_dynamic_config, or_empty, or_no_users, or_zero_config, panel_cert_config,
  build_node_tag, renew_task, check_cert, with_core,
}

abbrev ticker_seconds : ℤ → ℤ
ticker_seconds n = wrap64 (n *ℤ pos 1_000_000_000)

-- The task of the speed checker is made, and not started.
unfoldable pub dynamic_task :
    {Error : Type 0}
    → Bool
    → Option DynamicSpeedLimitConfig
    → Result (StartError Error) (Option Task)
dynamic_task enabled c =
    if enabled
    then (do d ← or_fail c no_dynamic_config; ok (some (fresh (ticker_seconds d.periodic))))
    else ok none

abbrev pub node_tag : {Float : Type 0} → Options → Client → NodeInfo Float → String
node_tag o client n = if o.name == "" then build_node_tag client n else o.name

abbrev pub Started : Type 0 → Type 0 → Type 0 → Type 0 → Type 0 → Type 0
Started Float Regex Bucket Core Error =
    World Regex Bucket Core × Result {0, 0} (StartError Error) (Controller Float Regex Bucket Core)

module _ {Float Regex Bucket Core Error Body : Type 0} (api : CoreApi Float Core Error)
    (env : Env Float Regex Body) where
  module _ (o : Options) (node : NodeInfo Float) (users : List UserInfo) (alive : Dict ℤ ℤ) where
    abbrev pub with_dynamic :
        String
        → Limiter Regex Bucket
        → World Regex Bucket Core
        → Result {0, 0} (StartError Error) (Option Task)
        → Started Float Regex Bucket Core Error
    with_dynamic tag l w (err e) = (w, err e)
    with_dynamic tag l w (ok dynamic) = (
      w,
      ok (record {
        world = w;
        options = o;
        tag = tag;
        limiter = l;
        traffic = [];
        user_list = users;
        alive_map = alive;
        info = node;
        node_info_monitor_periodic = start_task false (fresh node.pull_interval);
        user_report_periodic = start_task false (fresh node.push_interval);
        renew_cert_periodic = renew_task node (or_zero_config o.cert_config);
        dynamic_speed_limit_periodic = dynamic;
      }),
    )

    abbrev pub after_add_users :
        String
        → Limiter Regex Bucket
        → World Regex Bucket Core × Result {0, 0} Error ℕ
        → Started Float Regex Bucket Core Error
    after_add_users tag l (w, err e) = (w, err (core_error e))
    after_add_users tag l (w, ok _) = with_dynamic tag l w (
        dynamic_task o.limit_config.enable_dynamic_speed_limit
          o.limit_config.dynamic_speed_limit_config)

    abbrev pub after_add_node :
        String
        → Limiter Regex Bucket
        → World Regex Bucket Core × Result {0, 0} Error Unit
        → Started Float Regex Bucket Core Error
    after_add_node tag l (w, err e) = (w, err (core_error e))
    after_add_node tag l (w, ok _) =
        after_add_users tag l (with_core w (api.add_users tag node users w.core))

  abbrev pub after_check :
      Options
      → NodeInfo Float
      → List UserInfo
      → Dict ℤ ℤ
      → String
      → Limiter Regex Bucket
      → World Regex Bucket Core
      → CertConfig × Result {0, 0} CertError Unit
      → Started Float Regex Bucket Core Error
  after_check o node users alive tag l w (config, err e) = (w, err (cert_error e))
  after_check o node users alive tag l w (config, ok _) =
      after_add_node (record o { cert_config = some config }) node users alive tag l
        (with_core w (api.add_node tag node (record o { cert_config = some config }) w.core))

  module _ (o : Options) (node : NodeInfo Float) (users : List UserInfo) (alive : Dict ℤ ℤ) where
    -- The limiter is registered before anything that can fail after it.
    abbrev pub after_start_rules :
        String
        → Limiter Regex Bucket
        → World Regex Bucket Core
        → Option (Limiter Regex Bucket)
        → Started Float Regex Bucket Core Error
    after_start_rules tag l w none = (record w { limiters = put w.limiters tag l }, err bad_rule)
    after_start_rules tag l w (some l') =
        after_check o node users alive tag l' (record w { limiters = put w.limiters tag l' })
          (check_cert env.cert w.client node (panel_cert_config node))

    unfoldable pub start_with : World Regex Bucket Core → Started Float Regex Bucket Core Error
    unfolding check_cert renew_task dynamic_task
    start_with w =
        let tag = node_tag o w.client node in
        let l = add_limiter tag o.limit_config.speed_limit users alive in
        after_start_rules tag l w (update_rule env.compile node.rules l)

  abbrev pub after_start_users :
      Options
      → Option (NodeInfo Float)
      → Dict ℤ ℤ
      → World Regex Bucket Core
      → List UserInfo
      → Started Float Regex Bucket Core Error
  after_start_users o found alive w [] = (w, err no_users)
  after_start_users o none alive w (u ∷ us) = (w, err nil_node)
  after_start_users o (some found) alive w (u ∷ us) = start_with o found (u ∷ us) alive w

  abbrev pub after_user_list :
      Options
      → Option (NodeInfo Float)
      → Dict ℤ ℤ
      → World Regex Bucket Core
      → Client × Result ClientError (Option (List UserInfo))
      → Started Float Regex Bucket Core Error
  after_user_list o found alive w (client, err e) =
      (record w { client = client }, err (client_error e))
  after_user_list o found alive w (client, ok users) =
      after_start_users o found alive (record w { client = client }) (or_no_users users)

  abbrev pub after_node_info :
      Options
      → Replies Body
      → World Regex Bucket Core
      → Client × Result ClientError (Option (NodeInfo Float))
      → Started Float Regex Bucket Core Error
  after_node_info o r w (client, err e) = (record w { client = client }, err (client_error e))
  after_node_info o r w (client, ok node) =
      after_user_list o node (or_empty (get_user_alive env.decode_alive r.alive)) w
        (get_user_list env.decode_users client r.users)

  unfoldable pub start :
      Options → Replies Body → World Regex Bucket Core → Started Float Regex Bucket Core Error
  unfolding start_with
  start o r w =
      after_node_info o r w
        (get_node_info env.float_seconds env.parse_float env.decoders env.hash w.client r.node)
