-- ===== src/Node/Controller.antt =====
-- node/controller.go: the state of a node's controller, and `Close`.
use Prim.Native.String.{◌++◌}
use v2b_x_patched_by_haman.Prelude.{
  ℤ, pos, String, true, ◌||◌, ◌&&◌, Option, none, some, List, [], ◌==◌, string_eq, int_eq, Result,
  ok, if◌then◌else◌,
}
use v2b_x_patched_by_haman.Itoa.{itoa}
use v2b_x_patched_by_haman.Dict.{Dict, remove}
use v2b_x_patched_by_haman.Conf.{CertConfig, zero_cert_config, Options}
use v2b_x_patched_by_haman.Panel.{UserInfo}
use v2b_x_patched_by_haman.Panel.Types.{security_tls, NodeInfo}
use v2b_x_patched_by_haman.Panel.Decode.{Decoders}
use v2b_x_patched_by_haman.Panel.Client.{Client, ClientError, Reply}
use v2b_x_patched_by_haman.Limiter.State.{Limiter}
use v2b_x_patched_by_haman.Task.{Task, fresh, start_task, moved, blocked, panicked, close_task}
use v2b_x_patched_by_haman.Sing.Inbound.Tls.{is_empty}
use v2b_x_patched_by_haman.Core.{CoreApi}
use v2b_x_patched_by_haman.Node.Cert.{CertEnv, CertError, request_cert}

-- What the process shares: the client of the node, the map `limiter` of limiter/limiter.go, and the
-- core.
pub record World (Regex Bucket Core : Type 0) : Type 0 where
  pub client : Client
  pub limiters : Dict String (Limiter Regex Bucket)
  pub core : Core

-- A controller that is started. Its limiter is the object that the map holds under its tag, so a
-- write goes to both. `onlineIpReportPeriodic` is never set.
pub record Controller (Float Regex Bucket Core : Type 0) : Type 0 where
  pub world : World Regex Bucket Core
  pub options : Options
  pub tag : String
  pub limiter : Limiter Regex Bucket
  pub traffic : Dict String ℤ
  pub user_list : List UserInfo
  pub alive_map : Dict ℤ ℤ
  pub info : NodeInfo Float
  pub node_info_monitor_periodic : Task
  pub user_report_periodic : Task
  pub renew_cert_periodic : Option Task
  pub dynamic_speed_limit_periodic : Option Task

-- The code that the controller runs and that is not part of the repository.
pub record Env (Float Regex Body : Type 0) : Type 0 where
  pub float_seconds : Float → ℤ
  pub parse_float : String → Option Float
  pub decoders : Decoders Float Body
  pub hash : Body → String
  pub decode_users : Body → Option (Option (List UserInfo))
  pub decode_alive : Body → Option (Option (Dict ℤ ℤ))
  pub compile : String → Option Regex
  pub cert : CertEnv

-- The bodies of the three answers that a start and a round of the monitor ask for.
pub record Replies (Body : Type 0) : Type 0 where
  pub node : Reply Body
  pub users : Reply Body
  pub alive : Reply Body

pub data StartError (Error : Type 0) : Type 0 where
  client_error : ClientError → StartError Error
  cert_error : CertError → StartError Error
  core_error : Error → StartError Error
  no_users nil_node bad_rule no_dynamic_config : StartError Error

abbrev pub or_empty : Option (Dict ℤ ℤ) → Dict ℤ ℤ
or_empty none = []
or_empty (some m) = m

abbrev pub or_no_users : Option (List UserInfo) → List UserInfo
or_no_users none = []
or_no_users (some us) = us

abbrev pub or_zero_config : Option CertConfig → CertConfig
or_zero_config none = zero_cert_config
or_zero_config (some c) = c

-- The certificate settings of the panel, or new ones.
unfoldable pub panel_cert_config : {Float : Type 0} → NodeInfo Float → CertConfig
panel_cert_config n = elim n.common [
  | none ↦ zero_cert_config
  | some common ↦ or_zero_config common.cert_config
]

unfoldable pub build_node_tag : {Float : Type 0} → Client → NodeInfo Float → String
build_node_tag c n = "[" ++ (c.api_host ++ ("]-" ++ (n.kind ++ (":" ++ itoa n.id))))

abbrev one_day : ℤ
one_day = pos 86_400_000_000_000

-- The task that renews the certificate, if the node has one that is renewed.
unfoldable pub renew_task : {Float : Type 0} → NodeInfo Float → CertConfig → Option Task
renew_task n c =
    if n.security == security_tls
      && is_empty c.certificate
      && (c.cert_mode == "dns" || c.cert_mode == "http")
    then some (start_task true (fresh one_day))
    else none

-- `requestCert` for a TLS node; nothing for another.
unfoldable pub check_cert :
    {Float : Type 0}
    → CertEnv
    → Client
    → NodeInfo Float
    → CertConfig
    → CertConfig × Result {0, 0} CertError Unit
check_cert env client n c =
    if n.security == security_tls
    then request_cert env client.machine_id client.node_id n c
    else (c, ok tt)

abbrev pub with_core :
    {Regex Bucket Core A : Type 0}
    → World Regex Bucket Core
    → Core × A
    → World Regex Bucket Core × A
with_core w (core, a) = (record w { core = core }, a)

abbrev pub stop_task : Task → Option Task
stop_task t = elim (close_task t) [ moved t' ↦ some t' | blocked ↦ none | panicked ↦ none ]

abbrev stop_option : Option Task → Option (Option Task)
stop_option none = some none
stop_option (some t) = elim (stop_task t) [ none ↦ none | some t' ↦ some (some t') ]

abbrev stop_tasks :
    {Float Regex Bucket Core : Type 0}
    → Controller Float Regex Bucket Core
    → Option (Controller Float Regex Bucket Core)
stop_tasks c = elim (stop_task c.node_info_monitor_periodic) [
  | none ↦ none
  | some monitor ↦ elim (stop_task c.user_report_periodic) [
    | none ↦ none
    | some report ↦ elim (stop_option c.renew_cert_periodic) [
      | none ↦ none
      | some renew ↦ elim (stop_option c.dynamic_speed_limit_periodic) [
        | none ↦ none
        | some dynamic ↦ some (record c {
          node_info_monitor_periodic = monitor;
          user_report_periodic = report;
          renew_cert_periodic = renew;
          dynamic_speed_limit_periodic = dynamic;
        })
      ]
    ]
  ]
]

module _ {Float Regex Bucket Core Error : Type 0} (api : CoreApi Float Core Error) where
  -- `none` is a panic of a task that is closed twice.
  unfoldable pub close :
      Controller Float Regex Bucket Core
      → Option (Controller Float Regex Bucket Core × Result {0, 0} Error Unit)
  close c =
      elim (stop_tasks
        (record c { world = record c.world { limiters = remove c.world.limiters c.tag } })) [
          | none ↦ none
          | some c' ↦
              let (w, deleted) = with_core c'.world (api.del_node c'.tag c'.world.core) in
              some (record c' { world = w }, deleted)
        ]
