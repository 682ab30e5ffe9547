-- ===== src/Node/Monitor.antt =====
-- node/task.go: a round of the monitor of a controller, `nodeInfoMonitor`.
pub mod Knows
pub mod Lost
use v2b_x_patched_by_haman.Prelude.{
  ℕ, ℤ, pos, String, Bool, true, false, ◌||◌, ◌&&◌, Option, none, some, List, [], ◌∷◌, ◌==◌,
  string_eq, int_eq, Result, ok, err, if◌then◌else◌,
}
use v2b_x_patched_by_haman.Dict.{Dict, put, remove}
use v2b_x_patched_by_haman.Conf.{Options, CertConfig}
use v2b_x_patched_by_haman.Panel.{UserInfo}
use v2b_x_patched_by_haman.Panel.Types.{NodeInfo}
use v2b_x_patched_by_haman.Panel.Client.{
  get_node_info, get_user_list, get_user_alive, Client, ClientError,
}
use v2b_x_patched_by_haman.Limiter.State.{Limiter, add_limiter, update_user}
use v2b_x_patched_by_haman.Limiter.Rules.{update_rule}
use v2b_x_patched_by_haman.Task.{Task, start_task}
use v2b_x_patched_by_haman.Core.{CoreApi}
use v2b_x_patched_by_haman.Node.UserDiff.{compare_user_list}
use v2b_x_patched_by_haman.Node.Cert.{CertError}
use v2b_x_patched_by_haman.Node.Controller.{
  World, Controller, Env, Replies, or_zero_config, panel_cert_config, build_node_tag, renew_task,
  check_cert, with_core, stop_task, or_empty, or_no_users,
}

-- A round comes back with the controller, whether or not it logged an error, or it panics.
pub data Round (C : Type 0) : Type 0 where
  done : C → Round C
  crashed : Round C

abbrev pub then_round : {C : Type 0} → Round C → (C → Round C) → Round C
then_round (done c) k = k c
then_round crashed k = crashed

abbrev pub or_old : Option (List UserInfo) → List UserInfo → List UserInfo
or_old none us = us
or_old (some new) us = new

abbrev pub is_none_listed : List UserInfo → Bool
is_none_listed [] = true
is_none_listed (u ∷ us) = false

-- `delete(c.traffic, user.Uuid)` for each user.
unfoldable pub forget_traffic : List UserInfo → Dict String ℤ → Dict String ℤ
forget_traffic [] m = m
forget_traffic (u ∷ us) m = forget_traffic us (remove m u.uuid)

-- A new interval takes effect by a restart; `none` is a panic.
unfoldable pub change_interval : ℤ → Task → Option Task
change_interval d t =
    if t.interval == d || d == pos 0 then some t else elim (stop_task (record t { interval = d })) [
      | none ↦ none
      | some stopped ↦ some (start_task false stopped)
    ]

unfoldable pub stop_renewal : Option Task → Option {0} Unit
stop_renewal none = some tt
stop_renewal (some t) = elim (stop_task t) [ none ↦ none | some _ ↦ some tt ]

module _ {Float Regex Bucket Core : Type 0} where
  -- The limiter is one object, held by the controller and under its tag.
  unfoldable pub set_limiter :
      Limiter Regex Bucket → Controller Float Regex Bucket Core → Controller Float Regex Bucket Core
  set_limiter l c = record c {
    limiter = l;
    world = record c.world { limiters = put c.world.limiters c.tag l };
  }

  -- A new limiter under the new tag. A controller with a name keeps its limiter.
  unfoldable pub renew_limiter :
      NodeInfo Float
      → Dict ℤ ℤ
      → Controller Float Regex Bucket Core
      → Controller Float Regex Bucket Core
  unfolding set_limiter
  renew_limiter node alive c =
      if c.options.name == ""
      then (let tag = build_node_tag c.world.client node in
          set_limiter (add_limiter tag c.options.limit_config.speed_limit c.user_list alive)
            (record c {
              tag = tag;
              world = record c.world { limiters = remove c.world.limiters c.tag };
            }))
      else c

  -- A list that is nil is no news.
  unfoldable pub set_alive :
      Option (Dict ℤ ℤ) → Controller Float Regex Bucket Core → Controller Float Regex Bucket Core
  unfolding set_limiter
  set_alive none c = c
  set_alive (some alive) c = set_limiter (record c.limiter { alive_list = alive }) c

  -- The tasks after a reload: the two intervals, and the renewal of the certificate.
  abbrev pub with_tasks :
      NodeInfo Float
      → Controller Float Regex Bucket Core
      → Option Task
      → Option Task
      → Option {0} Unit
      → Round (Controller Float Regex Bucket Core)
  with_tasks node c none report renewal = crashed
  with_tasks node c (some monitor) none renewal = crashed
  with_tasks node c (some monitor) (some report) none = crashed
  with_tasks node c (some monitor) (some report) (some _) = done (record c {
    node_info_monitor_periodic = monitor;
    user_report_periodic = report;
    renew_cert_periodic = renew_task node (or_zero_config c.options.cert_config);
  })

  unfoldable pub set_tasks :
      NodeInfo Float
      → Controller Float Regex Bucket Core
      → Round (Controller Float Regex Bucket Core)
  unfolding change_interval stop_renewal
  set_tasks node c =
      with_tasks node c (change_interval node.pull_interval c.node_info_monitor_periodic)
        (change_interval node.push_interval c.user_report_periodic)
        (stop_renewal c.renew_cert_periodic)

  -- The users of the limiter and the record of the traffic, after the core has the new users.
  unfoldable pub settle_users :
      List UserInfo
      → List UserInfo
      → List UserInfo
      → Controller Float Regex Bucket Core
      → Controller Float Regex Bucket Core
  unfolding set_limiter forget_traffic
  settle_users new deleted added c =
      let c' =
        if is_none_listed added && is_none_listed deleted
        then c
        else record (set_limiter (update_user c.tag added deleted c.limiter) c) {
          traffic =
              if c.options.limit_config.enable_dynamic_speed_limit
              then forget_traffic deleted c.traffic
              else c.traffic;
        } in
      record c' { user_list = new }

  module _ {Error : Type 0} (api : CoreApi Float Core Error) where
    -- A call of the core whose error is logged, and one whose error panics.
    abbrev pub logged :
        {A : Type 0}
        → Controller Float Regex Bucket Core
        → Core × Result Error A
        → (Controller Float Regex Bucket Core → Round (Controller Float Regex Bucket Core))
        → Round (Controller Float Regex Bucket Core)
    logged c (core, ok _) k = k (record c { world = record c.world { core = core } })
    logged c (core, err e) k =
        if api.is_panic e
        then crashed
        else done (record c { world = record c.world { core = core } })

    abbrev pub fatal :
        {A : Type 0}
        → Controller Float Regex Bucket Core
        → Core × Result Error A
        → (Controller Float Regex Bucket Core → Round (Controller Float Regex Bucket Core))
        → Round (Controller Float Regex Bucket Core)
    fatal c (core, ok _) k = k (record c { world = record c.world { core = core } })
    fatal c (core, err e) k = crashed

    abbrev pub del_if_any :
        List UserInfo → Controller Float Regex Bucket Core → Core × Result {0, 0} Error Unit
    del_if_any us c =
        if is_none_listed us
        then (c.world.core, ok tt)
        else api.del_users us c.tag c.info c.world.core

    abbrev pub add_if_any :
        List UserInfo → Controller Float Regex Bucket Core → Core × Result {0, 0} Error ℕ
    add_if_any us c =
        if is_none_listed us
        then (c.world.core, ok 0)
        else api.add_users c.tag c.info us c.world.core

    -- The deleted users leave the core, then the added ones enter it.
    abbrev pub sync_difference :
        List UserInfo
        → Controller Float Regex Bucket Core
        → Option (List UserInfo × List UserInfo)
        → Round (Controller Float Regex Bucket Core)
    sync_difference new c none = crashed
    sync_difference new c (some (deleted, added)) =
        logged c (del_if_any deleted c)
          (λ c1. logged c1 (add_if_any added c1) (λ c2. done (settle_users new deleted added c2)))

    -- The users of a node that has not changed.
    unfoldable pub sync_users :
        List UserInfo
        → Controller Float Regex Bucket Core
        → Round (Controller Float Regex Bucket Core)
    unfolding settle_users
    sync_users new c =
        if is_none_listed new
        then done c
        else sync_difference new c (compare_user_list c.user_list new)

    -- The second half of a reload, when the certificate is there.
    unfoldable pub restore_node :
        NodeInfo Float
        → Controller Float Regex Bucket Core
        → Round (Controller Float Regex Bucket Core)
    restore_node node c =
        fatal c (api.add_node c.tag node c.options c.world.core)
          (λ c1. logged c1 (api.add_users c1.tag node c1.user_list c1.world.core) (set_tasks node))

    module _ {Body : Type 0} (env : Env Float Regex Body) where
      abbrev pub after_cert :
          NodeInfo Float
          → Controller Float Regex Bucket Core
          → CertConfig × Result {0, 0} CertError Unit
          → Round (Controller Float Regex Bucket Core)
      after_cert node c (config, checked) =
          let c' = record c { options = record c.options { cert_config = some config } } in
          elim checked [ err e ↦ done c' | ok _ ↦ restore_node node c' ]

      abbrev pub after_rules :
          NodeInfo Float
          → Controller Float Regex Bucket Core
          → Option (Limiter Regex Bucket)
          → Round (Controller Float Regex Bucket Core)
      after_rules node c none = crashed
      after_rules node c (some l) =
          after_cert node (set_limiter l c)
            (check_cert env.cert c.world.client node (panel_cert_config node))

      -- The limiter has the rules of the node, then the certificate is there, then the core is
      -- asked. An error on the way ends the round.
      unfoldable pub check_node :
          NodeInfo Float
          → Controller Float Regex Bucket Core
          → Round (Controller Float Regex Bucket Core)
      unfolding set_limiter check_cert restore_node
      check_node node c = after_rules node c (update_rule env.compile node.rules c.limiter)

      -- A node that has changed leaves the core first.
      unfoldable pub reload :
          NodeInfo Float
          → Option (List UserInfo)
          → Option (Dict ℤ ℤ)
          → Controller Float Regex Bucket Core
          → Round (Controller Float Regex Bucket Core)
      unfolding renew_limiter set_alive check_node
      reload node users alive c =
          let c' = record c { info = node; user_list = or_old users c.user_list; traffic = [] } in
          fatal c' (api.del_node c'.tag c'.world.core)
            (λ c1. check_node node (set_alive alive (renew_limiter node (or_empty alive) c1)))

      -- What a round does with the three answers.
      unfoldable pub apply_answers :
          Option (NodeInfo Float)
          → Option (List UserInfo)
          → Option (Dict ℤ ℤ)
          → Controller Float Regex Bucket Core
          → Round (Controller Float Regex Bucket Core)
      apply_answers (some node) users alive c = reload node users alive c
      apply_answers none users alive c = sync_users (or_no_users users) (set_alive alive c)

      abbrev pub set_client :
          Client → Controller Float Regex Bucket Core → Controller Float Regex Bucket Core
      set_client client c = record c { world = record c.world { client = client } }

      abbrev pub after_users :
          Option (NodeInfo Float)
          → Option (Dict ℤ ℤ)
          → Controller Float Regex Bucket Core
          → Client × Result ClientError (Option (List UserInfo))
          → Round (Controller Float Regex Bucket Core)
      after_users found alive c (client, err e) = done (set_client client c)
      after_users found alive c (client, ok users) =
          apply_answers found users alive (set_client client c)

      abbrev pub after_node :
          Replies Body
          → Controller Float Regex Bucket Core
          → Client × Result ClientError (Option (NodeInfo Float))
          → Round (Controller Float Regex Bucket Core)
      after_node r c (client, err e) = done (set_client client c)
      after_node r c (client, ok node) =
          after_users node (get_user_alive env.decode_alive r.alive) c
            (get_user_list env.decode_users client r.users)

      unfoldable pub node_info_monitor :
          Replies Body
          → Controller Float Regex Bucket Core
          → Round (Controller Float Regex Bucket Core)
      unfolding apply_answers
      node_info_monitor r c = after_node r c (
          get_node_info env.float_seconds env.parse_float env.decoders env.hash c.world.client
            r.node)

      -- One round after the other, until one panics.
      unfoldable pub rounds :
          List (Replies Body)
          → Controller Float Regex Bucket Core
          → Round (Controller Float Regex Bucket Core)
      unfolding node_info_monitor
      rounds [] c = done c
      rounds (r ∷ rs) c = then_round (node_info_monitor r c) (λ c'. rounds rs c')
