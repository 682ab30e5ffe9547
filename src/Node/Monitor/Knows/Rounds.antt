-- ===== src/Node/Monitor/Knows/Rounds.antt =====
-- node/task.go: the limiter of a controller beside its list of users, over the steps of a round.
use v2b_x_patched_by_haman.Prelude.{
  ℕ, ℤ, int_eq, ◌≡◌, refl, true, Option, none, some, List, [], ◌∷◌, ◌==◌, string_eq, Result, ok,
  err, eq_iff,
}
use v2b_x_patched_by_haman.Dict.{Dict}
use v2b_x_patched_by_haman.Conf.{CertConfig}
use v2b_x_patched_by_haman.Node.Cert.{CertError}
use v2b_x_patched_by_haman.Panel.{UserInfo}
use v2b_x_patched_by_haman.Panel.Types.{NodeInfo}
use v2b_x_patched_by_haman.Panel.Client.{Client, ClientError, get_user_list, get_user_alive}
use v2b_x_patched_by_haman.Limiter.State.{Limiter, update_user, add_users, delete_users}
use v2b_x_patched_by_haman.Limiter.Rules.{update_rule}
use v2b_x_patched_by_haman.Task.{Task}
use v2b_x_patched_by_haman.Core.{CoreApi}
use v2b_x_patched_by_haman.Node.UserDiff.{compare_user_list}
use v2b_x_patched_by_haman.Node.UserDiff.Sync.{Knows, add_limiter-Knows, update_user-Knows}
use v2b_x_patched_by_haman.Node.Controller.{
  Controller, Env, Replies, build_node_tag, check_cert, panel_cert_config, or_empty, or_no_users,
}
use v2b_x_patched_by_haman.Node.Monitor.{
  or_old, set_limiter, renew_limiter, set_alive, set_tasks, with_tasks, settle_users,
  sync_difference, after_cert, after_rules, after_users, after_node, sync_users, restore_node,
  check_node, reload, apply_answers, node_info_monitor, rounds, del_if_any, add_if_any, set_client,
}
use v2b_x_patched_by_haman.Node.Monitor.Knows.{
  Holds, IsUserList, DecodesLists, Answers, IsInStep, on_core, and_then, logged-Holds, fatal-Holds,
  update_rule-info, Knows-of_info, get_user_list-Answers, either_list,
}

module _ {Float Regex Bucket Core : Type 0} where
  set_alive-IsInStep :
      (n : ℕ) (alive : Option (Dict ℤ ℤ)) (c : Controller Float Regex Bucket Core)
      → IsInStep n c
      → IsInStep n (set_alive alive c)
  unfolding set_alive
  set_alive-IsInStep n none c h = h
  set_alive-IsInStep n (some alive) c h = h

  -- With no name the limiter is made anew for the list, so nothing is asked of the old one.
  renew_limiter-IsInStep :
      (n : ℕ) (node : NodeInfo Float) (alive : Dict ℤ ℤ) (c : Controller Float Regex Bucket Core)
      → IsUserList n c.user_list
      → c.options.name ≡ ""
      → IsInStep n (renew_limiter node alive c)
  unfolding renew_limiter
  renew_limiter-IsInStep n node alive c us unnamed =
      let p : (c.options.name == "") ≡ true = (eq_iff c.options.name "").1 unnamed in
      rw p (
        add_limiter-Knows Regex Bucket (build_node_tag c.world.client node)
            c.options.limit_config.speed_limit c.user_list alive,
        us,
        unnamed,
      )

  with_tasks-Holds :
      (n : ℕ) (node : NodeInfo Float) (c : Controller Float Regex Bucket Core)
      (monitor report : Option Task) (renewal : Option {0} Unit)
      → IsInStep n c
      → Holds (IsInStep n) (with_tasks node c monitor report renewal)
  with_tasks-Holds n node c none report renewal h = tt
  with_tasks-Holds n node c (some monitor) none renewal h = tt
  with_tasks-Holds n node c (some monitor) (some report) none h = tt
  with_tasks-Holds n node c (some monitor) (some report) (some _) h = h

  -- The limiter after the difference of two lists knows the new one.
  module _ (n : ℕ) (new : List UserInfo) (c : Controller Float Regex Bucket Core)
      (us : IsUserList n new) (h : IsInStep n c) where
    settled :
        (deleted added : List UserInfo)
        → compare_user_list c.user_list new ≡ some (deleted, added)
        → Knows c.tag (update_user c.tag added deleted c.limiter) new
    settled deleted added e =
        update_user-Knows c.tag c.limiter c.user_list new deleted added n h.1.0 us.0 h.1.1 e h.0

    settle_users-IsInStep :
        (deleted added : List UserInfo)
        → compare_user_list c.user_list new ≡ some (deleted, added)
        → IsInStep n (settle_users new deleted added c)
    unfolding settle_users update_user add_users delete_users
    settle_users-IsInStep [] [] e = (settled [] [] e, us, h.2)
    settle_users-IsInStep [] (a ∷ rest) e = (settled [] (a ∷ rest) e, us, h.2)
    settle_users-IsInStep (d ∷ rest) [] e = (settled (d ∷ rest) [] e, us, h.2)
    settle_users-IsInStep (d ∷ rest) (a ∷ more) e = (settled (d ∷ rest) (a ∷ more) e, us, h.2)

  module _ {Error : Type 0} (api : CoreApi Float Core Error) (n : ℕ) where
    sync_difference-Holds :
        (new : List UserInfo) (c : Controller Float Regex Bucket Core)
        (o : Option (List UserInfo × List UserInfo))
        → compare_user_list c.user_list new ≡ o
        → IsUserList n new
        → IsInStep n c
        → Holds (IsInStep n) (sync_difference api new c o)
    sync_difference-Holds new c none e us h = tt
    sync_difference-Holds new c (some (deleted, added)) e us h =
        logged-Holds api (IsInStep n) c (del_if_any api deleted c) _ (λ core. h)
          (λ core.
            logged-Holds api (IsInStep n) (on_core core c) (add_if_any api added (on_core core c)) _
              (λ core'. h)
              (λ core'. settle_users-IsInStep n new (on_core core' c) us h deleted added e))

    sync_users-Holds :
        (new : List UserInfo) (c : Controller Float Regex Bucket Core)
        → IsUserList n new
        → IsInStep n c
        → Holds (IsInStep n) (sync_users api new c)
    unfolding sync_users
    sync_users-Holds [] c us h = h
    sync_users-Holds (u ∷ rest) c us h =
        sync_difference-Holds (u ∷ rest) c (compare_user_list c.user_list (u ∷ rest)) refl us h

    restore_node-Holds :
        (node : NodeInfo Float) (c : Controller Float Regex Bucket Core)
        → IsInStep n c
        → Holds (IsInStep n) (restore_node api node c)
    unfolding restore_node set_tasks
    restore_node-Holds node c h =
        fatal-Holds api (IsInStep n) c (api.add_node c.tag node c.options c.world.core) _ (λ core.
          logged-Holds api (IsInStep n) (on_core core c) (api.add_users c.tag node c.user_list core)
            _ (λ core'. h) (λ core'. with_tasks-Holds n node (on_core core' c) _ _ _ h))

    module _ {Body : Type 0} (env : Env Float Regex Body) where
      after_cert-Holds :
          (node : NodeInfo Float) (c : Controller Float Regex Bucket Core)
          (r : CertConfig × Result {0, 0} CertError Unit)
          → IsInStep n c
          → Holds (IsInStep n) (after_cert api env node c r)
      after_cert-Holds node c (config, err e) h = h
      after_cert-Holds node c (config, ok u) h =
          restore_node-Holds node
            (record c { options = record c.options { cert_config = some config } }) h

      after_rules-Holds :
          (node : NodeInfo Float) (c : Controller Float Regex Bucket Core)
          (o : Option (Limiter Regex Bucket))
          → update_rule env.compile node.rules c.limiter ≡ o
          → IsInStep n c
          → Holds (IsInStep n) (after_rules api env node c o)
      unfolding set_limiter
      after_rules-Holds node c none e h = tt
      after_rules-Holds node c (some l) e (knows, us, unnamed) =
          after_cert-Holds node (set_limiter l c)
            (check_cert env.cert c.world.client node (panel_cert_config node))
            (
              Knows-of_info c.tag c.limiter l c.user_list
                  (update_rule-info env.compile node.rules c.limiter l e) knows,
              us,
              unnamed,
            )

      check_node-Holds :
          (node : NodeInfo Float) (c : Controller Float Regex Bucket Core)
          → IsInStep n c
          → Holds (IsInStep n) (check_node api env node c)
      unfolding check_node
      check_node-Holds node c h =
          after_rules-Holds node c (update_rule env.compile node.rules c.limiter) refl h

      reload-Holds :
          (node : NodeInfo Float) (users : Option (List UserInfo)) (alive : Option (Dict ℤ ℤ))
          (c : Controller Float Regex Bucket Core)
          → IsUserList n (or_no_users users)
          → IsInStep n c
          → Holds (IsInStep n) (reload api env node users alive c)
      unfolding reload
      reload-Holds node users alive c us (knows, old, unnamed) =
          let c' = record c { info = node; user_list = or_old users c.user_list; traffic = [] } in
          fatal-Holds api (IsInStep n) c' (api.del_node c'.tag c'.world.core) _ (λ core.
            check_node-Holds node
              (set_alive alive (renew_limiter node (or_empty alive) (on_core core c')))
              (set_alive-IsInStep n alive (renew_limiter node (or_empty alive) (on_core core c')) (
                renew_limiter-IsInStep n node (or_empty alive) (on_core core c')
                  (either_list n users c.user_list us old) unnamed)))

      apply_answers-Holds :
          (node : Option (NodeInfo Float)) (users : Option (List UserInfo))
          (alive : Option (Dict ℤ ℤ)) (c : Controller Float Regex Bucket Core)
          → IsUserList n (or_no_users users)
          → IsInStep n c
          → Holds (IsInStep n) (apply_answers api env node users alive c)
      unfolding apply_answers
      apply_answers-Holds (some node) users alive c us h = reload-Holds node users alive c us h
      apply_answers-Holds none users alive c us h =
          sync_users-Holds (or_no_users users) (set_alive alive c) us
            (set_alive-IsInStep n alive c h)

      after_users-Holds :
          (found : Option (NodeInfo Float)) (alive : Option (Dict ℤ ℤ))
          (c : Controller Float Regex Bucket Core)
          (r : Client × Result ClientError (Option (List UserInfo)))
          → Answers n r
          → IsInStep n c
          → Holds (IsInStep n) (after_users api env found alive c r)
      after_users-Holds found alive c (client, err e) us h = h
      after_users-Holds found alive c (client, ok users) us h =
          apply_answers-Holds found users alive (set_client api env client c) us h

      after_node-Holds :
          (r : Replies Body) (c : Controller Float Regex Bucket Core)
          (o : Client × Result ClientError (Option (NodeInfo Float)))
          → DecodesLists n env.decode_users
          → IsInStep n c
          → Holds (IsInStep n) (after_node api env r c o)
      after_node-Holds r c (client, err e) lists h = h
      after_node-Holds r c (client, ok node) lists h =
          after_users-Holds node (get_user_alive env.decode_alive r.alive) c
            (get_user_list env.decode_users client r.users)
            (get_user_list-Answers n env.decode_users lists client r.users) h

      pub rounds-Holds :
          (rs : List (Replies Body)) (c : Controller Float Regex Bucket Core)
          → DecodesLists n env.decode_users
          → IsInStep n c
          → Holds (IsInStep n) (rounds api env rs c)
      unfolding rounds node_info_monitor
      rounds-Holds [] c lists h = h
      rounds-Holds (r ∷ rs) c lists h =
          and_then (node_info_monitor api env r c) (λ c'. rounds api env rs c')
            (after_node-Holds r c _ lists h) (λ c' h'. rounds-Holds rs c' lists h')
