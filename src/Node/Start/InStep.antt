-- ===== src/Node/Start/InStep.antt =====
-- node/controller.go: the limiter of a controller beside its list of users, over the steps of Start.
use v2b_x_patched_by_haman.Prelude.{
  ℕ, ℤ, String, ◌≡◌, refl, subst, Option, none, some, List, [], ◌∷◌, Result, ok, err,
}
use v2b_x_patched_by_haman.Dict.{Dict}
use v2b_x_patched_by_haman.Conf.{CertConfig, Options}
use v2b_x_patched_by_haman.Panel.{UserInfo}
use v2b_x_patched_by_haman.Panel.Types.{NodeInfo}
use v2b_x_patched_by_haman.Panel.Client.{Client, ClientError}
use v2b_x_patched_by_haman.Limiter.State.{Limiter}
use v2b_x_patched_by_haman.Limiter.Rules.{update_rule}
use v2b_x_patched_by_haman.Task.{Task}
use v2b_x_patched_by_haman.Core.{CoreApi}
use v2b_x_patched_by_haman.Node.Cert.{CertError}
use v2b_x_patched_by_haman.Node.UserDiff.Sync.{Knows, add_limiter-Knows}
use v2b_x_patched_by_haman.Node.Controller.{
  World, Controller, Env, Replies, StartError, or_no_users,
}
use v2b_x_patched_by_haman.Node.Start.{
  Started, node_tag, with_dynamic, after_add_users, after_add_node, after_check, after_start_rules,
  start_with, after_start_users, after_user_list, after_node_info, start,
}
use v2b_x_patched_by_haman.Node.Monitor.{rounds}
use v2b_x_patched_by_haman.Node.Monitor.Knows.{
  Holds, IsUserList, IsInStep, DecodesLists, Answers, update_rule-info, Knows-of_info,
  get_user_list-Answers,
}
use v2b_x_patched_by_haman.Node.Monitor.Knows.Rounds.{rounds-Holds}

module _ {Float Regex Bucket Core Error Body : Type 0} (api : CoreApi Float Core Error)
    (env : Env Float Regex Body) (n : ℕ) where
  -- What holds of the controller when the start ends well.
  abbrev StartsInStep : Started Float Regex Bucket Core Error → Type 0
  StartsInStep (w, err e) = Unit
  StartsInStep (w, ok c) = IsInStep n c

  module _ (node : NodeInfo Float) (users : List UserInfo) (alive : Dict ℤ ℤ) where
    -- The limiter that the last steps of a start are given.
    abbrev IsReady : Options → String → Limiter Regex Bucket → Type 0
    IsReady o tag l = Knows tag l users × IsUserList n users × (o.name ≡ "")

    with_dynamic-InStep :
        (o : Options) (tag : String) (l : Limiter Regex Bucket) (w : World Regex Bucket Core)
        (r : Result {0, 0} (StartError Error) (Option Task))
        → IsReady o tag l
        → StartsInStep (with_dynamic api env o node users alive tag l w r)
    with_dynamic-InStep o tag l w (err e) h = tt
    with_dynamic-InStep o tag l w (ok dynamic) h = h

    after_add_users-InStep :
        (o : Options) (tag : String) (l : Limiter Regex Bucket)
        (r : World Regex Bucket Core × Result {0, 0} Error ℕ)
        → IsReady o tag l
        → StartsInStep (after_add_users api env o node users alive tag l r)
    after_add_users-InStep o tag l (w, err e) h = tt
    after_add_users-InStep o tag l (w, ok m) h = with_dynamic-InStep o tag l w _ h

    after_add_node-InStep :
        (o : Options) (tag : String) (l : Limiter Regex Bucket)
        (r : World Regex Bucket Core × Result {0, 0} Error Unit)
        → IsReady o tag l
        → StartsInStep (after_add_node api env o node users alive tag l r)
    after_add_node-InStep o tag l (w, err e) h = tt
    after_add_node-InStep o tag l (w, ok u) h = after_add_users-InStep o tag l _ h

    after_check-InStep :
        (o : Options) (tag : String) (l : Limiter Regex Bucket) (w : World Regex Bucket Core)
        (r : CertConfig × Result {0, 0} CertError Unit)
        → IsReady o tag l
        → StartsInStep (after_check api env o node users alive tag l w r)
    after_check-InStep o tag l w (config, err e) h = tt
    after_check-InStep o tag l w (config, ok u) h =
        after_add_node-InStep (record o { cert_config = some config }) tag l _ h

    after_start_rules-InStep :
        (o : Options) (tag : String) (l : Limiter Regex Bucket) (w : World Regex Bucket Core)
        (r : Option (Limiter Regex Bucket))
        → update_rule env.compile node.rules l ≡ r
        → IsReady o tag l
        → StartsInStep (after_start_rules api env o node users alive tag l w r)
    after_start_rules-InStep o tag l w none e h = tt
    after_start_rules-InStep o tag l w (some l') e (knows, us, unnamed) =
        after_check-InStep o tag l' _ _ (
          Knows-of_info tag l l' users (update_rule-info env.compile node.rules l l' e) knows,
          us,
          unnamed,
        )

    start_with-InStep :
        (o : Options) (w : World Regex Bucket Core)
        → IsUserList n users
        → o.name ≡ ""
        → StartsInStep (start_with api env o node users alive w)
    unfolding start_with
    start_with-InStep o w us unnamed =
        after_start_rules-InStep o (node_tag o w.client node) _ w _ refl (
          add_limiter-Knows Regex Bucket (node_tag o w.client node) o.limit_config.speed_limit users
              alive,
          us,
          unnamed,
        )

  after_start_users-InStep :
      (o : Options) (found : Option (NodeInfo Float)) (alive : Dict ℤ ℤ)
      (w : World Regex Bucket Core) (users : List UserInfo)
      → IsUserList n users
      → o.name ≡ ""
      → StartsInStep (after_start_users api env o found alive w users)
  after_start_users-InStep o found alive w [] us unnamed = tt
  after_start_users-InStep o none alive w (u ∷ rest) us unnamed = tt
  after_start_users-InStep o (some found) alive w (u ∷ rest) us unnamed =
      start_with-InStep found (u ∷ rest) alive o w us unnamed

  after_user_list-InStep :
      (o : Options) (found : Option (NodeInfo Float)) (alive : Dict ℤ ℤ)
      (w : World Regex Bucket Core) (r : Client × Result ClientError (Option (List UserInfo)))
      → Answers n r
      → o.name ≡ ""
      → StartsInStep (after_user_list api env o found alive w r)
  after_user_list-InStep o found alive w (client, err e) us unnamed = tt
  after_user_list-InStep o found alive w (client, ok users) us unnamed =
      after_start_users-InStep o found alive _ (or_no_users users) us unnamed

  after_node_info-InStep :
      (o : Options) (r : Replies Body) (w : World Regex Bucket Core)
      (a : Client × Result ClientError (Option (NodeInfo Float)))
      → DecodesLists n env.decode_users
      → o.name ≡ ""
      → StartsInStep (after_node_info api env o r w a)
  after_node_info-InStep o r w (client, err e) lists unnamed = tt
  after_node_info-InStep o r w (client, ok node) lists unnamed =
      after_user_list-InStep o node _ w _
        (get_user_list-Answers n env.decode_users lists client r.users) unnamed

  start-InStep :
      (o : Options) (r : Replies Body) (w : World Regex Bucket Core)
      → DecodesLists n env.decode_users
      → o.name ≡ ""
      → StartsInStep (start api env o r w)
  unfolding start
  start-InStep o r w lists unnamed = after_node_info-InStep o r w _ lists unnamed

-- Say that every list of users that a body of the panel decodes to has uuids of n characters, each
-- for one user, and that the options have no name. Then a controller that has started, and has gone
-- through any rounds of its monitor, whatever the panel, the certificate and the core answered, either
-- panicked or has a limiter that knows exactly the users of the controller's list.
pub start-rounds :
    {Float Regex Bucket Core Error Body : Type 0} (api : CoreApi Float Core Error)
    (env : Env Float Regex Body) (n : ℕ) (o : Options) (r : Replies Body) (rs : List (Replies Body))
    (w w' : World Regex Bucket Core) (c : Controller Float Regex Bucket Core)
    → DecodesLists n env.decode_users
    → o.name ≡ ""
    → start api env o r w ≡ (w', ok c)
    → Holds (IsInStep n) (rounds api env rs c)
start-rounds api env n o r rs w w' c lists unnamed started =
    rounds-Holds api n env rs c lists
      (subst (StartsInStep api env n) started (start-InStep api env n o r w lists unnamed))
