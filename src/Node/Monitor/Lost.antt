-- ===== src/Node/Monitor/Lost.antt =====
-- node/task.go: the controller after a round that fails on the way.
use v2b_x_patched_by_haman.Prelude.{
  ℤ, pos, leb_ℤ, int_eq, string_eq, ◌==◌, ◌≡◌, refl, sym, ap, subst, ◌∙◌, false, ◌&&◌, Bool-cases,
  Option, none, some, inl, inr, List, [], ◌∷◌, Result, ok, err,
}
use v2b_x_patched_by_haman.Dict.{Dict}
use v2b_x_patched_by_haman.Conf.{CertConfig}
use v2b_x_patched_by_haman.Panel.{UserInfo}
use v2b_x_patched_by_haman.Panel.Types.{NodeInfo}
use v2b_x_patched_by_haman.Panel.Client.{
  Client, ClientError, Reply, Response, failed, answered, get_node_info, get_user_list,
}
use v2b_x_patched_by_haman.Panel.Client.Remember.{get_node_info-remembers}
use v2b_x_patched_by_haman.Limiter.State.{Limiter}
use v2b_x_patched_by_haman.Limiter.Rules.{update_rule}
use v2b_x_patched_by_haman.Core.{CoreApi}
use v2b_x_patched_by_haman.Node.UserDiff.{compare_user_list}
use v2b_x_patched_by_haman.Node.Cert.{CertError}
use v2b_x_patched_by_haman.Node.Controller.{
  Controller, Env, Replies, check_cert, panel_cert_config, or_empty, or_no_users,
}
use v2b_x_patched_by_haman.Node.Monitor.{
  done, or_old, set_limiter, renew_limiter, set_alive, settle_users, is_none_listed, sync_users,
  sync_difference, after_cert, after_rules, check_node, reload, apply_answers, after_users,
  after_node, node_info_monitor, rounds, set_client, del_if_any, add_if_any, then_round,
}
use v2b_x_patched_by_haman.Node.Monitor.Knows.{Holds, on_core, logged-Holds, and_then}

module _ {Float Regex Bucket Core : Type 0} where
  -- The node and the tag are those of another controller.
  abbrev pub HasNodeOf :
      Controller Float Regex Bucket Core → Controller Float Regex Bucket Core → Type 0
  HasNodeOf c c' = (c'.info ≡ c.info) × (c'.tag ≡ c.tag)

  settle_users-HasNodeOf :
      (new deleted added : List UserInfo) (c : Controller Float Regex Bucket Core)
      → HasNodeOf c (settle_users new deleted added c)
  unfolding settle_users set_limiter
  settle_users-HasNodeOf new deleted added c =
      elim (Bool-cases (is_none_listed added && is_none_listed deleted)) [
        | inl none_differ ↦ rw none_differ (refl, refl)
        | inr some_differ ↦ rw some_differ (refl, refl)
      ]

  set_alive-HasNodeOf :
      (alive : Option (Dict ℤ ℤ)) (c : Controller Float Regex Bucket Core)
      → HasNodeOf c (set_alive alive c)
  unfolding set_alive set_limiter
  set_alive-HasNodeOf none c = (refl, refl)
  set_alive-HasNodeOf (some alive) c = (refl, refl)

  module _ {Error : Type 0} (api : CoreApi Float Core Error)
      (c : Controller Float Regex Bucket Core) where
    sync_difference-HasNodeOf :
        (new : List UserInfo) (d : Controller Float Regex Bucket Core)
        (o : Option (List UserInfo × List UserInfo))
        → HasNodeOf c d
        → Holds (HasNodeOf c) (sync_difference api new d o)
    sync_difference-HasNodeOf new d none h = tt
    sync_difference-HasNodeOf new d (some (deleted, added)) h =
        logged-Holds api (HasNodeOf c) d (del_if_any api deleted d) _ (λ core. h)
          (λ core.
            logged-Holds api (HasNodeOf c) (on_core core d) (add_if_any api added (on_core core d))
              _ (λ core'. h)
              (λ core'.
                let (info, tag) = settle_users-HasNodeOf new deleted added (on_core core' d) in
                (info ∙ h.0, tag ∙ h.1)))

    sync_users-HasNodeOf :
        (new : List UserInfo) (d : Controller Float Regex Bucket Core)
        → HasNodeOf c d
        → Holds (HasNodeOf c) (sync_users api new d)
    unfolding sync_users
    sync_users-HasNodeOf [] d h = h
    sync_users-HasNodeOf (u ∷ rest) d h =
        sync_difference-HasNodeOf (u ∷ rest) d (compare_user_list d.user_list (u ∷ rest)) h

    module _ {Body : Type 0} (env : Env Float Regex Body) where
      -- A round whose answer is that the node has not changed keeps the node.
      after_users-HasNodeOf :
          (alive : Option (Dict ℤ ℤ)) (d : Controller Float Regex Bucket Core)
          (r : Client × Result ClientError (Option (List UserInfo)))
          → HasNodeOf c d
          → Holds (HasNodeOf c) (after_users api env none alive d r)
      unfolding apply_answers
      after_users-HasNodeOf alive d (client, err e) h = h
      after_users-HasNodeOf alive d (client, ok users) h =
          let (info, tag) = set_alive-HasNodeOf alive (set_client api env client d) in
          sync_users-HasNodeOf (or_no_users users) (set_alive alive (set_client api env client d))
            (info ∙ h.0, tag ∙ h.1)

      after_node-unchanged :
          (r : Replies Body) (d : Controller Float Regex Bucket Core) (client : Client)
          (o : Client × Result ClientError (Option (NodeInfo Float)))
          → o ≡ (client, ok none)
          → HasNodeOf c d
          → Holds (HasNodeOf c) (after_node api env r d o)
      after_node-unchanged r d client o e h =
          subst (λ x. Holds (HasNodeOf c) (after_node api env r d x)) (sym e)
            (after_users-HasNodeOf _ d _ h)

      after_node-failed :
          (node : Reply Body) (alive : Reply Body) (d : Controller Float Regex Bucket Core)
          (o : Client × Result ClientError (Option (NodeInfo Float)))
          → after_node api env (record { node = node; users = failed; alive = alive }) d o
            ≡ done (set_client api env o.0 d)
      unfolding get_user_list
      after_node-failed node alive d (client, err e) = refl
      after_node-failed node alive d (client, ok found) = refl

-- A round in which the panel answers with a node, whatever it holds, and in which the request for the
-- users fails, loses that node: the next round, in which the panel answers the node with the same body
-- again and the other requests in any way, panics or leaves the controller with the node and the tag
-- of before both rounds. (The answers are below 400 and not 304.)
pub rounds-lost :
    {Float Regex Bucket Core Error Body : Type 0} (api : CoreApi Float Core Error)
    (env : Env Float Regex Body) (c : Controller Float Regex Bucket Core) (r r' : Response Body)
    (alive users' alive' : Reply Body)
    → leb_ℤ (pos 400) r.status ≡ false
    → (r.status == pos 304) ≡ false
    → leb_ℤ (pos 400) r'.status ≡ false
    → (r'.status == pos 304) ≡ false
    → r'.body ≡ r.body
    → Holds (HasNodeOf c) (
        rounds api env
          (record { node = answered r; users = failed; alive = alive }
            ∷ record { node = answered r'; users = users'; alive = alive' }
            ∷ [])
          c)
unfolding rounds node_info_monitor
rounds-lost {Body = Body} api env c r r' alive users' alive' fine fresh fine' fresh' same =
    let first =
      get_node_info env.float_seconds env.parse_float env.decoders env.hash c.world.client
        (answered r) in
    let d = set_client api env first.0 c in
    let second : Replies Body = record { node = answered r'; users = users'; alive = alive' } in
    subst (λ x. Holds (HasNodeOf c) (then_round x (λ c'. rounds api env (second ∷ []) c')))
      (sym (after_node-failed api c env (answered r) alive c first))
      (and_then (node_info_monitor api env second d) (λ c'. done c')
        (after_node-unchanged api c env second d first.0 _
          (get_node_info-remembers env.float_seconds env.parse_float env.decoders env.hash
            c.world.client r fine fresh r' fine' fresh' same)
          (refl, refl))
        (λ c' h. h))

module _ {Float Regex Bucket Core Error Body : Type 0} (api : CoreApi Float Core Error)
    (env : Env Float Regex Body) where
  -- The core and the node of a controller.
  abbrev pub IsOut : Core → NodeInfo Float → Controller Float Regex Bucket Core → Type 0
  IsOut core node c = (c.world.core ≡ core) × (c.info ≡ node)

  after_cert-IsOut :
      (core : Core) (node : NodeInfo Float) (c : Controller Float Regex Bucket Core)
      (r : CertConfig × Result {0, 0} CertError Unit) (e : CertError)
      → r.1 ≡ err e
      → IsOut core node c
      → Holds (IsOut core node) (after_cert api env node c r)
  after_cert-IsOut core node c (config, err e') e p h = h
  after_cert-IsOut core node c (config, ok u) e p h = absurd (cc)

  after_rules-IsOut :
      (core : Core) (node : NodeInfo Float) (c : Controller Float Regex Bucket Core)
      (o : Option (Limiter Regex Bucket)) (e : CertError)
      → (check_cert env.cert c.world.client node (panel_cert_config node)).1 ≡ err e
      → IsOut core node c
      → Holds (IsOut core node) (after_rules api env node c o)
  unfolding set_limiter
  after_rules-IsOut core node c none e p h = tt
  after_rules-IsOut core node c (some l) e p h =
      after_cert-IsOut core node (set_limiter l c) _ e p h

  -- What a new limiter and a new alive list leave alone.
  IsBeside : Core → NodeInfo Float → Client → Controller Float Regex Bucket Core → Type 0
  IsBeside core node client c = IsOut core node c × (c.world.client ≡ client)

  renewed-IsBeside :
      (core : Core) (node : NodeInfo Float) (client : Client) (alive : Option (Dict ℤ ℤ))
      (d : Dict ℤ ℤ) (c : Controller Float Regex Bucket Core)
      → IsBeside core node client c
      → IsBeside core node client (set_alive alive (renew_limiter node d c))
  unfolding set_alive renew_limiter set_limiter IsBeside
  renewed-IsBeside core node client none d c h = elim (Bool-cases (c.options.name == "")) [
    | inl unnamed ↦ rw unnamed h
    | inr named ↦ rw named h
  ]
  renewed-IsBeside core node client (some alive) d c h = elim (Bool-cases (c.options.name == "")) [
    | inl unnamed ↦ rw unnamed h
    | inr named ↦ rw named h
  ]

  -- A reload whose request for a certificate fails leaves the node out of the core: unless it panics,
  -- the core is as the removal of the old node left it, and the controller has the new node.
  pub reload-uncertified :
      (node : NodeInfo Float) (users : Option (List UserInfo)) (alive : Option (Dict ℤ ℤ))
      (c : Controller Float Regex Bucket Core) (core : Core) (e : CertError)
      → api.del_node c.tag c.world.core ≡ (core, ok tt)
      → (check_cert env.cert c.world.client node (panel_cert_config node)).1 ≡ err e
      → Holds (IsOut core node) (reload api env node users alive c)
  unfolding reload check_node IsBeside
  reload-uncertified node users alive c core e deleted failing =
      let c' = record c { info = node; user_list = or_old users c.user_list; traffic = [] } in
      let d = set_alive alive (renew_limiter node (or_empty alive) (on_core core c')) in
      let (out, client) =
        renewed-IsBeside core node c.world.client alive (or_empty alive) (on_core core c')
          ((refl, refl), refl) in
      rw deleted (
        after_rules-IsOut core node d (update_rule env.compile node.rules d.limiter) e
          (ap (λ x. (check_cert env.cert x node (panel_cert_config node)).1) client ∙ failing) out)
