-- ===== src/Node/Monitor/Knows.antt =====
-- node/task.go: the limiter of a controller beside its list of users; the predicates, and the parts of a
-- round that touch either.
pub mod Rounds
use v2b_x_patched_by_haman.Prelude.{
  ℕ, ℤ, pos, leb_ℤ, int_eq, String, ◌≡◌, refl, sym, ap, ◌∙◌, true, Bool-cases, Option, none, some,
  inl, inr, List, [], ◌∷◌, ◌==◌, string_eq, Result, ok, err, some_inj, eq_iff,
}
use v2b_x_patched_by_haman.Dict.{Dict, get}
use v2b_x_patched_by_haman.Format.{user_tag}
use v2b_x_patched_by_haman.Conf.{CertConfig}
use v2b_x_patched_by_haman.Node.Cert.{CertError}
use v2b_x_patched_by_haman.Panel.{UserInfo, Rules}
use v2b_x_patched_by_haman.Panel.Types.{NodeInfo}
use v2b_x_patched_by_haman.Panel.Client.{
  Client, ClientError, Reply, Response, failed, empty, answered, after_decode, read_user_list,
  get_user_list, get_user_alive,
}
use v2b_x_patched_by_haman.Limiter.State.{Limiter, update_user, add_users, delete_users}
use v2b_x_patched_by_haman.Limiter.Rules.{compile_all, update_rule}
use v2b_x_patched_by_haman.Task.{Task}
use v2b_x_patched_by_haman.Core.{CoreApi}
use v2b_x_patched_by_haman.Node.UserDiff.{compare_user_list}
use v2b_x_patched_by_haman.Node.UserDiff.Sync.{
  Knows, HaveLength, HaveOwnUuids, add_limiter-Knows, update_user-Knows,
}
use v2b_x_patched_by_haman.Node.Controller.{
  Controller, Env, Replies, build_node_tag, check_cert, panel_cert_config, or_empty, or_no_users,
}
use v2b_x_patched_by_haman.Node.Monitor.{
  Round, done, crashed, or_old, set_limiter, renew_limiter, set_alive, set_tasks, with_tasks,
  settle_users, sync_difference, after_cert, after_rules, after_users, after_node, logged, fatal,
  sync_users, restore_node, check_node, reload, apply_answers, node_info_monitor, then_round,
  rounds, del_if_any, add_if_any, set_client,
}

-- What holds after a round that does not panic.
abbrev pub Holds : {C : Type 0} → (C → Type 0) → Round C → Type 0
Holds P (done c) = P c
Holds P crashed = Unit

-- A list whose uuids have `n` characters, each for one user.
abbrev pub IsUserList : ℕ → List UserInfo → Type 0
IsUserList n us = HaveLength n us × HaveOwnUuids us

ruled_info :
    {Regex Bucket : Type 0} (rules : Rules) (l : Limiter Regex Bucket) (o : Option (List Regex))
    (l' : Limiter Regex Bucket)
    → (elim o [
      | none ↦ none
      | some compiled ↦ some (record l { domain_rules = compiled; protocol_rules = rules.protocol })
    ])
      ≡ some l'
    → l'.user_limit_info ≡ l.user_limit_info
ruled_info rules l none l' e = absurd (cc)
ruled_info {Regex = R} {Bucket = B} rules l (some compiled) l' e =
    ap (λ (m : Limiter R B). m.user_limit_info) (sym (some_inj e))

pub update_rule-info :
    {Regex Bucket : Type 0} (compile : String → Option Regex) (rules : Rules)
    (l l' : Limiter Regex Bucket)
    → update_rule compile rules l ≡ some l'
    → l'.user_limit_info ≡ l.user_limit_info
unfolding update_rule
update_rule-info compile rules l l' e = ruled_info rules l (compile_all compile rules.regexp) l' e

-- What a limiter knows is in its map of users.
pub Knows-of_info :
    {Regex Bucket : Type 0} (tag : String) (l l' : Limiter Regex Bucket) (us : List UserInfo)
    → l'.user_limit_info ≡ l.user_limit_info
    → Knows tag l us
    → Knows tag l' us
Knows-of_info tag l l' us e k uuid = (
  λ there. (k uuid).0 (λ gone. there (ap (λ m. get m (user_tag tag uuid)) e ∙ gone)),
  λ listed gone. (k uuid).1 listed (ap (λ m. get m (user_tag tag uuid)) (sym e) ∙ gone),
)

-- A list that is nil leaves the old one.
pub either_list :
    (n : ℕ) (users : Option (List UserInfo)) (old : List UserInfo)
    → IsUserList n (or_no_users users)
    → IsUserList n old
    → IsUserList n (or_old users old)
either_list n none old us h = h
either_list n (some new) old us h = us

-- Every list that the panel's bodies decode to is such a list.
abbrev pub DecodesLists : {Body : Type 0} → ℕ → (Body → Option (Option (List UserInfo))) → Type 0
DecodesLists {Body = Body} n decode =
    (b : Body) (us : Option (List UserInfo)) → decode b ≡ some us → IsUserList n (or_no_users us)

-- An answer has such a list, or none.
abbrev pub Answers : {A E : Type 0} → ℕ → A × Result E (Option (List UserInfo)) → Type 0
Answers n (c, err e) = Unit
Answers n (c, ok users) = IsUserList n (or_no_users users)

pub no_users-IsUserList : (n : ℕ) → IsUserList n []
no_users-IsUserList n = (λ u i. elim i [ ], λ u v i j e. elim i [ ])

module _ {Body : Type 0} (n : ℕ) (decode : Body → Option (Option (List UserInfo)))
    (lists : DecodesLists n decode) where
  decoded-Answers :
      (c : Client) (r : Response Body) (o : Option (Option (List UserInfo)))
      → decode r.body ≡ o
      → Answers n (after_decode c r o)
  decoded-Answers c r none e = tt
  decoded-Answers c r (some us) e = lists r.body us e

  pub get_user_list-Answers :
      (c : Client) (reply : Reply Body) → Answers n (get_user_list decode c reply)
  unfolding get_user_list read_user_list
  get_user_list-Answers c failed = tt
  get_user_list-Answers c empty = tt
  get_user_list-Answers c (answered r) = elim (Bool-cases (r.status == pos 304)) [
    | inl unchanged ↦ rw unchanged (no_users-IsUserList n)
    | inr changed ↦ elim (Bool-cases (leb_ℤ (pos 400) r.status)) [
      | inl refused ↦ rw (changed, refused) tt
      | inr fine ↦ rw (changed, fine) (decoded-Answers c r (decode r.body) refl)
    ]
  ]

module _ {Float Regex Bucket Core : Type 0} where
  -- The limiter knows exactly the users of the controller's list, and the tag is made from the node.
  abbrev pub IsInStep : ℕ → Controller Float Regex Bucket Core → Type 0
  IsInStep n c =
      Knows c.tag c.limiter c.user_list × IsUserList n c.user_list × (c.options.name ≡ "")

  abbrev pub on_core :
      Core → Controller Float Regex Bucket Core → Controller Float Regex Bucket Core
  on_core core c = record c { world = record c.world { core = core } }

  pub and_then :
      {P : Controller Float Regex Bucket Core → Type 0}
      (r : Round (Controller Float Regex Bucket Core))
      (k : Controller Float Regex Bucket Core → Round (Controller Float Regex Bucket Core))
      → Holds P r
      → ((c : Controller Float Regex Bucket Core) → P c → Holds P (k c))
      → Holds P (then_round r k)
  and_then (done c) k p h = h c p
  and_then crashed k p h = tt

  module _ {Error : Type 0} (api : CoreApi Float Core Error)
      (P : Controller Float Regex Bucket Core → Type 0) where
    pub logged-Holds :
        {A : Type 0} (c : Controller Float Regex Bucket Core) (r : Core × Result {0, 0} Error A)
        (k : Controller Float Regex Bucket Core → Round (Controller Float Regex Bucket Core))
        → ((core : Core) → P (on_core core c))
        → ((core : Core) → Holds P (k (on_core core c)))
        → Holds P (logged api c r k)
    logged-Holds c (core, ok a) k p h = h core
    logged-Holds c (core, err e) k p h = elim (Bool-cases (api.is_panic e)) [
      | inl panic ↦ rw panic tt
      | inr plain ↦ rw plain (p core)
    ]

    pub fatal-Holds :
        {A : Type 0} (c : Controller Float Regex Bucket Core) (r : Core × Result {0, 0} Error A)
        (k : Controller Float Regex Bucket Core → Round (Controller Float Regex Bucket Core))
        → ((core : Core) → Holds P (k (on_core core c)))
        → Holds P (fatal api c r k)
    fatal-Holds c (core, ok a) k h = h core
    fatal-Holds c (core, err e) k h = tt
