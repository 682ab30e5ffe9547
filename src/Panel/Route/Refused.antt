-- ===== src/Panel/Route/Refused.antt =====
-- What the limiter refuses, once it has the rules of a decoded node.
use v2b_x_patched_by_haman.Prelude.{
  ℕ, suc, ℤ, String, ◌≡◌, refl, sym, ap, subst, ◌∙◌, Bool, true, false, not, Bool-cases, Option,
  none, some, inl, inr, List, [], ◌∷◌, ◌++◌, ◌==◌, string_eq, Result, ok, err, >>=-eq-ok, ok_inj,
  arith, if◌then◌else◌, In, In-cons, In-append, In-append_left, In-append_right, here, there, ◌↔◌,
}
use v2b_x_patched_by_haman.Limiter.State.{Limiter}
use v2b_x_patched_by_haman.Limiter.Rules.{update_rule, check_protocol_rule, check_domain_rule}
use v2b_x_patched_by_haman.Limiter.Rules.Refuse.{update_rule-protocols, update_rule-domains}
use v2b_x_patched_by_haman.Panel.{Rules}
use v2b_x_patched_by_haman.Panel.Types.{Route, BaseConfig, CommonNode, NodeInfo}
use v2b_x_patched_by_haman.Panel.Route.{
  MatchError, parse_route_match, block_all, act, act_on, at_route, add_routes, set_intervals,
  finalize_node_info,
}
use v2b_x_patched_by_haman.Panel.Route.Blocks.{
  blocked, pick, In-pick, names_protocol, protocol_of, pattern_of, extended, block_all-extended,
  block_all-append,
}

abbrev all_blocked : {Float : Type 0} → List (Route Float) → List String
all_blocked [] = []
all_blocked (r ∷ rs) = blocked r ++ all_blocked rs

In-all_blocked :
    {Float : Type 0} (rs : List (Route Float)) (v : String)
    → In v (all_blocked rs) ↔ ((r : Route Float) × In r rs × In v (blocked r))
In-all_blocked [] v = ((λ i. elim i [ ]), (λ (r, i, j). elim i [ ]))
In-all_blocked (r ∷ rs) v =
    let ih = In-all_blocked rs v in
    (
      (λ i. elim (In-append (blocked r) i) [
        | inl now ↦ (r, here refl, now)
        | inr later ↦ let (q, j, k) = ih.0 later in (q, there j, k)
      ]),
      (λ (q, j, k). elim (In-cons j) [
        | inl same ↦ In-append_left _ (subst (λ t. In v (blocked t)) same k)
        | inr later ↦ In-append_right (blocked r) (ih.1 (q, later, k))
      ]),
    )

at_route-eq-ok :
    (i : ℕ) (x : Result MatchError (List String)) (ms : List String)
    → at_route i x ≡ ok ms
    → x ≡ ok ms
at_route-eq-ok i (ok a) ms h = ground arith
at_route-eq-ok i (err e) ms h = absurd (cc)

module _ {Float : Type 0} where
  act_on-rules :
      (i : ℕ) (r : Route Float) (ms : List String) (node : NodeInfo Float)
      → (act_on i r ms node).rules ≡ block_all node.rules (if r.action == "block" then ms else [])
  unfolding act block_all
  act_on-rules i r [] node = elim (Bool-cases (r.action == "block")) [
    | inl blocks ↦ rw blocks
    | inr passes ↦ rw passes
  ]
  act_on-rules i r (first ∷ rest) node = elim (Bool-cases (r.action == "block")) [
    | inl blocks ↦ rw blocks
    | inr passes ↦ elim (Bool-cases (r.action == "dns")) [
      | inl dns ↦ rw (passes, dns)
      | inr neither ↦ rw (passes, neither)
    ]
  ]

  add_routes-rules :
      (i : ℕ) (rs : List (Route Float)) (node node' : NodeInfo Float)
      → add_routes i rs node ≡ ok node'
      → node'.rules ≡ block_all node.rules (all_blocked rs)
  unfolding add_routes block_all
  add_routes-rules i [] node node' e = ground arith
  add_routes-rules i (r ∷ rs) node node' e =
      let (ms, parsed, later) = >>=-eq-ok (at_route i (parse_route_match r.match)) _ e in
      add_routes-rules (suc i) rs (act_on i r ms node) node' later
      ∙ ap (λ q. block_all q (all_blocked rs))
          (act_on-rules i r ms node
            ∙ rw (at_route-eq-ok i (parse_route_match r.match) ms parsed) refl)
      ∙ block_all-append node.rules (blocked r) (all_blocked rs)

  module _ (float_seconds : Float → ℤ) (parse_float : String → Option Float) where
    set_intervals-rules :
        (b : Option (BaseConfig Float)) (node : NodeInfo Float)
        → (set_intervals float_seconds parse_float b node).rules ≡ node.rules
    unfolding set_intervals
    set_intervals-rules none node = refl
    set_intervals-rules (some b) node = refl

    finalize-rules :
        (node node' : NodeInfo Float) (cm : CommonNode Float)
        → finalize_node_info float_seconds parse_float node cm ≡ ok node'
        → node'.rules ≡ extended node.rules (all_blocked cm.routes)
    unfolding finalize_node_info
    finalize-rules node node' cm e =
        let (n, added, last) = >>=-eq-ok (add_routes 0 cm.routes node) _ e in
        let kept : node'.rules ≡ (set_intervals float_seconds parse_float cm.base_config n).rules =
          sym (ap (λ (m : NodeInfo Float). m.rules) (ok_inj last)) in
        kept
        ∙ set_intervals-rules cm.base_config n
        ∙ add_routes-rules 0 cm.routes node n added
        ∙ block_all-extended node.rules (all_blocked cm.routes)

    module _ {Regex Bucket : Type 0} (compile : String → Option Regex) (node node' : NodeInfo Float)
        (cm : CommonNode Float) (no_rules : node.rules ≡ record { regexp = []; protocol = [] })
        (finalized : finalize_node_info float_seconds parse_float node cm ≡ ok node')
        (l l' : Limiter Regex Bucket) (updated : update_rule compile node'.rules l ≡ some l') where
      rules_eq :
          node'.rules ≡ extended (record { regexp = []; protocol = [] }) (all_blocked cm.routes)
      rules_eq =
          finalize-rules node node' cm finalized
          ∙ ap (λ r. extended r (all_blocked cm.routes)) no_rules

      -- For a node without rules that `finalizeNodeInfo` takes the panel's routes into, and whose rules
      -- `UpdateRule` then installs in a limiter, a protocol is refused exactly if a route with the
      -- action "block" has a match that is "protocol:" and the protocol's name.
      pub finalize_node_info-protocols :
          (protocol : String)
          → (check_protocol_rule protocol l' ≡ true) ↔ (
              (v : String) × ((r : Route Float) × In r cm.routes × In v (blocked r))
              × (names_protocol v ≡ true)
              × (protocol_of v ≡ protocol))
      finalize_node_info-protocols protocol =
          let rule = update_rule-protocols compile node'.rules l l' protocol updated in
          let picked = In-pick names_protocol protocol_of (all_blocked cm.routes) protocol in
          let named : node'.rules.protocol
              ≡ pick names_protocol protocol_of (all_blocked cm.routes) =
            ap (λ (r : Rules). r.protocol) rules_eq in
          (
            (λ h.
                let (v, i, n, e) = picked.0 (subst (In protocol) named (rule.0 h)) in
                (v, (In-all_blocked cm.routes v).0 i, n, e)),
            (λ (v, i, n, e). rule.1 (
                subst (In protocol) (sym named)
                  (picked.1 (v, (In-all_blocked cm.routes v).1 i, n, e)))),
          )

      -- For a node without rules that `finalizeNodeInfo` takes the panel's routes into, and whose rules
      -- `UpdateRule` then installs in a limiter, a destination is refused exactly if a match of a route
      -- with the action "block" that does not begin with "protocol:", without the prefix "regexp:" and
      -- compiled, matches it.
      pub finalize_node_info-domains :
          (matches : Regex → String → Bool) (destination : String)
          → (check_domain_rule matches destination l' ≡ true) ↔ (
              (v : String) × ((r : Route Float) × In r cm.routes × In v (blocked r))
              × (names_protocol v ≡ false)
              × ((rule : Regex) × (compile (pattern_of v) ≡ some rule)
                  × (matches rule destination ≡ true)))
      finalize_node_info-domains matches destination =
          let rule = update_rule-domains compile matches node'.rules l l' destination updated in
          let picked = In-pick (λ v. not (names_protocol v)) pattern_of (all_blocked cm.routes) in
          let patterns : node'.rules.regexp
              ≡ pick (λ v. not (names_protocol v)) pattern_of (all_blocked cm.routes) =
            ap (λ (r : Rules). r.regexp) rules_eq in
          (
            (λ h.
                let (p, r, i, c, fits) = rule.0 h in
                let (v, j, n, e) = (picked p).0 (subst (In p) patterns i) in
                (
                  v,
                  (In-all_blocked cm.routes v).0 j,
                  ground (arith, n),
                  (r, subst (λ q. compile q ≡ some r) (sym e) c, fits),
                )),
            (λ (v, j, n, (r, c, fits)). rule.1 (
              pattern_of v,
              r,
              subst (In (pattern_of v)) (sym patterns) (
                  (picked (pattern_of v)).1
                    (v, (In-all_blocked cm.routes v).1 j, ground (arith, n), refl)),
              c,
              fits,
            )),
          )
