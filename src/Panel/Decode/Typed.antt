-- ===== src/Panel/Decode/Typed.antt =====
-- api/panel/node.go: the type and the part of a decoded node.
use v2b_x_patched_by_haman.Prelude.{
  ℕ, suc, ℤ, String, ◌≡◌, refl, sym, ap, subst, ◌∙◌, Bool, true, false, ◌||◌, Bool-cases, Option,
  none, some, inl, inr, List, [], ◌∷◌, ◌==◌, string_eq, int_eq, Result, ok, err, >>=-eq-ok, ok_inj,
  if_ok, or_fail, if◌then◌else◌,
}
use v2b_x_patched_by_haman.Panel.Types.{Route, BaseConfig, CommonNode, NodeInfo}
use v2b_x_patched_by_haman.Panel.Route.{
  parse_route_match, act, act_on, at_route, add_routes, set_intervals, finalize_node_info, cleared,
  RouteError,
}
use v2b_x_patched_by_haman.Panel.Parts.{
  new_node_info, with_vallss, with_shadowsocks, with_trojan, with_tuic, with_any_tls, with_hysteria,
  with_hysteria2, with_naive,
}
use v2b_x_patched_by_haman.Panel.Decode.{
  Decoders, normalize_response_node_type, decode_part, part_of, routed, decode_node_info_body,
  decode_node_info, bad_metadata,
}

abbrev pub is_some : {A : Type 0} → Option A → Bool
is_some none = false
is_some (some a) = true

-- The part for the type of the node is set.
abbrev pub has_part : {Float : Type 0} → NodeInfo Float → Bool
has_part n =
    if n.kind == "vmess" || n.kind == "vless"
    then is_some n.vallss
    else if n.kind == "shadowsocks"
    then is_some n.shadowsocks
    else if n.kind == "trojan"
    then is_some n.trojan
    else if n.kind == "tuic"
    then is_some n.tuic
    else if n.kind == "anytls"
    then is_some n.any_tls
    else if n.kind == "hysteria"
    then is_some n.hysteria
    else if n.kind == "hysteria2"
    then is_some n.hysteria2
    else if n.kind == "naive"
    then is_some n.naive
    else false

module _ {Float : Type 0} where
  act_on-has_part :
      (i : ℕ) (r : Route Float) (ms : List String) (n : NodeInfo Float)
      → has_part (act_on i r ms n) ≡ has_part n
  unfolding act
  act_on-has_part i r [] n = refl
  act_on-has_part i r (first ∷ rest) n = elim (Bool-cases (r.action == "block")) [
    | inl blocks ↦ rw blocks
    | inr passes ↦ elim (Bool-cases (r.action == "dns")) [
      | inl dns ↦ rw (passes, dns)
      | inr neither ↦ rw (passes, neither)
    ]
  ]

  add_routes-has_part :
      (i : ℕ) (rs : List (Route Float)) (n n' : NodeInfo Float)
      → add_routes i rs n ≡ ok n'
      → has_part n' ≡ has_part n
  unfolding add_routes
  add_routes-has_part i [] n n' e = ap has_part (sym (ok_inj e))
  add_routes-has_part i (r ∷ rs) n n' e =
      let (ms, _, later) = >>=-eq-ok (at_route i (parse_route_match r.match)) _ e in
      add_routes-has_part (suc i) rs (act_on i r ms n) n' later ∙ act_on-has_part i r ms n

  -- The way through a part.
  of_part :
      {Part : Type 0} (f : NodeInfo Float → Part → NodeInfo Float × CommonNode Float)
      (n : NodeInfo Float) (o : Option Part) (n' : NodeInfo Float) (cm : CommonNode Float)
      → part_of f n o ≡ ok (n', cm)
      → (rsp : Part) × ((f n rsp).0 ≡ n')
  of_part f n none n' cm e = absurd (cc)
  of_part f n (some rsp) n' cm e = (rsp, ap (λ p. p.0) (ok_inj e))

  decode_part-has_part :
      {Body : Type 0} (d : Decoders Float Body) (body : Body) (n n' : NodeInfo Float)
      (cm : CommonNode Float)
      → decode_part d body n ≡ ok (n', cm)
      → has_part n' ≡ true
  unfolding decode_part with_vallss with_shadowsocks with_trojan with_tuic with_any_tls
      with_hysteria with_hysteria2 with_naive
  decode_part-has_part d body n n' cm e =
      if_ok (n.kind == "vmess" || n.kind == "vless") _ _ e
        (λ is_vallss x.
          let (rsp, same) = of_part with_vallss n (d.vallss body) n' cm x in
          subst (λ m. has_part m ≡ true) same (rw is_vallss refl))
        (λ not_vallss e1.
          if_ok (n.kind == "shadowsocks") _ _ e1
            (λ is_shadowsocks x.
              let (rsp, same) = of_part with_shadowsocks n (d.shadowsocks body) n' cm x in
              subst (λ m. has_part m ≡ true) same (rw (not_vallss, is_shadowsocks) refl))
            (λ not_shadowsocks e2.
              if_ok (n.kind == "trojan") _ _ e2
                (λ is_trojan x.
                  let (rsp, same) = of_part with_trojan n (d.trojan body) n' cm x in
                  subst (λ m. has_part m ≡ true) same
                    (rw (not_vallss, not_shadowsocks, is_trojan) refl))
                (λ not_trojan e3.
                  if_ok (n.kind == "tuic") _ _ e3
                    (λ is_tuic x.
                      let (rsp, same) = of_part with_tuic n (d.tuic body) n' cm x in
                      subst (λ m. has_part m ≡ true) same
                        (rw (not_vallss, not_shadowsocks, not_trojan, is_tuic) refl))
                    (λ not_tuic e4.
                      if_ok (n.kind == "anytls") _ _ e4
                        (λ is_any_tls x.
                          let (rsp, same) = of_part with_any_tls n (d.any_tls body) n' cm x in
                          subst (λ m. has_part m ≡ true) same
                            (rw (not_vallss, not_shadowsocks, not_trojan, not_tuic, is_any_tls)
                              refl))
                        (λ not_any_tls e5.
                          if_ok (n.kind == "hysteria") _ _ e5
                            (λ is_hysteria x.
                              let (rsp, same) = of_part with_hysteria n (d.hysteria body) n' cm x in
                              subst (λ m. has_part m ≡ true) same
                                (rw
                                  (
                                    not_vallss, not_shadowsocks, not_trojan, not_tuic, not_any_tls,
                                    is_hysteria,
                                  )
                                  refl))
                            (λ not_hysteria e6.
                              if_ok (n.kind == "hysteria2") _ _ e6
                                (λ is_hysteria2 x.
                                  let (rsp, same) =
                                    of_part with_hysteria2 n (d.hysteria2 body) n' cm x in
                                  subst (λ m. has_part m ≡ true) same
                                    (rw
                                      (
                                        not_vallss, not_shadowsocks, not_trojan, not_tuic,
                                        not_any_tls, not_hysteria, is_hysteria2,
                                      )
                                      refl))
                                (λ not_hysteria2 e7.
                                  if_ok (n.kind == "naive") _ _ e7
                                    (λ is_naive x.
                                      let (rsp, same) =
                                        of_part with_naive n (d.naive body) n' cm x in
                                      subst (λ m. has_part m ≡ true) same
                                        (rw
                                          (
                                            not_vallss, not_shadowsocks, not_trojan, not_tuic,
                                            not_any_tls, not_hysteria, not_hysteria2, is_naive,
                                          )
                                          refl))
                                    (λ not_naive e8. absurd (cc)))))))))

  module _ (float_seconds : Float → ℤ) (parse_float : String → Option Float) where
    set_intervals-has_part :
        (b : Option (BaseConfig Float)) (n : NodeInfo Float)
        → has_part (set_intervals float_seconds parse_float b n) ≡ has_part n
    unfolding set_intervals
    set_intervals-has_part none n = refl
    set_intervals-has_part (some b) n = refl

    finalize_node_info-has_part :
        (n n' : NodeInfo Float) (cm : CommonNode Float)
        → finalize_node_info float_seconds parse_float n cm ≡ ok n'
        → (has_part n' ≡ has_part n) × (n'.common ≡ some (cleared cm))
    unfolding finalize_node_info
    finalize_node_info-has_part n n' cm e =
        let (m, added, last) = >>=-eq-ok (add_routes 0 cm.routes n) _ e in
        let same = ok_inj last in
        (
          ap has_part (sym same)
              ∙ set_intervals-has_part cm.base_config m
              ∙ add_routes-has_part 0 cm.routes n m added,
          ap (λ (q : NodeInfo Float). q.common) (sym same),
        )

    routed-eq-ok :
        (x : Result RouteError (NodeInfo Float)) (n : NodeInfo Float) → routed x ≡ ok n → x ≡ ok n
    routed-eq-ok (ok m) n h = ap ok (ok_inj h)
    routed-eq-ok (err e) n h = absurd (cc)

    -- A node that is decoded without an error has the part for its type and the common settings.
    pub decode_node_info-has_part :
        {Body : Type 0} (d : Decoders Float Body) (body : Body) (id : ℤ) (requested : String)
        (n : NodeInfo Float)
        → decode_node_info float_seconds parse_float d body id requested ≡ ok n
        → (has_part n ≡ true) × (is_some n.common ≡ true)
    unfolding decode_node_info decode_node_info_body
    decode_node_info-has_part d body id requested n e =
        let (meta, _, e1) = >>=-eq-ok (or_fail (d.meta body) bad_metadata) _ e in
        let (kind, _, e2) = >>=-eq-ok (normalize_response_node_type requested meta) _ e1 in
        let start = record (new_node_info id) { kind = kind } in
        let ((m, cm), part, last) = >>=-eq-ok (decode_part d body start) _ e2 in
        let (kept, common) = finalize_node_info-has_part m n cm (routed-eq-ok _ n last) in
        (kept ∙ decode_part-has_part d body start m cm part, rw common refl)
