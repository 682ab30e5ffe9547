-- ===== src/Sing/Inbound/Secure.antt =====
-- core/sing/node.go: the TLS options of the inbound of a node with TLS or Reality.
use v2b_x_patched_by_haman.Prelude.{
  String, ◌≡◌, refl, sym, ap, ◌∙◌, Bool, true, false, not, ◌||◌, ◌&&◌, Option, none, some, ◌==◌,
  string_eq, int_eq, Result, ok, err, WhenOk, WhenOk-if, WhenOk-bind, WhenOk-eq, ok_inj, refused,
  made, or_fail, arith, eq_iff,
}
use v2b_x_patched_by_haman.Conf.{CertConfig, SingOptions, Options}
use v2b_x_patched_by_haman.Panel.Types.{
  security_tls, security_reality, EchSettings, CommonNode, NodeInfo,
}
use v2b_x_patched_by_haman.Panel.Parts.{ech}
use v2b_x_patched_by_haman.Sing.Inbound.{
  InboundError, no_cert_config, nil_dereference, TlsOptions, Decoding, MultiplexOptions, Inbound,
  u16,
}
use v2b_x_patched_by_haman.Sing.Inbound.Tls.{
  certificate_tls, reality_tls, security_options, add_ech, tls_options, is_empty,
}
use v2b_x_patched_by_haman.Sing.Inbound.Transport.{v2ray_transport, trojan_transport}
use v2b_x_patched_by_haman.Sing.Inbound.Build.{
  by_type, plain_inbound, listen_options, get_inbound_options, multiplex_options, multiplex_config,
}

-- The types whose inbounds have TLS options.
abbrev pub bears_tls : String → Bool
bears_tls k =
    (k == "vmess" || k == "vless")
    || k == "trojan"
    || k == "naive"
    || k == "tuic"
    || k == "anytls"
    || k == "hysteria"
    || k == "hysteria2"

abbrev pub is_on : Option TlsOptions → Bool
is_on none = false
is_on (some tls) = tls.enabled

not_borne :
    {A : Type 0} {x y : A} (kind : String)
    → (kind == "shadowsocks") ≡ true
    → bears_tls kind ≡ true
    → x ≡ y
not_borne kind same b = absurd (cc (sym b ∙ ap bears_tls ((eq_iff kind "shadowsocks").0 same)))

abbrev IsOnLike : TlsOptions → TlsOptions → Type 0
IsOnLike tls tls' = tls'.enabled ≡ tls.enabled

abbrev IsOn : TlsOptions → Type 0
IsOn tls = tls.enabled ≡ true

certificate_tls-IsOn : (c : CertConfig) → WhenOk IsOn (certificate_tls c)
unfolding certificate_tls
certificate_tls-IsOn c =
    WhenOk-if (not (is_empty c.certificate) || not (is_empty c.key)) _ _
      (λ _.
        WhenOk-if (is_empty c.certificate || is_empty c.key) _ _ (λ _. refused _)
          (λ _. made _ refl))
      (λ _.
        WhenOk-if
          ((c.cert_mode == "none" || c.cert_mode == "") && (c.cert_file == "" || c.key_file == ""))
          _ _ (λ _. refused _) (λ _. made _ refl))

like-IsOn :
    (t : TlsOptions) (r : Result {0, 0} InboundError TlsOptions)
    → WhenOk (IsOnLike t) r
    → IsOn t
    → WhenOk IsOn r
like-IsOn t (err e) like on = refused e
like-IsOn t (ok t') (made _ like) on = made t' (like ∙ on)

add_ech-IsOnLike :
    (e : Option EchSettings) (tls : TlsOptions) → WhenOk (IsOnLike tls) (add_ech e tls)
unfolding add_ech
add_ech-IsOnLike none tls = made _ refl
add_ech-IsOnLike (some s) tls =
    WhenOk-if s.enabled _ _
      (λ _. WhenOk-if (is_empty s.key && s.key_path == "") _ _ (λ _. refused _) (λ _. made _ refl))
      (λ _. made _ refl)

module _ (d : Decoding) {Float : Type 0} (info : NodeInfo Float) where
  abbrev pub is_secure : Bool
  is_secure = info.security == security_tls || info.security == security_reality

  security_options-IsOn :
      (cert : Option CertConfig) → is_secure ≡ true → WhenOk IsOn (security_options d info cert)
  unfolding security_options reality_tls
  security_options-IsOn cert secure =
      WhenOk-if (info.security == security_tls) _ _
        (λ _. WhenOk-bind (or_fail cert no_cert_config) _ (λ c _. certificate_tls-IsOn c))
        (λ off.
          WhenOk-if (info.security == security_reality) _ _
            (λ _. WhenOk-bind (or_fail info.vallss nil_dereference) _ (λ v _. made _ refl))
            (λ never. absurd (ground (arith, secure, off, never))))

  tls_options-IsOn :
      (cert : Option CertConfig) → is_secure ≡ true → WhenOk IsOn (tls_options d info cert)
  unfolding tls_options
  tls_options-IsOn cert secure = WhenOk-bind (security_options d info cert) _ (λ t got.
      like-IsOn t (add_ech (ech info) t) (add_ech-IsOnLike (ech info) t)
        (WhenOk-eq (security_options-IsOn cert secure) got))

  -- What the type of the node leaves of the common part.
  abbrev IsBuilt : Inbound → TlsOptions → Inbound → Type 0
  IsBuilt base tls i =
      (i.tag ≡ base.tag)
      × (i.listen ≡ base.listen)
      × (bears_tls info.kind ≡ true → is_on i.tls ≡ tls.enabled)

  by_type-IsBuilt :
      (c : SingOptions) (base : Inbound) (tls : TlsOptions) (m : Option MultiplexOptions)
      → WhenOk (IsBuilt base tls) (by_type d info c base tls m)
  unfolding by_type
  by_type-IsBuilt c base tls m =
      WhenOk-if (info.kind == "vmess" || info.kind == "vless") _ _
        (λ _. WhenOk-bind (or_fail info.vallss nil_dereference) _ (λ n _.
          WhenOk-bind (v2ray_transport d n.network n.network_settings) _
            (λ t _. made _ (refl, refl, λ _. refl))))
        (λ no1.
          WhenOk-if (info.kind == "shadowsocks") _ _
            (λ same.
              WhenOk-bind (or_fail info.shadowsocks nil_dereference) _
                (λ n _. made _ (refl, refl, λ b. not_borne info.kind same b)))
            (λ no2.
              WhenOk-if (info.kind == "trojan") _ _
                (λ _. WhenOk-bind (or_fail info.trojan nil_dereference) _ (λ n _.
                  WhenOk-bind (trojan_transport d n.network n.network_settings) _
                    (λ t _. made _ (refl, refl, λ _. refl))))
                (λ no3.
                  WhenOk-if (info.kind == "naive") _ _ (λ _. made _ (refl, refl, λ _. refl))
                    (λ no4.
                      WhenOk-if (info.kind == "tuic") _ _
                        (λ _.
                          WhenOk-bind (or_fail info.tuic nil_dereference) _
                            (λ n _. made _ (refl, refl, λ _. refl)))
                        (λ no5.
                          WhenOk-if (info.kind == "anytls") _ _
                            (λ _.
                              WhenOk-bind (or_fail info.any_tls nil_dereference) _
                                (λ n _. made _ (refl, refl, λ _. refl)))
                            (λ no6.
                              WhenOk-if (info.kind == "hysteria") _ _
                                (λ _.
                                  WhenOk-bind (or_fail info.hysteria nil_dereference) _
                                    (λ n _. made _ (refl, refl, λ _. refl)))
                                (λ no7.
                                  WhenOk-if (info.kind == "hysteria2") _ _
                                    (λ _.
                                      WhenOk-bind (or_fail info.hysteria2 nil_dereference) _
                                        (λ n _. made _ (refl, refl, λ _. refl)))
                                    (λ no8. made _ (
                                      refl,
                                      refl,
                                      λ b.
                                          absurd
                                            (ground (arith, b, no1, no3, no4, no5, no6, no7, no8)),
                                    )))))))))

  -- The inbound has the tag, the port of the node's common part, and TLS that is on.
  abbrev pub IsServed : String → Inbound → Type 0
  IsServed tag i =
      (i.tag ≡ tag)
      × ((common : CommonNode Float) × (info.common ≡ some common)
          × (i.listen.listen_port ≡ u16 common.server_port))
      × (is_on i.tls ≡ true)

  or_fail_eq :
      (o : Option (CommonNode Float)) (common : CommonNode Float)
      → or_fail {0, 0} o nil_dereference ≡ ok common
      → o ≡ some common
  or_fail_eq none common e = absurd (cc)
  or_fail_eq (some n) common e = ap some (ok_inj e)

  served :
      (tag : String) (c : SingOptions) (common : CommonNode Float) (tls : TlsOptions)
      → info.common ≡ some common
      → bears_tls info.kind ≡ true
      → tls.enabled ≡ true
      → (r : Result {0, 0} InboundError Inbound)
      → WhenOk (IsBuilt (plain_inbound tag (listen_options common c)) tls) r
      → WhenOk (IsServed tag) r
  served tag c common tls found borne on (err e) h = refused e
  served tag c common tls found borne on (ok i) (made _ (same, listen, like)) =
      made i (same, (common, found, ap (λ l. l.listen_port) listen), like borne ∙ on)

  -- When the inbound options of a node are made, and the node has TLS or Reality and a type other than
  -- Shadowsocks that the code knows, they have the given tag, the port of the node's common part
  -- modulo 2 to the 16, and TLS options that are enabled.
  pub get_inbound_options-IsServed :
      (tag : String) (c : Options) (i : Inbound)
      → is_secure ≡ true
      → bears_tls info.kind ≡ true
      → get_inbound_options d tag info c ≡ ok i
      → IsServed tag i
  unfolding get_inbound_options
  get_inbound_options-IsServed tag c i secure borne e =
      WhenOk-eq {P = IsServed tag}
        (WhenOk-bind (or_fail info.common nil_dereference) _ (λ common found.
          WhenOk-bind (tls_options d info c.cert_config) _ (λ tls got.
            served tag c.sing_options common tls (or_fail_eq info.common common found) borne
              (WhenOk-eq (tls_options-IsOn c.cert_config secure) got)
              (by_type d info c.sing_options
                (plain_inbound tag (listen_options common c.sing_options)) tls
                (multiplex_options (multiplex_config info c.sing_options.multiplex)))
              (by_type-IsBuilt c.sing_options
                (plain_inbound tag (listen_options common c.sing_options)) tls
                (multiplex_options (multiplex_config info c.sing_options.multiplex))))))
        e
