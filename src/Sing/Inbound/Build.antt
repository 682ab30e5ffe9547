-- ===== src/Sing/Inbound/Build.antt =====
-- core/sing/node.go: `getInboundOptions` on each type of node, and `processFallback` of utils.go.
use v2b_x_patched_by_haman.Prelude.{
  ℕ, String, ◌||◌, ◌&&◌, not, Option, none, some, List, [], ◌∷◌, ◌++◌, ◌==◌, string_eq, Result, ok,
  ◌>>=◌, or_fail, if◌then◌else◌,
}
use v2b_x_patched_by_haman.Text.{contains}
use v2b_x_patched_by_haman.Dict.{Dict}
use v2b_x_patched_by_haman.Conf.{
  FallBack, FallBackConfigForSing, MultiplexConfig, SingOptions, Options,
}
use v2b_x_patched_by_haman.Panel.Types.{
  CommonNode, VAllssNode, ShadowsocksNode, TrojanNode, NodeInfo,
}
use v2b_x_patched_by_haman.Sing.Inbound.{
  InboundError, nil_dereference, u16, ListenOptions, ServerOptions, TlsOptions, Decoding,
  Hysteria2Obfs, Extra, plain, shadowsocks, trojan, naive, tuic, any_tls, hysteria, hysteria2,
  MultiplexOptions, Inbound,
}
use v2b_x_patched_by_haman.Sing.Inbound.Transport.{v2ray_transport, trojan_transport}
use v2b_x_patched_by_haman.Sing.Inbound.Tls.{tls_options}

abbrev or_config : Option MultiplexConfig → Option MultiplexConfig → Option MultiplexConfig
or_config none c = c
or_config (some own) c = some own

abbrev own_vallss : {Float : Type 0} → Option (VAllssNode Float) → Option MultiplexConfig
own_vallss none = none
own_vallss (some n) = n.multiplex

abbrev own_trojan : {Float : Type 0} → Option (TrojanNode Float) → Option MultiplexConfig
own_trojan none = none
own_trojan (some n) = n.multiplex

-- The panel's own settings of a node win over those of the configuration.
unfoldable pub multiplex_config :
    {Float : Type 0} → NodeInfo Float → Option MultiplexConfig → Option MultiplexConfig
multiplex_config info c =
    if info.kind == "vmess" || info.kind == "vless"
    then or_config (own_vallss info.vallss) c
    else if info.kind == "trojan"
    then or_config (own_trojan info.trojan) c
    else c

unfoldable pub multiplex_options : Option MultiplexConfig → Option MultiplexOptions
multiplex_options none = none
multiplex_options (some c) = some (record {
  enabled = c.enabled;
  padding = c.padding;
  brutal_enabled = c.brutal.enabled;
  brutal_up_mbps = c.brutal.up_mbps;
  brutal_down_mbps = c.brutal.down_mbps;
})

unfoldable pub key_length : String → ℕ
key_length cipher =
    if cipher == "2022-blake3-aes-128-gcm"
    then 16
    else if cipher == "2022-blake3-aes-256-gcm" || cipher == "2022-blake3-chacha20-poly1305"
    then 32
    else 16

unfoldable pub hysteria2_obfs : String → String → Option Hysteria2Obfs
hysteria2_obfs kind password =
    if not (kind == "") && not (password == "")
    then some (record { kind = kind; password = password })
    else if not (kind == "")
    then some (record { kind = "salamander"; password = kind })
    else none

abbrev cons_to : {A : Type 0} → A → Option (List A) → Option (List A)
cons_to a none = none
cons_to a (some rest) = some (a ∷ rest)

abbrev pub listen_options : {Float : Type 0} → CommonNode Float → SingOptions → ListenOptions
listen_options common c = record {
  listen_port = u16 common.server_port;
  tcp_fast_open = c.tcp_fast_open;
}

abbrev pub plain_inbound : String → ListenOptions → Inbound
plain_inbound tag listen = record {
  tag = tag;
  kind = "";
  listen = listen;
  tls = none;
  transport = none;
  multiplex = none;
  extra = plain;
}

module _ (d : Decoding) where
  unfoldable pub fall_back : FallBack → Option ServerOptions
  fall_back f =
      let (port, fine) = d.atoi f.server_port in
      if fine then some (record { server = f.server; server_port = u16 port }) else none

  -- None if any port is not a number.
  unfoldable pub process_fallback : Dict String FallBack → Option (Dict String ServerOptions)
  process_fallback [] = some []
  process_fallback ((k, f) ∷ fs) =
      let rest = process_fallback fs in
      elim (fall_back f) [ none ↦ none | some o ↦ cons_to (k, o) rest ]

  unfoldable pub trojan_fallbacks : Option FallBackConfigForSing → Extra
  trojan_fallbacks none = trojan none none
  trojan_fallbacks (some c) = trojan (fall_back c.fall_back) (process_fallback c.fall_back_for_alpn)

  unfoldable pub shadowsocks_options : {Float : Type 0} → ShadowsocksNode Float → Extra
  unfolding key_length
  shadowsocks_options n =
      let random = d.random_bytes 0 (key_length n.cipher) in
      if contains n.cipher "2022"
      then shadowsocks n.cipher n.server_key (d.base64_std random ∷ [])
      else shadowsocks n.cipher "" (random ∷ [])

  unfoldable pub naive_options : Extra
  naive_options =
      naive (d.base64_raw_url (d.random_bytes 0 16)) (d.base64_raw_url (d.random_bytes 1 16))

  module _ {Float : Type 0} where
    -- The part of the options that the type of the node decides, after the common part `base`,
    -- which has neither type, TLS, transport nor multiplex.
    unfoldable pub by_type :
        NodeInfo Float
        → SingOptions
        → Inbound
        → TlsOptions
        → Option MultiplexOptions
        → Result InboundError Inbound
    unfolding trojan_fallbacks shadowsocks_options naive_options
    by_type info c base tls multiplex =
        if info.kind == "vmess" || info.kind == "vless"
        then (do
          n ← or_fail info.vallss nil_dereference
          t ← v2ray_transport d n.network n.network_settings
          ok (record base {
            kind = info.kind;
            tls = some tls;
            transport = some t;
            multiplex = multiplex;
          }))
        else if info.kind == "shadowsocks"
        then (do
          n ← or_fail info.shadowsocks nil_dereference
          ok (record base {
            kind = "shadowsocks";
            multiplex = multiplex;
            extra = shadowsocks_options n;
          }))
        else if info.kind == "trojan"
        then (do
          n ← or_fail info.trojan nil_dereference
          t ← trojan_transport d n.network n.network_settings
          ok (record base {
            kind = "trojan";
            tls = some tls;
            transport = some t;
            multiplex = multiplex;
            extra = trojan_fallbacks c.fall_back_configs;
          }))
        else if info.kind == "naive"
        then ok (record base { kind = "naive"; tls = some tls; extra = naive_options })
        else if info.kind == "tuic"
        then (do
          n ← or_fail info.tuic nil_dereference
          ok (record base {
            kind = "tuic";
            tls = some (record tls { alpn = tls.alpn ++ "h3" ∷ [] });
            extra = tuic n.congestion_control n.zero_rtt_handshake;
          }))
        else if info.kind == "anytls"
        then (do
          n ← or_fail info.any_tls nil_dereference
          ok (record base { kind = "anytls"; tls = some tls; extra = any_tls n.padding_scheme }))
        else if info.kind == "hysteria"
        then (do
          n ← or_fail info.hysteria nil_dereference
          ok (record base {
            kind = "hysteria";
            tls = some tls;
            extra = hysteria n.up_mbps n.down_mbps n.obfs;
          }))
        else if info.kind == "hysteria2"
        then (do
          n ← or_fail info.hysteria2 nil_dereference
          ok (record base {
            kind = "hysteria2";
            tls = some tls;
            extra =
                hysteria2 n.up_mbps n.down_mbps n.ignore_client_bandwidth
                  (hysteria2_obfs n.obfs_type n.obfs_password);
          }))
        else ok base

    unfoldable pub get_inbound_options :
        String → NodeInfo Float → Options → Result InboundError Inbound
    unfolding multiplex_config multiplex_options
    get_inbound_options tag info c = do
      common ← or_fail info.common nil_dereference
      tls ← tls_options d info c.cert_config
      by_type info c.sing_options (plain_inbound tag (listen_options common c.sing_options)) tls
          (multiplex_options (multiplex_config info c.sing_options.multiplex))
