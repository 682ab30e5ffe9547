-- ===== src/Sing/Inbound/Tls.antt =====
-- core/sing/node.go: the TLS options of an inbound, from the security of the node, the certificate
-- settings and the node's ECH.
use v2b_x_patched_by_haman.Prelude.{
  String, Bool, true, false, ◌||◌, ◌&&◌, not, Option, none, some, List, [], ◌∷◌, ◌==◌, string_eq,
  int_eq, Result, ok, err, ◌>>=◌, or_fail, if◌then◌else◌,
}
use v2b_x_patched_by_haman.Conf.{CertConfig}
use v2b_x_patched_by_haman.Panel.Types.{
  security_tls, security_reality, EchSettings, VAllssNode, NodeInfo,
}
use v2b_x_patched_by_haman.Panel.Parts.{ech}
use v2b_x_patched_by_haman.Sing.Inbound.{
  InboundError, no_cert_config, incomplete_certificate, no_certificate, no_ech_key, nil_dereference,
  u16, TlsOptions, Decoding,
}

abbrev pub is_empty : List String → Bool
is_empty [] = true
is_empty (s ∷ ss) = false

abbrev pub zero_tls : TlsOptions
zero_tls = record {
  enabled = false;
  server_name = "";
  alpn = [];
  certificate = [];
  certificate_path = "";
  key = [];
  key_path = "";
  ech = none;
  reality = none;
}

-- The certificate is inline, or in two files.
unfoldable pub certificate_tls : CertConfig → Result InboundError TlsOptions
certificate_tls c =
    if not (is_empty c.certificate) || not (is_empty c.key)
    then (if is_empty c.certificate || is_empty c.key
        then err incomplete_certificate
        else ok (record zero_tls { enabled = true; certificate = c.certificate; key = c.key }))
    else if (c.cert_mode == "none" || c.cert_mode == "") && (c.cert_file == "" || c.key_file == "")
    then err no_certificate
    else ok
        (record zero_tls { enabled = true; certificate_path = c.cert_file; key_path = c.key_file })

unfoldable pub add_ech : Option EchSettings → TlsOptions → Result InboundError TlsOptions
add_ech none tls = ok tls
add_ech (some e) tls =
    if e.enabled
    then (if is_empty e.key && e.key_path == ""
        then err no_ech_key
        else ok (record tls { ech = some (record { key = e.key; key_path = e.key_path }) }))
    else ok tls

module _ {Float : Type 0} (d : Decoding) where
  unfoldable pub reality_tls : VAllssNode Float → TlsOptions
  reality_tls v = record zero_tls {
    enabled = true;
    server_name = v.tls_settings.server_name;
    reality = some (record {
      short_id = v.tls_settings.short_id ∷ [];
      private_key = v.tls_settings.private_key;
      handshake = record {
        server =
            if v.tls_settings.dest == "" then v.tls_settings.server_name else v.tls_settings.dest;
        server_port = u16 (d.atoi v.tls_settings.server_port).0;
      };
      max_time_difference = d.parse_duration v.reality_config.max_time_diff;
    });
  }

  -- `info.VAllss` is read for Reality whatever the type of the node; nil is a panic.
  unfoldable pub security_options :
      NodeInfo Float → Option CertConfig → Result InboundError TlsOptions
  security_options info cert =
      if info.security == security_tls
      then (do c ← or_fail cert no_cert_config; certificate_tls c)
      else if info.security == security_reality
      then (do v ← or_fail info.vallss nil_dereference; ok (reality_tls v))
      else ok zero_tls

  unfoldable pub tls_options : NodeInfo Float → Option CertConfig → Result InboundError TlsOptions
  tls_options info cert = do tls ← security_options info cert; add_ech (ech info) tls
