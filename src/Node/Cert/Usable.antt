-- ===== src/Node/Cert/Usable.antt =====
-- node/cert.go and core/sing/node.go: the settings that requestCert leaves, as getInboundOptions reads them.
use v2b_x_patched_by_haman.Prelude.{
  ℤ, ◌≡◌, refl, ap, subst, sym, ◌∙◌, Bool, true, false, ◌&&◌, Bool-cases, inl, inr, ◌==◌, string_eq,
  ok, arith, ◌⊎◌,
}
use v2b_x_patched_by_haman.Conf.{CertConfig}
use v2b_x_patched_by_haman.Panel.Types.{NodeInfo}
use v2b_x_patched_by_haman.Sing.Inbound.{TlsOptions}
use v2b_x_patched_by_haman.Sing.Inbound.Tls.{is_empty, certificate_tls, zero_tls}
use v2b_x_patched_by_haman.Node.Cert.{
  CertEnv, make_cert, obtain_cert, with_mode, with_domain, ensure_machine_cert_paths,
  normalize_cert_paths, request_cert,
}

both_empty : (a b : Bool) → (a && b) ≡ true → (a ≡ true) × (b ≡ true)
both_empty a b h = (ground (arith), ground (arith))

-- The certificate and its key are both given inline, or both in a file that is named.
abbrev pub NamesCert : TlsOptions → Type 0
NamesCert tls =
    ((is_empty tls.certificate ≡ false) × (is_empty tls.key ≡ false))
    ⊎ (((tls.certificate_path == "") ≡ false) × ((tls.key_path == "") ≡ false))

-- An inbound gets options that are on, and name a certificate.
abbrev pub TakesCert : CertConfig → Type 0
TakesCert c =
    (tls : TlsOptions) × (certificate_tls c ≡ ok tls) × (tls.enabled ≡ true) × NamesCert tls

takes_inline :
    (c : CertConfig) → is_empty c.certificate ≡ false → is_empty c.key ≡ false → TakesCert c
unfolding certificate_tls
takes_inline c full whole = (
  record zero_tls { enabled = true; certificate = c.certificate; key = c.key },
  rw (full, whole),
  refl,
  inl (full, whole),
)

takes_files :
    (c : CertConfig)
    → is_empty c.certificate ≡ true
    → is_empty c.key ≡ true
    → (c.cert_file == "") ≡ false
    → (c.key_file == "") ≡ false
    → TakesCert c
unfolding certificate_tls
takes_files c bare keyless file key = (
  record zero_tls { enabled = true; certificate_path = c.cert_file; key_path = c.key_file },
  ground (arith),
  refl,
  inr (file, key),
)

obtain_cert-files :
    (env : CertEnv) (c : CertConfig)
    → obtain_cert env c ≡ ok tt
    → ((c.cert_file == "") ≡ false) × ((c.key_file == "") ≡ false)
unfolding obtain_cert make_cert
obtain_cert-files env c h = (ground (arith), ground (arith))

ensure_machine_cert_paths-keeps :
    (machine_id node_id : ℤ) (c : CertConfig)
    → ((ensure_machine_cert_paths machine_id node_id c).certificate ≡ c.certificate)
      × ((ensure_machine_cert_paths machine_id node_id c).key ≡ c.key)
unfolding ensure_machine_cert_paths
ensure_machine_cert_paths-keeps machine_id node_id c = (ground (arith), ground (arith))

module _ (env : CertEnv) {Float : Type 0} (machine_id node_id : ℤ) (info : NodeInfo Float)
    (c : CertConfig) where
  -- The settings that the request leaves when there is no inline certificate.
  abbrev prepared : CertConfig
  prepared =
      normalize_cert_paths env machine_id node_id
        (ensure_machine_cert_paths machine_id node_id (with_mode (with_domain info c)))

  prepared-keeps : (prepared.certificate ≡ c.certificate) × (prepared.key ≡ c.key)
  unfolding normalize_cert_paths with_mode with_domain
  prepared-keeps =
      ensure_machine_cert_paths-keeps machine_id node_id (with_mode (with_domain info c))

  request_cert-bare :
      is_empty c.certificate ≡ true
      → is_empty c.key ≡ true
      → request_cert env machine_id node_id info c ≡ (prepared, obtain_cert env prepared)
  unfolding request_cert
  request_cert-bare bare keyless = rw (bare, keyless)

  -- The inline certificate that a request lets through is whole.
  request_cert-inline :
      (is_empty c.certificate && is_empty c.key) ≡ false
      → {c' : CertConfig} → request_cert env machine_id node_id info c ≡ (c', ok tt)
      → (c' ≡ c) × (is_empty c.certificate ≡ false) × (is_empty c.key ≡ false)
  unfolding request_cert
  request_cert-inline inline e = (ground (arith), ground (arith), ground (arith))

-- When a request for a certificate returns without error, `getInboundOptions` makes of the settings
-- that it leaves TLS options that are enabled and that have both the certificate and its key, inline
-- and not empty, or the paths of both, neither of them empty.
pub request_cert-usable :
    {Float : Type 0} (env : CertEnv) (machine_id node_id : ℤ) (info : NodeInfo Float)
    (c c' : CertConfig)
    → request_cert env machine_id node_id info c ≡ (c', ok tt)
    → TakesCert c'
request_cert-usable env machine_id node_id info c c' e =
    elim (Bool-cases (is_empty c.certificate && is_empty c.key)) [
      | inr inline ↦
          let (same, whole, full) = request_cert-inline env machine_id node_id info c inline e in
          subst TakesCert (sym same) (takes_inline c whole full)
      | inl bare ↦
          let (no_cert, no_key) = both_empty (is_empty c.certificate) (is_empty c.key) bare in
          let p = sym (request_cert-bare env machine_id node_id info c no_cert no_key) ∙ e in
          let (same, whole) = prepared-keeps env machine_id node_id info c in
          let (file, key) =
            obtain_cert-files env (prepared env machine_id node_id info c) (ap (λ r. r.1) p) in
          subst TakesCert (ap (λ r. r.0) p) (
            takes_files (prepared env machine_id node_id info c) (ap is_empty same ∙ no_cert)
              (ap is_empty whole ∙ no_key) file key)
    ]
