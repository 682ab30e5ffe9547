-- ===== src/Node/Cert.antt =====
-- node/cert.go: what a TLS node does to have a certificate, `requestCert`.
pub mod Usable
use Prim.Native.String.{◌++◌}
use v2b_x_patched_by_haman.Prelude.{
  ℤ, pos, leb_ℤ, String, Bool, ◌||◌, ◌&&◌, not, Option, none, some, List, [], ◌∷◌, ◌==◌, string_eq,
  Result, ok, err, if◌then◌else◌,
}
use v2b_x_patched_by_haman.Itoa.{itoa}
use v2b_x_patched_by_haman.Conf.{CertConfig}
use v2b_x_patched_by_haman.Panel.Types.{
  TlsSettings, CommonNode, VAllssNode, TrojanNode, TuicNode, AnyTlsNode, NaiveNode, HysteriaNode,
  Hysteria2Node, NodeInfo,
}
use v2b_x_patched_by_haman.Sing.Inbound.Tls.{is_empty}

pub data CertError : Type 0 where
  incomplete_inline no_cert_config no_cert_path no_cert_domain lego_failed self_failed : CertError
  unsupported_mode : String → CertError

-- `strings.NewReplacer(...).Replace`, `file.IsExist`, and whether there is no error in
-- `NewLego` with `CreateCert` and in `generateSelfSslCertificate`.
pub record CertEnv : Type 0 where
  pub replace : List (String × String) → String → String
  pub exists : String → Bool
  pub create_cert : CertConfig → Bool
  pub self_sign : String → String → String → Bool

abbrev name_of : {Part : Type 0} → (Part → TlsSettings) → Option Part → String
name_of f none = ""
name_of f (some part) = (f part).server_name

abbrev common_name : {Float : Type 0} → Option (CommonNode Float) → String
common_name none = ""
common_name (some common) = common.server_name

-- The server name of the part for the type of the node.
unfoldable pub part_name : {Float : Type 0} → NodeInfo Float → String
part_name {Float = Float} n =
    if n.kind == "vmess" || n.kind == "vless"
    then name_of (λ (p : VAllssNode Float). p.tls_settings) n.vallss
    else if n.kind == "trojan"
    then name_of (λ (p : TrojanNode Float). p.tls_settings) n.trojan
    else if n.kind == "naive"
    then name_of (λ (p : NaiveNode Float). p.tls_settings) n.naive
    else if n.kind == "tuic"
    then name_of (λ (p : TuicNode Float). p.tls_settings) n.tuic
    else if n.kind == "anytls"
    then name_of (λ (p : AnyTlsNode Float). p.tls_settings) n.any_tls
    else if n.kind == "hysteria"
    then name_of (λ (p : HysteriaNode Float). p.tls_settings) n.hysteria
    else if n.kind == "hysteria2"
    then name_of (λ (p : Hysteria2Node Float). p.tls_settings) n.hysteria2
    else ""

abbrev or_else : String → String → String
or_else s t = if s == "" then t else s

unfoldable pub with_domain : {Float : Type 0} → NodeInfo Float → CertConfig → CertConfig
unfolding part_name
with_domain n c = record c {
  cert_domain = or_else c.cert_domain (or_else (part_name n) (common_name n.common));
}

unfoldable pub with_mode : CertConfig → CertConfig
with_mode c = record c { cert_mode = or_else c.cert_mode "self" }

abbrev base_dir : ℤ → String
base_dir machine_id = "/etc/V2bX/cert/machine-" ++ itoa machine_id

unfoldable pub ensure_machine_cert_paths : ℤ → ℤ → CertConfig → CertConfig
ensure_machine_cert_paths machine_id node_id c =
    if leb_ℤ machine_id (pos 0) || leb_ℤ node_id (pos 0)
    then c
    else if c.cert_mode == "http" || c.cert_mode == "dns" || c.cert_mode == "self"
    then record c {
      cert_file =
          or_else c.cert_file (base_dir machine_id ++ ("/node-" ++ (itoa node_id ++ ".pem")));
      key_file = or_else c.key_file (base_dir machine_id ++ ("/node-" ++ (itoa node_id ++ ".key")));
    }
    else c

module _ (env : CertEnv) where
  unfoldable pub resolve_cert_path : String → CertConfig → ℤ → ℤ → String
  resolve_cert_path raw c machine_id node_id =
      if raw == ""
      then raw
      else env.replace
          (("{domain}", c.cert_domain)
            ∷ ("{email}", c.email)
            ∷ ("{machine_id}", itoa machine_id)
            ∷ ("{node_id}", itoa node_id)
            ∷ [])
          raw

  unfoldable pub normalize_cert_paths : ℤ → ℤ → CertConfig → CertConfig
  unfolding resolve_cert_path
  normalize_cert_paths machine_id node_id c = record c {
    cert_file = resolve_cert_path c.cert_file c machine_id node_id;
    key_file = resolve_cert_path c.key_file c machine_id node_id;
  }

  -- The two ways to make a certificate, for a domain and two files that may be there.
  unfoldable pub make_cert : Bool → CertError → CertConfig → Result {0, 0} CertError Unit
  make_cert made failure c =
      if c.cert_domain == ""
      then err no_cert_domain
      else if c.cert_file == "" || c.key_file == ""
      then err no_cert_path
      else if env.exists c.cert_file && env.exists c.key_file
      then ok tt
      else if made
      then ok tt
      else err failure

  unfoldable pub obtain_cert : CertConfig → Result {0, 0} CertError Unit
  unfolding make_cert
  obtain_cert c =
      if c.cert_mode == "none"
      then (if not (c.cert_file == "") && not (c.key_file == "") then ok tt else err no_cert_config)
      else if c.cert_mode == "file"
      then (if c.cert_file == "" || c.key_file == "" then err no_cert_path else ok tt)
      else if c.cert_mode == "dns" || c.cert_mode == "http"
      then make_cert (env.create_cert c) lego_failed c
      else if c.cert_mode == "self"
      then make_cert (env.self_sign c.cert_domain c.cert_file c.key_file) self_failed c
      else err (unsupported_mode c.cert_mode)

  -- The settings as they are left, and the result.
  unfoldable pub request_cert :
      {Float : Type 0}
      → ℤ
      → ℤ
      → NodeInfo Float
      → CertConfig
      → CertConfig × Result {0, 0} CertError Unit
  unfolding obtain_cert
  request_cert machine_id node_id info c =
      if not (is_empty c.certificate) || not (is_empty c.key)
      then (if is_empty c.certificate || is_empty c.key
          then (c, err incomplete_inline)
          else (c, ok tt))
      else (let c' =
            normalize_cert_paths machine_id node_id
              (ensure_machine_cert_paths machine_id node_id (with_mode (with_domain info c))) in
          (c', obtain_cert c'))
