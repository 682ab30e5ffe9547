-- ===== src/Sing/Inbound/Transport.antt =====
-- core/sing/node.go: the `switch` on the network of a VMess, VLESS or Trojan node.
use v2b_x_patched_by_haman.Prelude.{
  String, ◌||◌, Option, none, some, List, [], ◌∷◌, ◌==◌, string_eq, Result, ok, err, ◌>>=◌, or_fail,
  if◌then◌else◌,
}
use v2b_x_patched_by_haman.Sing.Inbound.{
  InboundError, bad_network_settings, bad_request, bad_path, bad_host, index_out_of_range, u32,
  TransportDetails, no_details, quic, http, websocket, grpc, http_upgrade, TransportOptions,
  Decoding,
}

abbrev transport : String → TransportDetails → TransportOptions
transport kind details = record { kind = kind; details = details }

-- Settings that are decoded if they are there, with the zero value otherwise.
abbrev settings_or : {A : Type 0} → A → (String → Option A) → String → Result InboundError A
settings_or zero decode s = if s == "" then ok zero else or_fail (decode s) bad_network_settings

abbrev pub first_path : List String → Result InboundError String
first_path [] = err index_out_of_range
first_path (p ∷ ps) = ok p

module _ (d : Decoding) where
  -- `Path[0]` of a request without a path is a panic.
  unfoldable pub http_details : Option String → Result InboundError TransportDetails
  http_details none = ok no_details
  http_details (some raw) = do
    request ← or_fail (d.http_request raw) bad_request
    path ← first_path request.path
    ok (http request.host path request.method)

  unfoldable pub tcp_transport : String → Result InboundError TransportOptions
  unfolding http_details
  tcp_transport s = if s == "" then ok (transport "" no_details) else (do
    network ← or_fail (d.http_network s) bad_network_settings
    (if network.header_type == "http"
        then (do details ← http_details network.request; ok (transport "http" details))
        else ok (transport "" no_details)))

  unfoldable pub ws_transport : String → Result InboundError TransportOptions
  ws_transport s = if s == "" then ok (transport "ws" (websocket "" 0 [])) else (do
    network ← or_fail (d.ws_network s) bad_network_settings
    (path, ed) ← or_fail (d.parse_url network.path) bad_path
    ok (transport "ws" (websocket path (u32 (d.atoi ed).0) network.headers)))

  unfoldable pub grpc_transport : String → Result InboundError TransportOptions
  grpc_transport s = do
    network ← settings_or (record { service_name = "" }) d.grpc_network s
    ok (transport "grpc" (grpc network.service_name))

  unfoldable pub http_upgrade_transport : String → Result InboundError TransportOptions
  http_upgrade_transport s = do
    network ← settings_or (record { path = ""; host = "" }) d.http_upgrade_network s
    ok (transport "httpupgrade" (http_upgrade network.path network.host))

  -- A host is one text or a list of texts.
  unfoldable pub h2_hosts : String → Result InboundError (List String)
  h2_hosts raw = if raw == "" then ok [] else elim (d.one_host raw) [
    | some host ↦ ok (host ∷ [])
    | none ↦ or_fail (d.many_hosts raw) bad_host
  ]

  unfoldable pub h2_transport : String → Result InboundError TransportOptions
  unfolding h2_hosts
  h2_transport s = do
    network ← settings_or (record { host = ""; path = "" }) d.h2_network s
    hosts ← h2_hosts network.host
    ok (transport "http" (http hosts network.path ""))

  -- Any other network keeps its name.
  unfoldable pub v2ray_transport : String → String → Result InboundError TransportOptions
  v2ray_transport network s =
      if network == "tcp"
      then tcp_transport s
      else if network == "ws"
      then ws_transport s
      else if network == "grpc"
      then grpc_transport s
      else if network == "httpupgrade"
      then http_upgrade_transport s
      else if network == "http" || network == "h2"
      then h2_transport s
      else if network == "quic"
      then ok (transport "quic" quic)
      else ok (transport network no_details)

  -- Any other network is plain.
  unfoldable pub trojan_transport : String → String → Result InboundError TransportOptions
  trojan_transport network s =
      if network == "tcp"
      then ok (transport "" no_details)
      else if network == "ws"
      then ws_transport s
      else if network == "grpc"
      then grpc_transport s
      else ok (transport "" no_details)
