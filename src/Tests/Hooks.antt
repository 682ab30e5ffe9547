-- ===== src/Tests/Hooks.antt =====
-- core/sing/hook.go on a node with one user and one refused destination.
use v2b_x_patched_by_haman.Prelude.{
  ℤ, pos, ◌*ℤ◌, wrap64, String, ◌≡◌, refl, Bool, true, false, some, none, [], ◌∷◌, ◌==◌, string_eq,
}
use v2b_x_patched_by_haman.Dict.{get, put, remove}
use v2b_x_patched_by_haman.Format.{user_tag, trim_prefix}
use v2b_x_patched_by_haman.Limiter.State.{Limiter, zero_info, determine_speed_limit}
use v2b_x_patched_by_haman.Limiter.Admission.{
  check_limit, track_device, expire, take_bucket, is_full, is_expired, user_speed, byte_rate,
  finish,
}
use v2b_x_patched_by_haman.Limiter.Rules.{check_domain_rule, check_protocol_rule, some_fits}
use v2b_x_patched_by_haman.Counter.{get_counter}
use v2b_x_patched_by_haman.Sing.Hook.{
  InboundContext, Hook, closed, counted, get_limiter, count_user, is_ruled_out, after_check,
  routed_connection, routed_packet_connection,
}
use v2b_x_patched_by_haman.Sing.Hook.Decide.{
  IsRouted, routed_connection-IsRouted, routed_packet_connection-IsRouted,
}

-- A bucket is its capacity, a compiled pattern is the text that it matches.
abbrev bucket_of : ℤ → ℤ → ℤ
bucket_of capacity quantum = capacity

abbrev is_pattern : String → String → Bool
is_pattern pattern text = pattern == text

abbrev ann_limiter : Limiter String ℤ
ann_limiter = record {
  domain_rules = "blocked.test" ∷ [];
  protocol_rules = [];
  speed_limit = pos 0;
  user_online_ip = [];
  old_user_online = [];
  uuid_to_uid = ("ann", pos 7) ∷ [];
  user_limit_info = ("n|ann", record zero_info { uid = pos 7; device_limit = pos 2 }) ∷ [];
  speed_limiter = [];
  alive_list = [];
}

abbrev hook : Hook String ℤ
hook = record { limiter = ("n", ann_limiter) ∷ []; counter = [] }

abbrev visit : InboundContext
visit = record {
  inbound = "n";
  inbound_type = "vless";
  user = "ann";
  source = "10.0.0.1";
  destination = "blocked.test";
  protocol = "tls";
  network = "udp";
}

abbrev now : ℤ
now = pos 5_000_000_000

has_limiter : get_limiter "n" hook ≡ some ann_limiter
unfolding get_limiter get
has_limiter = refl

blocked_run : (routed_connection is_pattern bucket_of now visit hook).1 ≡ closed
unfolding routed_connection get_limiter get put remove user_tag trim_prefix check_limit track_device
    expire take_bucket is_full is_expired user_speed byte_rate finish determine_speed_limit
    check_domain_rule check_protocol_rule some_fits get_counter count_user is_ruled_out after_check
    ◌*ℤ◌ wrap64
blocked_run = refl

counted_run :
    (routed_connection is_pattern bucket_of now (record visit { destination = "open.test" }) hook).1
    ≡ counted none 0
unfolding routed_connection get_limiter get put remove user_tag trim_prefix check_limit track_device
    expire take_bucket is_full is_expired user_speed byte_rate finish determine_speed_limit
    check_domain_rule check_protocol_rule some_fits get_counter count_user is_ruled_out after_check
    ◌*ℤ◌ wrap64
counted_run = refl

routed_connection-IsRouted_example :
    IsRouted is_pattern "tls"
      (check_limit bucket_of now (user_tag "n" "ann") "10.0.0.1" true ann_limiter).1.0
      visit
      hook
      (check_limit bucket_of now (user_tag "n" "ann") "10.0.0.1" true ann_limiter)
      (routed_connection is_pattern bucket_of now visit hook)
routed_connection-IsRouted_example =
    routed_connection-IsRouted is_pattern bucket_of now visit hook ann_limiter has_limiter

routed_packet_connection-IsRouted_example :
    IsRouted is_pattern "udp" none visit hook
      (check_limit bucket_of now (user_tag "n" "ann") "10.0.0.1" false ann_limiter)
      (routed_packet_connection is_pattern bucket_of now visit hook)
routed_packet_connection-IsRouted_example =
    routed_packet_connection-IsRouted is_pattern bucket_of now visit hook ann_limiter has_limiter
