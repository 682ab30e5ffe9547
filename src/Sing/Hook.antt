-- ===== src/Sing/Hook.antt =====
-- core/sing/hook.go: what happens to a new connection of a user, and the table of limiters of
-- limiter/limiter.go that it looks in.
pub mod Ruled
pub mod Decide
use v2b_x_patched_by_haman.Prelude.{
  ℕ, ℤ, String, Bool, true, false, not, ◌&&◌, ◌||◌, Option, none, some, ◌==◌, string_eq,
  if◌then◌else◌,
}
use v2b_x_patched_by_haman.Dict.{Dict, get, put, remove}
use v2b_x_patched_by_haman.Format.{user_tag}
use v2b_x_patched_by_haman.Limiter.State.{Limiter}
use v2b_x_patched_by_haman.Limiter.Admission.{check_limit}
use v2b_x_patched_by_haman.Limiter.Rules.{check_domain_rule, check_protocol_rule}
use v2b_x_patched_by_haman.Counter.{TrafficCounter, new_traffic_counter, get_counter}

-- What the hook reads of `adapter.InboundContext`. `network` is `Destination.Network()`.
pub record InboundContext : Type 0 where
  pub inbound : String
  pub inbound_type : String
  pub user : String
  pub source : String
  pub destination : String
  pub protocol : String
  pub network : String

-- The connection that is returned: as it is, closed, or counted in a storage and, if there is a
-- bucket, limited by it.
pub data Routed (Bucket : Type 0) : Type 0 where
  as_is : Routed Bucket
  closed : Routed Bucket
  counted : Option Bucket → ℕ → Routed Bucket

-- The table `limiter`, and the counters of the hook server.
pub record Hook (Regex Bucket : Type 0) : Type 0 where
  pub limiter : Dict String (Limiter Regex Bucket)
  pub counter : Dict String TrafficCounter

abbrev pub counter_or_new : Option TrafficCounter → TrafficCounter
counter_or_new none = new_traffic_counter
counter_or_new (some t) = t

module _ {Regex Bucket : Type 0} where
  unfoldable pub get_limiter : String → Hook Regex Bucket → Option (Limiter Regex Bucket)
  get_limiter tag h = get h.limiter tag

  unfoldable pub delete_limiter : String → Hook Regex Bucket → Hook Regex Bucket
  delete_limiter tag h = record h { limiter = remove h.limiter tag }

  -- The end of both functions: the counter of the node, or a new one, and the user's storage in it.
  unfoldable pub count_user :
      Option Bucket → InboundContext → Hook Regex Bucket → Hook Regex Bucket × Routed Bucket
  count_user bucket m h =
      let (t', p) = get_counter m.user (counter_or_new (get h.counter m.inbound)) in
      (record h { counter = put h.counter m.inbound t' }, counted bucket p)

  -- `matches` is `Regexp.MatchString`, `new_bucket` the constructor of a bucket.
  module _ (matches : Regex → String → Bool) where
    -- The block under `if l != nil`; `true` closes the connection.
    unfoldable pub is_ruled_out : String → String → Limiter Regex Bucket → Bool
    is_ruled_out destination protocol l =
        check_domain_rule matches destination l
        || (not (protocol == "") && check_protocol_rule protocol l)

    -- What both functions do with the answer of CheckLimit. `wrap` is the bucket that is used.
    unfoldable pub after_check :
        (Option Bucket → Option Bucket)
        → String
        → InboundContext
        → Hook Regex Bucket
        → Limiter Regex Bucket × (Option Bucket × Bool)
        → Hook Regex Bucket × Routed Bucket
    after_check wrap protocol m h (l, (bucket, rejected)) =
        let h' = record h { limiter = put h.limiter m.inbound l } in
        if rejected
        then (h', closed)
        else if is_ruled_out m.destination protocol l
        then (h', closed)
        else count_user (wrap bucket) m h'

    module _ (new_bucket : ℤ → ℤ → Bucket) where
      unfoldable pub routed_connection :
          ℤ → InboundContext → Hook Regex Bucket → Hook Regex Bucket × Routed Bucket
      routed_connection now m h = elim (get_limiter m.inbound h) [
        | none ↦ (h, as_is)
        | some l ↦
            after_check (λ b. if m.inbound_type == "anytls" then none else b) m.protocol m h
              (check_limit new_bucket now (user_tag m.inbound m.user) m.source true l)
      ]

      unfoldable pub routed_packet_connection :
          ℤ → InboundContext → Hook Regex Bucket → Hook Regex Bucket × Routed Bucket
      routed_packet_connection now m h = elim (get_limiter m.inbound h) [
        | none ↦ (h, as_is)
        | some l ↦
            after_check (λ b. none) m.network m h
              (check_limit new_bucket now (user_tag m.inbound m.user) m.source false l)
      ]
