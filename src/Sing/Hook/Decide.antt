-- ===== src/Sing/Hook/Decide.antt =====
-- Which connections are closed, and what is left of them in the limiter and the counters.
use v2b_x_patched_by_haman.Prelude.{
  ℕ, ℤ, String, ◌≡◌, ◌⊎◌, List, [], ◌∷◌, ◌++◌, refl, Bool, true, false, Bool-cases, Option, none,
  some, Option-cases, inl, inr, ◌==◌, string_eq, if◌then◌else◌, length, arith,
}
use v2b_x_patched_by_haman.Dict.{get}
use v2b_x_patched_by_haman.Dict.Laws.{get-put, get_same}
use v2b_x_patched_by_haman.Format.{user_tag}
use v2b_x_patched_by_haman.Limiter.State.{Limiter}
use v2b_x_patched_by_haman.Limiter.Admission.{check_limit}
use v2b_x_patched_by_haman.Counter.{TrafficStorage, TrafficCounter, zero_storage, get_counter}
use v2b_x_patched_by_haman.Counter.Storages.{get_counter-known, get_counter-new}
use v2b_x_patched_by_haman.Sing.Hook.{
  InboundContext, Routed, closed, counted, counter_or_new, Hook, get_limiter, count_user,
  is_ruled_out, after_check, routed_connection, routed_packet_connection,
}
use v2b_x_patched_by_haman.Sing.Hook.Ruled.{
  IsRuledOut, is_ruled_out-IsRuledOut, IsRuledOut-is_ruled_out,
}

-- The storage that a user has, or else the next one.
abbrev pub held_or : ℕ → Option ℕ → ℕ
held_or next none = next
held_or next (some p) = p

-- The storages, with a new one that is zero if the user has none.
abbrev pub with_storage : List TrafficStorage → Option ℕ → List TrafficStorage
with_storage storages none = storages ++ zero_storage ∷ []
with_storage storages (some p) = storages

-- `p` is the user's storage, the one that it had or else a new one that is zero; no other user's entry
-- changes, and nothing is counted.
abbrev pub IsStorageOf : String → TrafficCounter → TrafficCounter → ℕ → Type 0
IsStorageOf user t t' p =
    (p ≡ held_or (length t.storages) (get t.counters user))
    × (t'.storages ≡ with_storage t.storages (get t.counters user))
    × ((key : String) → get t'.counters key ≡ (if user == key then some p else get t.counters key))

-- Closed, for a reason, with the counters as they were.
abbrev pub IsClosed :
    {Regex Bucket : Type 0}
    → (Regex → String → Bool)
    → String
    → InboundContext
    → Hook Regex Bucket
    → Limiter Regex Bucket × (Option Bucket × Bool)
    → Hook Regex Bucket × Routed Bucket
    → Type 0
IsClosed matches protocol m h r (h', out) =
    (out ≡ closed)
    × (h'.counter ≡ h.counter)
    × ((r.1.1 ≡ true) ⊎ IsRuledOut matches m.destination protocol r.0)

-- Counted in the storage of the user in the counter of the node, and limited by `bucket`, with no
-- reason to close; the counters of other nodes are as they were.
abbrev pub IsCounted :
    {Regex Bucket : Type 0}
    → (Regex → String → Bool)
    → String
    → Option Bucket
    → InboundContext
    → Hook Regex Bucket
    → Limiter Regex Bucket × (Option Bucket × Bool)
    → Hook Regex Bucket × Routed Bucket
    → Type 0
IsCounted matches protocol bucket m h r (h', out) =
    (t' : TrafficCounter) × (p : ℕ) × (out ≡ counted bucket p)
    × IsStorageOf m.user (counter_or_new (get h.counter m.inbound)) t' p
    × ((tag : String)
        → get h'.counter tag ≡ (if m.inbound == tag then some t' else get h.counter tag))
    × (r.1.1 ≡ false)
    × (¬ IsRuledOut matches m.destination protocol r.0)

-- Closed or counted; the limiter of the node is in both cases as CheckLimit left it, those of other
-- nodes are as they were.
abbrev pub IsRouted :
    {Regex Bucket : Type 0}
    → (Regex → String → Bool)
    → String
    → Option Bucket
    → InboundContext
    → Hook Regex Bucket
    → Limiter Regex Bucket × (Option Bucket × Bool)
    → Hook Regex Bucket × Routed Bucket
    → Type 0
IsRouted matches protocol bucket m h r out =
    (IsClosed matches protocol m h r out ⊎ IsCounted matches protocol bucket m h r out)
    × ((tag : String)
        → get out.0.limiter tag ≡ (if m.inbound == tag then some r.0 else get h.limiter tag))

get_counter-IsStorageOf :
    (user : String) (t : TrafficCounter)
    → IsStorageOf user t (get_counter user t).0 (get_counter user t).1
get_counter-IsStorageOf user t = elim (Option-cases (get t.counters user)) [
  | inl fresh ↦
      rw (get_counter-new user t fresh, fresh)
        (refl, refl, λ key. get-put t.counters user key (length t.storages))
  | inr (p, held) ↦
      rw (get_counter-known user t p held, held)
        (refl, refl, λ key. ground (arith, get_same t.counters user key))
]

module _ {Regex Bucket : Type 0} (matches : Regex → String → Bool) where
  after_check-IsRouted :
      (wrap : Option Bucket → Option Bucket) (protocol : String) (m : InboundContext)
      (h : Hook Regex Bucket) (r : Limiter Regex Bucket × (Option Bucket × Bool))
      → IsRouted matches protocol (wrap r.1.0) m h r (after_check matches wrap protocol m h r)
  unfolding after_check count_user
  after_check-IsRouted wrap protocol m h (l, (bucket, true)) =
      (inl (refl, refl, inl refl), λ tag. get-put h.limiter m.inbound tag l)
  after_check-IsRouted wrap protocol m h (l, (bucket, false)) =
      elim (Bool-cases (is_ruled_out matches m.destination protocol l)) [
        | inl ruled ↦ rw ruled (
          inl (refl, refl, inr (is_ruled_out-IsRuledOut matches m.destination protocol l ruled)),
          λ tag. get-put h.limiter m.inbound tag l,
        )
        | inr free ↦ rw free (
          inr (
            _,
            _,
            refl,
            get_counter-IsStorageOf m.user (counter_or_new (get h.counter m.inbound)),
            (λ tag. get-put h.counter m.inbound tag _),
            refl,
            λ i. absurd (cc (free, IsRuledOut-is_ruled_out matches m.destination protocol l i)),
          ),
          λ tag. get-put h.limiter m.inbound tag l,
        )
      ]

  module _ (new_bucket : ℤ → ℤ → Bucket) (now : ℤ) (m : InboundContext) (h : Hook Regex Bucket)
      (l : Limiter Regex Bucket) (known : get_limiter m.inbound h ≡ some l) where
    abbrev checked : Bool → Limiter Regex Bucket × (Option Bucket × Bool)
    checked no_ssudp = check_limit new_bucket now (user_tag m.inbound m.user) m.source no_ssudp l

    -- A stream connection to a node that has a limiter is closed exactly if CheckLimit, with the limit
    -- on devices, rejects it, if a compiled pattern of the node matches its destination, or if its
    -- protocol is known and one that the node refuses. A closed connection leaves every traffic
    -- counter as it was. Any other is counted in the node's counter, which is made if it is missing,
    -- in the storage that the user has there or else in a new one that is zero, and no other entry
    -- and no count changes; its bucket is the one of CheckLimit, or none if the inbound is of the
    -- type "anytls". In both cases the node's limiter is what CheckLimit left, and the other limiters
    -- are as they were.
    pub routed_connection-IsRouted :
        IsRouted matches m.protocol
          (if m.inbound_type == "anytls" then none else (checked true).1.0)
          m
          h
          (checked true)
          (routed_connection matches new_bucket now m h)
    unfolding routed_connection
    routed_connection-IsRouted =
        rw (known, routed_connection) (after_check-IsRouted _ m.protocol m h (checked true))

    -- A packet connection to a node that has a limiter is closed exactly if CheckLimit, without the
    -- limit on devices, rejects it, if a compiled pattern of the node matches its destination, or if
    -- the network of its destination has a name and this is a protocol that the node refuses. A closed
    -- connection leaves every traffic counter as it was. Any other is counted in the node's counter,
    -- which is made if it is missing, in the storage that the user has there or else in a new one that
    -- is zero, and no other entry and no count changes; it has no bucket, whatever CheckLimit gives.
    -- In both cases the node's limiter is what CheckLimit left, and the other limiters are as they
    -- were.
    pub routed_packet_connection-IsRouted :
        IsRouted matches m.network none m h
          (checked false)
          (routed_packet_connection matches new_bucket now m h)
    unfolding routed_packet_connection
    routed_packet_connection-IsRouted =
        rw (known, routed_packet_connection) (after_check-IsRouted _ m.network m h (checked false))
