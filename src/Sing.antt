-- ===== src/Sing.antt =====
-- core/sing/user.go: what the core reports of the traffic of a node's users. The hook server keeps
-- one TrafficCounter for each tag.
pub mod Rounds
pub mod Bills
pub mod Report
pub mod Hook
pub mod Inbound
pub mod Instance
use v2b_x_patched_by_haman.Prelude.{
  ℕ, ℤ, pos, ◌+ℤ◌, wrap64, ltb_ℤ, String, Bool, true, false, Option, none, some, List, [], ◌∷◌,
  ◌++◌, length, ◌==◌, string_eq, int_eq, if◌then◌else◌,
}
use v2b_x_patched_by_haman.Dict.{Dict, get, put, remove}
use v2b_x_patched_by_haman.Panel.{UserTraffic}
use v2b_x_patched_by_haman.Counter.{
  TrafficStorage, TrafficCounter, storage_at, modify, clear, delete, get_up_count, get_down_count,
  reset,
}

-- The maps of the core that a report reads: `counter` of the hook server, `uidMap`, and
-- `nodeReportMinTrafficBytes`.
pub record Sing : Type 0 where
  pub counter : Dict String TrafficCounter
  pub uid_map : Dict String ℤ
  pub min_traffic_bytes : Dict String ℤ

-- A missing key of a Go map of integers reads as 0.
abbrev pub or_zero : Option ℤ → ℤ
or_zero none = pos 0
or_zero (some n) = n

unfoldable pub get_user_traffic : String → String → Bool → Sing → Sing × (ℤ × ℤ)
get_user_traffic tag uuid resets b = elim (get b.counter tag) [
  | none ↦ (b, (pos 0, pos 0))
  | some c ↦ (
    if resets then record b { counter = put b.counter tag (reset uuid c) } else b,
    (get_up_count uuid c, get_down_count uuid c),
  )
]

-- `up + down` is over the threshold of the node.
unfoldable pub is_billed : ℤ → TrafficStorage → Bool
is_billed least s = ltb_ℤ least (wrap64 (s.up_counter +ℤ s.down_counter))

abbrev pub bill : ℤ → TrafficStorage → UserTraffic
bill uid s = record { uid = uid; upload = s.up_counter; download = s.down_counter }

module _ (uids : Dict String ℤ) (least : ℤ) (resets : Bool) where
  -- The function that `Range` calls, on one entry.
  unfoldable pub report_entry :
      String × ℕ → TrafficCounter × List UserTraffic → TrafficCounter × List UserTraffic
  report_entry (uuid, p) (c, out) =
      let s = storage_at c p in
      let uid = or_zero (get uids uuid) in
      if is_billed least s
      then (let c' = if resets then modify p clear c else c in
          if uid == pos 0 then (delete uuid c', out) else (c', out ++ bill uid s ∷ []))
      else (c, out)

  unfoldable pub report_entries :
      List (String × ℕ) → TrafficCounter × List UserTraffic → TrafficCounter × List UserTraffic
  report_entries [] r = r
  report_entries (e ∷ es) r = report_entries es (report_entry e r)

unfoldable pub get_user_traffic_slice : String → Bool → Sing → Sing × List UserTraffic
get_user_traffic_slice tag resets b = elim (get b.counter tag) [
  | none ↦ (b, [])
  | some c ↦
      let (c', out) =
        report_entries b.uid_map (or_zero (get b.min_traffic_bytes tag)) resets c.counters
          (c, []) in
      (record b { counter = put b.counter tag c' }, out)
]
