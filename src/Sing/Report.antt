-- ===== src/Sing/Report.antt =====
-- The storages of the counters after a report that resets, and what the report lists.
use v2b_x_patched_by_haman.Prelude.{
  ℕ, ℤ, pos, String, ◌≡◌, ◌≢◌, subst, true, some, inl, inr, [], In, string_eq, int_eq,
}
use v2b_x_patched_by_haman.Dict.{get, put}
use v2b_x_patched_by_haman.Dict.Laws.{get-put_same, beq_refl}
use v2b_x_patched_by_haman.Dict.Entries.{In-of_get, get_of_In}
use v2b_x_patched_by_haman.Panel.{UserTraffic}
use v2b_x_patched_by_haman.Counter.{TrafficCounter, storage_at}
use v2b_x_patched_by_haman.Counter.Storages.{IsWf}
use v2b_x_patched_by_haman.Sing.{
  Sing, or_zero, is_billed, bill, report_entries, get_user_traffic_slice,
}
use v2b_x_patched_by_haman.Sing.Rounds.{IsSettled, IsWf-HasOwn, run-IsSettled}
use v2b_x_patched_by_haman.Sing.Bills.{run-bills}

module _ (b : Sing) (tag : String) (c : TrafficCounter) (known_tag : get b.counter tag ≡ some c)
    (wf : IsWf c) where
  abbrev least_of : ℤ
  least_of = or_zero (get b.min_traffic_bytes tag)

  slice_eq :
      let r = report_entries b.uid_map least_of true c.counters (c, []) in
      get_user_traffic_slice tag true b ≡ (record b { counter = put b.counter tag r.0 }, r.1)
  unfolding get_user_traffic_slice
  slice_eq = rw (known_tag, get_user_traffic_slice)

  -- A report that resets settles every user of the node, where no two users share a storage: a user
  -- whose upload and download together are not over the node's threshold keeps its storage as it is;
  -- the storage of any other user becomes 0, and if the user's id is known and is not 0, the report has
  -- an entry with this id and exactly the upload and download that the storage held.
  pub get_user_traffic_slice-settles :
      (u : String) (p : ℕ)
      → get c.counters u ≡ some p
      → let r = get_user_traffic_slice tag true b in
        (c' : TrafficCounter) × (get r.0.counter tag ≡ some c')
        × IsSettled least_of (or_zero (get b.uid_map u)) (storage_at c p) (storage_at c' p) r.1
  get_user_traffic_slice-settles u p e =
      let r = report_entries b.uid_map least_of true c.counters (c, []) in
      rw slice_eq (
        r.0,
        get-put_same b.counter tag tag r.0 (beq_refl tag),
        run-IsSettled b.uid_map least_of c.counters u p c [] (IsWf-HasOwn c wf) (wf.stored u p e)
            (In-of_get c.counters u p e),
      )

  -- Every entry of a report that resets, where no two users share a storage, has the id, not 0, of a
  -- user over the node's threshold, and the upload and download that the user's storage held.
  pub get_user_traffic_slice-accounts :
      (t : UserTraffic)
      → In t (get_user_traffic_slice tag true b).1
      → (u : String) × (p : ℕ) × (get c.counters u ≡ some p)
        × (is_billed least_of (storage_at c p) ≡ true)
        × (or_zero (get b.uid_map u) ≢ pos 0)
        × (t ≡ bill (or_zero (get b.uid_map u)) (storage_at c p))
  get_user_traffic_slice-accounts t i =
      elim (run-bills b.uid_map least_of c.counters c [] t (IsWf-HasOwn c wf)
        (subst (λ r. In t r.1) slice_eq i)) [
          | inl nothing ↦ elim nothing [ ]
          | inr (u, p, j, billed, id, same) ↦
              (u, p, get_of_In c.counters u p wf.unique j, billed, id, same)
        ]
