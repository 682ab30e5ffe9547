-- ===== src/Tests/Traffic.antt =====
-- common/counter and the reports of core/sing/user.go, on a node with two users.
use v2b_x_patched_by_haman.Prelude.{
  ℕ, pos, ◌+ℤ◌, wrap64, String, ◌≡◌, ◌≢◌, refl, sym, subst, here, true, some, [], ◌∷◌, In,
  string_eq, int_eq, nat_eq, if◌then◌else◌, ◌==◌,
}
use v2b_x_patched_by_haman.Dict.{get, put}
use v2b_x_patched_by_haman.Panel.{UserTraffic}
use v2b_x_patched_by_haman.Counter.{
  TrafficCounter, new_traffic_counter, storage_at, modify, add_up, add_down, get_counter, rx, tx,
  delete, get_up_count, read, read_buffer, read_packet, read_func,
}
use v2b_x_patched_by_haman.Counter.Storages.{IsWf}
use v2b_x_patched_by_haman.Counter.Runs.{on_tx, on_rx, run_call, run_calls, run_calls-IsWf}
use v2b_x_patched_by_haman.Counter.Connections.{
  read_buffer-up_count, read-read_overwrites, delete-orphans,
}
use v2b_x_patched_by_haman.Sing.{
  Sing, or_zero, bill, is_billed, report_entry, report_entries, get_user_traffic_slice,
}
use v2b_x_patched_by_haman.Sing.Rounds.{IsSettled}
use v2b_x_patched_by_haman.Sing.Report.{
  get_user_traffic_slice-settles, get_user_traffic_slice-accounts,
}

abbrev ann : String
ann = "ann"

-- ann moved 2000 bytes up, bob 3 bytes down.
abbrev moved : TrafficCounter
moved = run_calls (on_tx "ann" (pos 2_000) ∷ on_rx "bob" (pos 3) ∷ []) new_traffic_counter

ann_entry : get moved.counters "ann" ≡ some 0
unfolding run_calls run_call tx rx get_counter modify add_up add_down get put
ann_entry = refl

moved-IsWf : IsWf moved
moved-IsWf = run_calls-IsWf (on_tx "ann" (pos 2_000) ∷ on_rx "bob" (pos 3) ∷ [])

run_calls-IsWf_example : IsWf moved
run_calls-IsWf_example = run_calls-IsWf (on_tx "ann" (pos 2_000) ∷ on_rx "bob" (pos 3) ∷ [])

read_buffer-up_count_example :
    get_up_count "ann" (read_buffer 0 (some (pos 5)) moved)
    ≡ (if ann == ann then wrap64 (get_up_count "ann" moved +ℤ pos 5) else get_up_count "ann" moved)
read_buffer-up_count_example =
    read_buffer-up_count moved "ann" 0 (pos 5) "ann" moved-IsWf ann_entry refl

-- The upload is then 2005.
ann_up : wrap64 (get_up_count "ann" moved +ℤ pos 5) ≡ pos 2_005
unfolding run_calls run_call tx rx get_counter modify add_up add_down get put get_up_count
    storage_at ◌+ℤ◌ wrap64
ann_up = refl

read-read_overwrites_example :
    (get_up_count "ann" (read 0 (pos 7) (read 0 (pos 5) moved)) ≡ pos 7)
    × (get_up_count "ann" (read_buffer 0 (some (pos 7)) (read_buffer 0 (some (pos 5)) moved))
        ≡ wrap64 (wrap64 (get_up_count "ann" moved +ℤ pos 5) +ℤ pos 7))
read-read_overwrites_example =
    read-read_overwrites moved "ann" 0 (pos 5) (pos 7) moved-IsWf ann_entry refl refl

delete-orphans_example :
    let d = (get_counter "ann" (delete "ann" moved)).0 in
    (get_up_count "ann" (read_packet 0 (some (pos 9)) d) ≡ get_up_count "ann" d)
    × (get_up_count "ann" (read_func 0 (pos 9) d) ≡ get_up_count "ann" d)
delete-orphans_example = delete-orphans moved "ann" 0 (pos 9) "ann" moved-IsWf ann_entry

-- The threshold of the node is 1 KiB.
abbrev core : Sing
core = record {
  counter = ("n", moved) ∷ [];
  uid_map = ("ann", pos 1) ∷ ("bob", pos 2) ∷ [];
  min_traffic_bytes = ("n", pos 1_024) ∷ [];
}

core_entry : get core.counter "n" ≡ some moved
unfolding get
core_entry = refl

get_user_traffic_slice-settles_example :
    let r = get_user_traffic_slice "n" true core in
    (c' : TrafficCounter) × (get r.0.counter "n" ≡ some c')
    × IsSettled
        (or_zero (get core.min_traffic_bytes "n"))
        (or_zero (get core.uid_map "ann"))
        (storage_at moved 0)
        (storage_at c' 0)
        r.1
get_user_traffic_slice-settles_example =
    get_user_traffic_slice-settles core "n" moved core_entry moved-IsWf "ann" 0 ann_entry

abbrev ann_bill : UserTraffic
ann_bill = record { uid = pos 1; upload = pos 2_000; download = pos 0 }

slice_run : (get_user_traffic_slice "n" true core).1 ≡ ann_bill ∷ []
unfolding run_calls run_call tx rx get_counter modify add_up add_down get put storage_at ◌+ℤ◌ wrap64
    get_user_traffic_slice report_entries report_entry is_billed
slice_run = refl

listed : In ann_bill (get_user_traffic_slice "n" true core).1
listed = subst (In ann_bill) (sym slice_run) (here refl)

get_user_traffic_slice-accounts_example :
    (u : String) × (p : ℕ) × (get moved.counters u ≡ some p)
    × (is_billed (or_zero (get core.min_traffic_bytes "n")) (storage_at moved p) ≡ true)
    × (or_zero (get core.uid_map u) ≢ pos 0)
    × (ann_bill ≡ bill (or_zero (get core.uid_map u)) (storage_at moved p))
get_user_traffic_slice-accounts_example =
    get_user_traffic_slice-accounts core "n" moved core_entry moved-IsWf ann_bill listed
