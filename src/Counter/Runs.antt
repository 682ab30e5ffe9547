-- ===== src/Counter/Runs.antt =====
-- Sequences of the calls of a counter and of its connections.
use v2b_x_patched_by_haman.Prelude.{
  string_eq, ℕ, ℤ, String, Option, none, some, List, [], ◌∷◌, inl, inr, Option-cases, if◌then◌else◌,
  Bool, true, false,
}
use v2b_x_patched_by_haman.Dict.{get}
use v2b_x_patched_by_haman.Dict.Laws.{get-nil}
use v2b_x_patched_by_haman.Dict.Entries.{missing}
use v2b_x_patched_by_haman.Counter.{
  TrafficStorage, TrafficCounter, new_traffic_counter, modify, get_counter, clear, reset, delete,
  rx, tx, read, write, read_buffer, write_buffer, read_packet, write_packet, read_func, write_func,
  add_up, add_down, store_up, store_down,
}
use v2b_x_patched_by_haman.Counter.Storages.{IsWf, modify-IsWf, delete-IsWf, get_counter-IsWf}

-- The calls that write. A pointer may be any number.
pub data Call : Type 0 where
  on_get on_reset on_delete : String → Call
  on_rx on_tx : String → ℤ → Call
  on_read on_write on_read_func on_write_func : ℕ → ℤ → Call
  on_read_buffer on_write_buffer on_read_packet on_write_packet : ℕ → Option ℤ → Call

unfoldable pub run_call : Call → TrafficCounter → TrafficCounter
run_call (on_get uuid) c = (get_counter uuid c).0
run_call (on_reset uuid) c = reset uuid c
run_call (on_delete uuid) c = delete uuid c
run_call (on_rx uuid n) c = rx uuid n c
run_call (on_tx uuid n) c = tx uuid n c
run_call (on_read p n) c = read p n c
run_call (on_write p n) c = write p n c
run_call (on_read_func p n) c = read_func p n c
run_call (on_write_func p n) c = write_func p n c
run_call (on_read_buffer p n) c = read_buffer p n c
run_call (on_write_buffer p n) c = write_buffer p n c
run_call (on_read_packet p n) c = read_packet p n c
run_call (on_write_packet p n) c = write_packet p n c

unfoldable pub run_calls : List Call → TrafficCounter → TrafficCounter
run_calls [] c = c
run_calls (e ∷ es) c = run_calls es (run_call e c)

modify_if-IsWf :
    (b : Bool) (p : ℕ) (f : TrafficStorage → TrafficStorage) (c : TrafficCounter)
    → IsWf c
    → IsWf (if b then modify p f c else c)
modify_if-IsWf true p f c wf = modify-IsWf p f c wf
modify_if-IsWf false p f c wf = wf

reset-IsWf : (uuid : String) (c : TrafficCounter) → IsWf c → IsWf (reset uuid c)
unfolding reset
reset-IsWf uuid c wf = elim (Option-cases (get c.counters uuid)) [
  | inl e ↦ rw (e, reset) wf
  | inr (p, e) ↦ rw (e, reset) (modify-IsWf p clear c wf)
]

run_call-IsWf : (e : Call) (c : TrafficCounter) → IsWf c → IsWf (run_call e c)
unfolding run_call rx tx read write read_func write_func read_buffer write_buffer read_packet
    write_packet
run_call-IsWf (on_get uuid) c wf = get_counter-IsWf uuid c wf
run_call-IsWf (on_reset uuid) c wf = reset-IsWf uuid c wf
run_call-IsWf (on_delete uuid) c wf = delete-IsWf uuid c wf
run_call-IsWf (on_rx uuid n) c wf = modify-IsWf _ (add_down n) _ (get_counter-IsWf uuid c wf)
run_call-IsWf (on_tx uuid n) c wf = modify-IsWf _ (add_up n) _ (get_counter-IsWf uuid c wf)
run_call-IsWf (on_read p n) c wf = modify-IsWf p (store_up n) c wf
run_call-IsWf (on_write p n) c wf = modify-IsWf p (store_down n) c wf
run_call-IsWf (on_read_func p n) c wf = modify-IsWf p (add_up n) c wf
run_call-IsWf (on_write_func p n) c wf = modify-IsWf p (add_down n) c wf
run_call-IsWf (on_read_buffer p none) c wf = wf
run_call-IsWf (on_read_buffer p (some n)) c wf = modify_if-IsWf _ p (add_up n) c wf
run_call-IsWf (on_write_buffer p none) c wf = wf
run_call-IsWf (on_write_buffer p (some n)) c wf = modify_if-IsWf _ p (add_down n) c wf
run_call-IsWf (on_read_packet p none) c wf = wf
run_call-IsWf (on_read_packet p (some n)) c wf = modify-IsWf p (add_up n) c wf
run_call-IsWf (on_write_packet p none) c wf = wf
run_call-IsWf (on_write_packet p (some n)) c wf = modify_if-IsWf _ p (add_down n) c wf

run_calls_from-IsWf : (es : List Call) (c : TrafficCounter) → IsWf c → IsWf (run_calls es c)
unfolding run_calls
run_calls_from-IsWf [] c wf = wf
run_calls_from-IsWf (e ∷ es) c wf = run_calls_from-IsWf es (run_call e c) (run_call-IsWf e c wf)

new_traffic_counter-IsWf : IsWf new_traffic_counter
new_traffic_counter-IsWf = record {
  unique = tt;
  stored = λ k p e. absurd (missing e (get-nil k));
  own = λ j k p d e. absurd (missing d (get-nil j));
}

-- After any sequence of calls on a new counter, every user has at most one entry, every entry has a
-- storage, and no two users share one.
pub run_calls-IsWf : (es : List Call) → IsWf (run_calls es new_traffic_counter)
run_calls-IsWf es = run_calls_from-IsWf es new_traffic_counter new_traffic_counter-IsWf
