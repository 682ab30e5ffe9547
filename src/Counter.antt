-- ===== src/Counter.antt =====
-- common/counter: the traffic of each user of a node. A `*TrafficStorage` is an index into
-- `storages`, since a connection goes on to hold the storage that it was given. One call at a time.
pub mod Storages
pub mod Connections
pub mod Runs
use v2b_x_patched_by_haman.Prelude.{
  ℕ, ℤ, pos, ◌+ℤ◌, wrap64, ltb_ℤ, String, Option, none, some, List, [], ◌∷◌, ◌++◌, length,
  get_elem?, set, string_eq, if◌then◌else◌,
}
use v2b_x_patched_by_haman.Dict.{Dict, get, put, remove}

pub record TrafficStorage : Type 0 where
  pub up_counter : ℤ
  pub down_counter : ℤ

pub record TrafficCounter : Type 0 where
  pub counters : Dict String ℕ
  pub storages : List TrafficStorage

abbrev pub zero_storage : TrafficStorage
zero_storage = record { up_counter = pos 0; down_counter = pos 0 }

abbrev pub new_traffic_counter : TrafficCounter
new_traffic_counter = record { counters = []; storages = [] }

-- The storage that a pointer refers to.
unfoldable pub storage_at : TrafficCounter → ℕ → TrafficStorage
storage_at c p = elim (get_elem? c.storages p) [ none ↦ zero_storage | some s ↦ s ]

-- A write through a pointer.
unfoldable pub modify : ℕ → (TrafficStorage → TrafficStorage) → TrafficCounter → TrafficCounter
modify p f c = elim (get_elem? c.storages p) [
  | none ↦ c
  | some s ↦ record c { storages = set c.storages p (f s) }
]

-- `UpCounter.Add` and `DownCounter.Add`.
unfoldable pub add_up : ℤ → TrafficStorage → TrafficStorage
add_up n s = record s { up_counter = wrap64 (s.up_counter +ℤ n) }

unfoldable pub add_down : ℤ → TrafficStorage → TrafficStorage
add_down n s = record s { down_counter = wrap64 (s.down_counter +ℤ n) }

-- `UpCounter.Store` and `DownCounter.Store`.
abbrev pub store_up : ℤ → TrafficStorage → TrafficStorage
store_up n s = record s { up_counter = n }

abbrev pub store_down : ℤ → TrafficStorage → TrafficStorage
store_down n s = record s { down_counter = n }

abbrev pub clear : TrafficStorage → TrafficStorage
clear s = store_down (pos 0) (store_up (pos 0) s)

unfoldable pub get_counter : String → TrafficCounter → TrafficCounter × ℕ
get_counter uuid c = elim (get c.counters uuid) [
  | some p ↦ (c, p)
  | none ↦ (
    record c {
      counters = put c.counters uuid (length c.storages);
      storages = c.storages ++ zero_storage ∷ [];
    },
    length c.storages,
  )
]

unfoldable pub get_up_count : String → TrafficCounter → ℤ
get_up_count uuid c = elim (get c.counters uuid) [
  | none ↦ pos 0
  | some p ↦ (storage_at c p).up_counter
]

unfoldable pub get_down_count : String → TrafficCounter → ℤ
get_down_count uuid c = elim (get c.counters uuid) [
  | none ↦ pos 0
  | some p ↦ (storage_at c p).down_counter
]

unfoldable pub len : TrafficCounter → ℕ
len c = length c.counters

unfoldable pub reset : String → TrafficCounter → TrafficCounter
reset uuid c = elim (get c.counters uuid) [ none ↦ c | some p ↦ modify p clear c ]

unfoldable pub delete : String → TrafficCounter → TrafficCounter
delete uuid c = record c { counters = remove c.counters uuid }

unfoldable pub rx : String → ℤ → TrafficCounter → TrafficCounter
rx uuid n c = let (c', p) = get_counter uuid c in modify p (add_down n) c'

unfoldable pub tx : String → ℤ → TrafficCounter → TrafficCounter
tx uuid n c = let (c', p) = get_counter uuid c in modify p (add_up n) c'

-- The methods of ConnCounter and PacketConnCounter, for a connection whose storage is `p`. The
-- number is what the wrapped connection moved; `none` is its error.
unfoldable pub read : ℕ → ℤ → TrafficCounter → TrafficCounter
read p n c = modify p (store_up n) c

unfoldable pub write : ℕ → ℤ → TrafficCounter → TrafficCounter
write p n c = modify p (store_down n) c

unfoldable pub read_buffer : ℕ → Option ℤ → TrafficCounter → TrafficCounter
read_buffer p none c = c
read_buffer p (some n) c = if ltb_ℤ (pos 0) n then modify p (add_up n) c else c

unfoldable pub write_buffer : ℕ → Option ℤ → TrafficCounter → TrafficCounter
write_buffer p none c = c
write_buffer p (some n) c = if ltb_ℤ (pos 0) n then modify p (add_down n) c else c

unfoldable pub read_packet : ℕ → Option ℤ → TrafficCounter → TrafficCounter
read_packet p none c = c
read_packet p (some n) c = modify p (add_up n) c

unfoldable pub write_packet : ℕ → Option ℤ → TrafficCounter → TrafficCounter
write_packet p none c = c
write_packet p (some n) c = if ltb_ℤ (pos 0) n then modify p (add_down n) c else c

-- The count functions that UnwrapReader and UnwrapWriter hand out.
unfoldable pub read_func : ℕ → ℤ → TrafficCounter → TrafficCounter
read_func p n c = modify p (add_up n) c

unfoldable pub write_func : ℕ → ℤ → TrafficCounter → TrafficCounter
write_func p n c = modify p (add_down n) c
