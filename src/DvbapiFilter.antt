-- ===== src/DvbapiFilter.antt =====
-- src/decrypt/dvbapi/FilterData.h and Filter.h: the section filters that a decryption server asks
-- for, 15 for each of 25 demuxes. The lock around each operation is not modelled.
pub mod Matching
pub mod Looked
pub mod Found
mod Tests
use satpi.Base.{
  ℕ, zero, suc, ◌+◌, ◌-◌, ◌*◌, ◌/◌, ◌%◌, Bool, true, false, not, ◌&&◌, if◌then◌else◌, ltb, leb,
  ◌==◌, Option, none, some, List, [], ◌∷◌, ◌++◌, Ptr, update, get_or, for_range,
}
use Prim.Native.Nat.{bit_and}
use satpi.TableData
use satpi.TableData.{TableData, empty_table}

-- `_id` and `_pid`: `none` is -1. `data` and `mask` are arrays of 16 bytes.
pub record FilterData : Type 0 where
  pub filter_active : Bool
  pub id : Option ℕ
  pub pid : Option ℕ
  pub filter : Ptr
  pub mask : Ptr
  pub collecting : Bool
  pub table_data : TableData

abbrev pub is_number : Option ℕ → ℕ → Bool
is_number none n = false
is_number (some m) n = m == n

-- A new object, and what `clear` leaves.
unfoldable pub cleared : FilterData
cleared = record {
  filter_active = false;
  id = none;
  pid = none;
  filter = λ _. 0;
  mask = λ _. 0;
  collecting = false;
  table_data = empty_table;
}

unfoldable pub clear : FilterData → FilterData
clear f = record cleared { table_data = TableData.clear f.table_data }

unfoldable pub collect_raw_table_data : ℕ → Ptr → FilterData → Option FilterData
collect_raw_table_data table_id packet f =
    elim (TableData.collect_data true table_id packet f.table_data) [
      | none ↦ none
      | some t ↦ some (record f { table_data = t })
    ]

unfoldable pub is_table_collected : FilterData → FilterData × Bool
is_table_collected f =
    let (t, collected) = TableData.is_collected f.table_data in
    (record f { table_data = t }, collected)

unfoldable pub reset_table_data : FilterData → FilterData
reset_table_data f = record f { collecting = false; table_data = TableData.clear f.table_data }

unfoldable pub active_with : FilterData → ℕ → ℕ → Bool
active_with f id pid = is_number f.pid pid && is_number f.id id && f.filter_active

unfoldable pub set : ℕ → ℕ → Ptr → Ptr → FilterData → FilterData
set id pid filter mask f = record {
  filter_active = true;
  id = some id;
  pid = some pid;
  filter = filter;
  mask = mask;
  collecting = false;
  table_data = TableData.clear f.table_data;
}

-- The length of the section with its table id and length field.
abbrev pub section_length : Ptr → ℕ
section_length packet = packet 6 % 16 * 256 + packet 7 + 3

-- The test of one byte of the filter, against the byte `k` of the packet.
abbrev pub byte_matches : FilterData → Ptr → ℕ → ℕ → Bool
byte_matches f packet i k =
    if f.mask i == 0
    then true
    else if leb k (section_length packet)
    then bit_and (f.filter i) (f.mask i) == bit_and (packet k) (f.mask i)
    else false

-- The bytes 6 and 7, the length field, are skipped.
abbrev pub skip_length : ℕ → ℕ
skip_length k = if k == 6 then k + 2 else k

-- The loop from byte `i` of the filter on; `match` ends it. The result is `match` and whether the
-- loop went over all bytes.
unfoldable pub match_loop : FilterData → Ptr → ℕ → ℕ → ℕ → Bool
match_loop f packet i k zero = true
match_loop f packet i k (suc left) =
    let rest = match_loop f packet (suc i) (suc (skip_length k)) left in
    byte_matches f packet i (skip_length k) && rest

-- `_collecting` is a mutable field.
unfoldable pub match_or_collecting : Ptr → FilterData → FilterData × Bool
match_or_collecting packet f =
    let answer = if f.collecting then true else match_loop f packet 0 5 16 in
    (record f { collecting = answer }, answer)

abbrev pub demux_size : ℕ
demux_size = 25

abbrev pub filter_size : ℕ
filter_size = 15

-- `_filterData`: demux and filter.
abbrev pub Filters : Type 0
Filters = ℕ → ℕ → FilterData

abbrev pub put : Filters → ℕ → ℕ → FilterData → Filters
put fs demux filter f = update fs demux (update (fs demux) filter f)

-- The numbers come as `int`s; a negative one is not modelled.
unfoldable pub start : ℕ → ℕ → ℕ → ℕ → Ptr → Ptr → Filters → Filters
start id pid demux filter filter_data filter_mask fs =
    if ltb demux demux_size && ltb filter filter_size
    then put fs demux filter (set id pid filter_data filter_mask (fs demux filter))
    else fs

unfoldable pub stop : ℕ → ℕ → Filters → Filters
stop demux filter fs =
    if ltb demux demux_size && ltb filter filter_size
    then put fs demux filter (clear (fs demux filter))
    else fs

-- What `find` does at one filter: the table that is complete, if it is.
unfoldable pub find_at : ℕ → ℕ → Ptr → ℕ → FilterData → Option (FilterData × Option (List ℕ))
find_at id pid packet table_id f =
    let (f', hit) = match_or_collecting packet f in
    let collect : Option (FilterData × Option (List ℕ)) =
      elim (collect_raw_table_data table_id packet f') [
        | none ↦ none
        | some g ↦
            let (g', collected) = is_table_collected g in
            some (
              if collected
              then (reset_table_data g', some (TableData.get_data g'.table_data 0))
              else (g', none))
      ] in
    if not (active_with f id pid) then some (f, none) else if hit then collect else some (f', none)

-- `find`: the first filter whose table is complete, with its demux, its filter and the table. The
-- filters are those of the flat index `demux * FILTER_SIZE + filter`, in this order.
unfoldable pub find_loop :
    ℕ → ℕ → Ptr → ℕ → ℕ → ℕ → Filters → Option (Filters × Option (ℕ × ℕ × List ℕ))
find_loop id pid packet table_id i zero fs = some (fs, none)
find_loop id pid packet table_id i (suc left) fs =
    let demux = i / filter_size in
    let filter = i % filter_size in
    elim (find_at id pid packet table_id (fs demux filter)) [
      | none ↦ none
      | some (f, some bytes) ↦ some (put fs demux filter f, some (demux, filter, bytes))
      | some (f, none) ↦ find_loop id pid packet table_id (suc i) left (put fs demux filter f)
    ]

unfoldable pub find : ℕ → ℕ → Ptr → ℕ → Filters → Option (Filters × Option (ℕ × ℕ × List ℕ))
find id pid packet table_id fs = find_loop id pid packet table_id 0 (demux_size * filter_size) fs

-- The PIDs of the active filters of a demux, from filter `i` on.
unfoldable pub active_pids : (ℕ → FilterData) → ℕ → ℕ → List (Option ℕ)
active_pids fs i zero = []
active_pids fs i (suc left) =
    let rest = active_pids fs (suc i) left in
    if (fs i).filter_active then (fs i).pid ∷ rest else rest

unfoldable pub get_active_filter_pids : ℕ → Filters → List (Option ℕ)
get_active_filter_pids demux fs = active_pids (fs demux) 0 filter_size

abbrev pub is_demux_active : (ℕ → FilterData) → ℕ → ℕ → Bool
is_demux_active fs i zero = false
is_demux_active fs i (suc left) =
    if (fs i).filter_active then true else is_demux_active fs (suc i) left

unfoldable pub active_demuxes : Filters → ℕ → ℕ → List ℕ
active_demuxes fs demux zero = []
active_demuxes fs demux (suc left) =
    let rest = active_demuxes fs (suc demux) left in
    if is_demux_active (fs demux) 0 filter_size then demux ∷ rest else rest

unfoldable pub get_active_demux_filters : Filters → List ℕ
get_active_demux_filters fs = active_demuxes fs 0 demux_size

abbrev pub clear_demux : (ℕ → FilterData) → ℕ → FilterData
clear_demux fs filter = if ltb filter filter_size then clear (fs filter) else fs filter

unfoldable pub clear_all : Filters → Filters
clear_all fs demux = if ltb demux demux_size then clear_demux (fs demux) else fs demux
