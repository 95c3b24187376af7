-- ===== src/TableData.antt =====
-- src/mpegts/TableData.{h,cpp}: the sections of a PSI table are collected from the packets of one
-- PID. A packet is a pointer to its 188 bytes; `_dataTable` is a map from the section number.
pub mod Crc
pub mod CrcTable
pub mod Checked
pub mod Collect
pub mod Continue
pub mod Assembly
mod Tests
use Crc.{calculate_crc32, crc_field}
use satpi.Base.{
  ℕ, zero, suc, ◌+◌, ◌-◌, ◌*◌, ◌/◌, ◌%◌, ◌^◌, Bool, true, false, ◌||◌, ◌&&◌, if◌then◌else◌, ◌==◌,
  ltb, leb, update, Option, none, some, List, [], ◌∷◌, ◌++◌, length, Ptr, offset, slice, c_str,
  has_bit, sub64, u64,
}

-- `struct Data`. A section that `operator[]` creates holds zeros.
pub record Section : Type 0 where
  pub table_id : ℕ
  pub section_length : ℕ
  pub version : ℕ
  pub next_indicator : ℕ
  pub sec_nr : ℕ
  pub last_sec_nr : ℕ
  pub crc : ℕ
  pub bytes : List ℕ
  pub cc : ℕ
  pub pid : ℕ
  pub collected : Bool

abbrev pub empty_section : Section
empty_section = record {
  table_id = 0;
  section_length = 0;
  version = 0;
  next_indicator = 0;
  sec_nr = 0;
  last_sec_nr = 0;
  crc = 0;
  bytes = [];
  cc = 0;
  pid = 0;
  collected = false;
}

pub record TableData : Type 0 where
  pub number_of_sections : ℕ
  pub current_section_number : ℕ
  pub collecting_finished : Bool
  pub data_table : ℕ → Option Section

-- A new object, and what `clear` leaves.
abbrev pub empty_table : TableData
empty_table = record {
  number_of_sections = 0;
  current_section_number = 0;
  collecting_finished = false;
  data_table = λ _. none;
}

unfoldable pub clear : TableData → TableData
clear t = empty_table

abbrev pub or_empty : Option Section → Section
or_empty none = empty_section
or_empty (some s) = s

-- `_dataTable[_currentSectionNumber]`, as it is read, written and erased.
abbrev pub current : TableData → Section
current t = or_empty (t.data_table t.current_section_number)

abbrev pub store : TableData → Section → TableData
store t s = record t { data_table = update t.data_table t.current_section_number (some s) }

abbrev pub erase : TableData → TableData
erase t = record t { data_table = update t.data_table t.current_section_number none }

-- The fields of the TS header and of the section header.
abbrev pub payload_start : Ptr → Bool
payload_start packet = has_bit (packet 1) 6

abbrev pub packet_pid : Ptr → ℕ
packet_pid packet = packet 1 % 32 * 256 + packet 2

abbrev pub packet_cc : Ptr → ℕ
packet_cc packet = packet 3 % 16

abbrev pub header_length : Ptr → ℕ
header_length packet = packet 6 % 16 * 256 + packet 7

-- `addData`: the bytes are appended to a section that is empty, or whose last packet had the
-- counter before and the same PID.
unfoldable pub add_data : ℕ → List ℕ → ℕ → ℕ → Section → Section × Bool
add_data table_id packet pid cc s =
    let s' = record s { table_id = table_id } in
    if length s.bytes == 0 || (cc == (s.cc + 1) % 16 && pid == s.pid)
    then (record s' { bytes = s.bytes ++ packet; cc = cc; pid = pid }, true)
    else (s', false)

-- `setCollected`, with the subtraction of unsigned numbers.
unfoldable pub set_collected : TableData → TableData
set_collected t =
    let t' = store t (record (current t) { collected = true }) in
    if ltb t.current_section_number (sub64 t.number_of_sections 1)
    then record t' { current_section_number = u64 (t.current_section_number + 1) }
    else t'

-- The number of bytes that the checksum covers, from the table id on: `sectionLength - 4 + 3`, of
-- unsigned numbers.
abbrev pub crc_length : Section → ℕ
crc_length s = u64 (sub64 s.section_length 4 + 3)

unfoldable pub crc_equals : Section → Bool
crc_equals s =
    calculate_crc32 (offset (c_str s.bytes) 5) (crc_length s)
    == crc_field (c_str s.bytes) s.section_length

-- The checksum of the section against the one that it ends with. `none`: the bytes read are not
-- all there, which C++ leaves undefined.
unfoldable pub crc_matches : Section → Option Bool
unfolding crc_equals
crc_matches s = if ltb (length s.bytes) (5 + crc_length s) then none else some (crc_equals s)

-- The section `s` is complete: check it, and keep or erase it.
unfoldable pub finish : TableData → Section → Option TableData
finish t s = elim (crc_matches s) [
  | none ↦ none
  | some true ↦
      some (set_collected (store t (record s { crc = crc_field (c_str s.bytes) s.section_length })))
  | some false ↦ some (erase t)
]

-- The packet that begins the section which is due.
unfoldable pub begin_section : Bool → ℕ → Ptr → TableData → Option TableData
begin_section raw table_id packet t =
    let last = packet 12 in
    let s = record (current t) {
      section_length = header_length packet;
      version = packet 10 % 32 / 2;
      next_indicator = packet 10 % 2;
      sec_nr = packet 11;
      last_sec_nr = last;
    } in
    let t' = record t { number_of_sections = (if raw then 1 else last + 1) } in
    let (s', added) =
      add_data table_id (slice packet 0 188) (packet_pid packet) (packet_cc packet) s in
    if added
    then if leb s'.section_length 180
      then if raw then some (set_collected (store t' s')) else finish t' s'
      else some (store t' s')
    else some (erase t')

-- A packet that goes on with a section.
unfoldable pub continue_section : ℕ → Ptr → TableData → Option TableData
continue_section table_id packet t =
    let (s, added) =
      add_data table_id (slice packet 4 184) (packet_pid packet) (packet_cc packet) (current t) in
    if added
    then if leb s.section_length (sub64 (length s.bytes) 9) then finish t s else some (store t s)
    else some (erase t)

unfoldable pub collect_data : Bool → ℕ → Ptr → TableData → Option TableData
collect_data raw table_id packet t =
    let size = length (current t).bytes in
    if payload_start packet && packet 4 == 0 && packet 5 == table_id && size == 0
    then if raw || packet 11 == t.current_section_number
      then begin_section raw table_id packet t
      else some (store t (current t))
    else if ltb 0 size
    then continue_section table_id packet t
    else some (erase t)

unfoldable pub get_data_for_section_number : TableData → ℕ → Option Section
get_data_for_section_number t sec_nr = t.data_table sec_nr

unfoldable pub get_data : TableData → ℕ → List ℕ
unfolding get_data_for_section_number
get_data t sec_nr = (or_empty (get_data_for_section_number t sec_nr)).bytes

-- `none` is the -1 of the code.
unfoldable pub get_associated_pid : TableData → Option ℕ
unfolding get_data_for_section_number
get_associated_pid t = elim (get_data_for_section_number t 0) [ none ↦ none | some s ↦ some s.pid ]

abbrev pub is_some_collected : Option Section → Bool
is_some_collected none = false
is_some_collected (some s) = s.collected

-- The loop of `isCollected`, which ends at the first section that is not collected; `finished` is
-- the flag as the last round left it.
unfoldable pub collected_loop : TableData → ℕ → ℕ → Bool → Bool
collected_loop t i zero finished = finished
collected_loop t i (suc left) finished =
    let rest = collected_loop t (suc i) left true in
    if is_some_collected (t.data_table i) then rest else false

-- `isCollected` notes its answer in a mutable field.
unfoldable pub is_collected : TableData → TableData × Bool
unfolding collected_loop
is_collected t =
    let answer =
      if t.collecting_finished then true else collected_loop t 0 t.number_of_sections false in
    (record t { collecting_finished = answer }, answer)
