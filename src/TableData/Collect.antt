-- ===== src/TableData/Collect.antt =====
-- Every step of `collectData` of src/mpegts/TableData.cpp: what it keeps, and where it fails.
use satpi.Base.{
  ℕ, ◌+◌, ◌^◌, ◌≤◌, ◌<◌, ◌≡◌, ◌%◌, ◌/◌, refl, inl, inr, true, false, ◌&&◌, Option, none, some, ◌==◌,
  arith, length, slice, length-slice, length-append, Ptr, List, ◌++◌, Bool-cases, lt→ltb, ==_iff,
  if◌then◌else◌, leb, ltb,
}
use satpi.TableData.{
  Section, TableData, empty_table, current, store, payload_start, packet_pid, packet_cc,
  header_length, add_data, crc_length, crc_matches, finish, begin_section, collect_data,
}
use satpi.TableData.Checked.{
  IsValid, store-IsValid, erase-IsValid, Succeeds, continue_section-Succeeds, finish-Succeeds,
}

add_data-empty :
    (table_id pid cc : ℕ) (more : List ℕ) (s : Section)
    → length s.bytes ≡ 0
    → add_data table_id more pid cc s
      ≡ (record s { table_id = table_id; bytes = s.bytes ++ more; cc = cc; pid = pid }, true)
unfolding add_data
add_data-empty table_id pid cc more s h = ground arith

-- A first packet completes its section if all of it fits the packet.
begun-Succeeds :
    (t : TableData) (s : Section)
    → IsValid t
    → length s.bytes ≡ 188
    → 1 ≤ s.section_length
    → s.section_length < 4096
    → s.collected ≡ false
    → Succeeds (if leb s.section_length 180 then finish t s else some (store t s))
begun-Succeeds t s v full lo hi fresh = elim (Bool-cases (leb s.section_length 180)) [
  | inl e ↦ rw e (finish-Succeeds t s v (omega arith) lo hi (ground arith))
  | inr e ↦ rw e (store-IsValid t s v (inr (omega arith, lo, hi, λ c. absurd (cc))))
]

-- The section as `begin_section` hands it to `add_data`.
abbrev begun_section : Ptr → TableData → Section
begun_section packet t = record (current t) {
  section_length = header_length packet;
  version = packet 10 % 32 / 2;
  next_indicator = packet 10 % 2;
  sec_nr = packet 11;
  last_sec_nr = packet 12;
}

begin_section-Succeeds :
    (table_id : ℕ) (packet : Ptr) (t : TableData)
    → IsValid t
    → length (current t).bytes ≡ 0
    → 1 ≤ header_length packet
    → packet 7 < 256
    → Succeeds (begin_section false table_id packet t)
unfolding begin_section
begin_section-Succeeds table_id packet t v empty lo byte =
    rw
      (add_data-empty table_id (packet_pid packet) (packet_cc packet) (slice packet 0 188) begun
        empty)
      (begun-Succeeds due more v size lo (omega arith) untouched)
  where
    begun : Section
    begun = begun_section packet t

    due : TableData
    due = record t { number_of_sections = packet 12 + 1 }

    more : Section
    more = record begun {
      table_id = table_id;
      bytes = begun.bytes ++ slice packet 0 188;
      cc = packet_cc packet;
      pid = packet_pid packet;
    }

    size : length more.bytes ≡ 188
    size =
        omega
          (arith, length-append (current t).bytes (slice packet 0 188), length-slice packet 0 188)

    untouched : (current t).collected ≡ false
    untouched = elim (v t.current_section_number) [ inl u ↦ u.1 | inr g ↦ absurd (omega arith) ]

Succeeds-some : (o : Option TableData) → Succeeds o → (t : TableData) × (o ≡ some t) × IsValid t
Succeeds-some none h = absurd h
Succeeds-some (some t) h = (t, refl, h)

collect_data-Succeeds :
    (table_id : ℕ) (packet : Ptr) (t : TableData)
    → IsValid t
    → 1 ≤ header_length packet
    → packet 7 < 256
    → length (current t).bytes < 2 ^ 63
    → Succeeds (collect_data false table_id packet t)
unfolding collect_data
collect_data-Succeeds table_id packet t v lo byte fit =
    elim (Bool-cases (
      payload_start packet
      && packet 4 == 0
      && packet 5 == table_id
      && length (current t).bytes == 0)) [
        | inl starts ↦ rw starts (elim (Bool-cases (packet 11 == t.current_section_number)) [
          | inl due ↦ rw due (begin_section-Succeeds table_id packet t v (ground arith) lo byte)
          | inr other ↦ rw other (store-IsValid t (current t) v (v t.current_section_number))
        ])
        | inr goes_on ↦ rw goes_on (elim (Bool-cases (ltb 0 (length (current t).bytes))) [
          | inl more ↦ rw more (continue_section-Succeeds table_id packet t v (ground arith) fit)
          | inr empty ↦ rw empty (erase-IsValid t v)
        ])
      ]

-- From a valid table every packet gives a table, never a read past the bytes of a section, and the
-- table is valid again: so what is marked as collected is checked. The packet's section length is
-- not 0, and the section fits the memory.
pub collect_data-IsValid :
    (table_id : ℕ) (packet : Ptr) (t : TableData)
    → IsValid t
    → 1 ≤ header_length packet
    → packet 7 < 256
    → length (current t).bytes < 2 ^ 63
    → (t' : TableData) × (collect_data false table_id packet t ≡ some t') × IsValid t'
collect_data-IsValid table_id packet t v lo byte fit =
    Succeeds-some _ (collect_data-Succeeds table_id packet t v lo byte fit)

pub empty_table-IsValid : IsValid empty_table
empty_table-IsValid i = inl (refl, refl)

finish_zero_length :
    (t : TableData) (s : Section)
    → s.section_length ≡ 0
    → length s.bytes < 2 ^ 63
    → finish t s ≡ none
unfolding finish crc_matches
finish_zero_length t s zero_length fit =
    rw (lt→ltb (length s.bytes) (5 + crc_length s) (omega arith), finish)

-- A packet that begins the section which is due, of which nothing has come yet, and has a section
-- length of 0 makes the checksum run over bytes that are not there.
pub collect_data_zero_length :
    (table_id : ℕ) (packet : Ptr) (t : TableData)
    → payload_start packet ≡ true
    → packet 4 ≡ 0
    → packet 5 ≡ table_id
    → packet 11 ≡ t.current_section_number
    → length (current t).bytes ≡ 0
    → header_length packet ≡ 0
    → collect_data false table_id packet t ≡ none
unfolding collect_data begin_section add_data
collect_data_zero_length table_id packet t starts pointer kind due empty zero_length =
    rw (starts, is_equal pointer, is_equal kind, is_equal empty, is_equal due)
      (rw (is_leb zero_length) (
        finish_zero_length (record t { number_of_sections = packet 12 + 1 }) more zero_length
          (omega (arith, empty, size))))
  where
    is_equal : {a b : ℕ} → a ≡ b → (a == b) ≡ true
    is_equal e = (==_iff _ _).1 e

    is_leb : header_length packet ≡ 0 → leb (header_length packet) 180 ≡ true
    is_leb e = rw e

    begun : Section
    begun = begun_section packet t

    more : Section
    more = record begun {
      table_id = table_id;
      bytes = begun.bytes ++ slice packet 0 188;
      cc = packet_cc packet;
      pid = packet_pid packet;
    }

    size : length more.bytes ≡ length (current t).bytes + 188
    size =
        omega
          (arith, length-append (current t).bytes (slice packet 0 188), length-slice packet 0 188)
