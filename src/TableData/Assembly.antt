-- ===== src/TableData/Assembly.antt =====
-- `collectData` of src/mpegts/TableData.cpp over the packets of one section: a section that is
-- spread over several packets is put together again.
use satpi.Base.{
  ℕ, ◌+◌, ◌*◌, ◌%◌, ◌/◌, ◌≤◌, ◌<◌, ◌≡◌, refl, ◌∙◌, true, false, none, some, List, ◌∷◌, arith,
  length, slice, length-slice, Ptr, c_str, ==_refl,
}
use satpi.TableData.Crc.{crc_field}
use satpi.TableData.Checked.{current-store, set_collected_table}
use satpi.TableData.{
  Section, TableData, empty_section, current, store, payload_start, packet_pid, packet_cc,
  header_length, add_data, set_collected, crc_matches, finish, begin_section, collect_data,
}
use satpi.TableData.Continue.{collect_all, Follows, extend, collect_all_cons, continue_all}

-- The packet begins the section which the table waits for, and the section goes on behind it.
pub record Begins (table_id : ℕ) (first : Ptr) (t : TableData) : Type 0 where
  pub starts : payload_start first ≡ true
  pub pointer : first 4 ≡ 0
  pub kind : first 5 ≡ table_id
  pub due : first 11 ≡ t.current_section_number
  pub untouched : t.data_table t.current_section_number ≡ none
  pub long : 180 < header_length first

-- The section after its first packet.
abbrev pub first_section : ℕ → Ptr → Section
first_section table_id first = record {
  table_id = table_id;
  section_length = header_length first;
  version = first 10 % 32 / 2;
  next_indicator = first 10 % 2;
  sec_nr = first 11;
  last_sec_nr = first 12;
  crc = 0;
  bytes = slice first 0 188;
  cc = packet_cc first;
  pid = packet_pid first;
  collected = false;
}

-- The section that is spread over the packets.
abbrev pub assembled : ℕ → Ptr → List Ptr → Section
assembled table_id first rest = extend table_id (first_section table_id first) rest

begin_step :
    (table_id : ℕ) (first : Ptr) (t : TableData)
    → Begins table_id first t
    → collect_data false table_id first t
      ≡ some (store (record t { number_of_sections = first 12 + 1 }) (first_section table_id first))
unfolding collect_data begin_section add_data
begin_step table_id first t b = rw (current_empty, b.starts) (ground arith)
  where
    current_empty : current t ≡ empty_section
    current_empty = rw b.untouched

-- A packet that begins the due section and holds all of it leads to the check at once.
pub begin_whole :
    (table_id : ℕ) (first : Ptr) (t : TableData)
    → payload_start first ≡ true
    → first 4 ≡ 0
    → first 5 ≡ table_id
    → first 11 ≡ t.current_section_number
    → t.data_table t.current_section_number ≡ none
    → header_length first ≤ 180
    → collect_data false table_id first t
      ≡ finish (record t { number_of_sections = first 12 + 1 }) (first_section table_id first)
unfolding collect_data begin_section add_data
begin_whole table_id first t starts pointer kind due untouched short =
    rw (current_empty, starts) (ground arith)
  where
    current_empty : current t ≡ empty_section
    current_empty = rw untouched

-- A section whose checksum is right is kept, with the checksum, and marked as collected.
pub finish_right :
    (t : TableData) (s : Section)
    → crc_matches s ≡ some true
    → finish t s
      ≡ some
          (set_collected (store t (record s { crc = crc_field (c_str s.bytes) s.section_length })))
unfolding finish
finish_right t s e = rw (e, finish)

finish_checked :
    (t : TableData) (s : Section)
    → crc_matches s ≡ some true
    → (t' : TableData) × (finish t s ≡ some t')
      × (t'.data_table t.current_section_number
          ≡ some (record s { crc = crc_field (c_str s.bytes) s.section_length; collected = true }))
finish_checked t s e =
    let checked : Section = record s { crc = crc_field (c_str s.bytes) s.section_length } in
    (
      set_collected (store t checked),
      finish_right t s e,
      rw (set_collected_table (store t checked), ==_refl t.current_section_number) refl,
    )

-- A section of fewer than 4096 bytes that is spread over several packets, begun where the table
-- waits for it, each packet with the counter after the one before and of the same PID, and whose
-- checksum is right, is collected by the last of them: the table then holds the bytes of all the
-- packets in their order, marked as collected.
pub collect_all-assembled :
    (table_id : ℕ) (first p : Ptr) (ps : List Ptr) (t : TableData)
    → Begins table_id first t
    → Follows (packet_pid first) (packet_cc first) (p ∷ ps)
    → 188 + 184 * length ps < header_length first + 9
    → header_length first + 9 ≤ 188 + 184 * length (p ∷ ps)
    → header_length first < 4096
    → let s = assembled table_id first (p ∷ ps) in
      crc_matches s ≡ some true
      → (t' : TableData) × (collect_all table_id (first ∷ p ∷ ps) t ≡ some t')
        × (t'.data_table t.current_section_number
            ≡ some
                (record s { crc = crc_field (c_str s.bytes) s.section_length; collected = true }))
collect_all-assembled table_id first p ps t b follow early late small right =
    let s1 : Section = first_section table_id first in
    let t1 : TableData = record t { number_of_sections = first 12 + 1 } in
    let (t2, e, n, _) =
      continue_all table_id p ps (store t1 s1) s1 (current-store t1 s1)
        (omega (arith, length-slice first 0 188)) follow (omega (arith, length-slice first 0 188))
        (omega (arith, length-slice first 0 188)) (omega (arith, length-slice first 0 188)) in
    let (t3, f, held) = finish_checked t2 (assembled table_id first (p ∷ ps)) right in
    (
      t3,
      collect_all_cons table_id first (p ∷ ps) t _ (begin_step table_id first t b) ∙ e ∙ f,
      rw n at held,
    )
