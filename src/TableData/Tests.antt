-- ===== src/TableData/Tests.antt =====
-- Instances of the theorems on collecting the sections of a table.
use satpi.Base.{
  ℕ, ◌≡◌, refl, arith, true, false, none, some, List, [], ◌∷◌, Ptr, get_or, slice, c_str,
}
use satpi.TableData.{Section, TableData, empty_table, collect_data, crc_matches, crc_equals}
use satpi.Base.{◌*◌, ◌^◌}
use satpi.TableData.CrcTable.{bit_steps, crc32_table-bit_steps}
use satpi.TableData.Crc.{crc32_table, calculate_crc32, crc_field}
use satpi.TableData.Checked.{IsValid}
use satpi.TableData.Collect.{collect_data-IsValid, empty_table-IsValid, collect_data_zero_length}
use satpi.TableData.Continue.{collect_all}
use satpi.TableData.Assembly.{Begins, assembled, collect_all-assembled}

-- A packet that begins with these bytes and is filled up with 0xaa.
abbrev packet_of : List ℕ → Ptr
packet_of header i = get_or header i 0xaa

-- The two packets of a section of 200 bytes, for PID 100 and table 2.
abbrev first_packet : Ptr
first_packet = packet_of (0x47 ∷ 0x40 ∷ 100 ∷ 0x10 ∷ 0 ∷ 2 ∷ 0xb0 ∷ 200 ∷ 0 ∷ 1 ∷ 0xc1 ∷ 0 ∷ 0 ∷ [])

abbrev second_packet : Ptr
second_packet = packet_of (
    0x47 ∷ 0x00 ∷ 100 ∷ 0x11 ∷ 0xaa ∷ 0xaa ∷ 0xaa ∷ 0xaa ∷ 0xaa ∷ 0xaa ∷ 0xaa ∷ 0xaa ∷ 0xaa ∷ 0xaa
    ∷ 0xaa ∷ 0xaa ∷ 0xaa ∷ 0xaa ∷ 0xaa ∷ 0xaa ∷ 0x17 ∷ 0xc9 ∷ 0xf4 ∷ 0xdf ∷ [])

-- A packet whose section has no length.
abbrev zero_packet : Ptr
zero_packet = packet_of (0x47 ∷ 0x40 ∷ 100 ∷ 0x10 ∷ 0 ∷ 2 ∷ 0xb0 ∷ 0 ∷ 0 ∷ 1 ∷ 0xc1 ∷ 0 ∷ 0 ∷ [])

abbrev whole : Section
whole = assembled 2 first_packet (second_packet ∷ [])

whole_right : crc_matches whole ≡ some true
unfolding crc_matches crc_equals calculate_crc32 crc_field slice
whole_right = refl

begins : Begins 2 first_packet empty_table
begins = record {
  starts = refl;
  pointer = refl;
  kind = refl;
  due = refl;
  untouched = refl;
  long = omega arith;
}

collect_all-assembled_example :
    (t' : TableData) × (collect_all 2 (first_packet ∷ second_packet ∷ []) empty_table ≡ some t')
    × (t'.data_table 0
        ≡ some (record whole { crc = crc_field (c_str whole.bytes) 200; collected = true }))
collect_all-assembled_example =
    collect_all-assembled 2 first_packet second_packet [] empty_table begins (refl, refl, _)
      (omega arith) (omega arith) (omega arith) whole_right

collect_data-IsValid_example :
    (t' : TableData) × (collect_data false 2 first_packet empty_table ≡ some t') × IsValid t'
collect_data-IsValid_example =
    collect_data-IsValid 2 first_packet empty_table empty_table-IsValid (omega arith) (omega arith)
      (omega arith)

collect_data_zero_length_example : collect_data false 2 zero_packet empty_table ≡ none
collect_data_zero_length_example =
    collect_data_zero_length 2 zero_packet empty_table refl refl refl refl refl refl

crc32_table-bit_steps_example : get_or crc32_table 200 0 ≡ bit_steps 8 (200 * 2 ^ 24)
crc32_table-bit_steps_example = crc32_table-bit_steps 200 (omega arith)
