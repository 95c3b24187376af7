-- ===== src/Pat.antt =====
-- src/mpegts/PAT.{h,cpp}: the program association table, which tells the PIDs of the PMTs.
pub mod Marks
pub mod Generate
pub mod Checksum
pub mod Entries
pub mod Generated
mod Tests
use satpi.Base.{
  ℕ, zero, suc, ◌+◌, ◌*◌, ◌/◌, ◌%◌, Bool, true, false, if◌then◌else◌, ◌==◌, ltb, update, Option,
  none, some, List, length, Ptr, c_str, sub64,
}
use satpi.TableData
use satpi.TableData.{TableData, Section, empty_table}

-- `_pmtPidTable` maps a PID to `true`, or has no entry for it.
pub record Pat : Type 0 where
  pub table : TableData
  pub tid : ℕ
  pub pmt_pid_table : ℕ → Bool

unfoldable pub new_pat : Pat
new_pat = record { table = empty_table; tid = 0; pmt_pid_table = λ _. false }

unfoldable pub clear : Pat → Pat
clear p = record { table = TableData.clear p.table; tid = 0; pmt_pid_table = λ _. false }

unfoldable pub is_marked_as_pmt : Pat → ℕ → Bool
is_marked_as_pmt p pid = p.pmt_pid_table pid

-- The entry at `i`: a program number and a PID.
abbrev pub program_number : Ptr → ℕ → ℕ
program_number p i = p i * 256 + p (i + 1)

abbrev pub program_pid : Ptr → ℕ → ℕ
program_pid p i = p (i + 2) % 32 * 256 + p (i + 3)

-- Program 0 is the NIT.
abbrev pub mark_entry : Ptr → ℕ → (ℕ → Bool) → ℕ → Bool
mark_entry p i marks =
    if program_number p i == 0 then marks else update marks (program_pid p i) true

-- The loop over the entries of the section `bytes`, from offset `i` of the string on. `none`: a
-- read behind the string.
unfoldable pub parse_loop : List ℕ → ℕ → ℕ → (ℕ → Bool) → Option (ℕ → Bool)
parse_loop bytes i zero marks = some marks
parse_loop bytes i (suc left) marks =
    let rest = parse_loop bytes (i + 4) left (mark_entry (c_str bytes) i marks) in
    if ltb (length bytes) (i + 3) then none else rest

-- The number of rounds of `for (i = 0; i < len; i += 4)`.
abbrev pub rounds_of : ℕ → ℕ
rounds_of len = (len + 3) / 4

-- The length of the entries: `sectionLength - 4 - 5`, of unsigned numbers.
abbrev pub entries_length : Section → ℕ
entries_length s = sub64 (sub64 s.section_length 4) 5

unfoldable pub parse_section : Pat → Section → Option Pat
parse_section p s = elim (parse_loop s.bytes 13 (rounds_of (entries_length s)) p.pmt_pid_table) [
  | none ↦ none
  | some marks ↦
      some (record p { tid = c_str s.bytes 8 * 256 + c_str s.bytes 9; pmt_pid_table = marks })
]

unfoldable pub parse : Pat → Option Pat
parse p = elim (TableData.get_data_for_section_number p.table 0) [
  | none ↦ some p
  | some s ↦ parse_section p s
]
