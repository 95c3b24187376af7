-- ===== src/Pat/Tests.antt =====
-- Runs of the program association table, and instances of its theorems.
use satpi.Base.{List, length, ℕ, ◌<◌, ◌≡◌, ◌⊎◌, ◌↔◌, refl, arith, true, false, some, [], ◌∷◌, c_str}
use satpi.TableData.{Section, empty_section}
use satpi.Pat.{Pat, new_pat, parse_section, is_marked_as_pmt}
use satpi.TableData.{TableData, empty_table, collect_data, is_collected}
use satpi.Pat.{parse}
use satpi.Pat.Generate.{generate_from, pmt_pid}
use satpi.Pat.Generated.{generate_from-parse}
use satpi.Pat.Marks.{Listed, parse_section-Listed}

-- A section with the entry of the NIT and that of program 1, whose PMT has PID 100.
abbrev two_programs : Section
two_programs = record empty_section {
  section_length = 17;
  bytes =
      0x47 ∷ 0x40 ∷ 0 ∷ 0x10 ∷ 0 ∷ 0 ∷ 0xb0 ∷ 17 ∷ 0 ∷ 1 ∷ 0xc1 ∷ 0 ∷ 0 ∷ 0 ∷ 0 ∷ 0xe0 ∷ 16 ∷ 0 ∷ 1
      ∷ 0xe0 ∷ 100 ∷ 1 ∷ 2 ∷ 3 ∷ 4 ∷ [];
}

parse_section-Listed_example :
    (p' : Pat) × (parse_section new_pat two_programs ≡ some p')
    × ((pid : ℕ)
        → (is_marked_as_pmt p' pid ≡ true)
          ↔ ((is_marked_as_pmt new_pat pid ≡ true) ⊎ Listed (c_str two_programs.bytes) 13 2 pid))
parse_section-Listed_example =
    parse_section-Listed new_pat two_programs
      (record { at_least = omega arith; whole = refl; room = omega arith; small = omega arith })

generate_from-parse_example :
    (bytes : List ℕ) × (t : TableData) × (p' : Pat) × (generate_from 3 2 ≡ some (bytes, 4))
    × (length bytes ≡ 188)
    × (collect_data false 0 (c_str bytes) empty_table ≡ some t)
    × ((is_collected t).1 ≡ true)
    × (parse (record new_pat { table = t }) ≡ some p')
    × ((pid : ℕ) → (is_marked_as_pmt p' pid ≡ true) ↔ ((k : ℕ) × (k < 2) × (pid ≡ pmt_pid k)))
generate_from-parse_example = generate_from-parse 3 2 (omega arith)
