-- ===== src/Pmt/Tests.antt =====
-- Runs of the program map table, and an instance of the theorem on its loops.
use satpi.Base.{slice, ℕ, ◌≡◌, refl, Option, none, some, List, [], ◌∷◌}
use satpi.TableData.{Section, empty_section}
use satpi.Pmt.{
  Pmt, EcmData, EsData, new_pmt, parse_section, parse_program, program_loop, program_entry,
  read_ecm, append_bytes, es_loop, es_entry, stream_loop, stream_entry,
}
use satpi.Pmt.Rounds.{SectionRuns, parse-Runs}

-- Program 1 with its clock on PID 101, a message PID 0x201 for the program, and a video stream on PID
-- 101.
abbrev bytes : List ℕ
bytes =
    0x47 ∷ 0x40 ∷ 100 ∷ 0x10 ∷ 0 ∷ 2 ∷ 0xb0 ∷ 24 ∷ 0 ∷ 1 ∷ 0xc1 ∷ 0 ∷ 0 ∷ 0xe0 ∷ 101 ∷ 0xf0 ∷ 6 ∷ 9
    ∷ 4 ∷ 0x18 ∷ 0x30 ∷ 0xe2 ∷ 1 ∷ 0x1b ∷ 0xe0 ∷ 101 ∷ 0xf0 ∷ 0 ∷ 1 ∷ 2 ∷ 3 ∷ 4 ∷ []

abbrev one_program : Section
one_program = record empty_section { section_length = 24; bytes = bytes; pid = 100 }

abbrev streams_of : Option Pmt → List EcmData × List EsData
streams_of none = ([], [])
streams_of (some p) = (p.ecm_pids, p.es_pids)

parse_section_run : streams_of (parse_section new_pmt one_program) ≡ (
  record { caid = 0x1830; ecmpid = 0x201; provid = 0 } ∷ [],
  record { pid = 101; stream_type = 0x1b } ∷ [],
)
unfolding parse_section parse_program program_loop program_entry read_ecm append_bytes es_loop
    es_entry stream_loop stream_entry slice
parse_section_run = refl

parse-Runs_example : SectionRuns new_pmt one_program (parse_section new_pmt one_program)
parse-Runs_example = parse-Runs new_pmt one_program
