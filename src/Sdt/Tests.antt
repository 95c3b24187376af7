-- ===== src/Sdt/Tests.antt =====
-- Runs of the service description table, and instances of its theorem.
use satpi.Base.{◌≡◌, refl, arith, Option, none, some, [], ◌∷◌, Ptr, slice, if◌then◌else◌, ◌==◌}
use satpi.Text.{codes}
use satpi.TableData.{Section, empty_section}
use satpi.Sdt.{
  SdtData, new_sdt, parse_section, get_sdt_data_for, copy_to_utf8, sdt_services, sdt_service,
  sdt_descriptors, sdt_descriptor, read_name, utf8_loop,
}
use satpi.Sdt.Names.{decode_utf8, text_of, decode_utf8-copy_to_utf8}

-- A name in the table of characters 5, with a letter above 0x7f.
abbrev name : Ptr
name i = if i == 0 then 5 else if i == 1 then 0xe4 else 0x41

decode_utf8-copy_to_utf8_example : decode_utf8 (copy_to_utf8 name 3) ≡ some (0xe4 ∷ 0x41 ∷ [])
unfolding slice text_of
decode_utf8-copy_to_utf8_example = decode_utf8-copy_to_utf8 name 3 (λ k. ground arith)

-- One service, with the network "N" and the channel "TV".
abbrev one_service : Section
one_service = record empty_section {
  section_length = 30;
  bytes =
      0x47 ∷ 0x40 ∷ 17 ∷ 0x10 ∷ 0 ∷ 0x42 ∷ 0xf0 ∷ 30 ∷ 0 ∷ 1 ∷ 0xc1 ∷ 0 ∷ 0 ∷ 0 ∷ 2 ∷ 0xff ∷ 0x12
      ∷ 0x34 ∷ 0 ∷ 0 ∷ 13 ∷ 0x48 ∷ 6 ∷ 1 ∷ 1 ∷ 78 ∷ 2 ∷ 84 ∷ 86 ∷ 0 ∷ 0 ∷ 0 ∷ 0 ∷ 0 ∷ 0 ∷ 0 ∷ 0 ∷ 0
      ∷ 0 ∷ 0 ∷ [];
}

abbrev parsed : Option SdtData
parsed = elim (parse_section one_service new_sdt) [
  | none ↦ none
  | some t ↦ some (get_sdt_data_for t 0x1234)
]

parse_section_run :
    parsed ≡ some (record { network_name_utf8 = codes "N"; channel_name_utf8 = codes "TV" })
unfolding parse_section sdt_services sdt_service sdt_descriptors sdt_descriptor read_name
    copy_to_utf8 utf8_loop get_sdt_data_for new_sdt
parse_section_run = refl
