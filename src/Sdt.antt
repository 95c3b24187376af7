-- ===== src/Sdt.antt =====
-- src/mpegts/SDT.{h,cpp}: the service description table, which tells the names of the services.
-- `none` stands for a read behind the bytes of a section, or for a loop that is still running after
-- as many rounds as there can be.
pub mod Names
pub mod Rounds
mod Tests
use satpi.Base.{
  ℕ, zero, suc, ◌+◌, ◌-◌, ◌*◌, ◌/◌, ◌%◌, ◌^◌, Bool, true, false, if◌then◌else◌, ltb, leb, ◌==◌,
  Option, none, some, List, [], ◌∷◌, ◌++◌, length, Ptr, c_str, offset, sub64, read, update, ◌>>=◌,
}
use satpi.Text.{codes}
use satpi.TableData
use satpi.TableData.{TableData, Section, empty_table}
use satpi.Filter.{Table}

-- The names in UTF-8.
pub record SdtData : Type 0 where
  pub network_name_utf8 : List ℕ
  pub channel_name_utf8 : List ℕ

pub record Sdt : Type 0 where
  pub table : TableData
  pub transport_stream_id : ℕ
  pub network_id : ℕ
  pub sdt_table : ℕ → Option SdtData

unfoldable pub new_sdt : Sdt
new_sdt = record {
  table = empty_table;
  transport_stream_id = 0;
  network_id = 0;
  sdt_table = λ _. none;
}

unfoldable pub clear : Sdt → Sdt
clear s = record new_sdt { table = TableData.clear s.table }

-- A byte of a name, which is taken as a code point: `0xC0 | ((c & 0xC0) >> 6)`, `0x80 | (c & 0x3F)`.
abbrev pub utf8_of : ℕ → List ℕ
utf8_of c = if c / 128 % 2 == 1 then (0xc0 + c / 64) ∷ (0x80 + c % 64) ∷ [] else c ∷ []

unfoldable pub utf8_loop : Ptr → ℕ → ℕ → List ℕ
utf8_loop p i zero = []
utf8_loop p i (suc left) = utf8_of (p i) ++ utf8_loop p (suc i) left

-- The bytes before the name that choose its table of characters.
abbrev pub name_offset : Ptr → ℕ
name_offset p = if ltb (p 0) 0x20 then (if p 0 == 0x10 then 2 else 1) else 0

-- `copyToUTF8` onto an empty string.
unfoldable pub copy_to_utf8 : Ptr → ℕ → List ℕ
copy_to_utf8 p len = utf8_loop p (name_offset p) (len - name_offset p)

-- A name at offset `i` with its length before it, and how many bytes both take. The byte behind the
-- length is read in any case, the others of the name where there are any.
unfoldable pub read_name : List ℕ → ℕ → Option (ℕ × List ℕ)
read_name bytes i = do
  sub_length ← read bytes i
  first ← read bytes (i + 1)
  let from = name_offset (offset (c_str bytes) (i + 1))
  last ← read bytes (if ltb from sub_length then i + sub_length else i)
  some (sub_length + 1, copy_to_utf8 (offset (c_str bytes) (i + 1)) sub_length)

-- One descriptor, at offset `at` of the section: how far it is to the next.
unfoldable pub sdt_descriptor :
    List ℕ → ℕ → ℕ → ℕ → (ℕ → Option SdtData) → Option (ℕ × (ℕ → Option SdtData))
sdt_descriptor bytes at desc_length service_id table = do
  tag ← read bytes at
  if tag == 0x48
      then (do
        network ← read_name bytes (at + 3)
        channel ← read_name bytes (at + 3 + network.0)
        let found : SdtData = record {
          network_name_utf8 = network.1;
          channel_name_utf8 = channel.1;
        }
        some (3 + network.0 + channel.0, update table service_id (some found)))
      else some (desc_length, table)

-- The loop over the descriptors of a service, whose entry is at offset `base`.
unfoldable pub sdt_descriptors :
    ℕ → List ℕ → ℕ → ℕ → ℕ → ℕ → (ℕ → Option SdtData) → Option (ℕ → Option SdtData)
sdt_descriptors zero bytes base desc_length service_id j table =
    if ltb j desc_length then none else some table
sdt_descriptors (suc fuel) bytes base desc_length service_id j table =
    let entry =
      sdt_descriptor bytes (base + j) desc_length service_id table
      >>= (λ r. sdt_descriptors fuel bytes base desc_length service_id (j + r.0) r.1) in
    if ltb j desc_length then entry else some table

unfoldable pub sdt_service : List ℕ → ℕ → (ℕ → Option SdtData) → Option (ℕ × (ℕ → Option SdtData))
sdt_service bytes i table = do
  s1 ← read bytes i
  s0 ← read bytes (i + 1)
  eit ← read bytes (i + 2)
  l1 ← read bytes (i + 3)
  l0 ← read bytes (i + 4)
  let desc_length = l1 % 16 * 256 + l0
  table' ← sdt_descriptors desc_length bytes i desc_length (s1 * 256 + s0) 5 table
  some (desc_length + 5, table')

-- The loop over the services, at offset `16 + i` of the section.
unfoldable pub sdt_services :
    ℕ → List ℕ → ℕ → ℕ → (ℕ → Option SdtData) → Option (ℕ → Option SdtData)
sdt_services zero bytes len i table = if ltb i len then none else some table
sdt_services (suc fuel) bytes len i table =
    let entry =
      sdt_service bytes (16 + i) table >>= (λ r. sdt_services fuel bytes len (i + r.0) r.1) in
    if ltb i len then entry else some table

-- The length of the services: `sectionLength - 4 - 8`, of unsigned numbers.
abbrev pub services_length : Section → ℕ
services_length s = sub64 (sub64 s.section_length 4) 8

unfoldable pub parse_section : Section → Sdt → Option Sdt
parse_section s t = elim (sdt_services (length s.bytes) s.bytes (services_length s) 0 t.sdt_table) [
  | none ↦ none
  | some table ↦ some (record t {
    transport_stream_id = c_str s.bytes 8 * 256 + c_str s.bytes 9;
    network_id = c_str s.bytes 13 * 256 + c_str s.bytes 14;
    sdt_table = table;
  })
]

-- The loop over the sections.
unfoldable pub parse_sections : ℕ → ℕ → Sdt → Option Sdt
parse_sections sec_nr zero t = some t
parse_sections sec_nr (suc left) t = elim (TableData.get_data_for_section_number t.table sec_nr) [
  | none ↦ parse_sections (suc sec_nr) left t
  | some s ↦ parse_section s t >>= (λ t'. parse_sections (suc sec_nr) left t')
]

unfoldable pub parse : Sdt → Option Sdt
parse t = parse_sections 0 t.table.number_of_sections t

unfoldable pub get_sdt_data_for : Sdt → ℕ → SdtData
get_sdt_data_for t prog_id = elim (t.sdt_table prog_id) [
  | none ↦ record { network_name_utf8 = codes "Not Found"; channel_name_utf8 = codes "Not Found" }
  | some d ↦ d
]

-- The table as the filter collects it.
abbrev pub sdt_table : Table Sdt
sdt_table = record {
  fresh = new_sdt;
  sections = λ s. s.table;
  with_sections = λ t s. record s { table = t };
  parse = parse;
}
