-- ===== src/Pat/Generated.antt =====
-- A PAT that `generateFrom` of src/mpegts/PAT.cpp writes, as `collectData` and `parse` read it.
use satpi.Base.{
  ℕ, ◌+◌, ◌-◌, ◌/◌, ◌%◌, ◌≤◌, ◌<◌, ◌≡◌, ◌↔◌, inl, inr, refl, ap, sym, ◌∙◌, arith, true, false, some,
  List, length, c_str,
}
use mathlib.Core.Bool.{false≢true}
use mathlib.Core.Path.{subst}
use satpi.TableData.{
  Section, TableData, empty_table, collect_data, is_collected, set_collected, collected_loop, store,
  get_data_for_section_number,
}
use satpi.TableData.Crc.{crc_field}
use satpi.TableData.Assembly.{first_section, begin_whole, finish_right}
use satpi.Pat.{Pat, new_pat, parse, parse_section, is_marked_as_pmt}
use satpi.Pat.Marks.{HasEntries, Listed, parse_section-Listed}
use satpi.Pat.Checksum.{
  generated, after_entries, length-generated, generate_from-generated, crc_matches-generated,
  slice_whole,
}
use satpi.Pat.Generate.{pmt_pid, section_bytes, generate_from}
use satpi.Pat.Entries.{Listed-generated}

-- The section of the packet, and the table that has collected it.
abbrev section_of : ℕ → ℕ → Section
section_of cc n = first_section 0 (c_str (generated cc n))

abbrev collected_table : ℕ → ℕ → TableData
collected_table cc n =
    let s : Section = section_of cc n in
    set_collected (
      store (record empty_table { number_of_sections = 1 })
        (record s { crc = crc_field (c_str s.bytes) s.section_length }))

section_length-generated : (cc n : ℕ) → n ≤ 41 → (section_of cc n).section_length ≡ section_bytes n
section_length-generated cc n few = omega (arith, few)

bytes-generated : (cc n : ℕ) → n ≤ 41 → (section_of cc n).bytes ≡ generated cc n
bytes-generated cc n few = slice_whole (generated cc n) 188 (length-generated cc n few)

collect-generated :
    (cc n : ℕ)
    → n ≤ 41
    → collect_data false 0 (c_str (generated cc n)) empty_table ≡ some (collected_table cc n)
collect-generated cc n few =
    begin_whole 0 (c_str (generated cc n)) empty_table refl refl refl refl refl
      (omega (arith, few, section_length-generated cc n few))
    ∙ finish_right (record empty_table { number_of_sections = 1 }) (section_of cc n)
        (crc_matches-generated cc n (section_of cc n) few (section_length-generated cc n few)
          (bytes-generated cc n few))

is_collected-generated : (cc n : ℕ) → (is_collected (collected_table cc n)).1 ≡ true
unfolding is_collected collected_loop set_collected
is_collected-generated cc n = refl

-- The PAT with the packet's table.
abbrev collected_pat : ℕ → ℕ → Pat
collected_pat cc n = record new_pat { table = collected_table cc n }

abbrev collected_section : ℕ → ℕ → Section
collected_section cc n =
    let s : Section = section_of cc n in
    record s { crc = crc_field (c_str s.bytes) s.section_length; collected = true }

parse-generated :
    (cc n : ℕ) (p' : Pat)
    → parse_section (collected_pat cc n) (collected_section cc n) ≡ some p'
    → parse (collected_pat cc n) ≡ some p'
unfolding parse get_data_for_section_number set_collected
parse-generated cc n p' h = h

has_entries : (cc n : ℕ) → n ≤ 41 → HasEntries (collected_section cc n)
has_entries cc n few = record {
  at_least = omega (arith, few);
  whole = omega (arith, few);
  room = omega (
    arith,
    few,
    ap (λ (b : List ℕ). length b) (bytes-generated cc n few),
    length-generated cc n few,
  );
  small = omega (arith, few);
}

-- Nothing is marked before.
unmarked : (cc n pid : ℕ) → ¬ (is_marked_as_pmt (collected_pat cc n) pid ≡ true)
unfolding is_marked_as_pmt new_pat
unmarked cc n pid h = false≢true h

marks-generated :
    (cc n pid : ℕ)
    → n ≤ 41
    → let s = collected_section cc n in
      Listed (c_str s.bytes) 13 ((s.section_length - 9) / 4) pid
      ↔ ((k : ℕ) × (k < n) × (pid ≡ pmt_pid k))
marks-generated cc n pid few = (
  λ l. all.0 (
      subst (λ (b : List ℕ). Listed (c_str b) 13 (n + 1) pid) (bytes-generated cc n few)
        (subst (λ (m : ℕ). Listed (c_str (section_of cc n).bytes) 13 m pid) count l)),
  λ k.
      subst (λ (m : ℕ). Listed (c_str (section_of cc n).bytes) 13 m pid) (sym count)
        (subst (λ (b : List ℕ). Listed (c_str b) 13 (n + 1) pid) (sym (bytes-generated cc n few))
          (all.1 k)),
)
  where
    all : Listed (c_str (generated cc n)) 13 (n + 1) pid ↔ ((k : ℕ) × (k < n) × (pid ≡ pmt_pid k))
    all = Listed-generated cc n few (after_entries cc n) pid

    count : ((section_of cc n).section_length - 9) / 4 ≡ n + 1
    count = omega (arith, few)

-- A PAT for at most 41 channels is a packet of 188 bytes; it is collected at once, as its checksum
-- is right, and parsed it marks exactly the PIDs 0x100, 0x110 and so on, one for each channel.
pub generate_from-parse :
    (cc n : ℕ)
    → n ≤ 41
    → (bytes : List ℕ) × (t : TableData) × (p' : Pat) × (generate_from cc n
        ≡ some (bytes, (cc + 1) % 16))
      × (length bytes ≡ 188)
      × (collect_data false 0 (c_str bytes) empty_table ≡ some t)
      × ((is_collected t).1 ≡ true)
      × (parse (record new_pat { table = t }) ≡ some p')
      × ((pid : ℕ) → (is_marked_as_pmt p' pid ≡ true) ↔ ((k : ℕ) × (k < n) × (pid ≡ pmt_pid k)))
generate_from-parse cc n few =
    let (p', parsed, marks) =
      parse_section-Listed (collected_pat cc n) (collected_section cc n) (has_entries cc n few) in
    (
      generated cc n,
      collected_table cc n,
      p',
      generate_from-generated cc n few,
      length-generated cc n few,
      collect-generated cc n few,
      is_collected-generated cc n,
      parse-generated cc n p' parsed,
      λ pid.
          let (to, from) = marks-generated cc n pid few in
          (
            λ h. elim ((marks pid).0 h) [
              | inl before ↦ absurd (unmarked cc n pid before)
              | inr l ↦ to l
            ],
            λ k. (marks pid).1 (inr (from k)),
          ),
    )
