-- ===== src/TableData/Checked.antt =====
-- What `collectData` of src/mpegts/TableData.cpp keeps: a section that is marked as collected is
-- complete and its checksum is right, and no step reads past the bytes of a section.
use satpi.Base.{
  ℕ, ◌+◌, ◌^◌, ◌≤◌, ◌<◌, ◌≡◌, refl, ap, ◌⊎◌, inl, inr, Bool, true, false, Option, none, some, ◌==◌,
  arith, length, slice, length-slice, length-append, Ptr, c_str, List, ◌++◌, Bool-cases, le→ltb,
  ◌∙◌, if◌then◌else◌, leb, sub64,
}
use satpi.TableData.Crc.{crc_field}
use satpi.TableData.{
  Section, TableData, or_empty, current, store, erase, packet_pid, packet_cc, add_data,
  set_collected, crc_length, crc_equals, crc_matches, finish, continue_section,
}

-- The section holds all its bytes and ends with their checksum, which is noted.
abbrev pub IsChecked : Section → Type 0
IsChecked s =
    (s.section_length + 8 ≤ length s.bytes)
    × (crc_matches s ≡ some true)
    × (s.crc ≡ crc_field (c_str s.bytes) s.section_length)

-- A section is untouched, or has at least one packet and a length that is not 0; it is marked as
-- collected only if it is checked.
abbrev pub IsGood : Section → Type 0
IsGood s =
    ((length s.bytes ≡ 0) × (s.collected ≡ false))
    ⊎ ((188 ≤ length s.bytes)
        × (1 ≤ s.section_length)
        × (s.section_length < 4096)
        × (s.collected ≡ true → IsChecked s))

abbrev pub IsValid : TableData → Type 0
IsValid t = (i : ℕ) → IsGood (or_empty (t.data_table i))

pub store-IsValid : (t : TableData) (s : Section) → IsValid t → IsGood s → IsValid (store t s)
store-IsValid t s v g i = elim (Bool-cases (i == t.current_section_number)) [
  | inl e ↦ rw e g
  | inr e ↦ rw e (v i)
]

pub erase-IsValid : (t : TableData) → IsValid t → IsValid (erase t)
erase-IsValid t v i = elim (Bool-cases (i == t.current_section_number)) [
  | inl e ↦ rw e (inl (refl, refl))
  | inr e ↦ rw e (v i)
]

-- What `setCollected` leaves in the table.
pub set_collected_table :
    (t : TableData)
    → (set_collected t).data_table ≡ (store t (record (current t) { collected = true })).data_table
unfolding set_collected
set_collected_table t = ground arith

set_collected-IsValid :
    (t : TableData)
    → IsValid t
    → IsGood (record (current t) { collected = true })
    → IsValid (set_collected t)
set_collected-IsValid t v g i = rw (set_collected_table t) (store-IsValid t _ v g i)

-- A section that is stored and then marked: the mark is put on the section itself.
pub current-store : (t : TableData) (s : Section) → current (store t s) ≡ s
current-store t s = ground arith

abbrev pub Succeeds : Option TableData → Type 0
Succeeds none = ⊥
Succeeds (some t) = IsValid t

-- The bytes that the checksum covers are there.
crc_matches_total :
    (s : Section)
    → 1 ≤ s.section_length
    → s.section_length < 4096
    → s.section_length + 8 ≤ length s.bytes
    → (b : Bool) × (crc_matches s ≡ some b)
unfolding crc_matches
crc_matches_total s lo hi fits =
    (crc_equals s, rw (le→ltb (length s.bytes) (5 + crc_length s) (omega arith)))

-- The checksum does not depend on the fields that `finish` sets.
crc_matches_marks :
    (s : Section) (crc : ℕ) → crc_matches (record s { crc = crc; collected = true }) ≡ crc_matches s
unfolding crc_matches
crc_matches_marks s crc = refl

module _ (t : TableData) (s : Section) (v : IsValid t) where
  finish_case :
      188 ≤ length s.bytes
      → 1 ≤ s.section_length
      → s.section_length < 4096
      → s.section_length + 8 ≤ length s.bytes
      → (b : Bool) → crc_matches s ≡ some b
      → Succeeds (finish t s)
  unfolding finish crc_matches
  finish_case full lo hi fits false e = rw (e, finish) (erase-IsValid t v)
  finish_case full lo hi fits true e =
      rw (e, finish)
        (set_collected-IsValid (store t checked)
          (store-IsValid t checked v (inr (full, lo, hi, λ _. is_checked)))
          (rw (current-store t checked) (inr (full, lo, hi, λ _. is_checked))))
    where
      checked : Section
      checked = record s { crc = crc_field (c_str s.bytes) s.section_length }

      is_checked : IsChecked (record checked { collected = true })
      is_checked = (fits, crc_matches_marks s checked.crc ∙ e, refl)

  pub finish-Succeeds :
      188 ≤ length s.bytes
      → 1 ≤ s.section_length
      → s.section_length < 4096
      → s.section_length + 8 ≤ length s.bytes
      → Succeeds (finish t s)
  finish-Succeeds full lo hi fits =
      let (b, e) = crc_matches_total s lo hi fits in finish_case full lo hi fits b e

-- A section that `add_data` has extended.
add_data-added :
    (table_id pid cc : ℕ) (more : List ℕ) (s : Section)
    → (add_data table_id more pid cc s).1 ≡ true
    → (add_data table_id more pid cc s).0
      ≡ record s { table_id = table_id; bytes = s.bytes ++ more; cc = cc; pid = pid }
unfolding add_data
add_data-added table_id pid cc more s h = ground arith

-- After the new bytes the section is checked, or goes on; one that was collected is checked again.
extended-Succeeds :
    (t : TableData) (s : Section)
    → IsValid t
    → 188 ≤ length s.bytes
    → 1 ≤ s.section_length
    → s.section_length < 4096
    → length s.bytes < 2 ^ 64
    → (s.collected ≡ true → s.section_length + 9 ≤ length s.bytes)
    → Succeeds
        (if leb s.section_length (sub64 (length s.bytes) 9) then finish t s else some (store t s))
extended-Succeeds t s v full lo hi fit again =
    elim (Bool-cases (leb s.section_length (sub64 (length s.bytes) 9))) [
      | inl e ↦ rw e (finish-Succeeds t s v full lo hi (ground arith))
      | inr e ↦
          rw e (store-IsValid t s v (inr (full, lo, hi, λ c. absurd (ground (arith, again c)))))
    ]

pub continue_section-Succeeds :
    (table_id : ℕ) (packet : Ptr) (t : TableData)
    → IsValid t
    → 0 < length (current t).bytes
    → length (current t).bytes < 2 ^ 63
    → Succeeds (continue_section table_id packet t)
unfolding continue_section
continue_section-Succeeds table_id packet t v some_bytes fit = elim (Bool-cases added) [
  | inl e ↦
      rw (e, add_data-added table_id _ _ _ (current t) e)
        (extended-Succeeds t more v (omega (arith, size, partial.0)) partial.1 partial.2
          (omega (arith, size)) (λ c. omega (arith, size, (partial.3 c).0)))
  | inr e ↦ rw e (erase-IsValid t v)
]
  where
    added : Bool
    added =
        (add_data table_id (slice packet 4 184) (packet_pid packet) (packet_cc packet)
          (current t)).1

    more : Section
    more = record (current t) {
      table_id = table_id;
      bytes = (current t).bytes ++ slice packet 4 184;
      cc = packet_cc packet;
      pid = packet_pid packet;
    }

    size : length more.bytes ≡ length (current t).bytes + 184
    size =
        length-append (current t).bytes (slice packet 4 184)
        ∙ ap (λ (n : ℕ). length (current t).bytes + n) (length-slice packet 4 184)

    partial :
        (188 ≤ length (current t).bytes)
        × (1 ≤ (current t).section_length)
        × ((current t).section_length < 4096)
        × ((current t).collected ≡ true → IsChecked (current t))
    partial = elim (v t.current_section_number) [ inl none_yet ↦ absurd (omega arith) | inr g ↦ g ]
