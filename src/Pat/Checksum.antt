-- ===== src/Pat/Checksum.antt =====
-- The checksum of a PAT that `generateFrom` of src/mpegts/PAT.cpp writes.
use satpi.Base.{
  holds_below, holds_below-true, ℕ, zero, suc, ◌+◌, ◌-◌, ◌*◌, ◌≤◌, ◌%◌, ◌≡◌, refl, arith, true,
  some, List, [], ◌∷◌, ◌++◌, length, length-append, length-replicate, replicate, c_str, offset,
  slice, slice_ext, u64, sub64, ap, ◌∙◌, sym, le→ltb,
}
use satpi.PacketBuffer.{byte_of}
use satpi.TableData.{Section, empty_section, crc_matches, crc_equals}
use satpi.TableData.Crc.{calculate_crc32, crc_field}
use satpi.Pat.Generate.{entries, section_bytes, before_crc, generate_from}

-- What follows the entries: the checksum and the stuffing.
abbrev pub after_entries : ℕ → ℕ → List ℕ
after_entries cc n =
    let crc = calculate_crc32 (offset (c_str (before_crc cc n)) 5) (section_bytes n - 4 + 3) in
    (byte_of crc 3 ∷ byte_of crc 2 ∷ byte_of crc 1 ∷ byte_of crc 0 ∷ [])
    ++ replicate (188 - (21 + 4 * n)) 0xff

abbrev pub generated : ℕ → ℕ → List ℕ
generated cc n = before_crc cc n ++ after_entries cc n

length-entries : (k n : ℕ) → length (entries k n) ≡ 4 * n
unfolding entries
length-entries k zero = refl
length-entries k (suc n) = omega (arith, length-entries (suc k) n)

pub length-generated : (cc n : ℕ) → n ≤ 41 → length (generated cc n) ≡ 188
length-generated cc n few = omega (
  arith,
  length-append (before_crc cc n) (after_entries cc n),
  length-entries 0 n,
  length-replicate {A = ℕ} (188 - (21 + 4 * n)) 0xff,
)

pub generate_from-generated :
    (cc n : ℕ) → n ≤ 41 → generate_from cc n ≡ some (generated cc n, (cc + 1) % 16)
unfolding generate_from
generate_from-generated cc n few = rw (le→ltb 188 (21 + 4 * n) (omega arith)) refl

abbrev pub as_section : ℕ → ℕ → Section
as_section cc n = record empty_section { section_length = section_bytes n; bytes = generated cc n }

all_right : (cc : ℕ) → holds_below (λ n. crc_equals (as_section cc n)) 42 ≡ true
unfolding holds_below crc_equals calculate_crc32 crc_field entries
all_right cc = refl

-- The checksum of a section with these bytes is right.
pub crc_matches-generated :
    (cc n : ℕ) (s : Section)
    → n ≤ 41
    → s.section_length ≡ section_bytes n
    → s.bytes ≡ generated cc n
    → crc_matches s ≡ some true
unfolding crc_matches crc_equals
crc_matches-generated cc n s few size same =
    rw (size, same)
      (rw
        (le→ltb (length (generated cc n)) (5 + u64 (sub64 (section_bytes n) 4 + 3))
          (omega (arith, length-generated cc n few)))
        (ap some
          (holds_below-true (λ m. crc_equals (as_section cc m)) 42 n (omega arith) (all_right cc))))

shifted : (x : ℕ) (xs : List ℕ) (k : ℕ) → c_str (x ∷ xs) (1 + k) ≡ c_str xs (0 + k)
shifted x xs k = let at : 1 + k ≡ suc (0 + k) = omega arith in rw at refl

-- The bytes of a string, read through its pointer.
slice-c_str : (xs : List ℕ) → slice (c_str xs) 0 (length xs) ≡ xs
unfolding slice
slice-c_str [] = refl
slice-c_str (x ∷ xs) =
    ap (◌∷◌ x) (
      slice_ext (c_str (x ∷ xs)) (c_str xs) 1 0 (length xs) (λ k h. shifted x xs k)
      ∙ slice-c_str xs)

pub slice_whole : (xs : List ℕ) (n : ℕ) → length xs ≡ n → slice (c_str xs) 0 n ≡ xs
slice_whole xs n e = ap (λ (m : ℕ). slice (c_str xs) 0 m) (sym e) ∙ slice-c_str xs
