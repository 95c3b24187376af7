-- ===== src/TableData/CrcTable.antt =====
-- The table `crc32Table` of src/mpegts/TableData.cpp against the polynomial that it stands for.
use satpi.Base.{
  ℕ, zero, suc, ◌*◌, ◌^◌, ◌<◌, ◌≡◌, refl, true, if◌then◌else◌, ◌==◌, ==_iff, leb, get_or, u32,
  holds_below, holds_below-true,
}
use Prim.Native.Nat.{bit_xor}
use satpi.TableData.Crc.{crc32_table}

-- The generator polynomial of CRC-32 without its highest term, as ISO/IEC 13818-1 gives it.
abbrev pub polynomial : ℕ
polynomial = 0x04c11db7

-- One bit: the register is shifted, and reduced by the polynomial if its highest bit was set.
abbrev pub bit_step : ℕ → ℕ
bit_step crc = if leb (2 ^ 31) crc then bit_xor (u32 (crc * 2)) polynomial else u32 (crc * 2)

abbrev pub bit_steps : ℕ → ℕ → ℕ
bit_steps zero crc = crc
bit_steps (suc n) crc = bit_steps n (bit_step crc)

all_entries : holds_below (λ b. get_or crc32_table b 0 == bit_steps 8 (b * 2 ^ 24)) 256 ≡ true
unfolding holds_below crc32_table
all_entries = refl

-- Each of the 256 entries of the table is what eight steps bit by bit, with the generator
-- polynomial, make of its byte.
pub crc32_table-bit_steps : (b : ℕ) → b < 256 → get_or crc32_table b 0 ≡ bit_steps 8 (b * 2 ^ 24)
crc32_table-bit_steps b byte = (==_iff (get_or crc32_table b 0) (bit_steps 8 (b * 2 ^ 24))).0 (
    holds_below-true (λ x. get_or crc32_table x 0 == bit_steps 8 (x * 2 ^ 24)) 256 b byte
      all_entries)
