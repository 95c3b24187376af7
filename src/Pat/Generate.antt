-- ===== src/Pat/Generate.antt =====
-- `PAT::generateFrom` of src/mpegts/PAT.cpp: the packet of a PAT for the channels of an M3U list, of
-- which only the number matters.
use satpi.Base.{
  ℕ, zero, suc, ◌+◌, ◌-◌, ◌*◌, ◌/◌, ◌%◌, ◌^◌, if◌then◌else◌, ltb, Option, none, some, List, [], ◌∷◌,
  ◌++◌, replicate, c_str, offset,
}
use satpi.PacketBuffer.{byte_of}
use satpi.TableData.Crc.{calculate_crc32}

-- The number and the PMT PID of the channel `k`.
abbrev pub prognr : ℕ → ℕ
prognr k = 0x4000 + k

abbrev pub pmt_pid : ℕ → ℕ
pmt_pid k = 0x0100 + 0x10 * k

-- The entries of `n` channels from `k` on.
unfoldable pub entries : ℕ → ℕ → List ℕ
entries k zero = []
entries k (suc n) =
    (prognr k / 2 ^ 8 % 2 ^ 8)
    ∷ (prognr k % 2 ^ 8)
    ∷ (pmt_pid k / 2 ^ 8 % 2 ^ 5)
    ∷ (pmt_pid k % 2 ^ 8)
    ∷ entries (suc k) n

-- `index - 8 + 4`, with the index behind the entries.
abbrev pub section_bytes : ℕ → ℕ
section_bytes n = 17 + 4 * n - 8 + 4

-- The bytes before the checksum: the headers, the entry of the NIT and those of the channels.
abbrev pub before_crc : ℕ → ℕ → List ℕ
before_crc cc n =
    0x47
    ∷ 0x40
    ∷ 0
    ∷ (0x10 + cc % 16)
    ∷ 0
    ∷ 0
    ∷ (section_bytes n / 2 ^ 8 % 2 ^ 8)
    ∷ (section_bytes n % 2 ^ 8)
    ∷ 0
    ∷ 0
    ∷ 0xcb
    ∷ 0
    ∷ 0
    ∷ 0
    ∷ 0
    ∷ 0
    ∷ 0x10
    ∷ entries 0 n

-- The packet, and the next value of the counter `cc`. `none`: the entries do not fit the 188 bytes of
-- the array, behind which the code then writes.
unfoldable pub generate_from : ℕ → ℕ → Option (List ℕ × ℕ)
generate_from cc n =
    let tmp = before_crc cc n in
    let crc = calculate_crc32 (offset (c_str tmp) 5) (section_bytes n - 4 + 3) in
    let crc_bytes = byte_of crc 3 ∷ byte_of crc 2 ∷ byte_of crc 1 ∷ byte_of crc 0 ∷ [] in
    if ltb 188 (21 + 4 * n)
    then none
    else some (tmp ++ (crc_bytes ++ replicate (188 - (21 + 4 * n)) 0xff), (cc + 1) % 16)
