-- ===== src/Pcr.antt =====
-- src/mpegts/PCR.{h,cpp}: the program clock reference, from which a reader of a file paces itself.
pub mod Delta
mod Tests
use satpi.Base.{
  ℕ, ◌+◌, ◌-◌, ◌*◌, ◌/◌, ◌%◌, ◌^◌, Bool, true, false, ◌&&◌, if◌then◌else◌, ltb, Ptr, has_bit, u64,
  sub64,
}

-- `_pcrDelta` is a signed number; `collectData` leaves no negative one.
pub record Pcr : Type 0 where
  pub pcr_prev : ℕ
  pub pcr_delta : ℕ

abbrev pub new_pcr : Pcr
new_pcr = record { pcr_prev = 0; pcr_delta = 0 }

-- The adaptation field flag, and the flag of a clock reference in it.
unfoldable pub is_pcr_table_data : Ptr → Bool
is_pcr_table_data packet = has_bit (packet 3) 5 && has_bit (packet 5) 4

-- The 32 upper bits of the clock's base.
unfoldable pub pcr_word : Ptr → ℕ
pcr_word packet = packet 6 * 2 ^ 24 + packet 7 * 2 ^ 16 + packet 8 * 2 ^ 8 + packet 9

-- `static_cast<uint64_t>(… << 24 | …) << 1`: the `int` is extended by its sign.
unfoldable pub pcr_base : Ptr → ℕ
pcr_base packet =
    let word = pcr_word packet in
    u64 ((if ltb word (2 ^ 31) then word else word + (2 ^ 64 - 2 ^ 32)) * 2)

-- The difference as a signed number, held between 1 and 75000 where it is out of range.
unfoldable pub clamp_delta : ℕ → ℕ
clamp_delta difference =
    if ltb difference (2 ^ 63) then (if ltb 75000 difference then 75000 else difference) else 1

unfoldable pub collect_data : Ptr → Pcr → Pcr
collect_data packet p =
    let current = pcr_base packet in
    if is_pcr_table_data packet
    then record { pcr_prev = current; pcr_delta = clamp_delta (sub64 current p.pcr_prev) * 11 }
    else p

unfoldable pub get_pcr_delta : Pcr → ℕ
get_pcr_delta p = p.pcr_delta

unfoldable pub clear_pcr_delta : Pcr → Pcr
clear_pcr_delta p = record p { pcr_delta = 0 }
