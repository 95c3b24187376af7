-- ===== src/Pcr/Delta.antt =====
-- The pacing of src/mpegts/PCR.cpp over the clock that the packets carry.
use satpi.Base.{◌+◌, ◌-◌, ◌*◌, ◌^◌, ◌≤◌, ◌<◌, ◌≡◌, arith, true, Ptr, leb, if◌then◌else◌}
use satpi.Pcr.{Pcr, pcr_word, pcr_base, clamp_delta, collect_data, is_pcr_table_data, get_pcr_delta}

pcr_base_low : (a : Ptr) → pcr_word a < 2 ^ 31 → pcr_base a ≡ 2 * pcr_word a
unfolding pcr_base
pcr_base_low a h = ground arith

pcr_base_high :
    (a : Ptr)
    → 2 ^ 31 ≤ pcr_word a
    → pcr_word a < 2 ^ 32
    → pcr_base a ≡ 2 * pcr_word a + (2 ^ 64 - 2 ^ 33)
unfolding pcr_base
pcr_base_high a h k = ground arith

-- Over two packets with clocks in the lower half of their range, the second not before the first,
-- the pace is the time between them, 11 microseconds for each tick of 90 kHz, and never more than
-- that of 75000 ticks.
pub delta_between :
    (a b : Ptr) (p : Pcr)
    → is_pcr_table_data a ≡ true
    → is_pcr_table_data b ≡ true
    → pcr_word a ≤ pcr_word b
    → pcr_word b < 2 ^ 31
    → let ticks = 2 * (pcr_word b - pcr_word a) in
      get_pcr_delta (collect_data b (collect_data a p))
      ≡ 11 * (if leb ticks 75000 then ticks else 75000)
unfolding collect_data clamp_delta get_pcr_delta
delta_between a b p ha hb le small =
    ground (arith, pcr_base_low a (omega arith), pcr_base_low b small)

-- Where the highest bit of the clock's upper word gets set between two packets, the pace is that
-- of a single tick, however much time lies between them.
pub delta_across_half :
    (a b : Ptr) (p : Pcr)
    → is_pcr_table_data a ≡ true
    → is_pcr_table_data b ≡ true
    → pcr_word a < 2 ^ 31
    → 2 ^ 31 ≤ pcr_word b
    → pcr_word b < 2 ^ 32
    → get_pcr_delta (collect_data b (collect_data a p)) ≡ 11
unfolding collect_data clamp_delta get_pcr_delta
delta_across_half a b p ha hb lo hi top = ground (arith, pcr_base_low a lo, pcr_base_high b hi top)
