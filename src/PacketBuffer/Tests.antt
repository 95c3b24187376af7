-- ===== src/PacketBuffer/Tests.antt =====
-- Runs of the packet buffer, and instances of its theorems.
use satpi.Base.{
  ℕ, ◌%◌, ◌≤◌, ◌<◌, ◌≡◌, ◌⊎◌, ◌++◌, refl, arith, true, false, Option, none, some, ◌==◌,
  if◌then◌else◌,
}
use satpi.PacketBuffer.{
  PacketBuffer, new_packet_buffer, purge, try_syncing, reset, sync_at, get_current_buffer_size,
  purge_loop, remove_packets, is_marked, is_synced, find_sync, move_sync,
}
use satpi.PacketBuffer.Purge.{contents, contents-purge_all}
use satpi.PacketBuffer.Moved.{unmarked, bytes_between, fits}
use satpi.PacketBuffer.Sync.{Synced, try_syncing-Synced}

abbrev blank : PacketBuffer
blank = new_packet_buffer (λ _. 0)

-- Two packets and ten bytes of a third; the second packet is marked.
abbrev marked : PacketBuffer
marked = record blank {
  buffer = λ i. if i == 201 then 0xff else 0x47;
  write_index = 398;
  purge_pending = 1;
}

-- A full buffer in which the packets begin eight bytes late.
abbrev late : PacketBuffer
late = record blank { buffer = λ i. if i % 188 == 20 then 0x47 else 0; write_index = 1328 }

abbrev or_blank : Option PacketBuffer → PacketBuffer
or_blank none = blank
or_blank (some b) = b

-- The ten bytes are moved down by a packet.
purge_run : (or_blank (purge marked)).write_index ≡ 210
unfolding purge get_current_buffer_size purge_loop remove_packets
purge_run = refl

try_syncing_run : (try_syncing late).0.write_index ≡ 1320
unfolding try_syncing get_current_buffer_size is_synced find_sync move_sync
try_syncing_run = refl

-- Two packets behind one that is marked: the areas of the copy overlap.
overlap_run : purge (record marked { write_index = 588 }) ≡ none
unfolding purge get_current_buffer_size purge_loop remove_packets
overlap_run = refl

contents-purge_all_example :
    ((fits 2 0 (is_marked marked.buffer) 10 ≡ false) × (purge marked ≡ none))
    ⊎ ((b' : PacketBuffer) × (fits 2 0 (is_marked marked.buffer) 10 ≡ true)
        × (purge marked ≡ some b')
        × (contents b' ≡ unmarked 2 marked.buffer ++ bytes_between marked.buffer 388 398)
        × (12 ≤ b'.write_index)
        × (b'.write_index ≤ 398))
contents-purge_all_example =
    contents-purge_all marked (omega arith) (omega arith) (λ z. absurd (omega (arith, z)))

try_syncing-Synced_example :
    ((try_syncing late).1 ≡ true) × ((at : ℕ) × Synced late (try_syncing late).0 at)
    ⊎ ((try_syncing late).1 ≡ false)
      × ((try_syncing late).0 ≡ reset late)
      × ((k : ℕ) → 12 ≤ k → k < 952 → sync_at late.buffer k ≡ false)
try_syncing-Synced_example = try_syncing-Synced late refl
