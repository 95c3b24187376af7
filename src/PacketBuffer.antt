-- ===== src/PacketBuffer.antt =====
-- src/mpegts/PacketBuffer.{h,cpp}: the buffer of one RTP packet, an RTP header of 12 bytes and room
-- for 7 TS packets of 188. The array `_buffer` is a map from the offset.
pub mod Moved
pub mod Loop
pub mod Purge
pub mod Sync
pub mod Header
mod Tests
use satpi.Base.{
  ℕ, zero, suc, ◌+◌, ◌-◌, ◌*◌, ◌/◌, ◌%◌, ◌^◌, Bool, true, false, not, ◌&&◌, if◌then◌else◌, ◌==◌,
  ltb, leb, update, Option, none, some, Ptr, offset, memmove, has_bit, sub64, u64, ◌||◌, ◌>>=◌,
}

abbrev pub rtp_header_len : ℕ
rtp_header_len = 12

abbrev pub ts_packet_size : ℕ
ts_packet_size = 188

abbrev pub number_of_ts_packets : ℕ
number_of_ts_packets = 7

-- MTU_MAX_TS_PACKET_SIZE.
abbrev pub max_buffer_size : ℕ
max_buffer_size = 1316

pub record PacketBuffer : Type 0 where
  pub buffer : Ptr
  pub write_index : ℕ
  pub processed_index : ℕ
  pub initialized : Bool
  pub decrypt_pending : Bool
  pub purge_pending : ℕ

-- A new object: its array holds what the memory held.
abbrev pub new_packet_buffer : Ptr → PacketBuffer
new_packet_buffer memory = record {
  buffer = memory;
  write_index = rtp_header_len;
  processed_index = rtp_header_len;
  initialized = false;
  decrypt_pending = false;
  purge_pending = 0;
}

-- `(value >> 8 * k) & 0xff`.
abbrev pub byte_of : ℕ → ℕ → ℕ
byte_of value k = value / 2 ^ (8 * k) % 256

-- Four bytes from `at` on, the most significant first.
abbrev pub put_dword : ℕ → ℕ → Ptr → Ptr
put_dword at value p =
    update
      (update (update (update p at (byte_of value 3)) (at + 1) (byte_of value 2)) (at + 2)
        (byte_of value 1))
      (at + 3) (byte_of value 0)

abbrev pub put_word : ℕ → ℕ → Ptr → Ptr
put_word at value p = update (update p at (byte_of value 1)) (at + 1) (byte_of value 0)

-- `timestamp` is the bit pattern of the `long`.
unfoldable pub initialize : ℕ → ℕ → PacketBuffer → PacketBuffer
initialize ssrc timestamp b = record b {
  buffer =
      put_dword 8 ssrc
        (put_dword 4 timestamp (put_word 2 0 (update (update b.buffer 0 0x80) 1 33)));
  initialized = true;
}

unfoldable pub tag_rtp_header_with : ℕ → ℕ → PacketBuffer → PacketBuffer
tag_rtp_header_with cseq timestamp b = record b {
  buffer = put_dword 4 timestamp (put_word 2 cseq b.buffer);
}

unfoldable pub reset : PacketBuffer → PacketBuffer
reset b = record b {
  decrypt_pending = false;
  purge_pending = 0;
  write_index = rtp_header_len;
  processed_index = rtp_header_len;
}

unfoldable pub full : PacketBuffer → Bool
full b = max_buffer_size + rtp_header_len == b.write_index

unfoldable pub empty : PacketBuffer → Bool
empty b = rtp_header_len == b.write_index

unfoldable pub get_number_of_completed_packets : PacketBuffer → ℕ
unfolding full
get_number_of_completed_packets b =
    if full b then number_of_ts_packets else sub64 b.write_index rtp_header_len / ts_packet_size

-- It notes that all that was written is being processed.
unfoldable pub get_begin_of_unfiltered_packets : PacketBuffer → PacketBuffer × ℕ
get_begin_of_unfiltered_packets b = (
  record b { processed_index = b.write_index },
  (if b.processed_index == rtp_header_len
      then 0
      else sub64 b.processed_index rtp_header_len / ts_packet_size),
)

unfoldable pub get_current_buffer_size : PacketBuffer → ℕ
get_current_buffer_size b = sub64 b.write_index rtp_header_len

unfoldable pub get_amount_of_bytes_to_write : PacketBuffer → ℕ
get_amount_of_bytes_to_write b = sub64 (max_buffer_size + rtp_header_len) b.write_index

unfoldable pub add_amount_of_bytes_written : ℕ → PacketBuffer → PacketBuffer
add_amount_of_bytes_written n b = record b { write_index = u64 (b.write_index + n) }

unfoldable pub set_decrypt_pending : PacketBuffer → PacketBuffer
set_decrypt_pending b = record b { decrypt_pending = true }

-- Where packet `n` begins, and the packet.
abbrev pub packet_at : ℕ → ℕ
packet_at n = n * ts_packet_size + rtp_header_len

abbrev pub get_ts_packet_ptr : PacketBuffer → ℕ → Ptr
get_ts_packet_ptr b n = offset b.buffer (packet_at n)

-- The loop of `isReadyToSend` over the scramble flags.
unfoldable pub scramble_loop : PacketBuffer → ℕ → ℕ → Bool → Bool
scramble_loop b i zero ready = ready
scramble_loop b i (suc left) ready =
    scramble_loop b (suc i) left (ready && not (has_bit (get_ts_packet_ptr b i 3) 7))

unfoldable pub is_ready_to_send : PacketBuffer → Bool
unfolding full get_number_of_completed_packets scramble_loop
is_ready_to_send b =
    if b.decrypt_pending && full b
    then scramble_loop b 0 (get_number_of_completed_packets b) (full b)
    else full b

-- A sync byte at `at` and at the two packets behind.
abbrev pub sync_at : Ptr → ℕ → Bool
sync_at p at =
    p at == 0x47 && p (at + ts_packet_size) == 0x47 && p (at + 2 * ts_packet_size) == 0x47

unfoldable pub is_synced : PacketBuffer → Bool
is_synced b = sync_at b.buffer rtp_header_len

-- The search of `trySyncing` from offset `i` on, with `left` offsets to try.
unfoldable pub find_sync : Ptr → ℕ → ℕ → Option ℕ
find_sync p i zero = none
find_sync p i (suc left) =
    let rest = find_sync p (suc i) left in if sync_at p i then some i else rest

-- Found sync at `i`: move what stands from there on to the begin of the buffer.
unfoldable pub move_sync : ℕ → PacketBuffer → PacketBuffer
move_sync i b =
    let w = sub64 b.write_index (i - rtp_header_len) in
    record b {
      write_index = w;
      processed_index = w;
      buffer = memmove rtp_header_len i (max_buffer_size + rtp_header_len - i) b.buffer;
    }

-- The last offset tried leaves room for two more packets in a full buffer.
unfoldable pub try_syncing : PacketBuffer → PacketBuffer × Bool
try_syncing b =
    if ltb (get_current_buffer_size b) (ts_packet_size * 3)
    then (b, false)
    else if is_synced b
    then (b, true)
    else elim (find_sync b.buffer rtp_header_len 940) [
      | some i ↦ (move_sync i b, true)
      | none ↦ (reset b, false)
    ]

unfoldable pub mark_ts_for_purging : ℕ → PacketBuffer → PacketBuffer
mark_ts_for_purging n b =
    if leb n number_of_ts_packets
    then record b {
      buffer = update b.buffer (packet_at n + 1) 0xff;
      purge_pending = u64 (b.purge_pending + 1);
    }
    else b

abbrev pub is_marked : Ptr → ℕ → Bool
is_marked p n = p (packet_at n + 1) == 0xff

-- `memcpy` of `n` bytes inside the buffer: none where the bytes read and those written overlap, which
-- C leaves undefined.
abbrev pub memcpy : ℕ → ℕ → ℕ → Ptr → Option Ptr
memcpy to from n p =
    if leb (to + n) from || leb (from + n) to then some (memmove to from n p) else none

-- Remove `skip` bytes from packet `n` on: what stands behind them moves down.
unfoldable pub remove_packets : ℕ → ℕ → Ptr → ℕ → Option (Ptr × ℕ)
remove_packets n skip p end =
    let next = packet_at n + skip in
    do
      p' ← if ltb next end then memcpy (packet_at n) next (end - next) p else some p
      some (p', sub64 end skip)

-- The loop of `purge`, from packet `n - 1` down to packet 0, over the buffer and the write index;
-- `skip` bytes of marked packets behind packet `n - 1` are still to be removed.
unfoldable pub purge_loop : ℕ → ℕ → Ptr → ℕ → Option (Ptr × ℕ)
purge_loop zero skip p end = some (p, end)
purge_loop (suc n) skip p end =
    let collected = purge_loop n (skip + ts_packet_size) p end in
    let removed =
      remove_packets n (skip + ts_packet_size) p end >>= (λ r. purge_loop n 0 r.0 r.1) in
    let kept = purge_loop n skip p end in
    if is_marked p n then if ltb 0 n && is_marked p (n - 1) then collected else removed else kept

unfoldable pub purge : PacketBuffer → Option PacketBuffer
purge b =
    let size = get_current_buffer_size b in
    let purged = do
      r ← purge_loop (size / ts_packet_size) 0 b.buffer b.write_index
      some (record b { purge_pending = 0; buffer = r.0; write_index = r.1 })
    in if b.purge_pending == 0
      then some b
      else if size == 0
      then some (record b { purge_pending = 0 })
      else purged
