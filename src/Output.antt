-- ===== src/Output.antt =====
-- src/output/StreamThreadBase.{h,cpp}: the ring of packet buffers between the input device and the
-- output. The device, decryption and the output are the caller's: functions on a buffer. The clocks
-- are a flag that tells whether the send interval is over.
pub mod Rtp
pub mod Fifo
pub mod Threads
pub mod Paused
mod Tests
use satpi.Base.{
  ℕ, ◌+◌, ◌-◌, ◌*◌, ◌/◌, ◌%◌, ◌^◌, Bool, true, false, ◌&&◌, ◌||◌, if◌then◌else◌, ltb, leb, List, [],
  ◌∷◌, sub64, u64, update, Ptr, ◌==◌,
}
use satpi.PacketBuffer
use satpi.PacketBuffer.{PacketBuffer, new_packet_buffer}

abbrev pub max_buf : ℕ
max_buf = 100

-- `O`: the state of the output. `_tsBuffer` is an array of `MAX_BUF` buffers.
pub record Ring (O : Type 0) : Type 0 where
  pub ts_buffer : ℕ → PacketBuffer
  pub ts_empty : PacketBuffer
  pub write_index : ℕ
  pub read_index : ℕ
  pub signal_lock : Bool
  pub output : O

-- The NULL packet, of which all but the first three bytes are 0.
abbrev pub put_null_packet : ℕ → Ptr → Ptr
put_null_packet at p i =
    if i == at
    then 0x47
    else if i == at + 1
    then 0x1f
    else if i == at + 2
    then 0xff
    else if leb at i && ltb i (at + 188)
    then 0
    else p i

-- The constructor, from what the memory of the arrays held.
unfoldable pub new_ring : {O : Type 0} → ℕ → ℕ → (ℕ → Ptr) → Ptr → O → Ring O
new_ring ssrc timestamp memory memory_empty output =
    let empty = PacketBuffer.initialize ssrc timestamp (new_packet_buffer memory_empty) in
    record {
      ts_buffer = λ i. PacketBuffer.initialize ssrc timestamp (new_packet_buffer (memory i));
      ts_empty =
          PacketBuffer.add_amount_of_bytes_written 188
            (record empty { buffer = put_null_packet empty.write_index empty.buffer });
      write_index = 0;
      read_index = 0;
      signal_lock = false;
      output = output;
    }

-- What starting and restarting do to the ring.
unfoldable pub restart : {O : Type 0} → Ring O → Ring O
restart ring = record ring {
  write_index = 0;
  read_index = 0;
  ts_buffer = update ring.ts_buffer 0 (PacketBuffer.reset (ring.ts_buffer 0));
}

-- `MAX_BUF - (_writeIndex - _readIndex)`, of unsigned numbers, brought below `MAX_BUF` if it is above.
unfoldable pub available_size : ℕ → ℕ → ℕ
available_size write_index read_index =
    let size = sub64 max_buf (sub64 write_index read_index) in
    if ltb max_buf size then size % max_buf else size

module _ {O : Type 0} where
  -- The packet that the device fills, once it is complete.
  unfoldable pub next_packet : PacketBuffer → Ring O → Ring O
  next_packet b ring =
      let next = (ring.write_index + 1) % max_buf in
      let stored = update ring.ts_buffer ring.write_index b in
      record ring {
        write_index = next;
        ts_buffer = update stored next (PacketBuffer.reset (stored next));
      }

  -- The first half of `readDataFromInputDevice`.
  unfoldable pub store_packet :
      Bool → (PacketBuffer → PacketBuffer × Bool) → (PacketBuffer → PacketBuffer) → Ring O → Ring O
  store_packet is_data_available read_ts_packets decrypt ring =
      let (b, complete) = read_ts_packets (ring.ts_buffer ring.write_index) in
      if is_data_available && leb 1 (available_size ring.write_index ring.read_index)
      then if complete
        then next_packet (decrypt b) ring
        else record ring { ts_buffer = update ring.ts_buffer ring.write_index b }
      else ring

  module _ (write : O → PacketBuffer → O × PacketBuffer × Bool) where
    -- The packet at the read index is written; the index goes on only if that is successful.
    unfoldable pub write_packet : Ring O → Ring O
    write_packet ring =
        let (o, b, done) = write ring.output (ring.ts_buffer ring.read_index) in
        record ring {
          output = o;
          ts_buffer = update ring.ts_buffer ring.read_index b;
          read_index = (if done then (ring.read_index + 1) % max_buf else ring.read_index);
        }

    unfoldable pub write_empty : Ring O → Ring O
    write_empty ring =
        let (o, b, done) = write ring.output ring.ts_empty in
        record ring { output = o; ts_empty = b }

    -- The second half.
    unfoldable pub send_packet : Bool → Ring O → Ring O
    send_packet interval_exceeded ring =
        if PacketBuffer.is_ready_to_send (ring.ts_buffer ring.read_index)
        then write_packet ring
        else if interval_exceeded && ring.signal_lock
        then write_empty ring
        else ring

    -- `read_ts_packets` is told whether the interval is over.
    unfoldable pub read_data_from_input_device :
        Bool
        → Bool
        → (Bool → PacketBuffer → PacketBuffer × Bool)
        → (PacketBuffer → PacketBuffer)
        → Ring O
        → Ring O
    read_data_from_input_device interval_exceeded is_data_available read_ts_packets decrypt ring =
        send_packet interval_exceeded
          (store_packet is_data_available (read_ts_packets interval_exceeded) decrypt ring)
