-- ===== src/Output/Tests.antt =====
-- Runs of the ring, of the RTP output and of the threads, and instances of their theorems.
use satpi.Base.{◌≡◌, refl, arith, Bool, true, false, [], ◌∷◌}
use satpi.PacketBuffer
use satpi.PacketBuffer.{PacketBuffer, new_packet_buffer, initialize}
use satpi.PacketBuffer.Header.{Header}
use satpi.Output.{Ring, store_packet, send_packet}
use satpi.Output.Threads.{
  Threads, Run, started, running, pause, paused, at_loop, read_pause, reading, outside, waiting,
  returned, here, reads, controls, begin_read, end_read, see_pause, write_paused, pause_streaming,
  see_paused, time_out, restart_streaming, stay,
}
use satpi.Output.Paused.{pause-IsIdle}
use satpi.Output.Fifo.{queue, store_packet-queue, send_packet-queue}
use satpi.Output.Rtp.{
  RtpOutput, write_data_to_output_device, write_all, Numbered, write_all-Numbered,
}

abbrev filled : PacketBuffer
filled = record (new_packet_buffer (λ _. 0x47)) { write_index = 1328 }

abbrev output : RtpOutput
output = record { cseq = 65535; spc = 3; soc = 3948; rtp_payload = 3948; timestamp = 0; sent = [] }

-- Two packets wait, across the end of the ring.
abbrev ring : Ring RtpOutput
ring = record {
  ts_buffer = λ i. filled;
  ts_empty = filled;
  write_index = 1;
  read_index = 99;
  signal_lock = false;
  output = output;
}

-- As many packets wait as there can.
abbrev full_ring : Ring RtpOutput
full_ring = record ring { write_index = 98 }

-- A device that completes a packet at once.
abbrev read_ts_packets : PacketBuffer → PacketBuffer × Bool
read_ts_packets b = (record b { write_index = 1328 }, true)

full_ring_lost : queue (store_packet true read_ts_packets (λ b. b) full_ring) ≡ []
full_ring_lost =
    store_packet-queue full_ring (record { write_small = omega arith; read_small = omega arith })
      true read_ts_packets (λ b. b)

store_packet-queue_example :
    queue (store_packet true read_ts_packets (λ b. b) ring) ≡ filled ∷ filled ∷ filled ∷ []
store_packet-queue_example =
    store_packet-queue ring (record { write_small = omega arith; read_small = omega arith }) true
      read_ts_packets (λ b. b)

send_packet-queue_example :
    let (o, b, done) = write_data_to_output_device 1000 output filled in
    let ring' = send_packet (write_data_to_output_device 1000) false ring in
    (queue ring' ≡ filled ∷ []) × (ring'.output ≡ o)
unfolding write_data_to_output_device PacketBuffer.is_ready_to_send PacketBuffer.full
send_packet-queue_example =
    send_packet-queue ring (record { write_small = omega arith; read_small = omega arith })
      (write_data_to_output_device 1000) false filled (filled ∷ []) refl refl

header : Header (initialize 7 0 filled).buffer 0 0 7
unfolding initialize
header = record {
  version = refl;
  no_padding_extension_csrc = refl;
  payload_type = refl;
  no_marker = refl;
  sequence_number = refl;
  time = refl;
  source = refl;
}

write_all-Numbered_example :
    let o' =
      write_all ((1000, initialize 7 0 filled) ∷ (1100, initialize 7 0 filled) ∷ []) output in
    Numbered 7 o'.cseq o'.sent × (o'.cseq ≡ 1) × (o'.spc ≡ 5)
write_all-Numbered_example =
    write_all-Numbered 7 ((1000, initialize 7 0 filled) ∷ (1100, initialize 7 0 filled) ∷ []) output
      (omega arith) (omega arith) ((0, 0, header), ((0, 0, header), _)) _

-- The reading thread reads once, sees the pause, and tells so.
abbrev paused_threads : Threads
paused_threads = record { state = paused; reader = at_loop; control = returned true }

paused-Run : Run started paused_threads
paused-Run =
    controls
      (reads
        (reads
          (reads
            (controls (reads here (begin_read outside))
              (pause_streaming running reading outside refl))
            (end_read pause waiting))
          (see_pause waiting))
        (write_paused pause waiting))
      (see_paused at_loop)

pause-IsIdle_example : (paused_threads.state ≡ paused) × (paused_threads.reader ≡ at_loop)
pause-IsIdle_example = pause-IsIdle paused_threads paused_threads paused-Run refl stay

-- A wait that ran out of time between the two steps of the reading thread loses the restart behind it.
lost_restart : Run started record { state = paused; reader = at_loop; control = outside }
lost_restart =
    reads
      (controls
        (controls
          (reads (controls here (pause_streaming running at_loop outside refl)) (see_pause waiting))
          (time_out pause read_pause))
        (restart_streaming pause read_pause (returned false) refl))
      (write_paused running outside)
