-- ===== src/Output/Rtp.antt =====
-- The output over RTP: `writeDataToOutputDevice` of src/output/StreamThreadRtp.cpp and the counters
-- of src/Stream.cpp that it adds to. Sending over the socket is I/O: what is sent is kept in a list,
-- and an error, which only marks the client for its end, is left out.
use satpi.Base.{
  ℕ, ◌+◌, ◌-◌, ◌*◌, ◌^◌, ◌<◌, ◌≡◌, arith, Bool, true, List, [], ◌∷◌, length, u16, u32, All,
}
use mathlib.Core.Path.{subst, sym}
use satpi.PacketBuffer
use satpi.PacketBuffer.{PacketBuffer}
use satpi.PacketBuffer.Header.{Header, tag-Header}

-- `_cseq` of the thread; `_spc`, `_soc`, `_rtp_payload` and `_timestamp` of the stream. The payload is
-- a double: it is exact below 2^53. `sent` lists the buffers sent, the last one first.
pub record RtpOutput : Type 0 where
  pub cseq : ℕ
  pub spc : ℕ
  pub soc : ℕ
  pub rtp_payload : ℕ
  pub timestamp : ℕ
  pub sent : List PacketBuffer

unfoldable pub add_rtp_data : ℕ → ℕ → RtpOutput → RtpOutput
add_rtp_data byte timestamp o = record o {
  spc = u32 (o.spc + 1);
  soc = u32 (o.soc + u32 byte);
  rtp_payload = o.rtp_payload + u32 byte;
  timestamp = timestamp;
}

-- `ticks`: the milliseconds of the clock.
unfoldable pub write_data_to_output_device :
    ℕ → RtpOutput → PacketBuffer → RtpOutput × PacketBuffer × Bool
write_data_to_output_device ticks o b =
    let timestamp = ticks * 90 in
    let cseq = u16 (o.cseq + 1) in
    let b' = PacketBuffer.tag_rtp_header_with cseq timestamp b in
    let o' =
      add_rtp_data (PacketBuffer.get_current_buffer_size b') timestamp (record o { cseq = cseq }) in
    (record o' { sent = b' ∷ o.sent }, b', true)

-- Buffers sent one after the other, each at its time.
abbrev pub write_all : List (ℕ × PacketBuffer) → RtpOutput → RtpOutput
write_all [] o = o
write_all ((ticks, b) ∷ bs) o = write_all bs (write_data_to_output_device ticks o b).0

-- The buffers, the last first, have sequence numbers that end before `next` and go down by one, and
-- headers of this source.
abbrev pub Numbered : ℕ → ℕ → List PacketBuffer → Type 0
Numbered ssrc cseq [] = Unit
Numbered ssrc cseq (b ∷ bs) =
    ((t : ℕ) × Header b.buffer cseq t ssrc) × Numbered ssrc (u16 (cseq + (2 ^ 16 - 1))) bs

abbrev pub HasSource : ℕ → ℕ × PacketBuffer → Type 0
HasSource ssrc (ticks, b) = (seq : ℕ) × (t : ℕ) × Header b.buffer seq t ssrc

-- Over any number of packets whose headers name the source, what is sent has consecutive sequence
-- numbers, modulo 2^16, and the header of the source, if that holds of what was sent before; and
-- the packet counter has counted them, modulo 2^32.
pub write_all-Numbered :
    (ssrc : ℕ) (bs : List (ℕ × PacketBuffer)) (o : RtpOutput)
    → o.cseq < 2 ^ 16
    → o.spc < 2 ^ 32
    → All (HasSource ssrc) bs
    → Numbered ssrc o.cseq o.sent
    → let o' = write_all bs o in
      Numbered ssrc o'.cseq o'.sent
      × (o'.cseq ≡ u16 (o.cseq + length bs))
      × (o'.spc ≡ u32 (o.spc + length bs))
unfolding write_data_to_output_device add_rtp_data
write_all-Numbered ssrc [] o seq_small spc_small all num =
    (num, omega (arith, seq_small), omega (arith, spc_small))
write_all-Numbered ssrc ((ticks, b) ∷ bs) o seq_small spc_small ((seq, t, h), all) num =
    let o1 : RtpOutput = (write_data_to_output_device ticks o b).0 in
    let tagged = (tag-Header ssrc t (ticks * 90) seq (u16 (o.cseq + 1)) b h (omega arith)).0 in
    let before : u16 (u16 (o.cseq + 1) + (2 ^ 16 - 1)) ≡ o.cseq = omega (arith, seq_small) in
    let (num', seq', spc') =
      write_all-Numbered ssrc bs o1 (omega arith) (omega arith) all
        ((_, tagged), subst (λ c. Numbered ssrc c o.sent) (sym before) num) in
    (num', omega (arith, seq'), omega (arith, spc'))
