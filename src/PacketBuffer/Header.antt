-- ===== src/PacketBuffer/Header.antt =====
-- The RTP header of src/mpegts/PacketBuffer.cpp against the fields that a receiver reads from it.
use satpi.Base.{ℕ, ◌+◌, ◌*◌, ◌/◌, ◌%◌, ◌^◌, ◌≤◌, ◌<◌, ◌≡◌, arith, Ptr}
use satpi.PacketBuffer.{PacketBuffer, initialize, tag_rtp_header_with}

-- Network byte order.
abbrev pub read_word : Ptr → ℕ → ℕ
read_word p at = p at * 256 + p (at + 1)

abbrev pub read_dword : Ptr → ℕ → ℕ
read_dword p at = p at * 2 ^ 24 + p (at + 1) * 2 ^ 16 + p (at + 2) * 2 ^ 8 + p (at + 3)

pub record Header (p : Ptr) (seq timestamp ssrc : ℕ) : Type 0 where
  pub version : p 0 / 2 ^ 6 ≡ 2
  pub no_padding_extension_csrc : p 0 % 2 ^ 6 ≡ 0
  pub payload_type : p 1 % 2 ^ 7 ≡ 33
  pub no_marker : p 1 / 2 ^ 7 ≡ 0
  pub sequence_number : read_word p 2 ≡ seq
  pub time : read_dword p 4 ≡ timestamp
  pub source : read_dword p 8 ≡ ssrc

-- A buffer that is initialised and then tagged has a header of RTP version 2 for MPEG transport
-- streams, with the sequence number, the low 32 bits of the time, and the source that were given,
-- the first of 16 bits and the last of 32.
pub tag-initialize :
    (ssrc t0 seq t1 : ℕ) (b : PacketBuffer)
    → ssrc < 2 ^ 32
    → seq < 2 ^ 16
    → let b' = tag_rtp_header_with seq t1 (initialize ssrc t0 b) in
      Header b'.buffer seq (t1 % 2 ^ 32) ssrc
unfolding initialize tag_rtp_header_with
tag-initialize ssrc t0 seq t1 b hs hq = ground arith

-- Tagging a buffer whose header is one of RTP version 2 for MPEG transport streams sets the
-- sequence number and the low 32 bits of the time, keeps the rest of the header, and leaves what
-- stands behind it as it is. The sequence number has 16 bits.
pub tag-Header :
    (ssrc t0 t1 seq seq' : ℕ) (b : PacketBuffer)
    → Header b.buffer seq t0 ssrc
    → seq' < 2 ^ 16
    → let b' = tag_rtp_header_with seq' t1 b in
      Header b'.buffer seq' (t1 % 2 ^ 32) ssrc × ((i : ℕ) → 12 ≤ i → b'.buffer i ≡ b.buffer i)
unfolding tag_rtp_header_with
tag-Header ssrc t0 t1 seq seq' b h hq = (ground arith, λ i hi. ground arith)
