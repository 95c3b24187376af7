-- ===== src/Rtcp.antt =====
-- src/output/StreamThreadRtcpBase.cpp: the three packets of an RTCP report, as lists of bytes. The
-- time, the counters and the description of the stream are the caller's; sending is I/O.
pub mod Walk
mod Tests
use satpi.Base.{
  ℕ, ◌+◌, ◌-◌, ◌*◌, ◌/◌, ◌%◌, ◌^◌, Bool, true, false, not, if◌then◌else◌, ◌==◌, List, [], ◌∷◌, ◌++◌,
  length, slice, Ptr,
}
use satpi.PacketBuffer.{byte_of}

-- The four bytes of a number, and the two, the most significant first.
abbrev pub dword_bytes : ℕ → List ℕ
dword_bytes v = byte_of v 3 ∷ byte_of v 2 ∷ byte_of v 1 ∷ byte_of v 0 ∷ []

abbrev pub word_bytes : ℕ → List ℕ
word_bytes v = byte_of v 1 ∷ byte_of v 0 ∷ []

-- `getSR`: `ntp` and `timestamp` are the bit patterns of a `time_t` and a `long`.
unfoldable pub get_sr : ℕ → ℕ → ℕ → ℕ → ℕ → List ℕ
get_sr timestamp ssrc spc soc ntp =
    0x80 ∷ 200 ∷ []
    ++ word_bytes (28 / 4 - 1)
    ++ dword_bytes ssrc
    ++ dword_bytes ntp
    ++ dword_bytes 0
    ++ dword_bytes timestamp
    ++ dword_bytes spc
    ++ dword_bytes soc

-- `getSDES`, with the name "SatPI".
unfoldable pub get_sdes : ℕ → List ℕ
get_sdes ssrc =
    0x81 ∷ 202 ∷ []
    ++ word_bytes (20 / 4 - 1)
    ++ dword_bytes ssrc
    ++ (1 ∷ 6 ∷ 83 ∷ 97 ∷ 116 ∷ 80 ∷ 73 ∷ 0 ∷ 0 ∷ 0 ∷ 0 ∷ 0 ∷ [])

-- The length of the APP packet: a multiple of 4.
abbrev pub app_length : ℕ → ℕ
app_length size = let len = 16 + size in if not (len % 4 == 0) then len + (4 - len % 4) else len

-- `getAPP`: the bytes behind the description are those that the new array `memory` held.
unfoldable pub get_app : Ptr → ℕ → List ℕ → List ℕ
get_app memory ssrc desc =
    let size = length desc in
    let len = app_length size in
    0x80 ∷ 204 ∷ []
    ++ word_bytes (len / 4 - 1)
    ++ dword_bytes ssrc
    ++ (83 ∷ 69 ∷ 83 ∷ 49 ∷ 0 ∷ 0 ∷ [])
    ++ word_bytes size
    ++ desc
    ++ slice memory (16 + size) (len - (16 + size))
