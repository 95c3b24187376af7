-- ===== src/Rtcp/Walk.antt =====
-- The RTCP report of src/output/StreamThreadRtcpBase.cpp as a receiver reads it, by the length
-- fields of its packets.
use satpi.Base.{
  ℕ, zero, suc, ◌+◌, ◌-◌, ◌*◌, ◌/◌, ◌%◌, ◌^◌, ◌≤◌, ◌<◌, ◌≡◌, refl, ap, ◌∙◌, arith, if◌then◌else◌,
  ltb, Option, none, some, List, [], ◌∷◌, ◌++◌, length, get_or, take, drop, le→ltb, length-append,
  length-slice, slice, Ptr,
}
use satpi.PacketBuffer.{byte_of}
use satpi.Rtcp.{get_sr, get_sdes, get_app, app_length}

-- The number in network byte order at an offset.
abbrev pub word_at : List ℕ → ℕ → ℕ
word_at bytes i = get_or bytes i 0 * 256 + get_or bytes (i + 1) 0

-- The length of the packet that begins `bytes`: its field counts 32-bit words, less one.
abbrev pub packet_length : List ℕ → ℕ
packet_length bytes = 4 * (word_at bytes 2 + 1)

-- The packets of a compound packet; `none`: one reaches behind the end.
unfoldable pub walk : ℕ → List ℕ → Option (List (List ℕ))
walk zero bytes = none
walk (suc fuel) [] = some []
walk (suc fuel) (b ∷ bytes) =
    let n = packet_length (b ∷ bytes) in
    let rest = walk fuel (drop n (b ∷ bytes)) in
    if ltb (length (b ∷ bytes)) n
    then none
    else elim rest [ none ↦ none | some ps ↦ some (take n (b ∷ bytes) ∷ ps) ]

take-append : (xs ys : List ℕ) → take (length xs) (xs ++ ys) ≡ xs
take-append [] ys = refl
take-append (x ∷ xs) ys = ap (◌∷◌ x) (take-append xs ys)

drop-append : (xs ys : List ℕ) → drop (length xs) (xs ++ ys) ≡ ys
drop-append [] ys = refl
drop-append (x ∷ xs) ys = drop-append xs ys

-- A packet whose field tells its length is taken off.
walk_step :
    (fuel x : ℕ) (p rest : List ℕ) (ps : List (List ℕ))
    → packet_length ((x ∷ p) ++ rest) ≡ length (x ∷ p)
    → walk fuel rest ≡ some ps
    → walk (suc fuel) ((x ∷ p) ++ rest) ≡ some ((x ∷ p) ∷ ps)
unfolding walk
walk_step fuel x p rest ps size e = rw (
  size,
  le→ltb (length (x ∷ (p ++ rest))) (length (x ∷ p)) (omega (arith, length-append p rest)),
  drop-append p rest,
  e,
  walk,
  size,
  take-append p rest,
)

walk_nil : walk 1 [] ≡ some []
unfolding walk
walk_nil = refl

word_of : (v : ℕ) → v < 2 ^ 16 → byte_of v 1 * 256 + byte_of v 0 ≡ v
word_of v small = omega arith

app_length_aligned :
    (size : ℕ)
    → (app_length size % 4 ≡ 0) × (16 + size ≤ app_length size) × (app_length size < size + 20)
app_length_aligned size = ground arith

length-get_app :
    (memory : Ptr) (ssrc : ℕ) (desc : List ℕ)
    → length (get_app memory ssrc desc) ≡ app_length (length desc)
unfolding get_app
length-get_app memory ssrc desc =
    let pad : ℕ = app_length (length desc) - (16 + length desc) in
    omega (
      arith,
      length-append desc (slice memory (16 + length desc) pad),
      length-slice memory (16 + length desc) pad,
      (app_length_aligned (length desc)).1,
    )

packet_length-get_app :
    (memory : Ptr) (ssrc : ℕ) (desc rest : List ℕ)
    → length desc < 2 ^ 16
    → packet_length (get_app memory ssrc desc ++ rest) ≡ length (get_app memory ssrc desc)
unfolding get_app
packet_length-get_app memory ssrc desc rest small =
    let len : ℕ = app_length (length desc) in
    let (aligned, least, most) = app_length_aligned (length desc) in
    ap (λ (w : ℕ). 4 * (w + 1)) (word_of (len / 4 - 1) (omega arith))
    ∙ omega (arith, aligned, least, length-get_app memory ssrc desc)

-- The text of the APP packet, read by its length field, is the description, of fewer than 2^16
-- bytes; the packet has a whole number of 32-bit words, and fewer than 4 bytes of padding.
pub get_app-desc :
    (memory : Ptr) (ssrc : ℕ) (desc : List ℕ)
    → length desc < 2 ^ 16
    → let app = get_app memory ssrc desc in
      (take (word_at app 14) (drop 16 app) ≡ desc)
      × (length app % 4 ≡ 0)
      × (length app < length desc + 20)
unfolding get_app
get_app-desc memory ssrc desc small =
    let pad : ℕ = app_length (length desc) - (16 + length desc) in
    let (aligned, least, most) = app_length_aligned (length desc) in
    (
      rw (word_of (length desc) small) (take-append desc (slice memory (16 + length desc) pad)),
      rw (length-get_app memory ssrc desc) aligned,
      rw (length-get_app memory ssrc desc) most,
    )

-- A receiver that goes by the length fields reads the compound packet as the sender report, the
-- source description and the APP packet, for a description of fewer than 2^16 bytes.
pub walk-report :
    (memory : Ptr) (timestamp ssrc spc soc ntp : ℕ) (desc : List ℕ)
    → length desc < 2 ^ 16
    → let sr = get_sr timestamp ssrc spc soc ntp in
      let sdes = get_sdes ssrc in
      let app = get_app memory ssrc desc in
      walk 4 (sr ++ (sdes ++ (app ++ []))) ≡ some (sr ∷ sdes ∷ app ∷ [])
unfolding get_sr get_sdes get_app
walk-report memory timestamp ssrc spc soc ntp desc small =
    let sr : List ℕ = get_sr timestamp ssrc spc soc ntp in
    let sdes : List ℕ = get_sdes ssrc in
    let app : List ℕ = get_app memory ssrc desc in
    walk_step 3 0x80 (drop 1 sr) (sdes ++ (app ++ [])) (sdes ∷ app ∷ []) refl (
      walk_step 2 0x81 (drop 1 sdes) (app ++ []) (app ∷ []) refl (
        walk_step 1 0x80 (drop 1 app) [] [] (packet_length-get_app memory ssrc desc [] small)
          walk_nil))
