-- ===== src/Output/Fifo.antt =====
-- The ring of src/output/StreamThreadBase.cpp as a queue of the packets that are complete and not
-- sent yet.
use satpi.Base.{
  ℕ, zero, suc, ◌+◌, ◌-◌, ◌%◌, ◌<◌, ◌≡◌, inl, inr, refl, ap, ap₂, ◌∙◌, arith, Bool, true, false,
  ◌&&◌, if◌then◌else◌, ltb, leb, ◌==◌, List, [], ◌∷◌, ◌++◌, update, ne→==, ==_refl, Bool-cases,
  ltb→lt,
}
use native.Mathlib.Nat.{suc-add, add-suc, add-zero}
use satpi.PacketBuffer
use satpi.PacketBuffer.{PacketBuffer}
use satpi.Output.{
  Ring, max_buf, available_size, next_packet, store_packet, write_packet, send_packet,
}

-- `n` buffers of the ring from index `i` on.
abbrev pub slots : (ℕ → PacketBuffer) → ℕ → ℕ → List PacketBuffer
slots f i zero = []
slots f i (suc n) = f (i % max_buf) ∷ slots f (suc i) n

-- How many packets wait, and the packets, the oldest first.
abbrev pub waiting : {O : Type 0} → Ring O → ℕ
waiting ring = (ring.write_index + max_buf - ring.read_index) % max_buf

abbrev pub queue : {O : Type 0} → Ring O → List PacketBuffer
queue ring = slots ring.ts_buffer ring.read_index (waiting ring)

-- Both indices are those of buffers.
pub record InRing {O : Type 0} (ring : Ring O) : Type 0 where
  pub write_small : ring.write_index < max_buf
  pub read_small : ring.read_index < max_buf

-- Two stretches with the same buffers.
slots_ext :
    (f g : ℕ → PacketBuffer) (i j n : ℕ)
    → ((k : ℕ) → k < n → f ((i + k) % max_buf) ≡ g ((j + k) % max_buf))
    → slots f i n ≡ slots g j n
slots_ext f g i j zero same = refl
slots_ext f g i j (suc n) same = ap₂ ◌∷◌ (rw (add-zero i, add-zero j) at (same 0 (omega arith))) (
    slots_ext f g (suc i) (suc j) n (λ k h.
      rw (suc-add i k, suc-add j k, ← add-suc i k, ← add-suc j k) (same (suc k) (omega arith))))

slots_last :
    (f : ℕ → PacketBuffer) (i n : ℕ)
    → slots f i (suc n) ≡ slots f i n ++ (f ((i + n) % max_buf) ∷ [])
slots_last f i zero = rw (add-zero i)
slots_last f i (suc n) =
    ap (◌∷◌ (f (i % max_buf))) (slots_last f (suc i) n ∙ rw (add-suc i n, suc-add i n))

-- There is always room, by the count of the code.
available_size_least : (w r : ℕ) → w < max_buf → r < max_buf → leb 1 (available_size w r) ≡ true
unfolding available_size
available_size_least w r hw hr = ground arith

mod_small : (n : ℕ) → n % max_buf < max_buf
mod_small n = omega arith

-- A stretch that begins with a buffer.
slots_split :
    (f : ℕ → PacketBuffer) (i n : ℕ) (p : PacketBuffer) (ps : List PacketBuffer)
    → slots f i n ≡ p ∷ ps
    → (m : ℕ) × (n ≡ suc m) × (f (i % max_buf) ≡ p) × (slots f (suc i) m ≡ ps)
slots_split f i zero p ps e = absurd (cc)
slots_split f i (suc n) p ps e = (n, refl, cc, cc)

module _ {O : Type 0} (ring : Ring O) (v : InRing ring) where
  abbrev w : ℕ
  w = ring.write_index

  abbrev r : ℕ
  r = ring.read_index

  -- A packet that waits stands at neither of the two indices that the next packet touches.
  waits_apart :
      (k : ℕ)
      → k < waiting ring
      → waiting ring < 99
      → (((r + k) % max_buf == w) ≡ false) × (((r + k) % max_buf == (w + 1) % max_buf) ≡ false)
  waits_apart k h room = (
    ne→== ((r + k) % max_buf) w (omega (arith, v.write_small, v.read_small)),
    ne→== ((r + k) % max_buf) ((w + 1) % max_buf) (omega (arith, v.write_small, v.read_small)),
  )

  next_packet-queue :
      (b : PacketBuffer) → waiting ring < 99 → queue (next_packet b ring) ≡ queue ring ++ (b ∷ [])
  unfolding next_packet
  next_packet-queue b room = rw count (
      slots_last f' r n
      ∙ ap₂ ◌++◌
          (slots_ext f' ring.ts_buffer r r n
            (λ k h. let (not_w, not_next) = waits_apart k h room in rw (not_next, not_w) refl))
          (ap (λ x. x ∷ []) here))
    where
      n : ℕ
      n = waiting ring

      f' : ℕ → PacketBuffer
      f' = (next_packet b ring).ts_buffer

      count : ((w + 1) % max_buf + max_buf - r) % max_buf ≡ suc n
      count = omega (arith, v.write_small, v.read_small, room)

      at_w : (r + n) % max_buf ≡ w
      at_w = omega (arith, v.write_small, v.read_small)

      here : f' ((r + n) % max_buf) ≡ b
      here = rw (at_w, ne→== w ((w + 1) % max_buf) (omega (arith, v.write_small)), ==_refl w) refl

  next_packet_over : (b : PacketBuffer) → waiting ring ≡ 99 → queue (next_packet b ring) ≡ []
  unfolding next_packet
  next_packet_over b full =
      let count : ((w + 1) % max_buf + max_buf - r) % max_buf ≡ 0 =
        omega (arith, v.write_small, v.read_small, full) in
      rw count refl

  -- A buffer that is not among those that wait is exchanged.
  fill-queue : (b : PacketBuffer) → slots (update ring.ts_buffer w b) r (waiting ring) ≡ queue ring
  fill-queue b =
      slots_ext (update ring.ts_buffer w b) ring.ts_buffer r r (waiting ring)
        (λ k h. rw (ne→== ((r + k) % max_buf) w (omega (arith, v.write_small, v.read_small))) refl)

  -- What the first half of a round does to the packets that wait, both indices being in the ring:
  -- a packet that the device completes goes to their end, and without one nothing changes; but
  -- where 99 packets wait already, the next one that is complete leaves none of them, nor itself.
  pub store_packet-queue :
      (is_data_available : Bool) (read_ts_packets : PacketBuffer → PacketBuffer × Bool)
      (decrypt : PacketBuffer → PacketBuffer)
      → let (b, complete) = read_ts_packets (ring.ts_buffer ring.write_index) in
        queue (store_packet is_data_available read_ts_packets decrypt ring) ≡ (
          if is_data_available && complete
          then (if ltb (waiting ring) 99 then queue ring ++ (decrypt b ∷ []) else [])
          else queue ring)
  unfolding store_packet
  store_packet-queue false read_ts_packets decrypt = refl
  store_packet-queue true read_ts_packets decrypt =
      rw (available_size_least w r v.write_small v.read_small)
        (elim (Bool-cases (read_ts_packets (ring.ts_buffer w)).1) [
          | inl e ↦ rw e (elim (Bool-cases (ltb (waiting ring) 99)) [
            | inl room ↦ rw room (next_packet-queue next (ltb→lt (waiting ring) 99 room))
            | inr full ↦ rw full (next_packet_over next (all_but_one full))
          ])
          | inr e ↦ rw e (fill-queue (read_ts_packets (ring.ts_buffer w)).0)
        ])
    where
      next : PacketBuffer
      next = decrypt (read_ts_packets (ring.ts_buffer w)).0

      all_but_one : ltb (waiting ring) 99 ≡ false → waiting ring ≡ 99
      all_but_one full = ground (arith, mod_small (w + max_buf - r))

  module _ (write : O → PacketBuffer → O × PacketBuffer × Bool) where
    -- What stands behind the oldest packet is not touched.
    behind :
        (b : PacketBuffer) (i m : ℕ)
        → waiting ring ≡ suc m
        → i % max_buf ≡ (r + 1) % max_buf
        → slots (update ring.ts_buffer r b) i m ≡ slots ring.ts_buffer (suc r) m
    behind b i m some_waiting same =
        slots_ext (update ring.ts_buffer r b) ring.ts_buffer i (suc r) m (λ k h.
          let at : (i + k) % max_buf ≡ (suc r + k) % max_buf = omega (arith, same) in
          rw
            (
              at,
              ne→== ((suc r + k) % max_buf) r
                  (omega (arith, v.write_small, v.read_small, some_waiting)),
            )
            refl)

    write_packet-queue :
        (m : ℕ)
        → waiting ring ≡ suc m
        → let (o, b, done) = write ring.output (ring.ts_buffer r) in
          queue (write_packet write ring)
          ≡ (if done then slots ring.ts_buffer (suc r) m else b ∷ slots ring.ts_buffer (suc r) m)
    unfolding write_packet
    write_packet-queue m some_waiting = elim (Bool-cases (write ring.output (ring.ts_buffer r)).2) [
      | inl e ↦ rw e (rw left (behind b ((r + 1) % max_buf) m some_waiting (omega arith)))
      | inr e ↦ rw e (
          rw (some_waiting, at_r, ==_refl r)
            (ap (◌∷◌ b) (behind b (suc r) m some_waiting (omega arith))))
    ]
      where
        b : PacketBuffer
        b = (write ring.output (ring.ts_buffer r)).1

        left : (w + max_buf - (r + 1) % max_buf) % max_buf ≡ m
        left = omega (arith, v.write_small, v.read_small, some_waiting)

        at_r : r % max_buf ≡ r
        at_r = omega (arith, v.read_small)

    -- What the second half of a round does to the packets that wait, both indices being in the
    -- ring, if the oldest of them is ready to be sent: it is given to the output, and leaves the
    -- queue if the output has taken it; otherwise it stays the oldest, as the output has left it.
    pub send_packet-queue :
        (interval_exceeded : Bool) (p : PacketBuffer) (ps : List PacketBuffer)
        → queue ring ≡ p ∷ ps
        → PacketBuffer.is_ready_to_send p ≡ true
        → let (o, b, done) = write ring.output p in
          let ring' = send_packet write interval_exceeded ring in
          (queue ring' ≡ (if done then ps else b ∷ ps)) × (ring'.output ≡ o)
    unfolding send_packet write_packet
    send_packet-queue interval_exceeded p ps oldest ready =
        let (m, some_waiting, first, others) =
          slots_split ring.ts_buffer r (waiting ring) p ps oldest in
        let at_r : ring.ts_buffer r ≡ p = ap ring.ts_buffer (omega (arith, v.read_small)) ∙ first in
        rw (at_r, ready) (rw at_r at (rw others at (write_packet-queue m some_waiting)), refl)
