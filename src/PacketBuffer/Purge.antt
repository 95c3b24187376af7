-- ===== src/PacketBuffer/Purge.antt =====
-- `purge` of src/mpegts/PacketBuffer.cpp against the plain filter that it stands for.
use satpi.Base.{
  ℕ, zero, suc, ◌+◌, ◌-◌, ◌/◌, ◌≤◌, ◌<◌, ◌≡◌, refl, ap, ◌∙◌, true, false, List, ◌++◌, ◌==◌, sym,
  arith, slice, ◌≢◌, ne→==, Option, none, some, Ptr, inl, inr, ◌⊎◌,
}
use native.Mathlib.Nat.{add-zero}
use mathlib.Core.Path.{subst}
use native.Mathlib.Decide.{ℕ_discrete}
use mathlib.Core.List.{append_assoc}
use satpi.PacketBuffer.{PacketBuffer, packet_at, is_marked, purge, get_current_buffer_size}
use satpi.PacketBuffer.Moved.{unmarked, bytes_between, fits, fits_clean}
use satpi.PacketBuffer.Loop.{Pending-zero, bytes_split, purge_loop-Comes}

-- The bytes that a buffer holds behind its header.
pub contents : PacketBuffer → List ℕ
contents b = slice b.buffer 12 (b.write_index - 12)

pub buffer_size :
    (b : PacketBuffer)
    → 12 ≤ b.write_index
    → b.write_index ≤ 1328
    → get_current_buffer_size b ≡ b.write_index - 12
unfolding get_current_buffer_size
buffer_size b lo hi = omega arith

-- A buffer without marked packets is made up of all of them.
none_marked :
    (n : ℕ) (p : Ptr) (end : ℕ)
    → packet_at n ≤ end
    → ((j : ℕ) → j < n → is_marked p j ≡ false)
    → bytes_between p 12 end ≡ unmarked n p ++ bytes_between p (packet_at n) end
none_marked zero p end room clean = refl
none_marked (suc n) p end room clean =
    none_marked n p end (omega arith) (λ j h. clean j (omega arith))
    ∙ rw (clean n (omega arith)) (
        ap (◌++◌ (unmarked n p)) (
          bytes_split p (packet_at n) 188 end (omega arith)
          ∙ ap (λ (at : ℕ). slice p (packet_at n) 188 ++ bytes_between p at end) (omega arith))
        ∙ sym (append_assoc (unmarked n p) (slice p (packet_at n) 188) _))

abbrev Purged : PacketBuffer → Option PacketBuffer → Type 0
Purged b r =
    let n = (b.write_index - 12) / 188 in
    ((fits n 0 (is_marked b.buffer) (b.write_index - packet_at n) ≡ false) × (r ≡ none))
    ⊎ ((b' : PacketBuffer) × (fits n 0 (is_marked b.buffer) (b.write_index - packet_at n) ≡ true)
        × (r ≡ some b')
        × (contents b' ≡ unmarked n b.buffer ++ bytes_between b.buffer (packet_at n) b.write_index)
        × (12 ≤ b'.write_index)
        × (b'.write_index ≤ b.write_index))

-- A buffer in which no packet is marked is left with its contents.
purge_nothing :
    (b b' : PacketBuffer)
    → 12 ≤ b.write_index
    → ((j : ℕ) → j < (b.write_index - 12) / 188 → is_marked b.buffer j ≡ false)
    → b'.buffer ≡ b.buffer
    → b'.write_index ≡ b.write_index
    → Purged b (some b')
unfolding contents
purge_nothing b b' lo clean same_bytes same_end =
    let n = (b.write_index - 12) / 188 in
    inr (
      b',
      fits_clean n 0 (b.write_index - packet_at n) (is_marked b.buffer) clean,
      refl,
      rw (same_bytes, same_end) (none_marked n b.buffer b.write_index (omega arith) clean),
      omega (arith, same_end),
      omega (arith, same_end),
    )

-- With packets to be purged, the loop runs.
purge_pending_lem :
    (b : PacketBuffer)
    → 12 ≤ b.write_index
    → b.write_index ≤ 1328
    → b.purge_pending ≢ 0
    → b.write_index ≢ 12
    → Purged b (purge b)
unfolding purge contents
purge_pending_lem b lo hi pending more =
    let n = (b.write_index - 12) / 188 in
    let some_left : (b.write_index - 12 == 0) ≡ false = ground arith in
    let at_end : packet_at n + 0 ≡ packet_at n = add-zero (packet_at n) in
    elim (purge_loop-Comes n 0 b.buffer b.write_index (omega arith) (omega arith)
      (Pending-zero n b.buffer)) [
        | inl (overlap, run) ↦
            rw (buffer_size b lo hi, ne→== b.purge_pending 0 pending, some_left, run)
              (inl (rw at_end at overlap, refl))
        | inr (r, ok, run, (l, h, same)) ↦
            rw (buffer_size b lo hi, ne→== b.purge_pending 0 pending, some_left, run)
              (inr (_, rw at_end at ok, refl, rw at_end at same, l, h))
      ]

-- Purging comes to nothing exactly if behind a run of marked packets more bytes are to be moved than
-- the run is long, where the areas of the `memcpy` overlap. Else it leaves the packets that are not
-- marked, in their order and unchanged, and behind them the bytes of a packet that is not complete
-- yet; the write index stays within the bounds that it had. The buffer is within its bounds, and where
-- nothing is to be purged no packet is marked.
pub contents-purge_all :
    (b : PacketBuffer)
    → 12 ≤ b.write_index
    → b.write_index ≤ 1328
    → (b.purge_pending ≡ 0
        → (j : ℕ) → j < (b.write_index - 12) / 188
        → is_marked b.buffer j ≡ false)
    → let n = (b.write_index - 12) / 188 in
      ((fits n 0 (is_marked b.buffer) (b.write_index - packet_at n) ≡ false) × (purge b ≡ none))
      ⊎ ((b' : PacketBuffer) × (fits n 0 (is_marked b.buffer) (b.write_index - packet_at n) ≡ true)
          × (purge b ≡ some b')
          × (contents b'
              ≡ unmarked n b.buffer ++ bytes_between b.buffer (packet_at n) b.write_index)
          × (12 ≤ b'.write_index)
          × (b'.write_index ≤ b.write_index))
contents-purge_all b lo hi clean = elim (ℕ_discrete b.purge_pending 0) [
  | yes z ↦
      let idle : purge b ≡ some b = unfold purge in rw z refl in
      subst (Purged b) (sym idle) (purge_nothing b b lo (clean z) refl refl)
  | no pending ↦ elim (ℕ_discrete b.write_index 12) [
    | yes z ↦
        let emptied : purge b ≡ some (record b { purge_pending = 0 }) =
          unfold purge in rw (buffer_size b lo hi, ne→== b.purge_pending 0 pending, z) refl in
        subst (Purged b) (sym emptied) (
          purge_nothing b (record b { purge_pending = 0 }) lo (λ j lt. absurd (omega arith)) refl
            refl)
    | no more ↦ purge_pending_lem b lo hi pending more
  ]
]
