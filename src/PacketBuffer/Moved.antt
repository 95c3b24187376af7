-- ===== src/PacketBuffer/Moved.antt =====
-- The copy of `purge` (src/mpegts/PacketBuffer.cpp) that removes packets, and where it overlaps.
use satpi.Base.{
  ℕ, zero, suc, ◌+◌, ◌-◌, ◌≤◌, ◌<◌, ◌≡◌, refl, ap, ◌∙◌, true, false, List, [], ◌++◌, ◌&&◌, ltb,
  lt→ltb, le→leb, arith, slice, slice_ext, sub64, Bool, none, some, memmove, leb, Ptr,
  if◌then◌else◌, Bool-cases, inl, inr,
}
use satpi.PacketBuffer.{packet_at, is_marked, remove_packets}

-- The bytes of the packets below `n` that are not marked, in their order.
abbrev pub unmarked : ℕ → Ptr → List ℕ
unmarked zero p = []
unmarked (suc n) p = unmarked n p ++ (if is_marked p n then [] else slice p (packet_at n) 188)

-- The bytes from offset `start` up to `end`.
abbrev pub bytes_between : Ptr → ℕ → ℕ → List ℕ
bytes_between p start end = slice p start (end - start)

pub is_marked_ext :
    (n : ℕ) (p q : Ptr)
    → ((i : ℕ) → i < packet_at (suc n) → p i ≡ q i)
    → is_marked p n ≡ is_marked q n
is_marked_ext n p q same = rw (same (packet_at n + 1) (omega arith))

pub unmarked_ext :
    (n : ℕ) (p q : Ptr) → ((i : ℕ) → i < packet_at n → p i ≡ q i) → unmarked n p ≡ unmarked n q
unmarked_ext zero p q same = refl
unmarked_ext (suc n) p q same = rw (
  unmarked_ext n p q (λ i h. same i (omega arith)),
  is_marked_ext n p q same,
  slice_ext p q (packet_at n) (packet_at n) 188 (λ k h. same (packet_at n + k) (omega arith)),
)

-- Behind every run of dropped packets below `n` there are at most as many bytes as the run is long,
-- those of dropped packets not counted: `skip` bytes of the last run and `behind` bytes that stay are
-- behind packet `n - 1`.
abbrev pub fits : ℕ → ℕ → (ℕ → Bool) → ℕ → Bool
fits zero skip dropped behind = true
fits (suc n) skip dropped behind =
    if dropped n
    then if ltb 0 n && dropped (n - 1)
      then fits n (skip + 188) dropped behind
      else leb behind (skip + 188) && fits n 0 dropped behind
    else fits n skip dropped (behind + 188)

pub fits_ext :
    (n skip behind : ℕ) (p q : ℕ → Bool)
    → ((i : ℕ) → i < n → p i ≡ q i)
    → fits n skip p behind ≡ fits n skip q behind
fits_ext zero skip behind p q same = refl
fits_ext (suc n) skip behind p q same =
    let below : (i : ℕ) → i < n → p i ≡ q i = λ i h. same i (omega arith) in
    let before : (ltb 0 n && p (n - 1)) ≡ (ltb 0 n && q (n - 1)) = elim (Bool-cases (ltb 0 n)) [
      | inl e ↦ rw e (same (n - 1) (omega arith))
      | inr e ↦ rw e refl
    ] in
    rw (
      same n (omega arith),
      before,
      fits_ext n (skip + 188) behind p q below,
      fits_ext n 0 behind p q below,
      fits_ext n skip (behind + 188) p q below,
    )

pub fits_clean :
    (n skip behind : ℕ) (dropped : ℕ → Bool)
    → ((j : ℕ) → j < n → dropped j ≡ false)
    → fits n skip dropped behind ≡ true
fits_clean zero skip behind dropped clean = refl
fits_clean (suc n) skip behind dropped clean =
    rw (clean n (omega arith))
      (fits_clean n skip (behind + 188) dropped (λ j h. clean j (omega arith)))

module _ (n skip : ℕ) (p : Ptr) (end : ℕ) (room : packet_at n + skip ≤ end)
    (small : end < 2000) where
  -- The buffer after a removal without an overlap.
  abbrev pub moved : Ptr
  moved =
      if ltb (packet_at n + skip) end
      then memmove (packet_at n) (packet_at n + skip) (end - (packet_at n + skip)) p
      else p

  pub remove_packets_fits :
      leb (end - (packet_at n + skip)) skip ≡ true
      → remove_packets n skip p end ≡ some (moved, end - skip)
  unfolding remove_packets
  remove_packets_fits h =
      rw (le→leb (packet_at n + (end - (packet_at n + skip))) (packet_at n + skip) (ground arith)) (
        let shorter : sub64 end skip ≡ end - skip = omega arith in
        elim (Bool-cases (ltb (packet_at n + skip) end)) [
          | inl e ↦ rw (e, shorter) refl
          | inr e ↦ rw (e, shorter) refl
        ])

  pub remove_packets_overlaps :
      leb (end - (packet_at n + skip)) skip ≡ false → remove_packets n skip p end ≡ none
  unfolding remove_packets
  remove_packets_overlaps h = ground arith

  -- What stands below the removed packets stays.
  pub moved_below : (i : ℕ) → i < packet_at n → moved i ≡ p i
  moved_below i h = ground arith

  moved_bytes :
      (k : ℕ)
      → k < end - (packet_at n + skip)
      → moved (packet_at n + k) ≡ p (packet_at n + skip + k)
  moved_bytes k h =
      rw
        (
          lt→ltb (packet_at n + skip) end (omega arith),
          le→leb (packet_at n) (packet_at n + k) (omega arith),
          lt→ltb (packet_at n + k) (packet_at n + (end - (packet_at n + skip))) (omega arith),
        )
        (ap p (omega arith))

  -- What stands behind them takes their place.
  pub moved_between :
      bytes_between moved (packet_at n) (end - skip) ≡ bytes_between p (packet_at n + skip) end
  moved_between =
      ap (slice moved (packet_at n)) (omega arith)
      ∙ slice_ext _ p (packet_at n) (packet_at n + skip) (end - (packet_at n + skip)) moved_bytes
