-- ===== src/PacketBuffer/Loop.antt =====
-- The loop of `purge` (src/mpegts/PacketBuffer.cpp).
use satpi.Base.{
  ℕ, zero, suc, ◌+◌, ◌-◌, ◌≤◌, ◌<◌, ◌≡◌, refl, ap, ◌∙◌, true, false, ◌++◌, ◌&&◌, ltb, ap₂, sym,
  arith, slice, slice_split, Option, none, some, leb, Ptr, Bool-cases, inl, inr, ◌⊎◌,
}
use native.Mathlib.Nat.{add-zero}
use mathlib.Core.Path.{subst}
use mathlib.Core.List.{append_assoc, append-nil}
use satpi.PacketBuffer.{packet_at, is_marked, purge_loop}
use satpi.PacketBuffer.Moved.{
  unmarked, bytes_between, is_marked_ext, unmarked_ext, fits, fits_ext, moved, remove_packets_fits,
  remove_packets_overlaps, moved_below, moved_between,
}

-- Either nothing is left to be removed, or the packet below is marked as well.
abbrev pub Pending : ℕ → ℕ → Ptr → Type 0
Pending zero skip p = skip ≡ 0
Pending (suc n) skip p = (skip ≡ 0) ⊎ (is_marked p n ≡ true)

pub Pending-zero : (n : ℕ) (p : Ptr) → Pending n 0 p
Pending-zero zero p = refl
Pending-zero (suc n) p = inl refl

Pending-marked : (n skip : ℕ) (p : Ptr) → (ltb 0 n && is_marked p (n - 1)) ≡ true → Pending n skip p
Pending-marked zero skip p h = cc
Pending-marked (suc n) skip p h = inr (ground arith)

pub bytes_split :
    (p : Ptr) (start m end : ℕ)
    → start + m ≤ end
    → bytes_between p start end ≡ slice p start m ++ bytes_between p (start + m) end
bytes_split p start m end h =
    ap (slice p start) (omega arith) ∙ slice_split p start m (end - (start + m))

-- The bytes behind the header: first the unmarked packets below `n`, then what is behind them.
abbrev pub Purges : ℕ → ℕ → Ptr → ℕ → Ptr × ℕ → Type 0
Purges n skip p end (q, end') =
    (12 ≤ end')
    × (end' ≤ end)
    × (bytes_between q 12 end' ≡ unmarked n p ++ bytes_between p (packet_at n + skip) end)

-- What the loop comes to: it overlaps, or it purges.
abbrev pub Comes : ℕ → ℕ → Ptr → ℕ → Option (Ptr × ℕ) → Type 0
Comes n skip p end r =
    ((fits n skip (is_marked p) (end - (packet_at n + skip)) ≡ false) × (r ≡ none))
    ⊎ ((r' : Ptr × ℕ) × (fits n skip (is_marked p) (end - (packet_at n + skip)) ≡ true)
        × (r ≡ some r')
        × Purges n skip p end r')

module _ (n skip : ℕ) (p : Ptr) (end : ℕ) (room : packet_at (suc n) + skip ≤ end)
    (small : end < 2000) where
  -- A marked packet is removed with the one below it.
  Comes-collected :
      (r : Option (Ptr × ℕ))
      → is_marked p n ≡ true
      → (ltb 0 n && is_marked p (n - 1)) ≡ true
      → Comes n (skip + 188) p end r
      → Comes (suc n) skip p end r
  Comes-collected r marked more (inl (overlap, run)) =
      let behind : end - (packet_at n + (skip + 188)) ≡ end - (packet_at (suc n) + skip) =
        omega arith in
      inl (rw (marked, more) (rw behind at overlap), run)
  Comes-collected r marked more (inr (r', ok, run, (lo, hi, same))) =
      let behind : end - (packet_at n + (skip + 188)) ≡ end - (packet_at (suc n) + skip) =
        omega arith in
      inr (
        r',
        rw (marked, more) (rw behind at ok),
        run,
        (
          lo,
          hi,
          rw marked (
              same
              ∙ ap₂ ◌++◌ (sym (append-nil (unmarked n p)))
                  (ap (λ (at : ℕ). bytes_between p at end) (omega arith))),
        ),
      )

  -- A packet that stays.
  Comes-kept :
      (r : Option (Ptr × ℕ))
      → is_marked p n ≡ false
      → skip ≡ 0
      → Comes n skip p end r
      → Comes (suc n) skip p end r
  Comes-kept r kept nothing (inl (overlap, run)) =
      let behind : end - (packet_at n + skip) ≡ end - (packet_at (suc n) + skip) + 188 =
        omega arith in
      inl (rw kept (rw behind at overlap), run)
  Comes-kept r kept nothing (inr (r', ok, run, (lo, hi, same))) =
      let count : end - (packet_at n + skip) ≡ end - (packet_at (suc n) + skip) + 188 =
        omega arith in
      let behind : bytes_between p (packet_at n + skip) end
          ≡ slice p (packet_at n) 188 ++ bytes_between p (packet_at (suc n) + skip) end =
        ap (λ (at : ℕ). bytes_between p at end) (omega arith)
        ∙ bytes_split p (packet_at n) 188 end (omega arith)
        ∙ ap (λ (at : ℕ). slice p (packet_at n) 188 ++ bytes_between p at end) (omega arith) in
      inr (
        r',
        rw kept (rw count at ok),
        run,
        (
          lo,
          hi,
          rw kept (
              same
              ∙ ap (◌++◌ (unmarked n p)) behind
              ∙ sym (append_assoc (unmarked n p) (slice p (packet_at n) 188) _)),
        ),
      )

  abbrev q : Ptr
  q = moved n (skip + 188) p end (omega arith) small

  -- A run of marked packets that is removed without an overlap.
  Comes-removed :
      (r : Option (Ptr × ℕ))
      → is_marked p n ≡ true
      → (ltb 0 n && is_marked p (n - 1)) ≡ false
      → leb (end - (packet_at (suc n) + skip)) (skip + 188) ≡ true
      → Comes n 0 q (end - (skip + 188)) r
      → Comes (suc n) skip p end r
  Comes-removed r marked last short c = elim c [
    | inl (overlap, run) ↦ inl (rw (marked, last, short) (sym count ∙ overlap), run)
    | inr (r', ok, run, (lo, hi, same)) ↦ inr (
      r',
      rw (marked, last, short) (sym count ∙ ok),
      run,
      (
        lo,
        omega (arith, hi),
        rw marked (same ∙ ap₂ ◌++◌ (below ∙ sym (append-nil (unmarked n p))) behind),
      ),
    )
  ]
    where
      under : (i : ℕ) → i < packet_at n → q i ≡ p i
      under = moved_below n (skip + 188) p end (omega arith) small

      count :
          fits n 0 (is_marked q) (end - (skip + 188) - (packet_at n + 0))
          ≡ fits n 0 (is_marked p) (end - (packet_at (suc n) + skip))
      count =
          fits_ext n 0 _ (is_marked q) (is_marked p)
            (λ i h. is_marked_ext i q p (λ j lt. under j (omega arith)))
          ∙ ap (fits n 0 (is_marked p)) (omega arith)

      below : unmarked n q ≡ unmarked n p
      below = unmarked_ext n q p under

      behind :
          bytes_between q (packet_at n + 0) (end - (skip + 188))
          ≡ bytes_between p (packet_at (suc n) + skip) end
      behind =
          ap (λ (at : ℕ). bytes_between q at (end - (skip + 188))) (add-zero (packet_at n))
          ∙ moved_between n (skip + 188) p end (omega arith) small
          ∙ ap (λ (at : ℕ). bytes_between p at end) (omega arith)

pub purge_loop-Comes :
    (n skip : ℕ) (p : Ptr) (end : ℕ)
    → packet_at n + skip ≤ end
    → end < 2000
    → Pending n skip p
    → Comes n skip p end (purge_loop n skip p end)
unfolding purge_loop
purge_loop-Comes zero skip p end room small pending =
    inr ((p, end), refl, refl, (omega (arith, pending, room), omega arith, rw pending refl))
purge_loop-Comes (suc n) skip p end room small pending = elim (Bool-cases (is_marked p n)) [
  | inr kept ↦
      let nothing : skip ≡ 0 = elim pending [ inl z ↦ z | inr marked ↦ absurd (cc) ] in
      let run : purge_loop (suc n) skip p end ≡ purge_loop n skip p end = rw kept refl in
      subst (Comes (suc n) skip p end) (sym run) (
        Comes-kept n skip p end room small _ kept nothing
          (purge_loop-Comes n skip p end (omega arith) small (rw nothing (Pending-zero n p))))
  | inl marked ↦ elim (Bool-cases (ltb 0 n && is_marked p (n - 1))) [
    | inl more ↦
        let run : purge_loop (suc n) skip p end ≡ purge_loop n (skip + 188) p end =
          rw (marked, more) refl in
        subst (Comes (suc n) skip p end) (sym run) (
          Comes-collected n skip p end room small _ marked more
            (purge_loop-Comes n (skip + 188) p end (omega arith) small (Pending-marked n _ p more)))
    | inr last ↦ elim (Bool-cases (leb (end - (packet_at (suc n) + skip)) (skip + 188))) [
      | inr long ↦
          let run : purge_loop (suc n) skip p end ≡ none =
            rw
              (
                marked,
                last,
                remove_packets_overlaps n (skip + 188) p end (omega arith) small (ground arith),
              )
              refl in
          subst (Comes (suc n) skip p end) (sym run) (inl (rw (marked, last, long) refl, refl))
      | inl short ↦
          let run : purge_loop (suc n) skip p end
              ≡ purge_loop n 0 (q n skip p end room small) (end - (skip + 188)) =
            rw
              (
                marked,
                last,
                remove_packets_fits n (skip + 188) p end (omega arith) small (ground arith),
              )
              refl in
          subst (Comes (suc n) skip p end) (sym run) (
            Comes-removed n skip p end room small _ marked last short (
              purge_loop-Comes n 0 (q n skip p end room small) (end - (skip + 188)) (omega arith)
                (omega arith) (Pending-zero n _)))
    ]
  ]
]
