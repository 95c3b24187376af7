-- ===== src/PacketBuffer/Sync.antt =====
-- `trySyncing` of src/mpegts/PacketBuffer.cpp: finding the packets in a stream of bytes.
use satpi.Base.{
  ℕ, zero, suc, ◌+◌, ◌-◌, ◌≤◌, ◌<◌, ◌≡◌, refl, ap, ◌∙◌, true, false, none, some, arith, slice,
  slice_ext, memmove, Ptr, Bool-cases, inl, inr, Option-cases, ◌⊎◌, sym, some_injective,
  none_ne_some, lt→ltb, le→ltb, le→leb,
}
use mathlib.Core.Path.{subst}
use native.Mathlib.Decide.{ℕ_discrete}
use satpi.PacketBuffer.{PacketBuffer, sync_at, find_sync, is_synced, move_sync, try_syncing, reset}
use satpi.PacketBuffer.Purge.{buffer_size}

find_hit : (p : Ptr) (i left : ℕ) → sync_at p i ≡ true → find_sync p i (suc left) ≡ some i
unfolding find_sync
find_hit p i left h = rw h

find_miss :
    (p : Ptr) (i left : ℕ)
    → sync_at p i ≡ false
    → find_sync p i (suc left) ≡ find_sync p (suc i) left
unfolding find_sync
find_miss p i left h = rw h

-- The search gives the first offset in its range at which three sync bytes stand.
find_sync-some :
    (p : Ptr) (i left j : ℕ)
    → find_sync p i left ≡ some j
    → (i ≤ j)
      × (j < i + left)
      × (sync_at p j ≡ true)
      × ((k : ℕ) → i ≤ k → k < j → sync_at p k ≡ false)
unfolding find_sync
find_sync-some p i zero j h = absurd (cc)
find_sync-some p i (suc left) j h = elim (Bool-cases (sync_at p i)) [
  | inl here ↦
      let e : i ≡ j = some_injective i j (sym (find_hit p i left here) ∙ h) in
      (
        omega arith,
        omega arith,
        subst (λ k. sync_at p k ≡ true) e here,
        λ k lo hi. absurd (omega arith),
      )
  | inr miss ↦
      let (lo, hi, at, before) =
        find_sync-some p (suc i) left j (sym (find_miss p i left miss) ∙ h) in
      (
        omega arith,
        omega arith,
        at,
        λ k l h'. elim (ℕ_discrete i k) [
          | yes e ↦ subst (λ k. sync_at p k ≡ false) e miss
          | no ne ↦ before k (omega arith) h'
        ],
      )
]

find_sync-none :
    (p : Ptr) (i left : ℕ)
    → find_sync p i left ≡ none
    → (k : ℕ) → i ≤ k
    → k < i + left
    → sync_at p k ≡ false
find_sync-none p i zero h k lo hi = absurd (omega arith)
find_sync-none p i (suc left) h k lo hi = elim (Bool-cases (sync_at p i)) [
  | inl here ↦ absurd (none_ne_some i (sym h ∙ find_hit p i left here))
  | inr miss ↦ elim (ℕ_discrete i k) [
    | yes e ↦ subst (λ k. sync_at p k ≡ false) e miss
    | no ne ↦
        find_sync-none p (suc i) left (sym (find_miss p i left miss) ∙ h) k (omega arith)
          (omega arith)
  ]
]

-- What `trySyncing` leaves of the buffer `b`.
pub record Synced (b b' : PacketBuffer) (at : ℕ) : Type 0 where
  pub in_range : (12 ≤ at) × (at < 952)
  pub sync : sync_at b.buffer at ≡ true
  pub first : (k : ℕ) → 12 ≤ k → k < at → sync_at b.buffer k ≡ false
  pub dropped : b'.write_index + at ≡ b.write_index + 12
  pub kept : (n : ℕ) → at + n ≤ 1328 → slice b'.buffer 12 n ≡ slice b.buffer at n

already : (b : PacketBuffer) → is_synced b ≡ true → Synced b b 12
unfolding is_synced
already b synced = record {
  in_range = (omega arith, omega arith);
  sync = synced;
  first = λ k lo hi. absurd (omega arith);
  dropped = refl;
  kept = λ n h. refl;
}

moved :
    (b : PacketBuffer)
    → b.write_index ≡ 1328
    → (i : ℕ) → find_sync b.buffer 12 940 ≡ some i
    → Synced b (move_sync i b) i
unfolding move_sync
moved b filled i e =
    let (lo, hi, at, before) = find_sync-some b.buffer 12 940 i e in
    record {
      in_range = (lo, omega arith);
      sync = at;
      first = before;
      dropped = omega arith;
      kept = λ n h. slice_ext (memmove 12 i (1328 - i) b.buffer) b.buffer 12 i n λ k small.
          rw (le→leb 12 (12 + k) (omega arith), lt→ltb (12 + k) (12 + (1328 - i)) (omega arith))
            (ap b.buffer (omega arith));
    }

-- In a full buffer `trySyncing` answers `true` exactly if three sync bytes stand at some offset of
-- the range that it searches; it then has dropped what stands before the first such offset, and
-- what was written behind it begins the buffer. Otherwise the buffer is empty.
pub try_syncing-Synced :
    (b : PacketBuffer)
    → b.write_index ≡ 1328
    → ((try_syncing b).1 ≡ true) × ((at : ℕ) × Synced b (try_syncing b).0 at)
      ⊎ ((try_syncing b).1 ≡ false)
        × ((try_syncing b).0 ≡ reset b)
        × ((k : ℕ) → 12 ≤ k → k < 952 → sync_at b.buffer k ≡ false)
unfolding try_syncing
try_syncing-Synced b filled =
    rw (buffer_size b (omega arith) (omega arith), le→ltb (b.write_index - 12) 564 (omega arith))
      (elim (Bool-cases (is_synced b)) [
        | inl synced ↦ rw synced (inl (refl, (12, already b synced)))
        | inr not_synced ↦ rw not_synced (elim (Option-cases (find_sync b.buffer 12 940)) [
          | inl e ↦
              rw (e, try_syncing)
                (inr (refl, refl, λ k lo hi. find_sync-none b.buffer 12 940 e k lo (omega arith)))
          | inr (i, e) ↦ rw (e, try_syncing) (inl (refl, (i, moved b filled i e)))
        ])
      ])
