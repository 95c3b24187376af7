-- ===== src/Filter/Kept.antt =====
-- Which packets of a buffer `filterData` of src/mpegts/Filter.cpp keeps, and the state of its loop.
use satpi.Base.{
  ℕ, zero, suc, ◌+◌, ◌≤◌, ◌<◌, ◌≡◌, refl, ◌⊎◌, inl, inr, Bool, true, false, not, ◌&&◌, List, [],
  ◌++◌, Ptr, offset, slice, arith, if◌then◌else◌, le→leb, ne→==, ==_refl,
}
use mathlib.Core.Path.{fun_ext}
use native.Mathlib.Decide.{ℕ_discrete}
use satpi.PacketBuffer.{PacketBuffer, packet_at, is_marked, mark_ts_for_purging}
use satpi.Filter.Packets.{is_bad, pid_of}

-- Whether the packet is well-formed and its PID is open.
abbrev pub passes : (ℕ → Bool) → Ptr → ℕ → Bool
passes opened p i =
    not (is_bad (offset p (packet_at i))) && opened (pid_of (offset p (packet_at i)))

-- The bytes of those of the first `n` packets that pass, in their order.
abbrev pub kept : ℕ → (ℕ → Bool) → Ptr → List ℕ
kept zero opened p = []
kept (suc n) opened p =
    kept n opened p ++ (if passes opened p n then slice p (packet_at n) 188 else [])

pub and_false : (x : Bool) → (x && false) ≡ false
and_false true = refl
and_false false = refl

-- After the first `i` packets: those that pass are as they were, the others are marked, and the
-- rest of the buffer is untouched.
pub record Filtered (opened : ℕ → Bool) (b0 b : PacketBuffer) (i : ℕ) : Type 0 where
  pub same_end : b.write_index ≡ b0.write_index
  pub pending_le : b.purge_pending ≤ i
  pub all_pass : b.purge_pending ≡ 0 → (j : ℕ) → j < i → passes opened b0.buffer j ≡ true
  pub ahead : (k : ℕ) → packet_at i ≤ k → b.buffer k ≡ b0.buffer k
  pub behind :
      (j : ℕ)
      → j < i
      → ((passes opened b0.buffer j ≡ true)
          × ((k : ℕ) → k < 188 → b.buffer (packet_at j + k) ≡ b0.buffer (packet_at j + k)))
        ⊎ ((passes opened b0.buffer j ≡ false) × (is_marked b.buffer j ≡ true))

module _ (opened : ℕ → Bool) (b0 b : PacketBuffer) (i : ℕ) (v : Filtered opened b0 b i) where
  pub Filtered-packet : offset b.buffer (packet_at i) ≡ offset b0.buffer (packet_at i)
  Filtered-packet = fun_ext (λ k. v.ahead (packet_at i + k) (omega arith))

  pub Filtered-pass : passes opened b0.buffer i ≡ true → Filtered opened b0 b (suc i)
  Filtered-pass pass = record {
    same_end = v.same_end;
    pending_le = omega (arith, v.pending_le);
    all_pass =
        λ z j h. elim (ℕ_discrete j i) [ yes e ↦ rw e pass | no ne ↦ v.all_pass z j (omega arith) ];
    ahead = λ k h. v.ahead k (omega arith);
    behind = λ j h. elim (ℕ_discrete j i) [
      | yes e ↦ inl (rw e pass, λ k _. v.ahead (packet_at j + k) (omega arith))
      | no ne ↦ v.behind j (omega arith)
    ];
  }

  pub Filtered-drop :
      i < 7
      → passes opened b0.buffer i ≡ false
      → Filtered opened b0 (mark_ts_for_purging i b) (suc i)
  unfolding mark_ts_for_purging
  Filtered-drop small drop = rw (le→leb i 7 (omega arith)) (record {
    same_end = v.same_end;
    pending_le = omega (arith, v.pending_le);
    all_pass = λ z. absurd (omega (arith, v.pending_le));
    ahead = λ k h. rw (ne→== k (packet_at i + 1) (omega arith)) (v.ahead k (omega arith));
    behind = λ j h. elim (ℕ_discrete j i) [
      | yes e ↦ inr (rw e drop, rw e (rw (==_refl (packet_at i + 1))))
      | no ne ↦ elim (v.behind j (omega arith)) [
        | inl (pass, same) ↦
            inl (
              pass,
              λ k hk. rw (ne→== (packet_at j + k) (packet_at i + 1) (omega arith)) (same k hk),
            )
        | inr (drop', mark) ↦
            inr (drop', rw (ne→== (packet_at j + 1) (packet_at i + 1) (omega arith)) mark)
      ]
    ];
  })

pub Filtered-start :
    (opened : ℕ → Bool) (b : PacketBuffer) → b.purge_pending ≡ 0 → Filtered opened b b 0
Filtered-start opened b idle = record {
  same_end = refl;
  pending_le = omega arith;
  all_pass = λ z j h. absurd (omega arith);
  ahead = λ k h. refl;
  behind = λ j h. absurd (omega arith);
}
