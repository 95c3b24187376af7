-- ===== src/DvbapiBatch/Flags.antt =====
-- What the batch of src/decrypt/dvbapi/ClientProperties.cpp does to the flags of its packets.
use satpi.Base.{
  ℕ, zero, suc, ◌+◌, ◌<◌, ◌≤◌, ◌≡◌, ◌≢◌, inl, inr, sym, ap, ◌∙◌, arith, Option, none, some, List,
  Ptr, update, Option-cases, ne→==, ==_refl, some_injective,
}
use native.Mathlib.Decide.{ℕ_discrete}
use satpi.DvbapiBatch.{Batch, clear_flags, each_packet, payloads, decrypt_batch}
use satpi.DvbapiBatch.Bounds.{IsBounded, decrypt_batch_lem}

clear_flags-first : (packet : ℕ) (mem : Ptr) → clear_flags packet mem (packet + 3) < 64
clear_flags-first packet mem = rw (==_refl (packet + 3)) (omega arith)

clear_flags-keeps : (packet a : ℕ) (mem : Ptr) → mem a < 64 → clear_flags packet mem a < 64
clear_flags-keeps packet a mem lt = elim (ℕ_discrete a (packet + 3)) [
  | yes e ↦ rw (e, ==_refl (packet + 3)) (omega arith)
  | no ne ↦ rw (ne→== a (packet + 3) ne) lt
]

each_packet-keeps :
    (ts : ℕ → Option ℕ) (i left a : ℕ) (mem mem' : Ptr)
    → mem a < 64
    → each_packet clear_flags ts i left mem ≡ some mem'
    → mem' a < 64
unfolding each_packet
each_packet-keeps ts i zero a mem mem' lt run = absurd cc
each_packet-keeps ts i (suc left) a mem mem' lt run = elim (Option-cases (ts i)) [
  | inl e ↦
      let same : mem ≡ mem' = some_injective _ _ (rw (e, each_packet) at run) in
      rw (ap (λ f. f a) (sym same)) lt
  | inr (packet, e) ↦
      each_packet-keeps ts (suc i) left a (clear_flags packet mem) mem'
        (clear_flags-keeps packet a mem lt) (rw (e, each_packet) at run)
]

-- Each packet in front of the first entry without one is reached.
each_packet-clears :
    (ts : ℕ → Option ℕ) (i left j packet : ℕ) (mem mem' : Ptr)
    → i ≤ j
    → ((k : ℕ) → k < j → ts k ≢ none)
    → ts j ≡ some packet
    → each_packet clear_flags ts i left mem ≡ some mem'
    → mem' (packet + 3) < 64
unfolding each_packet
each_packet-clears ts i zero j packet mem mem' lo full at_ run = absurd cc
each_packet-clears ts i (suc left) j packet mem mem' lo full at_ run = elim (ℕ_discrete i j) [
  | yes e ↦
      each_packet-keeps ts (suc i) left (packet + 3) (clear_flags packet mem) mem'
        (clear_flags-first packet mem) (rw (ap ts e ∙ at_, each_packet) at run)
  | no ne ↦ elim (Option-cases (ts i)) [
    | inl e ↦ absurd (full i (omega arith) e)
    | inr (q, e) ↦
        each_packet-clears ts (suc i) left j packet (clear_flags q mem) mem' (omega arith) full at_
          (rw (e, each_packet) at run)
  ]
]

-- After a batch with packets was decrypted, none of its packets is marked as scrambled.
pub decrypt_batch-clear :
    {K : Type 0} (bs_decrypt : K → List (ℕ × ℕ) → Ptr → Ptr) (b b' : Batch K) (mem mem' : Ptr)
    (i packet : ℕ)
    → IsBounded b
    → i < b.batch_count
    → b.ts i ≡ some packet
    → decrypt_batch bs_decrypt b mem ≡ some (b', mem')
    → mem' (packet + 3) < 64
decrypt_batch-clear {K} bs_decrypt b b' mem mem' i packet v lt at_ run =
    let (key, b1, m1, k, flags, ran, v1, done, keys, size) =
      decrypt_batch_lem bs_decrypt b mem v (omega arith) in
    let same : m1 ≡ mem' = ap (λ (r : Batch K × Ptr). r.1) (some_injective _ _ (sym ran ∙ run)) in
    rw (ap (λ f. f (packet + 3)) (sym same)) (
      each_packet-clears (update b.ts b.batch_count none) 0 (b.batch_size + 1) i packet
        (bs_decrypt key (payloads (update b.batch b.batch_count (none, 0)) 0 (b.batch_size + 1))
          mem)
        m1 (omega arith)
        (λ k less.
          rw (ne→== k b.batch_count (λ e. absurd (omega arith))) (v.filled k (omega arith)))
        (rw (ne→== i b.batch_count (λ e. absurd (omega arith))) at_) flags)
