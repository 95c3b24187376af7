-- ===== src/Pmt/Runs.antt =====
-- The loops of `PMT::parse` (src/mpegts/PMT.cpp) against what they come to without a bound on their
-- rounds.
use satpi.Base.{
  ℕ, zero, suc, ◌+◌, ◌≤◌, ◌<◌, ◌≡◌, refl, arith, Bool-cases, ltb, leb, Option, none, some, List,
  length, Option-cases, inl, inr, false,
}
use satpi.Pmt.{
  EcmData, Streams, program_entry, program_loop, stream_entry, stream_loop, es_entry, es_loop,
}

-- What a loop `while (i < len) { ...; i += n + step; }` comes to from offset `i` on, by finitely many
-- rounds: it ends, an entry of it is read behind the bytes, or it goes on behind an entry of `n` bytes.
pub data Runs {S : Type 0} (entry : ℕ → S → Option (ℕ × S)) (step len : ℕ)
    : ℕ → S → Option S → Type 0 where
  ends : {i : ℕ} {s : S} → len ≤ i → Runs entry step len i s (some s)
  behind : {i : ℕ} {s : S} → i < len → entry i s ≡ none → Runs entry step len i s none
  goes_on :
      {i n : ℕ} {s s' : S} {r : Option S}
      → i < len
      → entry i s ≡ some (n, s')
      → Runs entry step len (i + (n + step)) s' r
      → Runs entry step len i s r

pub program_loop-Runs :
    (fuel : ℕ) (info : List ℕ) (len i : ℕ) (ecm : List EcmData)
    → len ≤ i + fuel
    → Runs (program_entry info) 2 len i ecm (program_loop fuel info len i ecm)
unfolding program_loop
program_loop-Runs zero info len i ecm enough = elim (Bool-cases (ltb i len)) [
  | inl e ↦ absurd (ground arith)
  | inr e ↦ rw e (ends (omega arith))
]
program_loop-Runs (suc fuel) info len i ecm enough = elim (Bool-cases (ltb i len)) [
  | inr e ↦ rw e (ends (ground arith))
  | inl e ↦ elim (Option-cases (program_entry info i ecm)) [
    | inl f ↦ rw (e, f, program_loop) (behind (ground arith) f)
    | inr ((n, ecm'), f) ↦
        rw (e, f, program_loop)
          (goes_on (ground arith) f
            (program_loop-Runs fuel info len (i + (n + 2)) ecm' (omega arith)))
  ]
]

pub stream_loop-Runs :
    (fuel : ℕ) (bytes : List ℕ) (base len j : ℕ) (acc : Streams)
    → len ≤ j + fuel
    → Runs
        (λ j acc. stream_entry bytes (base + j) acc)
        2
        len
        j
        acc
        (stream_loop fuel bytes base len j acc)
unfolding stream_loop
stream_loop-Runs zero bytes base len j acc enough = elim (Bool-cases (ltb j len)) [
  | inl e ↦ absurd (ground arith)
  | inr e ↦ rw e (ends (omega arith))
]
stream_loop-Runs (suc fuel) bytes base len j acc enough = elim (Bool-cases (ltb j len)) [
  | inr e ↦ rw e (ends (ground arith))
  | inl e ↦ elim (Option-cases (stream_entry bytes (base + j) acc)) [
    | inl f ↦ rw (e, f, stream_loop) (behind (ground arith) f)
    | inr ((n, acc'), f) ↦
        rw (e, f, stream_loop)
          (goes_on (ground arith) f
            (stream_loop-Runs fuel bytes base len (j + (n + 2)) acc' (omega arith)))
  ]
]

-- An entry behind the bytes is not read.
es_entry_behind :
    (bytes : List ℕ) (i : ℕ) (acc : Streams) → length bytes < i → es_entry bytes i acc ≡ none
unfolding es_entry
es_entry_behind bytes i acc lt = rw (gt→leb i (length bytes) lt) refl
  where
    gt→leb : (a b : ℕ) → b < a → leb a b ≡ false
    gt→leb a b h = ground arith

pub es_loop-Runs :
    (fuel : ℕ) (bytes : List ℕ) (base len i : ℕ) (acc : Streams)
    → length bytes < base + i + fuel
    → Runs (λ i acc. es_entry bytes (base + i) acc) 5 len i acc (es_loop fuel bytes base len i acc)
unfolding es_loop
es_loop-Runs zero bytes base len i acc enough = elim (Bool-cases (ltb i len)) [
  | inl e ↦ rw e (behind (ground arith) (es_entry_behind bytes (base + i) acc (omega arith)))
  | inr e ↦ rw e (ends (ground arith))
]
es_loop-Runs (suc fuel) bytes base len i acc enough = elim (Bool-cases (ltb i len)) [
  | inr e ↦ rw e (ends (ground arith))
  | inl e ↦ elim (Option-cases (es_entry bytes (base + i) acc)) [
    | inl f ↦ rw (e, f, es_loop) (behind (ground arith) f)
    | inr ((n, acc'), f) ↦
        rw (e, f, es_loop)
          (goes_on (ground arith) f
            (es_loop-Runs fuel bytes base len (i + (n + 5)) acc' (omega arith)))
  ]
]
