-- ===== src/Tuning/Gold.antt =====
-- `root2gold` of src/input/dvb/delivery/DVBS.cpp: where a shift register holds a root code.
use satpi.Base.{
  ℕ, zero, suc, ◌+◌, ◌<◌, ◌≤◌, ◌≡◌, ◌≢◌, ◌⊎◌, inl, inr, refl, sym, ap, ◌∙◌, arith, ==_refl,
}
use native.Mathlib.Decide.{ℕ_discrete}
use satpi.Base.{ne→==}
use satpi.Tuning.{shift, gold_loop, root2gold}

-- What the register holds after a number of steps.
abbrev pub register : ℕ → ℕ
register zero = 1
register (suc g) = shift (register g)

-- The result of a search for a root code from step `g` on, for some steps.
abbrev pub IsFirst : ℕ → ℕ → ℕ → ℕ → Type 0
IsFirst root g end r =
    ((r ≡ 0x3ffff) × ((k : ℕ) → g ≤ k → k < end → register k ≢ root))
    ⊎ ((register r ≡ root) × (g ≤ r) × (r < end) × ((k : ℕ) → g ≤ k → k < r → register k ≢ root))

gold_loop-IsFirst :
    (root rounds g : ℕ) → IsFirst root g (g + rounds) (gold_loop root rounds g (register g))
gold_loop-IsFirst root zero g = inl (refl, λ k lo hi. absurd (omega arith))
gold_loop-IsFirst root (suc rounds) g = elim (ℕ_discrete root (register g)) [
  | yes e ↦
      rw (e, ==_refl (register g))
        (inr (refl, omega arith, omega arith, λ k lo hi. absurd (omega arith)))
  | no ne ↦
      let after : (end : ℕ)
          → ((k : ℕ) → suc g ≤ k → k < end → register k ≢ root)
          → (k : ℕ) → g ≤ k
          → k < end
          → register k ≢ root =
        λ end h k lo hi. elim (ℕ_discrete k g) [
          | yes e ↦ (λ here. absurd (ne (sym here ∙ ap register e)))
          | no other ↦ h k (omega arith) hi
        ] in
      rw (ne→== root (register g) ne) (elim (gold_loop-IsFirst root rounds (suc g)) [
        | inl (e, missing) ↦ inl (e, after (g + suc rounds) (λ k lo hi. missing k lo (omega arith)))
        | inr (found, lo, hi, before) ↦ inr (found, omega arith, omega arith, after _ before)
      ])
]

-- The number is that of the first step at which the register holds the root code; where it does not
-- hold it in the first 0x3ffff steps, it is 0x3ffff.
pub root2gold-IsFirst : (root : ℕ) → IsFirst root 0 0x3ffff (root2gold root)
unfolding root2gold
root2gold-IsFirst root = gold_loop-IsFirst root 0x3ffff 0
