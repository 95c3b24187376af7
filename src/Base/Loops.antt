-- ===== src/Base/Loops.antt =====
-- Counted loops `for (i = first; i < first + rounds; ++i)` over a state.
use Prim.Native.Nat.{ℕ, zero, suc, ◌+◌, ◌≤◌, ◌<◌}
use mathlib.Core.Path.{◌≡◌, refl, ap, ◌∙◌}
use mathlib.Core.Logic.{◌≢◌}
use mathlib.Core.Bool.{Bool, true, false}
use native.Mathlib.Omega.{arith}
use native.Mathlib.Decide.{ℕ_discrete}
use satpi.Base.Tests.{◌==◌, if◌then◌else◌}

unfoldable pub for_range {ℓ} : {S : Type ℓ} → ℕ → ℕ → (ℕ → S → S) → S → S
for_range first zero body s = s
for_range first (suc rounds) body s = for_range (suc first) rounds body (body first s)

-- A value stored under one key of a total map.
abbrev pub update {ℓ} : {A : Type ℓ} → (ℕ → A) → ℕ → A → ℕ → A
update f k v j = if j == k then v else f j

module _ {ℓ} {S : Type ℓ} where
  -- What every round keeps, the loop keeps.
  pub for_range_inv {κ} :
      (P : S → Type κ) (body : ℕ → S → S) (first rounds : ℕ) (s : S)
      → ((i : ℕ) (t : S) → first ≤ i → i < first + rounds → P t → P (body i t))
      → P s
      → P (for_range first rounds body s)
  unfolding for_range
  for_range_inv P body first zero s keep h = h
  for_range_inv P body first (suc rounds) s keep h =
      for_range_inv P body (suc first) rounds (body first s)
        (λ i t lo hi. keep i t (omega arith) (omega arith))
        (keep first s (omega arith) (omega arith) h)

  module _ {κ} {B : Type κ} (view : ℕ → S → B) (body : ℕ → S → S) where
    -- What the rounds of other indices leave alone.
    pub for_range_frame :
        ((i j : ℕ) (t : S) → i ≢ j → view j (body i t) ≡ view j t)
        → (first rounds j : ℕ) (s : S) → ((i : ℕ) → first ≤ i → i < first + rounds → i ≢ j)
        → view j (for_range first rounds body s) ≡ view j s
    for_range_frame other first rounds j s away =
        for_range_inv (λ t. view j t ≡ view j s) body first rounds s
          (λ i t lo hi h. other i j t (away i lo hi) ∙ h) refl

    -- Where round `i` alone touches what `view i` shows, and computes it from that alone, the loop
    -- does to it what that round does.
    pub view-for_range :
        (effect : ℕ → B → B)
        → ((i : ℕ) (t : S) → view i (body i t) ≡ effect i (view i t))
        → ((i j : ℕ) (t : S) → i ≢ j → view j (body i t) ≡ view j t)
        → (first rounds j : ℕ) (s : S) → first ≤ j
        → j < first + rounds
        → view j (for_range first rounds body s) ≡ effect j (view j s)
    unfolding for_range
    view-for_range effect self other first zero j s lo hi = absurd (omega arith)
    view-for_range effect self other first (suc rounds) j s lo hi = elim (ℕ_discrete first j) [
      | yes e ↦
          for_range_frame other (suc first) rounds j (body first s) (λ i l h. omega arith)
          ∙ rw e (self j s)
      | no ne ↦
          view-for_range effect self other (suc first) rounds j (body first s) (omega arith)
            (omega arith)
          ∙ ap (effect j) (other first j s ne)
    ]

-- A test that holds at every number below a bound, found out by trying them all.
unfoldable pub holds_below : (ℕ → Bool) → ℕ → Bool
holds_below test zero = true
holds_below test (suc bound) = if test bound then holds_below test bound else false

pub holds_below-true :
    (test : ℕ → Bool) (bound i : ℕ) → i < bound → holds_below test bound ≡ true → test i ≡ true
unfolding holds_below
holds_below-true test zero i small all = absurd (omega arith)
holds_below-true test (suc bound) i small all = elim (ℕ_discrete i bound) [
  | yes e ↦ rw e (ground arith)
  | no ne ↦ holds_below-true test bound i (omega arith) (ground arith)
]
