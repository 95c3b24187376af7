-- ===== src/Pat/Entries.antt =====
-- The entries of a PAT that `generateFrom` of src/mpegts/PAT.cpp writes, as `parse` reads them.
use satpi.Base.{
  ℕ, zero, suc, ◌+◌, ◌-◌, ◌*◌, ◌/◌, ◌%◌, ◌^◌, ◌≤◌, ◌<◌, ◌≡◌, ◌↔◌, refl, ap, ap₂, sym, ◌∙◌, arith,
  List, ◌∷◌, ◌++◌, get_or, c_str, Ptr,
}
use native.Mathlib.Nat.{add-zero, zero-add}
use satpi.Pat.{program_number, program_pid}
use satpi.Pat.Marks.{Listed}
use satpi.Pat.Generate.{prognr, pmt_pid, entries, before_crc}

-- The bytes from the entry `j` on.
get_or-entries :
    (k n j i : ℕ) (rest : List ℕ)
    → j < n
    → get_or (entries k n ++ rest) (i + j * 4) 0 ≡ get_or (entries (k + j) (n - j) ++ rest) i 0
unfolding entries
get_or-entries k n zero i rest h =
    let at : i + 0 * 4 ≡ i = omega arith in
    let same : n - 0 ≡ n = omega arith in rw (at, add-zero k, same) refl
get_or-entries k zero (suc j) i rest h = absurd (omega arith)
get_or-entries k (suc n) (suc j) i rest h =
    let at : i + suc j * 4 ≡ suc (suc (suc (suc (i + j * 4)))) = omega arith in
    let next : suc k + j ≡ k + suc j = omega arith in
    let left : suc n - suc j ≡ n - j = omega arith in
    rw (at, left) (get_or-entries (suc k) n j i rest (omega arith) ∙ rw next refl)

entries-suc :
    (k m i : ℕ) (rest : List ℕ)
    → get_or (entries k (suc m) ++ rest) i 0
      ≡ get_or
          ((prognr k / 2 ^ 8 % 2 ^ 8)
            ∷ (prognr k % 2 ^ 8)
            ∷ (pmt_pid k / 2 ^ 8 % 2 ^ 5)
            ∷ (pmt_pid k % 2 ^ 8)
            ∷ (entries (suc k) m ++ rest))
          i
          0
unfolding entries
entries-suc k m i rest = refl

module _ (cc n : ℕ) (few : n ≤ 41) (rest : List ℕ) where
  abbrev p : Ptr
  p = c_str (before_crc cc n ++ rest)

  -- Entry `suc j` is that of channel `j`.
  byte_at :
      (j i : ℕ)
      → j < n
      → p (17 + (i + j * 4))
        ≡ get_or
            ((prognr j / 2 ^ 8 % 2 ^ 8)
              ∷ (prognr j % 2 ^ 8)
              ∷ (pmt_pid j / 2 ^ 8 % 2 ^ 5)
              ∷ (pmt_pid j % 2 ^ 8)
              ∷ (entries (suc j) (n - suc j) ++ rest))
            i
            0
  byte_at j i h =
      let at : 17 + (i + j * 4)
          ≡ suc (
              suc (
                suc (
                  suc (
                    suc (
                      suc (
                        suc (
                          suc (
                            suc
                              (suc (suc (suc (suc (suc (suc (suc (suc (i + j * 4))))))))))))))))) =
        omega arith in
      let left : n - j ≡ suc (n - suc j) = omega arith in
      rw at
        (get_or-entries 0 n j i rest h ∙ rw (zero-add j, left) (entries-suc j (n - suc j) i rest))

  program_at :
      (j : ℕ)
      → j < n
      → (program_number p (13 + suc j * 4) ≡ prognr j)
        × (program_pid p (13 + suc j * 4) ≡ pmt_pid j)
  program_at j h =
      let at0 : 13 + suc j * 4 ≡ 17 + (0 + j * 4) = omega arith in
      let at1 : 13 + suc j * 4 + 1 ≡ 17 + (1 + j * 4) = omega arith in
      let at2 : 13 + suc j * 4 + 2 ≡ 17 + (2 + j * 4) = omega arith in
      let at3 : 13 + suc j * 4 + 3 ≡ 17 + (3 + j * 4) = omega arith in
      let b0 : p (13 + suc j * 4) ≡ prognr j / 2 ^ 8 % 2 ^ 8 = ap p at0 ∙ byte_at j 0 h in
      let b1 : p (13 + suc j * 4 + 1) ≡ prognr j % 2 ^ 8 = ap p at1 ∙ byte_at j 1 h in
      let b2 : p (13 + suc j * 4 + 2) ≡ pmt_pid j / 2 ^ 8 % 2 ^ 5 = ap p at2 ∙ byte_at j 2 h in
      let b3 : p (13 + suc j * 4 + 3) ≡ pmt_pid j % 2 ^ 8 = ap p at3 ∙ byte_at j 3 h in
      (
        ap₂ (λ (x : ℕ) (y : ℕ). x * 256 + y) b0 b1 ∙ omega (arith, few, h),
        ap₂ (λ (x : ℕ) (y : ℕ). x % 32 * 256 + y) b2 b3 ∙ omega (arith, few, h),
      )

  -- The entries of the section are those of the channels.
  pub Listed-generated :
      (pid : ℕ) → Listed p 13 (n + 1) pid ↔ ((k : ℕ) × (k < n) × (pid ≡ pmt_pid k))
  Listed-generated pid = (to, from)
    where
      to : Listed p 13 (n + 1) pid → (k : ℕ) × (k < n) × (pid ≡ pmt_pid k)
      to (zero, small, number, same) = absurd (number refl)
      to (suc k, small, number, same) = (k, omega arith, sym same ∙ (program_at k (omega arith)).1)

      from : (k : ℕ) × (k < n) × (pid ≡ pmt_pid k) → Listed p 13 (n + 1) pid
      from (k, small, same) =
          let (number, found) = program_at k small in
          (suc k, omega arith, λ z. absurd (omega (arith, sym number ∙ z)), found ∙ sym same)
