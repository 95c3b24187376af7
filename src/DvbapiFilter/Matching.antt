-- ===== src/DvbapiFilter/Matching.antt =====
-- `matchOrCollecting` of src/decrypt/dvbapi/FilterData.h against the bytes that a filter asks for.
use satpi.Base.{
  ℕ, zero, suc, ◌+◌, ◌≤◌, ◌<◌, ◌≡◌, ◌≢◌, ◌↔◌, refl, arith, Bool, true, false, ◌&&◌, if◌then◌else◌,
  ◌==◌, Ptr,
}
use Prim.Native.Nat.{bit_and}
use mathlib.Core.Path.{subst}
use native.Mathlib.Decide.{ℕ_discrete}
use satpi.DvbapiFilter.{
  FilterData, section_length, byte_matches, skip_length, match_loop, match_or_collecting,
}

-- The byte of a section that byte `i` of a filter is for: the table id, then what follows the length
-- field.
abbrev pub section_offset : ℕ → ℕ
section_offset i = if i == 0 then 0 else i + 2

-- The byte of the packet that holds it: the section begins behind the header and the pointer.
abbrev pub position : ℕ → ℕ
position i = 5 + section_offset i

-- The packet agrees under the mask with byte `i` of the filter.
abbrev pub AgreesAt : FilterData → Ptr → ℕ → Type 0
AgreesAt f packet i = bit_and (f.filter i) (f.mask i) ≡ bit_and (packet (position i)) (f.mask i)

-- The byte stands before the last four of the section.
abbrev pub IsInReach : Ptr → ℕ → Type 0
IsInReach packet i = section_offset i + 4 < section_length packet

-- Where the mask of byte `i` is not 0, the byte is in reach and agrees.
abbrev pub Agrees : FilterData → Ptr → ℕ → Type 0
Agrees f packet i = f.mask i ≢ 0 → IsInReach packet i × AgreesAt f packet i

byte_matches-Agrees :
    (f : FilterData) (packet : Ptr) (i : ℕ)
    → (byte_matches f packet i (position i) ≡ true) ↔ Agrees f packet i
byte_matches-Agrees f packet i = ground arith

next_position :
    (i k : ℕ) → skip_length k ≡ position i → skip_length (suc (skip_length k)) ≡ position (suc i)
next_position i k at = rw at (ground arith)

both_iff : (a b : Bool) → ((a && b) ≡ true) ↔ ((a ≡ true) × (b ≡ true))
both_iff a b = ground arith

match_loop-Agrees :
    (f : FilterData) (packet : Ptr) (i k left : ℕ)
    → skip_length k ≡ position i
    → (match_loop f packet i k left ≡ true) ↔ ((j : ℕ) → i ≤ j → j < i + left → Agrees f packet j)
unfolding match_loop
match_loop-Agrees f packet i k zero at = (λ _ j lo hi. absurd (omega arith), λ _. refl)
match_loop-Agrees f packet i k (suc left) at =
    let (to, from) =
      match_loop-Agrees f packet (suc i) (suc (skip_length k)) left (next_position i k at) in
    let here : (byte_matches f packet i (skip_length k) ≡ true) ↔ Agrees f packet i =
      rw at (byte_matches-Agrees f packet i) in
    let both =
      both_iff (byte_matches f packet i (skip_length k))
        (match_loop f packet (suc i) (suc (skip_length k)) left) in
    (
      λ h j lo hi. elim (ℕ_discrete i j) [
        | yes e ↦ subst (Agrees f packet) e (here.0 (both.0 h).0)
        | no ne ↦ to (both.0 h).1 j (omega arith) (omega arith)
      ],
      λ agree. both.1 (
        here.1 (agree i (omega arith) (omega arith)),
        from (λ j lo hi. agree j (omega arith) (omega arith)),
      ),
    )

-- A filter that is not collecting yet begins to collect exactly if, for each of its 16 bytes whose
-- mask is not 0, the packet agrees with it under the mask and the byte stands before the last four
-- bytes of the section: a byte among these four never matches, whether it agrees or not.
pub match_or_collecting-Agrees :
    (f : FilterData) (packet : Ptr)
    → f.collecting ≡ false
    → let (f', answer) = match_or_collecting packet f in
      ((answer ≡ true) ↔ ((i : ℕ) → i < 16 → Agrees f packet i)) × (f'.collecting ≡ answer)
unfolding match_or_collecting match_loop
match_or_collecting-Agrees f packet idle =
    let (to, from) = match_loop-Agrees f packet 0 5 16 refl in
    rw idle
      ((λ h i small. to h i (omega arith) (omega arith), λ h. from (λ j _ small. h j small)), refl)
