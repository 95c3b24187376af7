-- ===== src/Text/Search.antt =====
-- Further helpers of src/StringConverter.cpp, and the functions of `std::string` that the readers of
-- a request use: substrings, comparison, white space.
use satpi.Base.{
  ℕ, ◌+◌, ◌-◌, ◌≡◌, ◌↔◌, refl, arith, Bool, true, false, ◌&&◌, if◌then◌else◌, ◌==◌, ltb, leb,
  Option, none, some, List, [], ◌∷◌, length, take,
}
use mathlib.Core.List.{reverse}
use satpi.Text.{starts_with, is_space, skip_space, find_index}

-- `s == t` of two strings.
unfoldable pub text_eq : List ℕ → List ℕ → Bool
text_eq [] [] = true
text_eq [] (d ∷ t) = false
text_eq (c ∷ s) [] = false
text_eq (c ∷ s) (d ∷ t) = let rest = text_eq s t in if c == d then rest else false

-- `s.find(part, 0)`; `none` is `npos`.
unfoldable pub find_sub : List ℕ → List ℕ → Option ℕ
find_sub part [] = if starts_with part [] then some 0 else none
find_sub part (c ∷ s) =
    let rest = find_sub part s in
    if starts_with part (c ∷ s) then some 0 else elim rest [ none ↦ none | some i ↦ some (i + 1) ]

abbrev pub not_empty : List ℕ → Bool
not_empty [] = false
not_empty (c ∷ s) = true

-- The second loop of `trimWhitespace`, over the text in reverse: it stops at one character.
unfoldable pub trim_trailing : List ℕ → List ℕ
trim_trailing [] = []
trim_trailing (c ∷ []) = c ∷ []
trim_trailing (c ∷ d ∷ s) =
    let rest = trim_trailing (d ∷ s) in if is_space c then rest else c ∷ d ∷ s

unfoldable pub trim_whitespace : List ℕ → List ℕ
unfolding skip_space trim_trailing
trim_whitespace s = reverse (trim_trailing (reverse (skip_space s)))

-- `std::toupper` in the locale "C".
abbrev pub to_upper : ℕ → ℕ
to_upper c = if leb 97 c && leb c 122 then c - 32 else c

-- `getline(msg, begin, delim)` with `begin` at 0 and a delimiter of two characters: the line.
unfoldable pub first_line : List ℕ → List ℕ → List ℕ → List ℕ
unfolding find_sub
first_line crlf delim msg = elim (find_sub delim msg) [
  | some end ↦ if ltb 2 end then take end msg else crlf
  | none ↦ if ltb 2 (length msg) then msg else []
]

-- `s.find_last_of(c)`, and `npos + 1` is 0.
unfoldable pub behind_last : ℕ → List ℕ → ℕ
unfolding find_index
behind_last c s = elim (find_index (λ d. d == c) (reverse s)) [ none ↦ 0 | some i ↦ length s - i ]

pub text_eq_iff : (s t : List ℕ) → (text_eq s t ≡ true) ↔ (s ≡ t)
unfolding text_eq
text_eq_iff [] [] = ((λ h. refl), (λ h. refl))
text_eq_iff [] (d ∷ t) = ((λ h. absurd (cc)), (λ h. absurd (cc)))
text_eq_iff (c ∷ s) [] = ((λ h. absurd (cc)), (λ h. absurd (cc)))
text_eq_iff (c ∷ s) (d ∷ t) =
    let ih = text_eq_iff s t in
    (
      (λ h. ground (arith, ih.0)),
      (λ h. let e : c ≡ d = cc in let r : s ≡ t = cc in rw (e, ih.1 r) (ground arith)),
    )
