-- ===== src/Text.antt =====
-- Text as lists of character codes: the part of src/StringConverter.cpp that requests are split
-- with, and the functions of the C++ standard library that it and its callers use.
pub mod Search
pub mod Percent
use satpi.Base.{
  ℕ, zero, suc, ◌+◌, ◌-◌, ◌*◌, ◌^◌, Bool, true, false, not, ◌&&◌, ◌||◌, if◌then◌else◌, ◌==◌, ltb,
  leb, Option, none, some, List, [], ◌∷◌, ◌++◌, length, take, drop,
}
use Prim.Native.Char.{code}
use Prim.Native.String.{String}

-- The codes of a literal.
abbrev pub codes : String → List ℕ
codes String.[] = []
codes (String.◌∷◌ c s) = code c ∷ codes s

abbrev pub is_one_of : List ℕ → ℕ → Bool
is_one_of [] c = false
is_one_of (d ∷ ds) c = c == d || is_one_of ds c

-- The first position at which the test holds.
unfoldable pub find_index : (ℕ → Bool) → List ℕ → Option ℕ
find_index p [] = none
find_index p (c ∷ s) =
    let rest = find_index p s in
    if p c then some 0 else elim rest [ none ↦ none | some i ↦ some (i + 1) ]

abbrev pub shifted : ℕ → Option ℕ → Option ℕ
shifted n none = none
shifted n (some i) = some (n + i)

-- `find_first_of(delimiters, start)` and `find_first_not_of`; `none` is `npos`.
unfoldable pub find_first_of : List ℕ → List ℕ → ℕ → Option ℕ
unfolding find_index
find_first_of s delimiters start = shifted start (find_index (is_one_of delimiters) (drop start s))

unfoldable pub find_first_not_of : List ℕ → List ℕ → ℕ → Option ℕ
unfolding find_index
find_first_not_of s delimiters start =
    shifted start (find_index (λ c. not (is_one_of delimiters c)) (drop start s))

-- A substring that begins at `s`.
abbrev pub starts_with : List ℕ → List ℕ → Bool
starts_with [] s = true
starts_with (c ∷ cs) [] = false
starts_with (c ∷ cs) (d ∷ s) = c == d && starts_with cs s

-- `s.find(part) != npos`.
unfoldable pub contains : List ℕ → List ℕ → Bool
contains part [] = starts_with part []
contains part (c ∷ s) = starts_with part (c ∷ s) || contains part s

-- The loop of `split`, with the tokens found so far; each round but the last begins at a character
-- behind the one before, so as many rounds as there are characters are enough.
unfoldable pub split_loop : ℕ → List ℕ → List ℕ → ℕ → List (List ℕ) → List (List ℕ)
split_loop zero input delimiters start tokens = tokens
split_loop (suc fuel) input delimiters start tokens =
    let end : ℕ = elim (find_first_of input delimiters start) [
      | none ↦ length input
      | some e ↦ e
    ] in
    let token = take (end - start) (drop start input) in
    let tokens' = if length token == 0 then tokens else tokens ++ (token ∷ []) in
    elim (find_first_not_of input delimiters end) [
      | none ↦ tokens'
      | some next ↦ split_loop fuel input delimiters next tokens'
    ]

unfoldable pub split : List ℕ → List ℕ → List (List ℕ)
unfolding split_loop find_first_of find_first_not_of
split input delimiters = split_loop (length input + 1) input delimiters 0 []

abbrev pub is_space : ℕ → Bool
is_space c = c == 32 || (leb 9 c && leb c 13)

abbrev pub is_digit : ℕ → Bool
is_digit c = leb 48 c && leb c 57

unfoldable pub skip_space : List ℕ → List ℕ
skip_space [] = []
skip_space (c ∷ s) = if is_space c then skip_space s else c ∷ s

-- The number that the leading digits stand for, onto `n`.
unfoldable pub digits_value : ℕ → List ℕ → ℕ
digits_value n [] = n
digits_value n (c ∷ s) =
    let rest = digits_value (n * 10 + (c - 48)) s in if is_digit c then rest else n

-- What `std::stoi` does: a value, or one of two exceptions.
pub data Stoi : Type 0 where
  value : ℕ → Stoi
  negative : ℕ → Stoi
  invalid_argument : Stoi
  out_of_range : Stoi

abbrev pub stoi_magnitude : Bool → List ℕ → Stoi
stoi_magnitude minus [] = invalid_argument
stoi_magnitude minus (c ∷ s) =
    let n = digits_value 0 (c ∷ s) in
    if not (is_digit c)
    then invalid_argument
    else if minus && not (n == 0)
    then if leb n (2 ^ 31) then negative n else out_of_range
    else if ltb n (2 ^ 31)
    then value n
    else out_of_range

abbrev pub stoi_sign : List ℕ → Stoi
stoi_sign [] = invalid_argument
stoi_sign (c ∷ s) =
    if c == 45
    then stoi_magnitude true s
    else if c == 43
    then stoi_magnitude false s
    else stoi_magnitude false (c ∷ s)

unfoldable pub stoi : List ℕ → Stoi
unfolding skip_space digits_value
stoi s = stoi_sign (skip_space s)
