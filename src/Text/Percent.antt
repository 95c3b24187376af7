-- ===== src/Text/Percent.antt =====
-- `getPercentDecoding` of src/StringConverter.cpp.
use satpi.Base.{
  ℕ, zero, suc, ◌+◌, ◌-◌, ◌*◌, Bool, ◌&&◌, ◌||◌, if◌then◌else◌, ◌==◌, ltb, leb, Option, none, some,
  List, ◌∷◌, ◌++◌, length, take, drop, get_or,
}
use satpi.Text.{find_index, shifted, is_digit}

abbrev pub is_alpha : ℕ → Bool
is_alpha c = (leb 65 c && leb c 90) || (leb 97 c && leb c 122)

-- The value of a hexadecimal digit, if it is one.
abbrev pub hex_digit : ℕ → Option ℕ
hex_digit c =
    if is_digit c
    then some (c - 48)
    else if leb 65 c && leb c 70
    then some (c - 55)
    else if leb 97 c && leb c 102
    then some (c - 87)
    else none

-- `std::stoi(sub, 0, 16)` of two characters, the first a digit: what follows a character that is no
-- hexadecimal digit is left out.
abbrev pub hex_pair : ℕ → ℕ → ℕ
hex_pair c1 c2 = elim (hex_digit c2) [ none ↦ c1 - 48 | some v ↦ (c1 - 48) * 16 + v ]

-- Rounds of the loop; `n` is behind the last percent sign that was looked at. Each round moves it on
-- by one at least while the text does not grow.
unfoldable pub decode_loop : ℕ → List ℕ → ℕ → List ℕ
decode_loop zero decoded n = decoded
decode_loop (suc fuel) decoded n = elim (shifted n (find_index (λ c. c == 37) (drop n decoded))) [
  | none ↦ decoded
  | some p ↦
      let c1 = get_or decoded (p + 1) 0 in
      let c2 = get_or decoded (p + 2) 0 in
      let replaced =
        decode_loop fuel (take p decoded ++ (hex_pair c1 c2 ∷ drop (p + 3) decoded)) (p + 1) in
      let erased = decode_loop fuel (take p decoded ++ drop (p + 1) decoded) (p + 3) in
      let skipped = decode_loop fuel decoded (p + 1) in
      if ltb (length decoded) (p + 3)
      then decoded
      else if is_digit c1 && (is_digit c2 || is_alpha c2)
      then replaced
      else if c1 == 37 && is_digit c2
      then erased
      else skipped
]

unfoldable pub get_percent_decoding : List ℕ → List ℕ
unfolding decode_loop find_index
get_percent_decoding msg = decode_loop (length msg + 1) msg 0
