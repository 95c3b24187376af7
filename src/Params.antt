-- ===== src/Params.antt =====
-- The parameters of a request, "name=value", and its header lines, "name: value":
-- src/TransportParamVector.cpp and src/HeaderVector.cpp. Parameters that are read as `double` are
-- not modelled.
pub mod Lookup
pub mod Dictionary
mod Tests
use satpi.Base.{
  ℕ, ◌+◌, Bool, true, false, not, ◌&&◌, ◌||◌, if◌then◌else◌, ◌==◌, Option, none, some, List, [],
  ◌∷◌, ◌++◌, length, take, drop, get_or,
}
use satpi.Text.{
  codes, contains, find_index, find_first_of, find_first_not_of, is_digit, split, Stoi, negative,
  stoi,
}
use satpi.Text.Search.{find_sub, text_eq, trim_whitespace}

-- What stands behind the separator, if the entry begins with the name and a separator.
unfoldable pub entry_value : ℕ → List ℕ → List ℕ → Option (List ℕ)
unfolding find_sub find_first_not_of find_index
entry_value sep name entry = elim (find_sub name entry) [
  | none ↦ none
  | some b ↦ elim (find_first_not_of entry name b) [
    | none ↦ none
    | some e ↦
        if length name == e && get_or entry e 0 == sep then some (drop (e + 1) entry) else none
  ]
]

-- The loops of `getParameter` and `getFieldParameter`.
unfoldable pub find_value : ℕ → List ℕ → List (List ℕ) → List ℕ
unfolding entry_value trim_whitespace
find_value sep name [] = []
find_value sep name (entry ∷ entries) = elim (entry_value sep name entry) [
  | some value ↦ trim_whitespace value
  | none ↦ find_value sep name entries
]

unfoldable pub get_parameter : List ℕ → List (List ℕ) → List ℕ
unfolding find_value
get_parameter parameter params = find_value 61 parameter params

unfoldable pub replace_parameter : List ℕ → List ℕ → List (List ℕ) → List (List ℕ)
unfolding entry_value
replace_parameter parameter value [] = (parameter ++ (61 ∷ value)) ∷ []
replace_parameter parameter value (param ∷ params) = elim (entry_value 61 parameter param) [
  | some old ↦ (take (length parameter + 1) param ++ value) ∷ params
  | none ↦ param ∷ replace_parameter parameter value params
]

-- `-1` is `negative 1`; the number may be out of range, which throws.
abbrev pub int_of : List ℕ → Stoi
int_of [] = negative 1
int_of (c ∷ s) = if is_digit c then stoi (c ∷ s) else negative 1

unfoldable pub get_int_parameter : List ℕ → List (List ℕ) → Stoi
unfolding get_parameter stoi
get_int_parameter parameter params = int_of (get_parameter parameter params)

pub data InputSystem : Type 0 where
  undefined dvbt dvbs dvbs2 dvbs2x dvbt2 dvbc file_src streamer childpipe iptv : InputSystem

abbrev pub msys_of : List ℕ → InputSystem
msys_of val =
    if text_eq val (codes "dvbs2") || text_eq val (codes "dvbs2x")
    then dvbs2
    else if text_eq val (codes "dvbs")
    then dvbs
    else if text_eq val (codes "dvbt")
    then dvbt
    else if text_eq val (codes "dvbt2")
    then dvbt2
    else if text_eq val (codes "dvbc")
    then dvbc
    else if text_eq val (codes "file")
    then file_src
    else if text_eq val (codes "streamer")
    then streamer
    else if text_eq val (codes "childpipe")
    then childpipe
    else undefined

unfoldable pub get_msys_parameter : List (List ℕ) → InputSystem
unfolding get_parameter text_eq
get_msys_parameter params = msys_of (get_parameter (codes "msys") params)

-- What stands between the first two quotation marks of the value.
unfoldable pub get_uri_parameter : List ℕ → List (List ℕ) → List ℕ
unfolding get_parameter find_first_of
get_uri_parameter parameter params =
    let line = get_parameter parameter params in
    elim (find_first_of line (34 ∷ []) 0) [
      | none ↦ []
      | some b ↦ elim (find_index (λ c. c == 34) (drop (b + 1) line)) [
        | none ↦ []
        | some n ↦ take n (drop (b + 1) line)
      ]
    ]

unfoldable pub get_field_parameter : List ℕ → List (List ℕ) → List ℕ
unfolding find_value
get_field_parameter req_header headers = find_value 58 req_header headers

abbrev pub second_of_two : List (List ℕ) → List ℕ
second_of_two (a ∷ b ∷ []) = trim_whitespace b
second_of_two parts = []

-- The first part of a field that holds the parameter decides.
unfoldable pub field_part : List ℕ → List (List ℕ) → List ℕ
unfolding split trim_whitespace contains
field_part parameter [] = []
field_part parameter (param ∷ params) =
    let rest = field_part parameter params in
    if contains parameter param then second_of_two (split param (codes "=")) else rest

unfoldable pub get_string_field_parameter : List ℕ → List ℕ → List (List ℕ) → List ℕ
unfolding get_field_parameter field_part split
get_string_field_parameter header parameter headers =
    field_part parameter (split (get_field_parameter header headers) (59 ∷ 13 ∷ 10 ∷ []))

unfoldable pub get_int_field_parameter : List ℕ → List ℕ → List (List ℕ) → Stoi
unfolding get_string_field_parameter stoi
get_int_field_parameter header parameter headers =
    int_of (get_string_field_parameter header parameter headers)
