-- ===== src/M3u.antt =====
-- src/base/M3UParser.{h,cpp} and Tokenizer.h: the mapping file of a transformation, which is given as
-- its lines. What is used of floating point is a parameter, and so is `atof`. `none` is an exception.
use satpi.Base.{
  ℕ, Bool, true, false, not, ◌&&◌, if◌then◌else◌, ◌==◌, Option, none, some, List, [], ◌∷◌, length,
  take, drop, ◌>>=◌, ℤ, negsuc,
}
use satpi.Text.{codes, is_one_of, contains, find_index, starts_with}
use satpi.Text.Search.{not_empty}
use satpi.FrontendData.{Doubles}

pub record Element : Type 0 where
  pub uri : List ℕ
  pub src : ℤ

abbrev pub no_element : Element
no_element = record { uri = []; src = negsuc 0 }

-- All tokens of a text, also empty ones.
abbrev pub first_token : Bool → ℕ → List (List ℕ) → List (List ℕ)
first_token true c tokens = [] ∷ tokens
first_token false c [] = (c ∷ []) ∷ []
first_token false c (t ∷ tokens) = (c ∷ t) ∷ tokens

unfoldable pub tokens_of : List ℕ → List ℕ → List (List ℕ)
tokens_of delimiters [] = [] ∷ []
tokens_of delimiters (c ∷ s) =
    let rest = tokens_of delimiters s in first_token (is_one_of delimiters c) c rest

abbrev pub head_of : List (List ℕ) → List ℕ
head_of [] = []
head_of (t ∷ tokens) = t

abbrev pub tail_of : List (List ℕ) → List (List ℕ)
tail_of [] = []
tail_of (t ∷ tokens) = tokens

-- What stands up to the next quotation mark behind the token.
abbrev pub up_to : List ℕ → Option ℕ → List ℕ
up_to s none = []
up_to s (some end) = take end s

unfoldable pub find_and_parse_token : List ℕ → List ℕ → List ℕ
unfolding find_index
find_and_parse_token str find_token =
    let s = drop (length find_token) str in
    if starts_with find_token str then up_to s (find_index (λ c. c == 34) s) else []

abbrev pub without_cr : List ℕ → List ℕ
without_cr [] = []
without_cr (c ∷ s) = let rest = without_cr s in if c == 13 then rest else c ∷ rest

abbrev pub element_or_none : Option Element → Element
element_or_none none = no_element
element_or_none (some e) = e

module _ {R : Type 0} (dbl : Doubles R) where
  unfoldable pub find_element : R → List (R × Element) → Option Element
  find_element freq [] = none
  find_element freq ((f, e) ∷ m3u) =
      let rest = find_element freq m3u in if dbl.same freq f then some e else rest

  abbrev pub exist : R → List (R × Element) → Bool
  exist freq m3u = elim (find_element freq m3u) [ none ↦ false | some e ↦ true ]

module _ {R : Type 0} (dbl : Doubles R) (atof : List ℕ → ℤ) where
  -- The tokens of a track up to a frequency that is mapped already.
  unfoldable pub parse_track : List (R × Element) → List (List ℕ) → ℤ → R → Option (ℤ × R)
  unfolding find_and_parse_token find_element
  parse_track m3u [] src freq = some (src, freq)
  parse_track m3u (token ∷ tokens) src freq =
      let src_str = find_and_parse_token token (codes "satip-src=\"") in
      let src' = if not_empty src_str then atof src_str else src in
      let freq_str = find_and_parse_token token (codes "satip-freq=\"") in
      let kept = parse_track m3u tokens src' freq in
      let next = λ (f : R). parse_track m3u tokens src' f in
      if not_empty freq_str
      then (do f ← dbl.stof freq_str; if exist dbl f m3u then some (src', freq) else next f)
      else kept

  -- The line behind a track with a frequency is its URI.
  abbrev pub add_element : Bool → ℤ → R → List ℕ → List (R × Element) → List (R × Element)
  add_element found src freq line m3u =
      if found && not_empty line
      then (freq, record { uri = without_cr line; src = src }) ∷ m3u
      else m3u

  -- `skip` tells that the line was taken as a URI.
  unfoldable pub parse_lines :
      Bool → List (List ℕ) → List (R × Element) → Option (List (R × Element))
  unfolding parse_track tokens_of
  parse_lines skip [] m3u = some m3u
  parse_lines true (line ∷ lines) m3u = parse_lines false lines m3u
  parse_lines false (line ∷ lines) m3u =
      let track = tokens_of (codes ": ") (head_of (tokens_of (codes ",") line)) in
      let passed = parse_lines false lines m3u in
      let next = λ (found : Bool) (src : ℤ) (f : R).
        parse_lines found lines (add_element found src f (head_of lines) m3u) in
      if contains (codes "#EXTINF") (head_of track)
      then (do
        (src, f) ← parse_track m3u (tail_of track) (negsuc 0) dbl.minus_one
        next (not (dbl.same f dbl.minus_one)) src f)
      else passed

  -- The map, and whether the file was parsed; of a file that is none the old map is cleared.
  unfoldable pub parse_m3u : List (List ℕ) → Option (List (R × Element) × Bool)
  unfolding parse_lines
  parse_m3u lines =
      if contains (codes "#EXTM3U") (head_of lines)
      then (do
        m3u ← parse_lines false (tail_of lines) []
        some (m3u, elim m3u [ [] ↦ false | e ∷ es ↦ true ]))
      else some ([], false)
