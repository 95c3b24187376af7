-- ===== src/Message.antt =====
-- What src/socket/SocketClient.h reads from the text of a request. `none` is a read behind the text,
-- or of a line that is not there.
mod Tests
use satpi.Base.{
  ℕ, ◌+◌, ◌-◌, Bool, true, false, not, ◌&&◌, ◌||◌, if◌then◌else◌, ◌==◌, ltb, leb, Option, none,
  some, List, [], ◌∷◌, ◌++◌, map, length, take, drop, get_or, get_elem?, ◌>>=◌,
}
use satpi.Text.{codes, find_index, split, is_digit, stoi, value, Stoi}
use satpi.Text.Search.{find_sub, first_line, behind_last, to_upper, not_empty}
use satpi.Text.Percent.{get_percent_decoding}
use satpi.Params.{get_field_parameter}

abbrev pub crlf : List ℕ
crlf = 13 ∷ 10 ∷ []

-- The client of a socket: which one it is, its address and the message it sent.
pub record SocketClient : Type 0 where
  pub socket : ℕ
  pub ip_addr : List ℕ
  pub msg : List ℕ

unfoldable pub get_headers : SocketClient → List (List ℕ)
unfolding split
get_headers client = split client.msg crlf

unfoldable pub spoof_header_with : List ℕ → SocketClient → SocketClient
unfolding find_sub
spoof_header_with header client = elim (find_sub (crlf ++ crlf) client.msg) [
  | none ↦ client
  | some n ↦ record client { msg = take (n + 2) client.msg ++ (header ++ drop (n + 2) client.msg) }
]

abbrev pub skip_blanks : List ℕ → List ℕ
skip_blanks [] = []
skip_blanks (c ∷ s) = if c == 32 then skip_blanks s else c ∷ s

-- The loops read on till they find a blank.
abbrev pub up_to_blank : List ℕ → Option (List ℕ)
up_to_blank [] = none
up_to_blank (c ∷ s) =
    let rest = up_to_blank s in
    if c == 32 then some [] else elim rest [ none ↦ none | some m ↦ some (to_upper c ∷ m) ]

unfoldable pub get_method : SocketClient → Option (List ℕ)
unfolding get_headers
get_method client = do
  line ← get_elem? (get_headers client) 0
  if not_empty line then up_to_blank (skip_blanks line) else some []

unfoldable pub get_content_from : SocketClient → Option (List ℕ)
unfolding get_headers get_field_parameter find_sub stoi
get_content_from client =
    let p = get_field_parameter (codes "Content-Length") (get_headers client) in
    let content = elim (find_sub (crlf ++ crlf) client.msg) as (λ o. List ℕ) [
      | none ↦ []
      | some header_size ↦ drop (header_size + 4) client.msg
    ] in
    if not_empty p && is_digit (get_or p 0 0)
    then elim (stoi p) [
      | value content_length ↦ some (if ltb 0 content_length then content else [])
      | _ ↦ none
    ]
    else some []

abbrev pub mark_found : List ℕ → Option ℕ → Bool
mark_found line none = false
mark_found line (some found) =
    ltb (found + 1) (length line) && not (get_or line (found + 1) 0 == 32)

unfoldable pub has_transport_parameters : SocketClient → Bool
unfolding first_line find_index
has_transport_parameters client =
    let line = first_line (codes "<CRLF>") crlf client.msg in
    mark_found line (find_index (λ c. c == 63) line)

unfoldable pub get_transport_parameters : SocketClient → Option (List (List ℕ))
unfolding get_headers split get_percent_decoding
get_transport_parameters client = do
  line ← get_elem? (get_headers client) 0
  some (split (get_percent_decoding line) (codes " /?&"))

unfoldable pub get_protocol : SocketClient → List ℕ
unfolding first_line behind_last
get_protocol client =
    let line = first_line (codes "<CRLF>") crlf client.msg in
    let begin = behind_last 32 line in
    let end = behind_last 47 line in
    if end == 0
    then []
    else if ltb (end - 1) begin
    then drop begin line
    else take (end - 1 - begin) (drop begin line)
