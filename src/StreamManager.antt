-- ===== src/StreamManager.antt =====
-- src/StreamManager.cpp: the streams, and which of them a request gets. The random number of a new
-- session is an argument, `fresh`; `none` is an exception that leaves the operation, or an undefined
-- read.
pub mod First
use satpi.Base.{
  ℕ, zero, suc, ◌+◌, ◌-◌, Bool, true, false, not, ◌&&◌, ◌||◌, if◌then◌else◌, ◌==◌, ltb, leb, Option,
  none, some, List, [], ◌∷◌, length, get_elem?, ◌>>=◌, ℤ, pos, negsuc,
}
use satpi.Text.{codes}
use satpi.Text.Search.{not_empty}
use satpi.Params.{get_field_parameter, get_int_parameter}
use satpi.Message.{SocketClient, get_headers, get_transport_parameters, has_transport_parameters}
use satpi.StreamClient
use satpi.Stream
use satpi.Stream.{Stream, Device, get_stream_id, update_client}
use satpi.Stream.Request.{int}

abbrev pub is_minus_one : ℤ → Bool
is_minus_one (pos n) = false
is_minus_one (negsuc n) = n == 0

-- What a search gives: the streams after it, the position of the stream and its client.
abbrev pub Found : Type 0 → Type 0 → Type 0
Found D O = Option (List (Stream D O) × ℕ × ℕ)

module _ {D O : Type 0} where
  abbrev pub has_stream_id : ℤ → Stream D O → Bool
  has_stream_id (pos id) s = get_stream_id s == id
  has_stream_id (negsuc n) s = false

  unfoldable pub find_frontend_id_with_stream_id : ℤ → List (Stream D O) → Option ℕ
  find_frontend_id_with_stream_id id [] = none
  find_frontend_id_with_stream_id id (s ∷ streams) =
      let rest = find_frontend_id_with_stream_id id streams in
      if has_stream_id id s then some s.index else rest

  abbrev pub in_range : ℤ → List (Stream D O) → Option ℕ
  in_range (pos fe_id) streams =
      if leb 1 fe_id && leb fe_id (length streams) then some (fe_id - 1) else none
  in_range (negsuc n) streams = none

  -- The index of the frontend that the parameters name, if they name one.
  unfoldable pub find_frontend_id : List (List ℕ) → List (Stream D O) → Option (Option ℕ)
  unfolding find_frontend_id_with_stream_id get_int_parameter
  find_frontend_id params streams = do
    stream_id ← int (get_int_parameter (codes "stream") params)
    fe_id ← int (get_int_parameter (codes "fe") params)
    some (
        if not (is_minus_one stream_id) && is_minus_one fe_id
        then find_frontend_id_with_stream_id stream_id streams
        else in_range fe_id streams)

  -- The stream at a position is exchanged.
  abbrev pub set : List (Stream D O) → ℕ → Stream D O → List (Stream D O)
  set [] i s = []
  set (t ∷ streams) zero s = s ∷ streams
  set (t ∷ streams) (suc i) s = t ∷ set streams i s

  -- A stream that was passed by.
  abbrev pub later : Stream D O → Found D O → Found D O
  later s none = none
  later s (some (streams, i, client_id)) = some (s ∷ streams, suc i, client_id)

  abbrev pub set_session : List ℕ → Stream D O × ℕ → Stream D O
  set_session session_id (s, client_id) =
      update_client client_id (StreamClient.set_session_id session_id) s

  module _ (dev : Device D) (socket : ℕ) (params : List (List ℕ)) (new_session : Bool)
      (session_id : List ℕ) where
    -- The loop over all streams.
    unfoldable pub find_in : List (Stream D O) → Found D O
    find_in [] = none
    find_in (s ∷ streams) =
        elim (Stream.find_client_id_for dev socket params new_session session_id s) [
          | some (s', client_id) ↦
              some (set_session session_id (s', client_id) ∷ streams, 0, client_id)
          | none ↦ later s (find_in streams)
        ]

    -- The stream that is asked for, then all.
    unfoldable pub find_from : ℕ → List (Stream D O) → Option (Found D O)
    unfolding find_in
    find_from fe_index streams = do
      s ← get_elem? streams fe_index
      elim (Stream.find_client_id_for dev socket params new_session session_id s) [
        | some (s', client_id) ↦ some (
            some
              (set streams fe_index (set_session session_id (s', client_id)), fe_index, client_id))
        | none ↦ some (find_in streams)
      ]

    abbrev pub find_at : Option ℕ → List (Stream D O) → Option (Found D O)
    find_at none streams = some (find_in streams)
    find_at (some fe_index) streams = find_from fe_index streams

  unfoldable pub find_stream_and_client_id_for :
      Device D → List ℕ → SocketClient → List (Stream D O) → Option (Found D O)
  unfolding get_headers get_transport_parameters has_transport_parameters get_field_parameter
      find_frontend_id find_from find_in StreamClient.set_session_id
  find_stream_and_client_id_for dev fresh client streams = do
    params ← get_transport_parameters client
    fe_index ← find_frontend_id params streams
    let session_id = get_field_parameter (codes "Session") (get_headers client)
    (if not_empty session_id
        then find_at dev client.socket params false session_id fe_index streams
        else if has_transport_parameters client
        then find_at dev client.socket params true fresh fe_index streams
        else some none)

  unfoldable pub check_for_session_timeout :
      Device D → ℕ → (ℕ → Bool) → List (Stream D O) → Option (List (Stream D O))
  check_for_session_timeout dev now closed [] = some []
  check_for_session_timeout dev now closed (s ∷ streams) = do
    s' ← if s.stream_in_use then Stream.check_for_session_timeout dev now closed s else some s
    streams' ← check_for_session_timeout dev now closed streams
    some (s' ∷ streams')
