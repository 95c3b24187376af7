-- ===== src/HttpcServer.antt =====
-- `process` and `processStreamingRequest` of src/HttpcServer.cpp, with the replies of
-- src/RtspServer.cpp told apart, but not their text. `none` is an exception that ends the thread, or
-- an undefined read.
mod Tests
pub mod Sessions
pub mod Reach
use satpi.Base.{
  ℕ, ◌+◌, Bool, true, false, not, ◌&&◌, ◌||◌, if◌then◌else◌, Option, none, some, List, [], ◌∷◌,
  get_elem?, ◌>>=◌, ℤ, pos, negsuc,
}
use satpi.Text.{codes, stoi}
use satpi.Text.Search.{text_eq, not_empty}
use satpi.Params.{get_parameter, get_field_parameter, get_int_parameter}
use satpi.Message.{
  SocketClient, get_headers, get_method, get_protocol, get_transport_parameters,
  has_transport_parameters,
}
use satpi.Stream
use satpi.Stream.{
  Stream, StreamingType, Device, Output, update_stream, rtsp_unicast, rtsp_multicast, rtp_tcp,
}
use satpi.Stream.Request.{int, process_streaming_request}
use satpi.StreamManager
use satpi.StreamManager.{find_stream_and_client_id_for, find_frontend_id_with_stream_id, set, Found}

pub data Reply : Type 0 where
  options : List ℕ → ℤ → Reply
  describe : List ℕ → ℤ → Option ℕ → Reply
  setup_ok : StreamingType → Reply
  unsupported_transport : Reply
  play_ok : Reply
  teardown_ok : List ℕ → ℤ → Reply
  video : Reply
  multicast_setup : Reply
  request_timeout : Reply
  service_unavailable : Reply
  no_reply : Reply

abbrev pub method_setup : StreamingType → Reply
method_setup rtp_tcp = setup_ok rtp_tcp
method_setup rtsp_unicast = setup_ok rtsp_unicast
method_setup rtsp_multicast = setup_ok rtsp_multicast
method_setup t = unsupported_transport

module _ {D O : Type 0} (dev : Device D) (out : Output O) where
  -- The stream is updated, and given up where that fails.
  unfoldable pub update_or_teardown : ℕ → Reply → Stream D O → Stream D O × Reply
  update_or_teardown client_id reply s =
      let (s', done) = update_stream dev out client_id s in
      if done then (s', reply) else (Stream.teardown dev client_id s', request_timeout)

  -- What the method does to the stream that was found.
  unfoldable pub run_method :
      List ℕ → List (List ℕ) → List ℕ → ℤ → Option ℕ → ℕ → Stream D O → Stream D O × Reply
  unfolding text_eq get_parameter update_or_teardown
  run_method method params session_id cseq fe_index client_id s =
      if text_eq method (codes "GET")
      then (
        (update_stream dev out client_id s).0,
        if not_empty (get_parameter (codes "multicast") params) then multicast_setup else video,
      )
      else if text_eq method (codes "SETUP")
      then update_or_teardown client_id (method_setup s.streaming_type) s
      else if text_eq method (codes "PLAY")
      then update_or_teardown client_id play_ok s
      else if text_eq method (codes "TEARDOWN")
      then (Stream.teardown dev client_id s, teardown_ok session_id cseq)
      else if text_eq method (codes "OPTIONS")
      then (s, options session_id cseq)
      else if text_eq method (codes "DESCRIBE")
      then (s, describe session_id cseq fe_index)
      else (s, no_reply)

  -- What is done with the stream and the client that were found.
  unfoldable pub serve :
      ℕ
      → (ℕ → List ℕ)
      → SocketClient
      → List ℕ
      → List (List ℕ)
      → List ℕ
      → ℤ
      → Option ℕ
      → List (Stream D O)
      → Found D O
      → Option (List (Stream D O) × Reply)
  unfolding run_method process_streaming_request
  serve now ip_of client method params session_id cseq fe_index streams none =
      some (streams, service_unavailable)
  serve now ip_of client method params session_id cseq fe_index streams
        (some (streams', i, client_id)) =
      do
        s ← get_elem? streams' i
        s' ← process_streaming_request dev out now ip_of client client_id s
        let sr = run_method method params session_id cseq fe_index client_id s'
        some (set streams' i sr.0, sr.1)

  -- The streams after a request, and the reply to it.
  unfoldable pub process_request :
      List ℕ
      → ℕ
      → (ℕ → List ℕ)
      → SocketClient
      → List (Stream D O)
      → Option (List (Stream D O) × Reply)
  unfolding get_headers get_transport_parameters get_field_parameter stoi get_int_parameter
      find_frontend_id_with_stream_id get_method serve find_stream_and_client_id_for text_eq
  process_request fresh now ip_of client streams = do
    params ← get_transport_parameters client
    let field_cseq = get_field_parameter (codes "CSeq") (get_headers client)
    cseq ← if not_empty field_cseq then int (stoi field_cseq) else some (pos 0)
    let session_id = get_field_parameter (codes "Session") (get_headers client)
    stream_id ← int (get_int_parameter (codes "stream") params)
    let fe_index = find_frontend_id_with_stream_id stream_id streams
    method ← get_method client
    (if not (not_empty session_id) && text_eq method (codes "OPTIONS")
        then some (streams, options [] cseq)
        else if not (not_empty session_id) && text_eq method (codes "DESCRIBE")
        then some (streams, describe [] cseq fe_index)
        else find_stream_and_client_id_for dev fresh client streams
          >>= serve now ip_of client method params session_id cseq fe_index streams)

-- Who handles a message: `process`.
pub data Handler : Type 0 where
  streaming : Handler
  method_get : Bool → Handler
  method_post : Handler
  unknown : Handler

unfoldable pub process : SocketClient → Option Handler
unfolding get_method get_protocol has_transport_parameters text_eq
process client = do
  method ← get_method client
  let protocol = get_protocol client
  some (
      if not (not_empty method) || not (not_empty protocol)
      then unknown
      else if text_eq protocol (codes "RTSP")
      then streaming
      else if text_eq protocol (codes "HTTP")
      then if text_eq method (codes "GET") || text_eq method (codes "HEAD")
        then if has_transport_parameters client
          then streaming
          else method_get (text_eq method (codes "HEAD"))
        else if text_eq method (codes "POST")
        then method_post
        else unknown
      else unknown)
