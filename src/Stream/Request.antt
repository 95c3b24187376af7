-- ===== src/Stream/Request.antt =====
-- `processStreamingRequest` of src/Stream.cpp.
use satpi.Base.{
  ℕ, ◌+◌, ◌-◌, ◌^◌, Bool, true, false, not, ◌&&◌, ◌||◌, if◌then◌else◌, ◌==◌, Option, none, some,
  List, [], ◌∷◌, ◌++◌, get_or, ◌>>=◌, ℤ, pos, negsuc,
}
use satpi.Text.{codes, contains, split, stoi, Stoi, value, negative, is_digit}
use satpi.Text.Search.{text_eq, not_empty}
use satpi.Params.{
  get_parameter, get_field_parameter, get_string_field_parameter, get_int_field_parameter,
}
use satpi.Message.{
  SocketClient, crlf, get_headers, get_method, has_transport_parameters, get_transport_parameters,
  spoof_header_with,
}
use satpi.StreamClient
use satpi.StreamClient.{
  StreamClient, SessionTimeoutCheck, watchdog_check, file_descriptor, teardown_check,
}
use satpi.Stream.{
  Stream, StreamingType, Device, Output, update_client, no_type, http, rtsp_unicast, rtsp_multicast,
  rtp_tcp,
}

-- The value of `std::stoi`, or none where it throws.
abbrev pub int : Stoi → Option ℤ
int (value n) = some (pos n)
int (negative n) = some (negsuc (n - 1))
int _ = none

abbrev pub multicast_header : List (List ℕ) → Option (List ℕ)
multicast_header (address ∷ rtp ∷ rtcp ∷ ttl ∷ []) = some (
    codes "Transport: RTP/AVP;multicast;destination="
    ++ (address
        ++ (codes ";port=" ++ (rtp ++ (codes "-" ++ (rtcp ++ (codes ";ttl=" ++ (ttl ++ crlf))))))))
multicast_header parts = none

abbrev pub is_no_type : StreamingType → Bool
is_no_type no_type = true
is_no_type _ = false

-- The number of a port, or the default where it does not begin with a digit.
abbrev pub port_or : ℕ → List ℕ → Option ℤ
port_or default port = if is_digit (get_or port 0 0) then int (stoi port) else some (pos default)

module _ {D O : Type 0} where
  -- The sequence number and the user agent that the headers name.
  unfoldable pub save_headers : List (List ℕ) → ℕ → Stream D O → Option (Stream D O)
  unfolding get_field_parameter stoi StreamClient.set_cseq StreamClient.set_user_agent
  save_headers headers client_id s =
      let cseq = get_field_parameter (codes "CSeq") headers in
      let user_agent = get_field_parameter (codes "User-Agent") headers in
      do
        s' ←
            if not_empty cseq
            then int (stoi cseq)
              >>= (λ n. some (update_client client_id (StreamClient.set_cseq n) s))
            else some s
        some (
            if not_empty user_agent
            then update_client client_id (StreamClient.set_user_agent user_agent) s'
            else s')

  abbrev pub set_type : ℕ → StreamingType → SessionTimeoutCheck → Stream D O → Stream D O
  set_type client_id t check s =
      update_client client_id (StreamClient.set_session_timeout_check check)
        (record s { streaming_type = t })

  abbrev pub stream_at_socket : (ℕ → List ℕ) → ℕ → Stream D O → Stream D O
  stream_at_socket ip_of client_id s =
      update_client client_id
        (StreamClient.set_ip_address_of_stream
          (StreamClient.get_ip_address_of_socket ip_of (s.client client_id)))
        s

  -- The spoofed header takes its place among the headers.
  abbrev pub multicast_transport :
      Option (List ℕ) → SocketClient → ℕ → Stream D O → Stream D O × List (List ℕ)
  multicast_transport none client client_id s = (s, get_headers client)
  multicast_transport (some header) client client_id s = (
    set_type client_id rtsp_multicast teardown_check s,
    get_headers (spoof_header_with header client),
  )

  -- The transport that a request over HTTP gets, and its headers from there on.
  unfoldable pub http_transport :
      (ℕ → List ℕ) → SocketClient → List (List ℕ) → ℕ → Stream D O → Stream D O × List (List ℕ)
  unfolding get_parameter split get_headers spoof_header_with StreamClient.set_session_timeout_check
      StreamClient.set_ip_address_of_stream StreamClient.get_ip_address_of_socket
  http_transport ip_of client params client_id s =
      let multicast = get_parameter (codes "multicast") params in
      let sh =
        if not_empty multicast
        then multicast_transport (multicast_header (split multicast (codes ","))) client client_id s
        else (set_type client_id http file_descriptor s, get_headers client) in
      (stream_at_socket ip_of client_id sh.0, sh.1)

  -- The transport that a request over RTSP asks for.
  unfoldable pub rtsp_transport : List ℕ → ℕ → Stream D O → Stream D O
  unfolding contains StreamClient.set_session_timeout_check
  rtsp_transport transport client_id s =
      if contains (codes "unicast") transport
      then set_type client_id
          (if contains (codes "RTP/AVP") transport then rtsp_unicast else s.streaming_type)
          watchdog_check s
      else if contains (codes "multicast") transport
      then set_type client_id rtsp_multicast teardown_check s
      else if contains (codes "RTP/AVP/TCP") transport
      then set_type client_id rtp_tcp watchdog_check s
      else s

  unfoldable pub set_transport :
      (ℕ → List ℕ)
      → SocketClient
      → List ℕ
      → List (List ℕ)
      → ℕ
      → Stream D O
      → Stream D O × List (List ℕ)
  unfolding http_transport rtsp_transport get_field_parameter get_headers text_eq
  set_transport ip_of client method params client_id s =
      let headers = get_headers client in
      if not (is_no_type s.streaming_type)
      then (s, headers)
      else if text_eq method (codes "GET")
      then http_transport ip_of client params client_id s
      else (rtsp_transport (get_field_parameter (codes "Transport") headers) client_id s, headers)

  -- The sockets for RTP and RTCP; a port is an `int`.
  abbrev pub set_ports : List ℕ → ℕ → ℕ → ℤ → ℕ → Stream D O → Stream D O
  set_ports ip rtp rtcp ttl client_id s =
      update_client client_id (StreamClient.setup_sockets ip rtp rtcp ttl) s

  abbrev pub unicast_at : (ℕ → List ℕ) → Option ℤ → ℕ → Stream D O → Option (Stream D O)
  unicast_at ip_of none client_id s = none
  unicast_at ip_of (some (negsuc n)) client_id s = some s
  unicast_at ip_of (some (pos port)) client_id s =
      let s' = stream_at_socket ip_of client_id s in
      if port + 1 == 2 ^ 31
      then none
      else some (set_ports (s'.client client_id).ip_address port (port + 1) (pos 1) client_id s')

  unfoldable pub set_unicast : (ℕ → List ℕ) → List (List ℕ) → ℕ → Stream D O → Option (Stream D O)
  unfolding get_int_field_parameter StreamClient.setup_sockets StreamClient.set_ip_address_of_stream
      StreamClient.get_ip_address_of_socket
  set_unicast ip_of headers client_id s =
      unicast_at ip_of
        (int (get_int_field_parameter (codes "Transport") (codes "client_port") headers)) client_id
        s

  abbrev pub set_both_ports :
      List ℕ → Option ℤ → Option ℤ → ℤ → ℕ → Stream D O → Option (Stream D O)
  set_both_ports dest (some (pos rtp)) (some (pos rtcp)) ttl client_id s =
      some (set_ports dest rtp rtcp ttl client_id s)
  set_both_ports dest rtp rtcp ttl client_id s = none

  abbrev pub set_multicast_ports : List ℕ → List (List ℕ) → ℤ → ℕ → Stream D O → Option (Stream D O)
  set_multicast_ports dest (rtp ∷ rtcp ∷ []) ttl client_id s =
      set_both_ports dest (port_or 15000 rtp) (port_or 15001 rtcp) ttl client_id s
  set_multicast_ports dest ports ttl client_id s = some s

  unfoldable pub set_multicast : List (List ℕ) → ℕ → Stream D O → Option (Stream D O)
  unfolding get_string_field_parameter get_int_field_parameter split stoi StreamClient.setup_sockets
      StreamClient.set_ip_address_of_stream
  set_multicast headers client_id s =
      let dest = get_string_field_parameter (codes "Transport") (codes "destination") headers in
      let ports = get_string_field_parameter (codes "Transport") (codes "port") headers in
      let s' =
        if not_empty dest
        then update_client client_id (StreamClient.set_ip_address_of_stream dest) s
        else s in
      do
        ttl ← int (get_int_field_parameter (codes "Transport") (codes "ttl") headers)
        set_multicast_ports dest (split ports (codes "-")) ttl client_id s'

  abbrev pub interleaved_at : (ℕ → List ℕ) → Option ℤ → ℕ → Stream D O → Option (Stream D O)
  interleaved_at ip_of none client_id s = none
  interleaved_at ip_of (some (negsuc n)) client_id s = some s
  interleaved_at ip_of (some (pos n)) client_id s = some (stream_at_socket ip_of client_id s)

  unfoldable pub set_interleaved :
      (ℕ → List ℕ) → List (List ℕ) → ℕ → Stream D O → Option (Stream D O)
  unfolding get_int_field_parameter StreamClient.set_ip_address_of_stream
      StreamClient.get_ip_address_of_socket
  set_interleaved ip_of headers client_id s =
      interleaved_at ip_of
        (int (get_int_field_parameter (codes "Transport") (codes "interleaved") headers)) client_id
        s

  -- The `switch` on the streaming type.
  abbrev pub set_addresses :
      (ℕ → List ℕ) → StreamingType → List (List ℕ) → ℕ → Stream D O → Option (Stream D O)
  set_addresses ip_of rtp_tcp headers client_id s = set_interleaved ip_of headers client_id s
  set_addresses ip_of rtsp_unicast headers client_id s = set_unicast ip_of headers client_id s
  set_addresses ip_of rtsp_multicast headers client_id s = set_multicast headers client_id s
  set_addresses ip_of t headers client_id s = some s

abbrev pub is_tuning : List ℕ → Bool
is_tuning method =
    text_eq method (codes "SETUP") || text_eq method (codes "PLAY") || text_eq method (codes "GET")

module _ {D O : Type 0} (dev : Device D) (out : Output O) where
  -- The device gets the parameters, and the output is paused where they change the channel.
  unfoldable pub tune : Bool → List (List ℕ) → ℕ → Stream D O → Stream D O
  tune tunes params client_id s =
      let s' = if tunes then record s { device = dev.parse_stream_string params s.device } else s in
      if dev.has_data_changed s'.device
      then record s' {
        streaming = elim s'.streaming [
          | none ↦ none
          | some o ↦ some (out.pause_streaming client_id o)
        ];
      }
      else s'

  -- `now` is the time, and `ip_of` the address of each socket.
  unfoldable pub process_streaming_request :
      ℕ → (ℕ → List ℕ) → SocketClient → ℕ → Stream D O → Option (Stream D O)
  unfolding save_headers get_transport_parameters get_method has_transport_parameters tune
      set_transport set_interleaved set_unicast set_multicast StreamClient.restart_watch_dog
  process_streaming_request now ip_of client client_id s = do
    s1 ← save_headers (get_headers client) client_id s
    params ← get_transport_parameters client
    method ← get_method client
    let s2 = tune (is_tuning method && has_transport_parameters client) params client_id s1
    let sh = set_transport ip_of client method params client_id s2
    s3 ← set_addresses ip_of sh.0.streaming_type sh.1 client_id sh.0
    some (update_client client_id (StreamClient.restart_watch_dog now) s3)
