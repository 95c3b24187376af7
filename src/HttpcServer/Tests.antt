-- ===== src/HttpcServer/Tests.antt =====
-- A session of one client, from SETUP to TEARDOWN, and instances of the theorems on streams.
use satpi.Base.{
  ℕ, ◌≡◌, ◌≢◌, refl, arith, ne→==, Bool, true, false, not, ◌&&◌, ◌||◌, some, none, Option, List, [],
  ◌∷◌, ◌++◌, ◌>>=◌, map, All, pos,
}
use native.Mathlib.Decide.{ℕ_discrete}
use satpi.Text.{codes}
use satpi.Text.Search.{text_eq, text_eq_iff}
use satpi.Params.{get_field_parameter}
use satpi.Message.{SocketClient, crlf, get_headers}
use satpi.StreamClient.{session_timeout, no_session, set_session_id, set_socket_client}
use satpi.Stream
use satpi.Stream.{Stream, Device, Output, new_stream, update_client, rtsp_unicast}
use satpi.Stream.Sound.{IsSound, new_stream-IsSound}
use satpi.Stream.Timeout.{check_for_session_timeout-IsSound}
use satpi.Stream.Strangers.{find_client_id_for_stranger}
use satpi.StreamManager.{find_at, check_for_session_timeout}
use satpi.StreamManager.First.{given, find_at-first}
use satpi.HttpcServer.{Reply, setup_ok, teardown_ok, process_request}
use satpi.HttpcServer.Reach.{here, request, Reach-IsSound}

-- A device that can do all, and is as it was.
abbrev device : Device Bool
device = record {
  capable_of = λ m d. true;
  capable_to_transform = λ p d. false;
  has_data_changed = λ d. d;
  parse_stream_string = λ p d. true;
  update_device = λ d. (false, true);
  teardown_device = λ d. false;
}

-- An output that knows whether it runs.
abbrev output : Output Bool
output = record {
  make = λ t. false;
  start_streaming = λ c o. (true, true);
  restart_streaming = λ c o. true;
  pause_streaming = λ c o. false;
}

abbrev lines : List (List ℕ) → List ℕ
lines [] = crlf
lines (l ∷ ls) = l ++ (crlf ++ lines ls)

abbrev message : List (List ℕ) → SocketClient
message ls = record { socket = 1; ip_addr = codes "10.0.0.2"; msg = lines ls }

abbrev setup : SocketClient
setup = message (
    codes "SETUP rtsp://10.0.0.1/?freq=170&msys=dvbc RTSP/1.0"
    ∷ codes "CSeq: 2"
    ∷ codes "Transport: RTP/AVP;unicast;client_port=5000-5001"
    ∷ [])

abbrev leave : SocketClient
leave = message (codes "TEARDOWN rtsp://10.0.0.1/stream=100 RTSP/1.0" ∷ codes "Session: 17" ∷ [])

abbrev two_streams : List (Stream Bool Bool)
two_streams = new_stream 0 false 7 ∷ new_stream 1 false 8 ∷ []

abbrev run : SocketClient → List (Stream Bool Bool) → Option (List (Stream Bool Bool) × Reply)
run client streams =
    process_request device output (codes "17") 1000 (λ k. codes "10.0.0.2") client streams

abbrev used : Option (List (Stream Bool Bool) × Reply) → Option (List Bool × Reply)
used r = do sr ← r; some (map (λ s. s.stream_in_use) sr.0, sr.1)

abbrev streams_of : Option (List (Stream Bool Bool) × Reply) → List (Stream Bool Bool)
streams_of none = []
streams_of (some (streams, reply)) = streams

first_stream : used (run setup two_streams) ≡ some (true ∷ false ∷ [], setup_ok rtsp_unicast)
unfolding process_request satpi.Stream.find_client_id_for satpi.Stream.update_stream
first_stream = refl

all_free :
    used (run leave (streams_of (run setup two_streams)))
    ≡ some (false ∷ false ∷ [], teardown_ok (codes "17") (pos 0))
unfolding process_request satpi.Stream.find_client_id_for satpi.Stream.update_stream Stream.teardown
all_free = refl

abbrev sent_setup : List (Stream Bool Bool)
sent_setup = streams_of (run setup two_streams)

two_streams-IsSound : All IsSound two_streams
two_streams-IsSound = (new_stream-IsSound 0 false 7, (new_stream-IsSound 1 false 8, tt))

differs : (a b : List ℕ) → text_eq a b ≡ false → a ≢ b
differs a b f h = let t = (text_eq_iff a b).1 h in absurd (cc)

served_setup : run setup two_streams ≡ some (sent_setup, setup_ok rtsp_unicast)
unfolding process_request satpi.Stream.find_client_id_for satpi.Stream.update_stream
served_setup = refl

Reach-IsSound_example :
    All IsSound sent_setup
    × ((checked : List (Stream Bool Bool)) × (check_for_session_timeout device 1000
            (λ socket. false)
            sent_setup
          ≡ some checked))
unfolding text_eq get_field_parameter get_headers
Reach-IsSound_example =
    Reach-IsSound device output 1000 (λ socket. false) two_streams-IsSound
      (request (codes "17") 1000 (λ k. codes "10.0.0.2") setup here
        (differs (codes "17") no_session refl)
        (differs (get_field_parameter (codes "Session") (get_headers setup)) no_session refl)
        served_setup)

-- The second stream is asked for.
find_at-first_example :
    find_at device 1 [] true (codes "17") (some 1) two_streams
    ≡ some (given device 1 (codes "17") two_streams (some 1))
find_at-first_example =
    find_at-first device 1 (codes "17") [] (some 1) two_streams two_streams-IsSound

check_for_session_timeout-IsSound_example :
    (s' : Stream Bool Bool) × (over : Bool) × (Stream.check_for_session_timeout device 1000
        (λ socket. false)
        (new_stream 0 false 7)
      ≡ some s')
    × IsSound s'
    × (session_timeout 1000 (λ socket. false) ((new_stream {O = Bool} 0 false 7).client 0)
        ≡ some over)
    × (s'.stream_in_use
        ≡ ((new_stream {O = Bool} 0 false 7).stream_in_use && not (over || not true)))
check_for_session_timeout-IsSound_example =
    check_for_session_timeout-IsSound 1000 (λ socket. false) device (new_stream 0 false 7)
      (new_stream-IsSound 0 false 7)

-- A stream of the session "17".
abbrev used_stream : Stream Bool Bool
used_stream = record (update_client 0 (set_session_id (codes "17")) (new_stream 0 false 7)) {
  stream_in_use = true;
}

used_stream-IsSound : IsSound used_stream
unfolding text_eq set_session_id
used_stream-IsSound = record {
  others = λ i lo hi. rw (ne→== i 0 (λ z. absurd (omega arith))) refl;
  owned = refl;
  idle = λ h. absurd (cc);
  sockets = λ i hi. elim (ℕ_discrete i 0) [
    | yes z ↦ rw z (λ h. absurd (cc))
    | no ne ↦ rw (ne→== i 0 ne) (λ h. absurd (cc))
  ];
}

find_client_id_for_stranger_example :
    Stream.find_client_id_for device 3 [] false no_session used_stream
    ≡ some (record (update_client 1 (set_socket_client 3) used_stream) { stream_in_use = true }, 1)
find_client_id_for_stranger_example =
    find_client_id_for_stranger device 3 [] used_stream used_stream-IsSound refl
