-- ===== src/Message/Tests.antt =====
-- A request for a stream, taken apart.
use satpi.Base.{◌≡◌, refl, true, some, [], ◌∷◌, ◌++◌}
use satpi.Text.{codes}
use satpi.Message.{
  SocketClient, crlf, get_method, has_transport_parameters, get_transport_parameters, get_protocol,
}

abbrev setup : SocketClient
setup = record {
  socket = 1;
  ip_addr = codes "10.0.0.2";
  msg =
      codes "setup rtsp://10.0.0.1/?fe=1&freq=170%2E5&msys=dvbc RTSP/1.0"
      ++ (crlf ++ (codes "CSeq: 2" ++ (crlf ++ crlf)));
}

method : get_method setup ≡ some (codes "SETUP")
unfolding get_method
method = refl

has_parameters : has_transport_parameters setup ≡ true
unfolding has_transport_parameters
has_parameters = refl

parameters :
    get_transport_parameters setup
    ≡ some (
        codes "setup"
        ∷ codes "rtsp:"
        ∷ codes "10.0.0.1"
        ∷ codes "fe=1"
        ∷ codes "freq=170.5"
        ∷ codes "msys=dvbc"
        ∷ codes "RTSP"
        ∷ codes "1.0"
        ∷ [])
unfolding get_transport_parameters
parameters = refl

protocol : get_protocol setup ≡ codes "RTSP"
unfolding get_protocol
protocol = refl
