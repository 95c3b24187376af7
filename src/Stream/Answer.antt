-- ===== src/Stream/Answer.antt =====
-- Every step with which src/Stream.cpp answers a request of a client leaves alone what `Keeps` names.
use satpi.Base.{
  ℕ, ◌+◌, ◌^◌, inl, inr, refl, Bool, not, ◌&&◌, if◌then◌else◌, ◌==◌, Option, none, some, List, [],
  ◌∷◌, Bool-cases, Results-if, Results-bind, Results-read, stops, gives, ℤ, pos, negsuc,
}
use satpi.Text.{codes, contains, split, stoi}
use satpi.Text.Search.{text_eq, not_empty}
use satpi.Params.{
  get_parameter, get_field_parameter, get_string_field_parameter, get_int_field_parameter,
}
use satpi.Message.{
  SocketClient, get_headers, get_method, get_transport_parameters, has_transport_parameters,
}
use satpi.StreamClient
use satpi.StreamClient.{StreamClient, SessionTimeoutCheck}
use satpi.Stream
use satpi.Stream.{
  Stream, StreamingType, Device, Output, update_client, update_stream, update_with, start_output,
  output_of,
}
use satpi.Stream.Request.{
  int, save_headers, set_type, http_transport, rtsp_transport, multicast_transport,
  multicast_header, set_transport, set_ports, is_no_type, is_tuning, set_multicast_ports,
  set_both_ports, set_unicast, unicast_at, interleaved_at, set_multicast, set_interleaved,
  set_addresses, tune, process_streaming_request,
}
use satpi.Stream.Keeps.{
  Keeps, Keeping, KeepsFirst, same_clients, Keeps-refl, Keeps-trans, Keeps-if, Keeping-trans,
  KeepsFirst-if, update_client-Keeps,
}

module _ {D O : Type 0} (k : ℕ) where
  save_headers-Keeping :
      (headers : List (List ℕ)) (s : Stream D O) → Keeping k s (save_headers headers k s)
  unfolding save_headers StreamClient.set_cseq StreamClient.set_user_agent
  save_headers-Keeping headers s =
      let cseq = get_field_parameter (codes "CSeq") headers in
      let user_agent = get_field_parameter (codes "User-Agent") headers in
      Results-bind
        (Results-if (not_empty cseq)
          (Results-read (int (stoi cseq))
            (λ n. gives (update_client-Keeps (StreamClient.set_cseq n) s refl refl)))
          (gives (Keeps-refl s)))
        (λ t h. gives (
          Keeps-if (not_empty user_agent)
            (Keeps-trans h
              (update_client-Keeps (StreamClient.set_user_agent user_agent) t refl refl))
            h))

  tune-Keeps :
      (dev : Device D) (out : Output O) (tunes : Bool) (params : List (List ℕ)) (s : Stream D O)
      → Keeps k s (tune dev out tunes params k s)
  unfolding tune
  tune-Keeps dev out tunes params s =
      let s' : Stream D O =
        if tunes then record s { device = dev.parse_stream_string params s.device } else s in
      let h : Keeps k s s' =
        Keeps-if tunes
          (same_clients s (record s { device = dev.parse_stream_string params s.device }) refl refl)
          (Keeps-refl s) in
      Keeps-if (dev.has_data_changed s'.device) (Keeps-trans h (same_clients s' _ refl refl)) h

  set_type-Keeps :
      (t : StreamingType) (check : SessionTimeoutCheck) (s : Stream D O)
      → Keeps k s (set_type k t check s)
  unfolding StreamClient.set_session_timeout_check
  set_type-Keeps t check s =
      Keeps-trans (same_clients s (record s { streaming_type = t }) refl refl) (
        update_client-Keeps (StreamClient.set_session_timeout_check check)
          (record s { streaming_type = t }) refl refl)

  set_ip-Keeps :
      (ip : List ℕ) (s : Stream D O)
      → Keeps k s (update_client k (StreamClient.set_ip_address_of_stream ip) s)
  unfolding StreamClient.set_ip_address_of_stream
  set_ip-Keeps ip s = update_client-Keeps (StreamClient.set_ip_address_of_stream ip) s refl refl

  set_ports-Keeps :
      (ip : List ℕ) (rtp rtcp : ℕ) (ttl : ℤ) (s : Stream D O)
      → Keeps k s (set_ports ip rtp rtcp ttl k s)
  unfolding StreamClient.setup_sockets
  set_ports-Keeps ip rtp rtcp ttl s =
      update_client-Keeps (StreamClient.setup_sockets ip rtp rtcp ttl) s refl refl

  multicast-Keeps :
      (header : Option (List ℕ)) (client : SocketClient) (s : Stream D O)
      → Keeps k s (multicast_transport header client k s).0
  multicast-Keeps none client s = Keeps-refl s
  multicast-Keeps (some header) client s = set_type-Keeps _ _ s

  http_transport-Keeps :
      (ip_of : ℕ → List ℕ) (client : SocketClient) (params : List (List ℕ)) (s : Stream D O)
      → Keeps k s (http_transport ip_of client params k s).0
  unfolding http_transport
  http_transport-Keeps ip_of client params s =
      let multicast = get_parameter (codes "multicast") params in
      Keeps-trans
        (KeepsFirst-if (not_empty multicast)
          (record {
            first = multicast-Keeps (multicast_header (split multicast (codes ","))) client s;
          })
          (record { first = set_type-Keeps _ _ s })).first
        (set_ip-Keeps _ _)

  rtsp_transport-Keeps :
      (transport : List ℕ) (s : Stream D O) → Keeps k s (rtsp_transport transport k s)
  unfolding rtsp_transport
  rtsp_transport-Keeps transport s =
      Keeps-if (contains (codes "unicast") transport) (set_type-Keeps _ _ s) (
        Keeps-if (contains (codes "multicast") transport) (set_type-Keeps _ _ s) (
          Keeps-if (contains (codes "RTP/AVP/TCP") transport) (set_type-Keeps _ _ s)
            (Keeps-refl s)))

  set_transport-Keeps :
      (ip_of : ℕ → List ℕ) (client : SocketClient) (method : List ℕ) (params : List (List ℕ))
      (s : Stream D O)
      → KeepsFirst k s (set_transport ip_of client method params k s)
  unfolding set_transport
  set_transport-Keeps ip_of client method params s =
      KeepsFirst-if (not (is_no_type s.streaming_type)) (record { first = Keeps-refl s })
        (KeepsFirst-if (text_eq method (codes "GET"))
          (record { first = http_transport-Keeps ip_of client params s })
          (record {
            first =
                rtsp_transport-Keeps (get_field_parameter (codes "Transport") (get_headers client))
                  s;
          }))

  unicast_at-Keeping :
      (ip_of : ℕ → List ℕ) (port : Option ℤ) (s : Stream D O)
      → Keeping k s (unicast_at ip_of port k s)
  unicast_at-Keeping ip_of none s = stops
  unicast_at-Keeping ip_of (some (negsuc n)) s = gives (Keeps-refl s)
  unicast_at-Keeping ip_of (some (pos port)) s =
      Results-if (port + 1 == 2 ^ 31) stops
        (gives (Keeps-trans (set_ip-Keeps _ s) (set_ports-Keeps _ _ _ _ _)))

  interleaved_at-Keeping :
      (ip_of : ℕ → List ℕ) (n : Option ℤ) (s : Stream D O)
      → Keeping k s (interleaved_at ip_of n k s)
  interleaved_at-Keeping ip_of none s = stops
  interleaved_at-Keeping ip_of (some (negsuc n)) s = gives (Keeps-refl s)
  interleaved_at-Keeping ip_of (some (pos n)) s = gives (set_ip-Keeps _ s)

  set_both_ports-Keeping :
      (dest : List ℕ) (rtp rtcp : Option ℤ) (ttl : ℤ) (s : Stream D O)
      → Keeping k s (set_both_ports dest rtp rtcp ttl k s)
  set_both_ports-Keeping dest none rtcp ttl s = stops
  set_both_ports-Keeping dest (some (negsuc n)) rtcp ttl s = stops
  set_both_ports-Keeping dest (some (pos n)) none ttl s = stops
  set_both_ports-Keeping dest (some (pos n)) (some (negsuc m)) ttl s = stops
  set_both_ports-Keeping dest (some (pos n)) (some (pos m)) ttl s =
      gives (set_ports-Keeps dest n m ttl s)

  set_multicast_ports-Keeping :
      (dest : List ℕ) (ports : List (List ℕ)) (ttl : ℤ) (s : Stream D O)
      → Keeping k s (set_multicast_ports dest ports ttl k s)
  set_multicast_ports-Keeping dest [] ttl s = gives (Keeps-refl s)
  set_multicast_ports-Keeping dest (a ∷ []) ttl s = gives (Keeps-refl s)
  set_multicast_ports-Keeping dest (a ∷ b ∷ []) ttl s = set_both_ports-Keeping dest _ _ ttl s
  set_multicast_ports-Keeping dest (a ∷ b ∷ c ∷ ports) ttl s = gives (Keeps-refl s)

  set_multicast-Keeping :
      (headers : List (List ℕ)) (s : Stream D O) → Keeping k s (set_multicast headers k s)
  unfolding set_multicast
  set_multicast-Keeping headers s =
      let dest = get_string_field_parameter (codes "Transport") (codes "destination") headers in
      Results-read (int (get_int_field_parameter (codes "Transport") (codes "ttl") headers)) (λ ttl.
        Keeping-trans (Keeps-if (not_empty dest) (set_ip-Keeps dest s) (Keeps-refl s)) (
          set_multicast_ports-Keeping dest
            (split (get_string_field_parameter (codes "Transport") (codes "port") headers)
              (codes "-"))
            ttl _))

  set_addresses-Keeping :
      (ip_of : ℕ → List ℕ) (t : StreamingType) (headers : List (List ℕ)) (s : Stream D O)
      → Keeping k s (set_addresses ip_of t headers k s)
  unfolding set_interleaved set_unicast
  set_addresses-Keeping ip_of Stream.no_type headers s = gives (Keeps-refl s)
  set_addresses-Keeping ip_of Stream.http headers s = gives (Keeps-refl s)
  set_addresses-Keeping ip_of Stream.rtsp_unicast headers s =
      unicast_at-Keeping ip_of
        (int (get_int_field_parameter (codes "Transport") (codes "client_port") headers)) s
  set_addresses-Keeping ip_of Stream.rtsp_multicast headers s = set_multicast-Keeping headers s
  set_addresses-Keeping ip_of Stream.rtp_tcp headers s =
      interleaved_at-Keeping ip_of
        (int (get_int_field_parameter (codes "Transport") (codes "interleaved") headers)) s
  set_addresses-Keeping ip_of Stream.file_src headers s = gives (Keeps-refl s)

  pub process_streaming_request-Keeping :
      (dev : Device D) (out : Output O) (now : ℕ) (ip_of : ℕ → List ℕ) (client : SocketClient)
      (s : Stream D O)
      → Keeping k s (process_streaming_request dev out now ip_of client k s)
  unfolding process_streaming_request StreamClient.restart_watch_dog
  process_streaming_request-Keeping dev out now ip_of client s =
      Results-bind (save_headers-Keeping (get_headers client) s) (λ s1 h1.
        Results-read (get_transport_parameters client) (λ params.
          Results-read (get_method client) (λ method.
            let tunes = is_tuning method && has_transport_parameters client in
            let sh = set_transport ip_of client method params k (tune dev out tunes params k s1) in
            Results-bind
              (Keeping-trans
                (Keeps-trans h1 (
                  Keeps-trans (tune-Keeps dev out tunes params s1)
                    (set_transport-Keeps ip_of client method params _).first))
                (set_addresses-Keeping ip_of sh.0.streaming_type sh.1 sh.0))
              (λ s3 h3. gives (
                Keeps-trans h3
                  (update_client-Keeps (StreamClient.restart_watch_dog now) s3 refl refl))))))

  start_output-Keeps :
      (dev : Device D) (out : Output O) (changed : Bool) (o : O) (s : Stream D O)
      → Keeps k s (start_output dev out k changed o s)
  start_output-Keeps dev out changed o s =
      Keeps-if (not s.stream_active) (same_clients s _ refl refl)
        (Keeps-if changed (same_clients s _ refl refl) (same_clients s _ refl refl))

  update_with-Keeps :
      (dev : Device D) (out : Output O) (o : Option O) (s : Stream D O)
      → Keeps k s (update_with dev out k o s).0
  update_with-Keeps dev out none s = Keeps-refl s
  update_with-Keeps dev out (some o) s =
      let s' : Stream D O = record s {
        streaming = some o;
        device = (dev.update_device s.device).0;
      } in
      let h : Keeps k s s' = same_clients s s' refl refl in
      elim (Bool-cases (dev.update_device s.device).1) [
        | inl e ↦
            rw e (Keeps-trans h (start_output-Keeps dev out (dev.has_data_changed s.device) o s'))
        | inr e ↦ rw e h
      ]

  pub update_stream-Keeps :
      (dev : Device D) (out : Output O) (s : Stream D O) → Keeps k s (update_stream dev out k s).0
  unfolding update_stream
  update_stream-Keeps dev out s =
      update_with-Keeps dev out (output_of dev out s.streaming_type s.streaming) s
