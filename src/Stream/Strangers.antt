-- ===== src/Stream/Strangers.antt =====
-- A request whose session is "-1" (`findClientIDFor` of src/Stream.cpp), and a participant that leaves.
use satpi.Base.{ℕ, ◌≡◌, ◌≢◌, refl, arith, true, false, none, some, List, ne→==}
use satpi.Text.Search.{text_eq, text_eq_iff}
use satpi.StreamClient
use satpi.StreamClient.{no_session}
use satpi.Stream
use satpi.Stream.{
  Stream, StreamingType, Device, Output, max_clients, update_client, update_stream, find_slot,
  no_type, output_of,
}
use satpi.Stream.Sound.{IsSound}

module _ {D O : Type 0} (dev : Device D) where
  -- A request that names the session "-1" is taken for one of a known session, and gets the second
  -- client of a stream that is in use by another session, whatever its device can do.
  pub find_client_id_for_stranger :
      (socket : ℕ) (params : List (List ℕ)) (s : Stream D O)
      → IsSound s
      → s.stream_in_use ≡ true
      → Stream.find_client_id_for dev socket params false no_session s
        ≡ some (
          record (update_client 1 (StreamClient.set_socket_client socket) s) {
            stream_in_use = true;
          },
          1,
        )
  unfolding Stream.find_client_id_for find_slot
  find_client_id_for_stranger socket params s v used =
      let first : text_eq (s.client 0).session_id no_session ≡ false = ground (arith, v.owned) in
      let second : text_eq (s.client 1).session_id no_session ≡ true =
        (text_eq_iff (s.client 1).session_id no_session).1
          (v.others 1 (omega arith) (omega arith)) in
      rw (first, second) refl

  made :
      (out : Output O) (t : StreamingType)
      → t ≢ no_type
      → output_of dev out t none ≡ some (out.make t)
  made out no_type h = absurd (h refl)
  made out Stream.http h = refl
  made out Stream.rtsp_unicast h = refl
  made out Stream.rtsp_multicast h = refl
  made out Stream.rtp_tcp h = refl
  made out Stream.file_src h = refl

  -- Once a client that is not the owner left a stream that streamed, an update that changes no channel
  -- makes the output anew and does not start it.
  pub update_stream-left :
      (out : Output O) (i client_id : ℕ) (s : Stream D O)
      → i ≢ 0
      → s.stream_active ≡ true
      → s.streaming_type ≢ no_type
      → dev.has_data_changed (dev.teardown_device s.device) ≡ false
      → (dev.update_device (dev.teardown_device s.device)).1 ≡ true
      → (update_stream dev out client_id (Stream.teardown dev i s)).0.streaming
        ≡ some (out.make s.streaming_type)
  unfolding update_stream Stream.teardown
  update_stream-left out i client_id s ne active t same done =
      rw (ne→== i 0 ne, made out s.streaming_type t) (rw (done, active, same) refl)
