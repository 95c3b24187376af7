-- ===== src/Stream.antt =====
-- src/Stream.{h,cpp}: a stream with its clients, its device and its output. The lock makes each
-- operation one step. The device and the output are parameters, behind the operations of
-- src/input/Device.h and src/output/StreamThreadBase.h that the stream calls. `none` as a result is
-- an exception that leaves the operation, or an undefined read. The payload in bytes, a `double`, is
-- not modelled, nor the frequency that `findClientIDFor` reads for the log.
pub mod Request
pub mod Sound
pub mod Timeout
pub mod Keeps
pub mod Answer
pub mod Sessions
pub mod Strangers
use satpi.Base.{
  ℕ, zero, suc, ◌+◌, Bool, true, false, not, ◌&&◌, ◌||◌, if◌then◌else◌, ◌==◌, Option, none, some,
  List, [], ◌∷◌, update, for_range, u32, ◌>>=◌,
}
use satpi.Text.Search.{text_eq}
use satpi.Params.{InputSystem, get_msys_parameter}
use satpi.StreamClient
use satpi.StreamClient.{StreamClient, no_session}

abbrev pub max_clients : ℕ
max_clients = 8

pub data StreamingType : Type 0 where
  no_type http rtsp_unicast rtsp_multicast rtp_tcp file_src : StreamingType

pub record Device (D : Type 0) : Type 0 where
  pub capable_of : InputSystem → D → Bool
  pub capable_to_transform : List (List ℕ) → D → Bool
  pub has_data_changed : D → Bool
  pub parse_stream_string : List (List ℕ) → D → D
  pub update_device : D → D × Bool
  pub teardown_device : D → D

pub record Output (O : Type 0) : Type 0 where
  pub make : StreamingType → O
  pub start_streaming : ℕ → O → O × Bool
  pub restart_streaming : ℕ → O → O
  pub pause_streaming : ℕ → O → O

pub record Stream (D O : Type 0) : Type 0 where
  pub index : ℕ
  pub streaming_type : StreamingType
  pub enabled : Bool
  pub stream_in_use : Bool
  pub stream_active : Bool
  pub client : ℕ → StreamClient
  pub streaming : Option O
  pub device : D
  pub ssrc : ℕ
  pub spc : ℕ
  pub soc : ℕ
  pub timestamp : ℕ

abbrev pub new_stream : {D O : Type 0} → ℕ → D → ℕ → Stream D O
new_stream index device ssrc = record {
  index = index;
  streaming_type = no_type;
  enabled = true;
  stream_in_use = false;
  stream_active = false;
  client = λ i. StreamClient.new_stream_client;
  streaming = none;
  device = device;
  ssrc = ssrc;
  spc = 0;
  soc = 0;
  timestamp = 0;
}

-- The first of the slots from `i` on with the session.
unfoldable pub find_slot : (ℕ → StreamClient) → List ℕ → ℕ → ℕ → Option ℕ
find_slot client session i zero = none
find_slot client session i (suc rounds) =
    let rest = find_slot client session (suc i) rounds in
    if text_eq (client i).session_id session then some i else rest

module _ {D O : Type 0} where
  abbrev pub get_fe_id : Stream D O → ℕ
  get_fe_id s = s.index + 1

  abbrev pub get_stream_id : Stream D O → ℕ
  get_stream_id s = s.index + 100

  unfoldable pub add_rtp_data : ℕ → ℕ → Stream D O → Stream D O
  add_rtp_data byte timestamp s = record s {
    spc = u32 (s.spc + 1);
    soc = u32 (s.soc + byte);
    timestamp = timestamp;
  }

  abbrev pub update_client : ℕ → (StreamClient → StreamClient) → Stream D O → Stream D O
  update_client i f s = record s { client = update s.client i (f (s.client i)) }

module _ {D O : Type 0} (dev : Device D) where
  -- Whether a new session may have the stream.
  abbrev pub is_free_for : List (List ℕ) → Stream D O → Bool
  is_free_for params s =
      s.enabled
      && not s.stream_in_use
      && (dev.capable_of (get_msys_parameter params) s.device
          || dev.capable_to_transform params s.device)

  -- The stream with the client that is found, and which one that is.
  unfoldable pub find_client_id_for :
      ℕ → List (List ℕ) → Bool → List ℕ → Stream D O → Option (Stream D O × ℕ)
  unfolding find_slot
  find_client_id_for socket params new_session session_id s =
      if new_session && not (is_free_for params s)
      then none
      else elim (find_slot s.client (if new_session then no_session else session_id) 0 max_clients)
          as (λ o. Option (Stream D O × ℕ)) [
            | none ↦ none
            | some i ↦ some (
              record (update_client i (StreamClient.set_socket_client socket) s) {
                stream_in_use = true;
              },
              i,
            )
          ]

  -- The other clients are torn down with the owner.
  unfoldable pub teardown : ℕ → Stream D O → Stream D O
  teardown client_id s =
      let s' =
        update_client client_id StreamClient.teardown
          (record s { streaming = none; device = dev.teardown_device s.device }) in
      if client_id == 0
      then record (for_range 1 7 (λ i. update_client i StreamClient.teardown) s') {
        stream_active = false;
        stream_in_use = false;
        streaming_type = no_type;
      }
      else s'

  -- A round of `checkForSessionTimeout`.
  unfoldable pub check_client : ℕ → (ℕ → Bool) → ℕ → Stream D O → Option (Stream D O)
  check_client now closed i s = do
    timeout ← StreamClient.session_timeout now closed (s.client i)
    some (if timeout || not s.enabled then teardown i s else s)

  unfoldable pub check_clients : ℕ → (ℕ → Bool) → ℕ → ℕ → Stream D O → Option (Stream D O)
  check_clients now closed i zero s = some s
  check_clients now closed i (suc rounds) s = do
    s' ← check_client now closed i s
    check_clients now closed (suc i) rounds s'

  unfoldable pub check_for_session_timeout : ℕ → (ℕ → Bool) → Stream D O → Option (Stream D O)
  check_for_session_timeout now closed s = check_clients now closed 0 max_clients s

  module _ (out : Output O) where
    -- The output of a streaming type, made where there is none.
    abbrev pub output_of : StreamingType → Option O → Option O
    output_of t (some o) = some o
    output_of no_type none = none
    output_of t none = some (out.make t)

    -- The output is started, or started again where the channel changed.
    abbrev pub start_output : ℕ → Bool → O → Stream D O → Stream D O
    start_output client_id changed o s =
        if not s.stream_active
        then (let (o', started) = out.start_streaming client_id o in
            record s { streaming = some o'; stream_active = started })
        else if changed
        then record s { streaming = some (out.restart_streaming client_id o) }
        else record s { streaming = some o }

    abbrev pub update_with : ℕ → Option O → Stream D O → Stream D O × Bool
    update_with client_id none s = (s, false)
    update_with client_id (some o) s =
        let changed = dev.has_data_changed s.device in
        let (device, done) = dev.update_device s.device in
        let s' = record s { streaming = some o; device = device } in
        if not done then (s', false) else (start_output client_id changed o s', true)

    unfoldable pub update_stream : ℕ → Stream D O → Stream D O × Bool
    update_stream client_id s = update_with client_id (output_of s.streaming_type s.streaming) s
