-- ===== src/StreamClient.antt =====
-- src/StreamClient.{h,cpp}: an owner or participant of a stream, with the watchdog of its session.
-- The time is an argument, and so is which sockets are closed. The sizes of the network buffers and
-- the sending are calls of the socket, and not modelled.
use satpi.Base.{ℕ, ◌+◌, Bool, false, not, ◌&&◌, ◌==◌, ltb, Option, none, some, List, u16, ℤ, pos}
use satpi.Text.{codes}

pub data SessionTimeoutCheck : Type 0 where
  watchdog_check file_descriptor teardown_check : SessionTimeoutCheck

-- What `setupSocketStructure` writes.
pub record SocketAttr : Type 0 where
  pub ip_addr : List ℕ
  pub port : ℕ
  pub ttl : ℤ

pub record StreamClient : Type 0 where
  pub socket_client : Option ℕ
  pub session_timeout_check : SessionTimeoutCheck
  pub ip_address : List ℕ
  pub watchdog : ℕ
  pub timeout : ℕ
  pub session_id : List ℕ
  pub user_agent : List ℕ
  pub cseq : ℤ
  pub rtp : SocketAttr
  pub rtcp : SocketAttr

abbrev pub no_session : List ℕ
no_session = codes "-1"

abbrev pub new_socket_attr : SocketAttr
new_socket_attr = record { ip_addr = codes "0.0.0.0"; port = 0; ttl = pos 1 }

abbrev pub new_stream_client : StreamClient
new_stream_client = record {
  socket_client = none;
  session_timeout_check = watchdog_check;
  ip_address = codes "0.0.0.0";
  watchdog = 0;
  timeout = 60;
  session_id = no_session;
  user_agent = codes "None";
  cseq = pos 0;
  rtp = new_socket_attr;
  rtcp = new_socket_attr;
}

unfoldable pub teardown : StreamClient → StreamClient
teardown c = record c {
  watchdog = 0;
  session_id = no_session;
  ip_address = codes "0.0.0.0";
  user_agent = codes "None";
  session_timeout_check = watchdog_check;
  socket_client = none;
}

-- The `unsigned int` of the timeout is added to a `time_t`.
unfoldable pub restart_watch_dog : ℕ → StreamClient → StreamClient
restart_watch_dog now c = record c { watchdog = now + c.timeout + 15 }

unfoldable pub self_destruct : StreamClient → StreamClient
self_destruct c = record c { watchdog = 1 }

unfoldable pub is_self_destructing : StreamClient → Bool
is_self_destructing c = c.watchdog == 1

abbrev pub timed_out : SessionTimeoutCheck → ℕ → (ℕ → Bool) → StreamClient → Option Bool
timed_out watchdog_check now closed c = some (not (c.watchdog == 0) && ltb c.watchdog now)
timed_out file_descriptor now closed c = elim c.socket_client [
  | none ↦ none
  | some socket ↦ some (closed socket)
]
timed_out teardown_check now closed c = some false

-- `none` is the use of a socket that is not set.
unfoldable pub session_timeout : ℕ → (ℕ → Bool) → StreamClient → Option Bool
session_timeout now closed c = timed_out c.session_timeout_check now closed c

unfoldable pub set_socket_client : ℕ → StreamClient → StreamClient
set_socket_client socket c = record c { socket_client = some socket }

unfoldable pub setup_socket_structure : List ℕ → ℕ → ℤ → SocketAttr → SocketAttr
setup_socket_structure ip_addr port ttl s = record s {
  ip_addr = ip_addr;
  port = u16 port;
  ttl = ttl;
}

-- The setters.
unfoldable pub set_session_timeout_check : SessionTimeoutCheck → StreamClient → StreamClient
set_session_timeout_check check c = record c { session_timeout_check = check }

unfoldable pub set_ip_address_of_stream : List ℕ → StreamClient → StreamClient
set_ip_address_of_stream ip_address c = record c { ip_address = ip_address }

unfoldable pub set_user_agent : List ℕ → StreamClient → StreamClient
set_user_agent user_agent c = record c { user_agent = user_agent }

unfoldable pub set_session_id : List ℕ → StreamClient → StreamClient
set_session_id session_id c = record c { session_id = session_id }

unfoldable pub set_cseq : ℤ → StreamClient → StreamClient
set_cseq cseq c = record c { cseq = cseq }

-- `ip_of` is the address of each socket.
unfoldable pub get_ip_address_of_socket : (ℕ → List ℕ) → StreamClient → List ℕ
get_ip_address_of_socket ip_of c = elim c.socket_client [
  | none ↦ codes "0.0.0.0"
  | some socket ↦ ip_of socket
]

-- Both sockets of a client.
unfoldable pub setup_sockets : List ℕ → ℕ → ℕ → ℤ → StreamClient → StreamClient
unfolding setup_socket_structure
setup_sockets ip_addr rtp rtcp ttl c = record c {
  rtp = setup_socket_structure ip_addr rtp ttl c.rtp;
  rtcp = setup_socket_structure ip_addr rtcp ttl c.rtcp;
}
