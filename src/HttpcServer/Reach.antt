-- ===== src/HttpcServer/Reach.antt =====
-- What the server of src/HttpcServer.cpp and src/RtspServer.cpp goes through: requests and session
-- checks.
use satpi.Base.{
  ℕ, ◌≡◌, ◌≢◌, refl, sym, ◌∙◌, Bool, true, false, if◌then◌else◌, some, List, [], ◌∷◌, All,
  Results-some, some_injective,
}
use mathlib.Core.Path.{subst}
use satpi.Message.{SocketClient}
use satpi.StreamClient.{no_session}
use satpi.Stream
use satpi.Stream.{Stream, Device, Output, is_free_for, update_client, update_stream}
use satpi.Stream.Sound.{IsSound}
use satpi.Stream.Timeout.{check_for_session_timeout-IsSound}
use satpi.StreamManager
use satpi.StreamManager.{
  Found, find_in, find_from, find_at, set, set_session, later, find_frontend_id,
  find_stream_and_client_id_for,
}
use satpi.HttpcServer.{Reply, process_request}
use satpi.HttpcServer.Sessions.{IsProper, process_request-AllSound}

module _ {D O : Type 0} (dev : Device D) (out : Output O) where
  check_used :
      (now : ℕ) (closed : ℕ → Bool) (used : Bool) (s : Stream D O)
      → IsSound s
      → (s' : Stream D O) × ((if used
            then Stream.check_for_session_timeout dev now closed s
            else some s)
          ≡ some s')
        × IsSound s'
  check_used now closed true s v =
      let (s', over, done, v', o, in_use) = check_for_session_timeout-IsSound now closed dev s v in
      (s', done, v')
  check_used now closed false s v = (s, refl, v)

  check-AllSound :
      (now : ℕ) (closed : ℕ → Bool) (streams : List (Stream D O))
      → All IsSound streams
      → (streams' : List (Stream D O)) × (StreamManager.check_for_session_timeout dev now closed
            streams
          ≡ some streams')
        × All IsSound streams'
  unfolding StreamManager.check_for_session_timeout
  check-AllSound now closed [] a = ([], refl, tt)
  check-AllSound now closed (s ∷ streams) a =
      let (rest, run, b) = check-AllSound now closed streams a.1 in
      let (s', done, v) = check_used now closed s.stream_in_use s a.0 in
      (s' ∷ rest, rw (done, run) refl, (v, b))

  -- What the server goes through: requests and session checks, in any order. The number of a new
  -- session is never -1, and no request names that session.
  pub data Reach (streams : List (Stream D O)) : List (Stream D O) → Type 0 where
    here : Reach streams streams
    request :
        {before after : List (Stream D O)} {reply : Reply} (fresh : List ℕ) (now : ℕ)
        (ip_of : ℕ → List ℕ) (client : SocketClient)
        → Reach streams before
        → fresh ≢ no_session
        → IsProper client
        → process_request dev out fresh now ip_of client before ≡ some (after, reply)
        → Reach streams after
    check :
        {before after : List (Stream D O)} (now : ℕ) (closed : ℕ → Bool)
        → Reach streams before
        → StreamManager.check_for_session_timeout dev now closed before ≡ some after
        → Reach streams after

  states :
      {streams after : List (Stream D O)}
      → All IsSound streams
      → Reach streams after
      → All IsSound after
  states a here = a
  states a (request fresh now ip_of client r new proper e) =
      Results-some
        (process_request-AllSound dev out fresh now ip_of client _ new proper (states a r)) e
  states a (check now closed r e) =
      let (streams', done, after) = check-AllSound now closed _ (states a r) in
      subst (All IsSound) (some_injective streams' _ (sym done ∙ e)) after

  -- Whatever session checks the server goes through, and whatever requests of which none names the
  -- session "-1", while no new session gets that number: each of its streams has at most one session,
  -- that of its first client, and has it exactly while it is in use; a stream that is not in use has no
  -- output and no streaming type; and a client that is watched by its socket has one. The session check
  -- is then always done: it uses no socket that is not set.
  pub Reach-IsSound :
      {streams after : List (Stream D O)} (now : ℕ) (closed : ℕ → Bool)
      → All IsSound streams
      → Reach streams after
      → All IsSound after
        × ((checked : List (Stream D O)) × (StreamManager.check_for_session_timeout dev now closed
                after
              ≡ some checked))
  Reach-IsSound now closed a r =
      let b = states a r in
      let (checked, run, _) = check-AllSound now closed _ b in (b, (checked, run))
