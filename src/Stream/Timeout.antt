-- ===== src/Stream/Timeout.antt =====
-- `checkForSessionTimeout` of src/Stream.cpp: when a stream is taken back.
use satpi.Base.{
  ℕ, zero, suc, ◌+◌, ◌<◌, ◌≤◌, ◌≡◌, ◌≢◌, inl, inr, refl, ◌∙◌, arith, Bool, false, not, ◌&&◌, ◌||◌,
  if◌then◌else◌, ◌==◌, ltb, none, some, Bool-cases, Option-cases, ne→==,
}
use satpi.StreamClient
use satpi.StreamClient.{
  StreamClient, SessionTimeoutCheck, watchdog_check, file_descriptor, teardown_check, timed_out,
}
use satpi.Stream
use satpi.Stream.{Stream, Device, max_clients, check_client, check_clients}
use satpi.Stream.Sound.{IsSound, HasSocket, teardown-IsSound, owner_left-IsSound}

module _ (now : ℕ) (closed : ℕ → Bool) where
  timed_out_defined :
      (check : SessionTimeoutCheck) (c : StreamClient)
      → (check ≡ file_descriptor → c.socket_client ≢ none)
      → (over : Bool) × (timed_out check now closed c ≡ some over)
  timed_out_defined watchdog_check c h = (not (c.watchdog == 0) && ltb c.watchdog now, refl)
  timed_out_defined file_descriptor c h = elim (Option-cases c.socket_client) [
    | inl e ↦ absurd (h refl e)
    | inr (socket, e) ↦ (closed socket, rw e refl)
  ]
  timed_out_defined teardown_check c h = (false, refl)

  -- Whether the session of a client is over can be told wherever it has the socket it needs.
  pub session_timeout_defined :
      (c : StreamClient)
      → HasSocket c
      → (over : Bool) × (StreamClient.session_timeout now closed c ≡ some over)
  unfolding StreamClient.session_timeout
  session_timeout_defined c h = timed_out_defined c.session_timeout_check c h

  module _ {D O : Type 0} (dev : Device D) where
    abbrev after : Bool → ℕ → Stream D O → Stream D O
    after over i s = if over || not s.enabled then Stream.teardown dev i s else s

    after-IsSound :
        (over : Bool) (i : ℕ) (s : Stream D O)
        → i < max_clients
        → IsSound s
        → IsSound (after over i s)
    after-IsSound over i s hi v = elim (Bool-cases (over || not s.enabled)) [
      | inl e ↦ rw e (teardown-IsSound dev s i hi v)
      | inr e ↦ rw e v
    ]

    -- A participant that leaves does not give the stream up.
    after_other :
        (over : Bool) (i : ℕ) (s : Stream D O)
        → 0 < i
        → (after over i s).stream_in_use ≡ s.stream_in_use
    unfolding Stream.teardown
    after_other over i s lo = elim (Bool-cases (over || not s.enabled)) [
      | inl e ↦ rw (e, ne→== i 0 (λ z. omega arith)) refl
      | inr e ↦ rw e refl
    ]

    after_owner :
        (over : Bool) (s : Stream D O)
        → (after over 0 s).stream_in_use ≡ (s.stream_in_use && not (over || not s.enabled))
    after_owner over s = elim (Bool-cases (over || not s.enabled)) [
      | inl e ↦ rw (e, (owner_left-IsSound dev s).1) (ground arith)
      | inr e ↦ rw e (ground arith)
    ]

    check_client_lem :
        (i : ℕ) (s : Stream D O) (over : Bool)
        → StreamClient.session_timeout now closed (s.client i) ≡ some over
        → check_client dev now closed i s ≡ some (after over i s)
    unfolding check_client
    check_client_lem i s over e = rw e refl

    check_others :
        (rounds i : ℕ) (s : Stream D O)
        → 0 < i
        → i + rounds ≤ max_clients
        → IsSound s
        → (s' : Stream D O) × (check_clients dev now closed i rounds s ≡ some s')
          × IsSound s'
          × (s'.stream_in_use ≡ s.stream_in_use)
    unfolding check_clients
    check_others zero i s lo hi v = (s, refl, v, refl)
    check_others (suc rounds) i s lo hi v =
        let (over, e) = session_timeout_defined (s.client i) (v.sockets i (omega arith)) in
        let (s', run, v', same) =
          check_others rounds (suc i) (after over i s) (omega arith) (omega arith)
            (after-IsSound over i s (omega arith) v) in
        (s', rw (check_client_lem i s over e) run, v', same ∙ after_other over i s lo)

    -- The check of a stream with a sound state is always done and leaves it sound, and tells whether
    -- the session of its owner is over. Where it is, or the stream is disabled, the stream is taken
    -- back; else it is in use as before.
    pub check_for_session_timeout-IsSound :
        (s : Stream D O)
        → IsSound s
        → (s' : Stream D O) × (over : Bool) × (Stream.check_for_session_timeout dev now closed s
            ≡ some s')
          × IsSound s'
          × (StreamClient.session_timeout now closed (s.client 0) ≡ some over)
          × (s'.stream_in_use ≡ (s.stream_in_use && not (over || not s.enabled)))
    unfolding Stream.check_for_session_timeout check_clients
    check_for_session_timeout-IsSound s v =
        let (over, e) = session_timeout_defined (s.client 0) (v.sockets 0 (omega arith)) in
        let (s', run, v', same) =
          check_others 7 1 (after over 0 s) (omega arith) (omega arith)
            (after-IsSound over 0 s (omega arith) v) in
        (s', over, rw (check_client_lem 0 s over e) run, v', e, same ∙ after_owner over s)
