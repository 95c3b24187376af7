-- ===== src/Stream/Sound.antt =====
-- The state of a stream of src/Stream.cpp between the requests: who holds it, and that the sessions
-- which are watched by their socket have one.
use satpi.Base.{
  ℕ, ◌<◌, ◌≡◌, ◌≢◌, refl, sym, ap, ◌∙◌, arith, true, false, not, none, for_range, view-for_range,
  for_range_frame, ne→==, ==_refl,
}
use mathlib.Core.Path.{subst}
use native.Mathlib.Decide.{ℕ_discrete}
use satpi.Text.Search.{text_eq, text_eq_iff}
use satpi.StreamClient
use satpi.StreamClient.{StreamClient, no_session, file_descriptor}
use satpi.Stream
use satpi.Stream.{Stream, Device, max_clients, update_client, find_slot, no_type}

abbrev pub IsFree : StreamClient → Type 0
IsFree c = c.session_id ≡ no_session

-- A client that is watched by its socket has one.
abbrev pub HasSocket : StreamClient → Type 0
HasSocket c = c.session_timeout_check ≡ file_descriptor → c.socket_client ≢ none

-- Only the first client has a session, and it has one exactly while the stream is in use; a stream
-- that is not in use does not stream.
pub record IsSound {D O : Type 0} (s : Stream D O) : Type 0 where
  pub others : (i : ℕ) → 0 < i → i < max_clients → IsFree (s.client i)
  pub owned : text_eq (s.client 0).session_id no_session ≡ not s.stream_in_use
  pub idle :
      s.stream_in_use ≡ false
      → (s.streaming ≡ none) × (s.stream_active ≡ false) × (s.streaming_type ≡ no_type)
  pub sockets : (i : ℕ) → i < max_clients → HasSocket (s.client i)

free-text_eq : (c : StreamClient) → IsFree c → text_eq c.session_id no_session ≡ true
free-text_eq c h = (text_eq_iff c.session_id no_session).1 h

teardown-IsFree : (c : StreamClient) → IsFree (StreamClient.teardown c)
unfolding StreamClient.teardown
teardown-IsFree c = refl

teardown-HasSocket : (c : StreamClient) → HasSocket (StreamClient.teardown c)
unfolding StreamClient.teardown
teardown-HasSocket c h = absurd (cc)

pub new_stream-IsSound :
    {D O : Type 0} (index : ℕ) (device : D) (ssrc : ℕ)
    → IsSound (Stream.new_stream {O = O} index device ssrc)
new_stream-IsSound index device ssrc = record {
  others = λ i lo hi. refl;
  owned = free-text_eq StreamClient.new_stream_client refl;
  idle = λ h. (refl, refl, refl);
  sockets = λ i hi h. absurd (cc);
}

module _ {D O : Type 0} (dev : Device D) where
  abbrev stopped : Stream D O → Stream D O
  stopped s = record s { streaming = none; device = dev.teardown_device s.device }

  update_client_self :
      (f : StreamClient → StreamClient) (i : ℕ) (s : Stream D O)
      → (update_client i f s).client i ≡ f (s.client i)
  update_client_self f i s = rw (==_refl i) refl

  update_client_other :
      (f : StreamClient → StreamClient) (i j : ℕ) (s : Stream D O)
      → i ≢ j
      → (update_client i f s).client j ≡ s.client j
  update_client_other f i j s ne = rw (ne→== j i (λ e. ne (sym e))) refl

  -- The owner leaves: every client is as after its own teardown.
  owner_left :
      (s : Stream D O) (i : ℕ)
      → i < max_clients
      → (Stream.teardown dev 0 s).client i ≡ StreamClient.teardown (s.client i)
  unfolding Stream.teardown
  owner_left s i hi = elim (ℕ_discrete i 0) [
    | yes e ↦ rw e (
        for_range_frame (λ j (t : Stream D O). t.client j)
          (λ i. update_client i StreamClient.teardown) (update_client_other StreamClient.teardown) 1
          7 0 (update_client 0 StreamClient.teardown (stopped s)) (λ i lo h. omega arith))
    | no ne ↦
        view-for_range (λ j (t : Stream D O). t.client j)
          (λ i. update_client i StreamClient.teardown) (λ i. StreamClient.teardown)
          (update_client_self StreamClient.teardown) (update_client_other StreamClient.teardown) 1 7
          i (update_client 0 StreamClient.teardown (stopped s)) (omega arith) (omega arith)
        ∙ ap StreamClient.teardown
            (update_client_other StreamClient.teardown 0 i (stopped s) (λ e. ne (sym e)))
  ]

  other_left :
      (s : Stream D O) (i : ℕ)
      → i ≢ 0
      → Stream.teardown dev i s ≡ update_client i StreamClient.teardown (stopped s)
  unfolding Stream.teardown
  other_left s i ne = rw (ne→== i 0 ne) refl

  -- After the owner left, the stream is as one that nobody uses.
  pub owner_left-IsSound :
      (s : Stream D O)
      → IsSound (Stream.teardown dev 0 s) × ((Stream.teardown dev 0 s).stream_in_use ≡ false)
  unfolding Stream.teardown for_range
  owner_left-IsSound s = (
    record {
      others = λ j lo hi.
          ap (λ (c : StreamClient). c.session_id) (owner_left s j hi)
          ∙ teardown-IsFree (s.client j);
      owned =
          rw (owner_left s 0 (omega arith))
            (free-text_eq (StreamClient.teardown (s.client 0)) (teardown-IsFree (s.client 0)));
      idle = λ h. (refl, refl, refl);
      sockets = λ j hi. subst HasSocket (sym (owner_left s j hi)) (teardown-HasSocket (s.client j));
    },
    refl,
  )

  -- What holds of a client that changes and of the others holds of all.
  update_client_all :
      (P : StreamClient → Type 0) (f : StreamClient → StreamClient) (i : ℕ) (s : Stream D O) (j : ℕ)
      → P (f (s.client i))
      → P (s.client j)
      → P ((update_client i f s).client j)
  update_client_all P f i s j changed kept = elim (ℕ_discrete i j) [
    | yes e ↦
        subst (λ k. P ((update_client i f s).client k)) e
          (subst P (sym (update_client_self f i s)) changed)
    | no ne ↦ subst P (sym (update_client_other f i j s ne)) kept
  ]

  pub teardown-IsSound :
      (s : Stream D O) (i : ℕ) → i < max_clients → IsSound s → IsSound (Stream.teardown dev i s)
  teardown-IsSound s i hi v = elim (ℕ_discrete i 0) [
    | yes e ↦ rw e (owner_left-IsSound s).0
    | no ne ↦ rw (other_left s i ne) (record {
      others = λ j lo hj.
          update_client_all IsFree StreamClient.teardown i (stopped s) j
            (teardown-IsFree (s.client i)) (v.others j lo hj);
      owned = rw (update_client_other StreamClient.teardown i 0 (stopped s) ne) v.owned;
      idle = λ h. (refl, (v.idle h).1, (v.idle h).2);
      sockets = λ j hj.
          update_client_all HasSocket StreamClient.teardown i (stopped s) j
            (teardown-HasSocket (s.client i)) (v.sockets j hj);
    })
  ]
