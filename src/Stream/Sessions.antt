-- ===== src/Stream/Sessions.antt =====
-- Which client of a stream a request finds (`findClientIDFor` of src/Stream.cpp), and what a stream is
-- after the request was served.
use satpi.Base.{
  ℕ, ◌<◌, ◌≡◌, ◌≢◌, ◌⊎◌, inl, inr, refl, sym, ◌∙◌, arith, Bool, true, false, if◌then◌else◌, none,
  some, List, Bool-cases, ne→==,
}
use native.Mathlib.Decide.{ℕ_discrete}
use satpi.Text.Search.{text_eq, text_eq_iff}
use satpi.StreamClient
use satpi.StreamClient.{StreamClient, no_session}
use satpi.Stream
use satpi.Stream.{Stream, Device, max_clients, find_slot, is_free_for, update_client}
use satpi.Stream.Sound.{IsSound, IsFree}
use satpi.Stream.Keeps.{Keeps}

not_the_session :
    (c : StreamClient) (session_id : List ℕ)
    → IsFree c
    → session_id ≢ no_session
    → text_eq c.session_id session_id ≡ false
not_the_session c session_id free ne = elim (Bool-cases (text_eq c.session_id session_id)) [
  | inl e ↦ absurd (ne (sym ((text_eq_iff c.session_id session_id).0 e) ∙ free))
  | inr e ↦ e
]

-- The stream with its first client taken.
abbrev pub taken : {D O : Type 0} → ℕ → Stream D O → Stream D O
taken socket s = record (update_client 0 (StreamClient.set_socket_client socket) s) {
  stream_in_use = true;
}

module _ {D O : Type 0} (dev : Device D) (socket : ℕ) (params : List (List ℕ)) where
  -- A new session gets the first client of a stream that is free for it, and no other stream.
  pub find_client_id_for_new :
      (session_id : List ℕ) (s : Stream D O)
      → IsSound s
      → Stream.find_client_id_for dev socket params true session_id s
        ≡ (if is_free_for dev params s then some (taken socket s, 0) else none)
  unfolding Stream.find_client_id_for find_slot
  find_client_id_for_new session_id s v = elim (Bool-cases (is_free_for dev params s)) [
    | inl e ↦
        let unused : s.stream_in_use ≡ false = ground arith in
        let first : text_eq (s.client 0).session_id no_session ≡ true = rw (v.owned, unused) refl in
        rw e (rw (first) refl)
    | inr e ↦ rw e refl
  ]

  -- Any other session finds the client that has it, which is the owner.
  pub find_client_id_for_known :
      (session_id : List ℕ) (s : Stream D O)
      → IsSound s
      → session_id ≢ no_session
      → Stream.find_client_id_for dev socket params false session_id s
        ≡ (if text_eq (s.client 0).session_id session_id then some (taken socket s, 0) else none)
  unfolding Stream.find_client_id_for
  find_client_id_for_known session_id s v ne =
      let missed = λ (i : ℕ) (lo : 0 < i) (hi : i < max_clients).
        not_the_session (s.client i) session_id (v.others i lo hi) ne in
      elim (Bool-cases (text_eq (s.client 0).session_id session_id)) [
        | inl e ↦ rw e refl
        | inr e ↦
            rw
              (
                e,
                missed 1 (omega arith) (omega arith),
                missed 2 (omega arith) (omega arith),
                missed 3 (omega arith) (omega arith),
                missed 4 (omega arith) (omega arith),
                missed 5 (omega arith) (omega arith),
                missed 6 (omega arith) (omega arith),
                missed 7 (omega arith) (omega arith),
              )
              refl
      ]

  -- A session that is not "-1" finds nobody or becomes the owner.
  pub found_owner :
      (new_session : Bool) (session_id : List ℕ) (s : Stream D O)
      → IsSound s
      → session_id ≢ no_session
      → (Stream.find_client_id_for dev socket params new_session session_id s ≡ none)
        ⊎ (Stream.find_client_id_for dev socket params new_session session_id s
            ≡ some (taken socket s, 0))
  found_owner true session_id s v ne = elim (Bool-cases (is_free_for dev params s)) [
    | inl e ↦ inr (rw (find_client_id_for_new session_id s v, e) refl)
    | inr e ↦ inl (rw (find_client_id_for_new session_id s v, e) refl)
  ]
  found_owner false session_id s v ne =
      elim (Bool-cases (text_eq (s.client 0).session_id session_id)) [
        | inl e ↦ inr (rw (find_client_id_for_known session_id s v ne, e) refl)
        | inr e ↦ inl (rw (find_client_id_for_known session_id s v ne, e) refl)
      ]

-- A stream that serves its owner.
pub record IsServing {D O : Type 0} (s : Stream D O) : Type 0 where
  pub sound : IsSound s
  pub in_use : s.stream_in_use ≡ true
  pub has_socket : (s.client 0).socket_client ≢ none

module _ {D O : Type 0} where
  -- Whoever gets the stream is its owner, with the session.
  pub taken-IsServing :
      (socket : ℕ) (session_id : List ℕ) (s : Stream D O)
      → IsSound s
      → session_id ≢ no_session
      → IsServing (update_client 0 (StreamClient.set_session_id session_id) (taken socket s))
  unfolding StreamClient.set_session_id StreamClient.set_socket_client
  taken-IsServing socket session_id s v ne = record {
    sound = record {
      others = λ i lo hi. rw (ne→== i 0 (λ e. omega arith)) (v.others i lo hi);
      owned = elim (Bool-cases (text_eq session_id no_session)) [
        | inl e ↦ absurd (ne ((text_eq_iff session_id no_session).0 e))
        | inr e ↦ e
      ];
      idle = λ h. absurd (cc);
      sockets = λ i hi h. elim (ℕ_discrete i 0) [
        | yes e ↦ rw (e) (λ n. cc)
        | no z ↦ rw (ne→== i 0 z) (v.sockets i hi (rw (ne→== i 0 z) at h))
      ];
    };
    in_use = refl;
    has_socket = λ h. cc;
  }

  -- What is kept keeps the stream serving.
  pub Keeps-IsServing : {s t : Stream D O} → IsServing s → Keeps 0 s t → IsServing t
  Keeps-IsServing {s} {t} g k =
      let v = g.sound in
      record {
        sound = record {
          others = λ i lo hi. k.session i ∙ v.others i lo hi;
          owned = rw (k.session 0, k.in_use) v.owned;
          idle = λ h. absurd (cc);
          sockets = λ i hi h none_. elim (ℕ_discrete i 0) [
            | yes e ↦ g.has_socket (sym (k.socket 0) ∙ rw e at none_)
            | no z ↦ v.sockets i hi (sym (k.check i z) ∙ h) (sym (k.socket i) ∙ none_)
          ];
        };
        in_use = k.in_use ∙ g.in_use;
        has_socket = λ h. g.has_socket (sym (k.socket 0) ∙ h);
      }
