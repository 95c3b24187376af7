-- ===== src/HttpcServer/Sessions.antt =====
-- The streams of the server of src/HttpcServer.cpp over its requests and its session checks.
use satpi.Base.{
  ℕ, zero, suc, ◌≡◌, ◌≢◌, inl, inr, refl, Bool, true, false, not, ◌&&◌, if◌then◌else◌, Option, none,
  some, List, [], ◌∷◌, get_elem?, Bool-cases, All, ℤ, Results, stops, gives, Results-if,
  Results-bind, Results-read,
}
use satpi.Text.{codes}
use satpi.Text.Search.{text_eq, not_empty}
use satpi.Params.{get_field_parameter, get_int_parameter}
use satpi.Message.{
  SocketClient, get_headers, get_method, get_transport_parameters, has_transport_parameters,
}
use satpi.StreamClient.{no_session}
use satpi.Stream.{Stream, Device, Output, update_stream}
use satpi.Stream.Sound.{IsSound, owner_left-IsSound}
use satpi.Stream.Answer.{update_stream-Keeps, process_streaming_request-Keeping}
use satpi.Stream.Sessions.{IsServing, taken-IsServing, Keeps-IsServing, found_owner}
use satpi.Stream.Request.{int}
use satpi.StreamManager.{
  Found, find_in, find_from, find_at, set, later, find_frontend_id, find_stream_and_client_id_for,
}
use satpi.HttpcServer.{Reply, update_or_teardown, run_method, serve, process_request}

module _ {D O : Type 0} (dev : Device D) (out : Output O) where
  update_or_teardown-IsSound :
      (reply : Reply) (s : Stream D O)
      → IsServing s
      → IsSound (update_or_teardown dev out 0 reply s).0
  unfolding update_or_teardown
  update_or_teardown-IsSound reply s g = elim (Bool-cases (update_stream dev out 0 s).1) [
    | inl e ↦ rw e (Keeps-IsServing g (update_stream-Keeps 0 dev out s)).sound
    | inr e ↦ rw e (owner_left-IsSound dev (update_stream dev out 0 s).0).0
  ]

  -- Of a stream that comes with a reply.
  record SoundFirst (r : Stream D O × Reply) : Type 0 where
    first : IsSound r.0

  SoundFirst-if :
      (b : Bool) {x y : Stream D O × Reply}
      → SoundFirst x
      → SoundFirst y
      → SoundFirst (if b then x else y)
  SoundFirst-if true a b = a
  SoundFirst-if false a b = b

  run_method-IsSound :
      (method : List ℕ) (params : List (List ℕ)) (session_id : List ℕ) (cseq : ℤ)
      (fe_index : Option ℕ) (s : Stream D O)
      → IsServing s
      → SoundFirst (run_method dev out method params session_id cseq fe_index 0 s)
  unfolding run_method
  run_method-IsSound method params session_id cseq fe_index s g =
      SoundFirst-if (text_eq method (codes "GET"))
        (record { first = (Keeps-IsServing g (update_stream-Keeps 0 dev out s)).sound })
        (SoundFirst-if (text_eq method (codes "SETUP"))
          (record { first = update_or_teardown-IsSound _ s g })
          (SoundFirst-if (text_eq method (codes "PLAY"))
            (record { first = update_or_teardown-IsSound _ s g })
            (SoundFirst-if (text_eq method (codes "TEARDOWN"))
              (record { first = (owner_left-IsSound dev s).0 })
              (SoundFirst-if (text_eq method (codes "OPTIONS")) (record { first = g.sound })
                (SoundFirst-if (text_eq method (codes "DESCRIBE")) (record { first = g.sound })
                  (record { first = g.sound }))))))

-- A position of a list holds what all of the list are, and may be given something else of the kind.
-- The session that a request names is not the one that stands for a free client.
abbrev pub IsProper : SocketClient → Type 0
IsProper client = get_field_parameter (codes "Session") (get_headers client) ≢ no_session

at_position :
    {A : Type 0} (P : A → Type 0) (xs : List A) (i : ℕ)
    → All P xs
    → Results (λ x. (get_elem? xs i ≡ some x) × P x) (get_elem? xs i)
at_position P [] i a = stops
at_position P (x ∷ xs) zero a = gives (refl, a.0)
at_position P (x ∷ xs) (suc i) a = at_position P xs i a.1

module _ {D O : Type 0} where
  set-All :
      (P : Stream D O → Type 0) (xs : List (Stream D O)) (i : ℕ) (x : Stream D O)
      → All P xs
      → P x
      → All P (set xs i x)
  set-All P [] i x a h = tt
  set-All P (y ∷ xs) zero x a h = (h, a.1)
  set-All P (y ∷ xs) (suc i) x a h = (a.0, set-All P xs i x a.1 h)

  get_elem?-set :
      (xs : List (Stream D O)) (i : ℕ) (x : Stream D O) {y : Stream D O}
      → get_elem? xs i ≡ some y
      → get_elem? (set xs i x) i ≡ some x
  get_elem?-set [] i x h = absurd (cc)
  get_elem?-set (y ∷ xs) zero x h = refl
  get_elem?-set (y ∷ xs) (suc i) x h = get_elem?-set xs i x h

  -- What a search may give: nobody, or the owner of a stream that serves it.
  data IsFound : Found D O → Type 0 where
    nobody : IsFound none
    owner :
        {streams : List (Stream D O)} {i : ℕ} (s : Stream D O)
        → All IsSound streams
        → get_elem? streams i ≡ some s
        → IsServing s
        → IsFound (some (streams, i, 0))

  later-IsFound : {r : Found D O} (s : Stream D O) → IsSound s → IsFound r → IsFound (later s r)
  later-IsFound s v nobody = nobody
  later-IsFound s v (owner t a at g) = owner t (v, a) at g

  module _ (dev : Device D) (socket : ℕ) (params : List (List ℕ)) (new_session : Bool)
      (session_id : List ℕ) (proper : session_id ≢ no_session) where
    find_in-IsFound :
        (streams : List (Stream D O))
        → All IsSound streams
        → IsFound (find_in dev socket params new_session session_id streams)
    unfolding find_in
    find_in-IsFound [] a = nobody
    find_in-IsFound (s ∷ streams) a =
        elim (found_owner dev socket params new_session session_id s a.0 proper) [
          | inl e ↦ rw (e, find_in) (later-IsFound s a.0 (find_in-IsFound streams a.1))
          | inr e ↦
              let g = taken-IsServing socket session_id s a.0 proper in
              rw (e, find_in) (owner _ (g.sound, a.1) refl g)
        ]

    find_from-IsFound :
        (fe_index : ℕ) (streams : List (Stream D O))
        → All IsSound streams
        → Results IsFound (find_from dev socket params new_session session_id fe_index streams)
    unfolding find_from
    find_from-IsFound fe_index streams a =
        Results-bind (at_position IsSound streams fe_index a) (λ s h.
          elim (found_owner dev socket params new_session session_id s h.1 proper) [
            | inl e ↦ rw (e, find_from) (gives (find_in-IsFound streams a))
            | inr e ↦
                let g = taken-IsServing socket session_id s h.1 proper in
                rw (e, find_from)
                  (gives (
                    owner _ (set-All IsSound streams fe_index _ a g.sound)
                      (get_elem?-set streams fe_index _ h.0) g))
          ])

    find_at-IsFound :
        (fe_index : Option ℕ) (streams : List (Stream D O))
        → All IsSound streams
        → Results IsFound (find_at dev socket params new_session session_id fe_index streams)
    find_at-IsFound none streams a = gives (find_in-IsFound streams a)
    find_at-IsFound (some fe_index) streams a = find_from-IsFound fe_index streams a

  find-IsFound :
      (dev : Device D) (fresh : List ℕ) (client : SocketClient) (streams : List (Stream D O))
      → fresh ≢ no_session
      → IsProper client
      → All IsSound streams
      → Results IsFound (find_stream_and_client_id_for dev fresh client streams)
  unfolding find_stream_and_client_id_for
  find-IsFound dev fresh client streams new proper a =
      let session_id = get_field_parameter (codes "Session") (get_headers client) in
      Results-read (get_transport_parameters client) (λ params.
        Results-read (find_frontend_id params streams) (λ fe_index.
          Results-if (not_empty session_id)
            (find_at-IsFound dev client.socket params false session_id proper fe_index streams a)
            (Results-if (has_transport_parameters client)
              (find_at-IsFound dev client.socket params true fresh new fe_index streams a)
              (gives nobody))))

module _ {D O : Type 0} (dev : Device D) (out : Output O) where
  -- Of the streams that come with a reply.
  abbrev pub AllSound : List (Stream D O) × Reply → Type 0
  AllSound r = All IsSound r.0

  serve-AllSound :
      (now : ℕ) (ip_of : ℕ → List ℕ) (client : SocketClient) (method : List ℕ)
      (params : List (List ℕ)) (session_id : List ℕ) (cseq : ℤ) (fe_index : Option ℕ)
      (streams : List (Stream D O)) (found : Found D O)
      → All IsSound streams
      → IsFound found
      → Results AllSound
          (serve dev out now ip_of client method params session_id cseq fe_index streams found)
  unfolding serve
  serve-AllSound now ip_of client method params session_id cseq fe_index streams none a nobody =
      gives a
  serve-AllSound now ip_of client method params session_id cseq fe_index streams
        (some (streams', i, zero)) a (owner s all at g) =
      rw (at, serve)
        (Results-bind (process_streaming_request-Keeping 0 dev out now ip_of client s) (λ s' k.
          gives (
            set-All IsSound streams' i _ all
              (run_method-IsSound dev out method params session_id cseq fe_index s'
                (Keeps-IsServing g k)).first)))
  serve-AllSound now ip_of client method params session_id cseq fe_index streams
        (some (streams', i, suc k)) a f =
      elim f [ ]

  pub process_request-AllSound :
      (fresh : List ℕ) (now : ℕ) (ip_of : ℕ → List ℕ) (client : SocketClient)
      (streams : List (Stream D O))
      → fresh ≢ no_session
      → IsProper client
      → All IsSound streams
      → Results AllSound (process_request dev out fresh now ip_of client streams)
  unfolding process_request
  process_request-AllSound fresh now ip_of client streams new proper a =
      let session_id = get_field_parameter (codes "Session") (get_headers client) in
      Results-read (get_transport_parameters client) (λ params. Results-read _ (λ cseq.
        Results-read (int (get_int_parameter (codes "stream") params)) (λ stream_id.
          Results-read (get_method client) (λ method.
            Results-if (not (not_empty session_id) && text_eq method (codes "OPTIONS")) (gives a) (
              Results-if (not (not_empty session_id) && text_eq method (codes "DESCRIBE")) (gives a)
                (Results-bind (find-IsFound dev fresh client streams new proper a) (λ found f.
                  serve-AllSound now ip_of client method params session_id cseq _ streams found a
                    f)))))))
