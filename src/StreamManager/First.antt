-- ===== src/StreamManager/First.antt =====
-- Which stream a new session gets: the loop of `findStreamAndClientIDFor` of src/StreamManager.cpp.
use satpi.Base.{
  ℕ, zero, suc, ◌≡◌, inl, inr, refl, Bool, true, if◌then◌else◌, Option, none, some, List, [], ◌∷◌,
  Bool-cases, Option-cases, ap, sym, some_injective, get_elem?, ◌>>=◌, All,
}
use mathlib.Core.Path.{subst}
use satpi.StreamClient
use satpi.Stream.{Stream, Device, is_free_for, update_client}
use satpi.Stream.Sound.{IsSound}
use satpi.Stream.Sessions.{taken, find_client_id_for_new}
use satpi.StreamManager.{Found, find_in, find_from, find_at, set, later}

abbrev pub next : Option ℕ → Option ℕ
next none = none
next (some i) = some (suc i)

module _ {A : Type 0} where
  -- Where the first entry with the property stands.
  abbrev pub position : (A → Bool) → List A → Option ℕ
  position p [] = none
  position p (x ∷ xs) = if p x then some 0 else next (position p xs)

  -- The entry at a position is changed.
  abbrev pub modify : List A → ℕ → (A → A) → List A
  modify [] i f = []
  modify (x ∷ xs) zero f = f x ∷ xs
  modify (x ∷ xs) (suc i) f = x ∷ modify xs i f

module _ {D O : Type 0} (dev : Device D) (socket : ℕ) (session_id : List ℕ) where
  abbrev pub owned : Stream D O → Stream D O
  owned s = update_client 0 (StreamClient.set_session_id session_id) (taken socket s)

  abbrev pub given : List (Stream D O) → Option ℕ → Found D O
  given streams none = none
  given streams (some i) = some (modify streams i owned, i, 0)

  abbrev pub map_found : (Option ℕ → Found D O) → Option (Option ℕ) → Option (Found D O)
  map_found f none = none
  map_found f (some at) = some (f at)

  later-given :
      (s : Stream D O) (streams : List (Stream D O)) (at : Option ℕ)
      → later s (given streams at) ≡ given (s ∷ streams) (next at)
  later-given s streams none = refl
  later-given s streams (some i) = refl

  -- The loop over all streams takes the first one that is free.
  find_in-first :
      (params : List (List ℕ)) (streams : List (Stream D O))
      → All IsSound streams
      → find_in dev socket params true session_id streams
        ≡ given streams (position (is_free_for dev params) streams)
  unfolding find_in
  find_in-first params [] a = refl
  find_in-first params (s ∷ streams) a = elim (Bool-cases (is_free_for dev params s)) [
    | inl e ↦ rw (find_client_id_for_new dev socket params session_id s a.0, e, find_in) refl
    | inr e ↦
        rw (find_client_id_for_new dev socket params session_id s a.0, e, find_in)
          (rw (find_in-first params streams a.1)
            (later-given s streams (position (is_free_for dev params) streams)))
  ]

  -- Which stream a new session gets: the one that it asks for if that is free, else the first free one.
  abbrev pub choice : (Stream D O → Bool) → Option ℕ → List (Stream D O) → Option (Option ℕ)
  choice free none streams = some (position free streams)
  choice free (some i) streams = elim (get_elem? streams i) [
    | none ↦ none
    | some s ↦ some (if free s then some i else position free streams)
  ]

  set-modify :
      (streams : List (Stream D O)) (i : ℕ) (s : Stream D O)
      → get_elem? streams i ≡ some s
      → set streams i (owned s) ≡ modify streams i owned
  set-modify [] i s e = absurd (cc)
  set-modify (t ∷ streams) zero s e = ap (λ x. owned x ∷ streams) (sym (some_injective _ _ e))
  set-modify (t ∷ streams) (suc i) s e = ap (◌∷◌ t) (set-modify streams i s e)

  All-get :
      (streams : List (Stream D O)) (i : ℕ) (s : Stream D O)
      → All IsSound streams
      → get_elem? streams i ≡ some s
      → IsSound s
  All-get [] i s a e = absurd (cc)
  All-get (t ∷ streams) zero s a e = subst IsSound (some_injective _ _ e) a.0
  All-get (t ∷ streams) (suc i) s a e = All-get streams i s a.1 e

  -- A new session gets the stream that it asks for if that is free (enabled, not in use, and its device
  -- capable of the delivery system or of transforming the request to one), else, or if it asks for
  -- none, the first free stream. It becomes the owner of that stream; the other streams are left as
  -- they are, and without a free stream nothing changes. A stream asked for that does not exist is a
  -- read behind the streams.
  pub find_at-first :
      (params : List (List ℕ)) (fe_index : Option ℕ) (streams : List (Stream D O))
      → All IsSound streams
      → find_at dev socket params true session_id fe_index streams
        ≡ map_found (given streams) (choice (is_free_for dev params) fe_index streams)
  unfolding find_from
  find_at-first params none streams a = ap some (find_in-first params streams a)
  find_at-first params (some i) streams a = elim (Option-cases (get_elem? streams i)) [
    | inl e ↦ rw (e, choice) refl
    | inr (s, e) ↦
        let new = find_client_id_for_new dev socket params session_id s (All-get streams i s a e) in
        elim (Bool-cases (is_free_for dev params s)) [
          | inl f ↦
              rw (e, choice, ◌>>=◌, new, f)
                (ap (λ x. some (some (x, i, 0))) (set-modify streams i s e))
          | inr f ↦ rw (e, choice, ◌>>=◌, new, f) (ap some (find_in-first params streams a))
        ]
  ]
