-- ===== src/Stream/Keeps.antt =====
-- What a request of one client to src/Stream.cpp leaves alone: the sessions, the sockets, who uses
-- the stream, and how the other clients are watched.
use satpi.Base.{
  ℕ, ◌≡◌, ◌≢◌, refl, ap, ◌∙◌, Bool, true, false, if◌then◌else◌, Option, List, ne→==, ==_refl,
  Results, stops, gives,
}
use native.Mathlib.Decide.{ℕ_discrete}
use satpi.StreamClient.{StreamClient}
use satpi.Stream.{Stream, update_client}

pub record Keeps {D O : Type 0} (client_id : ℕ) (s t : Stream D O) : Type 0 where
  pub in_use : t.stream_in_use ≡ s.stream_in_use
  pub session : (i : ℕ) → (t.client i).session_id ≡ (s.client i).session_id
  pub socket : (i : ℕ) → (t.client i).socket_client ≡ (s.client i).socket_client
  pub check :
      (i : ℕ)
      → i ≢ client_id
      → (t.client i).session_timeout_check ≡ (s.client i).session_timeout_check

-- The same of a result, if there is one.
abbrev pub Keeping : {D O : Type 0} → ℕ → Stream D O → Option (Stream D O) → Type 0
Keeping client_id s = Results (Keeps client_id s)

-- The same of a stream that comes with headers.
pub record KeepsFirst {D O : Type 0} (client_id : ℕ) (s : Stream D O)
    (r : Stream D O × List (List ℕ)) : Type 0 where
  pub first : Keeps client_id s r.0

module _ {D O : Type 0} {k : ℕ} where
  -- A change that leaves the clients alone.
  pub same_clients :
      (s t : Stream D O) → t.stream_in_use ≡ s.stream_in_use → t.client ≡ s.client → Keeps k s t
  same_clients s t use_ e = record {
    in_use = use_;
    session = λ i. ap (λ (c : ℕ → StreamClient). (c i).session_id) e;
    socket = λ i. ap (λ (c : ℕ → StreamClient). (c i).socket_client) e;
    check = λ i ne. ap (λ (c : ℕ → StreamClient). (c i).session_timeout_check) e;
  }

  pub Keeps-refl : (s : Stream D O) → Keeps k s s
  Keeps-refl s = same_clients s s refl refl

  pub Keeps-trans : {s t u : Stream D O} → Keeps k s t → Keeps k t u → Keeps k s u
  Keeps-trans a b = record {
    in_use = b.in_use ∙ a.in_use;
    session = λ i. b.session i ∙ a.session i;
    socket = λ i. b.socket i ∙ a.socket i;
    check = λ i ne. b.check i ne ∙ a.check i ne;
  }

  -- A change of the client itself that leaves its session and socket alone.
  pub update_client-Keeps :
      (f : StreamClient → StreamClient) (s : Stream D O)
      → (f (s.client k)).session_id ≡ (s.client k).session_id
      → (f (s.client k)).socket_client ≡ (s.client k).socket_client
      → Keeps k s (update_client k f s)
  update_client-Keeps f s session socket = record {
    in_use = refl;
    session = λ i. elim (ℕ_discrete i k) [
      | yes e ↦ rw e (rw (==_refl k) session)
      | no ne ↦ rw (ne→== i k ne) refl
    ];
    socket = λ i. elim (ℕ_discrete i k) [
      | yes e ↦ rw e (rw (==_refl k) socket)
      | no ne ↦ rw (ne→== i k ne) refl
    ];
    check = λ i ne. rw (ne→== i k ne) refl;
  }

  pub Keeps-if :
      (b : Bool) {s t u : Stream D O} → Keeps k s t → Keeps k s u → Keeps k s (if b then t else u)
  Keeps-if true a b = a
  Keeps-if false a b = b

  pub Keeping-trans :
      {s t : Stream D O} {m : Option (Stream D O)} → Keeps k s t → Keeping k t m → Keeping k s m
  Keeping-trans h stops = stops
  Keeping-trans h (gives g) = gives (Keeps-trans h g)

  pub KeepsFirst-if :
      (b : Bool) {s : Stream D O} {x y : Stream D O × List (List ℕ)}
      → KeepsFirst k s x
      → KeepsFirst k s y
      → KeepsFirst k s (if b then x else y)
  KeepsFirst-if true a b = a
  KeepsFirst-if false a b = b
