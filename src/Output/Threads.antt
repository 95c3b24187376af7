-- ===== src/Output/Threads.antt =====
-- The two threads at a stream of src/output/StreamThreadBase.cpp: the one that reads from the device
-- and sends, and the one that starts, pauses and restarts it. They share `_state` alone here, an
-- atomic variable; each read or write of it is a step of its own.
use satpi.Base.{◌≡◌, Bool, true, false}

pub data State : Type 0 where
  running pause paused : State

-- The thread of `threadEntry`: at the head of its loop, between reading `Pause` and writing `Paused`,
-- or in `readDataFromInputDevice`.
pub data Reader : Type 0 where
  at_loop read_pause reading : Reader

-- The thread of the requests: outside, waiting in `pauseStreaming`, or behind it with its result.
pub data Control : Type 0 where
  outside waiting : Control
  returned : Bool → Control

pub record Threads : Type 0 where
  pub state : State
  pub reader : Reader
  pub control : Control

-- After `startStreaming`.
abbrev pub started : Threads
started = record { state = running; reader = at_loop; control = outside }

-- Steps of the reading thread.
pub data Reads : Threads → Threads → Type 0 where
  begin_read :
      (c : Control)
      → Reads
          record { state = running; reader = at_loop; control = c }
          record { state = running; reader = reading; control = c }
  end_read :
      (s : State) (c : Control)
      → Reads
          record { state = s; reader = reading; control = c }
          record { state = s; reader = at_loop; control = c }
  see_pause :
      (c : Control)
      → Reads
          record { state = pause; reader = at_loop; control = c }
          record { state = pause; reader = read_pause; control = c }
  write_paused :
      (s : State) (c : Control)
      → Reads
          record { state = s; reader = read_pause; control = c }
          record { state = paused; reader = at_loop; control = c }

abbrev pub is_waiting : Control → Bool
is_waiting waiting = true
is_waiting _ = false

-- Steps of the thread of the requests: a wait ends with the state that it waits for, or by the time
-- that is over. A stream may be paused or restarted at any time but during a wait.
pub data Controls : Threads → Threads → Type 0 where
  pause_streaming :
      (s : State) (r : Reader) (c : Control)
      → is_waiting c ≡ false
      → Controls
          record { state = s; reader = r; control = c }
          record { state = pause; reader = r; control = waiting }
  see_paused :
      (r : Reader)
      → Controls
          record { state = paused; reader = r; control = waiting }
          record { state = paused; reader = r; control = returned true }
  time_out :
      (s : State) (r : Reader)
      → Controls
          record { state = s; reader = r; control = waiting }
          record { state = s; reader = r; control = returned false }
  restart_streaming :
      (s : State) (r : Reader) (c : Control)
      → is_waiting c ≡ false
      → Controls
          record { state = s; reader = r; control = c }
          record { state = running; reader = r; control = outside }

-- Any interleaving of the two.
pub data Run (from : Threads) : Threads → Type 0 where
  here : Run from from
  reads : {t t' : Threads} → Run from t → Reads t t' → Run from t'
  controls : {t t' : Threads} → Run from t → Controls t t' → Run from t'

-- Only the reading thread goes on.
pub data ReadsOn (from : Threads) : Threads → Type 0 where
  stay : ReadsOn from from
  go : {t t' : Threads} → ReadsOn from t → Reads t t' → ReadsOn from t'
