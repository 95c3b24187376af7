-- ===== src/PidTable/Requests.antt =====
-- What a request (`setPID`, `setPIDClosed`, `setPIDOpened`) makes of the state of a PID.
use satpi.Base.{ℕ, ◌≡◌, arith, Bool, true, false, ◌||◌, ◌&&◌, not, if◌then◌else◌, ◌==◌}
use satpi.PidTable.{
  PidTable, State, should_open, opened, should_close, should_close_reopen, is_opened, is_closing,
  is_should_open, set_pid,
}

-- Whether a PID in this state will be open once all pending opening and closing has been done.
abbrev pub wanted : State → Bool
wanted should_open = true
wanted opened = true
wanted should_close_reopen = true
wanted _ = false

-- Whether the device holds a filter for a PID in this state.
abbrev pub held : State → Bool
held opened = true
held should_close = true
held should_close_reopen = true
held _ = false

-- A request for use makes the PID wanted in every state. A request to drop it takes effect only
-- where the PID is open: one that still waits to be opened or reopened stays wanted. In no case
-- does the request itself change what the device holds, nor another PID.
pub set_pid-wanted :
    (pid j : ℕ) (use_it : Bool) (t : PidTable)
    → let before = (t.pids j).state in
      let after = ((set_pid pid use_it t).pids j).state in
      (wanted after
        ≡ (if j == pid then use_it || (wanted before && not (is_opened before)) else wanted before))
      × (held after ≡ held before)
unfolding set_pid
set_pid-wanted pid j use_it t = ground arith

-- The table is marked as changed exactly where the request leaves work to be done for the device
-- that was not there before, or was so marked already.
pub set_pid-changed :
    (pid : ℕ) (use_it : Bool) (t : PidTable)
    → let before = (t.pids pid).state in
      let after = ((set_pid pid use_it t).pids pid).state in
      (set_pid pid use_it t).changed ≡ (
        t.changed
        || (is_should_open after && not (is_should_open before))
        || (wanted after && is_closing after && not (wanted before))
        || (is_closing after && not (is_closing before)))
unfolding set_pid
set_pid-changed pid use_it t = ground arith
