-- ===== src/PidTable/Tests.antt =====
-- Runs of the PID table, and instances of its theorems.
use satpi.Base.{u32, ◌≡◌, refl, arith, false, [], ◌∷◌}
use satpi.PidTable.{PidTable, opened, set_pid, add_pid_data, get_cc_errors}
use satpi.PidTable.Counters.{receive, receive-missing}
use satpi.PidTable.Requests.{wanted, set_pid-wanted}

-- A table whose PIDs are open, the last packet of each with counter 14.
abbrev running : PidTable
running = record {
  total_cc_errors = 5;
  total_cc_errors_begin = 2;
  changed = false;
  pids = λ pid. record { state = opened; cc = 14; cc_error = 1; count = 9 };
}

receive_run : get_cc_errors (receive 100 (15 ∷ 0 ∷ 0 ∷ 3 ∷ []) running) 100 ≡ 3
unfolding receive add_pid_data get_cc_errors
receive_run = refl

receive-missing_example : u32 (get_cc_errors (receive 100 (15 ∷ 3 ∷ []) running) 100) ≡ 4
unfolding get_cc_errors
receive-missing_example = (receive-missing 100 (15 ∷ 3 ∷ []) running (omega arith) (omega arith)).1

set_pid-wanted_example : wanted ((set_pid 100 false running).pids 100).state ≡ false
set_pid-wanted_example = (set_pid-wanted 100 100 false running).0
