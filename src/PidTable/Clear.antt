-- ===== src/PidTable/Clear.antt =====
-- What the loops over all PIDs do to each of them: `clear` and the constructor.
use satpi.Base.{ℕ, ◌<◌, ◌≡◌, ◌≢◌, refl, arith, view-for_range, for_range_inv}
use satpi.Base.{◌^◌}
use satpi.PidTable.{
  PidTable, PidData, opened, should_close, should_close_reopen, fresh_data, max_pids, clear,
  clear_pid, new_pid_table, reset_pid_data, get_total_cc_errors,
}

-- What `clear` makes of the data of one PID.
abbrev pub cleared : PidData → PidData
cleared d = elim d.state [
  | opened ↦ record d { state = should_close }
  | should_close ↦ d
  | should_close_reopen ↦ d
  | _ ↦ fresh_data
]

clear_pid_self : (i : ℕ) (t : PidTable) → (clear_pid i t).pids i ≡ cleared (t.pids i)
unfolding clear_pid
clear_pid_self i t = ground arith

clear_pid-other : (i j : ℕ) (t : PidTable) → i ≢ j → (clear_pid i t).pids j ≡ t.pids j
unfolding clear_pid
clear_pid-other i j t ne = ground arith

-- `clear` marks every open PID for closing, leaves a PID that waits to be closed as it is (one
-- that waits to be closed and reopened included), and resets the data of every other PID.
pub clear-cleared :
    (t : PidTable) (pid : ℕ) → pid < max_pids → (clear t).pids pid ≡ cleared (t.pids pid)
unfolding clear
clear-cleared t pid h =
    view-for_range (λ i s. s.pids i) clear_pid (λ i. cleared) clear_pid_self clear_pid-other 0
      max_pids pid _ (omega arith) (omega arith)

reset_pid_data_self : (i : ℕ) (t : PidTable) → (reset_pid_data i t).pids i ≡ fresh_data
unfolding reset_pid_data
reset_pid_data_self i t = ground arith

reset_pid_data-other : (i j : ℕ) (t : PidTable) → i ≢ j → (reset_pid_data i t).pids j ≡ t.pids j
unfolding reset_pid_data
reset_pid_data-other i j t ne = ground arith

-- A new table holds fresh data for every PID, whatever was in the memory of its array.
pub new_pid_table-fresh :
    (uninitialised : ℕ → PidData) (pid : ℕ)
    → pid < max_pids
    → (new_pid_table uninitialised).pids pid ≡ fresh_data
unfolding new_pid_table
new_pid_table-fresh uninitialised pid h =
    view-for_range (λ i s. s.pids i) reset_pid_data (λ i d. fresh_data) reset_pid_data_self
      reset_pid_data-other 0 max_pids pid _ (omega arith) (omega arith)

clear_pid_totals :
    (i : ℕ) (t : PidTable)
    → ((clear_pid i t).total_cc_errors ≡ t.total_cc_errors)
      × ((clear_pid i t).total_cc_errors_begin ≡ t.total_cc_errors_begin)
unfolding clear_pid
clear_pid_totals i t = ground arith

clear_totals :
    (t : PidTable)
    → ((clear t).total_cc_errors ≡ t.total_cc_errors) × ((clear t).total_cc_errors_begin ≡ 0)
unfolding clear
clear_totals t =
    for_range_inv (λ s. (s.total_cc_errors ≡ t.total_cc_errors) × (s.total_cc_errors_begin ≡ 0))
      clear_pid 0 max_pids _ (λ i s lo hi h. ground (arith, clear_pid_totals i s)) (refl, refl)

-- After `clear` the errors reported in total are not zero but all those ever counted, which are
-- fewer than 2^32.
pub get_total_cc_errors-clear :
    (t : PidTable) → t.total_cc_errors < 2 ^ 32 → get_total_cc_errors (clear t) ≡ t.total_cc_errors
unfolding get_total_cc_errors
get_total_cc_errors-clear t h = omega (arith, clear_totals t)
