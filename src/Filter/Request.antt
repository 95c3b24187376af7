-- ===== src/Filter/Request.antt =====
-- `parsePIDString` of src/mpegts/Filter.cpp: the PIDs that a client asks for, or drops.
use satpi.Base.{ℕ, Bool, true, false, ◌||◌, if◌then◌else◌, ltb, List, [], ◌∷◌}
use satpi.Text.{codes, contains, split, value, negative, invalid_argument, out_of_range, stoi}
use satpi.PidTable
use satpi.PidTable.{PidTable}
use satpi.Filter.{Filter}

-- What a request comes to: it is done; the exception that `std::stoi` throws for a number that is
-- too large leaves the function, with the PIDs before it set; or a PID is written that the array of
-- the PID table has no place for.
pub data Outcome : Type 0 where
  done : PidTable → Outcome
  thrown : PidTable → Outcome
  out_of_bounds : Outcome

-- The loops over the PIDs of a list: PIDs up to 18 of a request are not dropped. The array has
-- `MAX_PIDS` places, and nothing looks at the bound.
unfoldable pub set_pids : Bool → Bool → List (List ℕ) → PidTable → Outcome
set_pids any add [] t = done t
set_pids any add (pid ∷ pids) t =
    let skipped = set_pids any add pids t in
    elim (stoi pid) [
      | value p ↦
          if any || ltb 18 p || add
          then if ltb p PidTable.max_pids
            then set_pids any add pids (PidTable.set_pid p add t)
            else out_of_bounds
          else skipped
      | negative p ↦ if any || add then out_of_bounds else skipped
      | invalid_argument ↦ skipped
      | out_of_range ↦ thrown t
    ]

abbrev pub and_then : Outcome → (PidTable → Outcome) → Outcome
and_then (done t) k = k t
and_then (thrown t) k = thrown t
and_then out_of_bounds k = out_of_bounds

unfoldable pub request_pids : List ℕ → Bool → List ℕ → PidTable → Outcome
request_pids req_pids add user_pids t =
    if contains (codes "all") req_pids || contains (codes "none") req_pids
    then done (
        if contains (codes "all") req_pids
        then PidTable.set_all_pid add (PidTable.clear t)
        else PidTable.clear t)
    else and_then (set_pids false add (split req_pids (codes ",")) t)
        (λ t'. (if add then set_pids true true (split user_pids (codes ",")) t' else done t'))

unfoldable pub parse_pid_string : {N S : Type 0} → List ℕ → Bool → Filter N S → Outcome
parse_pid_string req_pids add f = request_pids req_pids add f.user_pids f.pid_table
