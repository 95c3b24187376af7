-- ===== src/PidTable.antt =====
-- src/mpegts/PidTable.{h,cpp}: which PIDs of the transport stream are wanted, which are open, and
-- the packet and continuity counters of each. The array `_data` is a total map from the PID; the
-- code checks no bound on its index, and what calls with an index out of `MAX_PIDS` do is a
-- matter of the caller (`Filter`).
pub mod Counters
pub mod Clear
pub mod Requests
mod Tests
use satpi.Base.{
  ℕ, ◌+◌, ◌-◌, ◌%◌, ◌^◌, Bool, true, false, ◌||◌, if◌then◌else◌, ◌==◌, ltb, update, for_range, u32,
}

pub data State : Type 0 where
  should_open opened should_close should_close_reopen closed : State

-- `count` and `cc_error` are uint32_t, `cc` is an uint8_t.
pub record PidData : Type 0 where
  pub state : State
  pub cc : ℕ
  pub cc_error : ℕ
  pub count : ℕ

pub record PidTable : Type 0 where
  pub total_cc_errors : ℕ
  pub total_cc_errors_begin : ℕ
  pub changed : Bool
  pub pids : ℕ → PidData

abbrev pub max_pids : ℕ
max_pids = 8193

abbrev pub all_pids : ℕ
all_pids = 8192

-- `0x80`: no continuity counter seen yet.
abbrev pub no_cc : ℕ
no_cc = 0x80

abbrev pub is_opened : State → Bool
is_opened opened = true
is_opened _ = false

abbrev pub is_closing : State → Bool
is_closing should_close = true
is_closing should_close_reopen = true
is_closing _ = false

abbrev pub is_should_open : State → Bool
is_should_open should_open = true
is_should_open _ = false

abbrev pub fresh_data : PidData
fresh_data = record { state = closed; cc = no_cc; cc_error = 0; count = 0 }

abbrev pub put : PidTable → ℕ → PidData → PidTable
put t pid d = record t { pids = update t.pids pid d }

unfoldable pub reset_pid_data : ℕ → PidTable → PidTable
reset_pid_data pid t = put t pid fresh_data

-- The `switch` of `setPID`: the next state, if there is a transition. The table is then marked as
-- changed.
unfoldable pub request : State → Bool → State × Bool
request closed true = (should_open, true)
request should_close true = (should_close_reopen, true)
request opened false = (should_close, true)
request s use_it = (s, false)

unfoldable pub set_pid : ℕ → Bool → PidTable → PidTable
unfolding request
set_pid pid use_it t =
    let d = t.pids pid in
    let (s, moved) = request d.state use_it in
    record t { changed = moved || t.changed; pids = update t.pids pid (record d { state = s }) }

unfoldable pub set_all_pid : Bool → PidTable → PidTable
unfolding set_pid
set_all_pid use_it t = set_pid all_pids use_it t

unfoldable pub reset_pid_table_changed : PidTable → PidTable
reset_pid_table_changed t = record t { changed = false }

-- `clear` treats each PID by its state: one that is open, or on its way to be closed, is marked
-- for closing later; the data of the others is reset.
unfoldable pub clear_pid : ℕ → PidTable → PidTable
unfolding set_pid reset_pid_data
clear_pid pid t = elim ((t.pids pid).state) [
  | closed ↦ reset_pid_data pid t
  | should_open ↦ reset_pid_data pid t
  | _ ↦ set_pid pid false t
]

unfoldable pub clear : PidTable → PidTable
unfolding clear_pid
clear t = for_range 0 max_pids clear_pid (record t { changed = false; total_cc_errors_begin = 0 })

-- The constructor: the array of a new object holds no values before its loop has run.
unfoldable pub new_pid_table : (ℕ → PidData) → PidTable
unfolding reset_pid_data
new_pid_table uninitialised = for_range 0 max_pids reset_pid_data (record {
  total_cc_errors = 0;
  total_cc_errors_begin = 0;
  changed = false;
  pids = uninitialised;
})

-- The distance from the expected counter to the one received, as the code computes it: `cc` is
-- at most 15, and so is `expected`.
unfoldable pub cc_diff : ℕ → ℕ → ℕ
cc_diff cc expected = if ltb cc expected then cc + 16 - expected else cc - expected

unfoldable pub next_cc : ℕ → ℕ
next_cc cc = (cc + 1) % 256 % 16

-- A gap: the first one after a `clear` also notes where the total stood.
unfoldable pub count_gap : ℕ → ℕ → ℕ → PidTable → PidTable
unfolding cc_diff
count_gap pid cc expected t =
    let d = t.pids pid in
    let diff = cc_diff cc expected in
    record t {
      total_cc_errors_begin =
          (if t.total_cc_errors_begin == 0 then t.total_cc_errors else t.total_cc_errors_begin);
      total_cc_errors = u32 (t.total_cc_errors + diff);
      pids =
          update t.pids pid
            (record d { cc = cc; cc_error = u32 (d.cc_error + diff); count = u32 (d.count + 1) });
    }

unfoldable pub add_pid_data : ℕ → ℕ → PidTable → PidTable
unfolding next_cc count_gap
add_pid_data pid cc t =
    let d = t.pids pid in
    let counted = record d { count = u32 (d.count + 1) } in
    if d.cc == no_cc
    then put t pid (record counted { cc = cc })
    else if d.cc == cc
    then put t pid counted
    else if next_cc d.cc == cc
    then put t pid (record counted { cc = next_cc d.cc })
    else count_gap pid cc (next_cc d.cc) t

unfoldable pub set_pid_closed : ℕ → PidTable → PidTable
set_pid_closed pid t = elim ((t.pids pid).state) [
  | should_close_reopen ↦ record t {
    changed = true;
    pids = update t.pids pid (record fresh_data { state = should_open });
  }
  | _ ↦ put t pid fresh_data
]

unfoldable pub set_pid_opened : ℕ → PidTable → PidTable
set_pid_opened pid t = put t pid (record (t.pids pid) { state = opened })

unfoldable pub is_pid_opened : PidTable → ℕ → Bool
is_pid_opened t pid = is_opened (t.pids pid).state

unfoldable pub should_pid_close : PidTable → ℕ → Bool
should_pid_close t pid = is_closing (t.pids pid).state

unfoldable pub should_pid_open : PidTable → ℕ → Bool
should_pid_open t pid = is_should_open (t.pids pid).state

unfoldable pub is_all_pid : PidTable → Bool
is_all_pid t = is_opened (t.pids all_pids).state

unfoldable pub get_packet_counter : PidTable → ℕ → ℕ
get_packet_counter t pid = (t.pids pid).count

unfoldable pub get_cc_errors : PidTable → ℕ → ℕ
get_cc_errors t pid = (t.pids pid).cc_error

-- uint32_t subtraction.
unfoldable pub get_total_cc_errors : PidTable → ℕ
get_total_cc_errors t = u32 (t.total_cc_errors + 2 ^ 32 - t.total_cc_errors_begin)
