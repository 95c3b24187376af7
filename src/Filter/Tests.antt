-- ===== src/Filter/Tests.antt =====
-- Runs of the filter, and instances of its theorems.
use satpi.Base.{
  ℕ, ◌≡◌, ◌⊎◌, ◌++◌, refl, arith, Bool, true, false, not, ◌||◌, ◌==◌, if◌then◌else◌, update, none,
  some, [], ◌∷◌,
}
use satpi.Text.{
  codes, contains, split, split_loop, find_first_of, find_first_not_of, find_index, stoi,
  skip_space, digits_value,
}
use satpi.PidTable
use satpi.PidTable.{
  PidTable, PidData, State, should_open, opened, should_close, should_close_reopen, closed,
  fresh_data,
}
use satpi.PidTable.Requests.{held}
use satpi.PacketBuffer.{PacketBuffer, new_packet_buffer}
use satpi.PacketBuffer.Purge.{contents}
use satpi.PacketBuffer.Moved.{bytes_between, fits}
use satpi.Pat.{Pat, new_pat}
use satpi.Filter.{Filter, pat_table}
use satpi.Filter.Packets.{filter_data}
use satpi.Filter.Kept.{kept, passes}
use satpi.Filter.Rounds.{Stops}
use satpi.Filter.Remains.{filter_data-kept}
use satpi.Filter.Device.{update_pid_filters, close_active_pid_filters}
use satpi.Filter.InStep.{IsDevice, update_pid_filters-InStep}
use satpi.Filter.Settled.{update_pid_filters-settled, close_active_pid_filters-dropped}
use satpi.Filter.Request.{parse_pid_string, done}
use satpi.Filter.Wanted.{Numbers, no_numbers, number, Adds, parse_pid_string-Adds}

-- PID 100 is open, PID 200 waits to be opened, PID 300 to be closed and opened again.
abbrev pid_states : ℕ → State
pid_states pid =
    if pid == 100
    then opened
    else if pid == 200
    then should_open
    else if pid == 300
    then should_close_reopen
    else closed

-- The tables NIT and SDT are stood for by another PAT.
abbrev running : Filter Pat Pat
running = record {
  pid_table = record {
    total_cc_errors = 0;
    total_cc_errors_begin = 0;
    changed = true;
    pids = λ pid. record fresh_data { state = pid_states pid };
  };
  nit = new_pat;
  pat = new_pat;
  pcr = record { pcr_prev = 0; pcr_delta = 0 };
  sdt = new_pat;
  pmt_map = [];
  filter_pcr = false;
  user_pids = codes "0,1,16,17,18";
}

-- A device with a filter for each PID that is held.
abbrev Device : Type 0
Device = ℕ → Bool

abbrev open_pid : ℕ → Device → Device × Bool
open_pid pid d = (update d pid true, true)

abbrev close_pid : ℕ → Device → Device × Bool
close_pid pid d = (update d pid false, true)

abbrev holds : Device → ℕ → Bool
holds d pid = d pid

device : IsDevice holds open_pid close_pid
device = record { open_holds = λ pid j d. ground arith; close_holds = λ pid j d. ground arith }

abbrev device_state : Device
device_state pid = held (pid_states pid)

update_pid_filters-InStep_example :
    let r' = update_pid_filters pat_table open_pid close_pid (running, device_state) in
    held (r'.0.pid_table.pids 300).state ≡ holds r'.1 300
update_pid_filters-InStep_example =
    update_pid_filters-InStep pat_table holds open_pid close_pid device (running, device_state)
      (λ j. refl) 300

update_pid_filters-settled_example :
    let r' = update_pid_filters pat_table open_pid close_pid (running, device_state) in
    ((r'.0.pid_table.pids 300).state ≡ opened) × (holds r'.1 300 ≡ true)
update_pid_filters-settled_example =
    update_pid_filters-settled pat_table holds open_pid close_pid device (λ pid d. refl)
      (λ pid d. refl) (running, device_state) 300 refl (λ j. refl) (omega arith)

close_active_pid_filters-dropped_example :
    let r' = close_active_pid_filters pat_table open_pid close_pid (running, device_state) in
    ((r'.0.pid_table.pids 300).state ≡ should_open) × (holds r'.1 300 ≡ false)
close_active_pid_filters-dropped_example =
    close_active_pid_filters-dropped pat_table holds open_pid close_pid device (λ pid d. refl)
      (λ pid d. refl) (running, device_state) 300 (λ j. refl) (omega arith)

-- Two packets: PID 100, which is open, and PID 101, which is not.
abbrev two_packets : PacketBuffer
two_packets =
    record (new_packet_buffer (λ i.
      if i == 12 || i == 200 then 0x47 else if i == 14 then 100 else if i == 202 then 101 else 0)) {
        write_index = 388;
      }

filter_data-kept_example :
    (Stops pat_table pat_table
        (PidTable.is_pid_opened running.pid_table)
        two_packets
        0
        2
        running
        (record two_packets { processed_index = 388 })
      × (filter_data pat_table pat_table true running two_packets ≡ none))
    ⊎ (((fits 2 0
              (λ j. not (passes (PidTable.is_pid_opened running.pid_table) two_packets.buffer j))
              0
            ≡ false)
          × (filter_data pat_table pat_table true running two_packets ≡ none))
        ⊎ ((f' : Filter Pat Pat) × (b' : PacketBuffer) × (fits 2 0
                (λ j. not (passes (PidTable.is_pid_opened running.pid_table) two_packets.buffer j))
                0
              ≡ true)
            × (filter_data pat_table pat_table true running two_packets ≡ some (f', b'))
            × (contents b'
                ≡ kept 2 (PidTable.is_pid_opened running.pid_table) two_packets.buffer
                  ++ bytes_between two_packets.buffer 388 388)
            × ((j : ℕ)
                → PidTable.is_pid_opened f'.pid_table j
                  ≡ PidTable.is_pid_opened running.pid_table j)))
unfolding PidTable.is_pid_opened
filter_data-kept_example =
    filter_data-kept pat_table pat_table running two_packets refl refl refl (omega arith)
      (omega arith)

user-Numbers : Numbers (split running.user_pids (codes ",")) (0 ∷ 1 ∷ 16 ∷ 17 ∷ 18 ∷ [])
unfolding split split_loop find_first_of find_first_not_of find_index stoi skip_space digits_value
user-Numbers = number _ 0 refl (omega arith) (
    number _ 1 refl (omega arith) (
      number _ 16 refl (omega arith)
        (number _ 17 refl (omega arith) (number _ 18 refl (omega arith) no_numbers))))

requested-Numbers : Numbers (split (codes "400,200") (codes ",")) (400 ∷ 200 ∷ [])
unfolding split split_loop find_first_of find_first_not_of find_index stoi skip_space digits_value
requested-Numbers = number _ 400 refl (omega arith) (number _ 200 refl (omega arith) no_numbers)

parse_pid_string-Adds_example :
    (t' : PidTable) × (parse_pid_string (codes "400,200") true running ≡ done t')
    × Adds ((400 ∷ 200 ∷ []) ++ (0 ∷ 1 ∷ 16 ∷ 17 ∷ 18 ∷ [])) running.pid_table t'
unfolding contains
parse_pid_string-Adds_example =
    parse_pid_string-Adds (codes "400,200") running refl refl requested-Numbers user-Numbers
