-- ===== src/PidTable/Counters.antt =====
-- The continuity counters of src/mpegts/PidTable.cpp against a count of the packets that are
-- missing between two counters.
use satpi.Base.{u32, ℕ, ◌+◌, ◌-◌, ◌%◌, ◌<◌, ◌≡◌, List, [], ◌∷◌, if◌then◌else◌, ◌==◌, arith, All}
use satpi.PidTable.{PidTable, add_pid_data, get_packet_counter, get_cc_errors}

-- Packets that are missing between one with counter `last` and one with counter `cc`, up to a
-- multiple of 16; a repeated counter is a duplicate packet, which the standard allows.
abbrev pub missing : ℕ → ℕ → ℕ
missing last cc = if last == cc then 0 else (cc + 31 - last) % 16

abbrev pub missing_in : ℕ → List ℕ → ℕ
missing_in last [] = 0
missing_in last (cc ∷ ccs) = missing last cc + missing_in cc ccs

abbrev pub last_of : ℕ → List ℕ → ℕ
last_of last [] = last
last_of last (cc ∷ ccs) = last_of cc ccs

abbrev pub count_of : List ℕ → ℕ
count_of [] = 0
count_of (cc ∷ ccs) = count_of ccs + 1

-- The packets of one PID, in the order in which they arrive.
unfoldable pub receive : ℕ → List ℕ → PidTable → PidTable
receive pid [] t = t
receive pid (cc ∷ ccs) t = receive pid ccs (add_pid_data pid cc t)

add_pid_data-missing :
    (pid cc : ℕ) (t : PidTable)
    → (t.pids pid).cc < 16
    → cc < 16
    → let t' = add_pid_data pid cc t in
      let lost = missing (t.pids pid).cc cc in
      ((t'.pids pid).cc ≡ cc)
      × (u32 (t'.pids pid).cc_error ≡ u32 ((t.pids pid).cc_error + lost))
      × (u32 t'.total_cc_errors ≡ u32 (t.total_cc_errors + lost))
      × (u32 (t'.pids pid).count ≡ u32 ((t.pids pid).count + 1))
unfolding add_pid_data
add_pid_data-missing pid cc t known small = ground arith

-- Over any sequence of packets of a PID that has been seen before, with counters below 16, the
-- errors of the PID, the errors of the table and the packets of the PID grow by what is missing
-- between the counters and by what was received, each modulo 2^32.
pub receive-missing :
    (pid : ℕ) (ccs : List ℕ) (t : PidTable)
    → (t.pids pid).cc < 16
    → All (λ cc. cc < 16) ccs
    → let t' = receive pid ccs t in
      ((t'.pids pid).cc ≡ last_of (t.pids pid).cc ccs)
      × (u32 (get_cc_errors t' pid) ≡ u32 (get_cc_errors t pid + missing_in (t.pids pid).cc ccs))
      × (u32 t'.total_cc_errors ≡ u32 (t.total_cc_errors + missing_in (t.pids pid).cc ccs))
      × (u32 (get_packet_counter t' pid) ≡ u32 (get_packet_counter t pid + count_of ccs))
unfolding receive get_cc_errors get_packet_counter
receive-missing pid [] t known small = omega arith
receive-missing pid (cc ∷ ccs) t known small =
    let step = add_pid_data-missing pid cc t known small.0 in
    let rest = receive-missing pid ccs (add_pid_data pid cc t) (rw step.0 small.0) small.1 in
    ground arith
