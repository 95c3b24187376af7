-- ===== src/Pat/Marks.antt =====
-- `PAT::parse` of src/mpegts/PAT.cpp against the entries of the section.
use satpi.Base.{
  ℕ, zero, suc, ◌+◌, ◌*◌, ◌/◌, ◌-◌, ◌%◌, ◌^◌, ◌≤◌, ◌<◌, ◌≡◌, ◌≢◌, ◌↔◌, ◌⊎◌, refl, inl, inr, Bool,
  true, none, some, List, length, Ptr, c_str, arith, le→ltb, lt→ltb, Bool-cases, ltb,
}
use native.Mathlib.Nat.{add-zero}
use satpi.TableData.{Section}
use satpi.Pat.{
  Pat, parse_loop, mark_entry, program_number, program_pid, rounds_of, entries_length,
  parse_section, is_marked_as_pmt,
}

-- Some entry, of `n` from offset `i` on, gives `pid` as the PMT of a program.
abbrev pub Listed : Ptr → ℕ → ℕ → ℕ → Type 0
Listed p i n pid =
    (k : ℕ) × (k < n) × (program_number p (i + k * 4) ≢ 0) × (program_pid p (i + k * 4) ≡ pid)

abbrev Entry : Ptr → ℕ → ℕ → Type 0
Entry p i pid = (program_number p i ≢ 0) × (program_pid p i ≡ pid)

mark_entry-Entry :
    (p : Ptr) (i : ℕ) (marks : ℕ → Bool) (pid : ℕ)
    → (mark_entry p i marks pid ≡ true) ↔ ((marks pid ≡ true) ⊎ Entry p i pid)
mark_entry-Entry p i marks pid = ground arith

shift : (i k : ℕ) → i + suc k * 4 ≡ i + 4 + k * 4
shift i k = omega arith

Listed-suc :
    (p : Ptr) (i n pid : ℕ) → Listed p i (suc n) pid ↔ (Entry p i pid ⊎ Listed p (i + 4) n pid)
Listed-suc p i n pid = (first, second)
  where
    first : Listed p i (suc n) pid → Entry p i pid ⊎ Listed p (i + 4) n pid
    first (zero, small, e, f) = inl (rw (add-zero i) at e, rw (add-zero i) at f)
    first (suc k, small, e, f) = inr (k, omega arith, rw (← shift i k) e, rw (← shift i k) f)

    second : Entry p i pid ⊎ Listed p (i + 4) n pid → Listed p i (suc n) pid
    second (inl (e, f)) = (0, omega arith, rw (add-zero i) e, rw (add-zero i) f)
    second (inr (k, small, e, f)) = (suc k, omega arith, rw (shift i k) e, rw (shift i k) f)

parse_loop-Listed :
    (bytes : List ℕ) (i n : ℕ) (marks : ℕ → Bool)
    → i + n * 4 ≤ length bytes
    → (marks' : ℕ → Bool) × (parse_loop bytes i n marks ≡ some marks')
      × ((pid : ℕ) → (marks' pid ≡ true) ↔ ((marks pid ≡ true) ⊎ Listed (c_str bytes) i n pid))
unfolding parse_loop
parse_loop-Listed bytes i zero marks room = (
  marks,
  refl,
  λ pid. (λ h. inl h, λ h. elim h [ inl m ↦ m | inr (k, small, _, _) ↦ absurd (omega arith) ]),
)
parse_loop-Listed bytes i (suc n) marks room =
    let (marks', e, law) =
      parse_loop-Listed bytes (i + 4) n (mark_entry (c_str bytes) i marks) (omega arith) in
    (
      marks',
      rw (le→ltb (length bytes) (i + 3) (omega arith)) e,
      λ pid.
          step marks' pid (law pid) (mark_entry-Entry (c_str bytes) i marks pid)
            (Listed-suc (c_str bytes) i n pid),
    )
  where
    step :
        (marks' : ℕ → Bool) (pid : ℕ)
        → (marks' pid ≡ true)
          ↔ ((mark_entry (c_str bytes) i marks pid ≡ true) ⊎ Listed (c_str bytes) (i + 4) n pid)
        → (mark_entry (c_str bytes) i marks pid ≡ true)
          ↔ ((marks pid ≡ true) ⊎ Entry (c_str bytes) i pid)
        → Listed (c_str bytes) i (suc n) pid
          ↔ (Entry (c_str bytes) i pid ⊎ Listed (c_str bytes) (i + 4) n pid)
        → (marks' pid ≡ true) ↔ ((marks pid ≡ true) ⊎ Listed (c_str bytes) i (suc n) pid)
    step marks' pid law here split = (
      λ h. elim (law.0 h) [
        | inl m ↦ elim (here.0 m) [ inl old ↦ inl old | inr e ↦ inr (split.1 (inl e)) ]
        | inr l ↦ inr (split.1 (inr l))
      ],
      λ h. elim h [
        | inl old ↦ law.1 (inl (here.1 (inl old)))
        | inr l ↦ elim (split.0 l) [ inl e ↦ law.1 (inl (here.1 (inr e))) | inr r ↦ law.1 (inr r) ]
      ],
    )

parse_loop_over :
    (bytes : List ℕ) (i n : ℕ) (marks : ℕ → Bool)
    → length bytes < i + n * 4 + 3
    → parse_loop bytes i (suc n) marks ≡ none
unfolding parse_loop
parse_loop_over bytes i zero marks over = rw (lt→ltb (length bytes) (i + 3) (omega arith))
parse_loop_over bytes i (suc n) marks over = elim (Bool-cases (ltb (length bytes) (i + 3))) [
  | inl behind ↦ rw behind
  | inr inside ↦
      rw inside (parse_loop_over bytes (i + 4) n (mark_entry (c_str bytes) i marks) (omega arith))
]

-- The section has room for its entries, a whole number of them.
pub record HasEntries (s : Section) : Type 0 where
  pub at_least : 9 ≤ s.section_length
  pub whole : (s.section_length - 9) % 4 ≡ 0
  pub room : s.section_length + 4 ≤ length s.bytes
  pub small : s.section_length < 4096

parse_section_done :
    (p : Pat) (s : Section) (n : ℕ) (marks : ℕ → Bool)
    → rounds_of (entries_length s) ≡ n
    → parse_loop s.bytes 13 n p.pmt_pid_table ≡ some marks
    → parse_section p s
      ≡ some (record p { tid = c_str s.bytes 8 * 256 + c_str s.bytes 9; pmt_pid_table = marks })
unfolding parse_section
parse_section_done p s n marks r e = rw (r, e, parse_section)

-- Parsing a section that holds its entries reads no byte behind it, and marks as PMTs, besides
-- those marked before, exactly the PIDs of the entries whose program is not 0.
pub parse_section-Listed :
    (p : Pat) (s : Section)
    → HasEntries s
    → (p' : Pat) × (parse_section p s ≡ some p')
      × ((pid : ℕ)
          → (is_marked_as_pmt p' pid ≡ true) ↔ (
              (is_marked_as_pmt p pid ≡ true)
              ⊎ Listed (c_str s.bytes) 13 ((s.section_length - 9) / 4) pid))
unfolding parse_section is_marked_as_pmt
parse_section-Listed p s h =
    let n : ℕ = (s.section_length - 9) / 4 in
    let rounds : rounds_of (entries_length s) ≡ n = omega (arith, h.whole, h.at_least, h.small) in
    let (marks, e, law) =
      parse_loop-Listed s.bytes 13 n p.pmt_pid_table (omega (arith, h.room, h.at_least)) in
    (
      record p { tid = c_str s.bytes 8 * 256 + c_str s.bytes 9; pmt_pid_table = marks },
      parse_section_done p s n marks rounds e,
      law,
    )

-- A section length below 9 makes the loop run over entries that are not there, in any section of
-- fewer than 2^32 bytes.
pub parse_section_short :
    (p : Pat) (s : Section)
    → s.section_length < 9
    → length s.bytes < 2 ^ 32
    → parse_section p s ≡ none
unfolding parse_section
parse_section_short p s short small =
    let rounds : rounds_of (entries_length s) ≡ suc (rounds_of (entries_length s) - 1) =
      omega arith in
    rw (
      rounds,
      parse_loop_over s.bytes 13 (rounds_of (entries_length s) - 1) p.pmt_pid_table (omega arith),
      parse_section,
    )
