-- ===== src/Pmt/Rounds.antt =====
-- `PMT::parse` (src/mpegts/PMT.cpp) against its loops without a bound on their rounds.
use satpi.Base.{
  ℕ, ◌+◌, ◌≤◌, ◌<◌, ◌≡◌, refl, arith, Bool-cases, ltb, leb, Option, none, some, List, ◌*◌, ◌⊎◌,
  ◌>>=◌, read, le→leb, c_str, length, Option-cases, inl, inr,
}
use satpi.TableData.{Section}
use satpi.Pmt.{
  Pmt, EsData, word12, word13, snoc, append_bytes, parse_program, parse_section, es_length, EcmData,
  Streams, program_entry, program_loop, stream_entry, stream_loop, es_entry, es_loop,
}
use satpi.Pmt.Runs.{Runs, program_loop-Runs, stream_loop-Runs, es_loop-Runs}

bind-none :
    {A B : Type 0} (m : Option A) (f : A → Option B) → ((a : A) → f a ≡ none) → (m >>= f) ≡ none
bind-none none f h = refl
bind-none (some a) f h = h a

bind-behind : {A B : Type 0} (m : Option A) (f : A → Option B) → m ≡ none → (m >>= f) ≡ none
bind-behind none f e = refl
bind-behind (some a) f e = absurd (cc)

-- A stream at offset `i` of the section: its header is read behind the bytes, or its descriptors are
-- gone over.
abbrev EntryRuns : List ℕ → ℕ → Streams → Option (ℕ × Streams) → Type 0
EntryRuns bytes i acc r =
    let at = c_str bytes in
    let n = word12 (at (i + 3)) (at (i + 4)) in
    let found : EsData = record { pid = word13 (at (i + 1)) (at (i + 2)); stream_type = at i } in
    ((length bytes < i + 4) × (r ≡ none))
    ⊎ ((o : Option Streams) × (i + 4 ≤ length bytes)
        × Runs (λ j acc. stream_entry bytes (i + 5 + j) acc) 2 n 0
            (record acc { es = snoc acc.es found }) o
        × (r ≡ (o >>= (λ acc'. some (n, acc')))))

es_entry-EntryRuns :
    (bytes : List ℕ) (i : ℕ) (acc : Streams) → EntryRuns bytes i acc (es_entry bytes i acc)
unfolding es_entry
es_entry-EntryRuns bytes i acc = elim (Bool-cases (leb (i + 4) (length bytes))) [
  | inl e ↦
      let n = word12 (c_str bytes (i + 3)) (c_str bytes (i + 4)) in
      inr (
        stream_loop n bytes (i + 5) n 0 _,
        ground arith,
        stream_loop-Runs n bytes (i + 5) n 0 _ (omega arith),
        rw
            (
              le→leb i (length bytes) (ground arith),
              le→leb (i + 1) (length bytes) (ground arith),
              le→leb (i + 2) (length bytes) (ground arith),
              le→leb (i + 3) (length bytes) (ground arith),
              e,
            )
            refl,
      )
  | inr e ↦
      let last : read bytes (i + 4) ≡ none = rw e refl in
      inl (
        ground arith,
        bind-none (read bytes i) _ (λ a. bind-none (read bytes (i + 1)) _ (λ b.
            bind-none (read bytes (i + 2)) _ (λ c.
              bind-none (read bytes (i + 3)) _ (λ d. bind-behind (read bytes (i + 4)) _ last)))),
      )
]

-- The program info: there is none, it is behind the bytes, or its descriptors are gone over.
abbrev ProgramRuns : List ℕ → ℕ → Pmt → Option Streams → Type 0
ProgramRuns bytes prg_length p r =
    ((prg_length ≡ 0)
      × (r ≡ some (record { ecm = p.ecm_pids; es = p.es_pids; info = p.prog_info })))
    ⊎ (((append_bytes bytes 17 prg_length p.prog_info ≡ none) × (r ≡ none))
        ⊎ ((info : List ℕ) × (o : Option (List EcmData)) × (append_bytes bytes 17 prg_length
                p.prog_info
              ≡ some info)
            × Runs (program_entry info) 2 prg_length 0 p.ecm_pids o
            × (r ≡ (o >>= (λ ecm. some (record { ecm = ecm; es = p.es_pids; info = info }))))))

parse_program-ProgramRuns :
    (bytes : List ℕ) (prg_length : ℕ) (p : Pmt)
    → ProgramRuns bytes prg_length p (parse_program bytes prg_length p)
unfolding parse_program
parse_program-ProgramRuns bytes prg_length p = elim (Bool-cases (ltb 0 prg_length)) [
  | inr e ↦ inl (ground arith, rw e refl)
  | inl e ↦ elim (Option-cases (append_bytes bytes 17 prg_length p.prog_info)) [
    | inl f ↦ inr (inl (f, rw (e, f) refl))
    | inr (info, f) ↦ inr (
        inr (
          info,
          program_loop prg_length info prg_length 0 p.ecm_pids,
          f,
          program_loop-Runs prg_length info prg_length 0 p.ecm_pids (omega arith),
          rw (e, f) refl,
        ))
  ]
]

-- What `parse` sets once its loops are over.
abbrev finished : Pmt → Section → ℕ → Streams → Pmt
finished p s prg_length acc =
    let at = c_str s.bytes in
    record p {
      program_number = at 8 * 256 + at 9;
      pcr_pid = word13 (at 13) (at 14);
      prg_length = prg_length;
      pid = s.pid;
      prog_info = acc.info;
      ecm_pids = acc.ecm;
      es_pids = acc.es;
    }

-- What `parse` makes of a section: first the program info, then the streams, each with its descriptors.
abbrev pub SectionRuns : Pmt → Section → Option Pmt → Type 0
SectionRuns p s r =
    let prg_length = word12 (c_str s.bytes 15) (c_str s.bytes 16) in
    (program : Option Streams) × (streams : Streams → Option Streams) × ProgramRuns s.bytes
      prg_length p program
    × ((acc : Streams)
        → Runs (λ i acc. es_entry s.bytes (17 + prg_length + i) acc) 5
            (es_length s.section_length prg_length) 0 acc (streams acc))
    × ((i : ℕ) (acc : Streams) → EntryRuns s.bytes i acc (es_entry s.bytes i acc))
    × (r ≡ (program >>= (λ acc. streams acc >>= (λ acc'. some (finished p s prg_length acc')))))

-- `parse` goes over the descriptors of the program, then over the streams and the descriptors of each
-- of them. All these loops end after finitely many rounds, each of which goes on by the length of its
-- entry and of the entry's header; where there is no result, something that they come to is read behind
-- the bytes, and never has the model run out of rounds.
pub parse-Runs : (p : Pmt) (s : Section) → SectionRuns p s (parse_section p s)
unfolding parse_section
parse-Runs p s =
    let prg_length = word12 (c_str s.bytes 15) (c_str s.bytes 16) in
    let len = es_length s.section_length prg_length in
    (
      parse_program s.bytes prg_length p,
      (λ acc. es_loop (length s.bytes) s.bytes (17 + prg_length) len 0 acc),
      parse_program-ProgramRuns s.bytes prg_length p,
      (λ acc. es_loop-Runs (length s.bytes) s.bytes (17 + prg_length) len 0 acc (omega arith)),
      es_entry-EntryRuns s.bytes,
      refl,
    )
