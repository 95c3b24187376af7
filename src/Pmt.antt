-- ===== src/Pmt.antt =====
-- src/mpegts/PMT.{h,cpp}: the program map table, which tells the streams of a program, the PID of
-- its clock and the PIDs of its decryption messages. `none` stands for a read behind the bytes of
-- the section, or for a loop that is still running after as many rounds as there can be.
pub mod Runs
pub mod Rounds
mod Tests
use satpi.Base.{
  ℕ, zero, suc, ◌+◌, ◌*◌, ◌%◌, Bool, true, false, ◌&&◌, not, if◌then◌else◌, ◌==◌, ltb, Option, none,
  some, List, [], ◌∷◌, ◌++◌, length, c_str, slice, sub64, read, ◌>>=◌,
}
use satpi.TableData
use satpi.TableData.{TableData, Section, empty_table}

pub record EcmData : Type 0 where
  pub caid : ℕ
  pub ecmpid : ℕ
  pub provid : ℕ

pub record EsData : Type 0 where
  pub pid : ℕ
  pub stream_type : ℕ

pub record Pmt : Type 0 where
  pub table : TableData
  pub prog_info : List ℕ
  pub program_number : ℕ
  pub pcr_pid : ℕ
  pub pid : ℕ
  pub ecm_pids : List EcmData
  pub es_pids : List EsData
  pub prg_length : ℕ
  pub send : Bool

abbrev pub new_pmt : Pmt
new_pmt = record {
  table = empty_table;
  prog_info = [];
  program_number = 0;
  pcr_pid = 0;
  pid = 0;
  ecm_pids = [];
  es_pids = [];
  prg_length = 0;
  send = false;
}

unfoldable pub clear : Pmt → Pmt
clear p = record new_pmt { table = TableData.clear p.table }

-- Two bytes, the 5 or 4 lower bits of the first.
abbrev pub word13 : ℕ → ℕ → ℕ
word13 a b = a % 32 * 256 + b

abbrev pub word12 : ℕ → ℕ → ℕ
word12 a b = a % 16 * 256 + b

-- The message PID that the descriptor at `i` gives.
unfoldable pub read_ecm : List ℕ → ℕ → Option EcmData
read_ecm bytes i = do
  c1 ← read bytes (i + 2)
  c0 ← read bytes (i + 3)
  p1 ← read bytes (i + 4)
  p0 ← read bytes (i + 5)
  some (record { caid = c1 * 256 + c0; ecmpid = word13 p1 p0; provid = 0 })

abbrev pub snoc {ℓ} : {A : Type ℓ} → List A → A → List A
snoc xs x = xs ++ (x ∷ [])

-- One descriptor of the program: its message PID is kept if it is one of conditional access.
unfoldable pub program_entry : List ℕ → ℕ → List EcmData → Option (ℕ × List EcmData)
unfolding read_ecm
program_entry info i ecm = do
  tag ← read info i
  sub_length ← read info (i + 1)
  if tag == 9 && ltb 0 sub_length
      then read_ecm info i >>= (λ e. some (sub_length, snoc ecm e))
      else some (sub_length, ecm)

-- The loop over the descriptors of the program, from offset `i` of the program info on.
unfoldable pub program_loop : ℕ → List ℕ → ℕ → ℕ → List EcmData → Option (List EcmData)
program_loop zero info len i ecm = if ltb i len then none else some ecm
program_loop (suc fuel) info len i ecm =
    let entry =
      program_entry info i ecm >>= (λ r. program_loop fuel info len (i + (r.0 + 2)) r.1) in
    if ltb i len then entry else some ecm

-- What the loop over the streams gathers.
pub record Streams : Type 0 where
  pub ecm : List EcmData
  pub es : List EsData
  pub info : List ℕ

-- The bytes of a descriptor go to the program info.
unfoldable pub append_bytes : List ℕ → ℕ → ℕ → List ℕ → Option (List ℕ)
append_bytes bytes i n info =
    if ltb (length bytes) (i + n) then none else some (info ++ slice (c_str bytes) i n)

-- One descriptor of a stream, at offset `i` of the section.
unfoldable pub stream_entry : List ℕ → ℕ → Streams → Option (ℕ × Streams)
unfolding read_ecm append_bytes
stream_entry bytes i acc = do
  tag ← read bytes i
  sub_length ← read bytes (i + 1)
  if tag == 9
      then (do
        e ← read_ecm bytes i
        v1 ← read bytes (i + 6)
        v0 ← read bytes (i + 7)
        info ← append_bytes bytes i (sub_length + 2) acc.info
        some (sub_length, record acc { ecm = snoc acc.ecm e; info = info }))
      else some (sub_length, acc)

-- The loop over the descriptors of a stream, at offset `base + j` of the section.
unfoldable pub stream_loop : ℕ → List ℕ → ℕ → ℕ → ℕ → Streams → Option Streams
stream_loop zero bytes base len j acc = if ltb j len then none else some acc
stream_loop (suc fuel) bytes base len j acc =
    let entry =
      stream_entry bytes (base + j) acc
      >>= (λ r. stream_loop fuel bytes base len (j + (r.0 + 2)) r.1) in
    if ltb j len then entry else some acc

-- One stream, at offset `i` of the section.
unfoldable pub es_entry : List ℕ → ℕ → Streams → Option (ℕ × Streams)
unfolding stream_loop stream_entry
es_entry bytes i acc = do
  stream_type ← read bytes i
  p1 ← read bytes (i + 1)
  p0 ← read bytes (i + 2)
  l1 ← read bytes (i + 3)
  l0 ← read bytes (i + 4)
  let es_info_length = word12 l1 l0
  let es = snoc acc.es (record { pid = word13 p1 p0; stream_type = stream_type })
  acc' ← stream_loop es_info_length bytes (i + 5) es_info_length 0 (record acc { es = es })
  some (es_info_length, acc')

-- The loop over the streams, at offset `base + i` of the section.
unfoldable pub es_loop : ℕ → List ℕ → ℕ → ℕ → ℕ → Streams → Option Streams
es_loop zero bytes base len i acc = if ltb i len then none else some acc
es_loop (suc fuel) bytes base len i acc =
    let entry =
      es_entry bytes (base + i) acc >>= (λ r. es_loop fuel bytes base len (i + (r.0 + 5)) r.1) in
    if ltb i len then entry else some acc

-- The length of the streams: `sectionLength - 4 - 9 - _prgLength`, of unsigned numbers.
abbrev pub es_length : ℕ → ℕ → ℕ
es_length section_length prg_length = sub64 (sub64 (sub64 section_length 4) 9) prg_length

-- The program info, if there is any, and the messages that it names.
unfoldable pub parse_program : List ℕ → ℕ → Pmt → Option Streams
unfolding append_bytes program_loop program_entry
parse_program bytes prg_length p =
    if ltb 0 prg_length
    then (do
      info ← append_bytes bytes 17 prg_length p.prog_info
      ecm ← program_loop prg_length info prg_length 0 p.ecm_pids
      some (record { ecm = ecm; es = p.es_pids; info = info }))
    else some (record { ecm = p.ecm_pids; es = p.es_pids; info = p.prog_info })

unfoldable pub parse_section : Pmt → Section → Option Pmt
unfolding parse_program es_loop es_entry
parse_section p s = do
  let data_at = c_str s.bytes
  let prg_length = word12 (data_at 15) (data_at 16)
  let len = es_length s.section_length prg_length
  acc ← parse_program s.bytes prg_length p
  acc' ← es_loop (length s.bytes) s.bytes (17 + prg_length) len 0 acc
  some (record p {
    program_number = data_at 8 * 256 + data_at 9;
    pcr_pid = word13 (data_at 13) (data_at 14);
    prg_length = prg_length;
    pid = s.pid;
    prog_info = acc'.info;
    ecm_pids = acc'.ecm;
    es_pids = acc'.es;
  })

unfoldable pub parse : Pmt → Option Pmt
unfolding parse_section
parse p = elim (TableData.get_data_for_section_number p.table 0) [
  | none ↦ some p
  | some s ↦ parse_section p s
]

-- `parsePCRPid` sets the PID of the clock and returns it.
unfoldable pub parse_pcr_pid : Pmt → Pmt × ℕ
parse_pcr_pid p = elim (TableData.get_data_for_section_number p.table 0) [
  | none ↦ (p, p.pcr_pid)
  | some s ↦
      let pid = word13 (c_str s.bytes 13) (c_str s.bytes 14) in (record p { pcr_pid = pid }, pid)
]

unfoldable pub get_pcr_pid : Pmt → ℕ
get_pcr_pid p = p.pcr_pid

-- A collected table is to be sent once.
unfoldable pub is_ready_send : Pmt → Pmt × Bool
is_ready_send p =
    let (table, collected) = TableData.is_collected p.table in
    if collected && not p.send
    then (record p { table = table; send = true }, true)
    else (record p { table = table }, false)
