-- ===== src/Filter.antt =====
-- src/mpegts/Filter.{h,cpp}: the PID table and the PSI tables of one frontend. It takes requests for
-- PIDs, keeps the filters of the device in step with them, and reads and filters the packets. The
-- lock around each operation is not modelled: an operation is one step.
pub mod Packets
pub mod Kept
pub mod Rounds
pub mod Remains
pub mod Device
pub mod Request
pub mod InStep
pub mod Settled
pub mod Wanted
mod Tests
use satpi.Base.{
  ℕ, Bool, true, false, Option, none, some, List, ◌∷◌, [], ◌==◌, if◌then◌else◌, ltb, ◌&&◌,
}
use satpi.Text.{codes}
use satpi.PidTable
use satpi.PidTable.{PidTable}
use satpi.TableData.{TableData}
use satpi.Pat
use satpi.Pat.{Pat}
use satpi.Pcr
use satpi.Pcr.{Pcr}
use satpi.Pmt
use satpi.Pmt.{Pmt}

-- What the filter needs of a table that is collected from packets: where its sections are, and
-- how it is read when they are complete. `none`: reading it goes behind the bytes collected.
pub record Table (T : Type 0) : Type 0 where
  pub fresh : T
  pub sections : T → TableData
  pub with_sections : TableData → T → T
  pub parse : T → Option T

abbrev pub pat_table : Table Pat
pat_table = record {
  fresh = Pat.new_pat;
  sections = λ p. p.table;
  with_sections = λ t p. record p { table = t };
  parse = Pat.parse;
}

abbrev pub pmt_table : Table Pmt
pmt_table = record {
  fresh = Pmt.new_pmt;
  sections = λ p. p.table;
  with_sections = λ t p. record p { table = t };
  parse = Pmt.parse;
}

-- `N` and `S` are the tables NIT and SDT. `_pmtMap` is listed in the order of its iteration.
pub record Filter (N S : Type 0) : Type 0 where
  pub pid_table : PidTable
  pub nit : N
  pub pat : Pat
  pub pcr : Pcr
  pub sdt : S
  pub pmt_map : List (ℕ × Pmt)
  pub filter_pcr : Bool
  pub user_pids : List ℕ

unfoldable pub find_pmt : ℕ → List (ℕ × Pmt) → Option Pmt
find_pmt pid [] = none
find_pmt pid ((k, p) ∷ m) = if k == pid then some p else find_pmt pid m

unfoldable pub erase_pmt : ℕ → List (ℕ × Pmt) → List (ℕ × Pmt)
erase_pmt pid [] = []
erase_pmt pid ((k, p) ∷ m) = if k == pid then m else (k, p) ∷ erase_pmt pid m

-- The PMT of a key is put in its place, or added.
unfoldable pub store_pmt : ℕ → Pmt → List (ℕ × Pmt) → List (ℕ × Pmt)
store_pmt pid p [] = (pid, p) ∷ []
store_pmt pid p ((k, q) ∷ m) = if k == pid then (k, p) ∷ m else (k, q) ∷ store_pmt pid p m

-- The clock of this PMT is open, and packets of it have come.
abbrev pub has_active_pcr : PidTable → Pmt → Bool
has_active_pcr t p =
    PidTable.is_pid_opened t (Pmt.get_pcr_pid p)
    && ltb 0 (PidTable.get_packet_counter t (Pmt.get_pcr_pid p))

unfoldable pub find_active_pmt : PidTable → List (ℕ × Pmt) → Option Pmt
find_active_pmt t [] = none
find_active_pmt t ((k, p) ∷ m) = if has_active_pcr t p then some p else find_active_pmt t m

abbrev pub or_else {ℓ} : {A : Type ℓ} → Option A → A → A
or_else none a = a
or_else (some a) b = a

module _ {N S : Type 0} where
  -- The constructor; the array of the PID table holds what the memory held.
  unfoldable pub new_filter : Table N → Table S → (ℕ → PidTable.PidData) → Filter N S
  new_filter nit_table sdt_table memory = record {
    pid_table = PidTable.new_pid_table memory;
    nit = nit_table.fresh;
    pat = Pat.new_pat;
    pcr = Pcr.new_pcr;
    sdt = sdt_table.fresh;
    pmt_map = [];
    filter_pcr = false;
    user_pids = codes "0,1,16,17,18";
  }

  unfoldable pub clear : Table N → Table S → Filter N S → Filter N S
  clear nit_table sdt_table f = record f {
    nit = nit_table.fresh;
    pat = Pat.new_pat;
    pcr = Pcr.new_pcr;
    sdt = sdt_table.fresh;
    pmt_map = [];
    pid_table = PidTable.clear f.pid_table;
  }

  unfoldable pub set_pid : ℕ → Bool → Filter N S → Filter N S
  set_pid pid use_it f = record f { pid_table = PidTable.set_pid pid use_it f.pid_table }

  unfoldable pub is_marked_as_active_pmt : Filter N S → ℕ → Bool
  unfolding find_pmt
  is_marked_as_active_pmt f pid =
      Pat.is_marked_as_pmt f.pat pid
      && elim (find_pmt pid f.pmt_map) [ none ↦ false | some p ↦ has_active_pcr f.pid_table p ]

  -- With PID 0 the PMT whose clock is active is meant.
  unfoldable pub get_pmt_data : Filter N S → ℕ → Pmt
  unfolding find_pmt find_active_pmt
  get_pmt_data f pid =
      let found = or_else (find_pmt pid f.pmt_map) Pmt.new_pmt in
      if pid == 0 then or_else (find_active_pmt f.pid_table f.pmt_map) found else found

  unfoldable pub get_total_cc_errors : Filter N S → ℕ
  get_total_cc_errors f = PidTable.get_total_cc_errors f.pid_table
