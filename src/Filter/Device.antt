-- ===== src/Filter/Device.antt =====
-- The PID filters of the device (src/mpegts/Filter.h): `updatePIDFilters` and
-- `closeActivePIDFilters` open and close them through callbacks. A callback is here its effect on
-- the state of the device and whether it was done; the log is left out.
use satpi.Base.{
  ℕ, Bool, true, false, not, ◌&&◌, ◌||◌, if◌then◌else◌, ◌==◌, ltb, List, [], ◌∷◌, none, some,
  for_range,
}
use satpi.PidTable
use satpi.PidTable.{PidTable}
use satpi.Pat
use satpi.Pcr
use satpi.Pmt
use satpi.Pmt.{Pmt}
use satpi.Filter.{Filter, Table, find_pmt, erase_pmt}

-- The clock of one of these PMTs; a PMT that names none has PID 0 there.
unfoldable pub is_pcr_pid : ℕ → List (ℕ × Pmt) → Bool
is_pcr_pid pid [] = false
is_pcr_pid pid ((k, p) ∷ m) =
    (ltb 0 (Pmt.get_pcr_pid p) && (Pmt.get_pcr_pid p == pid)) || is_pcr_pid pid m

abbrev pub has_pmt : ℕ → List (ℕ × Pmt) → Bool
has_pmt pid m = elim (find_pmt pid m) [ none ↦ false | some p ↦ true ]

-- The tables that came with a PID go with it.
unfoldable pub forget_tables : {N S : Type 0} → Table S → ℕ → Filter N S → Filter N S
forget_tables sdt_table pid f =
    if pid == 0
    then record f { pat = Pat.new_pat }
    else if pid == 17
    then record f { sdt = sdt_table.fresh }
    else if has_pmt pid f.pmt_map
    then record f { pmt_map = erase_pmt pid f.pmt_map }
    else if is_pcr_pid pid f.pmt_map
    then record f { pcr = Pcr.new_pcr }
    else f

module _ {N S D : Type 0} (sdt_table : Table S) (open_pid close_pid : ℕ → D → D × Bool) where
  unfoldable pub open_pid_filter : ℕ → Filter N S × D → Filter N S × D
  open_pid_filter pid (f, d) =
      let (d', done) = open_pid pid d in
      (if done then record f { pid_table = PidTable.set_pid_opened pid f.pid_table } else f, d')

  unfoldable pub close_pid_filter : ℕ → Filter N S × D → Filter N S × D
  close_pid_filter pid (f, d) =
      let (d', done) = close_pid pid d in
      (
        if done
            then forget_tables sdt_table pid
                (record f { pid_table = PidTable.set_pid_closed pid f.pid_table })
            else f,
        d',
      )

  -- One round of `updatePIDFilters`.
  unfoldable pub update_pid : ℕ → Filter N S × D → Filter N S × D
  update_pid pid (f, d) =
      let r =
        if PidTable.should_pid_close f.pid_table pid then close_pid_filter pid (f, d) else (f, d) in
      if PidTable.should_pid_open r.0.pid_table pid then open_pid_filter pid r else r

  unfoldable pub update_pid_filters : Filter N S × D → Filter N S × D
  update_pid_filters (f, d) =
      if not f.pid_table.changed
      then (f, d)
      else for_range 0 PidTable.max_pids update_pid
          (record f { pid_table = PidTable.reset_pid_table_changed f.pid_table }, d)

  -- One round of `closeActivePIDFilters`.
  unfoldable pub close_active_pid : ℕ → Filter N S × D → Filter N S × D
  close_active_pid pid (f, d) =
      let f' = record f { pid_table = PidTable.set_pid pid false f.pid_table } in
      if PidTable.should_pid_close f'.pid_table pid then close_pid_filter pid (f', d) else (f', d)

  unfoldable pub close_active_pid_filters : Filter N S × D → Filter N S × D
  close_active_pid_filters fd = for_range 0 PidTable.max_pids close_active_pid fd
