-- ===== src/Filter/Settled.antt =====
-- What `updatePIDFilters` and `closeActivePIDFilters` come to when the device does all that it is
-- asked for.
use satpi.Base.{
  ℕ, ◌<◌, ◌≡◌, refl, ap, ◌∙◌, sym, arith, Bool, true, false, ◌&&◌, if◌then◌else◌, ◌==◌,
  view-for_range, ==_refl, ne→==,
}
use satpi.PidTable
use satpi.PidTable.{
  PidTable, State, should_open, opened, should_close, should_close_reopen, closed, is_closing,
  is_should_open,
}
use satpi.PidTable.Requests.{held, wanted}
use satpi.Filter.{Filter, Table}
use satpi.Filter.Device.{
  open_pid_filter, close_pid_filter, update_pid, update_pid_filters, close_active_pid,
  close_active_pid_filters,
}
use satpi.Filter.InStep.{
  IsDevice, InStep, after_close, close-state, open-state, update_pid_filters-InStep,
  close_active_pid_filters-InStep,
}

-- The state of a PID once all that waits for it is done, and after all filters are closed.
abbrev pub settled : State → State
settled s = if wanted s then opened else closed

abbrev pub dropped : State → State
dropped should_open = should_open
dropped should_close_reopen = should_open
dropped _ = closed

settled-held : (s : State) → held (settled s) ≡ wanted s
settled-held s = ground arith

dropped-held : (s : State) → held (dropped s) ≡ false
dropped-held s = ground arith

module _ {N S D : Type 0} (sdt_table : Table S) (holds : D → ℕ → Bool)
    (open_pid close_pid : ℕ → D → D × Bool) (device : IsDevice holds open_pid close_pid)
    (opens : (pid : ℕ) (d : D) → (open_pid pid d).1 ≡ true)
    (closes : (pid : ℕ) (d : D) → (close_pid pid d).1 ≡ true) where
  abbrev state_of : ℕ → Filter N S × D → State
  state_of j r = (r.0.pid_table.pids j).state

  abbrev closed_if : Bool → ℕ → Filter N S × D → Filter N S × D
  closed_if c pid r = if c then close_pid_filter sdt_table open_pid close_pid pid r else r

  closed_if-state :
      (c : Bool) (pid j : ℕ) (r : Filter N S × D)
      → state_of j (closed_if c pid r)
        ≡ (if c && (j == pid) then after_close (state_of j r) else state_of j r)
  closed_if-state true pid j (f, d) =
      close-state sdt_table holds open_pid close_pid device pid j f d
      ∙ rw (closes pid d) (ground arith)
  closed_if-state false pid j r = refl

  abbrev opened_if : Bool → ℕ → Filter N S × D → Filter N S × D
  opened_if c pid r = if c then open_pid_filter sdt_table open_pid close_pid pid r else r

  opened_if-state :
      (c : Bool) (pid j : ℕ) (r : Filter N S × D)
      → state_of j (opened_if c pid r) ≡ (if c && (j == pid) then opened else state_of j r)
  opened_if-state true pid j (f, d) =
      open-state sdt_table holds open_pid close_pid device pid j f d
      ∙ rw (opens pid d) (ground arith)
  opened_if-state false pid j r = refl

  update_pid-state :
      (pid j : ℕ) (r : Filter N S × D)
      → state_of j (update_pid sdt_table open_pid close_pid pid r)
        ≡ (if j == pid then settled (state_of j r) else state_of j r)
  unfolding update_pid PidTable.should_pid_open PidTable.should_pid_close
  update_pid-state pid j (f, d) =
      opened_if-state (PidTable.should_pid_open r.0.pid_table pid) pid j r
      ∙ rw (closed_if-state c pid pid (f, d), closed_if-state c pid j (f, d)) (ground arith)
    where
      c : Bool
      c = PidTable.should_pid_close f.pid_table pid

      r : Filter N S × D
      r = closed_if c pid (f, d)

  close_active_pid-state :
      (pid j : ℕ) (r : Filter N S × D)
      → state_of j (close_active_pid sdt_table open_pid close_pid pid r)
        ≡ (if j == pid then dropped (state_of j r) else state_of j r)
  unfolding close_active_pid PidTable.should_pid_close PidTable.set_pid
  close_active_pid-state pid j (f, d) =
      closed_if-state (PidTable.should_pid_close (PidTable.set_pid pid false f.pid_table) pid) pid j
        (record f { pid_table = PidTable.set_pid pid false f.pid_table }, d)
      ∙ ground arith

  -- Whatever waits for the device is done by one update: afterwards the device holds exactly the
  -- filters of the PIDs that were wanted, and none waits any more, if the table was marked as
  -- changed, the device held what the table said, and every callback is done.
  pub update_pid_filters-settled :
      (r : Filter N S × D) (j : ℕ)
      → r.0.pid_table.changed ≡ true
      → InStep sdt_table holds open_pid close_pid device r
      → j < PidTable.max_pids
      → let before = (r.0.pid_table.pids j).state in
        let r' = update_pid_filters sdt_table open_pid close_pid r in
        ((r'.0.pid_table.pids j).state ≡ settled before) × (holds r'.1 j ≡ wanted before)
  unfolding update_pid_filters PidTable.reset_pid_table_changed
  update_pid_filters-settled r j changed in_step small = (settled_state, held_as_wanted)
    where
      settled_state :
          state_of j (update_pid_filters sdt_table open_pid close_pid r) ≡ settled (state_of j r)
      settled_state = rw changed (
          view-for_range state_of (update_pid sdt_table open_pid close_pid) (λ i s. settled s)
            (λ i t. update_pid-state i i t ∙ rw (==_refl i) refl)
            (λ i k t ne. update_pid-state i k t ∙ rw (ne→== k i (λ e. ne (sym e))) refl) 0
            PidTable.max_pids j _ (omega arith) (omega arith))

      held_as_wanted :
          holds (update_pid_filters sdt_table open_pid close_pid r).1 j ≡ wanted (state_of j r)
      held_as_wanted =
          sym (update_pid_filters-InStep sdt_table holds open_pid close_pid device r in_step j)
          ∙ ap held settled_state
          ∙ settled-held (state_of j r)

  -- Closing all active filters leaves the device without any, if it held what the table said and
  -- every callback is done. The PIDs end as closed, except those that still waited to be opened or
  -- reopened: they wait to be opened.
  pub close_active_pid_filters-dropped :
      (r : Filter N S × D) (j : ℕ)
      → InStep sdt_table holds open_pid close_pid device r
      → j < PidTable.max_pids
      → let before = (r.0.pid_table.pids j).state in
        let r' = close_active_pid_filters sdt_table open_pid close_pid r in
        ((r'.0.pid_table.pids j).state ≡ dropped before) × (holds r'.1 j ≡ false)
  unfolding close_active_pid_filters
  close_active_pid_filters-dropped r j in_step small = (dropped_state, none_held)
    where
      dropped_state :
          state_of j (close_active_pid_filters sdt_table open_pid close_pid r)
          ≡ dropped (state_of j r)
      dropped_state =
          view-for_range state_of (close_active_pid sdt_table open_pid close_pid) (λ i s. dropped s)
            (λ i t. close_active_pid-state i i t ∙ rw (==_refl i) refl)
            (λ i k t ne. close_active_pid-state i k t ∙ rw (ne→== k i (λ e. ne (sym e))) refl) 0
            PidTable.max_pids j r (omega arith) (omega arith)

      none_held : holds (close_active_pid_filters sdt_table open_pid close_pid r).1 j ≡ false
      none_held =
          sym
            (close_active_pid_filters-InStep sdt_table holds open_pid close_pid device r in_step j)
          ∙ ap held dropped_state
          ∙ dropped-held (state_of j r)
