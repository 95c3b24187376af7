-- ===== src/Filter/InStep.antt =====
-- The device and the PID table of a `Filter`: which filters the device holds, and what the table
-- says of them.
use satpi.Base.{
  ℕ, ◌≡◌, refl, ◌∙◌, sym, arith, Bool, true, false, not, ◌&&◌, ◌||◌, if◌then◌else◌, ◌==◌,
  for_range_inv, Bool-cases, inl, inr,
}
use mathlib.Core.Path.{subst}
use satpi.PidTable
use satpi.PidTable.{
  PidTable, State, should_open, opened, should_close, should_close_reopen, closed, is_closing,
  is_should_open,
}
use satpi.PidTable.Requests.{held, set_pid-wanted}
use satpi.Filter.{Filter, Table}
use satpi.Filter.Device.{
  forget_tables, open_pid_filter, close_pid_filter, update_pid, update_pid_filters,
  close_active_pid, close_active_pid_filters,
}

-- What the callbacks do to the filters that the device holds: one that is done adds, or removes,
-- the filter of its PID, and nothing else changes a filter.
pub record IsDevice {D : Type 0} (holds : D → ℕ → Bool) (open_pid close_pid : ℕ → D → D × Bool)
    : Type 0 where
  pub open_holds :
      (pid j : ℕ) (d : D)
      → holds (open_pid pid d).0 j ≡ (((j == pid) && (open_pid pid d).1) || holds d j)
  pub close_holds :
      (pid j : ℕ) (d : D)
      → holds (close_pid pid d).0 j ≡ (not ((j == pid) && (close_pid pid d).1) && holds d j)

-- The state that a PID has once its filter is closed.
abbrev pub after_close : State → State
after_close should_close_reopen = should_open
after_close _ = closed

-- The state of a PID goes with the filter that the device holds for it, or not.
abbrev Agrees : State × Bool → Type 0
Agrees v = held v.0 ≡ v.1

if-Agrees : (c : Bool) (v w : State × Bool) → Agrees v → Agrees w → Agrees (if c then v else w)
if-Agrees true v w hv hw = hv
if-Agrees false v w hv hw = hw

after_close-held : (s : State) → held (after_close s) ≡ false
after_close-held s = ground arith

forget_tables-pid_table :
    {N S : Type 0} (sdt_table : Table S) (pid : ℕ) (f : Filter N S)
    → (forget_tables sdt_table pid f).pid_table ≡ f.pid_table
unfolding forget_tables
forget_tables-pid_table sdt_table pid f = ground arith

module _ {N S D : Type 0} (sdt_table : Table S) (holds : D → ℕ → Bool)
    (open_pid close_pid : ℕ → D → D × Bool) (device : IsDevice holds open_pid close_pid) where
  -- The state of a PID, and whether the device holds its filter.
  abbrev view : ℕ → Filter N S × D → State × Bool
  view j r = ((r.0.pid_table.pids j).state, holds r.1 j)

  pub close-state :
      (pid j : ℕ) (f : Filter N S) (d : D)
      → ((close_pid_filter sdt_table open_pid close_pid pid (f, d)).0.pid_table.pids j).state ≡ (
          if (j == pid) && (close_pid pid d).1
          then after_close (f.pid_table.pids j).state
          else (f.pid_table.pids j).state)
  unfolding close_pid_filter PidTable.set_pid_closed
  close-state pid j f d = elim (Bool-cases (close_pid pid d).1) [
    | inl e ↦
        rw
          (
            e,
            forget_tables-pid_table sdt_table pid
                (record f { pid_table = PidTable.set_pid_closed pid f.pid_table }),
          )
          (ground arith)
    | inr e ↦ rw e (ground arith)
  ]

  pub open-state :
      (pid j : ℕ) (f : Filter N S) (d : D)
      → ((open_pid_filter sdt_table open_pid close_pid pid (f, d)).0.pid_table.pids j).state
        ≡ (if (j == pid) && (open_pid pid d).1 then opened else (f.pid_table.pids j).state)
  unfolding open_pid_filter PidTable.set_pid_opened
  open-state pid j f d = elim (Bool-cases (open_pid pid d).1) [
    | inl e ↦ rw e (ground arith)
    | inr e ↦ rw e (ground arith)
  ]

  close-view :
      (pid j : ℕ) (r : Filter N S × D)
      → view j (close_pid_filter sdt_table open_pid close_pid pid r) ≡ (
          if (j == pid) && (close_pid pid r.1).1
          then (after_close (r.0.pid_table.pids j).state, false)
          else view j r)
  unfolding close_pid_filter
  close-view pid j (f, d) = rw (close-state pid j f d, device.close_holds pid j d) (ground arith)

  open-view :
      (pid j : ℕ) (r : Filter N S × D)
      → view j (open_pid_filter sdt_table open_pid close_pid pid r)
        ≡ (if (j == pid) && (open_pid pid r.1).1 then (opened, true) else view j r)
  unfolding open_pid_filter
  open-view pid j (f, d) = rw (open-state pid j f d, device.open_holds pid j d) (ground arith)

  -- The table says of each PID what the device holds.
  abbrev pub InStep : Filter N S × D → Type 0
  InStep r = (j : ℕ) → Agrees (view j r)

  close-InStep :
      (pid : ℕ) (r : Filter N S × D)
      → InStep r
      → InStep (close_pid_filter sdt_table open_pid close_pid pid r)
  close-InStep pid r h j = subst Agrees (sym (close-view pid j r)) (
      if-Agrees _ (after_close (r.0.pid_table.pids j).state, false) (view j r)
        (after_close-held (r.0.pid_table.pids j).state) (h j))

  open-InStep :
      (pid : ℕ) (r : Filter N S × D)
      → InStep r
      → InStep (open_pid_filter sdt_table open_pid close_pid pid r)
  open-InStep pid r h j =
      subst Agrees (sym (open-view pid j r)) (if-Agrees _ (opened, true) (view j r) refl (h j))

  -- A round of the update, by what a PID's state asks for.
  abbrev closed_first : ℕ → Filter N S × D → Filter N S × D
  closed_first pid r =
      if PidTable.should_pid_close r.0.pid_table pid
      then close_pid_filter sdt_table open_pid close_pid pid r
      else r

  update_pid-InStep :
      (pid : ℕ) (r : Filter N S × D)
      → InStep r
      → InStep (update_pid sdt_table open_pid close_pid pid r)
  unfolding update_pid
  update_pid-InStep pid (f, d) h =
      let first : InStep (closed_first pid (f, d)) =
        elim (Bool-cases (PidTable.should_pid_close f.pid_table pid)) [
          | inl e ↦ rw e (close-InStep pid (f, d) h)
          | inr e ↦ rw e h
        ] in
      elim (Bool-cases (PidTable.should_pid_open (closed_first pid (f, d)).0.pid_table pid)) [
        | inl e ↦ rw e (open-InStep pid (closed_first pid (f, d)) first)
        | inr e ↦ rw e first
      ]

  -- Where the device holds what the table says, it does so after an update of the filters, also if
  -- callbacks fail; the callbacks touch no other filter than that of their PID.
  pub update_pid_filters-InStep :
      (r : Filter N S × D) → InStep r → InStep (update_pid_filters sdt_table open_pid close_pid r)
  unfolding update_pid_filters PidTable.reset_pid_table_changed
  update_pid_filters-InStep (f, d) h = elim (Bool-cases f.pid_table.changed) [
    | inl e ↦ rw e (
        for_range_inv InStep (update_pid sdt_table open_pid close_pid) 0 PidTable.max_pids _
          (λ i t lo hi k. update_pid-InStep i t k) h)
    | inr e ↦ rw e h
  ]

  close_active_pid-InStep :
      (pid : ℕ) (r : Filter N S × D)
      → InStep r
      → InStep (close_active_pid sdt_table open_pid close_pid pid r)
  unfolding close_active_pid
  close_active_pid-InStep pid (f, d) h =
      elim (Bool-cases (PidTable.should_pid_close (PidTable.set_pid pid false f.pid_table) pid)) [
        | inl e ↦ rw e (close-InStep pid (f', d) dropped)
        | inr e ↦ rw e dropped
      ]
    where
      f' : Filter N S
      f' = record f { pid_table = PidTable.set_pid pid false f.pid_table }

      dropped : InStep (f', d)
      dropped j = (set_pid-wanted pid j false f.pid_table).1 ∙ h j

  -- Where the device holds what the table says, it does so after all active filters are closed,
  -- also if callbacks fail; the callbacks touch no other filter than that of their PID.
  pub close_active_pid_filters-InStep :
      (r : Filter N S × D)
      → InStep r
      → InStep (close_active_pid_filters sdt_table open_pid close_pid r)
  unfolding close_active_pid_filters
  close_active_pid_filters-InStep r h =
      for_range_inv InStep (close_active_pid sdt_table open_pid close_pid) 0 PidTable.max_pids r
        (λ i t lo hi k. close_active_pid-InStep i t k) h
