-- ===== src/Filter/Rounds.antt =====
-- The rounds of the loop of `filterData` (src/mpegts/Filter.cpp).
use satpi.Base.{
  ℕ, zero, suc, ◌+◌, ◌%◌, ◌≤◌, ◌<◌, ◌≡◌, refl, ap, sym, ◌∙◌, ◌⊎◌, inl, inr, Bool, true, false, not,
  ◌&&◌, none, some, Ptr, offset, arith, Option-cases, some_injective,
}
use mathlib.Core.Path.{subst, Path}
use native.Mathlib.Nat.{add-zero}
use satpi.PidTable
use satpi.PidTable.{PidTable}
use satpi.PacketBuffer.{PacketBuffer, packet_at, get_ts_packet_ptr, mark_ts_for_purging}
use satpi.Filter.{Filter, Table}
use satpi.Filter.Packets.{
  is_bad, pid_of, collect_pmt, collect_other, collect_tables, filter_packet, filter_loop,
}
use satpi.Filter.Kept.{passes, and_false, Filtered, Filtered-packet, Filtered-pass, Filtered-drop}

add_pid_data-opened :
    (pid cc j : ℕ) (t : PidTable)
    → PidTable.is_pid_opened (PidTable.add_pid_data pid cc t) j ≡ PidTable.is_pid_opened t j
unfolding PidTable.add_pid_data PidTable.is_pid_opened
add_pid_data-opened pid cc j t = ground arith

module _ {N S : Type 0} (nit_table : Table N) (sdt_table : Table S) where
  collect_pmt_pids :
      (pid : ℕ) (packet : Ptr) (f f' : Filter N S)
      → collect_pmt nit_table sdt_table pid packet f ≡ some f'
      → f'.pid_table ≡ f.pid_table
  unfolding collect_pmt
  collect_pmt_pids pid packet f f' h = ground arith

  collect_other_pids :
      (pid : ℕ) (packet : Ptr) (f f' : Filter N S)
      → collect_other nit_table sdt_table pid packet f ≡ some f'
      → f'.pid_table ≡ f.pid_table
  unfolding collect_other
  collect_other_pids pid packet f f' h = ground (arith, collect_pmt_pids pid packet f f')

  -- Collecting tables leaves the PID table alone.
  collect_tables_pids :
      (pid : ℕ) (packet : Ptr) (f f' : Filter N S)
      → collect_tables nit_table sdt_table pid packet f ≡ some f'
      → f'.pid_table ≡ f.pid_table
  unfolding collect_tables
  collect_tables_pids pid packet f f' h = ground (arith, collect_other_pids pid packet f f')

module _ {N S : Type 0} (nit_table : Table N) (sdt_table : Table S) where
  abbrev pub counted : ℕ → Ptr → Filter N S → Filter N S
  counted pid packet f = record f {
    pid_table = PidTable.add_pid_data pid (packet 3 % 16) f.pid_table;
  }

  filter_packet_cases :
      (i : ℕ) (f f' : Filter N S) (b b' : PacketBuffer)
      → PidTable.is_all_pid f.pid_table ≡ false
      → filter_packet nit_table sdt_table true i f b ≡ some (f', b')
      → let packet = get_ts_packet_ptr b i in
        let pid = pid_of packet in
        (((is_bad packet ≡ true) ⊎ (PidTable.is_pid_opened f.pid_table pid ≡ false))
          × (f' ≡ f)
          × (b' ≡ mark_ts_for_purging i b))
        ⊎ ((is_bad packet ≡ false)
            × (PidTable.is_pid_opened f.pid_table pid ≡ true)
            × (b' ≡ b)
            × (collect_tables nit_table sdt_table pid packet (counted pid packet f) ≡ some f'))
  unfolding filter_packet
  filter_packet_cases i f f' b b' filtered h = ground arith

  -- After `k` packets from packet `i` on, less than `left`, the next is one that passes and carries a
  -- table that is read behind its bytes, by the filter that these packets have left.
  abbrev pub Stops : (ℕ → Bool) → PacketBuffer → ℕ → ℕ → Filter N S → PacketBuffer → Type 0
  Stops opened b0 i left f b =
      (k : ℕ) × (g : Filter N S) × (b' : PacketBuffer) × (k < left)
      × (filter_loop nit_table sdt_table true i k f b ≡ some (g, b'))
      × (passes opened b0.buffer (i + k) ≡ true)
      × (let packet = offset b0.buffer (packet_at (i + k)) in
          let pid = pid_of packet in
          collect_tables nit_table sdt_table pid packet (counted pid packet g) ≡ none)

  module _ (opened : ℕ → Bool) (some_only : opened PidTable.all_pids ≡ false)
      (b0 : PacketBuffer) where
    -- The filter opens the PIDs `opened`.
    abbrev Opens : Filter N S → Type 0
    Opens f = (j : ℕ) → PidTable.is_pid_opened f.pid_table j ≡ opened j

    is_all_pid-Opens : (f : Filter N S) → Opens f → PidTable.is_all_pid f.pid_table ≡ false
    unfolding PidTable.is_all_pid PidTable.is_pid_opened
    is_all_pid-Opens f o = o PidTable.all_pids ∙ some_only

    -- A packet that is treated as good is one that passes.
    passed :
        (i : ℕ) (f : Filter N S) (b : PacketBuffer)
        → Opens f
        → Filtered opened b0 b i
        → is_bad (get_ts_packet_ptr b i) ≡ false
        → PidTable.is_pid_opened f.pid_table (pid_of (get_ts_packet_ptr b i)) ≡ true
        → passes opened b0.buffer i ≡ true
    passed i f b o v good open_pid =
        ap (λ x. not x && opened (pid_of (offset b0.buffer (packet_at i))))
          (subst (λ q. is_bad q ≡ false) same good)
        ∙ subst (λ q. opened (pid_of q) ≡ true) same
            (sym (o (pid_of (get_ts_packet_ptr b i))) ∙ open_pid)
      where
        same : get_ts_packet_ptr b i ≡ offset b0.buffer (packet_at i)
        same = Filtered-packet opened b0 b i v

    filter_packet-Filtered :
        (i : ℕ) (f f' : Filter N S) (b b' : PacketBuffer)
        → i < 7
        → Opens f
        → Filtered opened b0 b i
        → filter_packet nit_table sdt_table true i f b ≡ some (f', b')
        → Opens f' × Filtered opened b0 b' (suc i)
    filter_packet-Filtered i f f' b b' small o v h =
        elim (filter_packet_cases i f f' b b' (is_all_pid-Opens f o) h) [
          | inl (drop, same_f, same_b) ↦
              (rw same_f o, rw same_b (Filtered-drop opened b0 b i v small (dropped drop)))
          | inr (good, open_pid, same_b, collected) ↦ (
            still f' (collect_tables_pids nit_table sdt_table _ _ _ f' collected),
            rw same_b (Filtered-pass opened b0 b i v (passed i f b o v good open_pid)),
          )
        ]
      where
        packet : Ptr
        packet = get_ts_packet_ptr b i

        packet0 : Ptr
        packet0 = offset b0.buffer (packet_at i)

        same : packet ≡ packet0
        same = Filtered-packet opened b0 b i v

        dropped :
            (is_bad packet ≡ true) ⊎ (PidTable.is_pid_opened f.pid_table (pid_of packet) ≡ false)
            → passes opened b0.buffer i ≡ false
        dropped (inl bad) =
            ap (λ x. not x && opened (pid_of packet0)) (subst (λ q. is_bad q ≡ true) same bad)
        dropped (inr not_open) =
            ap (λ x. not (is_bad packet0) && x)
              (subst (λ q. opened (pid_of q) ≡ false) same (sym (o (pid_of packet)) ∙ not_open))
            ∙ and_false (not (is_bad packet0))

        still :
            (g : Filter N S) → g.pid_table ≡ (counted (pid_of packet) packet f).pid_table → Opens g
        still g e j = rw e (add_pid_data-opened (pid_of packet) (packet 3 % 16) j f.pid_table ∙ o j)

    pub filter_loop-Filtered :
        (i left : ℕ) (f f' : Filter N S) (b b' : PacketBuffer)
        → i + left ≤ 7
        → Opens f
        → Filtered opened b0 b i
        → filter_loop nit_table sdt_table true i left f b ≡ some (f', b')
        → Opens f' × Filtered opened b0 b' (i + left)
    unfolding filter_loop
    filter_loop-Filtered i zero f f' b b' room o v h =
        let same : Path (Filter N S × PacketBuffer) (f, b) (f', b') = some_injective _ _ h in
        (
          subst Opens (ap (λ r. r.0) same) o,
          rw (add-zero i) (subst (λ x. Filtered opened b0 x i) (ap (λ r. r.1) same) v),
        )
    filter_loop-Filtered i (suc left) f f' b b' room o v h =
        elim (Option-cases (filter_packet nit_table sdt_table true i f b)) [
          | inl stopped ↦ absurd (cc)
          | inr ((f1, b1), e) ↦
              let (o1, v1) = filter_packet-Filtered i f f1 b b1 (omega arith) o v e in
              let (o', v') =
                filter_loop-Filtered (suc i) left f1 f' b1 b' (omega arith) o1 v1 (rw e at h) in
              (o', subst (λ n. Filtered opened b0 b' n) (omega arith) v')
        ]

    filter_packet-none :
        (i : ℕ) (f : Filter N S) (b : PacketBuffer)
        → filter_packet nit_table sdt_table true i f b ≡ none
        → let packet = get_ts_packet_ptr b i in
          let pid = pid_of packet in
          (is_bad packet ≡ false)
          × (PidTable.is_pid_opened f.pid_table pid ≡ true)
          × (collect_tables nit_table sdt_table pid packet (counted pid packet f) ≡ none)
    unfolding filter_packet
    filter_packet-none i f b h = ground arith

    pub filter_loop-Stops :
        (i left : ℕ) (f : Filter N S) (b : PacketBuffer)
        → i + left ≤ 7
        → Opens f
        → Filtered opened b0 b i
        → filter_loop nit_table sdt_table true i left f b ≡ none
        → Stops opened b0 i left f b
    unfolding filter_loop
    filter_loop-Stops i zero f b room o v h = absurd (cc)
    filter_loop-Stops i (suc left) f b room o v h =
        elim (Option-cases (filter_packet nit_table sdt_table true i f b)) [
          | inl stopped ↦
              let (good, open_pid, fails) = filter_packet-none i f b stopped in
              let same : get_ts_packet_ptr b i ≡ offset b0.buffer (packet_at i) =
                Filtered-packet opened b0 b i v in
              (
                0,
                f,
                b,
                omega arith,
                refl,
                rw (add-zero i) (passed i f b o v good open_pid),
                rw (add-zero i) (
                    subst
                      (λ (q : Ptr).
                        collect_tables nit_table sdt_table (pid_of q) q (counted (pid_of q) q f)
                        ≡ none)
                      same fails),
              )
          | inr ((f1, b1), e) ↦
              let (o1, v1) = filter_packet-Filtered i f f1 b b1 (omega arith) o v e in
              let (k, g, b', lt, run, pass, fails) =
                filter_loop-Stops (suc i) left f1 b1 (omega arith) o1 v1 (rw e at h) in
              let on : suc i + k ≡ i + suc k = omega arith in
              (suc k, g, b', omega arith, rw (e, filter_loop) run, rw on at pass, rw on at fails)
        ]
