-- ===== src/Filter/Remains.antt =====
-- What `filterData` of src/mpegts/Filter.cpp leaves of a buffer.
use satpi.Base.{
  ℕ, zero, suc, ◌+◌, ◌-◌, ◌/◌, ◌≤◌, ◌<◌, ◌≡◌, refl, sym, ◌∙◌, ◌⊎◌, inl, inr, Bool, true, false, not,
  none, some, ◌++◌, Ptr, arith, Option-cases, ◌>>=◌, ap₂, slice_ext,
}
use native.Mathlib.Nat.{zero-add, le_refl}
use satpi.PidTable
use satpi.PidTable.{PidTable}
use satpi.PacketBuffer
use satpi.PacketBuffer.{PacketBuffer, packet_at, is_marked, get_ts_packet_ptr, mark_ts_for_purging}
use satpi.PacketBuffer.Purge.{contents, contents-purge_all}
use satpi.PacketBuffer.Moved.{unmarked, bytes_between, fits, fits_ext}
use satpi.Filter.{Filter, Table}
use satpi.Filter.Packets.{filter_loop, filter_data}
use satpi.Filter.Kept.{passes, kept, Filtered, Filtered-start}
use satpi.Filter.Rounds.{filter_loop-Filtered, filter_loop-Stops, Stops}

passes-unmarked :
    (opened : ℕ → Bool) (p : Ptr) (i : ℕ) → passes opened p i ≡ true → is_marked p i ≡ false
passes-unmarked opened p i h = ground arith

unmarked-kept :
    (opened : ℕ → Bool) (b0 b : PacketBuffer) (i n : ℕ)
    → n ≤ i
    → Filtered opened b0 b i
    → unmarked n b.buffer ≡ kept n opened b0.buffer
unmarked-kept opened b0 b i zero le v = refl
unmarked-kept opened b0 b i (suc n) le v =
    ap₂ ◌++◌ (unmarked-kept opened b0 b i n (omega arith) v) (elim (v.behind n le) [
      | inl (pass, same) ↦
          rw (pass, same 1 (omega arith), passes-unmarked opened b0.buffer n pass)
            (slice_ext b.buffer b0.buffer (packet_at n) (packet_at n) 188 same)
      | inr (drop, mark) ↦ rw (drop, mark)
    ])

completed :
    (b : PacketBuffer)
    → 12 ≤ b.write_index
    → b.write_index ≤ 1328
    → PacketBuffer.get_number_of_completed_packets b ≡ (b.write_index - 12) / 188
unfolding PacketBuffer.get_number_of_completed_packets PacketBuffer.full
completed b lo hi = ground arith

-- What `filterData` does to a buffer that it has not seen: it notes that it has, and runs its loop.
filter_data_fresh :
    {N S : Type 0} (nit_table : Table N) (sdt_table : Table S) (f : Filter N S) (b : PacketBuffer)
    → b.processed_index ≡ 12
    → 12 ≤ b.write_index
    → b.write_index ≤ 1328
    → filter_data nit_table sdt_table true f b ≡ (
        filter_loop nit_table sdt_table true 0
          ((b.write_index - 12) / 188)
          f
          (record b { processed_index = b.write_index })
        >>= (λ r. PacketBuffer.purge r.1 >>= (λ b'. some (r.0, b'))))
unfolding filter_data PacketBuffer.get_begin_of_unfiltered_packets
filter_data_fresh nit_table sdt_table f b fresh lo hi =
    let from_zero : (b.write_index - 12) / 188 - 0 ≡ (b.write_index - 12) / 188 = omega arith in
    rw (completed b lo hi, fresh) (rw from_zero refl)

-- What a buffer comes to whose packets have all been looked at, once it is purged.
purge-kept :
    (opened : ℕ → Bool) (b0 b : PacketBuffer)
    → 12 ≤ b0.write_index
    → b0.write_index ≤ 1328
    → let n = (b0.write_index - 12) / 188 in
      let dropped : ℕ → Bool = λ j. not (passes opened b0.buffer j) in
      Filtered opened b0 b n
      → ((fits n 0 dropped (b0.write_index - packet_at n) ≡ false) × (PacketBuffer.purge b ≡ none))
        ⊎ ((b' : PacketBuffer) × (fits n 0 dropped (b0.write_index - packet_at n) ≡ true)
            × (PacketBuffer.purge b ≡ some b')
            × (contents b'
                ≡ kept n opened b0.buffer ++ bytes_between b0.buffer (packet_at n) b0.write_index))
purge-kept opened b0 b lo hi v =
    elim (contents-purge_all b (rw v.same_end lo) (rw v.same_end hi) clean) [
      | inl (overlap, run) ↦ inl (sym same_fits ∙ overlap, run)
      | inr (b', ok, run, same, _, _) ↦ inr (
        b',
        sym same_fits ∙ ok,
        run,
        same
            ∙ rw v.same_end (
                ap₂ ◌++◌ (unmarked-kept opened b0 b n n (le_refl n) v) (
                  slice_ext b.buffer b0.buffer (packet_at n) (packet_at n)
                    (b0.write_index - packet_at n)
                    (λ k h. v.ahead (packet_at n + k) (omega arith)))),
      )
    ]
  where
    n : ℕ
    n = (b0.write_index - 12) / 188

    marks : (j : ℕ) → j < n → is_marked b.buffer j ≡ not (passes opened b0.buffer j)
    marks j h = elim (v.behind j h) [
      | inl (pass, same) ↦ rw (pass, same 1 (omega arith)) (passes-unmarked opened b0.buffer j pass)
      | inr (drop, mark) ↦ rw (drop, mark)
    ]

    same_fits :
        fits
          ((b.write_index - 12) / 188)
          0
          (is_marked b.buffer)
          (b.write_index - packet_at ((b.write_index - 12) / 188))
        ≡ fits n 0 (λ j. not (passes opened b0.buffer j)) (b0.write_index - packet_at n)
    same_fits = rw v.same_end (fits_ext n 0 (b0.write_index - packet_at n) _ _ marks)

    clean :
        b.purge_pending ≡ 0
        → (j : ℕ) → j < (b.write_index - 12) / 188
        → is_marked b.buffer j ≡ false
    clean z j h = marks j (rw v.same_end at h) ∙ rw (v.all_pass z j (rw v.same_end at h)) refl

-- Filtering a buffer that has not been filtered and has nothing to be purged, with its write index in
-- bounds, while not all PIDs are open. Either it leaves exactly the packets that are well-formed and
-- whose PID is open, in their order and unchanged, and behind them the bytes of a packet that is not
-- complete yet, with the open PIDs as they were. Or one of the packets passes and completes a table
-- that is read behind its bytes by the filter that the packets before it have left. Or behind a run of
-- dropped packets more bytes stay than the run is long, and the areas of the purge's `memcpy` overlap.
pub filter_data-kept :
    {N S : Type 0} (nit_table : Table N) (sdt_table : Table S) (f : Filter N S) (b : PacketBuffer)
    → PidTable.is_pid_opened f.pid_table PidTable.all_pids ≡ false
    → b.processed_index ≡ 12
    → b.purge_pending ≡ 0
    → 12 ≤ b.write_index
    → b.write_index ≤ 1328
    → let n = (b.write_index - 12) / 188 in
      let opened = PidTable.is_pid_opened f.pid_table in
      let dropped : ℕ → Bool = λ j. not (passes opened b.buffer j) in
      let seen : PacketBuffer = record b { processed_index = b.write_index } in
      (Stops nit_table sdt_table opened b 0 n f seen
        × (filter_data nit_table sdt_table true f b ≡ none))
      ⊎ (((fits n 0 dropped (b.write_index - packet_at n) ≡ false)
            × (filter_data nit_table sdt_table true f b ≡ none))
          ⊎ ((f' : Filter N S) × (b' : PacketBuffer) × (fits n 0 dropped
                  (b.write_index - packet_at n)
                ≡ true)
              × (filter_data nit_table sdt_table true f b ≡ some (f', b'))
              × (contents b'
                  ≡ kept n opened b.buffer ++ bytes_between b.buffer (packet_at n) b.write_index)
              × ((j : ℕ) → PidTable.is_pid_opened f'.pid_table j ≡ opened j)))
filter_data-kept {N} {S} nit_table sdt_table f b not_all fresh idle lo hi =
    elim (Option-cases (filter_loop nit_table sdt_table true 0 n f b1)) [
      | inl e ↦ inl (
        filter_loop-Stops nit_table sdt_table opened not_all b1 0 n f b1 (omega arith) (λ j. refl)
            (Filtered-start opened b1 idle) e,
        run ∙ rw e refl,
      )
      | inr ((f1, b2), e) ↦
          let (o, v) =
            filter_loop-Filtered nit_table sdt_table opened not_all b1 0 n f f1 b1 b2 (omega arith)
              (λ j. refl) (Filtered-start opened b1 idle) e in
          elim (purge-kept opened b1 b2 lo hi (rw (zero-add n) at v)) [
            | inl (overlap, purged) ↦ inr (inl (overlap, run ∙ rw (e, ◌>>=◌, purged) refl))
            | inr (b', ok, purged, same) ↦
                inr (inr (f1, b', ok, run ∙ rw (e, ◌>>=◌, purged) refl, same, o))
          ]
    ]
  where
    n : ℕ
    n = (b.write_index - 12) / 188

    opened : ℕ → Bool
    opened = PidTable.is_pid_opened f.pid_table

    b1 : PacketBuffer
    b1 = record b { processed_index = b.write_index }

    run :
        filter_data nit_table sdt_table true f b
        ≡ ◌>>=◌ {B = Filter N S × PacketBuffer}
            (filter_loop nit_table sdt_table true 0 n f b1)
            (λ r. PacketBuffer.purge r.1 >>= (λ b'. some (r.0, b')))
    run = filter_data_fresh nit_table sdt_table f b fresh lo hi
