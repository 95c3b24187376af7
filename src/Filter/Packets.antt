-- ===== src/Filter/Packets.antt =====
-- `filterData` of src/mpegts/Filter.cpp: the packets of a buffer are counted, the PSI tables are
-- collected from them, and those of no open PID are removed. The log of the time table (PID 20) and
-- the copies to a pipe that a build option adds change no state and are left out.
use satpi.Base.{
  ℕ, zero, suc, ◌+◌, ◌-◌, ◌*◌, ◌%◌, Bool, false, not, ◌&&◌, ◌||◌, if◌then◌else◌, ◌==◌, Option, some,
  List, [], ◌∷◌, Ptr, has_bit, ◌>>=◌,
}
use satpi.PidTable
use satpi.PidTable.{PidTable}
use satpi.PacketBuffer
use satpi.PacketBuffer.{PacketBuffer}
use satpi.TableData
use satpi.TableData.{TableData}
use satpi.Pat
use satpi.Pat.{Pat}
use satpi.Pcr
use satpi.Pcr.{Pcr}
use satpi.Pmt
use satpi.Pmt.{Pmt}
use satpi.Filter.{Filter, Table, pat_table, pmt_table, find_pmt, store_pmt, or_else, has_active_pcr}

abbrev pub pat_id : ℕ
pat_id = 0x00

abbrev pub pmt_id : ℕ
pmt_id = 0x02

abbrev pub nit_id : ℕ
nit_id = 0x40

abbrev pub sdt_id : ℕ
sdt_id = 0x42

-- A table that is not collected takes the packet, and is read once it is complete.
unfoldable pub collect_table : {T : Type 0} → Table T → ℕ → Ptr → T → Option T
collect_table tbl table_id packet t =
    let (sections, collected) = TableData.is_collected (tbl.sections t) in
    let t' = tbl.with_sections sections t in
    let collect = do
      sections' ← TableData.collect_data false table_id packet sections
      let (sections'', complete) = TableData.is_collected sections'
      let t'' = tbl.with_sections sections'' t
      if complete then tbl.parse t'' else some t''
    in if collected then some t' else collect

-- The clocks of the PMTs that the packet's PID carries.
unfoldable pub collect_pcr : PidTable → ℕ → Ptr → List (ℕ × Pmt) → Pcr → Pcr
collect_pcr t pid packet [] pcr = pcr
collect_pcr t pid packet ((k, p) ∷ m) pcr =
    collect_pcr t pid packet m
      (if pid == Pmt.get_pcr_pid p && has_active_pcr t p then Pcr.collect_data packet pcr else pcr)

-- Not the beginning of a packet, a transport error, or the NULL packet.
abbrev pub is_bad : Ptr → Bool
is_bad packet =
    not (packet 0 == 0x47) || has_bit (packet 1) 7 || (packet 1 == 0x1f && packet 2 == 0xff)

abbrev pub pid_of : Ptr → ℕ
pid_of packet = packet 1 % 32 * 256 + packet 2

module _ {N S : Type 0} (nit_table : Table N) (sdt_table : Table S) where
  unfoldable pub collect_pmt : ℕ → Ptr → Filter N S → Option (Filter N S)
  collect_pmt pid packet f = do
    p ← collect_table pmt_table pmt_id packet (or_else (find_pmt pid f.pmt_map) Pmt.new_pmt)
    some (record f { pmt_map = store_pmt pid p f.pmt_map })

  -- The `default` of the `switch`.
  unfoldable pub collect_other : ℕ → Ptr → Filter N S → Option (Filter N S)
  collect_other pid packet f =
      if Pat.is_marked_as_pmt f.pat pid
      then collect_pmt pid packet f
      else if f.filter_pcr && Pcr.is_pcr_table_data packet
      then some (record f { pcr = collect_pcr f.pid_table pid packet f.pmt_map f.pcr })
      else some f

  -- The `switch` on the PID.
  unfoldable pub collect_tables : ℕ → Ptr → Filter N S → Option (Filter N S)
  collect_tables pid packet f =
      if pid == 0
      then collect_table pat_table pat_id packet f.pat >>= (λ p. some (record f { pat = p }))
      else if pid == 1
      then some f
      else if pid == 16
      then collect_table nit_table nit_id packet f.nit >>= (λ n. some (record f { nit = n }))
      else if pid == 17
      then collect_table sdt_table sdt_id packet f.sdt >>= (λ s. some (record f { sdt = s }))
      else if pid == 18 || pid == 20 || pid == 21
      then some f
      else collect_other pid packet f

  -- The packet is marked for purging, where that is asked for and not all PIDs are open.
  abbrev pub purge_packet : Bool → Filter N S → ℕ → PacketBuffer → PacketBuffer
  purge_packet filter f i b =
      if filter && not (PidTable.is_all_pid f.pid_table)
      then PacketBuffer.mark_ts_for_purging i b
      else b

  -- One round of the loop.
  unfoldable pub filter_packet :
      Bool → ℕ → Filter N S → PacketBuffer → Option (Filter N S × PacketBuffer)
  filter_packet filter i f b =
      let packet = PacketBuffer.get_ts_packet_ptr b i in
      let pid = pid_of packet in
      let counted = record f {
        pid_table = PidTable.add_pid_data pid (packet 3 % 16) f.pid_table;
      } in
      if is_bad packet
      then some (f, purge_packet filter f i b)
      else if not (PidTable.is_pid_opened f.pid_table pid)
      then some (f, purge_packet filter f i b)
      else collect_tables pid packet counted >>= (λ f'. some (f', b))

  -- The loop from packet `i` on, with `left` packets to go.
  unfoldable pub filter_loop :
      Bool → ℕ → ℕ → Filter N S → PacketBuffer → Option (Filter N S × PacketBuffer)
  filter_loop filter i zero f b = some (f, b)
  filter_loop filter i (suc left) f b =
      filter_packet filter i f b >>= (λ r. filter_loop filter (suc i) left r.0 r.1)

  unfoldable pub filter_data : Bool → Filter N S → PacketBuffer → Option (Filter N S × PacketBuffer)
  filter_data filter f b =
      let size = PacketBuffer.get_number_of_completed_packets b in
      let (b', begin) = PacketBuffer.get_begin_of_unfiltered_packets b in
      filter_loop filter begin (size - begin) f b'
      >>= (λ r. (if filter then PacketBuffer.purge r.1 else some r.1) >>= (λ b''. some (r.0, b'')))
