-- ===== src/TableData/Continue.antt =====
-- The packets that go on with a section, by `collectData` of src/mpegts/TableData.cpp.
use satpi.Base.{
  ℕ, ◌+◌, ◌*◌, ◌%◌, ◌^◌, ◌≤◌, ◌<◌, ◌≡◌, refl, ap, ◌∙◌, true, false, Option, none, some, List, [],
  ◌∷◌, ◌++◌, leb, arith, length, slice, length-slice, length-append, Ptr, if◌then◌else◌, sub64,
  Option-cases, inl, inr,
}
use mathlib.Core.List.{append_assoc, append-nil}
use satpi.TableData.Checked.{current-store}
use satpi.TableData.{
  Section, TableData, current, store, packet_pid, packet_cc, add_data, finish, continue_section,
  collect_data,
}

-- The packets in the order in which they arrive.
unfoldable pub collect_all : ℕ → List Ptr → TableData → Option TableData
collect_all table_id [] t = some t
collect_all table_id (p ∷ ps) t = elim (collect_data false table_id p t) [
  | none ↦ none
  | some t' ↦ collect_all table_id ps t'
]

abbrev pub payloads : List Ptr → List ℕ
payloads [] = []
payloads (p ∷ ps) = slice p 4 184 ++ payloads ps

-- Each packet is of the PID `pid` and has the continuity counter after the one before.
abbrev pub Follows : ℕ → ℕ → List Ptr → Type 0
Follows pid cc [] = Unit
Follows pid cc (p ∷ ps) =
    (packet_cc p ≡ (cc + 1) % 16) × (packet_pid p ≡ pid) × Follows pid (packet_cc p) ps

abbrev pub last_cc : ℕ → List Ptr → ℕ
last_cc cc [] = cc
last_cc cc (p ∷ ps) = last_cc (packet_cc p) ps

-- The section after the packets `ps`.
abbrev pub extend : ℕ → Section → List Ptr → Section
extend table_id s ps = record s {
  table_id = table_id;
  bytes = s.bytes ++ payloads ps;
  cc = last_cc s.cc ps;
}

extend_one :
    (table_id : ℕ) (p : Ptr) (s : Section)
    → 0 < length s.bytes
    → packet_cc p ≡ (s.cc + 1) % 16
    → packet_pid p ≡ s.pid
    → add_data table_id (slice p 4 184) (packet_pid p) (packet_cc p) s
      ≡ (extend table_id s (p ∷ []), true)
unfolding add_data
extend_one table_id p s some_bytes next same = ground (arith, append-nil (slice p 4 184))

continue_step :
    (table_id : ℕ) (p : Ptr) (t : TableData)
    → 0 < length (current t).bytes
    → packet_cc p ≡ ((current t).cc + 1) % 16
    → packet_pid p ≡ (current t).pid
    → let s = extend table_id (current t) (p ∷ []) in
      collect_data false table_id p t
      ≡ (if leb s.section_length (sub64 (length s.bytes) 9) then finish t s else some (store t s))
unfolding continue_section collect_data
continue_step table_id p t some_bytes next same =
    ground (arith, extend_one table_id p (current t) some_bytes next same)

length-extend :
    (table_id : ℕ) (ps : List Ptr) (s : Section)
    → length (extend table_id s ps).bytes ≡ length s.bytes + 184 * length ps
length-extend table_id [] s = omega (arith, length-append s.bytes [])
length-extend table_id (p ∷ ps) s = omega (
  arith,
  length-append s.bytes (payloads (p ∷ ps)),
  length-append (slice p 4 184) (payloads ps),
  length-slice p 4 184,
  length-append s.bytes (payloads ps),
  length-extend table_id ps s,
)

-- One packet more.
extend-extend :
    (table_id : ℕ) (p : Ptr) (ps : List Ptr) (s : Section)
    → extend table_id (extend table_id s (p ∷ [])) ps ≡ extend table_id s (p ∷ ps)
extend-extend table_id p ps s =
    ap (λ (b : List ℕ). record s { table_id = table_id; bytes = b; cc = last_cc (packet_cc p) ps })
      (append_assoc s.bytes (slice p 4 184 ++ []) (payloads ps)
        ∙ ap (λ (b : List ℕ). s.bytes ++ (b ++ payloads ps)) (append-nil (slice p 4 184)))

module _ (table_id : ℕ) (p : Ptr) (t : TableData) where
  continue_last :
      0 < length (current t).bytes
      → packet_cc p ≡ ((current t).cc + 1) % 16
      → packet_pid p ≡ (current t).pid
      → (current t).section_length + 9 ≤ length (current t).bytes + 184
      → length (current t).bytes + 184 < 2 ^ 64
      → collect_data false table_id p t ≡ finish t (extend table_id (current t) (p ∷ []))
  continue_last some_bytes next same late fit =
      continue_step table_id p t some_bytes next same
      ∙ ground (arith, length-extend table_id (p ∷ []) (current t))

  continue_more :
      0 < length (current t).bytes
      → packet_cc p ≡ ((current t).cc + 1) % 16
      → packet_pid p ≡ (current t).pid
      → length (current t).bytes + 184 < (current t).section_length + 9
      → length (current t).bytes + 184 < 2 ^ 64
      → collect_data false table_id p t ≡ some (store t (extend table_id (current t) (p ∷ [])))
  continue_more some_bytes next same early fit =
      continue_step table_id p t some_bytes next same
      ∙ ground (arith, length-extend table_id (p ∷ []) (current t))

pub collect_all_cons :
    (table_id : ℕ) (p : Ptr) (ps : List Ptr) (t t' : TableData)
    → collect_data false table_id p t ≡ some t'
    → collect_all table_id (p ∷ ps) t ≡ collect_all table_id ps t'
unfolding collect_all
collect_all_cons table_id p ps t t' e = rw (e, collect_all)

collect_all_one :
    (table_id : ℕ) (p : Ptr) (t : TableData)
    → collect_all table_id (p ∷ []) t ≡ collect_data false table_id p t
unfolding collect_all
collect_all_one table_id p t = elim (Option-cases (collect_data false table_id p t)) [
  | inl e ↦ rw (e, collect_all)
  | inr (t', e) ↦ rw (e, collect_all)
]

-- The packets behind the first one lead to the check of the whole section, and to none before it.
pub continue_all :
    (table_id : ℕ) (p : Ptr) (ps : List Ptr) (t : TableData) (s : Section)
    → current t ≡ s
    → 0 < length s.bytes
    → Follows s.pid s.cc (p ∷ ps)
    → length s.bytes + 184 * length ps < s.section_length + 9
    → s.section_length + 9 ≤ length s.bytes + 184 * length (p ∷ ps)
    → length s.bytes + 184 * length (p ∷ ps) < 2 ^ 64
    → (t' : TableData) × (collect_all table_id (p ∷ ps) t ≡ finish t' (extend table_id s (p ∷ ps)))
      × (t'.current_section_number ≡ t.current_section_number)
      × (t'.number_of_sections ≡ t.number_of_sections)
continue_all table_id p [] t s here some_bytes (next, same, _) early late fit = (
  t,
  collect_all_one table_id p t
      ∙ continue_last table_id p t (rw here some_bytes) (rw here next) (rw here same)
          (rw here (omega arith)) (rw here (omega arith))
      ∙ ap (λ (x : Section). finish t (extend table_id x (p ∷ []))) here,
  refl,
  refl,
)
continue_all table_id p (q ∷ ps) t s here some_bytes (next, same, rest) early late fit =
    let s1 : Section = extend table_id (current t) (p ∷ []) in
    let s2 : Section = extend table_id s (p ∷ []) in
    let size : length s2.bytes ≡ length s.bytes + 184 = length-extend table_id (p ∷ []) s in
    let there : current (store t s1) ≡ s2 =
      current-store t s1 ∙ ap (λ (x : Section). extend table_id x (p ∷ [])) here in
    let (t', e, n, m) =
      continue_all table_id q ps (store t s1) s2 there (omega (arith, size)) rest
        (omega (arith, size)) (omega (arith, size)) (omega (arith, size)) in
    (
      t',
      collect_all_cons table_id p (q ∷ ps) t (store t s1) (
            continue_more table_id p t (rw here some_bytes) (rw here next) (rw here same)
              (rw here (omega arith)) (rw here (omega arith)))
          ∙ e
          ∙ ap (finish t') (extend-extend table_id p (q ∷ ps) s),
      n,
      m,
    )
