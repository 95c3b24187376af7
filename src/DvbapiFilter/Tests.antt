-- ===== src/DvbapiFilter/Tests.antt =====
-- Instances of the theorems on the section filters.
use satpi.Base.{
  ℕ, ◌≡◌, ◌<◌, ◌↔◌, refl, true, false, some, Ptr, if◌then◌else◌, ◌==◌, get_or, [], ◌∷◌,
}
use satpi.DvbapiFilter.{FilterData, Filters, match_or_collecting, match_loop, find}
use satpi.TableData.{empty_table}
use satpi.DvbapiFilter.Matching.{Agrees, match_or_collecting-Agrees}
use satpi.DvbapiFilter.Found.{Outcome, find-Outcome}

-- A filter for the table ids 0x80 and 0x81.
abbrev ecm_filter : FilterData
ecm_filter = record {
  filter_active = true;
  id = some 1;
  pid = some 100;
  filter = λ i. if i == 0 then 0x80 else 0;
  mask = λ i. if i == 0 then 0xfe else 0;
  collecting = false;
  table_data = empty_table;
}

abbrev filters : Filters
filters d k = ecm_filter

abbrev ecm_packet : Ptr
ecm_packet i = get_or (0x47 ∷ 0x40 ∷ 100 ∷ 0x10 ∷ 0 ∷ 0x81 ∷ 0x70 ∷ 20 ∷ []) i 0

match_run : (match_or_collecting ecm_packet ecm_filter).1 ≡ true
unfolding match_or_collecting match_loop
match_run = refl

match_or_collecting-Agrees_example :
    let (f', answer) = match_or_collecting ecm_packet ecm_filter in
    ((answer ≡ true) ↔ ((i : ℕ) → i < 16 → Agrees ecm_filter ecm_packet i))
    × (f'.collecting ≡ answer)
match_or_collecting-Agrees_example = match_or_collecting-Agrees ecm_filter ecm_packet refl

find-Outcome_example :
    Outcome 1 100 ecm_packet 0x81 0 375 filters (find 1 100 ecm_packet 0x81 filters)
find-Outcome_example = find-Outcome 1 100 ecm_packet 0x81 filters
