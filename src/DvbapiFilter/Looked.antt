-- ===== src/DvbapiFilter/Looked.antt =====
-- What `find` of src/decrypt/dvbapi/Filter.h does to one filter.
use satpi.Base.{
  ℕ, ◌/◌, ◌%◌, ◌≤◌, ◌<◌, ◌≡◌, ◌≢◌, ◌⊎◌, inl, inr, refl, sym, arith, true, false, ◌==◌, Ptr,
  Bool-cases, ==_iff, Option-cases, ap, if◌then◌else◌, List, Option, none, some, ==_refl,
}
use satpi.TableData
use satpi.TableData.{TableData, empty_table}
use satpi.DvbapiFilter.{
  FilterData, Filters, put, active_with, match_or_collecting, collect_raw_table_data,
  is_table_collected, reset_table_data, find_at, match_loop, filter_size,
}

-- The filter of a flat index.
abbrev pub at : Filters → ℕ → FilterData
at fs i = fs (i / filter_size) (i % filter_size)

module _ (id pid : ℕ) (packet : Ptr) (table_id : ℕ) where
  -- The filter is in use for the frontend and the PID, and the packet is one for it.
  abbrev Takes : FilterData → Type 0
  Takes f = (active_with f id pid ≡ true) × ((match_or_collecting packet f).1 ≡ true)

  -- The filter `f` becomes `f'`, and its table is not complete.
  abbrev pub Passed : FilterData → FilterData → Type 0
  Passed f f' =
      ((active_with f id pid ≡ false) × (f' ≡ f))
      ⊎ (((active_with f id pid ≡ true)
            × ((match_or_collecting packet f).1 ≡ false)
            × (f' ≡ record f { collecting = false }))
          ⊎ (Takes f
              × ((t : TableData) × (TableData.collect_data true table_id packet f.table_data
                    ≡ some t)
                  × ((TableData.is_collected t).1 ≡ false)
                  × (f' ≡ record f {
                    collecting = true;
                    table_data = (TableData.is_collected t).0;
                  }))))

  -- The packet completes the table, which is reported, and the filter begins anew.
  abbrev pub Completed : FilterData → FilterData → List ℕ → Type 0
  Completed f f' bytes =
      Takes f
      × ((t : TableData) × (TableData.collect_data true table_id packet f.table_data ≡ some t)
          × ((TableData.is_collected t).1 ≡ true)
          × (bytes ≡ TableData.get_data (TableData.is_collected t).0 0)
          × (f' ≡ record f { collecting = false; table_data = empty_table }))

  -- The table is read behind its bytes.
  abbrev pub Fails : FilterData → Type 0
  Fails f = Takes f × (TableData.collect_data true table_id packet f.table_data ≡ none)

  abbrev pub Looked : FilterData → Option (FilterData × Option (List ℕ)) → Type 0
  Looked f none = Fails f
  Looked f (some (f', none)) = Passed f f'
  Looked f (some (f', some bytes)) = Completed f f' bytes

  pub find_at-Looked : (f : FilterData) → Looked f (find_at id pid packet table_id f)
  unfolding find_at match_or_collecting collect_raw_table_data is_table_collected reset_table_data
      TableData.clear
  find_at-Looked f = elim (Bool-cases (active_with f id pid)) [
    | inr idle ↦ rw (idle, Looked) (inl (idle, refl))
    | inl used ↦ elim (Bool-cases (if f.collecting then true else match_loop f packet 0 5 16)) [
      | inr other ↦ rw (used, other, Looked) (inr (inl (used, other, refl)))
      | inl hit ↦ elim (Option-cases (TableData.collect_data true table_id packet f.table_data)) [
        | inl behind ↦ rw (used, hit, behind, Looked) ((used, hit), behind)
        | inr (t, collected) ↦ elim (Bool-cases (TableData.is_collected t).1) [
          | inl complete ↦
              rw (used, hit, collected, is_table_collected, complete, Looked)
                ((used, hit), (t, collected, complete, refl, rw complete refl))
          | inr more ↦
              rw (used, hit, collected, is_table_collected, more, Looked)
                (inr (inr ((used, hit), (t, collected, more, rw (more, hit) refl))))
        ]
      ]
    ]
  ]

-- No filter of an index from `lo` up to `hi`.
abbrev pub Outside : ℕ → ℕ → ℕ → ℕ → Type 0
Outside lo hi d k = (j : ℕ) → lo ≤ j → j < hi → d ≡ j / filter_size → k ≢ j % filter_size

module _ (fs : Filters) (i : ℕ) (g : FilterData) where
  abbrev pub fs1 : Filters
  fs1 = put fs (i / filter_size) (i % filter_size) g

  pub at-put : at fs1 i ≡ g
  at-put = rw (==_refl (i / filter_size), ==_refl (i % filter_size)) refl

  pub put-outside : (d k : ℕ) → (d ≡ i / filter_size → k ≢ i % filter_size) → fs1 d k ≡ fs d k
  put-outside d k other = elim (Bool-cases (d == i / filter_size)) [
    | inl e ↦ elim (Bool-cases (k == i % filter_size)) [
      | inl e' ↦
          absurd (other ((==_iff d (i / filter_size)).0 e) ((==_iff k (i % filter_size)).0 e'))
      | inr e' ↦ rw (e, e') (ap (λ x. fs x k) (sym ((==_iff d (i / filter_size)).0 e)))
    ]
    | inr e ↦ rw e refl
  ]

  pub at-put_other : (j : ℕ) → j ≢ i → at fs1 j ≡ at fs j
  at-put_other j ne =
      put-outside (j / filter_size) (j % filter_size) (λ e e'. ne (omega (arith, e, e')))
