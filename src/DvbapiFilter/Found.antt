-- ===== src/DvbapiFilter/Found.antt =====
-- What `find` of src/decrypt/dvbapi/Filter.h does to the filters, and what it reports.
use satpi.Base.{
  ℕ, zero, suc, ◌+◌, ◌*◌, ◌/◌, ◌%◌, ◌≤◌, ◌<◌, ◌≡◌, inl, inr, refl, sym, ◌∙◌, arith, Ptr,
  Option-cases, List, Option, none, some,
}
use mathlib.Core.Path.{subst}
use native.Mathlib.Decide.{ℕ_discrete}
use satpi.DvbapiFilter.{FilterData, Filters, find_at, find_loop, find, demux_size, filter_size}
use satpi.DvbapiFilter.Looked.{
  at, Passed, Completed, Fails, Outside, fs1, find_at-Looked, at-put, put-outside, at-put_other,
}

module _ (id pid : ℕ) (packet : Ptr) (table_id : ℕ) where
  -- The filters of the indices from `lo` up to `hi` are passed.
  abbrev AllPassed : ℕ → ℕ → Filters → Filters → Type 0
  AllPassed lo hi fs fs' =
      (j : ℕ) → lo ≤ j → j < hi → Passed id pid packet table_id (at fs j) (at fs' j)

  abbrev Unchanged : ℕ → ℕ → Filters → Filters → Type 0
  Unchanged lo hi fs fs' = (d k : ℕ) → Outside lo hi d k → fs' d k ≡ fs d k

  -- What a search over the indices from `lo` up to `hi` comes to.
  abbrev pub Outcome : ℕ → ℕ → Filters → Option (Filters × Option (ℕ × ℕ × List ℕ)) → Type 0
  Outcome lo hi fs none =
      (n : ℕ) × (lo ≤ n)
      × (n < hi)
      × ((j : ℕ) → lo ≤ j → j < n → (f : FilterData) × Passed id pid packet table_id (at fs j) f)
      × Fails id pid packet table_id (at fs n)
  Outcome lo hi fs (some (fs', none)) = AllPassed lo hi fs fs' × Unchanged lo hi fs fs'
  Outcome lo hi fs (some (fs', some (demux, filter, bytes))) =
      (n : ℕ) × (lo ≤ n)
      × (n < hi)
      × (demux ≡ n / filter_size)
      × (filter ≡ n % filter_size)
      × AllPassed lo n fs fs'
      × Completed id pid packet table_id (at fs n) (at fs' n) bytes
      × Unchanged lo (suc n) fs fs'

  -- A filter is passed before the others are searched.
  module _ (i hi : ℕ) (fs : Filters) (g : FilterData)
      (passed : Passed id pid packet table_id (at fs i) g) where
    first-AllPassed :
        (n : ℕ) (fs' : Filters)
        → AllPassed (suc i) n (fs1 fs i g) fs'
        → Unchanged (suc i) (suc n) (fs1 fs i g) fs'
        → AllPassed i n fs fs'
    first-AllPassed n fs' all same j lo lt = elim (ℕ_discrete i j) [
      | yes e ↦
          let kept : at fs' i ≡ g =
            same (i / filter_size) (i % filter_size) (λ j' lo' hi' e e'. omega (arith, lo', e, e'))
            ∙ at-put fs i g in
          subst (λ j. Passed id pid packet table_id (at fs j) (at fs' j)) e (rw kept passed)
      | no ne ↦
          subst (λ f. Passed id pid packet table_id f (at fs' j))
            (at-put_other fs i g j (λ e. ne (sym e))) (all j (omega arith) lt)
    ]

    first-Unchanged :
        (n : ℕ) (fs' : Filters)
        → i < n
        → Unchanged (suc i) n (fs1 fs i g) fs'
        → Unchanged i n fs fs'
    first-Unchanged n fs' lt same d k out =
        same d k (λ j lo hi. out j (omega arith) hi)
        ∙ put-outside fs i g d k (out i (omega arith) lt)

    extend :
        (r : Option (Filters × Option (ℕ × ℕ × List ℕ)))
        → i < hi
        → Outcome (suc i) hi (fs1 fs i g) r
        → Outcome i hi fs r
    extend none lt (n, lo, up, all, fails) = (
      n,
      omega arith,
      up,
      λ j lo' lt'. elim (ℕ_discrete i j) [
        | yes e ↦ (g, subst (λ j. Passed id pid packet table_id (at fs j) g) e passed)
        | no ne ↦
            subst (λ f. (f' : FilterData) × Passed id pid packet table_id f f')
              (at-put_other fs i g j (λ e. ne (sym e))) (all j (omega arith) lt')
      ],
      subst (Fails id pid packet table_id) (at-put_other fs i g n (omega arith)) fails,
    )
    extend (some (fs', none)) lt (all, same) = (
      λ j lo up.
          first-AllPassed hi fs' all (λ d k out. same d k (λ j lo up. out j lo (omega arith))) j lo
            up,
      first-Unchanged hi fs' lt same,
    )
    extend (some (fs', some (demux, filter, bytes))) lt (n, lo, up, d, k, all, done, same) = (
      n,
      omega arith,
      up,
      d,
      k,
      first-AllPassed n fs' all same,
      subst (λ f. Completed id pid packet table_id f (at fs' n) bytes)
          (at-put_other fs i g n (omega arith)) done,
      first-Unchanged (suc n) fs' (omega arith) same,
    )

  find_loop-Outcome :
      (i left : ℕ) (fs : Filters)
      → Outcome i (i + left) fs (find_loop id pid packet table_id i left fs)
  unfolding find_loop
  find_loop-Outcome i zero fs = (λ j lo up. absurd (omega arith), λ d k out. refl)
  find_loop-Outcome i (suc left) fs =
      elim (Option-cases (find_at id pid packet table_id (at fs i))) [
        | inl e ↦
            rw (e, find_loop)
              (
                i,
                omega arith,
                omega arith,
                λ j lo up. absurd (omega arith),
                rw e at (find_at-Looked id pid packet table_id (at fs i)),
              )
        | inr ((g, none), e) ↦
            rw (e, find_loop)
              (extend i (i + suc left) fs g
                (rw e at (find_at-Looked id pid packet table_id (at fs i)))
                (find_loop id pid packet table_id (suc i) left (fs1 fs i g)) (omega arith)
                (subst
                  (λ hi.
                    Outcome (suc i) hi (fs1 fs i g)
                      (find_loop id pid packet table_id (suc i) left (fs1 fs i g)))
                  (omega arith) (find_loop-Outcome (suc i) left (fs1 fs i g))))
        | inr ((g, some bytes), e) ↦
            rw (e, find_loop)
              (
                i,
                omega arith,
                omega arith,
                refl,
                refl,
                λ j lo up. absurd (omega arith),
                subst (λ f. Completed id pid packet table_id (at fs i) f bytes)
                    (sym (at-put fs i g))
                    (rw e at (find_at-Looked id pid packet table_id (at fs i))),
                λ d k out. put-outside fs i g d k (out i (omega arith) (omega arith)),
              )
      ]

  -- `find` looks at the filters in the order of their index, demux by demux. A filter that is not in
  -- use for the frontend and the PID stays entirely as it was; one that is and does not match is left
  -- not collecting; one that is and matches, or is collecting, takes the packet into its table, and is
  -- unchanged else. The first whose table is complete with the packet is reported, by its demux and
  -- number and with the bytes of its first section, and is ready to collect anew; the filters behind
  -- it are left as they were. If no table is complete nothing is reported. It stops at a table that is
  -- read behind its bytes.
  pub find-Outcome :
      (fs : Filters) → Outcome 0 (demux_size * filter_size) fs (find id pid packet table_id fs)
  unfolding find
  find-Outcome fs = find_loop-Outcome 0 (demux_size * filter_size) fs
